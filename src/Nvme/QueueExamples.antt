-- ===== src/Nvme/QueueExamples.antt =====
-- src/c/sysdev/nvme/pci.c: the results at a small machine, and runs of the functions.
use kdrivers.Base.{
  ℕ, ◌+◌, ◌%◌, ◌≤◌, ◌≡◌, refl, ap, none, some, [], Bool, true, false, leb, le→leb, if◌then◌else◌,
  done, arith,
}
use kdrivers.Base.Masks.{plain_masks}
use kdrivers.Nvme.{QcEntry, QPair, no_command}
use kdrivers.Nvme.Kernel.{Kernel}
use kdrivers.Nvme.Queue.{
  State, command_id, command_slot, next_phase, sent, nvme_pci_submit_command,
  nvme_pci_poll_completion,
}
use kdrivers.Nvme.Completion.{IsSettled, Arrives, now, later, nvme_pci_poll_completion-submit}

-- A completion comes when the queue has been read three times.
pub record Machine : Type 0 where
  pub reads : ℕ
  pub submitted : ℕ
  pub completed : ℕ

pub record Ring : Type 0 where
  pub size : ℕ
  pub submission : Bool

abbrev pub completion : QcEntry
completion = record {
  dw0 = 9;
  dw1 = 0;
  sq_head_ptr = 1;
  sq_ident = 1;
  cid = 129;
  phase = 1;
  status = 0;
}

abbrev entry_at : ℕ → QcEntry
entry_at reads = if leb 3 reads then completion else record completion { phase = 0; cid = 0 }

abbrev allocate : Ring → Machine → ℕ × Machine
allocate r w =
    if r.submission
    then (w.submitted % r.size, record w { submitted = w.submitted + 1 })
    else (w.completed % r.size, record w { completed = w.completed + 1 })

abbrev kernel : Kernel
kernel = record {
  World = Machine;
  Ring = Ring;
  objs = λ r. r.size;
  base = λ r. 0;
  idx = λ r w. if r.submission then w.submitted % r.size else w.completed % r.size;
  init_ringbuffer = λ base objs size w. (some (record { size = objs; submission = true }), w);
  ringbuffer_allocate = λ r n w. allocate r w;
  ringbuffer_write = λ r i cmd w. w;
  ringbuffer_free = λ r i w. w;
  read_entry = λ r i w. (entry_at w.reads, record w { reads = w.reads + 1 });
  read_register = λ props r w. (0, w);
  write_register = λ props r v w. w;
  write_doorbell = λ a v w. w;
  arch_interrupts_enabled = λ w. false;
  enable_interrupt = λ w. w;
  disable_interrupt = λ w. w;
  pmm_alloc = λ n w. (none, w);
  clear = λ p n w. w;
  read_props = λ p w. ([], w);
  write_props = λ p bytes w. w;
  to_phys = λ p. p;
}

abbrev pub pair : QPair Ring
pair = record {
  subq = record { size = 64; submission = true };
  cmpq = record { size = 256; submission = false };
  id = 1;
  phase = 1;
}

abbrev state : State Ring
state = record { props = 0; exposed = 0; adminq = record pair { id = 0 } }

-- Two commands have been submitted; the next one has slot 2.
abbrev start : Machine
start = record { reads = 1; submitted = 2; completed = 255 }

abbrev Settled : Machine → Type 0
Settled w = (3 ≤ w.reads) × (w.completed ≡ 255)

is_settled : IsSettled plain_masks kernel state pair 255 completion Settled
is_settled = record {
  next = λ w s. ap (λ (n : ℕ). n % 256) s.1;
  reads = λ w s.
      ap (λ (b : Bool). if b then completion else record completion { phase = 0; cid = 0 })
        (le→leb 3 w.reads s.0);
  after_read = λ w s. let h = s.0 in (omega arith, s.1);
  after_disable = λ w s. s;
}

arrives :
    Arrives plain_masks kernel state pair 255 completion Settled 2
      (record { reads = 1; submitted = 3; completed = 255 })
arrives = later refl (λ e. omega arith) (later refl (λ e. omega arith) (now (omega arith, refl)))

-- The third command of the queue, whose completion is the last entry of the completion queue.
nvme_pci_poll_completion-submit_example :
    let put = sent plain_masks kernel state false pair no_command start in
    (nvme_pci_submit_command plain_masks kernel state (some pair) (some no_command) start
      ≡ done (some put.0, put.1))
    × (w' : Machine) × (nvme_pci_poll_completion plain_masks kernel state 3 (some put.0) true put.1
        ≡ done (((0, some completion), some pair), w'))
unfolding sent
nvme_pci_poll_completion-submit_example =
    nvme_pci_poll_completion-submit plain_masks kernel state pair no_command true start 2 3 255
      completion Settled is_settled arrives (omega arith) refl refl (omega arith) (omega arith)
      (omega arith) (omega arith) (omega arith) (omega arith) (λ w'. omega arith)

-- The identifiers of commands, and the slots that they free.
ids : command_id false 3 5 ≡ 323
unfolding command_id
ids = refl

admin_slot : command_slot 0 (command_id true 0 5) ≡ 32773
unfolding command_id command_slot
admin_slot = refl

phase_kept : next_phase 255 256 1 ≡ 1
unfolding next_phase
phase_kept = refl
