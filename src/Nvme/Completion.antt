-- ===== src/Nvme/Completion.antt =====
-- src/c/sysdev/nvme/pci.c: a command that is submitted is completed.
use kdrivers.Base.{
  ℕ, zero, suc, ◌+◌, ◌*◌, ◌/◌, ◌%◌, ◌^◌, ◌<◌, ◌≡◌, ◌≢◌, refl, ap, ◌∙◌, Option, none, some, Bool,
  true, false, bit_and, bit_or-fields, bit_and-mask6, bit_and-mask8, ◌==◌, if◌then◌else◌, ==_false,
  ==_true, u16, u32, Outcome, done, arith,
}
use kdrivers.Base.Masks.{Masks}
use kdrivers.Nvme.{QsEntry, QcEntry, QPair}
use kdrivers.Nvme.Kernel.{Kernel, cap}
use kdrivers.Nvme.Queue.{
  State, command_id, command_slot, next_phase, sent, nvme_pci_submit_command, wait_completion,
  complete, give_entry, cq_doorbell, nvme_pci_poll_completion,
}

-- The identifier of a command for an I/O queue, and of one for the administration queue.
io_command_id : (id ptr : ℕ) → ptr < 256 → command_id false id ptr ≡ ptr * 64 + id % 64
unfolding command_id
io_command_id id ptr h =
    let low : bit_and id 0x3f ≡ id % 64 = bit_and-mask6 id in
    let high : bit_and ptr 0xff ≡ ptr = bit_and-mask8 ptr ∙ omega arith in
    rw (low, high) (ap u16 (bit_or-fields 6 ptr (id % 64) (omega arith)) ∙ omega arith)

admin_command_id : (id ptr : ℕ) → ptr < 256 → command_id true id ptr ≡ 2 ^ 15 + ptr
unfolding command_id
admin_command_id id ptr h =
    let high : bit_and ptr 0xff ≡ ptr = bit_and-mask8 ptr ∙ omega arith in
    rw high (ap u16 (bit_or-fields 15 1 ptr (omega arith)) ∙ omega arith)

-- The slot that an I/O command was given is the one that its completion frees.
pub command_slot-command_id :
    (id ptr : ℕ) → id ≢ 0 → ptr < 256 → command_slot id (command_id false id ptr) ≡ ptr
unfolding command_slot
command_slot-command_id id ptr nonzero h =
    let slot : (ptr * 64 + id % 64) / 2 ^ 6 ≡ ptr = omega arith in
    rw (==_false id 0 nonzero, io_command_id id ptr h, slot) (bit_and-mask8 ptr ∙ omega arith)

-- The administration queue's commands are freed by an index that is none of the queue's.
pub command_slot-admin :
    (ptr : ℕ) → ptr < 256 → command_slot 0 (command_id true 0 ptr) ≡ 2 ^ 15 + ptr
unfolding command_slot
command_slot-admin ptr h = admin_command_id 0 ptr h

-- The phase is flipped twice at the end of the queue, and so never changes.
pub next_phase-same :
    (slot objs phase : ℕ)
    → slot < objs
    → objs < 2 ^ 64
    → phase < 2
    → next_phase slot objs phase ≡ phase
unfolding next_phase
next_phase-same slot objs phase h k p = ground arith

module _ (masks : Masks) (k : Kernel) (state : State k.Ring) where
  open k use {
    World, Ring, objs, idx, ringbuffer_allocate, ringbuffer_free, read_entry, disable_interrupt,
  }

  module _ (qpair : QPair Ring) (i : ℕ) (e : QcEntry) where
    -- The queue's next entry is `i` and holds `e`, and reading it does not change that, nor does
    -- disabling interrupts.
    pub record IsSettled (Settled : World → Type 0) : Type 0 where
      pub next : (w : World) → Settled w → idx qpair.cmpq w ≡ i
      pub reads : (w : World) → Settled w → (read_entry qpair.cmpq i w).0 ≡ e
      pub after_read : (w : World) → Settled w → Settled (read_entry qpair.cmpq i w).1
      pub after_disable : (w : World) → Settled w → Settled (disable_interrupt w)

    -- The entry comes after `n` reads, which find it in the other phase.
    pub data Arrives (Settled : World → Type 0) : ℕ → World → Type 0 where
      now : {w : World} → Settled w → Arrives Settled 0 w
      later :
          {n : ℕ} {w : World}
          → idx qpair.cmpq w ≡ i
          → (read_entry qpair.cmpq i w).0.phase ≢ qpair.phase
          → Arrives Settled n (read_entry qpair.cmpq i w).1
          → Arrives Settled (suc n) w

    module _ (Settled : World → Type 0) (settled : IsSettled Settled) (cid : ℕ)
        (same_phase : e.phase ≡ qpair.phase) (same_cid : e.cid ≡ cid) where
      pub wait_completion-Arrives :
          (n fuel : ℕ) (w : World)
          → Arrives Settled n w
          → n < fuel
          → (w' : World) × (wait_completion masks k state fuel qpair cid w ≡ done (i, w'))
            × Settled w'
      unfolding wait_completion
      wait_completion-Arrives n zero w a h = absurd (omega arith)
      wait_completion-Arrives zero (suc fuel) w (now s) h =
          let w1 = (read_entry qpair.cmpq i w).1 in
          let s1 = settled.after_read w s in
          let w2 = (read_entry qpair.cmpq i w1).1 in
          let phase_test : ((read_entry qpair.cmpq i w).0.phase == qpair.phase) ≡ true =
            ==_true _ _ (ap (λ (c : QcEntry). c.phase) (settled.reads w s) ∙ same_phase) in
          let cid_test : ((read_entry qpair.cmpq i w1).0.cid == cid) ≡ true =
            ==_true _ _ (ap (λ (c : QcEntry). c.cid) (settled.reads w1 s1) ∙ same_cid) in
          (w2, rw (settled.next w s, phase_test, cid_test) refl, settled.after_read w1 s1)
      wait_completion-Arrives (suc n) (suc fuel) w (later at other a) h =
          let rest = wait_completion-Arrives n fuel (read_entry qpair.cmpq i w).1 a (omega arith) in
          let phase_test : ((read_entry qpair.cmpq i w).0.phase == qpair.phase) ≡ false =
            ==_false _ _ other in
          (rest.0, rw (at, phase_test) rest.1, rest.2)

      gives :
          (wanted : Bool) (w : World)
          → Settled w
          → (give_entry masks k state wanted qpair.cmpq i w).0 ≡ (if wanted then some e else none)
      gives true w s = ap some (settled.reads w s)
      gives false w s = refl

      -- What follows the wait.
      complete-Settled :
          (wanted : Bool) (w : World)
          → Settled w
          → 0 < objs qpair.cmpq
          → objs qpair.cmpq < 2 ^ 64
          → qpair.phase < 2
          → ((w' : World) → (ringbuffer_allocate qpair.cmpq 1 w').0 < objs qpair.cmpq)
          → (w' : World) × (complete masks k state wanted qpair cid i w
              ≡ done (
                ((e.status, if wanted then some e else none), qpair),
                ringbuffer_free qpair.subq (command_slot qpair.id cid) w',
              ))
      unfolding complete
      complete-Settled wanted w s some_slots small phase in_ring =
          let w1 = (read_entry qpair.cmpq i w).1 in
          let given = give_entry masks k state wanted qpair.cmpq i w1 in
          let slot = ringbuffer_allocate qpair.cmpq 1 given.1 in
          let c = k.read_register state.props cap slot.1 in
          let w5 =
            k.write_doorbell (cq_doorbell masks state.props c.0 qpair.id)
              (u32 (u32 slot.0 + 1) % objs qpair.cmpq) c.1 in
          let result : ℕ
              → Option QcEntry
              → ℕ
              → Outcome (((ℕ × Option QcEntry) × QPair Ring) × World) =
            λ status ret p. done (
              ((status, ret), record qpair { phase = p }),
              ringbuffer_free qpair.subq (command_slot qpair.id cid) w5,
            ) in
          let p = next_phase slot.0 (objs qpair.cmpq) qpair.phase in
          (
            w5,
            rw (==_false (objs qpair.cmpq) 0 (omega arith)) (
                ap (λ (c : QcEntry). result c.status given.0 p) (settled.reads w s)
                ∙ ap (λ (r : Option QcEntry). result e.status r p)
                    (gives wanted w1 (settled.after_read w s))
                ∙ ap (λ (n : ℕ). result e.status (if wanted then some e else none) n)
                    (next_phase-same slot.0 (objs qpair.cmpq) qpair.phase (in_ring given.1) small
                      phase)),
          )

  still :
      (qpair : QPair Ring) (i : ℕ) (e : QcEntry) (Settled : World → Type 0)
      → IsSettled qpair i e Settled
      → (enabled : Bool) (w : World) → Settled w
      → Settled (if enabled then w else disable_interrupt w)
  still qpair i e Settled settled true w s = s
  still qpair i e Settled settled false w s = settled.after_disable w s

  poll-Arrives :
      (qpair : QPair Ring) (cmd : QsEntry) (wanted : Bool) (w : World) (n fuel i : ℕ) (e : QcEntry)
      (Settled : World → Type 0)
      → IsSettled qpair i e Settled
      → Arrives qpair i e Settled n w
      → n < fuel
      → e.phase ≡ qpair.phase
      → e.cid ≡ cmd.cid
      → 0 < objs qpair.cmpq
      → objs qpair.cmpq < 2 ^ 64
      → qpair.phase < 2
      → ((w' : World) → (ringbuffer_allocate qpair.cmpq 1 w').0 < objs qpair.cmpq)
      → (w' : World) × (nvme_pci_poll_completion masks k state fuel
            (some (record { qpair = qpair; cmd = cmd }))
            wanted
            w
          ≡ done (
            ((e.status, if wanted then some e else none), some qpair),
            ringbuffer_free qpair.subq (command_slot qpair.id cmd.cid) w',
          ))
  unfolding nvme_pci_poll_completion
  poll-Arrives qpair cmd wanted w n fuel i e Settled settled arrives enough phase cid comps small
        phases in_ring =
      let found =
        wait_completion-Arrives qpair i e Settled settled cmd.cid phase cid n fuel w arrives
          enough in
      let w1 = if k.arch_interrupts_enabled w then found.0 else disable_interrupt found.0 in
      let s1 : Settled w1 =
        still qpair i e Settled settled (k.arch_interrupts_enabled w) found.0 found.2 in
      let r =
        complete-Settled qpair i e Settled settled cmd.cid phase cid wanted w1 s1 comps small phases
          in_ring in
      (r.0, rw (found.1, r.1) refl)

  -- A command that is submitted to an I/O queue is completed: where its completion entry arrives
  -- after some number of reads of the queue, polling with more rounds than that ends, gives the
  -- status and the entry, and frees the slot of the submission queue that the command was given.
  -- It leaves the queue pair as it was, its phase too, at the end of the completion queue as well,
  -- where the phase of new entries changes.
  pub nvme_pci_poll_completion-submit :
      (qpair : QPair Ring) (cmd : QsEntry) (wanted : Bool) (w : World) (n fuel i : ℕ) (e : QcEntry)
      (Settled : World → Type 0)
      → let slot = (ringbuffer_allocate qpair.subq 1 (disable_interrupt w)).0 in
        let put = sent masks k state false qpair cmd w in
        IsSettled qpair i e Settled
        → Arrives qpair i e Settled n put.1
        → n < fuel
        → e.phase ≡ qpair.phase
        → e.cid ≡ command_id false qpair.id slot
        → qpair.id ≢ 0
        → slot < 256
        → 0 < objs qpair.subq
        → 0 < objs qpair.cmpq
        → objs qpair.cmpq < 2 ^ 64
        → qpair.phase < 2
        → ((w' : World) → (ringbuffer_allocate qpair.cmpq 1 w').0 < objs qpair.cmpq)
        → (nvme_pci_submit_command masks k state (some qpair) (some cmd) w
            ≡ done (some put.0, put.1))
          × (w' : World) × (nvme_pci_poll_completion masks k state fuel (some put.0) wanted put.1
              ≡ done (
                ((e.status, if wanted then some e else none), some qpair),
                ringbuffer_free qpair.subq slot w',
              ))
  unfolding nvme_pci_submit_command sent
  nvme_pci_poll_completion-submit qpair cmd wanted w n fuel i e Settled settled arrives enough phase
        cid io slot_small subs comps small phases in_ring =
      let slot = (ringbuffer_allocate qpair.subq 1 (disable_interrupt w)).0 in
      let put = sent masks k state false qpair cmd w in
      let r =
        poll-Arrives qpair put.0.cmd wanted put.1 n fuel i e Settled settled arrives enough phase
          cid comps small phases in_ring in
      let freed = command_slot-command_id qpair.id slot io slot_small in
      (
        rw (==_false (objs qpair.subq) 0 (omega arith)) refl,
        r.0,
        r.1
            ∙ ap
                (λ (j : ℕ). done (
                  ((e.status, if wanted then some e else none), some qpair),
                  ringbuffer_free qpair.subq j r.0,
                ))
                freed,
      )
