-- ===== src/Nvme/Queue.antt =====
-- src/c/sysdev/nvme/pci.c: submitting commands and polling for their completion.
use kdrivers.Base.{
  ℕ, zero, suc, ◌+◌, ◌*◌, ◌%◌, Option, none, some, Bool, true, false, bit_and, bit_or, ◌==◌, leb,
  if◌then◌else◌, u16, u32, u64, sub64, ◌<<◌, ◌>>>◌, Outcome, done, fault, out_of_fuel, ◌>>=◌,
}
use kdrivers.Base.Alloc.{neg}
use kdrivers.Base.Masks.{Masks}
use kdrivers.Nvme.{QsEntry, QcEntry, QPair}
use kdrivers.Nvme.Kernel.{Kernel, cap}

-- `driver_state_t`.
pub record State (Ring : Type 0) : Type 0 where
  pub props : ℕ
  pub exposed : ℕ
  pub adminq : QPair Ring

-- `qs_wrap_t`, with what its pointers point to.
pub record Wrap (Ring : Type 0) : Type 0 where
  pub qpair : QPair Ring
  pub cmd : QsEntry

-- The command's identifier: the slot, and the queue pair.
unfoldable pub command_id : Bool → ℕ → ℕ → ℕ
command_id true id ptr = u16 (bit_or (1 << 15) (bit_and ptr 0xff))
command_id false id ptr = u16 (bit_or (bit_and ptr 0xff << 6) (bit_and id 0x3f))

-- The slot that is freed for a command's identifier.
unfoldable pub command_slot : ℕ → ℕ → ℕ
command_slot id cid = if id == 0 then cid else bit_and (cid >>> 6) 0xff

-- C's `!`.
abbrev pub flip : ℕ → ℕ
flip phase = if phase == 0 then 1 else 0

-- The phase that is expected after slot `idx` of a completion queue with `objs` entries.
unfoldable pub next_phase : ℕ → ℕ → ℕ → ℕ
next_phase idx objs phase =
    let first = if idx == sub64 objs 1 then flip phase else phase in
    if leb objs (u64 (idx + 1)) then flip first else first

-- SQnTDBL and CQnHDBL, of the register block at `props` with capabilities `c`; `data` is at byte
-- 0x1000.
module _ (masks : Masks) where
  unfoldable pub sq_doorbell : ℕ → ℕ → ℕ → ℕ
  sq_doorbell props c n = u64 (props + 0x1000 + 2 * n * (4 << masks.masked_read c 32 0xf))

  unfoldable pub cq_doorbell : ℕ → ℕ → ℕ → ℕ
  cq_doorbell props c n = u64 (props + 0x1000 + (2 * n + 1) * (4 << masks.masked_read c 32 0xf))

  module _ (k : Kernel) (state : State k.Ring) where
    open k use {
      World, Ring, objs, idx, ringbuffer_allocate, ringbuffer_write, ringbuffer_free, read_entry,
      read_register, write_doorbell, arch_interrupts_enabled, enable_interrupt, disable_interrupt,
    }

    abbrev pub restore : Bool → World → World
    restore true w = enable_interrupt w
    restore false w = w

    -- What a submission leaves, where its doorbell's division is not by 0.
    unfoldable pub sent : Bool → QPair Ring → QsEntry → World → Wrap Ring × World
    unfolding command_id sq_doorbell
    sent admin qpair cmd w =
        let (ptr, w1) = ringbuffer_allocate qpair.subq 1 (disable_interrupt w) in
        let cmd' = record cmd { cid = command_id admin qpair.id ptr } in
        let (c, w2) = read_register state.props cap (ringbuffer_write qpair.subq ptr cmd' w1) in
        let w3 =
          write_doorbell (sq_doorbell state.props c qpair.id) (u32 (u32 ptr + 1) % objs qpair.subq)
            w2 in
        (record { qpair = qpair; cmd = cmd' }, restore (arch_interrupts_enabled w) w3)

    abbrev pub send : Bool → QPair Ring → QsEntry → World → Outcome (Option (Wrap Ring) × World)
    send admin qpair cmd w =
        let (wrap, w') = sent admin qpair cmd w in
        if objs qpair.subq == 0 then fault else done (some wrap, w')

    -- No queue pair is the administration queue; no command gives a wrapper of zeros.
    unfoldable pub nvme_pci_submit_command :
        Option (QPair Ring) → Option QsEntry → World → Outcome (Option (Wrap Ring) × World)
    unfolding sent
    nvme_pci_submit_command qpair none w = done (none, w)
    nvme_pci_submit_command none (some cmd) w = send true state.adminq cmd w
    nvme_pci_submit_command (some qpair) (some cmd) w = send false qpair cmd w

    -- The loop that waits for the entry, on fuel: its index.
    unfoldable pub wait_completion : ℕ → QPair Ring → ℕ → World → Outcome (ℕ × World)
    wait_completion zero qpair cid w = out_of_fuel
    wait_completion (suc fuel) qpair cid w =
        let i = idx qpair.cmpq w in
        let (first, w1) = read_entry qpair.cmpq i w in
        let (second, w2) = read_entry qpair.cmpq i w1 in
        let other_phase = wait_completion fuel qpair cid w1 in
        let other_command = wait_completion fuel qpair cid w2 in
        let same_phase = if second.cid == cid then done (i, w2) else other_command in
        if first.phase == qpair.phase then same_phase else other_phase

    -- Copying the entry to the caller, where it wants it.
    abbrev pub give_entry : Bool → Ring → ℕ → World → Option QcEntry × World
    give_entry true ring i w = let (entry, w') = read_entry ring i w in (some entry, w')
    give_entry false ring i w = (none, w)

    -- From the status on: what is returned, the entry, the queue pair.
    unfoldable pub complete :
        Bool → QPair Ring → ℕ → ℕ → World → Outcome (((ℕ × Option QcEntry) × QPair Ring) × World)
    unfolding next_phase command_slot cq_doorbell
    complete wanted qpair cid i w =
        let (entry, w1) = read_entry qpair.cmpq i w in
        let (ret, w2) = give_entry wanted qpair.cmpq i w1 in
        let (slot, w3) = ringbuffer_allocate qpair.cmpq 1 w2 in
        let (c, w4) = read_register state.props cap w3 in
        let w5 =
          write_doorbell (cq_doorbell state.props c qpair.id) (u32 (u32 slot + 1) % objs qpair.cmpq)
            w4 in
        let qpair' = record qpair { phase = next_phase slot (objs qpair.cmpq) qpair.phase } in
        if objs qpair.cmpq == 0
        then fault
        else done (
          ((entry.status, ret), qpair'),
          ringbuffer_free qpair.subq (command_slot qpair.id cid) w5,
        )

    unfoldable pub nvme_pci_poll_completion :
        ℕ
        → Option (Wrap Ring)
        → Bool
        → World
        → Outcome (((ℕ × Option QcEntry) × Option (QPair Ring)) × World)
    unfolding wait_completion complete
    nvme_pci_poll_completion fuel none wanted w = done (((neg 1, none), none), w)
    nvme_pci_poll_completion fuel (some wrap) wanted w = do
      found ← wait_completion fuel wrap.qpair wrap.cmd.cid w
      let w1 = if arch_interrupts_enabled w then found.1 else disable_interrupt found.1 in
          complete wanted wrap.qpair wrap.cmd.cid found.0 w1 >>= λ r.
          done ((r.0.0, some r.0.1), r.1)
