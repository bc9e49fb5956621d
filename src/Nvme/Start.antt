-- ===== src/Nvme/Start.antt =====
-- src/c/sysdev/nvme/namespace.c: starting a namespace.
use kdrivers.Base.{
  ℕ, zero, suc, ◌+◌, min, Option, none, some, List, bit_and, bit_or, get_elem?, ◌==◌, ltb,
  if◌then◌else◌, u8, u32, sub32, ◌<<◌, Outcome, done, fault, ◌>>=◌,
}
use kdrivers.Base.{sign_extend}
use kdrivers.Base.Alloc.{neg}
use kdrivers.Base.Masks.{Masks}
use kdrivers.Base.Memory.{load64, load8, load32}
use kdrivers.Nvme.{QsEntry, QPair, no_command, page_size}
use kdrivers.Nvme.Transport.{Transport}
use kdrivers.Nvme.Controller.{run_command}
use kdrivers.Nvme.Namespace.{State}

-- `1 << exp` for an `int`: 0 where the bit is shifted out, and the conversion to `size_t`.
unfoldable pub size_of_exp : ℕ → ℕ
size_of_exp exp = sign_extend (u32 (1 << exp))

module _ (t : Transport) (masks : Masks) where
  open t use {World, pmm_fast_page_alloc, to_phys, load}

  module _ {Ring : Type 0} (base objs : Ring → ℕ) where
    -- The two commands that create the queues of a pair. An `irq` above 31 sets a bit.
    unfoldable pub completion_queue_command : QPair Ring → ℕ → ℕ → QsEntry
    completion_queue_command qpair nvm_set irq = record no_command {
      opcode = 5;
      entry1 = to_phys (some (base qpair.cmpq));
      cdw10 = u32 (bit_or (u32 (sub32 (objs qpair.cmpq) 1 << 16)) qpair.id);
      cdw11 =
          u32 (bit_or (bit_and irq 0xffff << 16) (bit_or ((if ltb 31 irq then 1 else 0) << 1) 1));
      cdw12 = nvm_set;
    }

    unfoldable pub submission_queue_command : QPair Ring → QsEntry → QsEntry
    submission_queue_command qpair cmd = record cmd {
      opcode = 1;
      entry1 = to_phys (some (base qpair.subq));
      cdw10 = u32 (bit_or (u32 (sub32 (objs qpair.subq) 1 << 16)) qpair.id);
      cdw11 = u32 (bit_or (u32 (qpair.id << 16)) 1);
    }

    -- The queues of a pair are not `NULL`.
    unfoldable pub nvme_register_io_qpair :
        Option (QPair Ring) → ℕ → ℕ → World → Outcome (ℕ × World)
    unfolding completion_queue_command submission_queue_command
    nvme_register_io_qpair none nvm_set irq w = done (neg 1, w)
    nvme_register_io_qpair (some qpair) nvm_set irq w =
        let cmd = completion_queue_command qpair nvm_set irq in
        run_command t cmd w >>= λ first.
        let second = run_command t (submission_queue_command qpair cmd) first.1 >>= λ r.
        done ((if r.0.status == 0 then 0 else bit_or (2 << 16) r.0.status), r.1) in
        if first.0.status == 0 then second else done (bit_or (1 << 16) first.0.status, first.1)

    -- The loop over the pairs of a namespace: a failure is only reported. An index behind the
    -- controller's pairs is out of range.
    unfoldable pub register_io_qpairs : List (QPair Ring) → ℕ → ℕ → ℕ → World → Outcome World
    unfolding nvme_register_io_qpair
    register_io_qpairs qs zero i nvm_set w = done w
    register_io_qpairs qs (suc left) i nvm_set w = elim (get_elem? qs i) [
      | none ↦ fault
      | some qpair ↦ nvme_register_io_qpair (some qpair) nvm_set 0 w >>= λ r.
          register_io_qpairs qs left (i + 1) nvm_set r.1
    ]

  -- What the identify data of a namespace says.
  unfoldable pub read_info : List ℕ → State → Outcome State
  unfolding load8 load32 load64 size_of_exp
  read_info bytes state = do
    format ← load8 bytes 26
    let format_idx =
          u8 (bit_or (masks.masked_read format 5 3 << 4) (masks.masked_read format 0 0xf)) in
        load32 bytes (128 + format_idx) >>= λ lbaf. load8 bytes 100 >>= λ nvm_set.
        load64 bytes 0 >>= λ nsze. load64 bytes 8 >>= λ ncap. done (record state {
          meta_follows_lba = masks.masked_read format 4 1;
          lba_size = size_of_exp (u8 (masks.masked_read lbaf 16 0xff));
          meta_size = masks.masked_read lbaf 0 0xffff;
          nvm_set = nvm_set;
          nsze = nsze;
          ncap = ncap;
        })

  -- A further identify command: `go` is what follows where its status is 0.
  unfoldable pub info_command :
      ℕ
      → QsEntry
      → State
      → (World → Outcome ((ℕ × State) × World))
      → World
      → Outcome ((ℕ × State) × World)
  info_command step cmd state go w = run_command t cmd w >>= λ r.
      let rest = go r.1 in
      if r.0.status == 0 then rest else done ((bit_or (step << 16) r.0.status, state), r.1)

  unfoldable pub info_commands : QsEntry → State → World → Outcome ((ℕ × State) × World)
  unfolding info_command
  info_commands cmd state w =
      info_command 2 (record cmd { cdw10 = 5 }) state
        (λ w1.
          info_command 3 (record cmd { cdw10 = 6 }) state
            (λ w2.
              info_command 4 (record cmd { cdw10 = 8; cdw11 = 0 }) state
                (λ w3. done ((0, state), w3)) w2)
            w1)
        w

  unfoldable pub namespace_get_info : State → World → Outcome ((ℕ × State) × World)
  unfolding info_command info_commands read_info
  namespace_get_info state w =
      let (page, w1) = pmm_fast_page_alloc w in
      elim page [
        | none ↦ done ((neg 1, state), w1)
        | some p ↦
            let cmd : QsEntry = record no_command {
              opcode = 6;
              entry1 = to_phys (some p);
              cdw10 = 0;
              cdw11 = u32 (bit_and state.command_set 0xff << 24);
              nsid = state.namespace;
            } in
            info_command 1 cmd state
              (λ w2.
                read_info (load p page_size w2) state >>= λ state'. info_commands cmd state' w2)
              w1
      ]

  -- `held` is what the allocation of the state gives. The controller's queue pairs: those that
  -- were granted, the number that is in use, and the array. The code, the state, the new number.
  module _ {Ring : Type 0} (base objs : Ring → ℕ) (processors granted : ℕ)
      (qs : List (QPair Ring)) where
    abbrev pub queue_count : ℕ
    queue_count = u32 (min processors granted)

    abbrev pub Initialised : Type 0
    Initialised = ((ℕ × Option State) × ℕ) × World

    unfoldable pub finish_namespace : ℕ → (ℕ × State) × World → Outcome Initialised
    unfolding register_io_qpairs
    finish_namespace init ((code, state), w) =
        let registered =
          register_io_qpairs base objs qs queue_count state.qpair_base state.nvm_set w >>= λ w'.
          done (((0, some state), init), w') in
        if code == 0 then registered else done (((neg 2, none), init), w)

    unfoldable pub init_nvme_namespace : Option State → ℕ → ℕ → ℕ → World → Outcome Initialised
    unfolding namespace_get_info finish_namespace
    init_nvme_namespace none namespace command_set init w = done (((neg 1, none), init), w)
    init_nvme_namespace (some held) namespace command_set init w =
        let state = record held {
          block_size = page_size;
          namespace = namespace;
          command_set = command_set;
          qpair_base = u32 init;
          qpair_count = queue_count;
        } in
        namespace_get_info state w >>= λ r. finish_namespace (init + queue_count) r
