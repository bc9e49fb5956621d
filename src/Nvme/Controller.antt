-- ===== src/Nvme/Controller.antt =====
-- src/c/sysdev/nvme/nvme.c: identifying a controller, its queue pairs and its namespaces.
use kdrivers.Base.{
  ℕ, zero, suc, ◌+◌, ◌*◌, ◌/◌, min, Option, none, some, Bool, true, false, List, [], ◌∷◌, ◌++◌,
  bit_or, get_elem?, length, replicate, if◌then◌else◌, u16, u32, sub32, ◌<<◌, Outcome, done, fault,
  ◌>>=◌,
}
use kdrivers.Base.Alloc.{neg}
use kdrivers.Base.Masks.{Masks}
use kdrivers.Base.Memory.{load8, load16, load32}
use kdrivers.Nvme.{QsEntry, QcEntry, QPair, no_command, page_size}
use kdrivers.Nvme.Transport.{Transport}

-- `ctrl_iden` of `nvme_driver_state_t`.
pub record ControllerIden : Type 0 where
  pub max_transfer_size : ℕ
  pub id : ℕ
  pub version : ℕ
  pub kind : ℕ
  pub ctratt : ℕ

-- `nvme_namespace_t`; the list is one of Base.
pub record NamespaceArgs : Type 0 where
  pub namespace : ℕ
  pub command_set : ℕ

module _ (t : Transport) where
  open t use {
    World, Wrap, submit, poll, pmm_alloc, pmm_fast_page_alloc, pmm_free, pmm_fast_page_free,
    to_phys, load, store,
  }

  -- A command for the administration queue, until it is completed.
  abbrev pub run_command : QsEntry → World → Outcome (QcEntry × World)
  run_command cmd w = let (wrap, w') = submit none cmd w in poll wrap w'

  -- What the identify data of a controller says.
  unfoldable pub read_identity : List ℕ → Outcome ControllerIden
  unfolding load8 load16 load32
  read_identity bytes = do
    size ← load8 bytes 77
    id ← load16 bytes 78
    version ← load32 bytes 80
    ctratt ← load32 bytes 96
    kind ← load8 bytes 111
    done (record {
      max_transfer_size = size;
      id = id;
      version = version;
      kind = kind;
      ctratt = ctratt;
    })

  abbrev identify : ℕ → Option ℕ → QsEntry
  identify cdw10 page = record no_command { opcode = 6; entry1 = to_phys page; cdw10 = cdw10 }

  -- A page that could not be allocated is a fault at the first read of it.
  unfoldable pub nvme_identify_controller : World → Outcome (ControllerIden × World)
  unfolding read_identity
  nvme_identify_controller w =
      let (page, w1) = pmm_fast_page_alloc w in
      run_command (identify 1 page) w1 >>= λ first.
      let w2 = first.1 in
      elim page [
        | none ↦ fault
        | some p ↦
            (read_identity (load p page_size w2) >>= λ iden.
            run_command (identify 2 (some p)) w2 >>= λ second.
            done (iden, pmm_fast_page_free (some p) second.1))
      ]

  -- The number of queue pairs that are granted, of `qcount` that are requested.
  unfoldable pub nvme_request_io_queues : Masks → ℕ → World → Outcome (ℕ × World)
  nvme_request_io_queues masks qcount w =
      let n = sub32 qcount 1 in
      let cmd = record no_command { opcode = 9; cdw10 = 7; cdw11 = bit_or (u32 (n << 16)) n } in
      run_command cmd w >>= λ r.
      let dw0 = r.0.dw0 in
      done (u16 (min (masks.masked_read dw0 0 0xffff) (masks.masked_read dw0 16 0xffff) + 1), r.1)

  module _ {Ring : Type 0} (base : Ring → ℕ)
      (init_ringbuffer : ℕ → ℕ → ℕ → World → Option Ring × World) where
    -- The pair of both queues, once the memory and the first one are there.
    unfoldable pub with_completion : ℕ → Ring → Option Ring × World → Option (QPair Ring) × World
    with_completion i sub (none, w) = (none, w)
    with_completion i sub (some cmp, w) =
        (some (record { subq = sub; cmpq = cmp; id = i + 1; phase = 1 }), w)

    unfoldable pub with_submission : ℕ → ℕ → ℕ → Option Ring × World → Option (QPair Ring) × World
    unfolding with_completion
    with_submission i qsize p (none, w) = (none, w)
    with_submission i qsize p (some sub, w) =
        with_completion i sub (init_ringbuffer (p + qsize) (qsize / 16) 16 w)

    unfoldable pub with_memory : ℕ → ℕ → Option ℕ × World → Option (QPair Ring) × World
    unfolding with_submission
    with_memory i qsize (none, w) = (none, w)
    with_memory i qsize (some p, w) =
        with_submission i qsize p
          (init_ringbuffer p (qsize / 64) 64 (store p (replicate (qsize * 2) 0) w))

    -- A pair of queues in one piece of memory, `none` where a part of it could not be had.
    unfoldable pub make_qpair : ℕ → ℕ → World → Option (QPair Ring) × World
    unfolding with_memory
    make_qpair i qsize w = with_memory i qsize (pmm_alloc (qsize * 2) w)

    -- The loop over the pairs that are left: whether all were made, and those that were.
    unfoldable pub make_qpairs :
        ℕ → ℕ → ℕ → List (QPair Ring) → World → (Bool × List (QPair Ring)) × World
    unfolding make_qpair
    make_qpairs zero i qsize made w = ((true, made), w)
    make_qpairs (suc left) i qsize made w =
        let (pair, w') = make_qpair i qsize w in
        elim pair [
          | none ↦ ((false, made), w')
          | some q ↦ make_qpairs left (i + 1) qsize (made ++ (q ∷ [])) w'
        ]

    -- An entry of the array; the entries that were not made hold what the memory held.
    unfoldable pub free_qpair : Option (QPair Ring) → World → Outcome World
    free_qpair none w = fault
    free_qpair (some q) w = done (pmm_free (some (base q.subq)) w)

    -- The loop that frees the pairs from `i` down to 0.
    unfoldable pub free_qpairs : List (QPair Ring) → ℕ → World → Outcome World
    unfolding free_qpair
    free_qpairs made zero w = free_qpair (get_elem? made 0) w
    free_qpairs made (suc i) w =
        free_qpair (get_elem? made (suc i)) w >>= λ w'. free_qpairs made i w'

    -- The first argument says whether the array is allocated.
    unfoldable pub nvme_create_io_qpairs :
        Bool → ℕ → ℕ → World → Outcome ((ℕ × List (QPair Ring)) × World)
    unfolding make_qpairs free_qpairs
    nvme_create_io_qpairs false count qsize w = done ((neg 1, []), w)
    nvme_create_io_qpairs true count qsize w =
        let (made, w') = make_qpairs count 0 qsize [] w in
        let cleaned = free_qpairs made.1 (length made.1) w' >>= λ w''. done ((neg 1, []), w'') in
        if made.0 then done ((0, made.1), w') else cleaned
