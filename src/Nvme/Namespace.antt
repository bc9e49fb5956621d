-- ===== src/Nvme/Namespace.antt =====
-- src/c/sysdev/nvme/namespace.c: reading and writing a namespace by pages.
use kdrivers.Base.{
  ℕ, zero, suc, ◌+◌, ◌*◌, ◌/◌, ◌^◌, min, Option, none, some, Bool, true, false, ◌&&◌, ◌||◌, List,
  ◌==◌, ltb, leb, if◌then◌else◌, length, replicate, u32, u64, sub64, sign_extend, Outcome, done,
  fault, out_of_fuel, ◌>>=◌,
}
use kdrivers.Base.Slices.{slice, blit}
use kdrivers.Base.Alloc.{neg}
use kdrivers.Nvme.{QsEntry, no_command, page_size}
use kdrivers.Nvme.Transport.{Transport}

-- `driver_state_t`, without the state of the controller, which is the transport's.
pub record State : Type 0 where
  pub block_size : ℕ
  pub lba_size : ℕ
  pub meta_follows_lba : ℕ
  pub meta_size : ℕ
  pub nsze : ℕ
  pub ncap : ℕ
  pub namespace : ℕ
  pub nvm_set : ℕ
  pub command_set : ℕ
  pub qpair_base : ℕ
  pub qpair_count : ℕ

-- The fields of `struct stat` that are set.
pub record Stat : Type 0 where
  pub st_blksize : ℕ
  pub st_size : ℕ

unfoldable pub stat_nvme_namespace : Option State → Bool → ℕ × Option Stat
stat_nvme_namespace (some state) true =
    (0, some (record { st_blksize = state.lba_size; st_size = state.nsze }))
stat_nvme_namespace res stat = (neg 1, none)

unfoldable pub uninit_nvme_namespace : ℕ
uninit_nvme_namespace = 0

-- ALIGN_DOWN (lib/util.h, outside the repository) is a parameter.
module _ (t : Transport) (align_down : ℕ → ℕ → ℕ) (state : State) where
  open t use {
    World, submit, poll, pmm_alloc, pmm_fast_page_alloc, pmm_free, pmm_fast_page_free, to_phys,
    smp_get_processor_id, qpair_count, load, store,
  }

  unfoldable pub page_command : Bool → ℕ → Option ℕ → Option ℕ → QsEntry
  page_command write bstart page meta = record no_command {
    opcode = if write then 1 else 2;
    entry1 = to_phys page;
    mptr = to_phys meta;
    cdw12 = u32 (sub64 (page_size / state.lba_size) 1);
    cdw10 = u32 bstart;
    cdw11 = u32 (bstart / 2 ^ 32);
    nsid = u32 state.namespace;
  }

  -- The page that `*data` points to, allocated and cleared where it is `NULL`. The clearing does
  -- not look at whether the allocation succeeded.
  unfoldable pub get_page : Option ℕ → World → Outcome (ℕ × World)
  get_page (some page) w = done (page, w)
  get_page none w =
      let (page, w') = pmm_alloc state.block_size w in
      elim page [ none ↦ fault | some p ↦ done (p, store p (replicate page_size 0) w') ]

  -- The status, the page, the world. A block size of 0, and a queue that the array does not have,
  -- are faults.
  unfoldable pub namespace_rw_page : Bool → ℕ → Option ℕ → World → Outcome ((ℕ × ℕ) × World)
  unfolding page_command get_page
  namespace_rw_page write bstart page w = get_page page w >>= λ got.
      let (p, w1) = got in
      let (meta, w2) = pmm_fast_page_alloc w1 in
      let queue = smp_get_processor_id w2 + state.qpair_base in
      let (wrap, w3) = submit (some queue) (page_command write bstart (some p) meta) w2 in
      if state.lba_size == 0 || leb (qpair_count w2) queue
      then fault
      else (poll wrap w3 >>= λ polled.
          done ((polled.0.status, p), pmm_fast_page_free meta polled.1))

  -- Where a round starts, how far into the page, how many bytes it moves, and its first block.
  unfoldable pub round_offset : ℕ → ℕ → ℕ
  round_offset offset moved = align_down (u64 (offset + moved)) state.lba_size

  unfoldable pub page_offset : ℕ → ℕ → ℕ
  unfolding round_offset
  page_offset offset moved = sub64 (u64 (moved + offset)) (round_offset offset moved)

  unfoldable pub round_size : ℕ → ℕ → ℕ → ℕ
  unfolding round_offset page_offset
  round_size offset total moved =
      if ltb 0 (page_offset offset moved)
      then min (sub64 state.block_size (sub64 offset (round_offset offset moved))) total
      else min state.block_size (sub64 total moved)

  -- The `int`, as it is converted back to 64 bits.
  unfoldable pub round_lba : ℕ → ℕ → ℕ
  unfolding round_offset
  round_lba offset moved = sign_extend (u32 (round_offset offset moved / state.lba_size))

  -- `memcpy(buffer + at, page + from, n)`.
  unfoldable pub copy_from_page : List ℕ → ℕ → ℕ → ℕ → ℕ → World → Outcome (List ℕ)
  copy_from_page buffer at page from n w =
      if leb (at + n) (length buffer) && leb (from + n) state.block_size
      then done (blit buffer at (load (page + from) n w))
      else fault

  -- `memcpy(page + to, buffer + at, n)`: a fault where the page is `NULL`.
  unfoldable pub copy_to_page : Option ℕ → ℕ → List ℕ → ℕ → ℕ → World → Outcome (ℕ × World)
  copy_to_page none to buffer at n w = fault
  copy_to_page (some page) to buffer at n w =
      if leb (at + n) (length buffer) && leb (to + n) state.block_size
      then done (page, store (page + to) (slice buffer at n) w)
      else fault

  module _ (offset total : ℕ) where
    -- The loop of `read_nvme_namespace`, on fuel: the count, the caller's buffer, the world.
    unfoldable pub read_loop : ℕ → ℕ → Option ℕ → List ℕ → World → Outcome ((ℕ × List ℕ) × World)
    unfolding namespace_rw_page page_offset round_size round_lba copy_from_page
    read_loop zero read page buffer w = out_of_fuel
    read_loop (suc fuel) read page buffer w =
        let n = round_size offset total read in
        let round = namespace_rw_page false (round_lba offset read) page w >>= λ r.
        let next = copy_from_page buffer read r.0.1 (page_offset offset read) n r.1 >>= λ buffer'.
        read_loop fuel (u64 (read + n)) (some r.0.1) buffer' r.1 in
        if r.0.0 == 0 then next else done ((read, buffer), pmm_free (some r.0.1) r.1) in
        if ltb read total
        then (if state.lba_size == 0 then fault else round)
        else done ((read, buffer), pmm_free page w)

    -- The page is read first where the round does not cover it.
    unfoldable pub prepare_page : ℕ → ℕ → Option ℕ → World → Outcome ((ℕ × Option ℕ) × World)
    unfolding namespace_rw_page round_lba
    prepare_page written n page w =
        if ltb n page_size
        then (namespace_rw_page false (round_lba offset written) page w >>= λ r.
            done ((r.0.0, some r.0.1), r.1))
        else done ((0, page), w)

    -- The loop of `write_nvme_namespace`, on fuel.
    unfoldable pub write_loop : ℕ → ℕ → Option ℕ → List ℕ → World → Outcome (ℕ × World)
    unfolding prepare_page namespace_rw_page page_offset round_size round_lba copy_to_page
    write_loop zero written page buffer w = out_of_fuel
    write_loop (suc fuel) written page buffer w =
        let n = round_size offset total written in
        let round = prepare_page written n page w >>= λ ready.
        let put =
          copy_to_page ready.0.1 (page_offset offset written) buffer written n ready.1 >>= λ copied.
          namespace_rw_page true (round_lba offset written) (some copied.0) copied.1 >>= λ r.
          let next = write_loop fuel (u64 (written + n)) (some r.0.1) buffer r.1 in
          if r.0.0 == 0 then next else done (written, pmm_free (some r.0.1) r.1) in
        if ready.0.0 == 0 then put else done (written, pmm_free ready.0.1 ready.1) in
        if ltb written total
        then (if state.lba_size == 0 then fault else round)
        else done (written, pmm_free page w)

  -- The fuel is one round for each byte, and one more.
  unfoldable pub read_nvme_namespace : List ℕ → ℕ → ℕ → ℕ → World → Outcome ((ℕ × List ℕ) × World)
  unfolding read_loop
  read_nvme_namespace buffer size count offset w =
      read_loop offset (u64 (size * count)) (u64 (size * count) + 1) 0 none buffer w

  unfoldable pub write_nvme_namespace : List ℕ → ℕ → ℕ → ℕ → World → Outcome (ℕ × World)
  unfolding write_loop
  write_nvme_namespace buffer size count offset w =
      write_loop offset (u64 (size * count)) (u64 (size * count) + 1) 0 none buffer w
