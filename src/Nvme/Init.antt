-- ===== src/Nvme/Init.antt =====
-- src/c/sysdev/nvme/nvme.c: the command sets, the list of namespaces, and the start of the driver.
use kdrivers.Base.{
  ℕ, zero, suc, ◌+◌, ◌-◌, ◌*◌, ◌^◌, Option, none, some, Bool, List, ◌∷◌, bit_and, bit_or, replicate,
  ◌==◌, if◌then◌else◌, u32, sign_extend, lowest_bit, ◌<<◌, Outcome, done, fault, out_of_fuel, ◌>>=◌,
}
use kdrivers.Base.Masks.{Masks}
use kdrivers.Base.Memory.{load64, load32}
use kdrivers.Nvme.{QsEntry, QcEntry, no_command, page_size}
use kdrivers.Nvme.Transport.{Transport}
use kdrivers.Nvme.Controller.{NamespaceArgs, run_command}

unfoldable pub uninit_nvme : ℕ
uninit_nvme = 0

-- The arguments say what is there.
unfoldable pub read_nvme : Bool → ℕ → ℕ → Bool → Bool → ℕ
read_nvme buffer size count file res = 0

unfoldable pub write_nvme : Bool → ℕ → ℕ → Bool → Bool → ℕ
write_nvme buffer size count file res = 0

module _ (t : Transport) (masks : Masks) where
  open t use {World, pmm_fast_page_alloc, pmm_fast_page_free, to_phys, load, store}

  -- The first word of `words` that is not 0, among the next `n`, and its index; 0 and the end
  -- where there is none.
  unfoldable pub first_set : ℕ → ℕ → List ℕ → Outcome (ℕ × ℕ)
  unfolding load64
  first_set zero i words = done (i, 0)
  first_set (suc n) i words = load64 words (8 * i) >>= λ word.
      let rest = first_set n (i + 1) words in if word == 0 then rest else done (i, word)

  -- A page that could not be allocated is a fault at the first read of it.
  unfoldable pub choose_command_sets : ℕ → Option ℕ → World → Outcome (ℕ × World)
  unfolding first_set
  choose_command_sets id page w =
      let cmd = record no_command {
        opcode = 6;
        entry1 = to_phys page;
        cdw10 = bit_or (u32 (id << 16)) 0x1c;
      } in
      run_command t cmd w >>= λ r. elim page [
        | none ↦ fault
        | some p ↦
            (first_set 512 0 (load p page_size r.1) >>= λ found.
            run_command t
              (record no_command { opcode = 9; cdw10 = 0x19; cdw11 = bit_and found.0 0xff })
              (pmm_fast_page_free (some p) r.1)
            >>= λ set. done (found.1, set.1))
      ]

  -- `cap` and `cc` are those of the memory that the transport's read function is given, which it
  -- fills or not; `none` is memory that could not be allocated.
  unfoldable pub nvme_set_command_sets : ℕ → Option (ℕ × ℕ) → World → Outcome (ℕ × World)
  unfolding choose_command_sets
  nvme_set_command_sets id none w = done (2 ^ 64 - 1, w)
  nvme_set_command_sets id (some (cap, cc)) w =
      let (page, w1) = pmm_fast_page_alloc w in
      if masks.masked_read cap 43 1 == 1
      then choose_command_sets id page w1
      else done ((if masks.masked_read cc 1 7 == 0 then 1 else 0), w)

  module _ (alloc_namespace : World → Bool × World) where
    -- The namespaces that were found, the last first; the last number that was read.
    abbrev pub Listed : Type 0
    Listed = (List NamespaceArgs × ℕ) × World

    -- The loop over the numbers of a page, of which `left` are left.
    unfoldable pub list_page : ℕ → ℕ → ℕ → List ℕ → List NamespaceArgs → World → ℕ → Outcome Listed
    unfolding load32
    list_page zero i set page found w last = done ((found, last), w)
    list_page (suc left) i set page found w last = load32 page (4 * i) >>= λ namespace.
        let (given, w') = alloc_namespace w in
        let rest =
          list_page left (i + 1) set page
            (record { namespace = namespace; command_set = set } ∷ found) w' namespace in
        if namespace == 0
        then done ((found, 0), w)
        else if given
        then rest
        else done ((found, namespace), w')

    -- A round, once the command is completed; `go` is the next one.
    unfoldable pub list_round :
        (List NamespaceArgs → ℕ → World → Outcome Listed)
        → ℕ
        → ℕ
        → List NamespaceArgs
        → ℕ
        → QcEntry × World
        → Outcome Listed
    unfolding list_page
    list_round go set p found last (completed, w) =
        let page = list_page 1024 0 set (load p page_size w) found w last >>= λ listed.
        let rest = go listed.0.0 listed.0.1 listed.1 in
        if listed.0.1 == 0 then done listed else rest in
        if completed.status == 0 then page else done ((found, last), w)

    -- The loop over the pages of a command set, on fuel. A status that is not 0 ends it.
    unfoldable pub list_pages :
        ℕ → QsEntry → ℕ → ℕ → List NamespaceArgs → ℕ → World → Outcome Listed
    unfolding list_round
    list_pages zero cmd set p found last w = out_of_fuel
    list_pages (suc fuel) cmd set p found last w =
        run_command t (record cmd { nsid = last }) (store p (replicate page_size 0) w)
        >>= list_round (λ found' last' w'. list_pages fuel cmd set p found' last' w') set p found
            last

    -- `sets &= ~(1 << idx)`: the `int` is converted with its sign.
    unfoldable pub clear_set : ℕ → ℕ → ℕ
    clear_set sets idx = bit_and sets (2 ^ 64 - 1 - sign_extend (u32 (1 << idx)))

    -- One command set. Without memory for the page, clearing it is a fault.
    unfoldable pub list_set :
        ℕ → ℕ → ℕ → List NamespaceArgs → World → Outcome (List NamespaceArgs × World)
    unfolding list_pages
    list_set fuel id set found w =
        let (page, w1) = pmm_fast_page_alloc w in
        let cmd = record no_command {
          opcode = 6;
          entry1 = to_phys page;
          cdw10 = bit_or (u32 (id << 16)) 7;
          cdw11 = u32 (bit_and set 0xff << 24);
        } in
        elim page [
          | none ↦ fault
          | some p ↦
              (list_pages fuel cmd set p found 0 w1 >>= λ listed.
              done (listed.0.0, pmm_fast_page_free (some p) listed.1))
        ]

    -- The loop over the command sets, on fuel. `__builtin_ffs` takes an `int`, and without a bit in
    -- it the shift is by -1.
    unfoldable pub nvme_list_namespaces :
        ℕ → ℕ → ℕ → List NamespaceArgs → World → Outcome (List NamespaceArgs × World)
    unfolding list_set clear_set
    nvme_list_namespaces zero id sets found w = out_of_fuel
    nvme_list_namespaces (suc fuel) id sets found w =
        let round : Outcome (List NamespaceArgs × World) = elim (lowest_bit 32 0 (u32 sets)) [
          | none ↦ fault
          | some set ↦
              (list_set fuel id set found w >>= λ r.
              nvme_list_namespaces fuel id (clear_set sets set) r.0 r.1)
        ] in
        if sets == 0 then done (found, w) else round
