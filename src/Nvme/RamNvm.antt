-- ===== src/Nvme/RamNvm.antt =====
-- A namespace in memory, which carries the commands out when they are polled for, and a memory. It meets what the driver relies on, and runs its code in tests.
use kdrivers.Base.{
  ltb, leb, ◌&&◌, le→leb, lt→ltb, get_or, get_or-injective, [], ◌∷◌, ◌<◌, ◌⊎◌, inl, inr, ℕ, zero,
  suc, ◌+◌, ◌-◌, ◌*◌, ◌^◌, ◌≤◌, ◌≡◌, refl, ap, sym, ◌∙◌, Option, none, some, List, ◌==◌,
  if◌then◌else◌, length, done, arith,
}
use kdrivers.Base.Slices.{
  slice, blit, slice-slice, length-slice, length-blit, get_or-slice, get_or-blit_inside,
  get_or-blit_outside,
}
use native.Mathlib.Decide.{dec_lt}
use kdrivers.Nvme.{QsEntry, QcEntry}
use kdrivers.Nvme.Transport.{Transport, IsNvm, IsNvmWrite}

pub record Machine : Type 0 where
  pub disk : List ℕ
  pub memory : ℕ → ℕ

unfoldable pub load : ℕ → ℕ → (ℕ → ℕ) → List ℕ
load p zero memory = []
load p (suc n) memory = memory p ∷ load (p + 1) n memory

unfoldable pub store : ℕ → List ℕ → (ℕ → ℕ) → ℕ → ℕ
store p bytes memory a =
    if leb p a && ltb a (p + length bytes) then get_or bytes (a - p) 0 else memory a

pub length-load : (p n : ℕ) (memory : ℕ → ℕ) → length (load p n memory) ≡ n
unfolding load
length-load p zero memory = refl
length-load p (suc n) memory = omega (arith, length-load (p + 1) n memory)

get_or-load :
    (p n : ℕ) (memory : ℕ → ℕ) (i : ℕ) → i < n → get_or (load p n memory) i 0 ≡ memory (p + i)
unfolding load
get_or-load p zero memory i h = absurd (omega arith)
get_or-load p (suc n) memory zero h = ap memory (omega arith)
get_or-load p (suc n) memory (suc i) h =
    get_or-load (p + 1) n memory i (omega arith) ∙ ap memory (omega arith)

store_inside :
    (p : ℕ) (bytes : List ℕ) (memory : ℕ → ℕ) (i : ℕ)
    → i < length bytes
    → store p bytes memory (p + i) ≡ get_or bytes i 0
unfolding store
store_inside p bytes memory i h =
    let e : p + i - p ≡ i = omega arith in
    rw (le→leb p (p + i) (omega arith), lt→ltb (p + i) (p + length bytes) (omega arith), e) refl

store_outside :
    (p : ℕ) (bytes : List ℕ) (memory : ℕ → ℕ) (a : ℕ)
    → (a < p) ⊎ (p + length bytes ≤ a)
    → store p bytes memory a ≡ memory a
unfolding store
store_outside p bytes memory a (inl before) = ground arith
store_outside p bytes memory a (inr after) = ground arith

pub load-store :
    (p n from : ℕ) (bytes : List ℕ) (memory : ℕ → ℕ)
    → from + length bytes ≤ n
    → load p n (store (p + from) bytes memory) ≡ blit (load p n memory) from bytes
load-store p n from bytes memory h =
    let ll = length-load p n memory in
    let whole = length-load p n (store (p + from) bytes memory) in
    let same_length = length-blit (load p n memory) from bytes (omega (arith, ll)) in
    get_or-injective _ _ (omega (arith, ll, whole, same_length)) (λ i k.
      get_or-load p n (store (p + from) bytes memory) i (omega (arith, whole))
      ∙ elim (dec_lt i from) [
        | yes before ↦
            store_outside (p + from) bytes memory (p + i) (inl (omega arith))
            ∙ sym (get_or-load p n memory i (omega arith))
            ∙ sym (
                get_or-blit_outside (load p n memory) from bytes i 0 (omega (arith, ll))
                  (inl before))
        | no after ↦ elim (dec_lt i (from + length bytes)) [
          | yes here ↦
              ap (store (p + from) bytes memory)
                (let e : p + i ≡ p + from + (i - from) = omega arith in e)
              ∙ store_inside (p + from) bytes memory (i - from) (omega arith)
              ∙ sym (
                  get_or-blit_inside (load p n memory) from bytes (i - from) 0 (omega (arith, ll))
                    (omega arith))
              ∙ ap (λ (j : ℕ). get_or (blit (load p n memory) from bytes) j 0) (omega arith)
          | no behind ↦
              store_outside (p + from) bytes memory (p + i) (inr (omega arith))
              ∙ sym (get_or-load p n memory i (omega (arith, whole)))
              ∙ sym (
                  get_or-blit_outside (load p n memory) from bytes i 0 (omega (arith, ll))
                    (inr (omega arith)))
        ]
      ])

-- A part of what was stored.
load-store_part :
    (p from k : ℕ) (bytes : List ℕ) (memory : ℕ → ℕ)
    → from + k ≤ length bytes
    → load (p + from) k (store p bytes memory) ≡ slice bytes from k
load-store_part p from k bytes memory h =
    let part = length-slice bytes from k h in
    let whole = length-load (p + from) k (store p bytes memory) in
    get_or-injective _ _ (omega (arith, part, whole)) (λ i hi.
      get_or-load (p + from) k (store p bytes memory) i (omega (arith, whole))
      ∙ ap (store p bytes memory) (let e : p + from + i ≡ p + (from + i) = omega arith in e)
      ∙ store_inside p bytes memory (from + i) (omega (arith, whole))
      ∙ sym (get_or-slice bytes from k i 0 (omega (arith, whole))))

abbrev address : Option ℕ → ℕ
address none = 0
address (some p) = p

abbrev pub finished : QcEntry
finished = record {
  dw0 = 0;
  dw1 = 0;
  sq_head_ptr = 0;
  sq_ident = 0;
  cid = 0;
  phase = 0;
  status = 0;
}

module _ (lba_size : ℕ) where
  abbrev place : QsEntry → ℕ
  place cmd = (cmd.cdw10 + cmd.cdw11 * 2 ^ 32) * lba_size

  abbrev size : QsEntry → ℕ
  size cmd = (cmd.cdw12 + 1) * lba_size

  unfoldable pub carry_out : QsEntry → Machine → Machine
  unfolding load store
  carry_out cmd w =
      if cmd.opcode == 2
      then record w { memory = store cmd.entry1 (slice w.disk (place cmd) (size cmd)) w.memory }
      else if cmd.opcode == 1
      then record w { disk = blit w.disk (place cmd) (load cmd.entry1 (size cmd) w.memory) }
      else w

  abbrev pub ram_transport : Transport
  ram_transport = record {
    World = Machine;
    Wrap = QsEntry;
    submit = λ q cmd w. (cmd, w);
    poll = λ cmd w. done (finished, carry_out cmd w);
    pmm_alloc = λ n w. (some 8192, w);
    pmm_fast_page_alloc = λ w. (some 4096, w);
    pmm_free = λ p w. w;
    pmm_fast_page_free = λ p w. w;
    to_phys = address;
    smp_get_processor_id = λ w. 0;
    qpair_count = λ w. 1;
    load = λ p n w. load p n w.memory;
    store = λ p bytes w. record w { memory = store p bytes w.memory };
  }

  pub read_done :
      (cmd : QsEntry) (p lba n : ℕ) (w : Machine)
      → cmd.opcode ≡ 2
      → cmd.entry1 ≡ p
      → cmd.cdw10 + cmd.cdw11 * 2 ^ 32 ≡ lba
      → (cmd.cdw12 + 1) * lba_size ≡ n
      → lba * lba_size + n ≤ length w.disk
      → ((carry_out cmd w).disk ≡ w.disk)
        × ((from k : ℕ)
            → from + k ≤ n
            → load (p + from) k (carry_out cmd w).memory ≡ slice w.disk (lba * lba_size + from) k)
  unfolding carry_out
  read_done cmd p lba n w op to first count inside =
      let read = slice w.disk (lba * lba_size) n in
      let e : carry_out cmd w ≡ record w { memory = store p read w.memory } =
        rw (carry_out, op, to, first, count) refl in
      (
        ap (λ (r : Machine). r.disk) e,
        λ from k h.
            ap (λ (r : Machine). load (p + from) k r.memory) e
            ∙ load-store_part p from k read w.memory
                (omega (arith, length-slice w.disk (lba * lba_size) n inside))
            ∙ slice-slice w.disk (lba * lba_size) n from k h,
      )

  pub write_done :
      (cmd : QsEntry) (p lba n : ℕ) (w : Machine)
      → cmd.opcode ≡ 1
      → cmd.entry1 ≡ p
      → cmd.cdw10 + cmd.cdw11 * 2 ^ 32 ≡ lba
      → (cmd.cdw12 + 1) * lba_size ≡ n
      → (carry_out cmd w).disk ≡ blit w.disk (lba * lba_size) (load p n w.memory)
  unfolding carry_out
  write_done cmd p lba n w op to first count = rw (carry_out, op, to, first, count) refl

  abbrev pub ram_nvm : (nsid : ℕ) → IsNvm ram_transport lba_size nsid 0
  ram_nvm nsid = record {
    disk = λ w. w.disk;
    page_alloc = λ n w. (8192, refl);
    own_queue = λ w. omega arith;
    alloc_disk = λ n w. refl;
    fast_alloc_disk = λ w. refl;
    free_disk = λ p w. refl;
    fast_free_disk = λ p w. refl;
    store_disk = λ p bytes w. refl;
    fast_free_load = λ m p n w. refl;
    read_done = λ q cmd p lba n w op to nsid first count inside.
        let r = read_done cmd p lba n w op to first count inside in
        (finished, carry_out cmd w, refl, refl, r.0, r.1);
  }

  abbrev pub ram_nvm_write : (nsid : ℕ) → IsNvmWrite ram_transport lba_size nsid 0 (ram_nvm nsid)
  ram_nvm_write nsid = record {
    fast_alloc_load = λ p n w. refl;
    load_length = λ p n w. length-load p n w.memory;
    load-store = λ p n from bytes w h. load-store p n from bytes w.memory h;
    write_done = λ q cmd p lba n w op to nsid first count inside.
        (finished, carry_out cmd w, refl, refl, write_done cmd p lba n w op to first count);
  }
