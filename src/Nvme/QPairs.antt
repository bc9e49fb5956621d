-- ===== src/Nvme/QPairs.antt =====
-- src/c/sysdev/nvme/nvme.c: the queue pairs for commands other than the administration's.
use kdrivers.Base.{
  ℕ, zero, suc, ◌+◌, ◌*◌, ◌/◌, ◌≤◌, ◌<◌, ◌≡◌, ◌⊎◌, inl, inr, refl, ap, sym, ◌∙◌, replicate, Option,
  none, some, Bool, true, false, List, [], ◌∷◌, ◌++◌, get_elem?, length, length-append,
  get_elem?-eq-none, get_elem?-append_left, done, fault, arith,
}
use kdrivers.Base.Alloc.{neg}
use kdrivers.Nvme.{QPair}
use kdrivers.Nvme.Transport.{Transport}
use kdrivers.Nvme.Controller.{
  with_completion, with_submission, with_memory, make_qpair, make_qpairs, free_qpair, free_qpairs,
  nvme_create_io_qpairs,
}
use mathlib.Core.Path.{subst}
use native.Mathlib.Decide.{dec_lt}

none-some : {A : Type 0} {a : A} → ¬ (none ≡ some a)
none-some e = ground arith

module _ (t : Transport) {Ring : Type 0} (base : Ring → ℕ)
    (init_ringbuffer : ℕ → ℕ → ℕ → t.World → Option Ring × t.World) where
  -- Pair `i` of an array has the identifier `i + 1`, 0 being the administration's, and expects the
  -- phase 1.
  abbrev pub IsNumbered : List (QPair Ring) → Type 0
  IsNumbered made =
      (i : ℕ)
      → i < length made
      → (q : QPair Ring) × (get_elem? made i ≡ some q) × (q.id ≡ i + 1) × (q.phase ≡ 1)

  -- There is memory for a pair, and a ring in each half of it: 64 bytes for an entry of the first
  -- queue, 16 for one of the second. `w'` is the world afterwards.
  abbrev pub HasPair : ℕ → t.World → t.World → Type 0
  HasPair qsize w w' =
      (p : ℕ) × (sub : Ring) × (cmp : Ring) × (w1 : t.World) × (w2 : t.World) × (t.pmm_alloc
          (qsize * 2) w
        ≡ (some p, w1))
      × (init_ringbuffer p (qsize / 64) 64 (t.store p (replicate (qsize * 2) 0) w1)
          ≡ (some sub, w2))
      × (init_ringbuffer (p + qsize) (qsize / 16) 16 w2 ≡ (some cmp, w'))

  -- So many pairs can be had, one after the other.
  abbrev pub Makeable : ℕ → ℕ → t.World → Type 0
  Makeable zero qsize w = Unit
  Makeable (suc left) qsize w = (w' : t.World) × HasPair qsize w w' × Makeable left qsize w'

  make_qpair-HasPair :
      (i qsize : ℕ) (w w' : t.World)
      → HasPair qsize w w'
      → (q : QPair Ring) × (make_qpair t base init_ringbuffer i qsize w ≡ (some q, w'))
        × (q.id ≡ i + 1)
        × (q.phase ≡ 1)
  unfolding make_qpair with_memory with_submission with_completion
  make_qpair-HasPair i qsize w w' (p, sub, cmp, w1, w2, memory, first, second) =
      let q : QPair Ring = record { subq = sub; cmpq = cmp; id = i + 1; phase = 1 } in
      (q, rw (memory, first, second) refl, refl, refl)

  Case : ℕ → t.World → Option (QPair Ring) × t.World → Type 0
  Case qsize w r = ((w' : t.World) × HasPair qsize w w') ⊎ (r.0 ≡ none)

  with_completion-Case :
      (i qsize : ℕ) (w : t.World) (p : ℕ) (sub : Ring) (w1 w2 : t.World)
      → t.pmm_alloc (qsize * 2) w ≡ (some p, w1)
      → init_ringbuffer p (qsize / 64) 64 (t.store p (replicate (qsize * 2) 0) w1) ≡ (some sub, w2)
      → (r : Option Ring × t.World) → init_ringbuffer (p + qsize) (qsize / 16) 16 w2 ≡ r
      → Case qsize w (with_completion t base init_ringbuffer i sub r)
  unfolding with_completion Case
  with_completion-Case i qsize w p sub w1 w2 memory first (none, w') second = inr refl
  with_completion-Case i qsize w p sub w1 w2 memory first (some cmp, w') second =
      inl (w', (p, sub, cmp, w1, w2, memory, first, second))

  with_submission-Case :
      (i qsize : ℕ) (w : t.World) (p : ℕ) (w1 : t.World)
      → t.pmm_alloc (qsize * 2) w ≡ (some p, w1)
      → (r : Option Ring × t.World)
      → init_ringbuffer p (qsize / 64) 64 (t.store p (replicate (qsize * 2) 0) w1) ≡ r
      → Case qsize w (with_submission t base init_ringbuffer i qsize p r)
  unfolding with_submission Case
  with_submission-Case i qsize w p w1 memory (none, w2) first = inr refl
  with_submission-Case i qsize w p w1 memory (some sub, w2) first =
      with_completion-Case i qsize w p sub w1 w2 memory first _ refl

  with_memory-Case :
      (i qsize : ℕ) (w : t.World) (r : Option ℕ × t.World)
      → t.pmm_alloc (qsize * 2) w ≡ r
      → Case qsize w (with_memory t base init_ringbuffer i qsize r)
  unfolding with_memory Case
  with_memory-Case i qsize w (none, w1) memory = inr refl
  with_memory-Case i qsize w (some p, w1) memory = with_submission-Case i qsize w p w1 memory _ refl

  make_qpair-Case :
      (i qsize : ℕ) (w : t.World) → Case qsize w (make_qpair t base init_ringbuffer i qsize w)
  unfolding make_qpair
  make_qpair-Case i qsize w = with_memory-Case i qsize w (t.pmm_alloc (qsize * 2) w) refl

  freeing_faults :
      (made : List (QPair Ring)) (n : ℕ) (w : t.World)
      → length made ≤ n
      → free_qpairs t base init_ringbuffer made n w ≡ fault
  unfolding free_qpairs free_qpair
  freeing_faults made zero w h = rw (free_qpairs, get_elem?-eq-none made zero h) refl
  freeing_faults made (suc n) w h = rw (free_qpairs, get_elem?-eq-none made (suc n) h) refl

  get_elem?_last :
      (made : List (QPair Ring)) (q : QPair Ring)
      → get_elem? (made ++ (q ∷ [])) (length made) ≡ some q
  get_elem?_last [] q = refl
  get_elem?_last (p ∷ made) q = get_elem?_last made q

  append-IsNumbered :
      (made : List (QPair Ring)) (q : QPair Ring)
      → IsNumbered made
      → q.id ≡ length made + 1
      → q.phase ≡ 1
      → IsNumbered (made ++ (q ∷ []))
  append-IsNumbered made q numbered id phase i h = elim (dec_lt i (length made)) [
    | yes before ↦
        let old = numbered i before in
        (old.0, get_elem?-append_left made (q ∷ []) i before ∙ old.1, old.2, old.3)
    | no behind ↦
        let at : i ≡ length made = omega (arith, length-append made (q ∷ [])) in
        (q, ap (get_elem? (made ++ (q ∷ []))) at ∙ get_elem?_last made q, omega arith, phase)
  ]

  -- What the loop makes: all of the pairs, or it ends early.
  AllMade : ℕ → ℕ → ℕ → t.World → (Bool × List (QPair Ring)) × t.World → Type 0
  AllMade left qsize total w r =
      (Makeable left qsize w × (r.0.0 ≡ true) × (length r.0.1 ≡ total) × IsNumbered r.0.1)
      ⊎ (¬ Makeable left qsize w × (r.0.0 ≡ false))

  module _ (left i qsize : ℕ) (made : List (QPair Ring)) (w : t.World) where
    abbrev now : Option (QPair Ring) × t.World
    now = make_qpair t base init_ringbuffer i qsize w

    no_pair :
        now.0 ≡ none
        → make_qpairs t base init_ringbuffer (suc left) i qsize made w ≡ ((false, made), now.1)
    unfolding make_qpairs
    no_pair e = rw (make_qpairs, e) refl

    no_first_pair : now.0 ≡ none → ¬ Makeable (suc left) qsize w
    no_first_pair e (w', pair, rest) =
        let q = make_qpair-HasPair i qsize w w' pair in
        none-some (sym e ∙ ap (λ (r : Option (QPair Ring) × t.World). r.0) q.1)

    one_pair :
        (q : QPair Ring) (w' : t.World)
        → now ≡ (some q, w')
        → make_qpairs t base init_ringbuffer (suc left) i qsize made w
          ≡ make_qpairs t base init_ringbuffer left (i + 1) qsize (made ++ (q ∷ [])) w'
    unfolding make_qpairs
    one_pair q w' e =
        rw
          (
            make_qpairs,
            ap (λ (r : Option (QPair Ring) × t.World). r.0) e,
            ap (λ (r : Option (QPair Ring) × t.World). r.1) e,
          )
          refl

    later_pairs :
        (w' : t.World) → HasPair qsize w w' → Makeable (suc left) qsize w → Makeable left qsize w'
    later_pairs w' pair (w'', pair', rest) =
        let q = make_qpair-HasPair i qsize w w' pair in
        let q' = make_qpair-HasPair i qsize w w'' pair' in
        subst (Makeable left qsize)
          (ap (λ (r : Option (QPair Ring) × t.World). r.1) (sym q'.1 ∙ q.1)) rest

  make_qpairs-AllMade :
      (left i qsize total : ℕ) (made : List (QPair Ring)) (w : t.World)
      → IsNumbered made
      → length made ≡ i
      → i + left ≡ total
      → AllMade left qsize total w (make_qpairs t base init_ringbuffer left i qsize made w)
  unfolding make_qpairs AllMade Case
  make_qpairs-AllMade zero i qsize total made w numbered len sum =
      inl (tt, refl, omega arith, numbered)
  make_qpairs-AllMade (suc left) i qsize total made w numbered len sum =
      elim (make_qpair-Case i qsize w) [
        | inr nothing ↦
            let ends = no_pair left i qsize made w nothing in
            inr (
              no_first_pair left i qsize made w nothing,
              ap (λ (r : (Bool × List (QPair Ring)) × t.World). r.0.0) ends,
            )
        | inl there ↦
            let (w', pair) = there in
            let q = make_qpair-HasPair i qsize w w' pair in
            let longer = length-append made (q.0 ∷ []) in
            let rest =
              make_qpairs-AllMade left (i + 1) qsize total (made ++ (q.0 ∷ [])) w'
                (append-IsNumbered made q.0 numbered (omega arith) q.3) (omega arith)
                (omega arith) in
            rw (one_pair left i qsize made w q.0 w' q.1) (elim rest [
              | inl all ↦ inl ((w', pair, all.0), all.1, all.2, all.3)
              | inr not_all ↦
                  inr (λ m. not_all.0 (later_pairs left i qsize made w w' pair m), not_all.1)
            ])
      ]

  -- Without memory for the array the result is -1. With it, there are
  -- two cases: so many pairs can be had one after the other, each with memory and with a ring in
  -- both halves of it; then the result is 0, there are as many pairs as were asked for, numbered
  -- from 1 on, and each expects the phase 1. Or some pair cannot be had; then the code reads the
  -- memory of a pair that it has not made, since the loop that frees the pairs begins with the one
  -- that failed.
  pub nvme_create_io_qpairs-IsNumbered :
      (memory : Bool) (count qsize : ℕ) (w : t.World)
      → let result = nvme_create_io_qpairs t base init_ringbuffer memory count qsize w in
        ((memory ≡ false) × (result ≡ done ((neg 1, []), w)))
        ⊎ ((memory ≡ true)
            × Makeable count qsize w
            × ((made : List (QPair Ring)) × (w' : t.World) × (result ≡ done ((0, made), w'))
                × (length made ≡ count)
                × IsNumbered made))
        ⊎ ((memory ≡ true) × ¬ Makeable count qsize w × (result ≡ fault))
  unfolding nvme_create_io_qpairs AllMade
  nvme_create_io_qpairs-IsNumbered false count qsize w = inl (refl, refl)
  nvme_create_io_qpairs-IsNumbered true count qsize w =
      let r = make_qpairs t base init_ringbuffer count 0 qsize [] w in
      inr
        (elim (make_qpairs-AllMade count 0 qsize count [] w (λ i h. absurd (omega arith)) refl
          (omega arith)) [
            | inl all ↦ inl (refl, all.0, (r.0.1, r.1, rw all.1 refl, all.2, all.3))
            | inr not_all ↦ inr (
              refl,
              not_all.0,
              rw (not_all.1, freeing_faults r.0.1 (length r.0.1) r.1 (omega arith)) refl,
            )
          ])
