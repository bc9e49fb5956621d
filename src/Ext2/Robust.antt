-- ===== src/Ext2/Robust.antt =====
-- src/c/sysfs/ext2/util.c: a search ends on any block, whatever its bytes are.
use kdrivers.Base.{
  All, ℕ, zero, suc, ◌+◌, ◌*◌, ◌^◌, ◌<◌, ◌≡◌, refl, Option, none, some, Bool, true, false, List, [],
  ◌∷◌, ◌==◌, if◌then◌else◌, get_elem?, drop, ==_true, ==_false, lt→ltb, le→ltb_false, u64, Outcome,
  done, fault, out_of_fuel, ◌>>=◌, arith,
}
use kdrivers.Base.Memory.{load8, load16, loaded, strncmp_eq}
use kdrivers.Ext2.{load32}
use kdrivers.Ext2.Directory.{
  load_ent_inode, load_total_size, load_name_len, callback_get_inode_in_dir, list_block,
}
use native.Mathlib.Decide.{dec_lt, ℕ_discrete}

-- An outcome other than running on.
unfoldable pub Ends : {A : Type 0} → Outcome A → Type 0
Ends (done x) = Unit
Ends fault = Unit
Ends out_of_fuel = ⊥

bind_Ends :
    {A B : Type 0} (o : Outcome A) (k : A → Outcome B)
    → Ends o
    → ((x : A) → o ≡ done x → Ends (k x))
    → Ends (o >>= k)
unfolding Ends
bind_Ends (done x) k p h = h x refl
bind_Ends fault k p h = tt
bind_Ends out_of_fuel k p h = p

if_Ends : {A : Type 0} (b : Bool) (x y : Outcome A) → Ends x → Ends y → Ends (if b then x else y)
if_Ends true x y p q = p
if_Ends false x y p q = q

loaded-Ends : {A : Type 0} (o : Option A) → Ends (loaded o)
unfolding Ends
loaded-Ends none = tt
loaded-Ends (some x) = tt

load8-Ends : (m : List ℕ) (p : ℕ) → Ends (load8 m p)
unfolding load8
load8-Ends m p = loaded-Ends (get_elem? m p)

load16-Ends : (m : List ℕ) (p : ℕ) → Ends (load16 m p)
unfolding load16 Ends
load16-Ends m p =
    bind_Ends (load8 m p) (λ lo. load8 m (p + 1) >>= λ hi. done (lo + hi * 256)) (load8-Ends m p)
      (λ lo _.
        bind_Ends (load8 m (p + 1)) (λ hi. done (lo + hi * 256)) (load8-Ends m (p + 1))
          (λ hi _. tt))

load32-Ends : (m : List ℕ) (p : ℕ) → Ends (load32 m p)
unfolding load32 Ends
load32-Ends m p =
    bind_Ends (load16 m p) (λ lo. load16 m (p + 2) >>= λ hi. done (lo + hi * 65536))
      (load16-Ends m p)
      (λ lo _.
        bind_Ends (load16 m (p + 2)) (λ hi. done (lo + hi * 65536)) (load16-Ends m (p + 2))
          (λ hi _. tt))

strncmp_eq-Ends : (n : ℕ) (bytes s : List ℕ) → Ends (strncmp_eq n bytes s)
unfolding strncmp_eq Ends
strncmp_eq-Ends zero bytes s = tt
strncmp_eq-Ends (suc n) [] s = tt
strncmp_eq-Ends (suc n) (c ∷ bytes) [] = tt
strncmp_eq-Ends (suc n) (c ∷ bytes) (d ∷ s) =
    if_Ends (c == d) (if c == 0 then done true else strncmp_eq n bytes s) (done false)
      (if_Ends (c == 0) (done true) (strncmp_eq n bytes s) tt (strncmp_eq-Ends n bytes s)) tt

callback_Ends :
    (target block : List ℕ) (i found : ℕ) → Ends (callback_get_inode_in_dir target block i found)
unfolding callback_get_inode_in_dir load_name_len load_ent_inode Ends
callback_Ends target block i found =
    bind_Ends (load8 block (i + 6)) _ (load8-Ends block (i + 6)) (λ len _.
      bind_Ends (strncmp_eq len (drop (i + 8) block) target) _
        (strncmp_eq-Ends len (drop (i + 8) block) target)
        (λ same _.
          bind_Ends (if same then load32 block i else done found) _
            (if_Ends same (load32 block i) (done found) (load32-Ends block i) tt) (λ inode _. tt)))

-- A word of bytes.
load8_byte : (m : List ℕ) (p x : ℕ) → All (λ b. b < 256) m → load8 m p ≡ done x → x < 256
unfolding load8
load8_byte [] p x h e = ground arith
load8_byte (b ∷ m) zero x h e = ground arith
load8_byte (b ∷ m) (suc p) x h e = load8_byte m p x h.1 e

done_inj : {A : Type 0} {x y : A} → ◌≡◌ {A = Outcome A} (done x) (done y) → x ≡ y
done_inj e = cc

-- What a bind that gives a value came from.
bind_done :
    {A B : Type 0} (o : Outcome A) (k : A → Outcome B) (y : B)
    → (o >>= k) ≡ done y
    → (x : A) × (o ≡ done x) × (k x ≡ done y)
bind_done (done x) k y e = (x, refl, e)
bind_done fault k y e = absurd (cc)
bind_done out_of_fuel k y e = absurd (cc)

load16_word : (m : List ℕ) (p x : ℕ) → All (λ b. b < 256) m → load16 m p ≡ done x → x < 65536
unfolding load16
load16_word m p x h e =
    let first = bind_done (load8 m p) (λ lo. load8 m (p + 1) >>= λ hi. done (lo + hi * 256)) x e in
    let second = bind_done (load8 m (p + 1)) (λ hi. done (first.0 + hi * 256)) x first.2 in
    let lo = load8_byte m p first.0 h first.1 in
    let hi = load8_byte m (p + 1) second.0 h second.1 in
    let value : first.0 + second.0 * 256 ≡ x = done_inj second.2 in omega arith

-- The search of a block ends within one round more than the block has bytes, whatever they are: an
-- entry of size 0 ends it, and any other moves it on.
pub list_block-Ends :
    (target block : List ℕ) (block_size fuel i found : ℕ)
    → All (λ b. b < 256) block
    → block_size < 2 ^ 63
    → block_size < i + fuel
    → 0 < fuel
    → Ends (list_block (callback_get_inode_in_dir target) fuel block block_size i found)
unfolding list_block load_total_size Ends
list_block-Ends target block block_size zero i found h small enough some_left = absurd (omega arith)
list_block-Ends target block block_size (suc fuel) i found h small enough some_left =
    elim (dec_lt i block_size) [
      | no over ↦ rw (le→ltb_false i block_size (omega arith)) tt
      | yes more ↦ rw (lt→ltb i block_size more) (
          bind_Ends (load16 block (i + 4)) _ (load16-Ends block (i + 4)) (λ size at.
            elim (ℕ_discrete size 0) [
              | yes e ↦ rw (==_true size 0 e) tt
              | no ne ↦
                  let bound = load16_word block (i + 4) size h at in
                  let next : u64 (i + size) ≡ i + size = omega arith in
                  rw (==_false size 0 ne, next)
                    (bind_Ends (callback_get_inode_in_dir target block i found) _
                      (callback_Ends target block i found)
                      (λ r _. if_Ends r.0 (done r) _ tt (
                        list_block-Ends target block block_size fuel (i + size) r.1 h small
                          (omega arith) (omega arith))))
            ]))
    ]
