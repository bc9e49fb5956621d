-- ===== src/Ext2/Direct.antt =====
-- src/c/sysfs/ext2/util.c: the blocks that an inode names itself, and what a transfer to them
-- changes on the partition.
use kdrivers.Base.{
  ℕ, ◌+◌, ◌-◌, ◌*◌, ◌/◌, ◌%◌, ◌^◌, ◌≤◌, ◌<◌, ◌≡◌, ◌≢◌, ◌↔◌, inl, inr, refl, ap, ap₂, sym, ◌∙◌,
  Option, some, List, lt→ltb, length, get_or, arith,
}
use kdrivers.Base.Slices.{
  slice, blit, length-slice, length-blit, get_or-slice, get_or-blit_inside, get_or-blit_outside,
}
use kdrivers.Base.Vfs.{Vfs, IsDevice}
use kdrivers.Ext2.{BasicState}
use kdrivers.Ext2.Blocks.{TableMemory}
use kdrivers.Ext2.Layout.{block_of, word32, IsLayout}
use kdrivers.Ext2.ReadData.{same_block, same_block_at}
use native.Mathlib.Decide.{dec_lt, dec_le}
use native.Mathlib.Nat.{
  div-eq_of_lt, mod-eq_of_lt, mod-lt, div-add-mod, mul-add-div_right, add-mul-mod_self_right,
  div-lt_iff_lt-mul,
}

module _ (node : List ℕ) (block_size : ℕ) where
  -- The block of index `idx` that the inode names, and where byte `x` of the data is.
  abbrev pub direct_block : ℕ → ℕ
  direct_block idx = word32 node (40 + 4 * idx)

  abbrev pub direct_place : ℕ → ℕ
  direct_place x = direct_block (x / block_size) * block_size + x % block_size

  pub block_of-direct :
      (bytes : List ℕ) (idx : ℕ) → idx < 12 → block_of bytes node block_size idx ≡ direct_block idx
  unfolding block_of
  block_of-direct bytes idx h = rw (lt→ltb idx 12 h) refl

  module _ (positive : 0 < block_size) where
    direct_place-div : (x : ℕ) → direct_place x / block_size ≡ direct_block (x / block_size)
    direct_place-div x =
        let rest = mod-lt x positive in
        mul-add-div_right positive (direct_block (x / block_size)) (x % block_size)
        ∙ omega (arith, div-eq_of_lt rest)

    direct_place-mod : (x : ℕ) → direct_place x % block_size ≡ x % block_size
    direct_place-mod x =
        ap (λ (t : ℕ). t % block_size)
          (let e : direct_place x ≡ x % block_size + direct_block (x / block_size) * block_size =
              omega arith in
            e)
        ∙ add-mul-mod_self_right (x % block_size) (direct_block (x / block_size)) block_size
        ∙ mod-eq_of_lt (mod-lt x positive)

    below : (limit x : ℕ) → x < limit * block_size → x / block_size < limit
    below limit x h =
        let both : (x / block_size < limit) ↔ (x < limit * block_size) =
          div-lt_iff_lt-mul positive in
        both.1 h

    -- Blocks that differ keep their bytes apart.
    pub direct_place_injective :
        (limit : ℕ)
        → ((i j : ℕ) → i < limit → j < limit → direct_block i ≡ direct_block j → i ≡ j)
        → (x y : ℕ) → x < limit * block_size
        → y < limit * block_size
        → direct_place x ≡ direct_place y
        → x ≡ y
    direct_place_injective limit apart x y hx hy e =
        let blocks : direct_block (x / block_size) ≡ direct_block (y / block_size) =
          sym (direct_place-div x) ∙ ap (λ (t : ℕ). t / block_size) e ∙ direct_place-div y in
        let same =
          apart (x / block_size) (y / block_size) (below limit x hx) (below limit y hy) blocks in
        let rest : x % block_size ≡ y % block_size =
          sym (direct_place-mod x) ∙ ap (λ (t : ℕ). t % block_size) e ∙ direct_place-mod y in
        sym (div-add-mod x block_size)
        ∙ ap₂ (λ (q r : ℕ). block_size * q + r) same rest
        ∙ div-add-mod y block_size

    -- The bytes behind a place in the same block.
    pub direct_place_add :
        (x k : ℕ) → x % block_size + k < block_size → direct_place (x + k) ≡ direct_place x + k
    direct_place_add x k h =
        rw (same_block block_size x k positive h, same_block_at block_size x k positive h)
          (omega arith)

-- The first `limit` blocks of an inode, named by the inode itself, on a partition of `total`
-- bytes: they differ, and lie on the partition.
pub record IsDirect (node : List ℕ) (block_size limit total : ℕ) : Type 0 where
  pub node_length : 128 ≤ length node
  pub words : 4 ≤ block_size
  pub partition_small : total < 2 ^ 64
  pub limit_direct : limit ≤ 12
  pub block_given : (idx : ℕ) → idx < limit → direct_block node block_size idx ≢ 0
  pub block_inside :
      (idx : ℕ) → idx < limit → direct_block node block_size idx * block_size + block_size ≤ total
  pub block_apart :
      (i j : ℕ)
      → i < limit
      → j < limit
      → direct_block node block_size i ≡ direct_block node block_size j
      → i ≡ j

-- Such an inode has its blocks where it had them whatever is written.
pub IsDirect-IsLayout :
    (v : Vfs) (file : v.File) (d : IsDevice v file) (create : Option (ℕ → ℕ)) (memory : TableMemory)
    (state : BasicState v.File) (node bytes : List ℕ) (limit total : ℕ)
    → IsDirect node state.block_size limit total
    → state.partition ≡ some file
    → length bytes ≡ total
    → IsLayout v file d create memory state node bytes limit
IsDirect-IsLayout v file d create memory state node bytes limit total direct open_file e =
    let few = direct.limit_direct in
    let named = λ (idx : ℕ) (h : idx < limit).
      block_of-direct node state.block_size bytes idx (omega arith) in
    record {
      open_partition = open_file;
      node_length = direct.node_length;
      words = direct.words;
      partition_small = let small = direct.partition_small in omega arith;
      limit_singly = omega arith;
      has_table = λ h. absurd (omega arith);
      block_given = λ idx h. rw (named idx h) (direct.block_given idx h);
      block_inside = λ idx h. rw (named idx h, e) (direct.block_inside idx h);
    }

-- `after` is `before` with the bytes `lo` to `hi - 1` of the data, from `offset` on, replaced by
-- those of `source`; nothing else differs.
pub record IsWritten (node : List ℕ) (block_size offset : ℕ) (source : List ℕ) (lo hi : ℕ)
    (before after : List ℕ) : Type 0 where
  pub same_length : length after ≡ length before
  pub inside :
      (i : ℕ)
      → lo ≤ i
      → i < hi
      → get_or after (direct_place node block_size (offset + i)) 0 ≡ get_or source i 0
  pub outside :
      (y : ℕ)
      → ((i : ℕ) → lo ≤ i → i < hi → direct_place node block_size (offset + i) ≢ y)
      → get_or after y 0 ≡ get_or before y 0

module _ (node : List ℕ) (block_size offset : ℕ) (source : List ℕ) where
  abbrev pub Written : ℕ → ℕ → List ℕ → List ℕ → Type 0
  Written lo hi before after = IsWritten node block_size offset source lo hi before after

  pub IsWritten-refl : (lo hi : ℕ) (before : List ℕ) → hi ≤ lo → Written lo hi before before
  IsWritten-refl lo hi before h = record {
    same_length = refl;
    inside = λ i p q. absurd (omega arith);
    outside = λ y p. refl;
  }

  module _ (limit total : ℕ) (direct : IsDirect node block_size limit total) where
    -- One range after another.
    pub IsWritten-trans :
        (a b c : ℕ) (x y z : List ℕ)
        → a ≤ b
        → b ≤ c
        → offset + c ≤ limit * block_size
        → Written a b x y
        → Written b c y z
        → Written a c x z
    IsWritten-trans a b c x y z h k in_file f g = record {
      same_length = g.same_length ∙ f.same_length;
      inside = λ i p q. elim (dec_lt i b) [
        | yes before ↦
            g.outside (direct_place node block_size (offset + i)) (λ j r s e.
              let big = direct.words in
              let same =
                direct_place_injective node block_size (omega arith) limit direct.block_apart
                  (offset + j) (offset + i) (omega arith) (omega arith) e in
              absurd (omega arith))
            ∙ f.inside i p before
        | no after ↦ g.inside i (omega arith) q
      ];
      outside = λ y p.
          g.outside y (λ i r s. p i (omega arith) s) ∙ f.outside y (λ i r s. p i r (omega arith));
    }

    -- A run of bytes within one block.
    pub IsWritten-blit :
        (before : List ℕ) (lo n : ℕ)
        → length before ≡ total
        → (offset + lo) / block_size < limit
        → (offset + lo) % block_size + n ≤ block_size
        → lo + n ≤ length source
        → Written lo
            (lo + n)
            before
            (blit before (direct_place node block_size (offset + lo)) (slice source lo n))
    IsWritten-blit before lo n whole in_file in_block given =
        let place = direct_place node block_size (offset + lo) in
        let big = direct.words in
        let len : length (slice source lo n) ≡ n = length-slice source lo n given in
        let room = direct.block_inside ((offset + lo) / block_size) in_file in
        let there : (i : ℕ)
            → lo ≤ i
            → i < lo + n
            → direct_place node block_size (offset + i) ≡ place + (i - lo) =
          λ i p q.
            ap (λ (x : ℕ). direct_place node block_size x)
              (let e : offset + i ≡ offset + lo + (i - lo) = omega arith in e)
            ∙ direct_place_add node block_size (omega arith) (offset + lo) (i - lo) (omega arith) in
        record {
          same_length = length-blit before place (slice source lo n) (omega (arith, len));
          inside = λ i p q.
              ap (λ (k : ℕ). get_or (blit before place (slice source lo n)) k 0) (there i p q)
              ∙ get_or-blit_inside before place (slice source lo n) (i - lo) 0 (omega arith)
                  (omega (arith, len))
              ∙ get_or-slice source lo n (i - lo) 0 (omega arith)
              ∙ ap (λ (k : ℕ). get_or source k 0) (omega arith);
          outside = λ y p.
              get_or-blit_outside before place (slice source lo n) y 0 (omega (arith, len))
                (elim (dec_lt y place) [
                  | yes before_it ↦ inl before_it
                  | no not_before ↦ elim (dec_le (place + n) y) [
                    | yes behind ↦ inr (omega (arith, len))
                    | no within ↦
                        let i = lo + (y - place) in
                        let at_y : direct_place node block_size (offset + i) ≡ y =
                          there i (omega arith) (omega arith) ∙ omega arith in
                        absurd (p i (omega arith) (omega arith) at_y)
                  ]
                ]);
        }
