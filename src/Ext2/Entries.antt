-- ===== src/Ext2/Entries.antt =====
-- src/c/sysfs/ext2/util.c: a block of a directory by its writer, and what a search of it finds.
use kdrivers.Base.{
  All, ℕ, zero, suc, ◌+◌, ◌/◌, ◌%◌, ◌^◌, ◌≤◌, ◌<◌, ◌≡◌, ◌≢◌, refl, ap, sym, ◌∙◌, Option, none, some,
  Bool, true, false, ◌&&◌, List, [], ◌∷◌, ◌++◌, ◌==◌, if◌then◌else◌, ==_false, lt→ltb, le→ltb_false,
  length, length-append, replicate, length-replicate, drop, drop-append_add, u64, done, arith,
  Bool-cases, inl, inr,
}
use kdrivers.Base.Memory.{load8, load16, load8-skip, load16-skip, strncmp_eq}
use kdrivers.Ext2.{load32}
use kdrivers.Ext2.Directory.{
  load_ent_inode, load_total_size, load_name_len, callback_get_inode_in_dir, list_block,
}
use mathlib.Core.List.{append_assoc, append-nil}

-- An entry: what its fields hold, and how many bytes fill it up behind the name.
pub record Entry : Type 0 where
  pub inode : ℕ
  pub kind : ℕ
  pub name : List ℕ
  pub padding : ℕ

abbrev pub total_size : Entry → ℕ
total_size e = 8 + length e.name + e.padding

pub record IsEntry (e : Entry) : Type 0 where
  pub inode_fits : e.inode < 2 ^ 32
  pub size_fits : total_size e < 2 ^ 16
  pub name_fits : length e.name < 2 ^ 8
  pub no_nul : All (λ c. c ≢ 0) e.name

abbrev ent_header : Entry → List ℕ
ent_header e =
    e.inode % 256
    ∷ (e.inode / 256 % 256
        ∷ (e.inode / 65536 % 256
            ∷ (e.inode / 16777216
                ∷ (total_size e % 256 ∷ (total_size e / 256 ∷ (length e.name ∷ (e.kind ∷ [])))))))

-- An entry followed by `rest`, and a block of entries.
unfoldable pub encode : Entry → List ℕ → List ℕ
encode e rest = ent_header e ++ (e.name ++ (replicate e.padding 0 ++ rest))

unfoldable pub encode_block : List Entry → List ℕ
encode_block [] = []
encode_block (e ∷ es) = encode e (encode_block es)

-- A name that is a beginning of the target.
unfoldable pub begins : List ℕ → List ℕ → Bool
begins [] target = true
begins (c ∷ name) [] = false
begins (c ∷ name) (d ∷ target) = c == d && begins name target

-- The inode of the first entry whose name is a beginning of the target.
unfoldable pub first_match : List ℕ → List Entry → Option ℕ
first_match target [] = none
first_match target (e ∷ es) = if begins e.name target then some e.inode else first_match target es

strncmp_eq-begins :
    (name rest target : List ℕ)
    → All (λ c. c ≢ 0) name
    → strncmp_eq (length name) (name ++ rest) target ≡ done (begins name target)
unfolding strncmp_eq begins
strncmp_eq-begins [] rest target h = refl
strncmp_eq-begins (c ∷ name) rest [] h = ground arith
strncmp_eq-begins (c ∷ name) rest (d ∷ target) h =
    ground (arith, strncmp_eq-begins name rest target h.1)

length-encode : (e : Entry) (rest : List ℕ) → length (encode e rest) ≡ total_size e + length rest
unfolding encode
length-encode e rest = omega (
  arith,
  length-append e.name (replicate e.padding 0 ++ rest),
  length-append (replicate e.padding 0) rest,
  length-replicate {A = ℕ} e.padding 0,
)

abbrev pub search_result : ℕ → Option ℕ → Bool × ℕ
search_result found none = (false, found)
search_result found (some inode) = (true, inode)

-- The fields of the entry that a block begins with.
module _ (e : Entry) (rest : List ℕ) (fits : IsEntry e) where
  inode_words :
      (load16 (encode e rest) 0 ≡ done (e.inode % 65536))
      × (load16 (encode e rest) 2 ≡ done (e.inode / 65536))
  unfolding load16 load8 encode
  inode_words = (ap (λ (x : ℕ). done x) (omega arith), ap (λ (x : ℕ). done x) (omega arith))

  size_word : load16 (encode e rest) 4 ≡ done (total_size e)
  unfolding load16 load8 encode
  size_word = ap (λ (x : ℕ). done x) (omega arith)

  len_byte : load8 (encode e rest) 6 ≡ done (length e.name)
  unfolding load8 encode
  len_byte = refl

-- The same of an entry that stands further on.
module _ (before : List ℕ) (e : Entry) (rest : List ℕ) (fits : IsEntry e) where
  abbrev block : List ℕ
  block = before ++ encode e rest

  load_ent_inode-encode : load_ent_inode block (length before) ≡ done e.inode
  unfolding load_ent_inode load32
  load_ent_inode-encode =
      rw
        (
          load16-skip (length before) 0 before (encode e rest) (omega arith),
          load16-skip (length before + 2) 2 before (encode e rest) refl,
          (inode_words e rest fits).0,
          (inode_words e rest fits).1,
        )
        (ap (λ (x : ℕ). done x) (omega arith))

  load_total_size-encode : load_total_size block (length before) ≡ done (total_size e)
  unfolding load_total_size
  load_total_size-encode =
      load16-skip (length before + 4) 4 before (encode e rest) refl ∙ size_word e rest fits

  name_at : drop (length before + 8) block ≡ e.name ++ (replicate e.padding 0 ++ rest)
  unfolding encode
  name_at = drop-append_add (length before) 8 before (encode e rest) refl

  callback-encode :
      (target : List ℕ) (found : ℕ)
      → callback_get_inode_in_dir target block (length before) found
        ≡ done (begins e.name target, if begins e.name target then e.inode else found)
  unfolding callback_get_inode_in_dir load_name_len
  callback-encode target found =
      let len : load8 block (length before + 6) ≡ done (length e.name) =
        load8-skip (length before + 6) 6 before (encode e rest) refl ∙ len_byte e rest fits in
      let same : strncmp_eq (length e.name) (drop (length before + 8) block) target
          ≡ done (begins e.name target) =
        ap (λ (l : List ℕ). strncmp_eq (length e.name) l target) name_at
        ∙ strncmp_eq-begins e.name (replicate e.padding 0 ++ rest) target fits.no_nul in
      rw (len, same)
        (elim (Bool-cases (begins e.name target)) [
          | inl hit ↦ rw (hit, load_ent_inode-encode) refl
          | inr miss ↦ rw miss refl
        ])

encode-append : (e : Entry) (rest : List ℕ) → encode e rest ≡ encode e [] ++ rest
unfolding encode
encode-append e rest = ap (◌++◌ (ent_header e)) regroup
  where
    regroup :
        e.name ++ (replicate e.padding 0 ++ rest)
        ≡ (e.name ++ (replicate e.padding 0 ++ [])) ++ rest
    regroup = simp (append_assoc, append-nil)

-- A search of a block from an entry on gives the inode of the first entry whose name is a
-- beginning of the target.
pub list_block-encode :
    (target : List ℕ) (found size : ℕ) (es : List Entry) (before : List ℕ) (fuel : ℕ)
    → All IsEntry es
    → length (before ++ encode_block es) ≡ size
    → size < 2 ^ 64
    → length es < fuel
    → list_block
        (callback_get_inode_in_dir target)
        fuel
        (before ++ encode_block es)
        size
        (length before)
        found
      ≡ done (search_result found (first_match target es))
unfolding list_block encode_block first_match
list_block-encode target found size es before zero v len small enough = absurd (omega arith)
list_block-encode target found size [] before (suc fuel) v len small enough =
    rw (le→ltb_false (length before) size (omega (arith, length-append before []))) refl
list_block-encode target found size (e ∷ es) before (suc fuel) v len small enough =
    let rest = encode_block es in
    let whole : before ++ encode e rest ≡ (before ++ encode e []) ++ rest =
      ap (◌++◌ before) (encode-append e rest) ∙ sym (append_assoc before (encode e []) rest) in
    let after : length (before ++ encode e []) ≡ length before + total_size e =
      omega (arith, length-append before (encode e []), length-encode e []) in
    let sum : length before + (total_size e + length rest) ≡ size =
      omega (arith, length-append before (encode e rest), length-encode e rest) in
    let no_wrap : u64 (length before + total_size e) ≡ length before + total_size e = omega arith in
    let further =
      list_block-encode target found size es (before ++ encode e []) fuel v.1
        (sym (ap (length {A = ℕ}) whole) ∙ len) small (omega arith) in
    let search =
      λ (m : List ℕ) (k : ℕ). list_block (callback_get_inode_in_dir target) fuel m size k found in
    let here : search (before ++ encode e rest) (length before + total_size e)
        ≡ done (search_result found (first_match target es)) =
      ap (λ (m : List ℕ). search m (length before + total_size e)) whole
      ∙ ap (λ (k : ℕ). search ((before ++ encode e []) ++ rest) k) (sym after)
      ∙ further in
    rw
      (
        lt→ltb (length before) size (omega arith),
        load_total_size-encode before e rest v.0,
        ==_false (total_size e) 0 (omega arith),
        callback-encode before e rest v.0 target found,
        no_wrap,
      )
      (elim (Bool-cases (begins e.name target)) [ inl hit ↦ rw hit refl | inr miss ↦ rw miss here ])

pub length-encode_block : (es : List Entry) → length es ≤ length (encode_block es)
unfolding encode_block
length-encode_block [] = omega arith
length-encode_block (e ∷ es) =
    omega (arith, length-encode e (encode_block es), length-encode_block es)
