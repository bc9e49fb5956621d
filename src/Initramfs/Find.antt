-- ===== src/Initramfs/Find.antt =====
-- src/c/sysfs/initramfs/super.c: what a search of a well-formed archive finds.
use kdrivers.Base.{
  All, ℕ, zero, suc, ◌+◌, ◌^◌, ◌<◌, ◌≤◌, ◌≢◌, ◌≡◌, refl, sym, ap, ◌∙◌, Option, none, some, List, [],
  ◌∷◌, ◌++◌, ◌==◌, length, length-append, drop, drop-append_add, u64, done, Bool-cases, inl, inr,
  arith,
}
use kdrivers.Base.Memory.{load16, load16-skip, strncmp_eq}
use kdrivers.Initramfs.Header.{
  cpio_magic, name_offset, load_magic, load_data_offset, load_data_size,
}
use kdrivers.Initramfs.Super.{find_loop, skip_slash, initramfs_find_file}
use kdrivers.Initramfs.Layout.{
  length-encode, load_magic-encode, load_data_offset-encode, load_data_size-encode,
}
use mathlib.Core.List.{append-nil, append_assoc}
use kdrivers.Initramfs.Archive.{
  Entry, IsEntry, encode, encode_all, entry_size, round_even, starts_with, offset_of, name_bytes,
  data_bytes, header_bytes,
}

strncmp_eq-starts_with :
    (s name rest : List ℕ)
    → All (λ c. c ≢ 0) s
    → strncmp_eq (length s) (name ++ (0 ∷ rest)) s ≡ done (starts_with s name)
unfolding strncmp_eq starts_with
strncmp_eq-starts_with [] name rest h = refl
strncmp_eq-starts_with (c ∷ s) [] rest h = ground arith
strncmp_eq-starts_with (c ∷ s) (d ∷ name) rest h =
    ground (arith, strncmp_eq-starts_with s name rest h.1)

encode-append : (e : Entry) (rest : List ℕ) → encode e rest ≡ encode e [] ++ rest
unfolding encode
encode-append e rest = ap (◌++◌ (header_bytes e)) regroup
  where
    regroup :
        name_bytes e ++ (data_bytes e ++ rest) ≡ (name_bytes e ++ (data_bytes e ++ [])) ++ rest
    regroup = simp (append_assoc, append-nil)

-- The archive's name field begins at the header's end.
name_at :
    (before : List ℕ) (e : Entry) (rest : List ℕ)
    → drop (length before + name_offset) (before ++ encode e rest)
      ≡ name_bytes e ++ (data_bytes e ++ rest)
unfolding encode
name_at before e rest = drop-append_add (length before) name_offset before (encode e rest) refl

abbrev pub shift : ℕ → Option ℕ → Option ℕ
shift n none = none
shift n (some k) = some (n + k)

shift-shift : (n k : ℕ) (o : Option ℕ) → shift (n + k) o ≡ shift n (shift k o)
shift-shift n k none = refl
shift-shift n k (some i) = ap some (omega arith)

-- What follows the last entry: two bytes that are no magic number.
abbrev pub IsTail : List ℕ → Type 0
IsTail tail = (m : ℕ) × (load16 tail 0 ≡ done m) × (m ≢ cpio_magic)

load_magic_at : (before tail : List ℕ) → load_magic (before ++ tail) (length before) ≡ load16 tail 0
unfolding load_magic
load_magic_at before tail = load16-skip (length before) 0 before tail (omega arith)

module _ (s tail : List ℕ) (no_nul : All (λ c. c ≢ 0) s) (ends : IsTail tail) (memory : List ℕ)
    (fs : ℕ) where
  find_loop-encode_all :
      (es : List Entry) (before : List ℕ) (fuel offset : ℕ)
      → memory ≡ before ++ encode_all es tail
      → fs + offset ≡ length before
      → length memory < 2 ^ 63
      → length es < fuel
      → All IsEntry es
      → find_loop memory fs fuel s offset ≡ done (shift (length before) (offset_of s es))
  unfolding find_loop encode_all offset_of
  find_loop-encode_all [] before zero offset m at small enough v = absurd (omega arith)
  find_loop-encode_all [] before (suc fuel) offset m at small enough v =
      let word : load_magic memory (fs + offset) ≡ done ends.0 =
        rw (m, at) (load_magic_at before tail ∙ ends.1) in
      rw word (ground (arith, ends.2))
  find_loop-encode_all (e ∷ es) before zero offset m at small enough v = absurd (omega arith)
  find_loop-encode_all (e ∷ es) before (suc fuel) offset m at small enough v =
      let rest = encode_all es tail in
      let whole : memory ≡ before ++ encode e rest = m in
      let magic : load_magic memory (fs + offset) ≡ done cpio_magic =
        rw (m, at) (load_magic-encode before e rest) in
      let start : load_data_offset memory (fs + offset)
          ≡ done (26 + round_even (length e.name + 1)) =
        rw (m, at) (load_data_offset-encode before e rest) in
      let len : load_data_size memory (fs + offset) ≡ done (round_even (length e.contents)) =
        rw (m, at) (load_data_size-encode before e rest v.0) in
      let names : strncmp_eq (length s) (drop (fs + offset + name_offset) memory) s
          ≡ done (starts_with s e.name) =
        rw (m, at, name_at, append_assoc) (strncmp_eq-starts_with s e.name _ no_nul) in
      let after : length (before ++ encode e []) ≡ length before + entry_size e =
        omega (arith, length-append before (encode e []), length-encode e []) in
      let whole : memory ≡ (before ++ encode e []) ++ rest =
        m
        ∙ (ap (◌++◌ before) (encode-append e rest)
            ∙ sym (append_assoc before (encode e []) rest)) in
      let size : length memory ≡ length before + entry_size e + length rest =
        ap (length {A = ℕ}) whole
        ∙ omega (arith, after, length-append (before ++ encode e []) rest) in
      let next = offset + (26 + round_even (length e.name + 1) + round_even (length e.contents)) in
      let no_wrap : u64 next ≡ next = omega arith in
      let found =
        find_loop-encode_all es (before ++ encode e []) fuel next whole (omega arith) small
          (omega arith) v.1 in
      rw (magic, names)
        (elim (Bool-cases (starts_with s e.name)) [
          | inl hit ↦ rw hit (ap (λ (k : ℕ). done (some k)) (omega arith))
          | inr miss ↦ rw (miss, start, len, no_wrap, found, after, shift-shift)
        ])

length-encode_all : (es : List Entry) (tail : List ℕ) → length es ≤ length (encode_all es tail)
unfolding encode_all
length-encode_all [] tail = omega arith
length-encode_all (e ∷ es) tail =
    omega (arith, length-encode e (encode_all es tail), length-encode_all es tail)

skip_slash_no_nul : (s : List ℕ) → All (λ c. c ≢ 0) s → All (λ c. c ≢ 0) (skip_slash s)
unfolding skip_slash
skip_slash_no_nul [] h = h
skip_slash_no_nul (c ∷ s) h = elim (Bool-cases (c == b'/')) [
  | inl slash ↦ rw slash h.1
  | inr other ↦ rw other h
]

-- A search of an archive in memory finds the first entry whose name starts with the file name
-- (less a leading slash), and gives its header's address; if no name does, it gives `NULL`. It
-- reads nothing out of range and ends.
pub initramfs_find_file-encode_all :
    (before : List ℕ) (es : List Entry) (tail filename : List ℕ)
    → All (λ c. c ≢ 0) filename
    → All IsEntry es
    → IsTail tail
    → length (before ++ encode_all es tail) < 2 ^ 63
    → initramfs_find_file (before ++ encode_all es tail) (some (length before)) (some filename)
      ≡ done (shift (length before) (offset_of (skip_slash filename) es))
unfolding initramfs_find_file
initramfs_find_file-encode_all before es tail filename no_nul v ends small =
    find_loop-encode_all (skip_slash filename) tail (skip_slash_no_nul filename no_nul) ends
      (before ++ encode_all es tail) (length before) es before
      (length (before ++ encode_all es tail) + 1) 0 refl (omega arith) small
      (omega (arith, length-encode_all es tail, length-append before (encode_all es tail))) v
