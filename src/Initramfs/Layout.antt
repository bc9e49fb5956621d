-- ===== src/Initramfs/Layout.antt =====
-- What the driver's header macros read from an archive, wherever an entry lies in it.
use kdrivers.Base.{
  ℕ, ◌+◌, ◌-◌, ◌*◌, ◌/◌, ◌%◌, ◌^◌, ◌<◌, ◌≡◌, refl, ap, ◌∙◌, List, ◌∷◌, ◌++◌, length, length-append,
  length-replicate, get_or, get_elem?-append_left, get_elem?-eq-get_or, get_or-append-replicate,
  bit_and-one, bit_or-fields, sign_extend, Outcome, done, arith,
}
use kdrivers.Base.Memory.{load8, load16, get_elem?-skip, load16-skip}
use kdrivers.Initramfs.Header.{
  cpio_magic, data_size, two_words, load_magic, load_data_offset, load_data_size, load_stat, Stat,
}
use kdrivers.Initramfs.Archive.{
  Entry, IsEntry, encode, entry_size, round_even, name_bytes, data_bytes, header_bytes, padding,
}

-- The size that a header gives is the size of the data, filled up.
data_size-words : (n : ℕ) → n < 2 ^ 31 - 1 → data_size (n / 2 ^ 16) (n % 2 ^ 16) ≡ round_even n
unfolding data_size two_words
data_size-words n h = ground (arith, bit_or-fields 16 (n / 2 ^ 16) (n % 2 ^ 16), bit_and-one n)

length-padding : (n : ℕ) → length (padding n) ≡ n % 2
length-padding n = length-replicate (n % 2) 0

pub length-encode :
    (e : Entry) (rest : List ℕ) → length (encode e rest) ≡ entry_size e + length rest
unfolding encode
length-encode e rest = omega (
  arith,
  length-append (name_bytes e) (data_bytes e ++ rest),
  length-append e.name (0 ∷ padding (length e.name + 1)),
  length-append (data_bytes e) rest,
  length-append e.contents (padding (length e.contents)),
  length-padding (length e.name + 1),
  length-padding (length e.contents),
)

split_word : (n : ℕ) → ◌≡◌ {A = Outcome ℕ} (done (n % 256 + n / 256 * 256)) (done n)
split_word n = ap done (omega arith)

module _ (e : Entry) (rest : List ℕ) where
  abbrev word_at : ℕ → Outcome ℕ
  word_at i = load16 (encode e rest) i

  magic_word : word_at 0 ≡ done cpio_magic
  unfolding load16 encode
  magic_word = split_word cpio_magic

  identity_words :
      (word_at 2 ≡ done e.device)
      × (word_at 4 ≡ done e.inode)
      × (word_at 6 ≡ done e.mode)
      × (word_at 8 ≡ done e.uid)
      × (word_at 10 ≡ done e.gid)
      × (word_at 12 ≡ done e.nlink)
      × (word_at 14 ≡ done e.rdev)
  unfolding load16 encode
  identity_words = (
    split_word e.device,
    split_word e.inode,
    split_word e.mode,
    split_word e.uid,
    split_word e.gid,
    split_word e.nlink,
    split_word e.rdev,
  )

  time_words : (word_at 16 ≡ done e.mod_hi) × (word_at 18 ≡ done e.mod_lo)
  unfolding load16 encode
  time_words = (split_word e.mod_hi, split_word e.mod_lo)

  size_words :
      (word_at 20 ≡ done (length e.name + 1))
      × (word_at 22 ≡ done (length e.contents / 2 ^ 16))
      × (word_at 24 ≡ done (length e.contents % 2 ^ 16))
  unfolding load16 encode
  size_words = (
    split_word (length e.name + 1),
    split_word (length e.contents / 2 ^ 16),
    split_word (length e.contents % 2 ^ 16),
  )

module _ (before : List ℕ) (e : Entry) (rest : List ℕ) where
  abbrev memory : List ℕ
  memory = before ++ encode e rest

  at : (i p : ℕ) → p ≡ length before + i → load16 memory p ≡ load16 (encode e rest) i
  at i p q = load16-skip p i before (encode e rest) q

  pub load_magic-encode : load_magic memory (length before) ≡ done cpio_magic
  unfolding load_magic
  load_magic-encode = at 0 (length before) (omega arith) ∙ magic_word e rest

  pub load_data_offset-encode :
      load_data_offset memory (length before) ≡ done (26 + round_even (length e.name + 1))
  unfolding load_data_offset
  load_data_offset-encode = rw (at 20 (length before + 20) refl, (size_words e rest).0, bit_and-one)

  pub load_data_size-encode :
      IsEntry e → load_data_size memory (length before) ≡ done (round_even (length e.contents))
  unfolding load_data_size
  load_data_size-encode v = rw (
    at 22 (length before + 22) refl,
    (size_words e rest).1,
    at 24 (length before + 24) refl,
    (size_words e rest).2,
    data_size-words (length e.contents) v.contents_fit,
  )

  -- The time of last change, put together from its two words.
  mod_time : IsEntry e → sign_extend (two_words e.mod_hi e.mod_lo) ≡ e.mod_hi * 2 ^ 16 + e.mod_lo
  unfolding two_words
  mod_time v = ground (arith, v, bit_or-fields 16 e.mod_hi e.mod_lo)

  abbrev pub stat_of : Stat
  stat_of = record {
    st_uid = e.uid;
    st_gid = e.gid;
    st_mode = e.mode;
    st_dev = e.device;
    st_ino = e.inode;
    st_nlink = e.nlink;
    st_rdev = e.rdev;
    st_size = round_even (length e.contents);
    st_mtim_nsec = 0;
    st_mtim_sec = e.mod_hi * 2 ^ 16 + e.mod_lo;
  }

  pub load_stat-encode : IsEntry e → load_stat memory (length before) ≡ done stat_of
  unfolding load_stat
  load_stat-encode v = rw (
    at 8 (length before + 8) refl,
    at 10 (length before + 10) refl,
    at 6 (length before + 6) refl,
    at 2 (length before + 2) refl,
    at 4 (length before + 4) refl,
    at 12 (length before + 12) refl,
    at 14 (length before + 14) refl,
    at 16 (length before + 16) refl,
    at 18 (length before + 18) refl,
    (identity_words e rest).0,
    (identity_words e rest).1,
    (identity_words e rest).2,
    (identity_words e rest).3,
    (identity_words e rest).4,
    (identity_words e rest).5,
    (identity_words e rest).6,
    (time_words e rest).0,
    (time_words e rest).1,
    load_data_size-encode v,
    mod_time v,
  )

  -- The data begin where ARC_DATA_OFFSET says; past the contents there is at most a zero.
  pub load8-data :
      (k p : ℕ)
      → k < round_even (length e.contents)
      → p ≡ length before + (26 + round_even (length e.name + 1)) + k
      → load8 memory p ≡ done (get_or e.contents k 0)
  unfolding load8 encode
  load8-data k p h q =
      let names : length (name_bytes e) ≡ round_even (length e.name + 1) = omega (
        arith,
        length-append e.name (0 ∷ padding (length e.name + 1)),
        length-padding (length e.name + 1),
      ) in
      let inner = 26 + length (name_bytes e) + k in
      let inside : k < length (data_bytes e) = omega (
        arith,
        length-append e.contents (padding (length e.contents)),
        length-padding (length e.contents),
      ) in
      rw
        (
          get_elem?-skip p inner before (encode e rest) (omega arith),
          get_elem?-skip inner (length (name_bytes e) + k) (header_bytes e)
              (name_bytes e ++ (data_bytes e ++ rest)) (omega arith),
          get_elem?-skip (length (name_bytes e) + k) k (name_bytes e) (data_bytes e ++ rest) refl,
          get_elem?-append_left (data_bytes e) rest k inside,
          get_elem?-eq-get_or (data_bytes e) k 0 inside,
          get_or-append-replicate e.contents (length e.contents % 2) k 0,
        )
        refl
