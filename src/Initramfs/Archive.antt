-- ===== src/Initramfs/Archive.antt =====
-- The archive format by its writer: what an archive of given files is, as a reference for
-- src/c/sysfs/initramfs (the old binary cpio format: a header, the name with its NUL, the data,
-- the last two filled up to an even length). No part of it is the driver's.
use kdrivers.Base.{
  All, ℕ, ◌+◌, ◌-◌, ◌/◌, ◌%◌, ◌^◌, ◌<◌, ◌≢◌, Bool, true, false, ◌&&◌, Option, none, some, List, [],
  ◌∷◌, ◌++◌, ◌==◌, if◌then◌else◌, length, replicate,
}
use kdrivers.Initramfs.Header.{cpio_magic}

pub record Entry : Type 0 where
  pub device : ℕ
  pub inode : ℕ
  pub mode : ℕ
  pub uid : ℕ
  pub gid : ℕ
  pub nlink : ℕ
  pub rdev : ℕ
  pub mod_hi : ℕ
  pub mod_lo : ℕ
  pub name : List ℕ
  pub contents : List ℕ

-- What the format can hold: 16-bit words, a name with no NUL, a length that an `int` holds.
pub record IsEntry (e : Entry) : Type 0 where
  pub device_fits : e.device < 2 ^ 16
  pub inode_fits : e.inode < 2 ^ 16
  pub mode_fits : e.mode < 2 ^ 16
  pub uid_fits : e.uid < 2 ^ 16
  pub gid_fits : e.gid < 2 ^ 16
  pub nlink_fits : e.nlink < 2 ^ 16
  pub rdev_fits : e.rdev < 2 ^ 16
  pub mod_hi_fits : e.mod_hi < 2 ^ 15
  pub mod_lo_fits : e.mod_lo < 2 ^ 16
  pub name_fits : length e.name + 1 < 2 ^ 16
  pub no_nul : All (λ c. c ≢ 0) e.name
  pub contents_fit : length e.contents < 2 ^ 31 - 1

abbrev pub word : ℕ → List ℕ → List ℕ
word n rest = n % 256 ∷ (n / 256 ∷ rest)

-- The zero byte that makes a length even.
abbrev pub padding : ℕ → List ℕ
padding n = replicate (n % 2) 0

abbrev pub header_bytes : Entry → List ℕ
header_bytes e = word cpio_magic (
    word e.device (
      word e.inode (
        word e.mode (
          word e.uid (
            word e.gid (
              word e.nlink (
                word e.rdev (
                  word e.mod_hi (
                    word e.mod_lo (
                      word (length e.name + 1) (
                        word (length e.contents / 2 ^ 16)
                          (word (length e.contents % 2 ^ 16) []))))))))))))

abbrev pub name_bytes : Entry → List ℕ
name_bytes e = e.name ++ (0 ∷ padding (length e.name + 1))

abbrev pub data_bytes : Entry → List ℕ
data_bytes e = e.contents ++ padding (length e.contents)

-- An entry followed by `rest`.
unfoldable pub encode : Entry → List ℕ → List ℕ
encode e rest = header_bytes e ++ (name_bytes e ++ (data_bytes e ++ rest))

unfoldable pub encode_all : List Entry → List ℕ → List ℕ
encode_all [] rest = rest
encode_all (e ∷ es) rest = encode e (encode_all es rest)

abbrev pub round_even : ℕ → ℕ
round_even n = n + n % 2

abbrev pub entry_size : Entry → ℕ
entry_size e = 26 + round_even (length e.name + 1) + round_even (length e.contents)

unfoldable pub starts_with : List ℕ → List ℕ → Bool
starts_with [] name = true
starts_with (c ∷ s) [] = false
starts_with (c ∷ s) (d ∷ name) = d == c && starts_with s name

-- Where the first entry begins whose name starts with `s`.
unfoldable pub offset_of : List ℕ → List Entry → Option ℕ
offset_of s [] = none
offset_of s (e ∷ es) =
    if starts_with s e.name
    then some 0
    else elim (offset_of s es) [ none ↦ none | some k ↦ some (entry_size e + k) ]
