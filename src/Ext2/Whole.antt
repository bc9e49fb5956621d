-- ===== src/Ext2/Whole.antt =====
-- src/c/sysfs/ext2/super.c: a structure that is read in one piece.
use kdrivers.Base.{ℕ, ◌+◌, ◌*◌, ◌≤◌, ◌≡◌, ap, ◌∙◌, length, some, List, arith}
use kdrivers.Base.Slices.{slice, blit, length-slice, blit_whole}
use kdrivers.Base.Vfs.{Vfs, IsDevice}

module _ (v : Vfs) (file : v.File) (d : IsDevice v file) where
  -- A read of so many bytes from a place on, into an array of that length, gives those bytes.
  pub read_whole :
      (buffer : List ℕ) (at n : ℕ) (w : v.World)
      → length buffer ≡ n
      → at + n ≤ length (d.bytes w)
      → ((v.vfs_read buffer 0 1 n (some file) (v.vfs_seek (some file) at w)).0
          ≡ (n, slice (d.bytes w) at n))
        × (d.bytes (v.vfs_read buffer 0 1 n (some file) (v.vfs_seek (some file) at w)).1
            ≡ d.bytes w)
  read_whole buffer at n w fits inside =
      let w' = v.vfs_seek (some file) at w in
      let place = d.seek_place at w in
      let same = d.seek_bytes at w in
      let len : length (d.bytes w') ≡ length (d.bytes w) = ap length same in
      let one : 1 * n ≡ n = omega arith in
      let got = d.read_result buffer 0 1 n w' (omega arith) (omega (arith, place, len)) in
      let there : slice (d.bytes w') (d.place w') (1 * n) ≡ slice (d.bytes w) at n =
        λ i. slice (same i) (place i) (one i) in
      let size = length-slice (d.bytes w) at n inside in
      let whole : blit buffer 0 (slice (d.bytes w') (d.place w') (1 * n)) ≡ slice (d.bytes w) at n =
        ap (λ (l : List ℕ). blit buffer 0 l) there
        ∙ blit_whole buffer (slice (d.bytes w) at n) (omega (arith, size)) in
      (got ∙ (λ i. (one i, whole i)), d.read_bytes buffer 0 1 n w' ∙ same)
