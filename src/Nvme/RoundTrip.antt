-- ===== src/Nvme/RoundTrip.antt =====
-- src/c/sysdev/nvme/namespace.c: reading what was written.
use kdrivers.Base.{
  ℕ, ◌+◌, ◌*◌, ◌/◌, ◌%◌, ◌^◌, ◌≤◌, ◌<◌, ◌≡◌, refl, ◌⊎◌, ap, ◌∙◌, List, length, get_or, u32, done,
  arith,
}
use kdrivers.Base.Filled.{IsFilled}
use kdrivers.Nvme.{page_size}
use kdrivers.Nvme.Transport.{Transport, IsNvm, IsNvmWrite}
use kdrivers.Nvme.Namespace.{State, read_nvme_namespace, write_nvme_namespace}
use kdrivers.Nvme.ReadBytes.{read_nvme_namespace-IsFilled}
use kdrivers.Nvme.WriteBytes.{write_nvme_namespace-IsFilled}

same_bytes :
    (offset total : ℕ) (written now buffer after : List ℕ)
    → ((i : ℕ) → i < total → get_or now (offset + i) 0 ≡ get_or written i 0)
    → IsFilled (λ i. get_or now (offset + i) 0) 0 total buffer after
    → IsFilled (λ i. get_or written i 0) 0 total buffer after
same_bytes offset total written now buffer after same f = record {
  same_length = f.same_length;
  inside = λ i p q. f.inside i p q ∙ same i q;
  outside = f.outside;
}

module _ (t : Transport) (align_down : ℕ → ℕ → ℕ) (state : State)
    (d : IsNvm t state.lba_size (u32 state.namespace) state.qpair_base)
    (wr : IsNvmWrite t state.lba_size (u32 state.namespace) state.qpair_base d)
    (aligns : (x : ℕ) → align_down x state.lba_size ≡ x / state.lba_size * state.lba_size) (m : ℕ)
    (whole_blocks : m * state.lba_size ≡ page_size)
    (page_blocks : state.block_size ≡ page_size) where
  -- Reading as many bytes as were written, from the same offset of the namespace, gives the bytes
  -- that were written, where the write does not begin with a whole page: the offset is within a
  -- block, or there are fewer bytes than in a page. What is written ends at block 2 ^ 31 at most,
  -- since the code keeps the number of a block in an `int`; the namespace has a whole page more
  -- behind the last byte, since each command is for a page; both arrays have room for all bytes;
  -- and a page is the namespace's block of the file system and a whole number of its logical
  -- blocks.
  -- There is memory for a page, the processor's pair of queues is one of the array, and the device
  -- carries each command out.
  pub read_nvme_namespace-write :
      (size count offset : ℕ) (written buffer : List ℕ) (w : t.World)
      → offset + size * count ≤ 2 ^ 31 * state.lba_size
      → size * count ≤ length written
      → size * count ≤ length buffer
      → (0 < offset % state.lba_size) ⊎ (size * count < page_size)
      → offset + size * count + page_size ≤ length (d.disk w)
      → (buffer' : List ℕ) × (w' w'' : t.World) × (write_nvme_namespace t align_down state written
            size count offset w
          ≡ done (size * count, w'))
        × (read_nvme_namespace t align_down state buffer size count offset w'
            ≡ done ((size * count, buffer'), w''))
        × IsFilled (λ i. get_or written i 0) 0 (size * count) buffer buffer'
  read_nvme_namespace-write size count offset written buffer w small given fits part inside =
      let total = size * count in
      let put =
        write_nvme_namespace-IsFilled t align_down state d wr aligns m whole_blocks page_blocks
          offset total small written given size count refl w part inside in
      let now = d.disk put.0 in
      let got =
        read_nvme_namespace-IsFilled t align_down state d aligns m whole_blocks page_blocks offset
          total small now (rw put.2.same_length inside) buffer size count put.0 refl refl fits in
      (
        got.0,
        put.0,
        got.1,
        put.1,
        got.2,
        same_bytes offset total written now buffer got.0
            (λ i h.
              put.2.inside (offset + i) (omega arith) (omega arith)
              ∙ ap (λ (j : ℕ). get_or written j 0) (omega arith))
            got.3,
      )
