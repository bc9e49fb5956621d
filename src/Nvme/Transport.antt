-- ===== src/Nvme/Transport.antt =====
-- What nvme.c and namespace.c call: the two functions that the transport gives them (`nvme_submit_t`
-- and `nvme_poll_t` of src/c/include/drivers/sysdev/nvme/nvme.h), and the kernel's physical memory
-- (mm/pmm.h, outside the repository).
use kdrivers.Base.{ℕ, ◌+◌, ◌*◌, ◌^◌, ◌≤◌, ◌<◌, ◌≡◌, Option, some, List, length, Outcome, done}
use kdrivers.Base.Slices.{slice, blit}
use kdrivers.Nvme.{QsEntry, QcEntry}

-- A queue is the index of its pair in `qpairs.qs`, `none` the administration queue, which the code
-- passes as `NULL`. An address that is `none` is `NULL`.
pub record Transport : Type 1 where
  pub World : Type 0
  pub Wrap : Type 0
  pub submit : Option ℕ → QsEntry → World → Wrap × World
  pub poll : Wrap → World → Outcome (QcEntry × World)
  pub pmm_alloc : ℕ → World → Option ℕ × World
  pub pmm_fast_page_alloc : World → Option ℕ × World
  pub pmm_free : Option ℕ → World → World
  pub pmm_fast_page_free : Option ℕ → World → World
  -- ARC_HHDM_TO_PHYS
  pub to_phys : Option ℕ → ℕ
  pub smp_get_processor_id : World → ℕ
  -- How many pairs the array `qpairs.qs` has.
  pub qpair_count : World → ℕ
  -- The bytes of memory from an address on, and storing some.
  pub load : ℕ → ℕ → World → List ℕ
  pub store : ℕ → List ℕ → World → World

-- What the driver of a namespace relies on: memory for a page, a pair of queues for the processor,
-- and a device that carries a read command out as the NVM command set says. `lba_size`, `nsid` and
-- `qpair_base` are the namespace's.
pub record IsNvm (t : Transport) (lba_size nsid qpair_base : ℕ) : Type 0 where
  pub disk : t.World → List ℕ
  pub page_alloc : (n : ℕ) (w : t.World) → (p : ℕ) × ((t.pmm_alloc n w).0 ≡ some p)
  pub own_queue : (w : t.World) → t.smp_get_processor_id w + qpair_base < t.qpair_count w
  pub alloc_disk : (n : ℕ) (w : t.World) → disk (t.pmm_alloc n w).1 ≡ disk w
  pub fast_alloc_disk : (w : t.World) → disk (t.pmm_fast_page_alloc w).1 ≡ disk w
  pub free_disk : (p : Option ℕ) (w : t.World) → disk (t.pmm_free p w) ≡ disk w
  pub fast_free_disk : (p : Option ℕ) (w : t.World) → disk (t.pmm_fast_page_free p w) ≡ disk w
  pub store_disk : (p : ℕ) (bytes : List ℕ) (w : t.World) → disk (t.store p bytes w) ≡ disk w
  pub fast_free_load :
      (m : Option ℕ) (p n : ℕ) (w : t.World) → t.load p n (t.pmm_fast_page_free m w) ≡ t.load p n w
  -- A read of `n` bytes in whole blocks from block `lba` on, to a page, within the namespace.
  pub read_done :
      (q : Option ℕ) (cmd : QsEntry) (p lba n : ℕ) (w : t.World)
      → cmd.opcode ≡ 2
      → cmd.entry1 ≡ t.to_phys (some p)
      → cmd.nsid ≡ nsid
      → cmd.cdw10 + cmd.cdw11 * 2 ^ 32 ≡ lba
      → (cmd.cdw12 + 1) * lba_size ≡ n
      → lba * lba_size + n ≤ length (disk w)
      → (c : QcEntry) × (w' : t.World) × (t.poll (t.submit q cmd w).0 (t.submit q cmd w).1
          ≡ done (c, w'))
        × (c.status ≡ 0)
        × (disk w' ≡ disk w)
        × ((from k : ℕ)
            → from + k ≤ n
            → t.load (p + from) k w' ≡ slice (disk w) (lba * lba_size + from) k)

-- What writing relies on besides: memory keeps what is stored, and a write command puts the page
-- on the namespace.
pub record IsNvmWrite (t : Transport) (lba_size nsid qpair_base : ℕ)
    (d : IsNvm t lba_size nsid qpair_base) : Type 0 where
  pub fast_alloc_load :
      (p n : ℕ) (w : t.World) → t.load p n (t.pmm_fast_page_alloc w).1 ≡ t.load p n w
  pub load_length : (p n : ℕ) (w : t.World) → length (t.load p n w) ≡ n
  pub load-store :
      (p n from : ℕ) (bytes : List ℕ) (w : t.World)
      → from + length bytes ≤ n
      → t.load p n (t.store (p + from) bytes w) ≡ blit (t.load p n w) from bytes
  pub write_done :
      (q : Option ℕ) (cmd : QsEntry) (p lba n : ℕ) (w : t.World)
      → cmd.opcode ≡ 1
      → cmd.entry1 ≡ t.to_phys (some p)
      → cmd.nsid ≡ nsid
      → cmd.cdw10 + cmd.cdw11 * 2 ^ 32 ≡ lba
      → (cmd.cdw12 + 1) * lba_size ≡ n
      → lba * lba_size + n ≤ length (d.disk w)
      → (c : QcEntry) × (w' : t.World) × (t.poll (t.submit q cmd w).0 (t.submit q cmd w).1
          ≡ done (c, w'))
        × (c.status ≡ 0)
        × (d.disk w' ≡ blit (d.disk w) (lba * lba_size) (t.load p n w))
