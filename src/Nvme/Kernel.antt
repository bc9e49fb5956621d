-- ===== src/Nvme/Kernel.antt =====
-- What pci.c calls: the ring buffers of the kernel (lib/ringbuffer.h), its interrupts and memory,
-- and the registers of a controller, which are in memory. All of it is outside the repository.
use kdrivers.Base.{ℕ, Bool, Option, List}
use kdrivers.Nvme.{QsEntry, QcEntry}

-- The fields of `ctrl_props_t` that are used.
pub data Register : Type 0 where
  cap : Register
  cc : Register
  csts : Register
  aqa : Register
  asq : Register
  acq : Register

pub record Kernel : Type 1 where
  pub World : Type 0
  pub Ring : Type 0
  -- `objs`, `base` and `idx` of `ARC_Ringbuffer`.
  pub objs : Ring → ℕ
  pub base : Ring → ℕ
  pub idx : Ring → World → ℕ
  pub init_ringbuffer : ℕ → ℕ → ℕ → World → Option Ring × World
  pub ringbuffer_allocate : Ring → ℕ → World → ℕ × World
  pub ringbuffer_write : Ring → ℕ → QsEntry → World → World
  pub ringbuffer_free : Ring → ℕ → World → World
  -- A read of a `volatile` entry of a completion queue: the device may act at any of them.
  pub read_entry : Ring → ℕ → World → QcEntry × World
  pub read_register : ℕ → Register → World → ℕ × World
  pub write_register : ℕ → Register → ℕ → World → World
  -- The whole block, of 0x1000 bytes.
  pub read_props : ℕ → World → List ℕ × World
  pub write_props : ℕ → List ℕ → World → World
  pub write_doorbell : ℕ → ℕ → World → World
  pub arch_interrupts_enabled : World → Bool
  pub enable_interrupt : World → World
  pub disable_interrupt : World → World
  pub pmm_alloc : ℕ → World → Option ℕ × World
  pub clear : ℕ → ℕ → World → World
  -- ARC_HHDM_TO_PHYS
  pub to_phys : ℕ → ℕ
