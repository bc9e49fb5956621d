-- ===== src/Nvme.antt =====
-- src/c/include/drivers/sysdev/nvme/nvme.h: the structures that the parts of the NVMe driver share.
pub mod Transport
pub mod Namespace
pub mod Kernel
pub mod Queue
pub mod Completion
pub mod Pci
pub mod Config
pub mod Reset
pub mod PciFunctions
pub mod Controller
pub mod QPairs
pub mod Start
pub mod Init
pub mod Driver
pub mod Listing
pub mod ReadPages
pub mod ReadBytes
pub mod WritePages
pub mod WriteBytes
pub mod RoundTrip
pub mod RamNvm
pub mod QueueExamples
pub mod ResetExamples
pub mod ControllerExamples
pub mod Examples
use kdrivers.Base.{ℕ, Option, none}

-- `qs_entry_t`, a command.
pub record QsEntry : Type 0 where
  pub opcode : ℕ
  pub fuse : ℕ
  pub resv0 : ℕ
  pub psdt : ℕ
  pub cid : ℕ
  pub nsid : ℕ
  pub cdw2 : ℕ
  pub cdw3 : ℕ
  pub mptr : ℕ
  pub entry1 : ℕ
  pub entry2 : ℕ
  pub cdw10 : ℕ
  pub cdw11 : ℕ
  pub cdw12 : ℕ
  pub cdw13 : ℕ
  pub cdw14 : ℕ
  pub cdw15 : ℕ

-- What an initialiser leaves out is 0.
abbrev pub no_command : QsEntry
no_command = record {
  opcode = 0;
  fuse = 0;
  resv0 = 0;
  psdt = 0;
  cid = 0;
  nsid = 0;
  cdw2 = 0;
  cdw3 = 0;
  mptr = 0;
  entry1 = 0;
  entry2 = 0;
  cdw10 = 0;
  cdw11 = 0;
  cdw12 = 0;
  cdw13 = 0;
  cdw14 = 0;
  cdw15 = 0;
}

-- `qc_entry_t`, a completion.
pub record QcEntry : Type 0 where
  pub dw0 : ℕ
  pub dw1 : ℕ
  pub sq_head_ptr : ℕ
  pub sq_ident : ℕ
  pub cid : ℕ
  pub phase : ℕ
  pub status : ℕ

-- `nvme_qpair_t`, over the kernel's ring buffers.
pub record QPair (Ring : Type 0) : Type 0 where
  pub subq : Ring
  pub cmpq : Ring
  pub id : ℕ
  pub phase : ℕ

abbrev pub page_size : ℕ
page_size = 4096

abbrev pub admin_queue_sub_len : ℕ
admin_queue_sub_len = 64

abbrev pub admin_queue_comp_len : ℕ
admin_queue_comp_len = 256
