-- ===== src/Nvme/PciFunctions.antt =====
-- src/c/sysdev/nvme/pci.c: the driver functions of the PCI device.
use kdrivers.Base.{
  ℕ, Option, none, some, Bool, true, not, ◌||◌, take, List, [], ◌∷◌, length, ◌==◌, leb,
  if◌then◌else◌, Outcome, done, fault, ◌>>=◌,
}
use kdrivers.Base.Slices.{memcpy}
use kdrivers.Nvme.Kernel.{Kernel}
use kdrivers.Nvme.Queue.{State}

-- `nvme_transport_iden_t`: the functions are those of the PCI transport, or none.
pub record Iden : Type 0 where
  pub kind : ℕ
  pub is_pci : Bool

-- `ARC_ControlPacketInstruction` and `ARC_ControlPacketResponse`.
pub record Instruction : Type 0 where
  pub command : ℕ
  pub data_in : Option Iden

pub record Response : Type 0 where
  pub kind : ℕ
  pub data_out : Option Iden
  pub size : ℕ

abbrev pub no_response : Response
no_response = record { kind = 0; data_out = none; size = 0 }

-- NVME_TRANSPORT_CTRL_IDEN and NVME_TRANSPORT_CTRL_TO_PROPS.
abbrev pub ctrl_iden : ℕ
ctrl_iden = 0

abbrev pub ctrl_to_props : ℕ
ctrl_to_props = 1

-- With the terminator of dri_defs.h, which is generated.
unfoldable pub pci_codes : ℕ → List ℕ
pci_codes terminator = 0x1b360010 ∷ terminator ∷ []

unfoldable pub uninit_nvme_pci : ℕ
uninit_nvme_pci = 0

unfoldable pub stat_nvme_pci : ℕ
stat_nvme_pci = 0

module _ (k : Kernel) where
  open k use {World, Ring, read_props, write_props}

  -- The count, the caller's buffer, the world. A file, a resource or a buffer that is not there is
  -- `false` or `none`.
  unfoldable pub read_nvme_pci :
      Option (List ℕ)
      → ℕ
      → ℕ
      → Bool
      → Option (State Ring)
      → World
      → Outcome ((ℕ × Option (List ℕ)) × World)
  read_nvme_pci none size count file res w = done ((0, none), w)
  read_nvme_pci (some buffer) size count file none w = done ((0, some buffer), w)
  read_nvme_pci (some buffer) size count file (some state) w =
      let (bytes, w') = read_props state.props w in
      if size == 0 || count == 0 || not file
      then done ((0, some buffer), w)
      else if state.exposed == ctrl_to_props
      then (memcpy buffer 0 bytes 0 0x1000 >>= λ copied. done ((size, some copied), w'))
      else done ((0, some buffer), w)

  unfoldable pub write_nvme_pci :
      Option (List ℕ) → ℕ → ℕ → Bool → Option (State Ring) → World → Outcome (ℕ × World)
  write_nvme_pci none size count file res w = done (0, w)
  write_nvme_pci (some buffer) size count file none w = done (0, w)
  write_nvme_pci (some buffer) size count file (some state) w =
      if size == 0 || count == 0 || not file
      then done (0, w)
      else if state.exposed == ctrl_to_props
      then (if leb 0x1000 (length buffer)
          then done (size, write_props state.props (take 0x1000 buffer) w)
          else fault)
      else done (0, w)

  -- The response, and the state.
  unfoldable pub control_nvme_pci :
      Option (State Ring) → Option Instruction → Response × Option (State Ring)
  control_nvme_pci none inst = (no_response, none)
  control_nvme_pci (some state) none = (no_response, some state)
  control_nvme_pci (some state) (some inst) =
      let iden : Iden = record { kind = 0; is_pci = true } in
      let identified : Response = elim inst.data_in [
        | none ↦ no_response
        | some given ↦ record { kind = inst.command; data_out = some iden; size = 24 }
      ] in
      if inst.command == ctrl_iden
      then (identified, some state)
      else if inst.command == ctrl_to_props
      then (no_response, some (record state { exposed = ctrl_to_props }))
      else (no_response, some state)
