-- ===== src/Nvme/ResetExamples.antt =====
-- src/c/sysdev/nvme/pci.c: the result of a reset at a small controller.
use kdrivers.Base.{
  ℕ, ◌+◌, ◌-◌, ◌%◌, ◌^◌, ◌<◌, ◌≡◌, ◌≢◌, refl, min, some, [], true, false, ◌==◌, if◌then◌else◌, done,
  arith,
}
use kdrivers.Base.Masks.{plain_masks}
use kdrivers.Nvme.{QPair}
use kdrivers.Nvme.Config.{IsReset, IsController}
use kdrivers.Nvme.Kernel.{Kernel, Register, cap, csts, aqa, asq, acq}
use kdrivers.Nvme.Kernel.{cc as configuration}
use kdrivers.Nvme.Pci.{reset_controller}
use kdrivers.Nvme.Queue.{State}
use kdrivers.Nvme.QueueExamples.{Ring, completion, pair}
use kdrivers.Nvme.Reset.{reset_controller-IsReset}

-- A controller that follows its enable bit after up to three reads of its status.
record Machine : Type 0 where
  config : ℕ
  left : ℕ

-- It has the NVM command set (bit 37), and all of those that it has can be used (bit 43).
abbrev capability : ℕ
capability = 2 ^ 37 + 2 ^ 43

abbrev waits : Machine → ℕ
waits w = min w.left 3

abbrev read_register : Register → Machine → ℕ × Machine
read_register cap w = (capability, w)
read_register configuration w = (w.config % 2 ^ 32, w)
read_register csts w =
    if waits w == 0
    then (w.config % 2 ^ 32 % 2, w)
    else (1 - w.config % 2, record w { left = waits w - 1 })
read_register aqa w = (0, w)
read_register asq w = (0, w)
read_register acq w = (0, w)

abbrev write_register : Register → ℕ → Machine → Machine
write_register cap v w = w
write_register configuration v w = record { config = v; left = 3 }
write_register csts v w = w
write_register aqa v w = w
write_register asq v w = w
write_register acq v w = w

abbrev kernel : Kernel
kernel = record {
  World = Machine;
  Ring = Ring;
  objs = λ r. r.size;
  base = λ r. 0;
  idx = λ r w. 0;
  init_ringbuffer = λ base objs size w. (some (record { size = objs; submission = true }), w);
  ringbuffer_allocate = λ r n w. (0, w);
  ringbuffer_write = λ r i cmd w. w;
  ringbuffer_free = λ r i w. w;
  read_entry = λ r i w. (completion, w);
  read_register = λ props r w. read_register r w;
  write_register = λ props r v w. write_register r v w;
  write_doorbell = λ a v w. w;
  arch_interrupts_enabled = λ w. false;
  enable_interrupt = λ w. w;
  disable_interrupt = λ w. w;
  pmm_alloc = λ n w. (some 0x10000, w);
  clear = λ p n w. w;
  read_props = λ p w. ([], w);
  write_props = λ p bytes w. w;
  to_phys = λ p. p;
}

keeps : (r : Register) (w : Machine) → (read_register r w).1.config % 2 ^ 32 ≡ w.config % 2 ^ 32
keeps cap w = refl
keeps configuration w = refl
keeps csts w = ground arith
keeps aqa w = refl
keeps asq w = refl
keeps acq w = refl

answers : (w : Machine) → waits w ≡ 0 → (read_register csts w).0 % 2 ≡ w.config % 2 ^ 32 % 2
answers w h = ground arith

less : (w : Machine) → waits w ≢ 0 → waits (read_register csts w).1 < waits w
less w h = ground arith

controller : IsController kernel 0 capability 3
controller = record {
  config = λ w. w.config % 2 ^ 32;
  waits = waits;
  config_small = λ w. omega arith;
  read_config = λ w. refl;
  read_cap = λ w. refl;
  read_keeps = keeps;
  write_config = λ v w h. omega arith;
  write_aqa = λ v w. refl;
  write_asq = λ v w. refl;
  write_acq = λ v w. refl;
  patient = λ w. omega arith;
  answers = answers;
  waits_less = less;
  memory_given = λ n w. (0x10000, refl);
  alloc_keeps = λ n w. refl;
  clear_keeps = λ p n w. refl;
  ring_given = λ b objs size w. (record { size = objs; submission = true }, refl);
  ring_keeps = λ b objs size w. refl;
}

abbrev state : State Ring
state = record { props = 0; exposed = 0; adminq = pair }

-- A controller that is enabled, with pages of 8192 bytes.
abbrev machine : Machine
machine = record { config = 129; left = 0 }

reset_controller-IsReset_example :
    (a : QPair Ring) × (w' : Machine) × (reset_controller plain_masks kernel 4 state machine
      ≡ done ((0, record state { adminq = a }), w'))
    × IsReset capability 129 (w'.config % 2 ^ 32)
unfolding controller
reset_controller-IsReset_example =
    reset_controller-IsReset plain_masks kernel state capability 3 controller 4 machine
      (omega arith)
