-- ===== src/Nvme/Config.antt =====
-- src/c/sysdev/nvme/pci.c: the configuration register of a controller, its fields, and the wait
-- for what it asks for.
use kdrivers.Base.{
  ℕ, zero, suc, ◌+◌, ◌-◌, ◌*◌, ◌/◌, ◌%◌, ◌^◌, ◌≤◌, ◌<◌, ◌≡◌, ◌≢◌, refl, ap, sym, ◌∙◌, some, ◌==◌,
  if◌then◌else◌, ==_true, ==_false, bit_and-one, ◌>>>◌, done, arith,
}
use kdrivers.Base.Masks.{Masks}
use kdrivers.Nvme.Kernel.{Kernel, Register, cap, csts, aqa, asq, acq}
use kdrivers.Nvme.Kernel.{cc as configuration}
use kdrivers.Nvme.Pci.{write_field, wait_ready, set_command_set}
use native.Mathlib.Decide.{ℕ_discrete}

-- The command set that a controller is set to, by its capabilities: 6 for all that it has, 0 for
-- the NVM command set, 7 for the administration queues only, and else what is set already.
abbrev pub wanted_css : ℕ → ℕ → ℕ
wanted_css css old =
    if css / 64 % 2 == 1
    then 6
    else if css % 2 == 1
    then 0
    else if css / 128 % 2 == 1
    then 7
    else old

pub wanted_css_small : (css old : ℕ) → old < 8 → wanted_css css old < 8
wanted_css_small css old h = ground arith

-- The fields of the register after a reset that began with the value `old`, of
-- a controller with these capabilities.
pub record IsReset (capability old new : ℕ) : Type 0 where
  pub enabled : new % 2 ≡ 1
  pub command_set :
      new / 2 ^ 4 % 2 ^ 3 ≡ wanted_css (capability / 2 ^ 37 % 2 ^ 8) (old / 2 ^ 4 % 2 ^ 3)
  pub page_bits : new / 2 ^ 7 % 2 ^ 4 ≡ 0
  pub arbitration : new / 2 ^ 11 % 2 ^ 3 ≡ 0
  pub reserved : new / 2 % 2 ^ 3 ≡ old / 2 % 2 ^ 3
  pub above : new / 2 ^ 14 ≡ old / 2 ^ 14

module _ (k : Kernel) (props capability patience : ℕ) where
  open k use {
    World, Ring, init_ringbuffer, read_register, write_register, pmm_alloc, clear, to_phys,
  }

  -- What the reset relies on of a controller: its configuration register is read as it was
  -- written, and nothing else changes it; its ready bit follows the enable bit after at most
  -- `patience` reads of the status. There is memory for the administration queues.
  pub record IsController : Type 0 where
    pub config : World → ℕ
    pub waits : World → ℕ
    pub config_small : (w : World) → config w < 2 ^ 32
    pub read_config : (w : World) → (read_register props configuration w).0 ≡ config w
    pub read_cap : (w : World) → (read_register props cap w).0 ≡ capability
    pub read_keeps : (r : Register) (w : World) → config (read_register props r w).1 ≡ config w
    pub write_config :
        (v : ℕ) (w : World) → v < 2 ^ 32 → config (write_register props configuration v w) ≡ v
    pub write_aqa : (v : ℕ) (w : World) → config (write_register props aqa v w) ≡ config w
    pub write_asq : (v : ℕ) (w : World) → config (write_register props asq v w) ≡ config w
    pub write_acq : (v : ℕ) (w : World) → config (write_register props acq v w) ≡ config w
    pub patient : (w : World) → waits w ≤ patience
    pub answers : (w : World) → waits w ≡ 0 → (read_register props csts w).0 % 2 ≡ config w % 2
    pub waits_less : (w : World) → waits w ≢ 0 → waits (read_register props csts w).1 < waits w
    pub memory_given : (n : ℕ) (w : World) → (q : ℕ) × ((pmm_alloc n w).0 ≡ some q)
    pub alloc_keeps : (n : ℕ) (w : World) → config (pmm_alloc n w).1 ≡ config w
    pub clear_keeps : (p n : ℕ) (w : World) → config (clear p n w) ≡ config w
    pub ring_given :
        (b objs size : ℕ) (w : World) → (r : Ring) × ((init_ringbuffer b objs size w).0 ≡ some r)
    pub ring_keeps :
        (b objs size : ℕ) (w : World) → config (init_ringbuffer b objs size w).1 ≡ config w

  module _ (masks : Masks) (c : IsController) where
    open c use {config}

    -- A wait for the state that the register asks for ends.
    pub wait_ready-config :
        (fuel ready : ℕ) (w : World)
        → config w % 2 ≡ ready
        → c.waits w < fuel
        → (w' : World) × (wait_ready masks k fuel props ready w ≡ done w') × (config w' ≡ config w)
    unfolding wait_ready
    wait_ready-config zero ready w asked h = absurd (omega arith)
    wait_ready-config (suc fuel) ready w asked h =
        let status = (read_register props csts w).0 in
        let w1 = (read_register props csts w).1 in
        let bit : masks.masked_read status 0 1 ≡ status % 2 =
          masks.read_field status 0 1 ∙ omega arith in
        let kept = c.read_keeps csts w in
        elim (ℕ_discrete (masks.masked_read status 0 1) ready) [
          | yes e ↦ (w1, rw (==_true (masks.masked_read status 0 1) ready e) refl, kept)
          | no ne ↦
              let more : c.waits w ≢ 0 = λ z. let a = c.answers w z in ne (bit ∙ a ∙ asked) in
              let less = c.waits_less w more in
              let rest =
                wait_ready-config fuel ready w1 (ap (λ (n : ℕ). n % 2) kept ∙ asked)
                  (omega arith) in
              (rest.0, rw (==_false (masks.masked_read status 0 1) ready ne) rest.1, rest.2 ∙ kept)
        ]

    -- A field of the register.
    pub write_field-config :
        (new shift j v : ℕ) (w : World)
        → v
          ≡ config w / 2 ^ shift / 2 ^ j * 2 ^ j * 2 ^ shift
            + new % 2 ^ j * 2 ^ shift
            + config w % 2 ^ shift
        → v < 2 ^ 32
        → config (write_field masks k props configuration new shift (2 ^ j - 1) w) ≡ v
    unfolding write_field
    write_field-config new shift j v w e small =
        let w1 = (read_register props configuration w).1 in
        let value : masks.masked_write (read_register props configuration w).0 new shift (2 ^ j - 1)
            ≡ v =
          ap (λ (old : ℕ). masks.masked_write old new shift (2 ^ j - 1)) (c.read_config w)
          ∙ masks.write_field (config w) new shift j
          ∙ sym e in
        ap (λ (n : ℕ). config (write_register props configuration n w1)) value
        ∙ c.write_config v w1 small

    abbrev css_field : ℕ → World → ℕ
    css_field new w = config w / 128 * 128 + new * 16 + config w % 16

    write_css :
        (new : ℕ) (w : World)
        → new < 8
        → config (write_field masks k props configuration new 4 7 w) ≡ css_field new w
    write_css new w h =
        let small = c.config_small w in
        write_field-config new 4 3 (css_field new w) w (omega arith) (omega arith)

    pub set_command_set-config :
        (css : ℕ) (w : World)
        → config (set_command_set masks k props css w)
          ≡ config w / 128 * 128 + wanted_css css (config w / 16 % 8) * 16 + config w % 16
    unfolding set_command_set
    set_command_set-config css w =
        let six = bit_and-one (css >>> 6) in
        let seven = bit_and-one (css >>> 7) in
        let zeroth = bit_and-one css in
        let only = write_field masks k props configuration 7 4 7 w in
        ground (
          arith,
          six,
          seven,
          zeroth,
          write_css 7 w (omega arith),
          write_css 6 w (omega arith),
          write_css 6 only (omega arith),
          write_css 0 w (omega arith),
          write_css 0 only (omega arith),
        )
