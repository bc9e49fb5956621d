-- ===== src/Nvme/Pci.antt =====
-- src/c/sysdev/nvme/pci.c: starting a controller.
use kdrivers.Base.{
  ℕ, zero, suc, ◌+◌, ◌-◌, ◌*◌, Option, none, some, Bool, not, ◌&&◌, bit_and, bit_or, ◌==◌,
  if◌then◌else◌, u8, u64, ◌<<◌, ◌>>>◌, Outcome, done, out_of_fuel, ◌>>=◌,
}
use kdrivers.Base.Alloc.{neg}
use kdrivers.Base.Masks.{Masks}
use kdrivers.Nvme.{QPair, page_size, admin_queue_sub_len, admin_queue_comp_len}
use kdrivers.Nvme.Kernel.{Kernel, Register, cap, cc, csts, aqa, asq, acq}
use kdrivers.Nvme.Queue.{State}

-- The fields of the device's header that are used.
pub record Header : Type 0 where
  pub header_type : ℕ
  pub bar0 : ℕ
  pub bar1 : ℕ
  pub bar2 : ℕ

module _ (masks : Masks) (k : Kernel) where
  open k use {
    World, Ring, init_ringbuffer, read_register, write_register, pmm_alloc, clear, to_phys,
  }

  -- MASKED_WRITE of a register.
  unfoldable pub write_field : ℕ → Register → ℕ → ℕ → ℕ → World → World
  write_field props r value shift mask w =
      let (old, w') = read_register props r w in
      write_register props r (masks.masked_write old value shift mask) w'

  -- The code, the state, the world.
  abbrev pub Started : Type 0
  Started = (ℕ × State Ring) × World

  -- What follows the two ring buffers.
  unfoldable pub set_admin_queues : State Ring → ℕ → ℕ → Ring → Ring → World → Started
  unfolding write_field
  set_admin_queues state qsize queues sub comp w =
      let w1 = write_register state.props asq (to_phys queues) w in
      let w2 = write_register state.props acq (u64 (to_phys queues + qsize)) w1 in
      let w3 = write_field state.props aqa (admin_queue_sub_len - 1) 0 0xfff w2 in
      let w4 = write_field state.props aqa (admin_queue_comp_len - 1) 16 0xfff w3 in
      let adminq : QPair Ring = record { subq = sub; cmpq = comp; id = 0; phase = 1 } in
      ((0, record state { adminq = adminq }), w4)

  unfoldable pub with_sub : State Ring → ℕ → ℕ → Option Ring → World → Started
  unfolding set_admin_queues
  with_sub state qsize queues none w = ((neg 2, state), w)
  with_sub state qsize queues (some sub) w =
      let (comp, w') = init_ringbuffer (queues + qsize) admin_queue_comp_len 16 w in
      elim comp [
        | none ↦ ((neg 3, state), w')
        | some c ↦ set_admin_queues state qsize queues sub c w'
      ]

  unfoldable pub create_admin_qpair : State Ring → ℕ → World → Started
  unfolding with_sub
  create_admin_qpair state qsize w =
      let (queues, w1) = pmm_alloc (u64 (qsize * 2)) w in
      elim queues [
        | none ↦ ((neg 1, state), w1)
        | some q ↦
            let (sub, w2) =
              init_ringbuffer q admin_queue_sub_len 64 (clear q (u64 (qsize * 2)) w1) in
            with_sub state qsize q sub w2
      ]

  -- Waiting until the ready bit of the controller's status is `ready`, on fuel.
  unfoldable pub wait_ready : ℕ → ℕ → ℕ → World → Outcome World
  wait_ready zero props ready w = out_of_fuel
  wait_ready (suc fuel) props ready w =
      let (status, w') = read_register props csts w in
      let rest = wait_ready fuel props ready w' in
      if masks.masked_read status 0 1 == ready then done w' else rest

  -- CC.CSS by the capabilities.
  unfoldable pub set_command_set : ℕ → ℕ → World → World
  unfolding write_field
  set_command_set props css w =
      let w1 = if bit_and (css >>> 7) 1 == 0 then w else write_field props cc 7 4 7 w in
      let w2 = if bit_and (css >>> 6) 1 == 0 then w1 else write_field props cc 6 4 7 w1 in
      if (bit_and (css >>> 6) 1 == 0) && (bit_and css 1 == 1)
      then write_field props cc 0 4 7 w2
      else w2

  -- From the administration queues on.
  unfoldable pub enable_controller : ℕ → Started → Outcome Started
  unfolding set_command_set write_field wait_ready
  enable_controller fuel ((code, state), w) =
      let (c, w1) = read_register state.props cap w in
      let w2 = set_command_set state.props (u8 (masks.masked_read c 37 0xff)) w1 in
      let w3 = write_field state.props cc 0 7 0xf w2 in
      let w4 = write_field state.props cc 0 11 7 w3 in
      let w5 = write_field state.props cc 1 0 1 w4 in
      if code == 0
      then (wait_ready fuel state.props 1 w5 >>= λ w6. done ((0, state), w6))
      else done ((neg 2, state), w)

  -- Of a state that is not `NULL`. The waits for the controller are on fuel.
  unfoldable pub reset_controller : ℕ → State Ring → World → Outcome Started
  unfolding write_field wait_ready create_admin_qpair enable_controller
  reset_controller fuel state w =
      wait_ready fuel state.props 0 (write_field state.props cc 0 0 1 w) >>= λ w1.
      enable_controller fuel (create_admin_qpair state page_size w1)

  -- The header types and the I/O space test of the kernel's PCI code, its pager, and the start of
  -- the driver of nvme.c, with the device as its argument.
  module _ (device : ℕ) (is_iospace : ℕ → Bool) (pager_map : ℕ → ℕ → World → ℕ × World)
      (init_nvme : State Ring → World → Bool × World) where
    -- From the reset on: the code, and the resource's state.
    unfoldable pub start_controller :
        ℕ → State Ring → World → Outcome ((ℕ × Option (State Ring)) × World)
    unfolding reset_controller write_field
    start_controller fuel state w = reset_controller fuel state w >>= λ r.
        let w1 = write_field r.0.1.props cc 6 16 0xf r.1 in
        let w2 = write_field r.0.1.props cc 4 20 0xf w1 in
        let (started, w3) = init_nvme r.0.1 w2 in
        if not (r.0.0 == 0)
        then done ((neg 4, none), r.1)
        else done ((if started then 0 else neg 2, some r.0.1), w3)

    abbrev pub registers : Header → ℕ
    registers h = bit_or (bit_and h.bar0 0xffffc000) (h.bar1 << 32)

    -- The first argument is what the allocation of the state gives, with whatever it holds: where
    -- the registers are in I/O space, `props` is not set.
    unfoldable pub init_nvme_pci :
        Option (State Ring) → ℕ → Header → World → Outcome ((ℕ × Option (State Ring)) × World)
    unfolding start_controller
    init_nvme_pci none fuel h w = done ((neg 1, none), w)
    init_nvme_pci (some held) fuel h w =
        let (code, w1) = pager_map (registers h) 0x2000 w in
        let in_memory =
          if code == 0
          then start_controller fuel (record held { props = registers h }) w1
          else done ((neg 2, none), w1) in
        let in_iospace = start_controller fuel held w in
        if not (h.header_type == device)
        then done ((neg 3, none), w)
        else if is_iospace h.bar2
        then in_iospace
        else in_memory
