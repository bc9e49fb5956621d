-- ===== src/Nvme/Reset.antt =====
-- src/c/sysdev/nvme/pci.c: what the reset of a controller leaves in its configuration register.
use kdrivers.Base.{
  ℕ, ◌+◌, ◌*◌, ◌/◌, ◌%◌, ◌^◌, ◌<◌, ◌≡◌, refl, ap, sym, ◌∙◌, some, u8, u64, done, arith,
}
use kdrivers.Base.Masks.{Masks}
use kdrivers.Nvme.{QPair, page_size}
use kdrivers.Nvme.Kernel.{Kernel, cap, aqa}
use kdrivers.Nvme.Kernel.{cc as configuration}
use kdrivers.Nvme.Pci.{
  write_field, set_admin_queues, with_sub, create_admin_qpair, set_command_set, enable_controller,
  reset_controller,
}
use kdrivers.Nvme.Queue.{State}
use mathlib.Core.Path.{subst}
use kdrivers.Nvme.Config.{
  IsReset, wanted_css, wanted_css_small, IsController, wait_ready-config, write_field-config,
  set_command_set-config,
}

module _ (masks : Masks) (k : Kernel) (s : State k.Ring) (capability patience : ℕ)
    (c : IsController k s.props capability patience) where
  open k use {
    World, Ring, init_ringbuffer, read_register, write_register, pmm_alloc, clear, to_phys,
  }
  open c use {config}

  abbrev Queues : Type 0
  Queues = QPair Ring

  admin_queues_config :
      (qsize queues : ℕ) (sub comp : Ring) (w : World)
      → config (set_admin_queues masks k s qsize queues sub comp w).1 ≡ config w
  unfolding set_admin_queues write_field
  admin_queues_config qsize queues sub comp w =
      c.write_aqa _ _
      ∙ c.read_keeps aqa _
      ∙ c.write_aqa _ _
      ∙ c.read_keeps aqa _
      ∙ c.write_acq _ _
      ∙ c.write_asq _ w

  made :
      (qsize q : ℕ) (sub comp : Ring) (w : World)
      → set_admin_queues masks k s qsize q sub comp w ≡ (
        (0, record s { adminq = record { subq = sub; cmpq = comp; id = 0; phase = 1 } }),
        (set_admin_queues masks k s qsize q sub comp w).1,
      )
  unfolding set_admin_queues
  made qsize q sub comp w = refl

  with_sub_made :
      (qsize q : ℕ) (sub comp : Ring) (w : World)
      → (init_ringbuffer (q + qsize) 256 16 w).0 ≡ some comp
      → with_sub masks k s qsize q (some sub) w
        ≡ set_admin_queues masks k s qsize q sub comp (init_ringbuffer (q + qsize) 256 16 w).1
  unfolding with_sub
  with_sub_made qsize q sub comp w e = rw (with_sub, e) refl

  create_made :
      (qsize q : ℕ) (sub : Ring) (w : World)
      → let bytes = u64 (qsize * 2) in
        let w2 = clear q bytes (pmm_alloc bytes w).1 in
        (pmm_alloc bytes w).0 ≡ some q
        → (init_ringbuffer q 64 64 w2).0 ≡ some sub
        → create_admin_qpair masks k s qsize w
          ≡ with_sub masks k s qsize q (some sub) (init_ringbuffer q 64 64 w2).1
  unfolding create_admin_qpair
  create_made qsize q sub w e f = rw (create_admin_qpair, e, f) refl

  -- The administration queues are made, and the configuration stays.
  create_admin_qpair-config :
      (w : World)
      → (a : QPair Ring) × (w' : World) × (create_admin_qpair masks k s page_size w
          ≡ ((0, record s { adminq = a }), w'))
        × (config w' ≡ config w)
  unfolding create_admin_qpair with_sub
  create_admin_qpair-config w =
      let bytes = u64 (page_size * 2) in
      let (q, has) = c.memory_given bytes w in
      let w1 = (pmm_alloc bytes w).1 in
      let w2 = clear q bytes w1 in
      let (sub, has_sub) = c.ring_given q 64 64 w2 in
      let w3 = (init_ringbuffer q 64 64 w2).1 in
      let (comp, has_comp) = c.ring_given (q + page_size) 256 16 w3 in
      let w4 = (init_ringbuffer (q + page_size) 256 16 w3).1 in
      let kept =
        admin_queues_config page_size q sub comp w4
        ∙ c.ring_keeps (q + page_size) 256 16 w3
        ∙ c.ring_keeps q 64 64 w2
        ∙ c.clear_keeps q bytes w1
        ∙ c.alloc_keeps bytes w in
      (
        record { subq = sub; cmpq = comp; id = 0; phase = 1 },
        (set_admin_queues masks k s page_size q sub comp w4).1,
        create_made page_size q sub w has has_sub
            ∙ with_sub_made page_size q sub comp w3 has_comp
            ∙ made page_size q sub comp w4,
        kept,
      )

  enabled_config :
      (w : World)
      → let css = capability / 2 ^ 37 % 2 ^ 8 in
        let w1 = (read_register s.props cap w).1 in
        let w2 = set_command_set masks k s.props css w1 in
        let w3 = write_field masks k s.props configuration 0 7 0xf w2 in
        let w4 = write_field masks k s.props configuration 0 11 7 w3 in
        let w5 = write_field masks k s.props configuration 1 0 1 w4 in
        IsReset capability (config w) (config w5)
  enabled_config w =
      let css = capability / 2 ^ 37 % 2 ^ 8 in
      let w1 = (read_register s.props cap w).1 in
      let w2 = set_command_set masks k s.props css w1 in
      let w3 = write_field masks k s.props configuration 0 7 0xf w2 in
      let w4 = write_field masks k s.props configuration 0 11 7 w3 in
      let at1 = c.read_keeps cap w in
      let at2 = set_command_set-config k s.props capability patience masks c css w1 in
      let small1 = c.config_small w1 in
      let small2 = c.config_small w2 in
      let small3 = c.config_small w3 in
      let small4 = c.config_small w4 in
      let at3 =
        write_field-config k s.props capability patience masks c 0 7 4
          (config w2 / 2048 * 2048 + config w2 % 128) w2 (omega arith) (omega arith) in
      let at4 =
        write_field-config k s.props capability patience masks c 0 11 3
          (config w3 / 16384 * 16384 + config w3 % 2048) w3 (omega arith) (omega arith) in
      let at5 =
        write_field-config k s.props capability patience masks c 1 0 1 (config w4 / 2 * 2 + 1) w4
          (omega arith) (omega arith) in
      let css_small = wanted_css_small css (config w1 / 16 % 8) (omega arith) in
      let w5 = write_field masks k s.props configuration 1 0 1 w4 in
      let named : config w5 / 16 % 8 ≡ wanted_css css (config w1 / 16 % 8) = omega arith in
      record {
        enabled = omega arith;
        command_set = named ∙ ap (λ (n : ℕ). wanted_css css (n / 16 % 8)) at1;
        page_bits = omega arith;
        arbitration = omega arith;
        reserved = omega arith;
        above = omega arith;
      }

  capability_css :
      (w : World)
      → u8 (masks.masked_read (read_register s.props cap w).0 37 0xff) ≡ capability / 2 ^ 37 % 2 ^ 8
  capability_css w =
      ap (λ (n : ℕ). u8 (masks.masked_read n 37 0xff)) (c.read_cap w)
      ∙ ap (λ (n : ℕ). u8 n) (masks.read_field capability 37 8)
      ∙ omega arith

  enable_controller-IsReset :
      (fuel : ℕ) (a : QPair Ring) (w : World)
      → patience < fuel
      → (w' : World) × (enable_controller masks k fuel ((0, record s { adminq = a }), w)
          ≡ done ((0, record s { adminq = a }), w'))
        × IsReset capability (config w) (config w')
  unfolding enable_controller
  enable_controller-IsReset fuel a w h =
      let css = capability / 2 ^ 37 % 2 ^ 8 in
      let w1 = (read_register s.props cap w).1 in
      let w2 = set_command_set masks k s.props css w1 in
      let w3 = write_field masks k s.props configuration 0 7 0xf w2 in
      let w4 = write_field masks k s.props configuration 0 11 7 w3 in
      let w5 = write_field masks k s.props configuration 1 0 1 w4 in
      let set = enabled_config w in
      let patient = c.patient w5 in
      let waited =
        wait_ready-config k s.props capability patience masks c fuel 1 w5 set.enabled
          (omega arith) in
      (
        waited.0,
        rw (capability_css w, waited.1) refl,
        subst (λ (n : ℕ). IsReset capability (config w) n) (sym waited.2) set,
      )

  -- The enable bit, which a reset begins by clearing, is none of the others.
  cleared-IsReset :
      (old new : ℕ) → IsReset capability (old / 2 * 2) new → IsReset capability old new
  cleared-IsReset old new r =
      let css = capability / 2 ^ 37 % 2 ^ 8 in
      let same : old / 2 * 2 / 16 % 8 ≡ old / 16 % 8 = omega arith in
      record {
        enabled = r.enabled;
        command_set = r.command_set ∙ ap (λ (n : ℕ). wanted_css css n) same;
        page_bits = r.page_bits;
        arbitration = r.arbitration;
        reserved = let e = r.reserved in omega arith;
        above = let e = r.above in omega arith;
      }

  -- A reset of a controller that answers each time within `patience` reads ends, gives 0 and a
  -- state that differs in its administration queues only, and leaves the controller enabled: its
  -- command set is the one that its capabilities ask for, the fields of the page size and of the
  -- arbitration are 0, and the other bits of its configuration are as they were.
  pub reset_controller-IsReset :
      (fuel : ℕ) (w : World)
      → patience < fuel
      → (a : QPair Ring) × (w' : World) × (reset_controller masks k fuel s w
          ≡ done ((0, record s { adminq = a }), w'))
        × IsReset capability (config w) (config w')
  unfolding reset_controller
  reset_controller-IsReset fuel w h =
      let wd = write_field masks k s.props configuration 0 0 1 w in
      let small = c.config_small w in
      let off =
        write_field-config k s.props capability patience masks c 0 0 1 (config w / 2 * 2) w
          (omega arith) (omega arith) in
      let patient = c.patient wd in
      let waited =
        wait_ready-config k s.props capability patience masks c fuel 0 wd (omega arith)
          (omega arith) in
      let queues = create_admin_qpair-config waited.0 in
      let on = enable_controller-IsReset fuel queues.0 queues.1 h in
      let before : config queues.1 ≡ config w / 2 * 2 = queues.3 ∙ waited.2 ∙ off in
      (
        queues.0,
        on.0,
        rw (waited.1, queues.2, on.1) refl,
        cleared-IsReset (config w) (config on.0)
            (subst (λ (n : ℕ). IsReset capability n (config on.0)) before on.2),
      )
