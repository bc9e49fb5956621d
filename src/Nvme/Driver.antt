-- ===== src/Nvme/Driver.antt =====
-- src/c/sysdev/nvme/nvme.c: `init_nvme`, over the transport's driver and the kernel.
use kdrivers.Base.{
  ℕ, ◌*◌, min, Option, none, some, Bool, true, false, List, [], ◌∷◌, length, ◌==◌, if◌then◌else◌,
  u16, u32, sign_extend, Outcome, done, ◌>>=◌,
}
use kdrivers.Base.Alloc.{neg}
use kdrivers.Base.Masks.{Masks}
use kdrivers.Nvme.{QPair}
use kdrivers.Nvme.Transport.{Transport}
use kdrivers.Nvme.Controller.{
  ControllerIden, NamespaceArgs, nvme_identify_controller, nvme_request_io_queues,
  nvme_create_io_qpairs,
}
use kdrivers.Nvme.Init.{nvme_set_command_sets, nvme_list_namespaces}

-- `nvme_driver_state_t`, without the transport.
pub record State (Ring : Type 0) : Type 0 where
  pub ctrl_iden : ControllerIden
  pub requested : ℕ
  pub granted : ℕ
  pub init : ℕ
  pub qs : List (QPair Ring)

-- What `init_nvme` calls besides the transport's two functions.
pub record Calls (World Ring : Type 0) : Type 0 where
  pub processors : ℕ
  pub alloc_state : World → Bool × World
  pub alloc_qpairs : World → Bool × World
  pub alloc_namespace : World → Bool × World
  -- Whether the transport's control function identifies it, where it has one.
  pub control_iden : Option (World → Bool × World)
  -- The capabilities and the configuration in the memory that the transport's read function is
  -- given, after the control call, where the memory could be allocated.
  pub read_props : World → Option (ℕ × ℕ) × World
  pub base : Ring → ℕ
  pub init_ringbuffer : ℕ → ℕ → ℕ → World → Option Ring × World
  -- Starting the driver of a namespace, which counts the pairs that are in use.
  pub init_namespace : NamespaceArgs → State Ring → World → State Ring × World

module _ (t : Transport) (masks : Masks) {Ring : Type 0} (calls : Calls t.World Ring) where
  open t use {World}
  open calls use {
    processors, alloc_state, alloc_qpairs, alloc_namespace, control_iden, read_props, base,
    init_ringbuffer, init_namespace,
  }

  -- The code, and the resource's state.
  abbrev pub Initialised : Type 0
  Initialised = (ℕ × Option (State Ring)) × World

  unfoldable pub init_namespaces : List NamespaceArgs → State Ring → World → State Ring × World
  init_namespaces [] state w = (state, w)
  init_namespaces (args ∷ rest) state w =
      let (state', w') = init_namespace args state w in init_namespaces rest state' w'

  unfoldable pub create_and_start :
      ControllerIden → List NamespaceArgs → ℕ → ℕ → World → Outcome Initialised
  unfolding init_namespaces
  create_and_start iden namespaces requested granted w =
      let (given, w1) = alloc_qpairs w in
      nvme_create_io_qpairs t base init_ringbuffer given (min requested granted) 0x1000 w1
      >>= λ created.
          let state : State Ring = record {
            ctrl_iden = iden;
            requested = requested;
            granted = granted;
            init = 0;
            qs = created.0.1;
          } in
          let (state', w2) = init_namespaces namespaces state created.1 in
          if created.0.0 == 0 then done ((0, some state'), w2) else done ((neg 7, none), created.1)

  -- From the identification of the controller on; the two loops over namespaces are on fuel.
  unfoldable pub start_controller : ℕ → World → Outcome Initialised
  unfolding create_and_start
  start_controller fuel w = nvme_identify_controller t w >>= λ r.
      let (props, w1) = read_props r.1 in
      nvme_set_command_sets t masks r.0.id props w1 >>= λ sets.
      nvme_list_namespaces t masks alloc_namespace fuel r.0.id (sign_extend (u32 sets.0)) [] sets.1
      >>= λ listed.
          let requested = u16 (u16 (length listed.0) * processors) in
          nvme_request_io_queues t masks requested listed.1 >>= λ granted.
          let rest = create_and_start r.0 listed.0 requested granted.0 granted.1 in
          if granted.0 == 0 then done ((neg 6, none), granted.1) else rest

  unfoldable pub identify_transport :
      ℕ → Option (World → Bool × World) → World → Outcome Initialised
  unfolding start_controller
  identify_transport fuel none w = done ((neg 4, none), w)
  identify_transport fuel (some control) w =
      let (identified, w') = control w in
      let rest = start_controller fuel w' in if identified then rest else done ((neg 5, none), w')

  -- The second argument says whether there is a transport.
  unfoldable pub init_nvme : ℕ → Bool → World → Outcome Initialised
  unfolding identify_transport
  init_nvme fuel false w = done ((neg 1, none), w)
  init_nvme fuel true w =
      let (given, w') = alloc_state w in
      let rest = identify_transport fuel control_iden w' in
      if given then rest else done ((neg 2, none), w')
