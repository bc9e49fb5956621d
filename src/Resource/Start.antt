-- ===== src/Resource/Start.antt =====
-- src/c/resource.c: which calls of `init_resource` give a resource, and what that resource is.
use kdrivers.Base.{
  ℕ, ◌+◌, ◌^◌, ◌<◌, ◌≡◌, ◌↔◌, inl, inr, refl, sym, ap, ◌∙◌, Option, none, some, Bool, true, false,
  ◌||◌, leb, u64, sub64, arith, lt→leb_false, Bool-cases,
}
use kdrivers.Resource.{start_driver, start_init, start_definition, init_resource}
use kdrivers.Resource.Table.{Index, at, minus, DriverDef, Drivers, Resource, Kernel}

module _ {World State Args : Type 0} (drivers : Drivers World State Args) where
  open drivers use {
    table, entry_count, group_count, atomic_inc, atomic_inc_value, atomic_inc_counter,
  }

  abbrev pub Init : Type 0
  Init = Option Args → Kernel World → ℕ × Option State × Kernel World

  -- `r` is a resource that the call for `group` and `index` has started from `k`: its driver is
  -- the table's, its `init` returned 0 and left the state, and its id is the counter's old value.
  pub record IsStarted (group index : ℕ) (args : Option Args) (k k' : Kernel World)
      (r : Resource World State Args) : Type 0 where
    pub init : Init
    pub group_known : group < group_count
    pub index_known : index < entry_count group
    pub from_table : table group index ≡ some r.driver
    pub has_init : r.driver.init ≡ some init
    pub returned :
        init args (record k { current_id = u64 (k.current_id + 1) }) ≡ (0, r.driver_state, k')
    pub id_fresh : r.id ≡ k.current_id
    pub same_index : r.dri_index ≡ index
    pub same_group : r.dri_group ≡ group

  start_driver-id : (n : ℕ) → n < 2 ^ 64 → sub64 (atomic_inc n).0 1 ≡ n
  start_driver-id n h = omega (arith, atomic_inc_value n)

  start_driver-Started :
      (memory : Bool) (group index : ℕ) (def : DriverDef World State Args) (init : Init)
      (args : Option Args) (k k' : Kernel World) (r : Resource World State Args)
      → k.current_id < 2 ^ 64
      → start_driver drivers memory group index def init args k ≡ (some r, k')
      → (r.driver ≡ def)
        × (init args (record k { current_id = u64 (k.current_id + 1) }) ≡ (0, r.driver_state, k'))
        × (r.id ≡ k.current_id)
        × (r.dri_index ≡ index)
        × (r.dri_group ≡ group)
  unfolding start_driver
  start_driver-Started false group index def init args k k' r small e = ground arith
  start_driver-Started true group index def init args k k' r small e =
      let same = atomic_inc_counter k.current_id in
      let returned = rw same at e in ground (arith, returned, start_driver-id k.current_id small)

  start_init-Started :
      (memory : Bool) (group index : ℕ) (def : DriverDef World State Args) (init : Option Init)
      (args : Option Args) (k k' : Kernel World) (r : Resource World State Args)
      → k.current_id < 2 ^ 64
      → group < group_count
      → index < entry_count group
      → table group index ≡ some def
      → def.init ≡ init
      → start_init drivers memory group index def init args k ≡ (some r, k')
      → IsStarted group index args k k' r
  unfolding start_init
  start_init-Started memory group index def none args k k' r small hg hi t i e = ground arith
  start_init-Started memory group index def (some init) args k k' r small hg hi t i e =
      let (same_driver, returned, id, same_index, same_group) =
        start_driver-Started memory group index def init args k k' r small e in
      record {
        init = init;
        group_known = hg;
        index_known = hi;
        from_table = t ∙ ap some (sym same_driver);
        has_init = ap (λ (d : DriverDef World State Args). d.init) same_driver ∙ i;
        returned = returned;
        id_fresh = id;
        same_index = same_index;
        same_group = same_group;
      }

  start_definition-Started :
      (memory : Bool) (group index : ℕ) (entry : Option (DriverDef World State Args))
      (args : Option Args) (k k' : Kernel World) (r : Resource World State Args)
      → k.current_id < 2 ^ 64
      → group < group_count
      → index < entry_count group
      → table group index ≡ entry
      → start_definition drivers memory group index entry args k ≡ (some r, k')
      → IsStarted group index args k k' r
  unfolding start_definition
  start_definition-Started memory group index none args k k' r small hg hi t e = ground arith
  start_definition-Started memory group index (some def) args k k' r small hg hi t e =
      start_init-Started memory group index def def.init args k k' r small hg hi t refl e

  pub init_resource-at :
      (memory : Bool) (g i : ℕ) (args : Option Args) (k k' : Kernel World)
      (r : Resource World State Args)
      → k.current_id < 2 ^ 64
      → init_resource drivers memory (at g) (at i) args k ≡ (some r, k')
      → IsStarted g i args k k' r
  unfolding init_resource
  init_resource-at memory g i args k k' r small e =
      elim (Bool-cases (leb group_count g || leb (entry_count g) i)) [
        | inl out ↦ absurd (ground (arith, rw out at e))
        | inr known ↦
            start_definition-Started memory g i (table g i) args k k' r small
              (ground (arith, known)) (ground (arith, known)) refl (rw known at e)
      ]

  -- A call that gives a resource was made for an entry of the table: a known group and index with
  -- a driver that has an `init`, and that `init`, run after the id was taken, returned 0. The
  -- resource is that driver's, with the id, the index and the group of the call.
  pub init_resource-Started :
      (memory : Bool) (group index : Index) (args : Option Args) (k k' : Kernel World)
      (r : Resource World State Args)
      → k.current_id < 2 ^ 64
      → init_resource drivers memory group index args k ≡ (some r, k')
      → (g : ℕ) × (i : ℕ) × (group ≡ at g) × (index ≡ at i) × IsStarted g i args k k' r
  unfolding init_resource
  init_resource-Started memory (at g) (at i) args k k' r small e =
      (g, i, refl, refl, init_resource-at memory g i args k k' r small e)
  init_resource-Started memory (at g) (minus i) args k k' r small e = absurd (ground arith)
  init_resource-Started memory (minus g) index args k k' r small e = absurd (ground arith)

  -- The other direction: with memory for the resource, a call for an entry of the table whose
  -- `init` returns 0 gives the resource, and the world that `init` leaves.
  pub init_resource_starts :
      (g i : ℕ) (def : DriverDef World State Args) (init : Init) (state : Option State)
      (args : Option Args) (k k' : Kernel World)
      → k.current_id < 2 ^ 64
      → g < group_count
      → i < entry_count g
      → table g i ≡ some def
      → def.init ≡ some init
      → init args (record k { current_id = u64 (k.current_id + 1) }) ≡ (0, state, k')
      → init_resource drivers true (at g) (at i) args k ≡ (
        some (record {
          driver = def;
          driver_state = state;
          id = k.current_id;
          dri_index = i;
          dri_group = g;
        }),
        k',
      )
  unfolding init_resource start_definition start_init start_driver
  init_resource_starts g i def init state args k k' small hg hi t has returned =
      rw
        (
          lt→leb_false group_count g hg,
          lt→leb_false (entry_count g) i hi,
          t,
          has,
          atomic_inc_counter k.current_id,
          start_driver-id k.current_id small,
          returned,
        )
        refl

  abbrev given :
      Resource World State Args → Kernel World → Option (Resource World State Args) × Kernel World
  given r k = (some r, k)

  resource_of :
      {g i : ℕ} {args : Option Args} {k k' : Kernel World} {r : Resource World State Args}
      → IsStarted g i args k k' r
      → record {
        driver = r.driver;
        driver_state = r.driver_state;
        id = k.current_id;
        dri_index = i;
        dri_group = g;
      }
        ≡ r
  resource_of {r} h j = record {
    driver = r.driver;
    driver_state = r.driver_state;
    id = sym h.id_fresh j;
    dri_index = sym h.same_index j;
    dri_group = sym h.same_group j;
  }

  -- Where there is memory for it, a call gives a resource exactly when it is made for an entry of
  -- the table, a known group and index with a driver that has an `init`, and that `init`, run
  -- after the id was taken, returns 0. The resource is then that driver's, with the state that
  -- `init` left, and with the id, the index and the group of the call.
  pub init_resource-IsStarted :
      (group index : Index) (args : Option Args) (k k' : Kernel World)
      (r : Resource World State Args)
      → k.current_id < 2 ^ 64
      → (init_resource drivers true group index args k ≡ (some r, k'))
        ↔ ((g : ℕ) × (i : ℕ) × (group ≡ at g) × (index ≡ at i) × IsStarted g i args k k' r)
  init_resource-IsStarted group index args k k' r small = (
    init_resource-Started true group index args k k' r small,
    λ (g, i, same_group, same_index, h).
        let started =
          init_resource_starts g i r.driver h.init r.driver_state args k k' small h.group_known
            h.index_known h.from_table h.has_init h.returned in
        rw (same_group, same_index) started
        ∙ ap (λ (r' : Resource World State Args). given r' k') (resource_of h),
  )
