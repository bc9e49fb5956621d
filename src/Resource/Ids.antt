-- ===== src/Resource/Ids.antt =====
-- src/c/resource.c: the ids that resources get.
use kdrivers.Base.{
  ℕ, suc, ◌+◌, ◌^◌, ◌≤◌, ◌<◌, ◌≡◌, refl, sym, ap, Option, none, some, Bool, true, false, List, [],
  ◌∷◌, u64, arith,
}
use kdrivers.Resource.{start_driver, start_init, start_definition, init_resource}
use kdrivers.Resource.Table.{Index, at, minus, DriverDef, Drivers, Resource, Kernel}
use kdrivers.Resource.Start.{Init, init_resource-Started}

abbrev pub Ascending : ℕ → List ℕ → Type 0
Ascending n [] = Unit
Ascending n (i ∷ is) = (n ≤ i) × Ascending (suc i) is

Ascending-weaken : (n m : ℕ) (is : List ℕ) → n ≤ m → Ascending m is → Ascending n is
Ascending-weaken n m [] h a = tt
Ascending-weaken n m (i ∷ is) h a = (omega (arith, a.0), a.1)

-- `most` is how many ids a driver's start takes itself, at most.
module _ {World State Args : Type 0} (drivers : Drivers World State Args) (most : ℕ) where
  open drivers use {
    table, entry_count, group_count, atomic_inc, atomic_inc_value, atomic_inc_counter,
  }

  -- Where the counter is `most` or more from its end, a driver's `init` does not take it back: what
  -- it starts itself takes later ids.
  abbrev pub KeepsIds : Type 0
  KeepsIds =
      (group index : ℕ) (def : DriverDef World State Args) (init : Init drivers)
      (args : Option Args) (k : Kernel World)
      → table group index ≡ some def
      → def.init ≡ some init
      → k.current_id + most < 2 ^ 64
      → k.current_id ≤ (init args k).2.current_id

  -- Calls of `init_resource` one after the other, with the ids of the resources that they give;
  -- at each the counter is far enough from its end for the id and what the driver takes.
  pub data Calls : Kernel World → List ℕ → Kernel World → Type 0 where
    stop : (k : Kernel World) → Calls k [] k
    started :
        {k k' k'' : Kernel World} {ids : List ℕ} (memory : Bool) (group index : Index)
        (args : Option Args) (r : Resource World State Args) (id : ℕ)
        → k.current_id + 1 + most < 2 ^ 64
        → init_resource drivers memory group index args k ≡ (some r, k')
        → id ≡ r.id
        → Calls k' ids k''
        → Calls k (id ∷ ids) k''
    refused :
        {k k' k'' : Kernel World} {ids : List ℕ} (memory : Bool) (group index : Index)
        (args : Option Args)
        → k.current_id + 1 + most < 2 ^ 64
        → init_resource drivers memory group index args k ≡ (none, k')
        → Calls k' ids k''
        → Calls k ids k''

  started-counter :
      (memory : Bool) (group index : Index) (args : Option Args) (k k' : Kernel World)
      (r : Resource World State Args)
      → KeepsIds
      → k.current_id + 1 + most < 2 ^ 64
      → init_resource drivers memory group index args k ≡ (some r, k')
      → (r.id ≡ k.current_id) × (suc r.id ≤ k'.current_id)
  started-counter memory group index args k k' r keeps small e =
      let (g, i, _, _, s) =
        init_resource-Started drivers memory group index args k k' r (omega arith) e in
      let left =
        keeps g i r.driver s.init args (record k { current_id = u64 (k.current_id + 1) })
          s.from_table s.has_init (omega arith) in
      let after : k'.current_id
          ≡ (s.init args (record k { current_id = u64 (k.current_id + 1) })).2.current_id =
        ap (λ (t : ℕ × Option State × Kernel World). t.2.current_id) (sym s.returned) in
      (s.id_fresh, omega (arith, s.id_fresh))

  start_driver-counter :
      (memory : Bool) (group index : ℕ) (def : DriverDef World State Args) (init : Init drivers)
      (args : Option Args) (k : Kernel World)
      → k.current_id + 1 + most < 2 ^ 64
      → ((k : Kernel World)
          → k.current_id + most < 2 ^ 64
          → k.current_id ≤ (init args k).2.current_id)
      → k.current_id ≤ (start_driver drivers memory group index def init args k).1.current_id
  unfolding start_driver
  start_driver-counter false group index def init args k small keeps = omega arith
  start_driver-counter true group index def init args k small keeps =
      let k1 : Kernel World = record k { current_id = (atomic_inc k.current_id).1 } in
      ground (arith, atomic_inc_counter k.current_id, keeps k1)

  start_init-counter :
      (memory : Bool) (group index : ℕ) (def : DriverDef World State Args)
      (init : Option (Init drivers)) (args : Option Args) (k : Kernel World)
      → k.current_id + 1 + most < 2 ^ 64
      → ((i : Init drivers)
          → init ≡ some i
          → (k : Kernel World) → k.current_id + most < 2 ^ 64
          → k.current_id ≤ (i args k).2.current_id)
      → k.current_id ≤ (start_init drivers memory group index def init args k).1.current_id
  unfolding start_init
  start_init-counter memory group index def none args k small keeps = omega arith
  start_init-counter memory group index def (some init) args k small keeps =
      start_driver-counter memory group index def init args k small (keeps init refl)

  start_definition-counter :
      (memory : Bool) (group index : ℕ) (entry : Option (DriverDef World State Args))
      (args : Option Args) (k : Kernel World)
      → KeepsIds
      → k.current_id + 1 + most < 2 ^ 64
      → table group index ≡ entry
      → k.current_id ≤ (start_definition drivers memory group index entry args k).1.current_id
  unfolding start_definition
  start_definition-counter memory group index none args k keeps small t = omega arith
  start_definition-counter memory group index (some def) args k keeps small t =
      start_init-counter memory group index def def.init args k small
        (λ i e k. keeps group index def i args k t e)

  init_resource-counter :
      (memory : Bool) (group index : Index) (args : Option Args) (k : Kernel World)
      → KeepsIds
      → k.current_id + 1 + most < 2 ^ 64
      → k.current_id ≤ (init_resource drivers memory group index args k).1.current_id
  unfolding init_resource
  init_resource-counter memory (at g) (at i) args k keeps small =
      ground (arith, start_definition-counter memory g i (table g i) args k keeps small refl)
  init_resource-counter memory (at g) (minus i) args k keeps small = omega arith
  init_resource-counter memory (minus g) index args k keeps small = omega arith

  -- The resources that are started one after the other get ascending ids, so that no two get the
  -- same. A driver's start may itself take up to `most` ids, but does not take the counter back, and
  -- at each call the counter is more than `most` from its end.
  pub Calls-Ascending :
      {k k' : Kernel World} {ids : List ℕ} → KeepsIds → Calls k ids k' → Ascending k.current_id ids
  Calls-Ascending keeps (stop k) = tt
  Calls-Ascending keeps
        (started {k} {k'} {ids = ids} memory group index args r id small e same rest) =
      let (fresh, later) = started-counter memory group index args k k' r keeps small e in
      (
        omega arith,
        Ascending-weaken (suc id) k'.current_id ids (omega arith) (Calls-Ascending keeps rest),
      )
  Calls-Ascending keeps (refused {k} {k'} {ids = ids} memory group index args small e rest) =
      Ascending-weaken k.current_id k'.current_id ids
        (rw (ap (λ (t : Option (Resource World State Args) × Kernel World). t.1.current_id) e) at
          (init_resource-counter memory group index args k keeps small))
        (Calls-Ascending keeps rest)
