-- ===== src/Ecs/EntityRegistry/Frame.antt =====
-- EntityRegistry.cpp as a partial map from handles to locations: what each operation does to every
-- handle, the one it names and all others.
use oyi_engine.Prelude.{
  ℕ, ◌+◌, ◌≡◌, refl, ap, true, false, none, some, if◌then◌else◌, Bool-cases, inl, inr, to_nat, set,
  All-get, All-set, length-set, get_elem?-set, get_elem?-lt, arith,
}
use oyi_engine.Core.Handle
use oyi_engine.Core.Handle.{Handle, equal→eq}
use oyi_engine.Ecs.EntityRegistry.{
  Location, Slot, Registry, nowhere, revive, create, is_alive, buried, buried_slot, destroy,
  get_location, set_location,
}
use oyi_engine.Ecs.EntityRegistry.Invariant.{
  IsValid, IsGeneration, HasRoom, Revives, create-Revives, revive-IsValid, Live, is_alive-Live,
  destroy-Live, buried-IsValid, alive_slots-set, alive_slots-le,
}

revive-get_location :
    {r s t : Registry} {i : ℕ} {slot : Slot} {e : Handle} (f : Handle)
    → Revives r i slot s
    → revive s i (some slot) ≡ some (e, t)
    → (get_location t f ≡ (if Handle.equal e f then some nowhere else get_location r f))
unfolding revive get_location
revive-get_location {r} {s} {t} {i} {slot} {e} f v h = ground (
  arith,
  v.found,
  v.dead,
  v.same_live f.index,
  All-get IsGeneration s.slots i v.generations v.found,
  get_elem?-set s.slots i f.index (record slot { alive = true; location = nowhere })
      (get_elem?-lt s.slots i v.found),
)

alive_count-revive :
    {r s t : Registry} {i : ℕ} {slot : Slot} {e : Handle}
    → Revives r i slot s
    → revive s i (some slot) ≡ some (e, t)
    → t.alive_count ≡ r.alive_count + 1
unfolding revive
alive_count-revive {s = s} {i = i} {slot = slot} v h = ground (
  arith,
  v.same_count,
  v.counted,
  v.dead,
  alive_slots-set s.slots i new v.found,
  alive_slots-le (set s.slots i new),
  length-set s.slots i new,
  v.size,
)
  where
    new : Slot
    new = record slot { alive = true; location = nowhere }

revive-fresh :
    {r s t : Registry} {i : ℕ} {slot : Slot} {e : Handle}
    → Revives r i slot s
    → revive s i (some slot) ≡ some (e, t)
    → (is_alive r e ≡ false) × (is_alive t e ≡ true)
unfolding revive is_alive
revive-fresh {r} {s} {t} {i} {slot} {e} v h =
    let self =
      get_elem?-set s.slots i i (record slot { alive = true; location = nowhere })
        (get_elem?-lt s.slots i v.found) in
    let word_size = All-get IsGeneration s.slots i v.generations v.found in
    (ground (arith, v.found, v.dead, v.same_live i), ground (arith, self, word_size))

-- `Create` on a valid registry with room returns a handle that was dead, and makes it the one new
-- entry of the map from live handles to locations: it is nowhere yet, every other handle resolves
-- as before, and one more entity is alive. The registry stays valid.
pub create_refines :
    (r : Registry)
    → IsValid r
    → HasRoom r
    → (e : Handle) × (t : Registry) × (create r ≡ some (e, t))
      × IsValid t
      × (is_alive r e ≡ false)
      × (is_alive t e ≡ true)
      × (t.alive_count ≡ r.alive_count + 1)
      × ((f : Handle)
          → get_location t f ≡ (if Handle.equal e f then some nowhere else get_location r f))
unfolding revive
create_refines r v room =
    let (i, slot, s, rev) = create-Revives r v room in
    let (was_dead, now_alive) = revive-fresh rev refl in
    (
      _,
      _,
      rev.made,
      revive-IsValid rev refl,
      was_dead,
      now_alive,
      alive_count-revive rev refl,
      λ f. revive-get_location f rev refl,
    )

buried-get_location :
    {r : Registry} {e : Handle} {slot : Slot} (f : Handle)
    → IsValid r
    → Live r e slot
    → get_location (buried r e.index slot) f ≡ (if Handle.equal e f then none else get_location r f)
unfolding get_location
buried-get_location {r} {e} {slot} f v l = ground (
  arith,
  l.found,
  l.alive,
  l.generation,
  get_elem?-set r.slots e.index f.index (buried_slot slot) (get_elem?-lt r.slots e.index l.found),
)

-- `Destroy` of a live entity removes exactly its entry: the handle stops resolving, every other
-- handle resolves as before, one entity fewer is alive, and the registry stays valid.
pub destroy_refines :
    (r : Registry) (e : Handle)
    → IsValid r
    → is_alive r e ≡ true
    → (t : Registry) × (destroy r e ≡ some t)
      × IsValid t
      × (is_alive t e ≡ false)
      × (t.alive_count + 1 ≡ r.alive_count)
      × ((f : Handle) → get_location t f ≡ (if Handle.equal e f then none else get_location r f))
unfolding is_alive
destroy_refines r e v alive =
    let (slot, l) = is_alive-Live r e alive in
    (
      buried r e.index slot,
      destroy-Live l,
      buried-IsValid v l,
      ground (
        arith,
        get_elem?-set r.slots e.index e.index (buried_slot slot)
            (get_elem?-lt r.slots e.index l.found),
      ),
      omega (
        arith,
        v.counted,
        alive_slots-set r.slots e.index (buried_slot slot) l.found,
        ap to_nat l.alive,
        alive_slots-le r.slots,
        v.size,
      ),
      λ f. buried-get_location f v l,
    )

-- `SetLocation` of a live entity moves that entity alone, and the registry stays valid.
pub set_location_refines :
    (r : Registry) (e : Handle) (where' : Location)
    → IsValid r
    → is_alive r e ≡ true
    → (t : Registry) × (set_location r e where' ≡ some t)
      × IsValid t
      × ((f : Handle) → is_alive t f ≡ is_alive r f)
      × ((f : Handle)
          → get_location t f ≡ (if Handle.equal e f then some where' else get_location r f))
unfolding set_location is_alive get_location
set_location_refines r e where' v alive =
    let (slot, l) = is_alive-Live r e alive in
    let new : Slot = record slot { location = where' } in
    let read =
      λ (j : ℕ). get_elem?-set r.slots e.index j new (get_elem?-lt r.slots e.index l.found) in
    (
      record r { slots = set r.slots e.index new },
      ground (arith, l.found),
      record {
        size = omega (arith, length-set r.slots e.index new, v.size);
        generations =
            All-set IsGeneration r.slots e.index new
              (All-get IsGeneration r.slots e.index v.generations l.found) v.generations;
        free_exact = λ j. ground (arith, v.free_exact j, l.found, read j);
        counted = omega (arith, v.counted, alive_slots-set r.slots e.index new l.found);
      },
      λ f. ground (arith, l.found, read f.index),
      λ f. ground (arith, l.found, l.alive, read f.index),
    )

-- An entity has a location exactly if it is alive.
pub alive-get_location :
    (r : Registry) (e : Handle)
    → is_alive r e ≡ true
    → (at : Location) × (get_location r e ≡ some at)
unfolding is_alive get_location
alive-get_location r e alive =
    let (slot, l) = is_alive-Live r e alive in (slot.location, ground (arith, alive, l.found))

pub get_location-alive :
    (r : Registry) (e : Handle) {at : Location} → get_location r e ≡ some at → is_alive r e ≡ true
unfolding get_location
get_location-alive r e h = elim (Bool-cases (is_alive r e)) [
  | inl alive ↦ alive
  | inr dead ↦ absurd (ground (arith, dead, h))
]

pub alive-is_valid : (r : Registry) (e : Handle) → is_alive r e ≡ true → Handle.is_valid e ≡ true
unfolding is_alive
alive-is_valid r e alive = ground (arith, alive)

pub dead-get_location : (r : Registry) (e : Handle) → is_alive r e ≡ false → get_location r e ≡ none
unfolding get_location
dead-get_location r e dead = ground (arith, dead)
