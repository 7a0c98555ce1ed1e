-- ===== src/Ecs/ManagedPool/Refine.antt =====
-- Managed.cpp, `ManagedPool`: the map from ids to objects, and what each operation does to it.
use oyi_engine.Prelude.{
  ℕ, zero, suc, ◌+◌, ◌%◌, ◌<◌, ◌≡◌, ◌≢◌, inl, inr, refl, sym, ap, subst, ◌∙◌, Bool, true, false,
  ◌&&◌, Option, none, some, List, [], ◌∷◌, ◌++◌, ◌==◌, if◌then◌else◌, leb, ltb, length, get_elem?,
  get_elem?-set, get_elem?-lt, get_elem?-push, set, count, arith, Option-cases, Bool-cases,
  List-cases, length-set,
}
use oyi_engine.Core.Handle
use oyi_engine.Core.Handle.{Handle}
use oyi_engine.Ecs.EntityRegistry.{word, next_generation}
use oyi_engine.Ecs.ManagedPool.{
  Object, Slot, Pool, new_slot, bound, adopt_at, adopt, release, resolve, destroy, collect_slot,
  collect_from, collect_dead,
}

-- A slot without an object.
abbrev pub vacant : Option Slot → Bool
vacant none = false
vacant (some slot) = elim slot.object [ none ↦ true | some o ↦ false ]

-- The free indices are those of the vacant slots, each once, and no generation is zero.
pub record IsValid (p : Pool) : Type 0 where
  pub free : (i : ℕ) → count i p.free_indices ≡ (if vacant (get_elem? p.slots i) then 1 else 0)
  pub generations : (i : ℕ) (slot : Slot) → get_elem? p.slots i ≡ some slot → slot.generation ≢ 0

next_generation_pos : (g : ℕ) → next_generation g ≢ 0
unfolding next_generation
next_generation_pos g = ground arith

-- What `adopt` promises of its result.
abbrev Adopted : Pool → Object → Handle → Option (Handle × Pool) → Type 0
Adopted p object owner r =
    (id : Handle) × (q : Pool) × (r ≡ some (id, q))
    × IsValid q
    × (resolve p id ≡ none)
    × ((f : Handle)
        → resolve q f ≡ (if Handle.equal id f then some (bound object owner id) else resolve p f))

-- A pool whose slot at `index` is about to take an object.
module _ (p : Pool) (index : ℕ) (slot : Slot) (found : get_elem? p.slots index ≡ some slot)
    (empty_slot : slot.object ≡ none)
    (free : (i : ℕ)
      → count i p.free_indices
        ≡ (if i == index then 0 else if vacant (get_elem? p.slots i) then 1 else 0))
    (generations : (i : ℕ) (s : Slot) → get_elem? p.slots i ≡ some s → s.generation ≢ 0)
    (object : Object) (owner : Handle) where
  abbrev id : Handle
  id = record { index = index; generation = slot.generation }

  abbrev filled : Slot
  filled = record slot { object = some (bound object owner id) }

  abbrev after : Pool
  after = record p { slots = set p.slots index filled; live_count = (p.live_count + 1) % word }

  read :
      (j : ℕ) → get_elem? after.slots j ≡ (if index == j then some filled else get_elem? p.slots j)
  read j = get_elem?-set p.slots index j filled (get_elem?-lt p.slots index found)

  after-IsValid : IsValid after
  after-IsValid = record {
    free = λ i. ground (arith, free i, read i);
    generations = λ i s e. ground (arith, read i, generations i s, generations index slot found);
  }

  after-resolve :
      (f : Handle)
      → resolve after f ≡ (if Handle.equal id f then some (bound object owner id) else resolve p f)
  unfolding resolve
  after-resolve f = ground (arith, read f.index, generations index slot found)

  before-resolve : resolve p id ≡ none
  unfolding resolve
  before-resolve = rw (found, resolve) (ground arith)

  adopt_at-Adopted : Adopted p object owner (adopt_at p index object owner (some slot))
  unfolding adopt_at
  adopt_at-Adopted = (id, after, refl, after-IsValid, before-resolve, after-resolve)

resolve-push :
    (p : Pool) (free : List ℕ) (live : ℕ) (f : Handle)
    → resolve
        (record { slots = p.slots ++ new_slot ∷ []; free_indices = free; live_count = live })
        f
      ≡ resolve p f
unfolding resolve
resolve-push p free live f = elim (Option-cases (get_elem? p.slots f.index)) [
  | inl e ↦ ground (arith, get_elem?-push p.slots new_slot f.index)
  | inr (s, e) ↦
      ground (arith, get_elem?-push p.slots new_slot f.index, get_elem?-lt p.slots f.index e)
]

vacant_slot :
    (o : Option Slot) → vacant o ≡ true → (slot : Slot) × (o ≡ some slot) × (slot.object ≡ none)
vacant_slot none h = cc
vacant_slot (some slot) h = elim (Option-cases slot.object) [
  | inl e ↦ (slot, refl, e)
  | inr (o, e) ↦ ground arith
]

adopt-recycled :
    (p : Pool) (object : Object) (owner : Handle) (index : ℕ) (rest : List ℕ)
    → p.free_indices ≡ index ∷ rest
    → adopt p object owner
      ≡ adopt_at (record p { free_indices = rest }) index object owner (get_elem? p.slots index)
unfolding adopt
adopt-recycled p object owner index rest e = rw (e, adopt) refl

adopt-grown :
    (p : Pool) (object : Object) (owner : Handle)
    → p.free_indices ≡ []
    → length p.slots < word
    → adopt p object owner
      ≡ adopt_at
          (record p { slots = p.slots ++ new_slot ∷ [] })
          (length p.slots)
          object
          owner
          (some new_slot)
unfolding adopt
adopt-grown p object owner e small =
    let at : length p.slots % word ≡ length p.slots = omega arith in
    let found : get_elem? (p.slots ++ new_slot ∷ []) (length p.slots) ≡ some new_slot =
      ground (arith, get_elem?-push p.slots new_slot (length p.slots)) in
    ground (arith, at, ap (get_elem? (p.slots ++ new_slot ∷ [])) at, found)

-- `Adopt` in a pool with room for an index hands out an id that resolved to nothing. From then on the
-- id resolves to the object, bound to its owner and its id; every other id, stale ones included,
-- resolves as before; and the invariant of the free list holds again.
pub resolve-adopt :
    (p : Pool) (object : Object) (owner : Handle)
    → IsValid p
    → length p.slots < word
    → Adopted p object owner (adopt p object owner)
unfolding resolve
resolve-adopt p object owner v small = elim (List-cases p.free_indices) [
  | inr (index, rest, e) ↦
      let (slot, found, hole) =
        vacant_slot (get_elem? p.slots index) (ground (arith, v.free index, ap (count index) e)) in
      subst (Adopted p object owner)
        (sym (
          adopt-recycled p object owner index rest e
          ∙ ap (adopt_at (record p { free_indices = rest }) index object owner) found))
        (adopt_at-Adopted (record p { free_indices = rest }) index slot found hole
          (λ i. ground (arith, v.free i, ap (count i) e)) v.generations object owner)
  | inl e ↦
      let grown = record p { slots = p.slots ++ new_slot ∷ [] } in
      let read = λ (i : ℕ). get_elem?-push p.slots new_slot i in
      let (id, q, run, valid, fresh, others) =
        adopt_at-Adopted grown (length p.slots) new_slot (ground (arith, read (length p.slots)))
          refl (λ i. ground (arith, v.free i, read i, ap (count i) e))
          (λ i s h. ground (arith, read i, v.generations i s)) object owner in
      let same = resolve-push p p.free_indices p.live_count in
      (
        id,
        q,
        adopt-grown p object owner e small ∙ run,
        valid,
        sym (same id) ∙ fresh,
        λ f. ground (arith, others f, same f),
      )
]

-- `Release` of a slot that holds an object.
module _ (p : Pool) (v : IsValid p) (index : ℕ) (slot : Slot) (o : Object)
    (found : get_elem? p.slots index ≡ some slot) (full : slot.object ≡ some o) where
  release-read :
      (j : ℕ)
      → get_elem? (release p index slot).slots j ≡ (
          if index == j
          then some (record { object = none; generation = next_generation slot.generation })
          else get_elem? p.slots j)
  unfolding release
  release-read j = get_elem?-set p.slots index j _ (get_elem?-lt p.slots index found)

  release-IsValid : IsValid (release p index slot)
  unfolding release
  release-IsValid = record {
    free = λ i. ground (arith, v.free i, release-read i, found, full);
    generations = λ i s e.
        ground (arith, release-read i, v.generations i s, next_generation_pos slot.generation);
  }

  -- The ids of the slot resolve to nothing, every other id as before.
  release-resolve :
      (f : Handle)
      → resolve (release p index slot) f ≡ (if index == f.index then none else resolve p f)
  unfolding resolve
  release-resolve f = ground (arith, release-read f.index)

length-release : (p : Pool) (i : ℕ) (slot : Slot) → length (release p i slot).slots ≡ length p.slots
unfolding release
length-release p i slot = length-set p.slots i _

resolve-slot :
    (p : Pool) (id : Handle) (o : Object)
    → resolve p id ≡ some o
    → (slot : Slot) × (get_elem? p.slots id.index ≡ some slot)
      × (slot.object ≡ some o)
      × (slot.generation ≡ id.generation)
unfolding resolve
resolve-slot p id o h = elim (Option-cases (get_elem? p.slots id.index)) [
  | inl e ↦ ground arith
  | inr (slot, e) ↦ (slot, e, ground arith, ground arith)
]

resolve-stale :
    (p : Pool) (id f : Handle) (slot : Slot)
    → get_elem? p.slots id.index ≡ some slot
    → slot.generation ≡ id.generation
    → (id.index == f.index) ≡ true
    → Handle.equal id f ≡ false
    → resolve p f ≡ none
unfolding resolve
resolve-stale p id f slot found e h k =
    let at : get_elem? p.slots f.index ≡ some slot = ground (arith, ap (get_elem? p.slots)) in
    rw (at, resolve) (ground arith)

-- After `Destroy` the id resolves to nothing, and every other id resolves as before; an id that
-- resolves to nothing already is left alone.
pub resolve-destroy :
    (p : Pool) (id : Handle)
    → IsValid p
    → IsValid (destroy p id)
      × ((f : Handle)
          → resolve (destroy p id) f ≡ (if Handle.equal id f then none else resolve p f))
unfolding destroy
resolve-destroy p id v = elim (Option-cases (resolve p id)) [
  | inl e ↦
      let same : destroy p id ≡ p = rw (e, destroy) refl in
      (
        subst IsValid (sym same) v,
        λ f. ground (arith, ap (λ q. resolve q f) same, Handle.equal→eq id f, ap (resolve p)),
      )
  | inr (o, e) ↦
      let (slot, found, full, generation) = resolve-slot p id o e in
      let same : destroy p id ≡ release p id.index slot = rw (e, destroy) (rw found refl) in
      (
        subst IsValid (sym same) (release-IsValid p v id.index slot o found full),
        λ f. ground (
          arith,
          ap (λ q. resolve q f) same,
          release-resolve p v id.index slot o found full f,
          resolve-stale p id f slot found generation,
        ),
      )
]

-- What is left of an object when the dead are collected.
abbrev pub kept : (Handle → Bool) → Option Object → Option Object
kept alive none = none
kept alive (some o) = if alive o.owner then some o else none

module _ (alive : Handle → Bool) where
  -- What one round promises.
  abbrev Collected : Pool → ℕ → Pool → Type 0
  Collected p i q =
      IsValid q
      × ((f : Handle)
          → resolve q f ≡ (if i == f.index then kept alive (resolve p f) else resolve p f))
      × (length q.slots ≡ length p.slots)

  collect_slot_lem :
      (p : Pool) (i : ℕ)
      → IsValid p
      → Collected p i (collect_slot alive p i (get_elem? p.slots i)).0
  unfolding collect_slot resolve
  collect_slot_lem p i v = elim (Option-cases (get_elem? p.slots i)) [
    | inl e ↦ rw (e, collect_slot) (v, λ f. ground (arith, ap (get_elem? p.slots)), refl)
    | inr (slot, e) ↦ elim (Option-cases slot.object) [
      | inl empty_slot ↦ rw (e, empty_slot, collect_slot) (v, λ f. ground arith, refl)
      | inr (o, full) ↦ elim (Bool-cases (alive o.owner)) [
        | inl living ↦ rw (e, full, living, collect_slot) (v, λ f. ground arith, refl)
        | inr dead ↦
            rw (e, full, dead, collect_slot)
              (
                release-IsValid p v i slot o e full,
                λ f. ground (arith, release-resolve p v i slot o e full f),
                length-release p i slot,
              )
      ]
    ]
  ]

  collect_from_lem :
      (n i : ℕ) (p : Pool)
      → IsValid p
      → IsValid (collect_from alive i n p).0
        × ((f : Handle)
            → resolve (collect_from alive i n p).0 f ≡ (
                if leb i f.index && ltb f.index (i + n)
                then kept alive (resolve p f)
                else resolve p f))
  unfolding collect_from
  collect_from_lem zero i p v = (v, λ f. ground arith)
  collect_from_lem (suc n) i p v =
      let q = (collect_slot alive p i (get_elem? p.slots i)).0 in
      let (valid, now, same) = collect_slot_lem p i v in
      let (done, later) = collect_from_lem n (suc i) q valid in
      (done, λ f. ground (arith, now f, later f))

  -- `CollectDead` releases exactly the objects whose owner is dead: an id resolves to what it did
  -- before if the owner of that is alive, and to nothing otherwise.
  pub resolve-collect_dead :
      (p : Pool)
      → IsValid p
      → IsValid (collect_dead alive p).0
        × ((f : Handle) → resolve (collect_dead alive p).0 f ≡ kept alive (resolve p f))
  unfolding collect_dead resolve
  resolve-collect_dead p v =
      let (valid, all) = collect_from_lem (length p.slots) 0 p v in
      (
        valid,
        λ f. elim (Option-cases (get_elem? p.slots f.index)) [
          | inl e ↦ ground (arith, all f)
          | inr (slot, e) ↦ ground (arith, all f, get_elem?-lt p.slots f.index e)
        ],
      )
