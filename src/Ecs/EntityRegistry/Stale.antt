-- ===== src/Ecs/EntityRegistry/Stale.antt =====
-- EntityRegistry.cpp: a handle to a destroyed entity never resolves again, whatever is created and
-- destroyed after it, until the 32-bit generation of its slot has run round.
use oyi_engine.Prelude.{
  ℕ, ◌+◌, ◌%◌, ◌<◌, ◌≤◌, ◌≡◌, refl, inl, inr, true, false, Option, none, some, some-injective, List,
  [], ◌∷◌, ◌++◌, subst, if◌then◌else◌, ◌==◌, length, get_elem?, set, get_elem?-set,
  get_elem?-set_self, get_elem?-lt, get_elem?-push, Option-cases, Bool-cases, ==_iff, arith,
}
use oyi_engine.Core.Handle.{Handle}
use oyi_engine.Ecs.EntityRegistry.{
  Location, Slot, Registry, word, nowhere, new_slot, revive, create, is_alive, buried_slot, destroy,
  next_generation, set_location,
}
use oyi_engine.Ecs.EntityRegistry.Invariant.{destroy-inv}

-- One call on a registry that changes which handles resolve.
pub data Op : Type 0 where
  creates : Op
  destroys : Handle → Op
  locates : Handle → Location → Op

unfoldable pub forget : Option (Handle × Registry) → Option Registry
forget none = none
forget (some (e, r)) = some r

unfoldable pub step : Registry → Op → Option Registry
unfolding forget
step r creates = forget (create r)
step r (destroys e) = destroy r e
step r (locates e location) = set_location r e location

unfoldable pub run : Registry → List Op → Option Registry
run r [] = some r
run r (op ∷ ops) = elim (step r op) [ none ↦ none | some s ↦ run s ops ]

-- The slot at `i` exists and its generation lies between `lo` and `hi`.
record Aged (lo hi i : ℕ) (ss : List Slot) : Type 0 where
  slot : Slot
  found : get_elem? ss i ≡ some slot
  low : lo ≤ slot.generation
  high : slot.generation ≤ hi

set-Aged :
    {lo hi i : ℕ} (ss : List Slot) (k : ℕ) {old : Slot} (new : Slot) (hi' : ℕ)
    → Aged lo hi i ss
    → get_elem? ss k ≡ some old
    → (k ≡ i → (old.generation ≤ new.generation) × (new.generation ≤ old.generation + 1))
    → hi + 1 ≤ hi'
    → Aged lo hi' i (set ss k new)
set-Aged {lo} {hi} {i} ss k {old} new hi' a e grows room = elim (Bool-cases (k == i)) [
  | inl same ↦ record {
    slot = new;
    found = rw (read, same) refl;
    low = omega (arith, a.low, generation same, grows ((==_iff k i).0 same));
    high = omega (arith, a.high, generation same, grows ((==_iff k i).0 same));
  }
  | inr other ↦ record {
    slot = a.slot;
    found = rw (read, other) a.found;
    low = a.low;
    high = omega (arith, a.high);
  }
]
  where
    read : get_elem? (set ss k new) i ≡ (if k == i then some new else get_elem? ss i)
    read = get_elem?-set ss k i new (get_elem?-lt ss k e)

    generation : (k == i) ≡ true → a.slot.generation ≡ old.generation
    generation same = ground (arith, same, e, a.found)

push-Aged : {lo hi i : ℕ} (ss : List Slot) → Aged lo hi i ss → Aged lo hi i (ss ++ new_slot ∷ [])
push-Aged {i = i} ss a = record {
  slot = a.slot;
  found = ground (arith, get_elem?-push ss new_slot i, get_elem?-lt ss i a.found, a.found);
  low = a.low;
  high = a.high;
}

revive-Aged :
    {lo hi i : ℕ} (r : Registry) (k : ℕ) {s : Registry}
    → Aged lo hi i r.slots
    → forget (revive r k (get_elem? r.slots k)) ≡ some s
    → Aged lo (hi + 1) i s.slots
unfolding revive forget
revive-Aged {lo} {hi} {i} r k {s} a h = elim (Option-cases (get_elem? r.slots k)) [
  | inl missing ↦ absurd (ground (arith, missing))
  | inr (old, found) ↦
      rw (stored old found) (set-Aged r.slots k _ (hi + 1) a found (λ _. omega arith) (omega arith))
]
  where
    stored :
        (old : Slot)
        → get_elem? r.slots k ≡ some old
        → s.slots ≡ set r.slots k (record old { alive = true; location = nowhere })
    stored old found = ground (arith, found, h)

create-Aged :
    {lo hi i : ℕ} (r : Registry) {s : Registry}
    → Aged lo hi i r.slots
    → forget (create r) ≡ some s
    → Aged lo (hi + 1) i s.slots
unfolding create forget
create-Aged {lo} {hi} {i} r {s} a h = go r.free_indices refl
  where
    go : (free : List ℕ) → r.free_indices ≡ free → Aged lo (hi + 1) i s.slots
    go [] e =
        revive-Aged (record r { slots = r.slots ++ new_slot ∷ [] }) (length r.slots % word) {s = s}
          (push-Aged r.slots a) (ground (arith, e, h))
    go (k ∷ rest) e =
        revive-Aged (record r { free_indices = rest }) k {s = s} a (ground (arith, e, h))

destroy-Aged :
    {lo hi i : ℕ} (r : Registry) (e : Handle) {s : Registry}
    → Aged lo hi i r.slots
    → hi + 1 < word
    → destroy r e ≡ some s
    → Aged lo (hi + 1) i s.slots
unfolding next_generation
destroy-Aged {lo} {hi} {i} r e {s} a room h =
    let (old, l, same) = destroy-inv r e h in
    subst (λ (t : Registry). Aged lo (hi + 1) i t.slots) same
      (set-Aged r.slots e.index (buried_slot old) (hi + 1) a l.found
        (λ k.
          let bound : old.generation ≤ hi = ground (arith, k, l.found, a.found, a.high) in
          ground arith)
        (omega arith))

locate-Aged :
    {lo hi i : ℕ} (r : Registry) (e : Handle) (location : Location) {s : Registry}
    → Aged lo hi i r.slots
    → set_location r e location ≡ some s
    → Aged lo (hi + 1) i s.slots
unfolding set_location
locate-Aged {lo} {hi} {i} r e location {s} a h = elim (Option-cases (get_elem? r.slots e.index)) [
  | inl missing ↦ absurd (ground (arith, missing))
  | inr (old, found) ↦
      rw (stored old found)
        (set-Aged r.slots e.index _ (hi + 1) a found (λ _. omega arith) (omega arith))
]
  where
    stored :
        (old : Slot)
        → get_elem? r.slots e.index ≡ some old
        → s.slots ≡ set r.slots e.index (record old { location = location })
    stored old found = ground (arith, found, h)

step-Aged :
    {lo hi i : ℕ} (r : Registry) (op : Op) {s : Registry}
    → Aged lo hi i r.slots
    → hi + 1 < word
    → step r op ≡ some s
    → Aged lo (hi + 1) i s.slots
unfolding step
step-Aged r creates a room h = create-Aged r a h
step-Aged r (destroys e) a room h = destroy-Aged r e a room h
step-Aged r (locates e location) a room h = locate-Aged r e location a h

run-Aged :
    {lo i : ℕ} (hi : ℕ) (r : Registry) (ops : List Op) {s : Registry}
    → Aged lo hi i r.slots
    → hi + length ops < word
    → run r ops ≡ some s
    → Aged lo (hi + length ops) i s.slots
unfolding run
run-Aged {lo} {i} hi r [] {s} a room h =
    let e : r ≡ s = some-injective _ _ h in
    rw (← e) (record { slot = a.slot; found = a.found; low = a.low; high = omega (arith, a.high) })
run-Aged {lo} {i} hi r (op ∷ ops) {s} a room h = elim (Option-cases (step r op)) [
  | inl stuck ↦ absurd (ground (arith, stuck))
  | inr (t, e) ↦
      rw (shift ops) (
        run-Aged (hi + 1) t ops (step-Aged r op a (omega arith) e) (omega arith) (rw (e, run) at h))
]
  where
    shift : (ops : List Op) → hi + length (op ∷ ops) ≡ hi + 1 + length ops
    shift ops = omega arith

Aged-dead :
    {hi : ℕ} (r : Registry) (e : Handle)
    → Aged (e.generation + 1) hi e.index r.slots
    → is_alive r e ≡ false
unfolding is_alive
Aged-dead r e a = ground (arith, a.found, a.low)

-- Once an entity is destroyed, its handle resolves after no sequence of creations, destructions and
-- moves that is shorter than what is left of the slot's 32-bit generations.
pub stale_handle :
    (r : Registry) (e : Handle) (ops : List Op) {s t : Registry}
    → destroy r e ≡ some s
    → run s ops ≡ some t
    → e.generation + 1 + length ops < word
    → is_alive t e ≡ false
unfolding next_generation
stale_handle r e ops {s} {t} h k room =
    let (old, l, same) = destroy-inv r e h in
    let start : Aged (e.generation + 1) (e.generation + 1) e.index s.slots =
      subst (λ (u : Registry). Aged (e.generation + 1) (e.generation + 1) e.index u.slots) same
        (record {
          slot = buried_slot old;
          found = get_elem?-set_self r.slots e.index _ (get_elem?-lt r.slots e.index l.found);
          low = ground (arith, l.generation);
          high = ground (arith, l.generation);
        }) in
    let end : Aged (e.generation + 1) (e.generation + 1 + length ops) e.index t.slots =
      run-Aged (e.generation + 1) s ops start room k in
    Aged-dead t e end
