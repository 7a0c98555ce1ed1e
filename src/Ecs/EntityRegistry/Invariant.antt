-- ===== src/Ecs/EntityRegistry/Invariant.antt =====
-- EntityRegistry.cpp: what always holds of the slot table and the free list.
use oyi_engine.Prelude.{
  ℕ, zero, suc, ◌+◌, ◌%◌, ◌≤◌, ◌<◌, ◌≡◌, refl, sym, ◌∙◌, ◌≢◌, ◌⊎◌, inl, inr, true, false, not,
  Option, none, some, List, [], ◌∷◌, ◌++◌, ◌==◌, to_nat, length, get_elem?, set, count, All,
  All-append, All-set, All-get, length-set, length-append, get_elem?-set, get_elem?-push,
  get_elem?-above, ap, get_elem?-lt, Option-cases, subst, some-injective, Bool-cases, ==_refl,
  arith,
}
use oyi_engine.Core.Handle.{Handle}
use oyi_engine.Ecs.EntityRegistry.{
  Slot, Registry, word, nowhere, new_slot, revive, create, is_alive, next_generation, buried_slot,
  buried, destroy,
}

abbrev pub dead_slot : Option Slot → ℕ
dead_slot none = 0
dead_slot (some s) = to_nat (not s.alive)

abbrev pub alive_slots : List Slot → ℕ
alive_slots [] = 0
alive_slots (s ∷ ss) = to_nat s.alive + alive_slots ss

abbrev pub IsGeneration : Slot → Type 0
IsGeneration s = (0 < s.generation) × (s.generation < word)

-- The table fits 32-bit indices and holds proper generations, the free list holds each dead index
-- exactly once and no other, and the count is the number of live slots.
pub record IsValid (r : Registry) : Type 0 where
  pub size : length r.slots < word
  pub generations : All IsGeneration r.slots
  pub free_exact : (i : ℕ) → count i r.free_indices ≡ dead_slot (get_elem? r.slots i)
  pub counted : r.alive_count ≡ alive_slots r.slots

pub alive_slots-le : (ss : List Slot) → alive_slots ss ≤ length ss
alive_slots-le [] = omega arith
alive_slots-le (s ∷ ss) = ground (arith, alive_slots-le ss)

pub alive_slots-set :
    (ss : List Slot) (i : ℕ) (s : Slot) {old : Slot}
    → get_elem? ss i ≡ some old
    → alive_slots (set ss i s) + to_nat old.alive ≡ alive_slots ss + to_nat s.alive
alive_slots-set [] i s e = cc
alive_slots-set (x ∷ ss) zero s {old} e = ground arith
alive_slots-set (x ∷ ss) (suc i) s e = omega (arith, alive_slots-set ss i s e)

pub alive_slots-push : (ss : List Slot) → alive_slots (ss ++ new_slot ∷ []) ≡ alive_slots ss
alive_slots-push [] = refl
alive_slots-push (s ∷ ss) = omega (arith, alive_slots-push ss)

pub dead_slot-cases :
    (o : Option Slot) → 0 < dead_slot o → (s : Slot) × (o ≡ some s) × (s.alive ≡ false)
dead_slot-cases none h = absurd (omega arith)
dead_slot-cases (some s) h = (s, refl, ground arith)

-- There is room for one more entity: an index to recycle, or a new one of 32 bits.
abbrev pub HasRoom : Registry → Type 0
HasRoom r = (r.free_indices ≢ []) ⊎ (length r.slots + 1 < word)

-- What `create` revives: a dead slot of a table that holds the same live entities.
pub record Revives (r : Registry) (i : ℕ) (slot : Slot) (s : Registry) : Type 0 where
  pub made : create r ≡ revive s i (some slot)
  pub found : get_elem? s.slots i ≡ some slot
  pub dead : slot.alive ≡ false
  pub size : length s.slots < word
  pub generations : All IsGeneration s.slots
  pub free_exact :
      (j : ℕ) → count j s.free_indices + to_nat (j == i) ≡ dead_slot (get_elem? s.slots j)
  pub counted : s.alive_count ≡ alive_slots s.slots
  pub same_count : s.alive_count ≡ r.alive_count
  pub same_live :
      (j : ℕ)
      → (get_elem? s.slots j ≡ get_elem? r.slots j)
        ⊎ ((get_elem? r.slots j ≡ none) × (get_elem? s.slots j ≡ some new_slot))

recycle-Revives :
    (r : Registry) (i : ℕ) (rest : List ℕ)
    → IsValid r
    → r.free_indices ≡ i ∷ rest
    → (slot : Slot) × Revives r i slot (record r { free_indices = rest })
unfolding create
recycle-Revives r i rest v e =
    let (slot, found, dead) = dead_slot-cases (get_elem? r.slots i) free in
    (
      slot,
      record {
        made = rw (e, create, found);
        found = found;
        dead = dead;
        size = v.size;
        generations = v.generations;
        free_exact = λ j. omega (arith, v.free_exact j, ap (count j) e, swap j);
        counted = v.counted;
        same_count = refl;
        same_live = λ j. inl refl;
      },
    )
  where
    swap : (j : ℕ) → to_nat (j == i) + count j rest ≡ count j (i ∷ rest)
    swap j = ground arith

    free : 0 < dead_slot (get_elem? r.slots i)
    free = omega (arith, v.free_exact i, ap (count i) e, swap i, ap to_nat (==_refl i))

extend-Revives :
    (r : Registry)
    → IsValid r
    → r.free_indices ≡ []
    → length r.slots + 1 < word
    → Revives r (length r.slots) new_slot (record r { slots = r.slots ++ new_slot ∷ [] })
unfolding create
extend-Revives r v e room = record {
  made = ground (arith, e, small, pushed);
  found = pushed;
  dead = refl;
  size = omega (arith, length-append r.slots (new_slot ∷ []));
  generations = All-append IsGeneration r.slots (new_slot ∷ []) v.generations (omega arith);
  free_exact = λ j.
      ground
        (arith, v.free_exact j, e, get_elem?-push r.slots new_slot j, get_elem?-above r.slots j);
  counted = rw (alive_slots-push r.slots) v.counted;
  same_count = refl;
  same_live = λ j. ground (arith, get_elem?-push r.slots new_slot j, get_elem?-above r.slots j);
}
  where
    small : length r.slots % word ≡ length r.slots
    small = omega arith

    pushed : get_elem? (r.slots ++ new_slot ∷ []) (length r.slots) ≡ some new_slot
    pushed = ground (arith, get_elem?-push r.slots new_slot (length r.slots))

pub create-Revives :
    (r : Registry)
    → IsValid r
    → HasRoom r
    → (i : ℕ) × (slot : Slot) × (s : Registry) × Revives r i slot s
create-Revives r v room = go r.free_indices refl room
  where
    go :
        (free : List ℕ)
        → r.free_indices ≡ free
        → HasRoom r
        → (i : ℕ) × (slot : Slot) × (s : Registry) × Revives r i slot s
    go [] e (inl ne) = absurd (ne e)
    go [] e (inr small) = (length r.slots, new_slot, _, extend-Revives r v e small)
    go (i ∷ rest) e h = let (slot, rev) = recycle-Revives r i rest v e in (i, slot, _, rev)

-- What `revive` leaves behind is valid again.
pub revive-IsValid :
    {r s t : Registry} {i : ℕ} {slot : Slot} {e : Handle}
    → Revives r i slot s
    → revive s i (some slot) ≡ some (e, t)
    → IsValid t
unfolding revive
revive-IsValid {s = s} {i = i} {slot = slot} v h =
    subst IsValid (ap (λ (p : Handle × Registry). p.1) (some-injective _ _ h)) (record {
      size = omega (arith, length-set s.slots i new, v.size);
      generations =
          All-set IsGeneration s.slots i new (All-get IsGeneration s.slots i v.generations v.found)
            v.generations;
      free_exact = λ j. ground (
        arith,
        v.free_exact j,
        v.found,
        v.dead,
        get_elem?-set s.slots i j new (get_elem?-lt s.slots i v.found),
      );
      counted = omega (
        arith,
        v.counted,
        alive_slots-set s.slots i new v.found,
        ap to_nat v.dead,
        alive_slots-le (set s.slots i new),
        length-set s.slots i new,
        v.size,
      );
    })
  where
    new : Slot
    new = record slot { alive = true; location = nowhere }

-- `Create` on a valid registry with room returns an entity, and leaves a valid registry.
pub create-IsValid :
    (r : Registry)
    → IsValid r
    → HasRoom r
    → (e : Handle) × (t : Registry) × (create r ≡ some (e, t)) × IsValid t
unfolding revive
create-IsValid r v room =
    let (i, slot, s, rev) = create-Revives r v room in (_, _, rev.made, revive-IsValid rev refl)

-- What a live handle stands for.
pub record Live (r : Registry) (e : Handle) (slot : Slot) : Type 0 where
  pub found : get_elem? r.slots e.index ≡ some slot
  pub alive : slot.alive ≡ true
  pub generation : slot.generation ≡ e.generation
  pub nonzero : 0 < e.generation

pub is_alive-Live :
    (r : Registry) (e : Handle) → is_alive r e ≡ true → (slot : Slot) × Live r e slot
unfolding is_alive
is_alive-Live r e h = elim (Option-cases (get_elem? r.slots e.index)) [
  | inl missing ↦ absurd (ground (arith, missing))
  | inr (slot, found) ↦ (
    slot,
    record {
      found = found;
      alive = ground (arith, found);
      generation = ground (arith, found);
      nonzero = ground (arith, found);
    },
  )
]

pub Live-is_alive : {r : Registry} {e : Handle} {slot : Slot} → Live r e slot → is_alive r e ≡ true
unfolding is_alive
Live-is_alive {r} {e} l = ground (arith, l.found)

pub destroy-Live :
    {r : Registry} {e : Handle} {slot : Slot}
    → Live r e slot
    → destroy r e ≡ some (buried r e.index slot)
unfolding destroy
destroy-Live {r} {e} l = ground (arith, l.found)

pub destroy-inv :
    (r : Registry) (e : Handle) {t : Registry}
    → destroy r e ≡ some t
    → (slot : Slot) × Live r e slot × (buried r e.index slot ≡ t)
unfolding destroy
destroy-inv r e h = elim (Bool-cases (is_alive r e)) [
  | inl alive ↦
      let (slot, l) = is_alive-Live r e alive in
      (slot, l, some-injective _ _ (sym (destroy-Live l) ∙ h))
  | inr dead ↦ absurd (ground (arith, dead))
]

pub next_generation-word : (g : ℕ) → g < word → (0 < next_generation g) × (next_generation g < word)
unfolding next_generation
next_generation-word g h = ground arith

pub buried-IsValid :
    {r : Registry} {e : Handle} {slot : Slot}
    → IsValid r
    → Live r e slot
    → IsValid (buried r e.index slot)
buried-IsValid {r} {e} {slot} v l = record {
  size = omega (arith, length-set r.slots e.index new, v.size);
  generations =
      All-set IsGeneration r.slots e.index new
        (next_generation-word slot.generation
          (All-get IsGeneration r.slots e.index v.generations l.found).1)
        v.generations;
  free_exact = λ j. ground (
    arith,
    v.free_exact j,
    v.free_exact e.index,
    l.found,
    l.alive,
    get_elem?-set r.slots e.index j new (get_elem?-lt r.slots e.index l.found),
  );
  counted = omega (
    arith,
    v.counted,
    alive_slots-set r.slots e.index new l.found,
    ap to_nat l.alive,
    alive_slots-le r.slots,
    v.size,
  );
}
  where
    new : Slot
    new = buried_slot slot

-- `Destroy` keeps the registry valid.
pub destroy-IsValid :
    (r : Registry) (e : Handle) {t : Registry} → IsValid r → destroy r e ≡ some t → IsValid t
destroy-IsValid r e v h =
    let (slot, l, same) = destroy-inv r e h in subst IsValid same (buried-IsValid v l)
