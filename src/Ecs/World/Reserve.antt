-- ===== src/Ecs/World/Reserve.antt =====
-- World.cpp: `GetOrCreateArchetype` finds or makes an archetype and changes no row.
use oyi_engine.Prelude.{
  ℕ, zero, suc, ◌+◌, ◌%◌, ◌<◌, ◌≡◌, refl, ap, subst, ◌≢◌, inl, inr, Bool, true, false, none, some,
  some-injective, List, [], ◌∷◌, ◌++◌, ◌==◌, if◌then◌else◌, length, get_elem?, get_elem?-push,
  get_elem?-above, Bool-cases, Option-cases, ==_refl, Expected, ErrorCode, ok, fail, out_of_memory,
  arith,
}
use oyi_engine.Ecs.EntityRegistry.{Location, word}
use oyi_engine.Ecs.ComponentMask
use oyi_engine.Ecs.ComponentMask.{Mask}
use oyi_engine.Ecs.ChunkLayout
use oyi_engine.Ecs.ChunkLayout.{Layout}
use oyi_engine.Ecs.ChunkLayout.Fits.{compute-positive}
use oyi_engine.Ecs.Archetype.{Archetype, row_in}
use oyi_engine.Ecs.Archetype.Packed.{row_count}
use oyi_engine.Ecs.World.{World, same_flag, find_archetype, get_or_create_archetype}
use oyi_engine.Ecs.World.Agreement.{Agree-same}
use oyi_engine.Ecs.World.Invariant.{row_at, entity_of, IsArchetype, IsValid}

-- Every archetype can count one more row.
abbrev pub HasSpace : World → Type 0
HasSpace w =
    (i : ℕ) (a : Archetype) → get_elem? w.archetypes i ≡ some a → row_count a.chunks + 1 < word

-- The archetype of a mask that is not or is of prototypes.
abbrev pub Fits : Mask → Bool → Archetype → Type 0
Fits mask is_prototype a =
    (same_flag a.prototype is_prototype ≡ true) × (ComponentMask.equal a.mask mask ≡ true)

find_archetype-Fits :
    (archetypes : List Archetype) (mask : Mask) (is_prototype : Bool) (i : ℕ)
    → find_archetype archetypes mask is_prototype ≡ some i
    → (a : Archetype) × (get_elem? archetypes i ≡ some a) × Fits mask is_prototype a
unfolding find_archetype
find_archetype-Fits [] mask p i h = cc
find_archetype-Fits (a ∷ as') mask p zero h = (a, refl, (ground arith, ground arith))
find_archetype-Fits (a ∷ as') mask p (suc i) h = find_archetype-Fits as' mask p i (ground arith)

same_flag_refl : (b : Bool) → same_flag b b ≡ true
unfolding same_flag
same_flag_refl true = refl
same_flag_refl false = refl

ok-injective : {i j : ℕ} → ok i ≡ ok j → i ≡ j
ok-injective h = cc

-- What `GetOrCreateArchetype` leaves: the same entities and rows.
pub record Reserves (w : World) (mask : Mask) (is_prototype : Bool) (out : Expected ℕ × World)
    : Type 0 where
  pub valid : IsValid out.1
  pub space : HasSpace out.1
  pub same_entities : out.1.entities ≡ w.entities
  pub same_rows : (l : Location) → row_at out.1.archetypes l ≡ row_at w.archetypes l
  pub fits :
      (i : ℕ)
      → out.0 ≡ ok i
      → (a : Archetype) × (get_elem? out.1.archetypes i ≡ some a) × Fits mask is_prototype a

empty_archetype : ℕ → Bool → Mask → Layout → Archetype
empty_archetype i p mask layout = record {
  index = i % word;
  prototype = p;
  mask = mask;
  layout = layout;
  chunks = [];
  entity_count = 0;
}

row_at-push :
    (archetypes : List Archetype) (i : ℕ) (p : Bool) (mask : Mask) (layout : Layout) (l : Location)
    → row_at (archetypes ++ empty_archetype i p mask layout ∷ []) l ≡ row_at archetypes l
unfolding empty_archetype row_in
row_at-push archetypes i p mask layout l = elim (Bool-cases (length archetypes == l.archetype)) [
  | inl end ↦ ground (
    arith,
    end,
    get_elem?-push archetypes (empty_archetype i p mask layout) l.archetype,
    get_elem?-above archetypes l.archetype,
  )
  | inr other ↦
      ground (arith, other, get_elem?-push archetypes (empty_archetype i p mask layout) l.archetype)
]

made_world : World → Bool → Mask → Layout → World
made_world w p mask layout = record w {
  archetypes = w.archetypes ++ empty_archetype (length w.archetypes) p mask layout ∷ [];
}

-- Adding the empty archetype.
made-Reserves :
    (w : World) (mask : Mask) (p : Bool) (layout : Layout)
    → IsValid w
    → HasSpace w
    → length w.archetypes < word
    → 0 < layout.capacity
    → ComponentMask.equal mask mask ≡ true
    → Reserves w mask p (ok (length w.archetypes), made_world w p mask layout)
unfolding made_world empty_archetype
made-Reserves w mask p layout v space few room same_mask =
    let new = empty_archetype (length w.archetypes) p mask layout in
    let here : get_elem? (w.archetypes ++ new ∷ []) (length w.archetypes) ≡ some new =
      ground (arith, get_elem?-push w.archetypes new (length w.archetypes)) in
    let each = λ (i : ℕ). get_elem?-push w.archetypes new i in
    record {
      valid = record {
        registry = v.registry;
        archetypes = λ i a h. elim (Bool-cases (length w.archetypes == i)) [
          | inl end ↦
              let same : new ≡ a = some-injective new a (ground (arith, h, each i, end)) in
              subst (IsArchetype i) same (
                record { packed = tt; capacity = room; counted = refl; small = omega arith },
                ground (arith, few, end),
              )
          | inr other ↦ v.archetypes i a (ground (arith, h, each i, other))
        ];
        agree =
            Agree-same v.agree (λ f. refl)
              (λ l. ap entity_of (row_at-push w.archetypes (length w.archetypes) p mask layout l));
      };
      space = λ i a h. elim (Bool-cases (length w.archetypes == i)) [
        | inl end ↦
            let same : new ≡ a = some-injective new a (ground (arith, h, each i, end)) in
            subst (λ x. row_count x.chunks + 1 < word) same (omega arith)
        | inr other ↦ space i a (ground (arith, h, each i, other))
      ];
      same_entities = refl;
      same_rows = row_at-push w.archetypes (length w.archetypes) p mask layout;
      fits = λ i h.
          subst
            (λ k.
              (a : Archetype) × (get_elem? (w.archetypes ++ new ∷ []) k ≡ some a) × Fits mask p a)
            (ok-injective h) (new, here, (same_flag_refl p, same_mask));
    }

same-Reserves :
    (w : World) (mask : Mask) (p : Bool) (found : Expected ℕ)
    → IsValid w
    → HasSpace w
    → ((i : ℕ)
        → found ≡ ok i
        → (a : Archetype) × (get_elem? w.archetypes i ≡ some a) × Fits mask p a)
    → Reserves w mask p (found, w)
same-Reserves w mask p found v space fits = record {
  valid = v;
  space = space;
  same_entities = refl;
  same_rows = λ l. refl;
  fits = fits;
}

fail-ok {ℓ} : {A : Type ℓ} {a : A} {e : ErrorCode} → fail e ≢ ok a
fail-ok h = cc

mask_refl : (m : Mask) → ComponentMask.equal m m ≡ true
unfolding ComponentMask.equal
mask_refl [] = refl
mask_refl (a ∷ m) = rw (==_refl a) (mask_refl m)

-- The branch of `GetOrCreateArchetype` that needs a layout.
made_or_failed : World → Mask → Bool → Bool → Expected Layout → Expected ℕ × World
unfolding made_world empty_archetype
made_or_failed w mask p granted (fail e) = (fail e, w)
made_or_failed w mask p granted (ok layout) =
    if granted
    then (ok (length w.archetypes), made_world w p mask layout)
    else (fail out_of_memory, w)

made_or_failed-Reserves :
    (w : World) (mask : Mask) (p granted : Bool) (o : Expected Layout)
    → IsValid w
    → HasSpace w
    → length w.archetypes < word
    → ((layout : Layout) → o ≡ ok layout → 0 < layout.capacity)
    → Reserves w mask p (made_or_failed w mask p granted o)
unfolding made_or_failed
made_or_failed-Reserves w mask p granted (fail e) v space few room =
    same-Reserves w mask p (fail e) v space (λ i h. absurd (fail-ok h))
made_or_failed-Reserves w mask p true (ok layout) v space few room =
    made-Reserves w mask p layout v space few (room layout refl) (mask_refl mask)
made_or_failed-Reserves w mask p false (ok layout) v space few room =
    same-Reserves w mask p (fail out_of_memory) v space (λ i h. absurd (fail-ok h))

missing-step :
    (w : World) (mask : Mask) (p granted : Bool)
    → find_archetype w.archetypes mask p ≡ none
    → get_or_create_archetype w mask p granted
      ≡ made_or_failed w mask p granted (ChunkLayout.compute w.infos mask w.chunk_size)
unfolding get_or_create_archetype made_or_failed made_world empty_archetype
missing-step w mask p granted missing = rw (missing, get_or_create_archetype) refl

pub get_or_create-Reserves :
    (w : World) (mask : Mask) (p granted : Bool)
    → IsValid w
    → HasSpace w
    → length w.archetypes < word
    → Reserves w mask p (get_or_create_archetype w mask p granted)
unfolding get_or_create_archetype
get_or_create-Reserves w mask p granted v space few =
    elim (Option-cases (find_archetype w.archetypes mask p)) [
      | inr (i, found) ↦
          rw (found, get_or_create_archetype)
            (same-Reserves w mask p (ok i) v space (λ k h.
              subst (λ x. (a : Archetype) × (get_elem? w.archetypes x ≡ some a) × Fits mask p a)
                (ok-injective h) (find_archetype-Fits w.archetypes mask p i found)))
      | inl missing ↦ rw (missing-step w mask p granted missing) (
          made_or_failed-Reserves w mask p granted (ChunkLayout.compute w.infos mask w.chunk_size) v
            space few (compute-positive w.infos mask w.chunk_size))
    ]
