-- ===== src/Ecs/World/Agreement.antt =====
-- World.cpp: the locations that the registry holds and the rows that the archetypes hold agree, and a
-- row that is swapped into a hole keeps them in agreement.
use oyi_engine.Prelude.{
  ◌≡◌, refl, sym, ap, subst, ◌∙◌, ◌≢◌, inl, inr, ◌↔◌, Bool, true, false, not, ◌&&◌, Option, none,
  some, some-injective, ◌==◌, if◌then◌else◌, Bool-cases, ==_refl, arith,
}
use oyi_engine.Core.Handle
use oyi_engine.Core.Handle.{Handle}
use oyi_engine.Ecs.EntityRegistry.{Location}

-- Two locations are the same place.
abbrev pub same_place : Location → Location → Bool
same_place a b = a.archetype == b.archetype && a.chunk == b.chunk && a.row == b.row

pub same_place→eq : (a b : Location) → same_place a b ≡ true → a ≡ b
same_place→eq a b h = ground arith

pub same_place_refl : (a : Location) → same_place a a ≡ true
same_place_refl a = ground (arith, ==_refl a.archetype, ==_refl a.chunk, ==_refl a.row)

pub equal_refl : (a : Handle) → Handle.equal a a ≡ true
equal_refl a = ground (arith, ==_refl a.index, ==_refl a.generation)

-- The map from entities to places and the map from places to entities are inverse.
abbrev pub Agree : (Handle → Option Location) → (Location → Option Handle) → Type 0
Agree location entity = (e : Handle) (at : Location) → (location e ≡ some at) ↔ (entity at ≡ some e)

-- The maps after `e` is removed from `at` and the entity `m` at the place `last` fills the hole.
abbrev pub location_after :
    (Handle → Option Location) → Handle → Location → Handle → Location → Handle → Option Location
location_after location e at m last f =
    if Handle.equal e f
    then none
    else if not (same_place at last) && Handle.equal m f
    then some at
    else location f

abbrev pub entity_after :
    (Location → Option Handle) → Location → Handle → Location → Location → Option Handle
entity_after entity at m last l =
    if same_place last l then none else if same_place at l then some m else entity l

pub if_true {ℓ} :
    {A : Type ℓ} {b : Bool} {x z : A} (y : A) → b ≡ true → x ≡ z → (if b then x else y) ≡ z
if_true y e h = rw e h

pub if_false {ℓ} :
    {A : Type ℓ} {b : Bool} {y z : A} (x : A) → b ≡ false → y ≡ z → (if b then x else y) ≡ z
if_false x e h = rw e h

pub if_true-of {ℓ} :
    {A : Type ℓ} {b : Bool} {x z : A} (y : A) → b ≡ true → (if b then x else y) ≡ z → x ≡ z
if_true-of y e h = sym (rw e refl) ∙ h

pub if_false-of {ℓ} :
    {A : Type ℓ} {b : Bool} {y z : A} (x : A) → b ≡ false → (if b then x else y) ≡ z → y ≡ z
if_false-of x e h = sym (rw e refl) ∙ h

pub true-false : {b : Bool} → b ≡ true → b ≢ false
true-false h k = cc

pub none-some {ℓ} : {A : Type ℓ} {a : A} → none ≢ some a
none-some h = cc

pub not_true : {b : Bool} → b ≢ true → b ≡ false
not_true {b = true} h = absurd (h refl)
not_true {b = false} h = refl

pub and_false : (a : Bool) {b : Bool} → b ≡ false → (not a && b) ≡ false
and_false true h = refl
and_false false h = h

pub and_true : {a b : Bool} → a ≡ false → b ≡ true → (not a && b) ≡ true
and_true h k = rw (h, k) refl

pub same_place_flip : (a b : Location) → same_place a b ≡ false → same_place b a ≡ false
same_place_flip a b h = not_true λ k.
    true-false (subst (λ x. same_place a x ≡ true) (sym (same_place→eq b a k)) (same_place_refl a))
      h

module _ (location : Handle → Option Location) (entity : Location → Option Handle)
    (agree : Agree location entity) (e m : Handle) (at last : Location)
    (here : location e ≡ some at) (end : location m ≡ some last) where
  pub entity_here : entity at ≡ some e
  entity_here = (agree e at).0 here

  pub entity_end : entity last ≡ some m
  entity_end = (agree m last).0 end

  -- Entities at one place are equal.
  pub same_entity :
      (f g : Handle) (l l' : Location)
      → entity l ≡ some f
      → entity l' ≡ some g
      → same_place l l' ≡ true
      → Handle.equal f g ≡ true
  same_entity f g l l' hf hg h =
      let one : f ≡ g = some-injective f g (sym hf ∙ ap entity (same_place→eq l l' h) ∙ hg) in
      subst (λ x. Handle.equal f x ≡ true) one (equal_refl f)

  same_location :
      (f g : Handle) (l l' : Location)
      → location f ≡ some l
      → location g ≡ some l'
      → Handle.equal f g ≡ true
      → same_place l l' ≡ true
  same_location f g l l' hf hg h =
      let one : l ≡ l' = some-injective l l' (sym hf ∙ ap location (Handle.equal→eq f g h) ∙ hg) in
      subst (λ x. same_place l x ≡ true) one (same_place_refl l)

  -- If the hole is the last place, the entity that would fill it is `e` itself.
  pub same_m :
      same_place at last ≡ true → (f : Handle) → Handle.equal m f ≡ true → Handle.equal e f ≡ true
  same_m a f h =
      subst (λ x. Handle.equal e x ≡ true) (Handle.equal→eq m f h)
        (same_entity e m at last entity_here entity_end a)

  -- An entity other than `e` and `m` keeps its place.
  kept_other :
      (f : Handle) (l : Location)
      → Handle.equal e f ≡ false
      → Handle.equal m f ≡ false
      → location f ≡ some l
      → entity_after entity at m last l ≡ some f
  kept_other f l not_e not_m g = elim (Bool-cases (same_place last l)) [
    | inl q ↦ absurd (true-false (same_entity m f last l entity_end ((agree f l).0 g) q) not_m)
    | inr q ↦ elim (Bool-cases (same_place at l)) [
      | inl p ↦ absurd (true-false (same_entity e f at l entity_here ((agree f l).0 g) p) not_e)
      | inr p ↦ if_false _ q (if_false _ p ((agree f l).0 g))
    ]
  ]

  kept :
      (f : Handle) (l : Location)
      → location_after location e at m last f ≡ some l
      → entity_after entity at m last l ≡ some f
  kept f l h = elim (Bool-cases (Handle.equal e f)) [
    | inl gone ↦ absurd (none-some (if_true-of _ gone h))
    | inr other ↦ elim (Bool-cases (Handle.equal m f)) [
      | inr not_m ↦
          kept_other f l other not_m
            (if_false-of _ (and_false (same_place at last) not_m) (if_false-of _ other h))
      | inl is_m ↦ elim (Bool-cases (same_place at last)) [
        | inl a ↦ absurd (true-false (same_m a f is_m) other)
        | inr a ↦
            let there : at ≡ l =
              some-injective at l (if_true-of _ (and_true a is_m) (if_false-of _ other h)) in
            subst (λ x. entity_after entity at m last x ≡ some f) there
              (if_false _ (same_place_flip at last a)
                (if_true _ (same_place_refl at) (ap some (Handle.equal→eq m f is_m))))
      ]
    ]
  ]

  known :
      (f : Handle) (l : Location)
      → entity_after entity at m last l ≡ some f
      → location_after location e at m last f ≡ some l
  known f l h = elim (Bool-cases (same_place last l)) [
    | inl q ↦ absurd (none-some (if_true-of _ q h))
    | inr q ↦ elim (Bool-cases (same_place at l)) [
      | inl p ↦
          let is_m : m ≡ f = some-injective m f (if_true-of _ p (if_false-of _ q h)) in
          let there : at ≡ l = same_place→eq at l p in
          let apart : same_place at last ≡ false =
            same_place_flip last at (subst (λ x. same_place last x ≡ false) (sym there) q) in
          let end_f : location f ≡ some last = subst (λ x. location x ≡ some last) is_m end in
          if_false _ (not_true λ y. true-false (same_location e f at last here end_f y) apart) (
            if_true _ (and_true apart (subst (λ x. Handle.equal m x ≡ true) is_m (equal_refl m)))
              (ap some there))
      | inr p ↦
          let g = (agree f l).1 (if_false-of _ p (if_false-of _ q h)) in
          if_false _ (not_true λ y. true-false (same_location e f at l here g y) p) (
            if_false _
              (and_false (same_place at last)
                (not_true λ y. true-false (same_location m f last l end g y) q))
              g)
    ]
  ]

  -- Removing `e` by a swap keeps the two maps inverse.
  pub Agree-after : Agree (location_after location e at m last) (entity_after entity at m last)
  Agree-after f l = (kept f l, known f l)

-- Maps that agree at every argument with maps that are inverse are inverse.
pub Agree-same :
    {location location' : Handle → Option Location} {entity entity' : Location → Option Handle}
    → Agree location entity
    → ((f : Handle) → location' f ≡ location f)
    → ((l : Location) → entity' l ≡ entity l)
    → Agree location' entity'
Agree-same agree same same' f l = (
  λ h. same' l ∙ (agree f l).0 (sym (same f) ∙ h),
  λ h. same f ∙ (agree f l).1 (sym (same' l) ∙ h),
)

-- The maps after a new entity `e` is placed at a free place.
abbrev pub location_with : (Handle → Option Location) → Handle → Location → Handle → Option Location
location_with location e at f = if Handle.equal e f then some at else location f

abbrev pub entity_with : (Location → Option Handle) → Handle → Location → Location → Option Handle
entity_with entity e at l = if same_place at l then some e else entity l

module _ (location : Handle → Option Location) (entity : Location → Option Handle)
    (agree : Agree location entity) (e : Handle) (at : Location) (unplaced : location e ≡ none)
    (free : entity at ≡ none) where
  placed :
      (f : Handle) (l : Location)
      → location_with location e at f ≡ some l
      → entity_with entity e at l ≡ some f
  placed f l h = elim (Bool-cases (Handle.equal e f)) [
    | inl same ↦
        let there : at ≡ l = some-injective at l (if_true-of _ same h) in
        if_true _ (subst (λ x. same_place at x ≡ true) there (same_place_refl at))
          (ap some (Handle.equal→eq e f same))
    | inr other ↦
        let found = (agree f l).0 (if_false-of _ other h) in
        if_false _ (not_true λ p. none-some (sym free ∙ ap entity (same_place→eq at l p) ∙ found))
          found
  ]

  located :
      (f : Handle) (l : Location)
      → entity_with entity e at l ≡ some f
      → location_with location e at f ≡ some l
  located f l h = elim (Bool-cases (same_place at l)) [
    | inl same ↦
        let one : e ≡ f = some-injective e f (if_true-of _ same h) in
        if_true _ (subst (λ x. Handle.equal e x ≡ true) one (equal_refl e))
          (ap some (same_place→eq at l same))
    | inr other ↦
        let found = (agree f l).1 (if_false-of _ other h) in
        if_false _
          (not_true λ p. none-some (sym unplaced ∙ ap location (Handle.equal→eq e f p) ∙ found))
          found
  ]

  pub Agree-with : Agree (location_with location e at) (entity_with entity e at)
  Agree-with f l = (placed f l, located f l)
