-- ===== src/Ecs/World/Invariant.antt =====
-- World.cpp: what always holds of a world, and `RemoveRow`.
use oyi_engine.Prelude.{
  ℕ, ◌≡◌, refl, sym, ap, subst, ◌∙◌, inl, inr, true, not, ◌&&◌, Option, none, some, some-injective,
  List, ◌==◌, if◌then◌else◌, get_elem?, set, get_elem?-set, get_elem?-lt, Bool-cases, Option-cases,
  ==_iff, arith,
}
use oyi_engine.Core.Handle
use oyi_engine.Core.Handle.{Handle}
use oyi_engine.Ecs.EntityRegistry.{Location, is_alive, get_location, set_location}
use oyi_engine.Ecs.EntityRegistry.Invariant as registry
use oyi_engine.Ecs.EntityRegistry.Frame.{set_location_refines, get_location-alive, alive-is_valid}
use oyi_engine.Ecs.Archetype
use oyi_engine.Ecs.Archetype.{Archetype, Row, row_in}
use oyi_engine.Ecs.Archetype.Packed.{IsPacked}
use oyi_engine.Ecs.Archetype.Removal.{Removes, remove_refines}
use oyi_engine.Ecs.World.{World, remove_row}
use oyi_engine.Ecs.World.Components.{row_of}
use oyi_engine.Ecs.World.Agreement.{Agree, same_place}

-- The row at a place, and the entity of the row.
abbrev pub row_at : List Archetype → Location → Option Row
row_at archetypes l = elim (get_elem? archetypes l.archetype) [
  | none ↦ none
  | some a ↦ row_in a.chunks l.chunk l.row
]

abbrev pub entity_of : Option Row → Option Handle
entity_of none = none
entity_of (some row) = some row.entity

abbrev pub entity_at : List Archetype → Location → Option Handle
entity_at archetypes l = entity_of (row_at archetypes l)

abbrev pub IsArchetype : ℕ → Archetype → Type 0
IsArchetype i a = IsPacked a × (a.index ≡ i)

-- The registry is valid, the archetypes are packed and know their index, and an entity is located at a
-- place exactly if the row there is its row.
pub record IsValid (w : World) : Type 0 where
  pub registry : registry.IsValid w.entities
  pub archetypes : (i : ℕ) (a : Archetype) → get_elem? w.archetypes i ≡ some a → IsArchetype i a
  pub agree : Agree (get_location w.entities) (entity_at w.archetypes)

-- The place of a row that is there.
row_at-found :
    (archetypes : List Archetype) (l : Location) (e : Handle)
    → entity_at archetypes l ≡ some e
    → (a : Archetype) × (row : Row) × (get_elem? archetypes l.archetype ≡ some a)
      × (row_in a.chunks l.chunk l.row ≡ some row)
      × (row.entity ≡ e)
row_at-found archetypes l e h = elim (Option-cases (get_elem? archetypes l.archetype)) [
  | inl no_archetype ↦ absurd (ground (arith, no_archetype, h))
  | inr (a, found) ↦ elim (Option-cases (row_in a.chunks l.chunk l.row)) [
    | inl no_row ↦ absurd (ground (arith, found, no_row, h))
    | inr (row, there) ↦ (a, row, found, there, ground (arith, found, there, h))
  ]
]

-- What `RemoveRow` of the row of `e` leaves: the row of `m` at the place `last` fills the hole.
pub record Cut (w : World) (e : Handle) (at : Location) (t : World) : Type 0 where
  pub last : Location
  pub last_row : Row
  pub end : get_location w.entities last_row.entity ≡ some last
  pub registry : registry.IsValid t.entities
  pub archetypes : (i : ℕ) (a : Archetype) → get_elem? t.archetypes i ≡ some a → IsArchetype i a
  pub same_alive : (f : Handle) → is_alive t.entities f ≡ is_alive w.entities f
  pub locations :
      (f : Handle)
      → get_location t.entities f ≡ (
          if not (same_place at last) && Handle.equal last_row.entity f
          then some at
          else get_location w.entities f)
  pub rows :
      (l : Location)
      → row_at t.archetypes l ≡ (
          if same_place last l
          then none
          else if same_place at l
          then some last_row
          else row_at w.archetypes l)
  pub was_there : row_at w.archetypes last ≡ some last_row

-- The rows and the archetypes after one archetype is replaced.
module _ (w : World) (at : Location) (a b : Archetype)
    (found : get_elem? w.archetypes at.archetype ≡ some a) where
  abbrev pub replaced : List Archetype
  replaced = set w.archetypes at.archetype b

  pub replaced-archetypes :
      ((i : ℕ) (x : Archetype) → get_elem? w.archetypes i ≡ some x → IsArchetype i x)
      → IsArchetype at.archetype b
      → (i : ℕ) (x : Archetype) → get_elem? replaced i ≡ some x
      → IsArchetype i x
  replaced-archetypes old new i x h = elim (Bool-cases (at.archetype == i)) [
    | inl same ↦
        let same_archetype : b ≡ x = some-injective b x (
          ground (
            arith,
            h,
            same,
            get_elem?-set w.archetypes at.archetype i b
                (get_elem?-lt w.archetypes at.archetype found),
          )) in
        subst (IsArchetype i) same_archetype
          (subst (λ k. IsArchetype k b) ((==_iff at.archetype i).0 same) new)
    | inr other ↦ old i x (
        ground (
          arith,
          h,
          other,
          get_elem?-set w.archetypes at.archetype i b
              (get_elem?-lt w.archetypes at.archetype found),
        ))
  ]

  replaced-row_at :
      (moved : Handle) (removes : Removes a at moved b) (l : Location)
      → let last : Location = record {
        archetype = at.archetype;
        chunk = removes.last_chunk_at;
        row = removes.last_row_at;
      } in
        row_at replaced l ≡ (
          if same_place last l
          then none
          else if same_place at l
          then some removes.last
          else row_at w.archetypes l)
  replaced-row_at moved removes l = ground (
    arith,
    found,
    get_elem?-set w.archetypes at.archetype l.archetype b
        (get_elem?-lt w.archetypes at.archetype found),
    removes.rows l.chunk l.row,
  )

-- `RemoveRow` with the archetype and what `Remove` returns.
remove_row-step :
    (w : World) (at : Location) (a b : Archetype) (moved : Handle)
    → get_elem? w.archetypes at.archetype ≡ some a
    → Archetype.remove a at w.version ≡ some (moved, b)
    → remove_row w at ≡ (
        if Handle.is_valid moved
        then elim (set_location w.entities moved at) [
          | none ↦ none
          | some entities ↦
              some (record w { entities = entities; archetypes = set w.archetypes at.archetype b })
        ]
        else some (record w { archetypes = set w.archetypes at.archetype b }))
unfolding remove_row
remove_row-step w at a b moved found step = rw (found, remove_row) (rw step refl)

-- `RemoveRow` of the row of an entity that is alive.
pub remove_row-Cut :
    (w : World) (e : Handle) (at : Location)
    → IsValid w
    → get_location w.entities e ≡ some at
    → (t : World) × (remove_row w at ≡ some t) × Cut w e at t
remove_row-Cut w e at v here =
    let (a, gone, found, there, own) = row_at-found w.archetypes at e ((v.agree e at).0 here) in
    let (packed, index) = v.archetypes at.archetype a found in
    let (moved, b, step, removes) = remove_refines a at w.version gone packed (sym index) there in
    let last : Location = record {
      archetype = at.archetype;
      chunk = removes.last_chunk_at;
      row = removes.last_row_at;
    } in
    let was_there : row_at w.archetypes last ≡ some removes.last =
      ground (arith, found, removes.found) in
    let end : get_location w.entities removes.last.entity ≡ some last =
      (v.agree removes.last.entity last).1 (ap entity_of was_there) in
    let alive = get_location-alive w.entities removes.last.entity end in
    let good : IsArchetype at.archetype b = (removes.packed, removes.same_index ∙ index) in
    let out = remove_row-step w at a b moved found step in
    elim (Bool-cases (same_place at last)) [
      | inl same ↦
          let none_moved : moved ≡ Handle.invalid = ground (arith, removes.moves, same) in
          (
            record w { archetypes = set w.archetypes at.archetype b },
            out
                ∙ ap
                    (λ x.
                      if Handle.is_valid x
                      then elim (set_location w.entities x at) [
                        | none ↦ none
                        | some entities ↦ some (record w {
                          entities = entities;
                          archetypes = set w.archetypes at.archetype b;
                        })
                      ]
                      else some (record w { archetypes = set w.archetypes at.archetype b }))
                    none_moved,
            record {
              last = last;
              last_row = removes.last;
              end = end;
              registry = v.registry;
              archetypes = replaced-archetypes w at a b found v.archetypes good;
              same_alive = λ f. refl;
              locations = λ f. ground (arith, same);
              rows = replaced-row_at w at a b found moved removes;
              was_there = was_there;
            },
          )
      | inr other ↦
          let is_moved : moved ≡ removes.last.entity = ground (arith, removes.moves, other) in
          let valid : Handle.is_valid moved ≡ true =
            ap Handle.is_valid is_moved ∙ alive-is_valid w.entities removes.last.entity alive in
          let (entities, set_eq, registry_valid, same_alive, locations) =
            set_location_refines w.entities removes.last.entity at v.registry alive in
          (
            record w { entities = entities; archetypes = set w.archetypes at.archetype b },
            out ∙ rw valid (rw (ap (λ x. set_location w.entities x at) is_moved ∙ set_eq) refl),
            record {
              last = last;
              last_row = removes.last;
              end = end;
              registry = registry_valid;
              archetypes = replaced-archetypes w at a b found v.archetypes good;
              same_alive = same_alive;
              locations = λ f. ground (arith, other, locations f);
              rows = replaced-row_at w at a b found moved removes;
              was_there = was_there;
            },
          )
    ]

-- `row_of` through the location.
pub row_of-at :
    (x : World) (f : Handle) {l : Location}
    → get_location x.entities f ≡ some l
    → row_of x f ≡ row_at x.archetypes l
unfolding row_of
row_of-at x f h = rw (h, row_of) refl

pub row_of-none : (x : World) (f : Handle) → get_location x.entities f ≡ none → row_of x f ≡ none
unfolding row_of
row_of-none x f h = rw (h, row_of) refl

-- Worlds with the same locations and rows have the same row for an entity.
pub same_rows-row_of :
    (w t : World) (f : Handle)
    → get_location t.entities f ≡ get_location w.entities f
    → ((l : Location)
        → get_location w.entities f ≡ some l
        → row_at t.archetypes l ≡ row_at w.archetypes l)
    → row_of t f ≡ row_of w f
same_rows-row_of w t f same rows = elim (Option-cases (get_location w.entities f)) [
  | inl nowhere_at ↦ row_of-none t f (same ∙ nowhere_at) ∙ sym (row_of-none w f nowhere_at)
  | inr (l, g) ↦ row_of-at t f (same ∙ g) ∙ rows l g ∙ sym (row_of-at w f g)
]
