-- ===== src/Ecs/World/Destroy.antt =====
-- World.cpp: `DestroyEntity`.
use oyi_engine.Prelude.{
  ◌≡◌, refl, sym, ap, subst, ◌∙◌, inl, inr, Bool, true, false, not, ◌&&◌, none, some,
  some-injective, List, if◌then◌else◌, Bool-cases, ok,
}
use oyi_engine.Core.Handle
use oyi_engine.Core.Handle.{Handle}
use oyi_engine.Ecs.EntityRegistry
use oyi_engine.Ecs.EntityRegistry.{Location, Registry, is_alive, get_location, set_location}
use oyi_engine.Ecs.EntityRegistry.Frame.{
  destroy_refines, alive-get_location, get_location-alive, dead-get_location,
}
use oyi_engine.Ecs.Archetype.{Archetype, Row}
use oyi_engine.Ecs.World.{World, no_mark, remember_mark, remove_row, destroy_at, destroy_entity}
use oyi_engine.Ecs.World.Components.{row_of}
use oyi_engine.Ecs.World.Agreement.{
  same_place, same_place_refl, same_place→eq, location_after, entity_after, Agree-after, Agree-same,
  same_entity, true-false, none-some, not_true, same_place_flip, if_true, if_false, and_true,
}
use oyi_engine.Ecs.World.Invariant.{
  row_at, entity_of, entity_at, IsValid, Cut, remove_row-Cut, row_of-at, row_of-none,
}

entity_of-after :
    (archetypes : List Archetype) (at last l : Location) (row : Row)
    → entity_of (
        if same_place last l
        then none
        else if same_place at l
        then some row
        else row_at archetypes l)
      ≡ entity_after (entity_at archetypes) at row.entity last l
entity_of-after archetypes at last l row = elim (Bool-cases (same_place last l)) [
  | inl q ↦ rw q refl
  | inr q ↦ elim (Bool-cases (same_place at l)) [ inl p ↦ rw (q, p) refl | inr p ↦ rw (q, p) refl ]
]

-- The world after `RemoveRow` and the burial of the entity.
buried_world : World → Registry → Handle → World
unfolding remember_mark
buried_world t entities e = record t {
  entities = entities;
  marks = remember_mark t.marks e.index no_mark;
}

destroy-step :
    (w : World) (e : Handle) (at : Location) (t : World) (entities : Registry)
    → is_alive w.entities e ≡ true
    → get_location w.entities e ≡ some at
    → remove_row w at ≡ some t
    → EntityRegistry.destroy t.entities e ≡ some entities
    → destroy_entity w e ≡ some (ok tt, buried_world t entities e)
unfolding destroy_entity destroy_at buried_world
destroy-step w e at t entities alive here cut buried =
    rw (alive, destroy_entity) (rw here (rw (cut, destroy_at) (rw buried refl)))

and_parts : (a b : Bool) → (not a && b) ≡ true → (a ≡ false) × (b ≡ true)
and_parts true b h = cc
and_parts false b h = (refl, h)

-- The row of an entity other than `e` after the removal.
module _ (w : World) (e : Handle) (at : Location) (t : World) (v : IsValid w)
    (here : get_location w.entities e ≡ some at) (c : Cut w e at t) where
  -- An entity that does not fill the hole keeps its place and row.
  row_kept :
      (f : Handle) (l : Location)
      → Handle.equal e f ≡ false
      → (not (same_place at c.last) && Handle.equal c.last_row.entity f) ≡ false
      → get_location w.entities f ≡ some l
      → (l' : Location) × (get_location t.entities f ≡ some l')
        × (row_at t.archetypes l' ≡ row_at w.archetypes l)
  row_kept f l other stays g =
      let agree = v.agree in
      let same =
        same_entity (get_location w.entities) (entity_at w.archetypes) agree e c.last_row.entity at
          c.last here c.end in
      let there = (agree f l).0 g in
      let off : same_place at l ≡ false =
        not_true λ p. true-false (same e f at l ((agree e at).0 here) there p) other in
      let not_last : same_place c.last l ≡ false = not_true λ q.
        let is_m =
          same c.last_row.entity f c.last l ((agree c.last_row.entity c.last).0 c.end) there q in
        let met : same_place at c.last ≡ true = elim (Bool-cases (same_place at c.last)) [
          | inl a ↦ a
          | inr a ↦ absurd (true-false (and_true a is_m) stays)
        ] in
        true-false (subst (λ x. same_place at x ≡ true) (same_place→eq c.last l q) met) off in
      (l, c.locations f ∙ if_false _ stays g, c.rows l ∙ if_false _ not_last (if_false _ off refl))

  row_after :
      (f : Handle) (l : Location)
      → Handle.equal e f ≡ false
      → get_location w.entities f ≡ some l
      → (l' : Location) × (get_location t.entities f ≡ some l')
        × (row_at t.archetypes l' ≡ row_at w.archetypes l)
  row_after f l other g =
      elim (Bool-cases (not (same_place at c.last) && Handle.equal c.last_row.entity f)) [
        | inr stays ↦ row_kept f l other stays g
        | inl moves ↦
            let apart : same_place at c.last ≡ false =
              (and_parts (same_place at c.last) _ moves).0 in
            let is_m : Handle.equal c.last_row.entity f ≡ true =
              (and_parts (same_place at c.last) _ moves).1 in
            let was : l ≡ c.last = some-injective l c.last (
              sym g
              ∙ ap (get_location w.entities) (sym (Handle.equal→eq c.last_row.entity f is_m))
              ∙ c.end) in
            (
              at,
              c.locations f ∙ if_true _ moves refl,
              c.rows at
                  ∙ if_false _ (same_place_flip at c.last apart)
                      (if_true _ (same_place_refl at) refl)
                  ∙ sym c.was_there
                  ∙ ap (row_at w.archetypes) (sym was),
            )
      ]

  others :
      (entities : Registry)
      → ((f : Handle)
          → get_location entities f
            ≡ (if Handle.equal e f then none else get_location t.entities f))
      → (f : Handle) → Handle.equal e f ≡ false
      → (is_alive entities f ≡ is_alive w.entities f)
        × (row_of (buried_world t entities e) f ≡ row_of w f)
  unfolding buried_world
  others entities locations f other =
      let same = locations f ∙ if_false none other refl in
      elim (Bool-cases (is_alive w.entities f)) [
        | inl alive ↦
            let (l, g) = alive-get_location w.entities f alive in
            let (l', moved, row) = row_after f l other g in
            (
              get_location-alive entities f (same ∙ moved) ∙ sym alive,
              row_of-at (buried_world t entities e) f (same ∙ moved) ∙ row ∙ sym (row_of-at w f g),
            )
        | inr dead ↦
            let none_left = same ∙ dead-get_location t.entities f (c.same_alive f ∙ dead) in
            (
              not_true (λ y. none-some (sym none_left ∙ (alive-get_location entities f y).1))
                  ∙ sym dead,
              row_of-none (buried_world t entities e) f none_left
                  ∙ sym (row_of-none w f (dead-get_location w.entities f dead)),
            )
      ]

without_old :
    (w t : World) (e : Handle)
    → is_alive t.entities e ≡ false
    → row_of t e ≡ none
    → ((f : Handle)
        → Handle.equal e f ≡ false
        → (is_alive t.entities f ≡ is_alive w.entities f) × (row_of t f ≡ row_of w f))
    → (f : Handle)
    → (is_alive t.entities f ≡ (if Handle.equal e f then false else is_alive w.entities f))
      × (row_of t f ≡ (if Handle.equal e f then none else row_of w f))
without_old w t e dead gone keeps f = elim (Bool-cases (Handle.equal e f)) [
  | inl same ↦ rw same (
      subst (λ x. (is_alive t.entities x ≡ false) × (row_of t x ≡ none)) (Handle.equal→eq e f same)
        (dead, gone))
  | inr other ↦ rw other (keeps f other)
]

-- `DestroyEntity` of an entity that is alive in a valid world succeeds and leaves a valid world: the
-- entity is dead and has no row, every other entity is as alive as it was and has the same row, that
-- is, the same value in every component and the same enable bits, even if its row has moved.
pub destroy_entity_refines :
    (w : World) (e : Handle)
    → IsValid w
    → is_alive w.entities e ≡ true
    → (t : World) × (destroy_entity w e ≡ some (ok tt, t))
      × IsValid t
      × ((f : Handle)
          → (is_alive t.entities f ≡ (if Handle.equal e f then false else is_alive w.entities f))
            × (row_of t f ≡ (if Handle.equal e f then none else row_of w f)))
unfolding buried_world
destroy_entity_refines w e v alive =
    let (at, here) = alive-get_location w.entities e alive in
    let (cut_world, cut_eq, c) = remove_row-Cut w e at v here in
    let (entities, buried, valid, dead, count, locations) =
      destroy_refines cut_world.entities e c.registry (c.same_alive e ∙ alive) in
    let t = buried_world cut_world entities e in
    let location : (f : Handle)
        → get_location entities f
          ≡ location_after (get_location w.entities) e at c.last_row.entity c.last f =
      λ f. locations f ∙ ap (λ o. if Handle.equal e f then none else o) (c.locations f) in
    let entity : (l : Location)
        → entity_at cut_world.archetypes l
          ≡ entity_after (entity_at w.archetypes) at c.last_row.entity c.last l =
      λ l. ap entity_of (c.rows l) ∙ entity_of-after w.archetypes at c.last l c.last_row in
    (
      t,
      destroy-step w e at cut_world entities alive here cut_eq buried,
      record {
        registry = valid;
        archetypes = c.archetypes;
        agree =
            Agree-same
              (Agree-after (get_location w.entities) (entity_at w.archetypes) v.agree e
                c.last_row.entity at c.last here c.end)
              location entity;
      },
      without_old w t e dead (row_of-none t e (dead-get_location entities e dead))
          (others w e at cut_world v here c entities locations),
    )
