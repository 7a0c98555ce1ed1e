-- ===== src/Ecs/World/Create.antt =====
-- World.cpp: `CreateEntityIn`, which `CreateEntity` and `CreatePrototype` call.
use oyi_engine.Prelude.{ℕ, ◌≡◌, sym, subst, true, false, some, if◌then◌else◌, get_elem?, set}
use oyi_engine.Core.Handle
use oyi_engine.Core.Handle.{Handle}
use oyi_engine.Ecs.EntityRegistry
use oyi_engine.Ecs.EntityRegistry.{Registry, nowhere, is_alive, get_location, set_location}
use oyi_engine.Ecs.EntityRegistry.Invariant as registry
use oyi_engine.Ecs.Archetype
use oyi_engine.Ecs.Archetype.{Archetype, row_in}
use oyi_engine.Ecs.World.{World, no_mark, remember_mark}
use oyi_engine.Ecs.World.Components.{row_of}
use oyi_engine.Ecs.World.Agreement.{true-false, not_true}
use oyi_engine.Ecs.World.Invariant.{IsValid}
use oyi_engine.Ecs.ChunkLayout
use oyi_engine.Ecs.World.Layouts.{equal→eq}

-- Every entity but `e` is as alive as it was, and has the row that it had.
abbrev pub Keeps : World → World → (Handle → Type 0) → Type 0
Keeps w t P =
    (f : Handle) → P f → (is_alive t.entities f ≡ is_alive w.entities f) × (row_of t f ≡ row_of w f)

placed_world : World → ℕ → Archetype → Registry → Handle → World
unfolding remember_mark
placed_world w i b entities e = record w {
  entities = entities;
  archetypes = set w.archetypes i b;
  marks = remember_mark w.marks e.index no_mark;
}

module _ (w : World) (i : ℕ) (a : Archetype) (e : Handle) (entities : Registry) (v : IsValid w)
    (found : get_elem? w.archetypes i ≡ some a)
    (created : EntityRegistry.create w.entities ≡ some (e, entities))
    (valid : registry.IsValid entities) (was_dead : is_alive w.entities e ≡ false)
    (now_alive : is_alive entities e ≡ true)
    (locations : (f : Handle)
      → get_location entities f
        ≡ (if Handle.equal e f then some nowhere else get_location w.entities f)) where
  -- A handle that is alive in the world is not the new one.
  old-other : (f : Handle) → is_alive w.entities f ≡ true → Handle.equal e f ≡ false
  old-other f alive = not_true λ h.
      true-false (subst (λ x. is_alive w.entities x ≡ true) (sym (Handle.equal→eq e f h)) alive)
        was_dead
