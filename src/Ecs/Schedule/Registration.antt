-- ===== src/Ecs/Schedule/Registration.antt =====
-- Schedule.cpp: what registration keeps, so that `Build` may rely on it.
use oyi_engine.Prelude.{
  ℕ, ◌<◌, ◌≡◌, refl, sym, ap, subst, ◌∙◌, Bool, true, false, not, ◌||◌, List, [], ◌∷◌, ◌++◌, some,
  ◌==◌, if◌then◌else◌, ltb, leb, length, get_elem?, get_elem?-push, get_elem?-set, get_elem?-lt,
  set, count, arith, Option-cases, inl, inr, Expected,
}
use oyi_engine.Ecs.ComponentMask.{Mask}
use oyi_engine.Ecs.Schedule.{
  System, SystemDesc, Schedule, predecessors, in_phase, new_system, is_empty, add_system,
  set_rate_divisor, add_order, add_predecessor, phase_count, presentation, empty_schedule,
}
use oyi_engine.Ecs.Schedule.Sort.Result.{IsWired}
use oyi_engine.Ecs.Schedule.Build.{build}
use oyi_engine.Ecs.Schedule.Build.Edges.{add_predecessor-in_phase, count-add_predecessor}
use oyi_engine.Ecs.Schedule.Build.Rank.{IsPhased}
use oyi_engine.Ecs.Schedule.Build.Result.{Builds, build_refines}

pub record IsRegistered (s : Schedule) : Type 0 where
  pub wired : IsWired s.systems
  pub phased : IsPhased s.systems
  pub sized : length s.order ≡ phase_count
  pub open_yet : s.built ≡ false

in_phase-lt :
    (systems : List System) (phase s : ℕ) → in_phase systems phase s ≡ true → s < length systems
unfolding in_phase
in_phase-lt systems phase s h = elim (Option-cases (get_elem? systems s)) [
  | inl e ↦ ground arith
  | inr (r, e) ↦ get_elem?-lt systems s e
]

in_phase_unique :
    (systems : List System) (i j s : ℕ)
    → in_phase systems i s ≡ true
    → in_phase systems j s ≡ true
    → i ≡ j
unfolding in_phase
in_phase_unique systems i j s h k = elim (Option-cases (get_elem? systems s)) [
  | inl e ↦ ground arith
  | inr (r, e) ↦ ground arith
]

in_phase-push :
    (systems : List System) (r : System) (phase s : ℕ)
    → in_phase (systems ++ r ∷ []) phase s
      ≡ (if length systems == s then r.desc.phase == phase else in_phase systems phase s)
unfolding in_phase
in_phase-push systems r phase s = elim (Option-cases (get_elem? systems s)) [
  | inl e ↦ ground (arith, get_elem?-push systems r s)
  | inr (t, e) ↦ ground (arith, get_elem?-push systems r s)
]

predecessors-push :
    (systems : List System) (r : System) (s : ℕ)
    → predecessors (systems ++ r ∷ []) s
      ≡ (if length systems == s then r.predecessors else predecessors systems s)
unfolding predecessors
predecessors-push systems r s = elim (Option-cases (get_elem? systems s)) [
  | inl e ↦ ground (arith, get_elem?-push systems r s)
  | inr (t, e) ↦ ground (arith, get_elem?-push systems r s)
]

push-IsWired :
    (systems : List System) (r : System)
    → r.predecessors ≡ []
    → IsWired systems
    → IsWired (systems ++ r ∷ [])
push-IsWired systems r e v phase a b edge h = ground (
  arith,
  ap (count a) (predecessors-push systems r b),
  in_phase-push systems r phase a,
  in_phase-push systems r phase b,
  v phase a b,
  in_phase-lt systems phase a,
  ap (count a) e,
)

push-IsPhased :
    (systems : List System) (r : System)
    → r.desc.phase < phase_count
    → IsPhased systems
    → IsPhased (systems ++ r ∷ [])
push-IsPhased systems r small v phase s h =
    ground (arith, in_phase-push systems r phase s, v phase s)

if-IsRegistered :
    {E : Type 0} (b : Bool) (x y : E × Schedule)
    → IsRegistered x.1
    → (b ≡ false → IsRegistered y.1)
    → IsRegistered (if b then x else y).1
if-IsRegistered true x y h k = h
if-IsRegistered false x y h k = k refl

pub add_system-IsRegistered :
    (s : Schedule) (desc : SystemDesc) (kinds : ℕ)
    → IsRegistered s
    → IsRegistered (add_system s desc kinds).1
unfolding add_system new_system
add_system-IsRegistered s desc kinds v = if-IsRegistered s.built _ _ v λ _.
    if-IsRegistered (is_empty desc.name || desc.function == 0) _ _ v λ _.
      if-IsRegistered (leb phase_count desc.phase) _ _ v λ small. record {
        wired = push-IsWired s.systems (new_system desc kinds) refl v.wired;
        phased = push-IsPhased s.systems (new_system desc kinds) (ground arith) v.phased;
        sized = v.sized;
        open_yet = v.open_yet;
      }

-- An edge between two systems of one phase.
add_predecessor-IsWired :
    (systems : List System) (before after : ℕ) (b a : System)
    → get_elem? systems before ≡ some b
    → get_elem? systems after ≡ some a
    → b.desc.phase ≡ a.desc.phase
    → IsWired systems
    → IsWired (add_predecessor systems before after)
unfolding in_phase
add_predecessor-IsWired systems before after b a found_b found_a same v phase x y edge h = ground (
  arith,
  count-add_predecessor systems before after x y (get_elem?-lt systems after found_a),
  add_predecessor-in_phase systems before after phase x,
  add_predecessor-in_phase systems before after phase y,
  v phase x y,
)

add_predecessor-IsPhased :
    (systems : List System) (before after : ℕ)
    → IsPhased systems
    → IsPhased (add_predecessor systems before after)
add_predecessor-IsPhased systems before after v phase s h =
    v phase s (sym (add_predecessor-in_phase systems before after phase s) ∙ h)

pub add_order-IsRegistered :
    (s : Schedule) (before after : ℕ) → IsRegistered s → IsRegistered (add_order s before after).1
unfolding add_order
add_order-IsRegistered s before after v = if-IsRegistered s.built _ _ v λ _.
    elim (Option-cases (get_elem? s.systems before)) [
      | inl e ↦ rw (e, add_order) v
      | inr (b, found_b) ↦ elim (Option-cases (get_elem? s.systems after)) [
        | inl e ↦ rw (found_b, e, add_order) v
        | inr (a, found_a) ↦
            rw (found_b, found_a, add_order)
              (if-IsRegistered (before == after) _ _ v λ _.
                if-IsRegistered (not (b.desc.phase == a.desc.phase)) _ _ v λ same. record {
                  wired =
                      add_predecessor-IsWired s.systems before after b a found_b found_a
                        (ground arith) v.wired;
                  phased = add_predecessor-IsPhased s.systems before after v.phased;
                  sized = v.sized;
                  open_yet = v.open_yet;
                })
      ]
    ]

module _ (systems : List System) (i d : ℕ) (r : System) (found : get_elem? systems i ≡ some r) where
  abbrev slowed : List System
  slowed = set systems i (record r { rate_divisor = d })

  slowed-in_phase : (phase s : ℕ) → in_phase slowed phase s ≡ in_phase systems phase s
  unfolding in_phase
  slowed-in_phase phase s = ground (
    arith,
    get_elem?-set systems i s (record r { rate_divisor = d }) (get_elem?-lt systems i found),
  )

  slowed-predecessors : (s : ℕ) → predecessors slowed s ≡ predecessors systems s
  unfolding predecessors
  slowed-predecessors s = ground (
    arith,
    get_elem?-set systems i s (record r { rate_divisor = d }) (get_elem?-lt systems i found),
  )

  slowed-IsWired : IsWired systems → IsWired slowed
  slowed-IsWired v phase a b edge h =
      slowed-in_phase phase a
      ∙ v phase a b (subst (λ ps. 0 < count a ps) (slowed-predecessors b) edge)
          (sym (slowed-in_phase phase b) ∙ h)

pub set_rate_divisor-IsRegistered :
    (s : Schedule) (system divisor : ℕ)
    → IsRegistered s
    → IsRegistered (set_rate_divisor s system divisor).1
unfolding set_rate_divisor
set_rate_divisor-IsRegistered s system divisor v =
    elim (Option-cases (get_elem? s.systems system)) [
      | inl e ↦ rw (e, set_rate_divisor) v
      | inr (r, e) ↦
          rw (e, set_rate_divisor)
            (if-IsRegistered (divisor == 0) _ _ v λ _.
              if-IsRegistered (ltb r.desc.phase presentation) _ _ v λ _. record {
                wired = slowed-IsWired s.systems system divisor r e v.wired;
                phased = λ phase x h.
                    v.phased phase x
                      (sym (slowed-in_phase s.systems system divisor r e phase x) ∙ h);
                sized = v.sized;
                open_yet = v.open_yet;
              })
    ]

-- The calls that register systems and order.
pub data Registration : Type 0 where
  system : SystemDesc → ℕ → Registration
  order_edge : ℕ → ℕ → Registration
  divisor : ℕ → ℕ → Registration

unfoldable pub register : Schedule → Registration → Schedule
register s (system desc kinds) = (add_system s desc kinds).1
register s (order_edge before after) = (add_order s before after).1
register s (divisor of by) = (set_rate_divisor s of by).1

unfoldable pub register_all : Schedule → List Registration → Schedule
unfolding register
register_all s [] = s
register_all s (r ∷ rs) = register_all (register s r) rs

register-IsRegistered :
    (s : Schedule) (r : Registration) → IsRegistered s → IsRegistered (register s r)
unfolding register
register-IsRegistered s (system desc kinds) v = add_system-IsRegistered s desc kinds v
register-IsRegistered s (order_edge before after) v = add_order-IsRegistered s before after v
register-IsRegistered s (divisor of by) v = set_rate_divisor-IsRegistered s of by v

register_all-IsRegistered :
    (s : Schedule) (rs : List Registration) → IsRegistered s → IsRegistered (register_all s rs)
unfolding register_all
register_all-IsRegistered s [] v = v
register_all-IsRegistered s (r ∷ rs) v =
    register_all-IsRegistered (register s r) rs (register-IsRegistered s r v)

empty_schedule-IsRegistered : IsRegistered empty_schedule
unfolding empty_schedule predecessors in_phase
empty_schedule-IsRegistered = record {
  wired = λ phase a b edge h. absurd (omega (arith, edge));
  phased = λ phase s h. cc;
  sized = refl;
  open_yet = refl;
}

-- Whatever was registered, in any order and with any arguments, `Build` ends, and its outcome is one
-- of three. Either it succeeds: then the schedule is built, and the order of each phase holds each
-- system of the phase that the world includes exactly once, after all of its predecessors, and of
-- two systems in it that touch the same component or resource, one writing, the earlier is joined to
-- the later by a chain of order edges. Or there is a cycle: then no numbering of the systems grows
-- along the order edges, and no order is left. Or two included systems of one phase, which
-- `mLastConflict` names, touch the same component or resource, one writing, and no chain of order
-- edges joins them in either direction; then no order is left. No order edge is lost, no description
-- of a system changes, and every edge that the schedule adds by itself is between systems that touch
-- the same automatically ordered resource, one writing. Such edges never close a cycle.
pub build-register_all :
    (kind : ℕ) (automatic : Mask) (rs : List Registration)
    → (r : Expected (Unit {0})) × (u : Schedule) × (build kind automatic
          (register_all empty_schedule rs)
        ≡ some (r, u))
      × Builds kind automatic (register_all empty_schedule rs) u r
build-register_all kind automatic rs =
    let s = register_all empty_schedule rs in
    let v = register_all-IsRegistered empty_schedule rs empty_schedule-IsRegistered in
    build_refines kind automatic s v.open_yet v.wired v.phased v.sized
