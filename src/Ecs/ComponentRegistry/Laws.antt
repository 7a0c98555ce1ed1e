-- ===== src/Ecs/ComponentRegistry/Laws.antt =====
-- ComponentRegistry.cpp: registering a type and looking it up.
use oyi_engine.Prelude.{
  ℕ, zero, suc, ◌≤◌, ◌<◌, ◌≡◌, refl, sym, ap, ◌∙◌, ◌≢◌, ◌⊎◌, inl, inr, none, some, some-injective,
  subst, [], ◌∷◌, ◌++◌, ltb, ◌==◌, if◌then◌else◌, length, get_elem?, get_elem?-push, length-append,
  ok, fail, invalid_argument, already_exists, out_of_range, Bool-cases, Option-cases, ==_iff, arith,
}
use oyi_engine.Ecs.ComponentRegistry.{Info, Infos, max_types, find, register, same_layout}

-- Every index is found under the `TypeId` of its info, so that no `TypeId` is registered twice; the
-- infos have an id and there are at most 256.
pub record IsValid (infos : Infos) : Type 0 where
  pub few : length infos ≤ max_types
  pub found :
      (i : ℕ) (info : Info)
      → get_elem? infos i ≡ some info
      → (find infos info.type_id ≡ some i) × (info.type_id ≢ 0)

pub find-get :
    (infos : Infos) (type_id i : ℕ)
    → find infos type_id ≡ some i
    → (info : Info) × (get_elem? infos i ≡ some info) × (info.type_id ≡ type_id)
unfolding find
find-get [] t i h = cc
find-get (x ∷ infos) t zero h = (x, refl, ground arith)
find-get (x ∷ infos) t (suc i) h = find-get infos t i (ground arith)

pub find-push :
    (infos : Infos) (info : Info) (type_id : ℕ)
    → find (infos ++ info ∷ []) type_id ≡ elim (find infos type_id) [
      | some i ↦ some i
      | none ↦ if info.type_id == type_id then some (length infos) else none
    ]
unfolding find
find-push [] info t = ground arith
find-push (x ∷ infos) info t = ground (arith, find-push infos info t)

find-some-push :
    (infos : Infos) (info : Info) (type_id i : ℕ)
    → find infos type_id ≡ some i
    → find (infos ++ info ∷ []) type_id ≡ some i
find-some-push infos info t i h = ground (arith, find-push infos info t, h)

find-pushed :
    (infos : Infos) (info : Info) (t : ℕ)
    → find infos info.type_id ≡ none
    → find (infos ++ info ∷ []) t
      ≡ (if info.type_id == t then some (length infos) else find infos t)
find-pushed infos info t new = elim (Bool-cases (info.type_id == t)) [
  | inl same ↦
      let absent : find infos t ≡ none =
        ap (find infos) (sym ((==_iff info.type_id t).0 same)) ∙ new in
      ground (arith, find-push infos info t, absent, same)
  | inr other ↦ elim (Option-cases (find infos t)) [
    | inl absent ↦ ground (arith, find-push infos info t, absent, other)
    | inr (i, e) ↦ ground (arith, find-push infos info t, e, other)
  ]
]

push-IsValid :
    (infos : Infos) (info : Info)
    → IsValid infos
    → find infos info.type_id ≡ none
    → info.type_id ≢ 0
    → length infos < max_types
    → IsValid (infos ++ info ∷ [])
push-IsValid infos info v new id room = record {
  few = omega (arith, length-append infos (info ∷ []));
  found = λ i known h. elim (Bool-cases (length infos == i)) [
    | inl end ↦
        let same : info ≡ known =
          some-injective info known (ground (arith, h, get_elem?-push infos info i, end)) in
        subst (λ (k : Info). (find (infos ++ info ∷ []) k.type_id ≡ some i) × (k.type_id ≢ 0)) same
          (ground (arith, find-push infos info info.type_id, new, end), id)
    | inr other ↦
        let old = v.found i known (ground (arith, h, get_elem?-push infos info i, other)) in
        (find-some-push infos info known.type_id i old.0, old.1)
  ];
}

-- `Register` of an info without a `TypeId` fails with InvalidArgument. A `TypeId` that is known
-- gives its index and changes nothing if the layout hash is the one registered, and fails with
-- AlreadyExists if it is not. A new one fails with OutOfRange if there are 256 types, and otherwise
-- takes the next index; the registry stays valid, and `Find` gives the new index for it and for
-- every other `TypeId` what it gave before.
pub register_refines :
    (infos : Infos) (info : Info)
    → IsValid infos
    → ((info.type_id ≡ 0) × (register infos info ≡ fail invalid_argument))
      ⊎ ((i : ℕ) × (known : Info) × (find infos info.type_id ≡ some i)
          × (get_elem? infos i ≡ some known)
          × (((known.layout_hash ≡ info.layout_hash) × (register infos info ≡ ok (i, infos)))
              ⊎ ((known.layout_hash ≢ info.layout_hash)
                  × (register infos info ≡ fail already_exists))))
      ⊎ ((find infos info.type_id ≡ none)
          × (length infos ≡ max_types)
          × (register infos info ≡ fail out_of_range))
      ⊎ ((after : Infos) × (register infos info ≡ ok (length infos, after))
          × IsValid after
          × (get_elem? after (length infos) ≡ some info)
          × ((type_id : ℕ)
              → find after type_id
                ≡ (if info.type_id == type_id then some (length infos) else find infos type_id)))
unfolding register same_layout
register_refines infos info v = elim (Bool-cases (info.type_id == 0)) [
  | inl zero_id ↦ inl (ground (arith, zero_id), rw (zero_id, register) refl)
  | inr id ↦ inr (elim (Option-cases (find infos info.type_id)) [
    | inr (i, e) ↦
        let (known, there, same) = find-get infos info.type_id i e in
        inl (
          i,
          known,
          e,
          there,
          elim (Bool-cases (known.layout_hash == info.layout_hash)) [
            | inl equal ↦ inl (
              ground (arith, equal),
              rw (id, register) (rw e (rw (there, same_layout) (rw equal refl))),
            )
            | inr differs ↦ inr (
              ground (arith, differs),
              rw (id, register) (rw e (rw (there, same_layout) (rw differs refl))),
            )
          ],
        )
    | inl new ↦ inr (elim (Bool-cases (ltb (length infos) max_types)) [
      | inl room ↦ inr (
        infos ++ info ∷ [],
        rw (id, register) (rw new (rw room refl)),
        push-IsValid infos info v new (ground (arith, id)) (ground (arith, room)),
        ground (arith, get_elem?-push infos info (length infos)),
        λ t. find-pushed infos info t new,
      )
      | inr full ↦ inl (new, ground (arith, full, v.few), rw (id, register) (rw new (rw full refl)))
    ])
  ])
]
