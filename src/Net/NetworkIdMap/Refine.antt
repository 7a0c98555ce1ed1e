-- ===== src/Net/NetworkIdMap/Refine.antt =====
-- NetworkId.cpp as a partial bijection between ids and entities: what each operation does to every
-- id, on every branch.
use oyi_engine.Prelude.{
  ℕ, ◌+◌, ◌-◌, ◌%◌, ◌≤◌, ◌<◌, max, ◌≡◌, refl, sym, ◌∙◌, ◌≢◌, ◌↔◌, ◌⊎◌, inl, inr, true, false, not,
  ◌||◌, List, [], ◌∷◌, ◌++◌, ◌==◌, if◌then◌else◌, length, get_elem?, All, All-append, length-append,
  ok, fail, already_exists, invalid_argument, Bool-cases, Option-cases, All-get, ==_iff, arith,
}
use oyi_engine.Core.Handle
use oyi_engine.Core.Handle.{Handle}
use oyi_engine.Net.NetworkIdMap.{
  word, Pair, IdMap, lower_bound, insert_at, erase_at, resolve_in, resolve, find, assign, bind,
  is_id, release,
}
use oyi_engine.Net.NetworkIdMap.Invariant.{
  Above, HasEntity, IsValid, resolve_in-cons, resolve_in-nil, resolve_in-insert, resolve_in-push,
  resolve_in-erase, resolve_in-find_in, find_in-resolve_in, length-insert_at, All-insert_at,
  All-erase_at, Above-insert, Above-push, Above-erase_at, Distinct-insert_at, Distinct-erase_at,
  push-insert_at, absent_id, absent-resolve_in, length-erase,
}

-- In a valid map the two directions agree: an entity is found under an id exactly if the id
-- resolves to the entity.
pub resolve_iff_find :
    (m : IdMap) (id : ℕ) (e : Handle)
    → IsValid m
    → Handle.is_valid e ≡ true
    → id ≢ 0
    → (find m e ≡ id) ↔ (resolve m id ≡ e)
unfolding resolve find
resolve_iff_find m id e v valid ne = (
  λ h. rw (← h) (resolve_in-find_in 0 m.pairs e v.sorted (λ z. ne (sym h ∙ z))),
  λ h. rw (← h) (find_in-resolve_in 0 m.pairs id v.sorted v.distinct (rw h valid)),
)

All-below_mono :
    (n n' : ℕ) (ps : List Pair)
    → n ≤ n'
    → All (λ (p : Pair). p.id < n) ps
    → All (λ (p : Pair). p.id < n') ps
All-below_mono n n' [] le h = tt
All-below_mono n n' (p ∷ ps) le h = (omega arith, All-below_mono n n' ps le h.1)

length-below :
    (k n : ℕ) (ps : List Pair)
    → Above k ps
    → All (λ (p : Pair). p.id < n) ps
    → length ps ≡ 0 ⊎ (length ps + k < n)
length-below k n [] a b = inl refl
length-below k n (p ∷ ps) a b = inr (ground (arith, length-below p.id n ps a.1 b.1))

resolve_in-below :
    (ps : List Pair) (n : ℕ) → All (λ (p : Pair). p.id < n) ps → resolve_in ps n ≡ Handle.invalid
resolve_in-below [] n h = resolve_in-nil n
resolve_in-below (p ∷ ps) n h = ground (arith, resolve_in-cons p ps n, resolve_in-below ps n h.1)

-- `n` is `m` with the new id `id` bound to `e`, and it is valid.
pub record Binds (m : IdMap) (id : ℕ) (e : Handle) (n : IdMap) : Type 0 where
  pub valid : IsValid n
  pub was_free : resolve m id ≡ Handle.invalid
  pub resolves : (j : ℕ) → resolve n j ≡ (if j == id then e else resolve m j)

assigned : IdMap → Handle → IdMap
assigned m e = record {
  pairs = m.pairs ++ record { id = m.next_id; entity = e } ∷ [];
  next_id = (m.next_id + 1) % word;
  count = (m.count + 1) % word;
}

assigned-Binds :
    (m : IdMap) (e : Handle)
    → IsValid m
    → Handle.is_valid e ≡ true
    → m.next_id + 1 < word
    → find m e ≡ 0
    → Binds m m.next_id e (assigned m e)
unfolding assigned resolve find
assigned-Binds m e v valid room new = record {
  valid = record {
    sorted = Above-push 0 pair m.pairs v.sorted v.next_pos v.below;
    below =
        All-append (λ (p : Pair). p.id < (m.next_id + 1) % word) m.pairs (pair ∷ [])
          (All-below_mono m.next_id _ m.pairs (omega arith) v.below) (omega arith);
    entities = All-append HasEntity m.pairs (pair ∷ []) v.entities (valid, tt);
    distinct =
        push-insert_at m.pairs pair
          (Distinct-insert_at 0 (length m.pairs) pair m.pairs v.sorted v.distinct new);
    counted = omega (
      arith,
      v.counted,
      length-append m.pairs (pair ∷ []),
      length-below 0 m.next_id m.pairs v.sorted v.below,
    );
    next_pos = omega (arith, v.next_pos);
    next_word = omega arith;
  };
  was_free = resolve_in-below m.pairs m.next_id v.below;
  resolves = λ j. resolve_in-push m.pairs m.next_id j e v.below;
}
  where
    pair : Pair
    pair = record { id = m.next_id; entity = e }

-- `Assign` of a valid entity, while ids are left: an entity that has an id fails with AlreadyExists;
-- any other gets the next id, which resolved to nothing and now resolves to the entity, while no
-- other id changes and the map stays valid.
pub assign_refines :
    (m : IdMap) (e : Handle)
    → IsValid m
    → Handle.is_valid e ≡ true
    → m.next_id + 1 < word
    → ((find m e ≢ 0) × (assign m e ≡ fail already_exists))
      ⊎ ((n : IdMap) × (assign m e ≡ ok (m.next_id, n)) × (find m e ≡ 0) × Binds m m.next_id e n)
unfolding assign assigned
assign_refines m e v valid room = elim (Bool-cases (find m e == 0)) [
  | inr old ↦ inl (ground (arith, old), rw (old, assign) refl)
  | inl new ↦
      let none_yet : find m e ≡ 0 = (==_iff _ _).0 new in
      inr (assigned m e, rw (new, assign) refl, none_yet, assigned-Binds m e v valid room none_yet)
]

-- What `Bind` builds on success.
bound : IdMap → ℕ → Handle → IdMap
bound m id e = record {
  pairs = insert_at (lower_bound id m.pairs) (record { id = id; entity = e }) m.pairs;
  next_id = max m.next_id ((id + 1) % word);
  count = (m.count + 1) % word;
}

bound-Binds :
    (m : IdMap) (id : ℕ) (e : Handle)
    → IsValid m
    → Handle.is_valid e ≡ true
    → 0 < id
    → id + 1 < word
    → find m e ≡ 0
    → Handle.is_valid (resolve m id) ≡ false
    → Binds m id e (bound m id e)
unfolding bound resolve find
bound-Binds m id e v valid pos small new free = record {
  valid = record {
    sorted = Above-insert 0 id e m.pairs v.sorted pos absent;
    below =
        All-insert_at (λ (p : Pair). p.id < max m.next_id ((id + 1) % word)) at pair m.pairs
          (omega arith) (All-below_mono m.next_id _ m.pairs (omega arith) v.below);
    entities = All-insert_at HasEntity at pair m.pairs valid v.entities;
    distinct = Distinct-insert_at 0 at pair m.pairs v.sorted v.distinct new;
    counted = omega (
      arith,
      v.counted,
      v.next_word,
      length-insert_at at pair m.pairs,
      length-below 0 m.next_id m.pairs v.sorted v.below,
    );
    next_pos = omega (arith, v.next_pos);
    next_word = omega (arith, v.next_word);
  };
  was_free = absent-resolve_in m.pairs id absent;
  resolves = λ j. resolve_in-insert m.pairs id j e;
}
  where
    at : ℕ
    at = lower_bound id m.pairs

    pair : Pair
    pair = record { id = id; entity = e }

    absent : is_id id (get_elem? m.pairs (lower_bound id m.pairs)) ≡ false
    absent = absent_id m.pairs id v.entities free

-- `Bind` of a valid entity: id zero fails with InvalidArgument; an id or an entity that is bound
-- fails with AlreadyExists; any other id below the last 32-bit value is bound to the entity, no
-- other id changes, the map stays valid, and `Assign` will not hand the id out.
pub bind_refines :
    (m : IdMap) (id : ℕ) (e : Handle)
    → IsValid m
    → Handle.is_valid e ≡ true
    → id + 1 < word
    → ((id ≡ 0) × (bind m id e ≡ fail invalid_argument))
      ⊎ ((id ≢ 0)
          × ((Handle.is_valid (resolve m id) ≡ true) ⊎ (find m e ≢ 0))
          × (bind m id e ≡ fail already_exists))
      ⊎ ((n : IdMap) × (bind m id e ≡ ok n) × (id ≢ 0) × (id < n.next_id) × Binds m id e n)
unfolding bind bound
bind_refines m id e v valid small = elim (Bool-cases (id == 0)) [
  | inl zero_id ↦ inl ((==_iff _ _).0 zero_id, rw (zero_id, bind) refl)
  | inr pos ↦ elim (Bool-cases (Handle.is_valid (resolve m id) || not (find m e == 0))) [
    | inl taken ↦
        inr (inl (ground (arith, pos), ground (arith, taken), rw (pos, bind) (rw taken refl)))
    | inr free ↦ inr (
        inr (
          bound m id e,
          rw (pos, bind) (rw free refl),
          ground (arith, pos),
          omega arith,
          bound-Binds m id e v valid (ground (arith, pos)) small (ground (arith, free))
              (ground (arith, free)),
        ))
  ]
]

released : IdMap → ℕ → IdMap
released m id = record m {
  pairs = erase_at (lower_bound id m.pairs) m.pairs;
  count = (m.count + word - 1) % word;
}

released-IsValid :
    (m : IdMap) (id : ℕ)
    → IsValid m
    → is_id id (get_elem? m.pairs (lower_bound id m.pairs)) ≡ true
    → IsValid (released m id)
unfolding released
released-IsValid m id v known = record {
  sorted = Above-erase_at 0 at m.pairs v.sorted;
  below = All-erase_at (λ (p : Pair). p.id < m.next_id) at m.pairs v.below;
  entities = All-erase_at HasEntity at m.pairs v.entities;
  distinct = Distinct-erase_at 0 at m.pairs v.sorted v.distinct;
  counted = omega (
    arith,
    v.counted,
    v.next_word,
    length-erase m.pairs id known,
    length-below 0 m.next_id m.pairs v.sorted v.below,
  );
  next_pos = v.next_pos;
  next_word = v.next_word;
}
  where
    at : ℕ
    at = lower_bound id m.pairs

-- An id that has a pair is below the next id.
known-below :
    (m : IdMap) (id : ℕ)
    → IsValid m
    → is_id id (get_elem? m.pairs (lower_bound id m.pairs)) ≡ true
    → id < m.next_id
unfolding is_id
known-below m id v known = elim (Option-cases (get_elem? m.pairs (lower_bound id m.pairs))) [
  | inl e ↦ absurd (ground (arith, known, e))
  | inr (p, e) ↦
      let small : p.id < m.next_id =
        All-get (λ (q : Pair). q.id < m.next_id) m.pairs (lower_bound id m.pairs) v.below e in
      ground (arith, known, e, small)
]

-- `Release` makes the id resolve to nothing, changes no other id, and keeps the map valid and the
-- next id to assign; an id that resolved to an entity is below that next id.
pub release_refines :
    (m : IdMap) (id : ℕ)
    → IsValid m
    → IsValid (release m id)
      × ((release m id).next_id ≡ m.next_id)
      × ((resolve m id ≡ Handle.invalid) ⊎ (id < (release m id).next_id))
      × ((j : ℕ) → resolve (release m id) j ≡ (if j == id then Handle.invalid else resolve m j))
unfolding release released resolve
release_refines m id v = elim (Bool-cases (is_id id (get_elem? m.pairs (lower_bound id m.pairs)))) [
  | inl known ↦
      rw (known, release)
        (
          released-IsValid m id v known,
          refl,
          inr (known-below m id v known),
          λ j. resolve_in-erase 0 m.pairs id j v.sorted known,
        )
  | inr unknown ↦
      rw (unknown, release)
        (
          v,
          refl,
          inl (absent-resolve_in m.pairs id unknown),
          λ j. ground (arith, absent-resolve_in m.pairs id unknown),
        )
]

hidden :
    (ps : List Pair) (last n : ℕ) (e : Handle) (q : Pair)
    → n < last
    → All (λ (p : Pair). p.id < n) ps
    → resolve_in (insert_at (lower_bound last ps) (record { id = last; entity = e }) ps ++ q ∷ []) n
      ≡ Handle.invalid
unfolding insert_at lower_bound
hidden [] last n e q lt h =
    ground (arith, resolve_in-cons (record { id = last; entity = e }) (q ∷ []) n)
hidden (p ∷ ps) last n e q lt h = ground (
  arith,
  resolve_in-cons p
      (insert_at (lower_bound last ps) (record { id = last; entity = e }) ps ++ q ∷ []) n,
  hidden ps last n e q lt h.1,
)

-- A flaw of the code: binding the last 32-bit id wraps `mNextId` round, so that it stays where it
-- was; the id that the next `Assign` then hands out is pushed behind the last one, and resolves to
-- nothing although it has just been assigned.
pub assign-after_last_id :
    (m n k : IdMap) (e f : Handle) (id : ℕ)
    → IsValid m
    → m.next_id + 1 < word
    → bind m (word - 1) e ≡ ok n
    → assign n f ≡ ok (id, k)
    → (id ≡ m.next_id) × (resolve k id ≡ Handle.invalid)
unfolding assign bind resolve
assign-after_last_id m n k e f id v room bound' assigned' =
    let same_id : id ≡ m.next_id = ground arith in
    let pushed : k.pairs
        ≡ insert_at (lower_bound (word - 1) m.pairs) (record { id = word - 1; entity = e }) m.pairs
          ++ record { id = m.next_id; entity = f } ∷ [] =
      ground arith in
    (same_id, rw (pushed, same_id) (hidden m.pairs (word - 1) m.next_id e _ (omega arith) v.below))
