-- ===== src/Net/NetworkIdMap/Invariant.antt =====
-- NetworkId.cpp: the pairs stay sorted by id, with ids below the next one to assign, and no entity
-- twice.
use oyi_engine.Prelude.{
  ℕ, zero, suc, ◌+◌, ◌≤◌, ◌<◌, ◌≡◌, refl, ap, ◌≢◌, true, false, List, [], ◌∷◌, ◌++◌, ltb, ◌==◌,
  if◌then◌else◌, length, get_elem?, All, inl, inr, subst, Option-cases, All-get, arith,
}
use oyi_engine.Core.Handle
use oyi_engine.Core.Handle.{Handle, equal→eq}
use oyi_engine.Net.NetworkIdMap.{
  word, Pair, IdMap, lower_bound, insert_at, erase_at, entity_if, resolve_in, find_in, is_id,
}

-- Ids strictly ascending, all above `k`.
abbrev pub Above : ℕ → List Pair → Type 0
Above k [] = Unit
Above k (p ∷ ps) = (k < p.id) × Above p.id ps

-- No entity has two pairs.
abbrev pub Distinct : List Pair → Type 0
Distinct [] = Unit
Distinct (p ∷ ps) = (find_in ps p.entity ≡ 0) × Distinct ps

abbrev pub HasEntity : Pair → Type 0
HasEntity p = Handle.is_valid p.entity ≡ true

pub record IsValid (m : IdMap) : Type 0 where
  pub sorted : Above 0 m.pairs
  pub below : All (λ (p : Pair). p.id < m.next_id) m.pairs
  pub entities : All HasEntity m.pairs
  pub distinct : Distinct m.pairs
  pub counted : m.count ≡ length m.pairs
  pub next_pos : 0 < m.next_id
  pub next_word : m.next_id < word

pub resolve_in-cons :
    (p : Pair) (ps : List Pair) (id : ℕ)
    → resolve_in (p ∷ ps) id
      ≡ (if ltb p.id id then resolve_in ps id else if p.id == id then p.entity else Handle.invalid)
unfolding resolve_in lower_bound entity_if
resolve_in-cons p ps id = ground arith

pub resolve_in-nil : (id : ℕ) → resolve_in [] id ≡ Handle.invalid
unfolding resolve_in lower_bound entity_if
resolve_in-nil id = refl

pub resolve_in-insert :
    (ps : List Pair) (id j : ℕ) (e : Handle)
    → resolve_in (insert_at (lower_bound id ps) (record { id = id; entity = e }) ps) j
      ≡ (if j == id then e else resolve_in ps j)
unfolding insert_at lower_bound
resolve_in-insert [] id j e =
    ground (arith, resolve_in-cons (record { id = id; entity = e }) [] j, resolve_in-nil j)
resolve_in-insert (p ∷ ps) id j e = ground (
  arith,
  resolve_in-cons p ps j,
  resolve_in-cons (record { id = id; entity = e }) (p ∷ ps) j,
  resolve_in-cons p (insert_at (lower_bound id ps) (record { id = id; entity = e }) ps) j,
  resolve_in-insert ps id j e,
)

pub resolve_in-push :
    (ps : List Pair) (id j : ℕ) (e : Handle)
    → All (λ (p : Pair). p.id < id) ps
    → resolve_in (ps ++ record { id = id; entity = e } ∷ []) j
      ≡ (if j == id then e else resolve_in ps j)
resolve_in-push [] id j e h =
    ground (arith, resolve_in-cons (record { id = id; entity = e }) [] j, resolve_in-nil j)
resolve_in-push (p ∷ ps) id j e h = ground (
  arith,
  resolve_in-cons p ps j,
  resolve_in-cons p (ps ++ record { id = id; entity = e } ∷ []) j,
  resolve_in-push ps id j e h.1,
)

-- No pair has an id at or below the bound.
pub resolve_in-Above :
    (k : ℕ) (ps : List Pair) (j : ℕ) → Above k ps → j ≤ k → resolve_in ps j ≡ Handle.invalid
resolve_in-Above k [] j h le = resolve_in-nil j
resolve_in-Above k (p ∷ ps) j h le = ground (arith, resolve_in-cons p ps j)

pub resolve_in-erase :
    (k : ℕ) (ps : List Pair) (id j : ℕ)
    → Above k ps
    → is_id id (get_elem? ps (lower_bound id ps)) ≡ true
    → resolve_in (erase_at (lower_bound id ps) ps) j
      ≡ (if j == id then Handle.invalid else resolve_in ps j)
unfolding erase_at lower_bound is_id
resolve_in-erase k [] id j h e = absurd (ground arith)
resolve_in-erase k (p ∷ ps) id j h e = ground (
  arith,
  resolve_in-cons p ps j,
  resolve_in-cons p (erase_at (lower_bound id ps) ps) j,
  resolve_in-erase p.id ps id j h.1,
  resolve_in-Above p.id ps j h.1,
)

-- --- ids and entities determine each other ---

find_in-Above :
    (k : ℕ) (ps : List Pair) (e : Handle) → Above k ps → find_in ps e ≢ 0 → k < find_in ps e
unfolding find_in
find_in-Above k [] e h ne = absurd (ne refl)
find_in-Above k (p ∷ ps) e h ne = ground (arith, find_in-Above p.id ps e h.1)

pub resolve_in-find_in :
    (k : ℕ) (ps : List Pair) (e : Handle)
    → Above k ps
    → find_in ps e ≢ 0
    → resolve_in ps (find_in ps e) ≡ e
unfolding find_in
resolve_in-find_in k [] e h ne = absurd (ne refl)
resolve_in-find_in k (p ∷ ps) e h ne = ground (
  arith,
  resolve_in-cons p ps (find_in (p ∷ ps) e),
  find_in-Above p.id ps e h.1,
  resolve_in-find_in p.id ps e h.1,
)

pub find_in-resolve_in :
    (k : ℕ) (ps : List Pair) (i : ℕ)
    → Above k ps
    → Distinct ps
    → Handle.is_valid (resolve_in ps i) ≡ true
    → find_in ps (resolve_in ps i) ≡ i
unfolding find_in
find_in-resolve_in k [] i h d v = absurd (ground (arith, resolve_in-nil i))
find_in-resolve_in k (p ∷ ps) i h d v =
    ground (arith, resolve_in-cons p ps i, h.0, d.0, find_in-resolve_in p.id ps i h.1 d.1)

-- --- what inserting and erasing keeps ---

insert_at-length : (ps : List Pair) (q : Pair) → insert_at (length ps) q ps ≡ ps ++ q ∷ []
unfolding insert_at
insert_at-length [] q = refl
insert_at-length (p ∷ ps) q = ap (◌∷◌ p) (insert_at-length ps q)

pub length-insert_at :
    (i : ℕ) (q : Pair) (ps : List Pair) → length (insert_at i q ps) ≡ length ps + 1
unfolding insert_at
length-insert_at zero q ps = omega arith
length-insert_at (suc i) q [] = omega arith
length-insert_at (suc i) q (p ∷ ps) = omega (arith, length-insert_at i q ps)

pub All-insert_at :
    (P : Pair → Type 0) (i : ℕ) (q : Pair) (ps : List Pair)
    → P q
    → All P ps
    → All P (insert_at i q ps)
unfolding insert_at
All-insert_at P zero q ps h hs = (h, hs)
All-insert_at P (suc i) q [] h hs = (h, hs)
All-insert_at P (suc i) q (p ∷ ps) h hs = (hs.0, All-insert_at P i q ps h hs.1)

pub All-erase_at : (P : Pair → Type 0) (i : ℕ) (ps : List Pair) → All P ps → All P (erase_at i ps)
unfolding erase_at
All-erase_at P i [] hs = hs
All-erase_at P zero (p ∷ ps) hs = hs.1
All-erase_at P (suc i) (p ∷ ps) hs = (hs.0, All-erase_at P i ps hs.1)

pub Above-insert :
    (k id : ℕ) (e : Handle) (ps : List Pair)
    → Above k ps
    → k < id
    → is_id id (get_elem? ps (lower_bound id ps)) ≡ false
    → Above k (insert_at (lower_bound id ps) (record { id = id; entity = e }) ps)
unfolding insert_at lower_bound is_id
Above-insert k id e [] h lt free = (lt, tt)
Above-insert k id e (p ∷ ps) h lt free = ground (arith, Above-insert p.id id e ps h.1)

pub Above-push :
    (k : ℕ) (q : Pair) (ps : List Pair)
    → Above k ps
    → k < q.id
    → All (λ (p : Pair). p.id < q.id) ps
    → Above k (ps ++ q ∷ [])
Above-push k q [] h lt below = (lt, tt)
Above-push k q (p ∷ ps) h lt below = (h.0, Above-push p.id q ps h.1 below.0 below.1)

Above-weaken : (j k : ℕ) (ps : List Pair) → j ≤ k → Above k ps → Above j ps
Above-weaken j k [] le h = tt
Above-weaken j k (p ∷ ps) le h = (omega arith, h.1)

pub Above-erase_at : (k i : ℕ) (ps : List Pair) → Above k ps → Above k (erase_at i ps)
unfolding erase_at
Above-erase_at k i [] h = tt
Above-erase_at k zero (p ∷ ps) h = Above-weaken k p.id ps (omega arith) h.1
Above-erase_at k (suc i) (p ∷ ps) h = (h.0, Above-erase_at p.id i ps h.1)

find_in-insert_at :
    (i : ℕ) (q : Pair) (ps : List Pair) (f : Handle)
    → Handle.equal q.entity f ≡ false
    → find_in ps f ≡ 0
    → find_in (insert_at i q ps) f ≡ 0
unfolding find_in insert_at
find_in-insert_at zero q ps f ne h = rw ne h
find_in-insert_at (suc i) q [] f ne h = rw ne refl
find_in-insert_at (suc i) q (p ∷ ps) f ne h = ground (arith, find_in-insert_at i q ps f ne)

pub Distinct-insert_at :
    (k i : ℕ) (q : Pair) (ps : List Pair)
    → Above k ps
    → Distinct ps
    → find_in ps q.entity ≡ 0
    → Distinct (insert_at i q ps)
unfolding find_in insert_at
Distinct-insert_at k zero q ps a d h = (h, d)
Distinct-insert_at k (suc i) q [] a d h = (h, d)
Distinct-insert_at k (suc i) q (p ∷ ps) a d h = (
  find_in-insert_at i q ps p.entity (ground arith) d.0,
  Distinct-insert_at p.id i q ps a.1 d.1 (ground arith),
)

find_in-erase_at :
    (k i : ℕ) (ps : List Pair) (f : Handle)
    → Above k ps
    → find_in ps f ≡ 0
    → find_in (erase_at i ps) f ≡ 0
unfolding find_in erase_at
find_in-erase_at k i [] f a h = h
find_in-erase_at k zero (p ∷ ps) f a h = ground arith
find_in-erase_at k (suc i) (p ∷ ps) f a h = ground (arith, find_in-erase_at p.id i ps f a.1)

pub Distinct-erase_at :
    (k i : ℕ) (ps : List Pair) → Above k ps → Distinct ps → Distinct (erase_at i ps)
unfolding erase_at
Distinct-erase_at k i [] a d = d
Distinct-erase_at k zero (p ∷ ps) a d = d.1
Distinct-erase_at k (suc i) (p ∷ ps) a d =
    (find_in-erase_at p.id i ps p.entity a.1 d.0, Distinct-erase_at p.id i ps a.1 d.1)

pub push-insert_at :
    (ps : List Pair) (q : Pair) → Distinct (insert_at (length ps) q ps) → Distinct (ps ++ q ∷ [])
push-insert_at ps q d = subst Distinct (insert_at-length ps q) d

-- A present id resolves to its entity, so an id that resolves to nothing valid is absent.
pub absent_id :
    (ps : List Pair) (id : ℕ)
    → All HasEntity ps
    → Handle.is_valid (resolve_in ps id) ≡ false
    → is_id id (get_elem? ps (lower_bound id ps)) ≡ false
unfolding is_id resolve_in entity_if
absent_id ps id h v = elim (Option-cases (get_elem? ps (lower_bound id ps))) [
  | inl gone ↦ rw gone refl
  | inr (p, found) ↦ ground (arith, found, All-get HasEntity ps (lower_bound id ps) h found)
]

pub length-erase :
    (ps : List Pair) (id : ℕ)
    → is_id id (get_elem? ps (lower_bound id ps)) ≡ true
    → length (erase_at (lower_bound id ps) ps) + 1 ≡ length ps
unfolding is_id erase_at lower_bound
length-erase [] id h = cc
length-erase (p ∷ ps) id h = ground (arith, length-erase ps id)

pub absent-resolve_in :
    (ps : List Pair) (id : ℕ)
    → is_id id (get_elem? ps (lower_bound id ps)) ≡ false
    → resolve_in ps id ≡ Handle.invalid
unfolding is_id resolve_in entity_if
absent-resolve_in ps id h = ground arith
