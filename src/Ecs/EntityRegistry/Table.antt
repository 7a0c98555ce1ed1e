-- ===== src/Ecs/EntityRegistry/Table.antt =====
-- EntityRegistry.cpp, `Restore`: rebuilding the slot table from a saved one.
use oyi_engine.Prelude.{
  ◌⊎◌, inl, inr, Bool-cases, List-cases, Option-cases, get_elem?-lt, ℕ, zero, suc, ◌+◌, ◌%◌, ◌<◌,
  ◌≤◌, ◌≡◌, refl, sym, ap, ◌∙◌, Bool, true, false, none, some, List, [], ◌∷◌, map, if◌then◌else◌,
  ltb, to_nat, length, get_elem?, count, All, get_elem?-total, length-map, arith,
}
use oyi_engine.Core.Handle.{Handle}
use oyi_engine.Ecs.EntityRegistry.{
  Registry, word, clear, revive, create, get_generation, is_index_alive, restored_slot, count_alive,
  is_dead_row, push_dead, restore,
}
use oyi_engine.Ecs.EntityRegistry.Invariant.{IsValid, IsGeneration, dead_slot, alive_slots}

abbrev Row : Type 0
Row = ℕ × Bool

-- A saved table: proper generations, at most as many rows as 32 bits count.
pub record IsTable (table : List Row) : Type 0 where
  pub size : length table < word
  pub generations : All (λ (row : Row). (0 < row.0) × (row.0 < word)) table

get_elem?-restored :
    (table : List Row) (i : ℕ)
    → get_elem? (map restored_slot table) i
      ≡ elim (get_elem? table i) [ none ↦ none | some row ↦ some (restored_slot row) ]
get_elem?-restored [] i = refl
get_elem?-restored (row ∷ table) zero = refl
get_elem?-restored (row ∷ table) (suc i) = get_elem?-restored table i

restored-generations :
    (table : List Row)
    → All (λ (row : Row). (0 < row.0) × (row.0 < word)) table
    → All IsGeneration (map restored_slot table)
unfolding restored_slot
restored-generations [] h = tt
restored-generations ((g, a) ∷ table) h = (h.0, restored-generations table h.1)

count_alive-slots :
    (table : List Row) (n : ℕ)
    → n + length table < word
    → count_alive table n ≡ n + alive_slots (map restored_slot table)
unfolding count_alive restored_slot
count_alive-slots [] n h = omega arith
count_alive-slots ((g, true) ∷ table) n h =
    omega (arith, count_alive-slots table ((n + 1) % word) (omega arith))
count_alive-slots ((g, false) ∷ table) n h = omega (arith, count_alive-slots table n (omega arith))

-- The dead rows below `n`, each once.
count-push_dead :
    (i n : ℕ) (table : List Row) (free : List ℕ)
    → n ≤ length table
    → length table < word
    → count i (push_dead n table free)
      ≡ count i free + (if ltb i n then to_nat (is_dead_row (get_elem? table i)) else 0)
unfolding push_dead
count-push_dead i zero table free h w = ground arith
count-push_dead i (suc n) table free h w =
    ground (arith, count-push_dead i n table free, count-push_dead i n table (n % word ∷ free))

-- Strictly ascending, from `k` on.
abbrev Rising : ℕ → List ℕ → Type 0
Rising k [] = Unit
Rising k (x ∷ xs) = (k ≤ x) × Rising (suc x) xs

Rising-push_dead :
    (n : ℕ) (table : List Row) (free : List ℕ)
    → n ≤ length table
    → length table < word
    → Rising n free
    → Rising 0 (push_dead n table free)
unfolding push_dead
Rising-push_dead zero table free h w r = r
Rising-push_dead (suc n) table free h w r =
    Rising-push_dead n table _ (omega arith) w (step (is_dead_row (get_elem? table n)))
  where
    weaken : (xs : List ℕ) → Rising (suc n) xs → Rising n xs
    weaken [] s = tt
    weaken (x ∷ xs) s = (omega arith, s.1)

    step : (dead : Bool) → Rising n (if dead then n % word ∷ free else free)
    step true = let e : n % word ≡ n = omega arith in rw e (omega arith, r)
    step false = weaken free r

count-Rising : (j k : ℕ) (xs : List ℕ) → j < k → Rising k xs → count j xs ≡ 0
count-Rising j k [] h r = refl
count-Rising j k (x ∷ xs) h r = ground (arith, count-Rising j (suc x) xs)

dead-restored :
    (table : List Row) (i : ℕ)
    → dead_slot (get_elem? (map restored_slot table) i) ≡ to_nat (is_dead_row (get_elem? table i))
unfolding restored_slot is_dead_row
dead-restored [] i = refl
dead-restored ((g, a) ∷ table) zero = refl
dead-restored (row ∷ table) (suc i) = dead-restored table i

dead_row_above :
    (table : List Row) (i : ℕ) → length table ≤ i → is_dead_row (get_elem? table i) ≡ false
unfolding is_dead_row
dead_row_above [] i h = refl
dead_row_above (row ∷ table) zero h = absurd (omega arith)
dead_row_above (row ∷ table) (suc i) h = dead_row_above table i (omega arith)

restored-free :
    (table : List Row) (i : ℕ)
    → length table < word
    → count i (push_dead (length table) table []) ≡ to_nat (is_dead_row (get_elem? table i))
restored-free table i h =
    ground (arith, count-push_dead i (length table) table [], dead_row_above table i)

-- `Restore` of a table of proper generations builds a valid registry that reads back as the table:
-- the same generation and the same alive flag at every index.
pub restore-IsValid :
    (table : List Row)
    → IsTable table
    → IsValid (restore table)
      × ((i : ℕ) (generation : ℕ) (alive : Bool)
          → get_elem? table i ≡ some (generation, alive)
          → (get_generation (restore table) i ≡ generation)
            × (is_index_alive (restore table) i ≡ alive))
unfolding restore clear get_generation is_index_alive restored_slot
restore-IsValid table v = (
  record {
    size = omega (arith, length-map table restored_slot, v.size);
    generations = restored-generations table v.generations;
    free_exact = λ i. restored-free table i v.size ∙ sym (dead-restored table i);
    counted = omega (arith, v.size, count_alive-slots table 0);
  },
  λ i generation alive e.
      let read : get_elem? (map restored_slot table) i ≡ some (restored_slot (generation, alive)) =
        get_elem?-restored table i
        ∙ ap (λ o. elim o [ none ↦ none | some row ↦ some (restored_slot row) ]) e in
      (rw (read, get_generation), rw (read, is_index_alive)),
)

head-lowest :
    (xs : List ℕ) (i : ℕ) (rest : List ℕ) (j : ℕ)
    → Rising 0 xs
    → xs ≡ i ∷ rest
    → j < i
    → count j xs ≡ 0
head-lowest [] i rest j r e h = cc
head-lowest (x ∷ xs) i rest j r e h =
    let same : x ≡ i = ground (arith, e) in
    ground (arith, same, count-Rising j (suc x) xs (omega (arith, same)) r.1)

not-dead :
    (table : List Row) (j : ℕ)
    → IsTable table
    → j < length table
    → count j (restore table).free_indices ≡ 0
    → is_index_alive (restore table) j ≡ true
unfolding restore clear is_dead_row
not-dead table j v inside none_free =
    let ((g, a), e) = get_elem?-total table j inside in
    ((restore-IsValid table v).1 j g a e).1
    ∙ ground (arith, restored-free table j v.size, none_free, e)

created-index :
    (r : Registry) (i : ℕ) (rest : List ℕ) {e : Handle} {t : Registry}
    → r.free_indices ≡ i ∷ rest
    → create r ≡ some (e, t)
    → e.index ≡ i
unfolding create revive
created-index r i rest same h = ground (arith, same, h)

appended-index :
    (r : Registry) {e : Handle} {t : Registry}
    → r.free_indices ≡ []
    → create r ≡ some (e, t)
    → e.index ≡ length r.slots % word
unfolding create revive
appended-index r same h = ground (arith, same, h)

-- An index on the free list is a dead index of the table.
free-dead :
    (table : List Row) (i : ℕ) (rest : List ℕ)
    → IsTable table
    → (restore table).free_indices ≡ i ∷ rest
    → (is_index_alive (restore table) i ≡ false) × (i < length table)
unfolding restore clear is_dead_row
free-dead table i rest v same =
    let once : 0 < count i (restore table).free_indices = ground (arith, ap (count i) same) in
    elim (Option-cases (get_elem? table i)) [
      | inl outside ↦ absurd (ground (arith, restored-free table i v.size, once, outside))
      | inr ((g, a), found) ↦
          let dead : a ≡ false = ground (arith, restored-free table i v.size, once, found) in
          (((restore-IsValid table v).1 i g a found).1 ∙ dead, get_elem?-lt table i found)
    ]

restored-length : (table : List Row) → length (restore table).slots ≡ length table
unfolding restore clear
restored-length table = length-map table restored_slot

-- Behind the first index of the free list; all indices are alive if there is none.
lower-alive :
    (table : List Row) (i : ℕ) (rest : List ℕ) (j : ℕ)
    → IsTable table
    → (restore table).free_indices ≡ i ∷ rest
    → j < i
    → j < length table
    → is_index_alive (restore table) j ≡ true
unfolding restore clear
lower-alive table i rest j v same below inside = not-dead table j v inside (
    head-lowest (restore table).free_indices i rest j
      (Rising-push_dead (length table) table [] (omega arith) v.size tt) same below)

-- The first `Create` after `Restore` recycles a dead index of the table, or appends the index behind
-- the table; in both cases no lower index is dead, so that it appends only where none is dead.
pub restore-lowest_first :
    (table : List Row) (e : Handle) {t : Registry}
    → IsTable table
    → create (restore table) ≡ some (e, t)
    → (((is_index_alive (restore table) e.index ≡ false) × (e.index < length table))
        ⊎ (e.index ≡ length table))
      × ((j : ℕ) → (is_index_alive (restore table) j ≡ true) ⊎ (e.index ≤ j))
restore-lowest_first table e v h = elim (List-cases (restore table).free_indices) [
  | inl empty ↦
      let last : e.index ≡ length table =
        omega (arith, appended-index (restore table) empty h, restored-length table, v.size) in
      (
        inr last,
        λ j. elim (Bool-cases (ltb j (length table))) [
          | inl inside ↦ inl (not-dead table j v (ground (arith, inside)) (ap (count j) empty))
          | inr outside ↦ inr (ground (arith, outside, last))
        ],
      )
  | inr (i, rest, same) ↦
      let index = created-index (restore table) i rest same h in
      let (dead, small) = free-dead table i rest v same in
      (
        inl (ap (is_index_alive (restore table)) index ∙ dead, omega (arith, index, small)),
        λ j. elim (Bool-cases (ltb j i)) [
          | inl below ↦ inl (
              lower-alive table i rest j v same (ground (arith, below))
                (ground (arith, below, small)))
          | inr above ↦ inr (ground (arith, above, index))
        ],
      )
]
