-- ===== src/Ecs/Archetype/Packed.antt =====
-- Archetype.cpp: how the chunk list is packed, and what the steps of `Allocate` and `Remove` do to
-- the chunk list, to the number of rows and to the row at each place.
use oyi_engine.Prelude.{
  ℕ, zero, suc, ◌+◌, ◌-◌, ◌≤◌, ◌<◌, ◌≡◌, refl, ap, ◌∙◌, ◌⊎◌, inl, inr, none, some, List, [], ◌∷◌,
  ◌++◌, ◌==◌, if◌then◌else◌, length, get_elem?, set, All, get_elem?-set, get_elem?-push,
  get_elem?-above, arith,
}
use oyi_engine.Ecs.EntityRegistry.{word}
use oyi_engine.Ecs.Archetype.{Chunk, Archetype, last_chunk, drop_last, row_in, shrink_last}

abbrev pub Full : ℕ → Chunk → Type 0
Full capacity c = length c.rows ≡ capacity

-- Every chunk but the last is full; the last has a row.
abbrev pub Packed : ℕ → List Chunk → Type 0
Packed capacity [] = Unit
Packed capacity (c ∷ []) = (0 < length c.rows) × (length c.rows ≤ capacity)
Packed capacity (c ∷ d ∷ cs) = Full capacity c × Packed capacity (d ∷ cs)

abbrev pub row_count : List Chunk → ℕ
row_count [] = 0
row_count (c ∷ cs) = length c.rows + row_count cs

-- The chunks are packed, a chunk holds a row, and `mEntityCount` is the number of rows.
pub record IsPacked (a : Archetype) : Type 0 where
  pub packed : Packed a.layout.capacity a.chunks
  pub capacity : 0 < a.layout.capacity
  pub counted : a.entity_count ≡ row_count a.chunks
  pub small : row_count a.chunks < word

-- A chunk list is empty or ends in a chunk.
pub last-cases :
    (cs : List Chunk) → (cs ≡ []) ⊎ ((front : List Chunk) × (c : Chunk) × (cs ≡ front ++ c ∷ []))
last-cases [] = inl refl
last-cases (c ∷ cs) = elim (last-cases cs) [
  | inl e ↦ inr ([], c, ap (◌∷◌ c) e)
  | inr (front, d, e) ↦ inr (c ∷ front, d, ap (◌∷◌ c) e)
]

pub last_chunk-push :
    (front : List Chunk) (c : Chunk) → last_chunk (front ++ c ∷ []) ≡ some (length front, c)
unfolding last_chunk
last_chunk-push [] c = refl
last_chunk-push (d ∷ []) c = refl
last_chunk-push (d ∷ e ∷ front) c = rw (last_chunk-push (e ∷ front) c) refl

pub last_chunk-of :
    (cs front : List Chunk) (c : Chunk)
    → cs ≡ front ++ c ∷ []
    → last_chunk cs ≡ some (length front, c)
last_chunk-of cs front c same = ap last_chunk same ∙ last_chunk-push front c

pub Packed-push :
    (capacity : ℕ) (front : List Chunk) (c : Chunk)
    → All (Full capacity) front
    → 0 < length c.rows
    → length c.rows ≤ capacity
    → Packed capacity (front ++ c ∷ [])
Packed-push n [] c full pos le = (pos, le)
Packed-push n (d ∷ []) c full pos le = (full.0, (pos, le))
Packed-push n (d ∷ e ∷ front) c full pos le = (full.0, Packed-push n (e ∷ front) c full.1 pos le)

pub Packed-last :
    (capacity : ℕ) (front : List Chunk) (c : Chunk)
    → Packed capacity (front ++ c ∷ [])
    → All (Full capacity) front × (0 < length c.rows) × (length c.rows ≤ capacity)
Packed-last n [] c p = (tt, p.0, p.1)
Packed-last n (d ∷ []) c p = ((p.0, tt), p.1.0, p.1.1)
Packed-last n (d ∷ e ∷ front) c p =
    let (full, pos, le) = Packed-last n (e ∷ front) c p.1 in ((p.0, full), pos, le)

-- A list of full chunks is packed.
pub Full-Packed :
    (capacity : ℕ) (cs : List Chunk) → 0 < capacity → All (Full capacity) cs → Packed capacity cs
Full-Packed n [] pos full = tt
Full-Packed n (c ∷ []) pos full = omega (arith, full.0)
Full-Packed n (c ∷ d ∷ cs) pos full = (full.0, Full-Packed n (d ∷ cs) pos full.1)

pub set-push :
    (front : List Chunk) (c d : Chunk) → set (front ++ c ∷ []) (length front) d ≡ front ++ d ∷ []
set-push [] c d = refl
set-push (e ∷ front) c d = ap (◌∷◌ e) (set-push front c d)

pub set-front :
    (front : List Chunk) (c : Chunk) (k : ℕ) (d : Chunk)
    → k < length front
    → set (front ++ c ∷ []) k d ≡ set front k d ++ c ∷ []
set-front [] c k d h = absurd (omega arith)
set-front (e ∷ front) c zero d h = refl
set-front (e ∷ front) c (suc k) d h = ap (◌∷◌ e) (set-front front c k d (omega arith))

pub row_count-push :
    (front : List Chunk) (c : Chunk) → row_count (front ++ c ∷ []) ≡ row_count front + length c.rows
row_count-push [] c = omega arith
row_count-push (d ∷ front) c = omega (arith, row_count-push front c)

pub row_count-set :
    (cs : List Chunk) (k : ℕ) {c : Chunk} (d : Chunk)
    → get_elem? cs k ≡ some c
    → length d.rows ≡ length c.rows
    → row_count (set cs k d) ≡ row_count cs
row_count-set [] k d e h = refl
row_count-set (x ∷ cs) zero {c} d e h = ground (arith, e, h)
row_count-set (x ∷ cs) (suc k) d e h = omega (arith, row_count-set cs k d e h)

pub shrink_last-push :
    (front : List Chunk) (c : Chunk)
    → shrink_last (front ++ c ∷ [])
      ≡ (if length c.rows == 1 then front else front ++ record c { rows = drop_last c.rows } ∷ [])
unfolding shrink_last
shrink_last-push [] c = refl
shrink_last-push (d ∷ []) c = ground (arith)
shrink_last-push (d ∷ e ∷ front) c = ground (arith, shrink_last-push (e ∷ front) c)

-- The row at a place after a chunk is replaced, and after one is added.
pub row_in-set :
    (cs : List Chunk) (k : ℕ) (c : Chunk) (i j : ℕ)
    → k < length cs
    → row_in (set cs k c) i j ≡ (if k == i then get_elem? c.rows j else row_in cs i j)
unfolding row_in
row_in-set cs k c i j h = ground (arith, get_elem?-set cs k i c h)

pub row_in-push :
    (cs : List Chunk) (c : Chunk) (i j : ℕ)
    → row_in (cs ++ c ∷ []) i j ≡ (if length cs == i then get_elem? c.rows j else row_in cs i j)
unfolding row_in
row_in-push cs c i j = ground (arith, get_elem?-push cs c i)

pub row_in-above : (cs : List Chunk) (i j : ℕ) → length cs ≤ i → row_in cs i j ≡ none
unfolding row_in
row_in-above cs i j h = ground (arith, get_elem?-above cs i h)

-- Reads of a list without its last element.
pub get_elem?-drop_last {ℓ} :
    {A : Type ℓ} (xs : List A) (j : ℕ)
    → get_elem? (drop_last xs) j ≡ (if length xs - 1 == j then none else get_elem? xs j)
unfolding drop_last
get_elem?-drop_last [] j = ground arith
get_elem?-drop_last (x ∷ []) zero = ground arith
get_elem?-drop_last (x ∷ []) (suc j) = ground arith
get_elem?-drop_last (x ∷ y ∷ xs) zero = ground arith
get_elem?-drop_last (x ∷ y ∷ xs) (suc j) = ground (arith, get_elem?-drop_last (y ∷ xs) j)

pub length-drop_last {ℓ} : {A : Type ℓ} (xs : List A) → length (drop_last xs) ≡ length xs - 1
unfolding drop_last
length-drop_last [] = refl
length-drop_last (x ∷ []) = omega arith
length-drop_last (x ∷ y ∷ xs) = omega (arith, length-drop_last (y ∷ xs))
