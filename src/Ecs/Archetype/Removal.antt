-- ===== src/Ecs/Archetype/Removal.antt =====
-- Archetype.cpp: what `Remove` does to the rows, seen by place.
use oyi_engine.Prelude.{
  ℕ, ◌+◌, ◌-◌, ◌%◌, ◌≤◌, ◌<◌, ◌≡◌, refl, ap, subst, ◌∙◌, inl, inr, true, false, ◌&&◌, none, some,
  some-injective, List, [], ◌∷◌, ◌++◌, map, ◌==◌, if◌then◌else◌, length, get_elem?, set, All,
  All-set, All-get, length-set, length-append, get_elem?-set, get_elem?-push, get_elem?-lt,
  get_elem?-total, get_elem?-above, Bool-cases, Option-cases, ==_iff, ==_refl, arith,
}
use oyi_engine.Core.Handle
use oyi_engine.Core.Handle.{Handle}
use oyi_engine.Ecs.EntityRegistry.{Location, word}
use oyi_engine.Ecs.Archetype.{
  Row, Chunk, Archetype, drop_last, row_in, fill_hole, shrink_last, is_last, remove_from, remove,
}
use oyi_engine.Ecs.Archetype.Packed.{
  Full, Packed, IsPacked, row_count, last-cases, last_chunk-of, Packed-push, Packed-last,
  Full-Packed, set-push, set-front, row_count-push, row_count-set, shrink_last-push, row_in-set,
  row_in-push, row_in-above, get_elem?-drop_last, length-drop_last,
}

-- Taking the last row off a packed chunk list.
pub record Shrinks (capacity : ℕ) (cs : List Chunk) (lc lr : ℕ) (ds : List Chunk) : Type 0 where
  pub packed : Packed capacity ds
  pub count : row_count ds + 1 ≡ row_count cs
  pub rows : (i j : ℕ) → row_in ds i j ≡ (if lc == i && lr == j then none else row_in cs i j)

shrink_last-Shrinks :
    (capacity : ℕ) (cs front : List Chunk) (c : Chunk)
    → 0 < capacity
    → cs ≡ front ++ c ∷ []
    → All (Full capacity) front
    → 0 < length c.rows
    → length c.rows ≤ capacity
    → Shrinks capacity cs (length front) (length c.rows - 1) (shrink_last cs)
shrink_last-Shrinks n cs front c room same full pos le =
    let d : Chunk = record c { rows = drop_last c.rows } in
    let shorter : length d.rows ≡ length c.rows - 1 = length-drop_last c.rows in
    let read : (i j : ℕ)
        → row_in cs i j ≡ (if length front == i then get_elem? c.rows j else row_in front i j) =
      λ i j. ap (λ xs. row_in xs i j) same ∙ row_in-push front c i j in
    let total : row_count cs ≡ row_count front + length c.rows =
      omega (arith, ap row_count same, row_count-push front c) in
    elim (Bool-cases (length c.rows == 1)) [
      | inl one ↦
          let gone : shrink_last cs ≡ front =
            ap shrink_last same ∙ shrink_last-push front c ∙ rw one refl in
          rw gone (record {
            packed = Full-Packed n front room full;
            count = ground (arith, one, total);
            rows = λ i j.
                ground (arith, one, read i j, row_in-above front i j, get_elem?-above c.rows j);
          })
      | inr more ↦
          let less : shrink_last cs ≡ front ++ d ∷ [] =
            ap shrink_last same ∙ shrink_last-push front c ∙ rw more refl in
          rw less (record {
            packed =
                Packed-push n front d full (ground (arith, more, shorter)) (omega (arith, shorter));
            count =
                omega (
                  arith,
                  row_count-push front d,
                  shorter,
                  ap row_count same,
                  row_count-push front c,
                );
            rows = λ i j.
                ground (arith, read i j, row_in-push front d i j, get_elem?-drop_last c.rows j);
          })
    ]

-- Overwriting a row of a chunk list that ends in a chunk.
record Fills (capacity : ℕ) (cs front : List Chunk) (z : Chunk) (k r : ℕ) (last : Row)
    (ds : List Chunk) : Type 0 where
  front' : List Chunk
  z' : Chunk
  split : ds ≡ front' ++ z' ∷ []
  full : All (Full capacity) front'
  same_front : length front' ≡ length front
  same_last : length z'.rows ≡ length z.rows
  count : row_count ds ≡ row_count cs
  rows : (i j : ℕ) → row_in ds i j ≡ (if k == i && r == j then some last else row_in cs i j)

filled : Chunk → ℕ → Row → ℕ → Chunk
filled c r last version = record {
  versions = map (λ _. version) c.versions;
  chunk_cells = c.chunk_cells;
  rows = set c.rows r last;
}

fill_hole-at :
    (cs : List Chunk) (k r : ℕ) (last : Row) (version : ℕ) (c : Chunk)
    → get_elem? cs k ≡ some c
    → fill_hole cs k r last version ≡ set cs k (filled c r last version)
unfolding fill_hole filled
fill_hole-at cs k r last version c found = rw (found, fill_hole) refl

fill_hole-Fills :
    (capacity : ℕ) (cs front : List Chunk) (z : Chunk) (k r : ℕ) (last : Row) (version : ℕ)
    (c : Chunk)
    → cs ≡ front ++ z ∷ []
    → All (Full capacity) front
    → get_elem? cs k ≡ some c
    → r < length c.rows
    → Fills capacity cs front z k r last (fill_hole cs k r last version)
unfolding filled row_in
fill_hole-Fills n cs front z k r last version c same full found inside =
    let d = filled c r last version in
    let size : length d.rows ≡ length c.rows = length-set c.rows r last in
    let below = get_elem?-lt cs k found in
    let total = row_count-set cs k d found size in
    let rows : (i j : ℕ)
        → row_in (set cs k d) i j ≡ (if k == i && r == j then some last else row_in cs i j) =
      λ i j.
        ground (arith, row_in-set cs k d i j below, get_elem?-set c.rows r j last inside, found) in
    let read : get_elem? cs k ≡ (if length front == k then some z else get_elem? front k) =
      ap (λ xs. get_elem? xs k) same ∙ get_elem?-push front z k in
    let sized : length cs ≡ length front + 1 = ap length same ∙ length-append front (z ∷ []) in
    rw (fill_hole-at cs k r last version c found) (elim (Bool-cases (k == length front)) [
      | inl end ↦ record {
        front' = front;
        z' = d;
        split =
            ap (λ xs. set xs k d) same
            ∙ ap (λ i. set (front ++ z ∷ []) i d) ((==_iff k (length front)).0 end)
            ∙ set-push front z d;
        full = full;
        same_front = refl;
        same_last =
            size
            ∙ ap (λ (x : Chunk). length x.rows)
                (some-injective c z (ground (arith, found, read, end)));
        count = total;
        rows = rows;
      }
      | inr inner ↦ record {
        front' = set front k d;
        z' = z;
        split =
            ap (λ xs. set xs k d) same
            ∙ set-front front z k d (ground (arith, below, sized, inner));
        full =
            All-set (Full n) front k d
              (size ∙ All-get (Full n) front k {x = c} full (ground (arith, read, inner, found)))
              full;
        same_front = length-set front k d;
        same_last = refl;
        count = total;
        rows = rows;
      }
    ])

-- What `Remove` does: the row `last` at the last place fills the hole, and the last place is gone.
pub record Removes (a : Archetype) (at : Location) (moved : Handle) (b : Archetype) : Type 0 where
  pub last_chunk_at : ℕ
  pub last_row_at : ℕ
  pub last : Row
  pub found : row_in a.chunks last_chunk_at last_row_at ≡ some last
  pub moves :
      moved
      ≡ (if at.chunk == last_chunk_at && at.row == last_row_at then Handle.invalid else last.entity)
  pub same_index : b.index ≡ a.index
  pub same_prototype : b.prototype ≡ a.prototype
  pub same_mask : b.mask ≡ a.mask
  pub same_layout : b.layout ≡ a.layout
  pub packed : IsPacked b
  pub count : b.entity_count + 1 ≡ a.entity_count
  pub rows :
      (i j : ℕ)
      → row_in b.chunks i j ≡ (
          if last_chunk_at == i && last_row_at == j
          then none
          else if at.chunk == i && at.row == j
          then some last
          else row_in a.chunks i j)

-- The row is the last one: it is taken off.
remove_last-Removes :
    (a : Archetype) (at : Location) (version : ℕ) (front : List Chunk) (z : Chunk) (last : Row)
    → IsPacked a
    → a.chunks ≡ front ++ z ∷ []
    → get_elem? z.rows (length z.rows - 1) ≡ some last
    → is_last at (length front) (length z.rows - 1) ≡ true
    → (b : Archetype) × (remove_from a at version (some (length front, z))
        ≡ some (Handle.invalid, b))
      × Removes a at Handle.invalid b
unfolding remove_from is_last
remove_last-Removes a at version front z last p same found end =
    let (full, pos, le) =
      Packed-last a.layout.capacity front z (subst (Packed a.layout.capacity) same p.packed) in
    let shrunk =
      shrink_last-Shrinks a.layout.capacity a.chunks front z p.capacity same full pos le in
    (
      record a { chunks = shrink_last a.chunks; entity_count = (a.entity_count + word - 1) % word },
      rw (found, remove_from) (rw end refl),
      record {
        last_chunk_at = length front;
        last_row_at = length z.rows - 1;
        last = last;
        found =
            ap (λ xs. row_in xs (length front) (length z.rows - 1)) same
            ∙ ground (arith, row_in-push front z (length front) (length z.rows - 1), found);
        moves = ground (arith, end);
        same_index = refl;
        same_prototype = refl;
        same_mask = refl;
        same_layout = refl;
        packed = record {
          packed = shrunk.packed;
          capacity = p.capacity;
          counted = omega (arith, shrunk.count, p.counted, p.small);
          small = omega (arith, shrunk.count, p.small);
        };
        count = omega (arith, shrunk.count, p.counted, p.small);
        rows = λ i j. ground (arith, shrunk.rows i j, end);
      },
    )

-- The row is another one: the last row fills the hole and is taken off.
remove_inner-Removes :
    (a : Archetype) (at : Location) (version : ℕ) (front : List Chunk) (z c : Chunk) (last : Row)
    → IsPacked a
    → a.chunks ≡ front ++ z ∷ []
    → get_elem? z.rows (length z.rows - 1) ≡ some last
    → is_last at (length front) (length z.rows - 1) ≡ false
    → get_elem? a.chunks at.chunk ≡ some c
    → at.row < length c.rows
    → (b : Archetype) × (remove_from a at version (some (length front, z)) ≡ some (last.entity, b))
      × Removes a at last.entity b
unfolding remove_from is_last
remove_inner-Removes a at version front z c last p same found inner here inside =
    let (full, pos, le) =
      Packed-last a.layout.capacity front z (subst (Packed a.layout.capacity) same p.packed) in
    let cs = fill_hole a.chunks at.chunk at.row last version in
    let fills =
      fill_hole-Fills a.layout.capacity a.chunks front z at.chunk at.row last version c same full
        here inside in
    let shrunk =
      shrink_last-Shrinks a.layout.capacity cs fills.front' fills.z' p.capacity fills.split
        fills.full (omega (arith, pos, fills.same_last)) (omega (arith, le, fills.same_last)) in
    (
      record a { chunks = shrink_last cs; entity_count = (a.entity_count + word - 1) % word },
      rw (found, remove_from) (rw inner refl),
      record {
        last_chunk_at = length front;
        last_row_at = length z.rows - 1;
        last = last;
        found =
            ap (λ xs. row_in xs (length front) (length z.rows - 1)) same
            ∙ ground (arith, row_in-push front z (length front) (length z.rows - 1), found);
        moves = ground (arith, inner);
        same_index = refl;
        same_prototype = refl;
        same_mask = refl;
        same_layout = refl;
        packed = record {
          packed = shrunk.packed;
          capacity = p.capacity;
          counted = omega (arith, shrunk.count, fills.count, p.counted, p.small);
          small = omega (arith, shrunk.count, fills.count, p.small);
        };
        count = omega (arith, shrunk.count, fills.count, p.counted, p.small);
        rows = λ i j.
            ground (arith, shrunk.rows i j, fills.rows i j, fills.same_front, fills.same_last);
      },
    )

-- The chunk and the bound that a row's place stands for.
row_in-chunk :
    (cs : List Chunk) (i j : ℕ) {row : Row}
    → row_in cs i j ≡ some row
    → (c : Chunk) × (get_elem? cs i ≡ some c) × (j < length c.rows)
unfolding row_in
row_in-chunk cs i j {row} h = elim (Option-cases (get_elem? cs i)) [
  | inl none_there ↦ absurd (ground (arith, none_there, h))
  | inr (c, e) ↦ (c, e, get_elem?-lt c.rows j {x = row} (ground (arith, e, h)))
]

remove-start :
    (a : Archetype) (at : Location) (version : ℕ) (gone : Row) (front : List Chunk) (z : Chunk)
    → row_in a.chunks at.chunk at.row ≡ some gone
    → at.archetype ≡ a.index
    → a.chunks ≡ front ++ z ∷ []
    → remove a at version ≡ remove_from a at version (some (length front, z))
unfolding remove
remove-start a at version gone front z h here same =
    rw (h, remove)
      (rw (ap (λ x. x == a.index) here ∙ ==_refl a.index)
        (rw (last_chunk-of a.chunks front z same) refl))

-- `Remove` of a row of a packed archetype succeeds, and the archetype stays packed with one row
-- fewer. The row at the last place fills the hole, the last place holds no row any more, and every
-- other row stays where it was. The result is the entity that moved, or the invalid handle if the
-- removed row was the last one.
pub remove_refines :
    (a : Archetype) (at : Location) (version : ℕ) (gone : Row)
    → IsPacked a
    → at.archetype ≡ a.index
    → row_in a.chunks at.chunk at.row ≡ some gone
    → (moved : Handle) × (b : Archetype) × (remove a at version ≡ some (moved, b))
      × Removes a at moved b
unfolding remove
remove_refines a at version gone p here h =
    let (c, chunk, inside) = row_in-chunk a.chunks at.chunk at.row h in
    elim (last-cases a.chunks) [
      | inl none_yet ↦ absurd (ground (arith, chunk, ap (λ xs. get_elem? xs at.chunk) none_yet))
      | inr (front, z, same) ↦
          let (full, pos, le) =
            Packed-last a.layout.capacity front z
              (subst (Packed a.layout.capacity) same p.packed) in
          let (last, found) = get_elem?-total z.rows (length z.rows - 1) (omega (arith, pos)) in
          let start : remove a at version ≡ remove_from a at version (some (length front, z)) =
            remove-start a at version gone front z h here same in
          elim (Bool-cases (is_last at (length front) (length z.rows - 1))) [
            | inl end ↦
                let (b, step, removes) =
                  remove_last-Removes a at version front z last p same found end in
                (Handle.invalid, b, start ∙ step, removes)
            | inr inner ↦
                let (b, step, removes) =
                  remove_inner-Removes a at version front z c last p same found inner chunk
                    inside in
                (last.entity, b, start ∙ step, removes)
          ]
    ]
