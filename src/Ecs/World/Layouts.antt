-- ===== src/Ecs/World/Layouts.antt =====
-- World.cpp: every archetype has the layout that `ChunkLayout::Compute` gives for its mask, and when
-- `GetOrCreateArchetype` fails.
use oyi_engine.Prelude.{
  ℕ, ◌⊎◌, ◌≡◌, refl, sym, ap, ◌∙◌, subst, inl, inr, Bool, true, false, none, some, some-injective,
  [], ◌∷◌, ◌++◌, ◌==◌, length, get_elem?, set, get_elem?-push, get_elem?-set, get_elem?-lt,
  Bool-cases, Option-cases, All, Expected, ErrorCode, ok, fail, out_of_memory, arith,
}
use oyi_engine.Ecs.ComponentMask
use oyi_engine.Ecs.ComponentMask.{Mask}
use oyi_engine.Ecs.ChunkLayout
use oyi_engine.Ecs.ChunkLayout.{Layout}
use oyi_engine.Ecs.Archetype.{Archetype}
use oyi_engine.Ecs.Archetype.Packed.{Full}
use oyi_engine.Ecs.World.{World, Memory, find_archetype, get_or_create_archetype}
use oyi_engine.Ecs.World.Reserve.{Fits}

abbrev pub HasLayouts : World → Type 0
HasLayouts w =
    (i : ℕ) (a : Archetype)
    → get_elem? w.archetypes i ≡ some a
    → ChunkLayout.compute w.infos a.mask w.chunk_size ≡ ok a.layout

-- Why `CreateEntityIn` fails: there is no layout for the mask, no memory for a new archetype, or no
-- memory for a chunk where the archetype of the mask is full or new.
pub data Fails (w : World) (mask : Mask) (is_prototype : Bool) (memory : Memory)
    : ErrorCode → Type 0 where
  no_layout :
      {e : ErrorCode}
      → find_archetype w.archetypes mask is_prototype ≡ none
      → ChunkLayout.compute w.infos mask w.chunk_size ≡ fail e
      → Fails w mask is_prototype memory e
  no_archetype :
      find_archetype w.archetypes mask is_prototype ≡ none
      → memory.archetype ≡ false
      → Fails w mask is_prototype memory out_of_memory
  no_chunk :
      (i : ℕ) (a : Archetype)
      → find_archetype w.archetypes mask is_prototype ≡ some i
      → get_elem? w.archetypes i ≡ some a
      → Fits mask is_prototype a
      → All (Full a.layout.capacity) a.chunks
      → memory.chunk ≡ false
      → Fails w mask is_prototype memory out_of_memory
  no_first_chunk :
      find_archetype w.archetypes mask is_prototype ≡ none
      → memory.chunk ≡ false
      → Fails w mask is_prototype memory out_of_memory

-- The archetype at `i` was there, or there was none of the mask and kind.
pub Known : World → Mask → Bool → ℕ → Archetype → Type 0
Known w mask is_prototype i a =
    ((find_archetype w.archetypes mask is_prototype ≡ some i) × (get_elem? w.archetypes i ≡ some a))
    ⊎ (find_archetype w.archetypes mask is_prototype ≡ none)

pub Known-Fails :
    (w : World) (mask : Mask) (p : Bool) (memory : Memory) (i : ℕ) (a : Archetype)
    → Known w mask p i a
    → Fits mask p a
    → All (Full a.layout.capacity) a.chunks
    → memory.chunk ≡ false
    → Fails w mask p memory out_of_memory
unfolding Known
Known-Fails w mask p memory i a (inl (found, there)) fits full denied =
    no_chunk i a found there fits full denied
Known-Fails w mask p memory i a (inr missing) fits full denied = no_first_chunk missing denied

pub equal→eq : (a b : Mask) → ComponentMask.equal a b ≡ true → a ≡ b
unfolding ComponentMask.equal
equal→eq [] [] h = refl
equal→eq (x ∷ xs) [] h = cc
equal→eq [] (y ∷ ys) h = cc
equal→eq (x ∷ xs) (y ∷ ys) h =
    let head : x ≡ y = ground (arith, h) in
    let tail : xs ≡ ys = equal→eq xs ys (ground (arith, h)) in rw (head, tail) refl

-- An archetype put in the place of one with the same mask and layout.
pub set-HasLayouts :
    (w : World) (i : ℕ) (a b : Archetype)
    → get_elem? w.archetypes i ≡ some a
    → b.mask ≡ a.mask
    → b.layout ≡ a.layout
    → HasLayouts w
    → HasLayouts (record w { archetypes = set w.archetypes i b })
set-HasLayouts w i a b found mask layout h j c e =
    let read = get_elem?-set w.archetypes i j b (get_elem?-lt w.archetypes i found) in
    elim (Bool-cases (i == j)) [
      | inl here ↦
          let same : b ≡ c = some-injective b c (ground (arith, read, here, e)) in
          subst (λ x. ChunkLayout.compute w.infos x.mask w.chunk_size ≡ ok x.layout) same
            (ap (λ m. ChunkLayout.compute w.infos m w.chunk_size) mask
              ∙ h i a found
              ∙ ap ok (sym layout))
      | inr there ↦ h j c (ground (arith, read, there, e))
    ]

push-HasLayouts :
    (w : World) (b : Archetype)
    → ChunkLayout.compute w.infos b.mask w.chunk_size ≡ ok b.layout
    → HasLayouts w
    → HasLayouts (record w { archetypes = w.archetypes ++ b ∷ [] })
push-HasLayouts w b new h j c e =
    let read = get_elem?-push w.archetypes b j in
    elim (Bool-cases (length w.archetypes == j)) [
      | inl here ↦
          let same : b ≡ c = some-injective b c (ground (arith, read, here, e)) in
          subst (λ x. ChunkLayout.compute w.infos x.mask w.chunk_size ≡ ok x.layout) same new
      | inr there ↦ h j c (ground (arith, read, there, e))
    ]

pub Expected-cases {ℓ} :
    {A : Type ℓ} (o : Expected A) → ((err : ErrorCode) × (o ≡ fail err)) ⊎ ((a : A) × (o ≡ ok a))
Expected-cases (fail err) = inl (err, refl)
Expected-cases (ok a) = inr (a, refl)

-- What `GetOrCreateArchetype` does to the layouts, and why it fails.
pub record Lays (w : World) (mask : Mask) (p : Bool) (memory : Memory) (out : Expected ℕ × World)
    : Type 0 where
  pub layouts : HasLayouts out.1
  pub same_infos : out.1.infos ≡ w.infos
  pub same_size : out.1.chunk_size ≡ w.chunk_size
  pub fails : (e : ErrorCode) → out.0 ≡ fail e → Fails w mask p memory e
  pub known :
      (i : ℕ) (a : Archetype)
      → out.0 ≡ ok i
      → get_elem? out.1.archetypes i ≡ some a
      → Known w mask p i a

fail_lem {ℓ} : {A : Type ℓ} {B : Type 0} {a : A} {e : ErrorCode} → ok a ≡ fail e → B
fail_lem h = absurd (cc)

fail-injective {ℓ} : {A : Type ℓ} (d e : ErrorCode) → Path (Expected A) (fail d) (fail e) → d ≡ e
fail-injective d e h = cc

ok-injective : (i j : ℕ) → Path (Expected ℕ) (ok i) (ok j) → i ≡ j
ok-injective i j h = cc

pub get_or_create-Lays :
    (w : World) (mask : Mask) (p : Bool) (memory : Memory) (granted : Bool)
    → memory.archetype ≡ granted
    → HasLayouts w
    → Lays w mask p memory (get_or_create_archetype w mask p granted)
unfolding get_or_create_archetype Known
get_or_create-Lays w mask p memory granted answer h =
    elim (Option-cases (find_archetype w.archetypes mask p)) [
      | inr (i, found) ↦
          rw (found, get_or_create_archetype)
            (record {
              layouts = h;
              same_infos = refl;
              same_size = refl;
              fails = λ e f. fail_lem f;
              known = λ j a e there. inl (
                subst (λ k. find_archetype w.archetypes mask p ≡ some k) (ok-injective i j e) found,
                there,
              );
            })
      | inl missing ↦ elim (Expected-cases (ChunkLayout.compute w.infos mask w.chunk_size)) [
        | inl (err, none_fits) ↦
            rw (missing, get_or_create_archetype)
              (rw none_fits (record {
                layouts = h;
                same_infos = refl;
                same_size = refl;
                fails = λ e f.
                    subst (Fails w mask p memory) (fail-injective err e f)
                      (no_layout missing none_fits);
                known = λ j a e there. inr missing;
              }))
        | inr (layout, fits) ↦ elim (Bool-cases granted) [
          | inl given ↦
              rw (missing, get_or_create_archetype)
                (rw (fits, given)
                  (record {
                    layouts = push-HasLayouts w _ fits h;
                    same_infos = refl;
                    same_size = refl;
                    fails = λ e f. fail_lem f;
                    known = λ j a e there. inr missing;
                  }))
          | inr denied ↦
              rw (missing, get_or_create_archetype)
                (rw (fits, denied)
                  (record {
                    layouts = h;
                    same_infos = refl;
                    same_size = refl;
                    fails = λ e f.
                        subst (Fails w mask p memory) (fail-injective out_of_memory e f)
                          (no_archetype missing (answer ∙ denied));
                    known = λ j a e there. inr missing;
                  }))
        ]
      ]
    ]
