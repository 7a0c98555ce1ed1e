-- ===== src/Ecs/Schedule/Sort/Release.antt =====
-- Schedule.cpp, `Sort`: what the loop over the successors of a placed system leaves, index by index.
use oyi_engine.Prelude.{
  ℕ, zero, suc, ◌+◌, ◌-◌, ◌≤◌, ◌<◌, ◌≡◌, refl, Bool, true, ◌&&◌, List, [], ◌∷◌, ◌==◌, if◌then◌else◌,
  ltb, leb, length, length-set, get_or, set, count, arith, ◌∙◌,
}
use oyi_engine.Ecs.Schedule.{System, predecessors}
use oyi_engine.Ecs.Schedule.Sort.{
  Progress, takes_part, decrement, edge, follow, release, range_from,
}
use oyi_engine.Ecs.Schedule.Sort.Pick.{count-push}

get_or-set :
    (xs : List ℕ) (i j v : ℕ)
    → i < length xs
    → get_or (set xs i v) j 0 ≡ (if j == i then v else get_or xs j 0)
get_or-set [] i j v h = absurd (omega arith)
get_or-set (x ∷ xs) zero zero v h = ground arith
get_or-set (x ∷ xs) zero (suc j) v h = ground arith
get_or-set (x ∷ xs) (suc i) zero v h = ground arith
get_or-set (x ∷ xs) (suc i) (suc j) v h = ground (arith, get_or-set xs i j v)

follow-order : (c s : ℕ) (qs : List ℕ) (p : Progress) → (follow c s qs p).order ≡ p.order
unfolding follow edge
follow-order c s [] p = refl
follow-order c s (q ∷ qs) p = ground (arith, follow-order c s qs (if q == c then edge c s p else p))

follow-length :
    (c s : ℕ) (qs : List ℕ) (p : Progress) → length (follow c s qs p).indegree ≡ length p.indegree
unfolding follow edge
follow-length c s [] p = refl
follow-length c s (q ∷ qs) p = ground (
  arith,
  follow-length c s qs (if q == c then edge c s p else p),
  length-set p.indegree s (decrement (get_or p.indegree s 0)),
)

-- Each of the edges from `c` takes one off the indegree of `s`, and the last makes it ready.
module _ (c s : ℕ) where
  follow-indegree :
      (qs : List ℕ) (p : Progress) (x : ℕ)
      → s < length p.indegree
      → count c qs ≤ get_or p.indegree s 0
      → get_or (follow c s qs p).indegree x 0
        ≡ (if x == s then get_or p.indegree s 0 - count c qs else get_or p.indegree x 0)
  unfolding follow edge decrement
  follow-indegree [] p x h k = ground arith
  follow-indegree (q ∷ qs) p x h k = ground (
    arith,
    follow-indegree qs (if q == c then edge c s p else p) x,
    length-set p.indegree s (decrement (get_or p.indegree s 0)),
    get_or-set p.indegree s x (decrement (get_or p.indegree s 0)) h,
    get_or-set p.indegree s s (decrement (get_or p.indegree s 0)) h,
  )

  follow-ready :
      (qs : List ℕ) (p : Progress) (x : ℕ)
      → s < length p.indegree
      → count c qs ≤ get_or p.indegree s 0
      → count x (follow c s qs p).ready
        ≡ count x p.ready
          + (if x == s && ltb 0 (count c qs) && get_or p.indegree s 0 == count c qs then 1 else 0)
  unfolding follow edge decrement
  follow-ready [] p x h k = ground arith
  follow-ready (q ∷ qs) p x h k = ground (
    arith,
    follow-ready qs (if q == c then edge c s p else p) x,
    length-set p.indegree s (decrement (get_or p.indegree s 0)),
    get_or-set p.indegree s s (decrement (get_or p.indegree s 0)) h,
    count-push x p.ready s,
  )

module _ (kind : ℕ) (systems : List System) (phase c : ℕ) where
  abbrev edges_from : ℕ → ℕ
  edges_from s = count c (predecessors systems s)

  abbrev part : ℕ → Bool
  part s = takes_part kind systems phase s

  -- The body of the loop over the candidates.
  abbrev visit : ℕ → Progress → Progress
  visit s p = if part s then follow c s (predecessors systems s) p else p

  abbrev release_all : ℕ → ℕ → Progress → Progress
  release_all i n p = release kind systems phase c (range_from i n) p

  -- The indegrees cover the edges from `c` to the systems from `i` on.
  abbrev Covers : ℕ → Progress → Type 0
  Covers i p = (s : ℕ) → i ≤ s → part s ≡ true → edges_from s ≤ get_or p.indegree s 0

  visit-length : (s : ℕ) (p : Progress) → length (visit s p).indegree ≡ length p.indegree
  visit-length s p = ground (arith, follow-length c s (predecessors systems s) p)

  visit-indegree :
      (s : ℕ) (p : Progress) (x : ℕ)
      → s < length p.indegree
      → Covers s p
      → get_or (visit s p).indegree x 0
        ≡ (if x == s && part s then get_or p.indegree s 0 - edges_from s else get_or p.indegree x 0)
  visit-indegree s p x h k = ground (arith, k s, follow-indegree c s (predecessors systems s) p x h)

  visit-ready :
      (s : ℕ) (p : Progress) (x : ℕ)
      → s < length p.indegree
      → Covers s p
      → count x (visit s p).ready
        ≡ count x p.ready
          + (if x == s && part s && ltb 0 (edges_from s) && get_or p.indegree s 0 == edges_from s
              then 1
              else 0)
  visit-ready s p x h k = ground (arith, k s, follow-ready c s (predecessors systems s) p x h)

  visit-Covers :
      (s : ℕ) (p : Progress) → s < length p.indegree → Covers s p → Covers (suc s) (visit s p)
  visit-Covers s p h k x le t = ground (arith, visit-indegree s p x h k, k x)

  pub release-order :
      (ss : List ℕ) (p : Progress) → (release kind systems phase c ss p).order ≡ p.order
  unfolding release
  release-order [] p = refl
  release-order (s ∷ ss) p =
      ground (arith, release-order ss (visit s p), follow-order c s (predecessors systems s) p)

  pub release-length :
      (ss : List ℕ) (p : Progress)
      → length (release kind systems phase c ss p).indegree ≡ length p.indegree
  unfolding release
  release-length [] p = refl
  release-length (s ∷ ss) p = release-length ss (visit s p) ∙ visit-length s p

  pub release-indegree :
      (n i : ℕ) (p : Progress) (x : ℕ)
      → i + n ≤ length p.indegree
      → Covers i p
      → get_or (release_all i n p).indegree x 0 ≡ (
          if leb i x && ltb x (i + n) && part x
          then get_or p.indegree x 0 - edges_from x
          else get_or p.indegree x 0)
  unfolding release
  release-indegree zero i p x h k = ground arith
  release-indegree (suc n) i p x h k = ground (
    arith,
    release-indegree n (suc i) (visit i p) x,
    visit-Covers i p,
    visit-length i p,
    visit-indegree i p x,
  )

  pub release-ready :
      (n i : ℕ) (p : Progress) (x : ℕ)
      → i + n ≤ length p.indegree
      → Covers i p
      → count x (release_all i n p).ready
        ≡ count x p.ready
          + (if leb i x
                && ltb x (i + n)
                && part x
                && ltb 0 (edges_from x)
                && get_or p.indegree x 0 == edges_from x
              then 1
              else 0)
  unfolding release
  release-ready zero i p x h k = ground arith
  release-ready (suc n) i p x h k = ground (
    arith,
    release-ready n (suc i) (visit i p) x,
    visit-Covers i p,
    visit-length i p,
    visit-indegree i p x,
    visit-ready i p x,
  )
