-- ===== src/Net/Prediction/Tests.antt =====
-- Concrete runs of the rings.
use oyi_engine.Prelude.{ℕ, ◌+◌, ◌≡◌, refl, false, none, some, [], ◌∷◌, arith}
use oyi_engine.Net.Prediction.{
  Inputs, History, fresh, holds, get, new_history, find, is_used, capture, truncate, newest_from,
  drop_newer,
}
use oyi_engine.Net.Prediction.Rollback.{find-truncate}
use oyi_engine.Net.Prediction.Window.{push_all, get-push_all}

-- A new ring of two ticks.
abbrev ring : Inputs ℕ
ring = record {
  entries =
      record { value = 0; tick = 0; used = false }
      ∷ record { value = 0; tick = 0; used = false }
      ∷ [];
  capacity = 2;
}

get-push_all_example : get (push_all ring 10 (5 ∷ 6 ∷ 7 ∷ [])) (10 + 2) ≡ some 7
get-push_all_example =
    get-push_all ring 10 2 (5 ∷ 6 ∷ 7 ∷ []) (omega arith, refl) (omega arith) (omega arith)

-- A capture that a newer one in the same slot replaced is gone, and truncating drops the newer.
abbrev history : History ℕ
history = capture (capture (new_history 0 2) 10 5) 12 6

find-history : find history 10 ≡ none
unfolding find holds capture is_used new_history fresh
find-history = refl

truncate-newest : (truncate 0 history 11).count ≡ 0
unfolding truncate drop_newer newest_from capture is_used new_history fresh
truncate-newest = refl

abbrev empty_history : History ℕ
empty_history = record {
  slots =
      record { value = 0; tick = 0; used = false }
      ∷ record { value = 0; tick = 0; used = false }
      ∷ [];
  capacity = 2;
  count = 0;
  newest = 0;
}

find-truncate_example : find (truncate 0 (capture empty_history 10 5) 11) 10 ≡ some 5
find-truncate_example = find-truncate empty_history 0 5 10 11 10 (omega arith) refl
