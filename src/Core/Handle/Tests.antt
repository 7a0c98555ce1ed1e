-- ===== src/Core/Handle/Tests.antt =====
-- Concrete runs of the handle operations.
use oyi_engine.Prelude.{◌^◌, ◌<◌, ◌≡◌, refl, arith}
use oyi_engine.Core.Handle.{Handle, IsWord, to_u64, from_u64, from_u64-to_u64}

abbrev entity : Handle
entity = record { index = 5; generation = 3 }

entity-IsWord : IsWord entity
entity-IsWord = record { index_word = omega arith; generation_word = omega arith }

to_u64-entity : to_u64 entity ≡ 12884901893
unfolding to_u64
to_u64-entity = refl

from_u64-to_u64_example :
    (from_u64 (to_u64 entity) ≡ entity)
    × (to_u64 entity < 2 ^ 64)
    × (to_u64 (from_u64 12884901893) ≡ 12884901893)
from_u64-to_u64_example = from_u64-to_u64 entity 12884901893 entity-IsWord (omega arith)
