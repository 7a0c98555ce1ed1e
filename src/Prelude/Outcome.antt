-- ===== src/Prelude/Outcome.antt =====
-- engine/oyi_core/include/oyi_core/Expected.h: a value or an error code (the messages are dropped).

pub data ErrorCode : Type 0 where
  no_error invalid_argument out_of_memory out_of_range not_found already_exists invalid_state :
      ErrorCode
  unsupported io_failure corrupt_data timeout cancelled : ErrorCode

-- `Expected<T>`; `Result` is `Expected` of the unit type.
pub data Expected {ℓ} (A : Type ℓ) : Type ℓ where
  ok : A → Expected A
  fail : ErrorCode → Expected A

infixl 5 ◌>>=◌
abbrev pub ◌>>=◌ {ℓ κ} : {A : Type ℓ} {B : Type κ} → Expected A → (A → Expected B) → Expected B
ok a >>= f = f a
fail e >>= f = fail e
