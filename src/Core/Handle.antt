-- ===== src/Core/Handle.antt =====
-- engine/oyi_core/include/oyi_core/Handle.h: an index and a generation of 32 bits each.
-- `EntityId` and `CounterId` are both this type; the tag parameter carries no data.
mod Tests
use oyi_engine.Prelude.{ℕ, ◌+◌, ◌*◌, ◌/◌, ◌%◌, ◌^◌, ◌<◌, ◌≡◌, Bool, not, ◌&&◌, ◌==◌, arith}

pub record Handle : Type 0 where
  pub index : ℕ
  pub generation : ℕ

-- `Handle{}`
abbrev pub invalid : Handle
invalid = record { index = 0; generation = 0 }

-- `IsValid`
abbrev pub is_valid : Handle → Bool
is_valid h = not (h.generation == 0)

-- `operator==`, defaulted: all fields agree.
abbrev pub equal : Handle → Handle → Bool
equal a b = a.index == b.index && a.generation == b.generation

-- The fields are 32-bit words.
pub record IsWord (h : Handle) : Type 0 where
  pub index_word : h.index < 2 ^ 32
  pub generation_word : h.generation < 2 ^ 32

-- `ToU64`: the low half of `generation << 32` is zero, so `|` adds the index.
pub to_u64 : Handle → ℕ
to_u64 h = h.generation * 2 ^ 32 % 2 ^ 64 + h.index

-- `FromU64`: `packed & 0xFFFFFFFF` is the remainder modulo 2^32.
pub from_u64 : ℕ → Handle
from_u64 packed = record { index = packed % 2 ^ 32; generation = packed / 2 ^ 32 % 2 ^ 32 }

pub equal→eq : (a b : Handle) → equal a b ≡ Bool.true → a ≡ b
equal→eq a b h = ground arith

-- A handle survives packing into 64 bits and back, the packed value fits 64 bits, and every 64-bit
-- value is the packing of the handle that it unpacks to: packing is a bijection.
pub from_u64-to_u64 :
    (h : Handle) (packed : ℕ)
    → IsWord h
    → packed < 2 ^ 64
    → (from_u64 (to_u64 h) ≡ h) × (to_u64 h < 2 ^ 64) × (to_u64 (from_u64 packed) ≡ packed)
unfolding to_u64 from_u64
from_u64-to_u64 h packed w p = (ground arith, omega arith, omega arith)
