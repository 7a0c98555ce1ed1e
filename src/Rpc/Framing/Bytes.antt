-- ===== src/Rpc/Framing/Bytes.antt =====
-- Framing.cpp: the length prefix reads back, also from a buffer that holds only part of the stream.
use oyi_engine.Prelude.{ℕ, ◌≤◌, ◌<◌, ◌≡◌, refl, List, [], ◌∷◌, ◌++◌, length, drop, arith}
use oyi_engine.Rpc.Framing.{word, read_length, length_bytes}

pub read_length-append : (xs ys : List ℕ) → 4 ≤ length xs → read_length (xs ++ ys) ≡ read_length xs
unfolding read_length
read_length-append [] ys h = absurd (omega arith)
read_length-append (a ∷ []) ys h = absurd (omega arith)
read_length-append (a ∷ b ∷ []) ys h = absurd (omega arith)
read_length-append (a ∷ b ∷ c ∷ []) ys h = absurd (omega arith)
read_length-append (a ∷ b ∷ c ∷ d ∷ xs) ys h = refl

pub read_length-bytes :
    (n : ℕ) (rest : List ℕ) → n < word → read_length (length_bytes n ++ rest) ≡ n
unfolding read_length length_bytes
read_length-bytes n rest h = omega arith

-- Where two splits of one list meet: the longer front begins with the shorter one.
pub append_split {ℓ} :
    {A : Type ℓ} (xs ys rest zs : List A)
    → xs ++ rest ≡ ys ++ zs
    → length ys ≤ length xs
    → (xs ≡ ys ++ drop (length ys) xs) × (drop (length ys) xs ++ rest ≡ zs)
append_split xs [] rest zs e h = (refl, e)
append_split [] (y ∷ ys) rest zs e h = absurd (omega arith)
append_split (x ∷ xs) (y ∷ ys) rest zs e h =
    let (p, q) = append_split xs ys rest zs (cc) (omega arith) in (cc, q)
