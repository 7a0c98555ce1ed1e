-- ===== src/Rpc/Framing/Frames.antt =====
-- Framing.cpp: the first frame of a stream that the reader holds a part of.
use mathlib.Core.List.{append-nil, append_assoc}
use oyi_engine.Prelude.{
  ℕ, ◌+◌, ◌%◌, ◌≤◌, ◌<◌, ◌≡◌, refl, ap, sym, ◌∙◌, true, false, List, [], ◌∷◌, ◌++◌, length, take,
  drop, All, ok, length-append, take-append, arith,
}
use oyi_engine.Rpc.Framing.{
  max_frame_size, word, read_length, length_bytes, append_frame, push, has_frame, get_frame,
  pop_frame, encode,
}
use oyi_engine.Rpc.Framing.Bytes.{read_length-append, read_length-bytes, append_split}

-- A payload that the protocol allows.
abbrev pub IsFrame : List ℕ → Type 0
IsFrame f = length f ≤ max_frame_size

module _ (all rest f : List ℕ) (fs : List (List ℕ)) (small : IsFrame f)
    (split : all ++ rest ≡ encode (f ∷ fs)) where
  first : all ++ rest ≡ append_frame [] f ++ encode fs
  unfolding encode
  first = split

  length-first : length (append_frame [] f) ≡ 4 + length f
  unfolding append_frame length_bytes
  length-first = omega arith

  read_length-first : 4 ≤ length all → read_length all ≡ length f
  unfolding append_frame
  read_length-first h =
      sym (read_length-append all rest h)
      ∙ ap read_length (first ∙ append_assoc (length_bytes (length f % word)) f (encode fs))
      ∙ read_length-bytes (length f % word) (f ++ encode fs) (omega arith)
      ∙ omega arith

  pub has_frame-first : (4 + length f ≤ length all) → has_frame all ≡ true
  unfolding has_frame
  has_frame-first h = ground (arith, read_length-first (omega arith))

  pub not-has_frame-first : length all < 4 + length f → has_frame all ≡ false
  unfolding has_frame
  not-has_frame-first h = ground (arith, read_length-first)

  pub parts :
      (4 + length f ≤ length all)
      → (all ≡ append_frame [] f ++ drop (4 + length f) all)
        × (drop (4 + length f) all ++ rest ≡ encode fs)
  parts h =
      rw (← length-first)
        (append_split all (append_frame [] f) rest (encode fs) first (omega (arith, length-first)))

  pub pop_frame-first : (4 + length f ≤ length all) → pop_frame all ≡ drop (4 + length f) all
  unfolding pop_frame
  pop_frame-first h =
      rw (has_frame-first h, read_length-first (omega arith)) (ap (λ n. drop n all) (omega arith))

  pub get_frame-first : (4 + length f ≤ length all) → get_frame all ≡ f
  unfolding get_frame append_frame length_bytes
  get_frame-first h =
      rw (has_frame-first h, read_length-first (omega arith))
        (ap (λ xs. take (length f) (drop 4 xs)) (parts h).0
          ∙ take-append f (drop (4 + length f) all))

small_reader : (all : List ℕ) → length all ≡ 0 → all ≡ []
small_reader [] h = refl
small_reader (x ∷ xs) h = absurd (omega arith)

pub nothing_left : (all rest : List ℕ) → all ++ rest ≡ encode [] → all ≡ []
unfolding encode
nothing_left all rest e = small_reader all (omega (arith, ap length e, length-append all rest))

-- `Push` accepts a stream of allowed frames.
pub push-encoded :
    (buffer chunk rest : List ℕ) (fs : List (List ℕ))
    → All IsFrame fs
    → (buffer ++ chunk) ++ rest ≡ encode fs
    → push buffer chunk ≡ (buffer ++ chunk, ok tt)
unfolding push
push-encoded buffer chunk rest [] small e = rw (nothing_left (buffer ++ chunk) rest e) refl
push-encoded buffer chunk rest (f ∷ fs) small e =
    ground (arith, read_length-first (buffer ++ chunk) rest f fs small.0 e, small.0)

pub waits-end :
    (buffer : List ℕ) (fs : List (List ℕ))
    → All IsFrame fs
    → buffer ++ [] ≡ encode fs
    → has_frame buffer ≡ false
    → (fs ≡ []) × (buffer ≡ [])
waits-end buffer [] small e h = (refl, nothing_left buffer [] e)
waits-end buffer (f ∷ fs) small e h =
    absurd (absurd_frame (has_frame-first buffer [] f fs small.0 e))
  where
    whole : 4 + length f ≤ length buffer
    whole = omega (
      arith,
      ap length (sym (append-nil buffer) ∙ first buffer [] f fs small.0 e),
      length-append (append_frame [] f) (encode fs),
      length-first buffer [] f fs small.0 e,
    )

    absurd_frame : (4 + length f ≤ length buffer → has_frame buffer ≡ true) → ⊥
    absurd_frame k = cc (k whole)
