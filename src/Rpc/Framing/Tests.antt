-- ===== src/Rpc/Framing/Tests.antt =====
-- Concrete runs of the frame reader.
use oyi_engine.Prelude.{
  Bool, true, false, ◌+◌, timeout, ℕ, ◌≡◌, refl, List, [], ◌∷◌, ok, fail, corrupt_data, arith,
}
use mathlib.Core.List.{flatten}
use oyi_engine.Rpc.Framing.{
  read_length, append_frame, push, after_push, encode, length_bytes, Server, bytes, failed, poll,
  drain, has_frame, get_frame, pop_frame,
}
use oyi_engine.Rpc.Framing.Stream.{Equals, poll_all, dispatch_all, receive_all-encode}

-- Two frames, of which the second is empty.
abbrev frames : List (List ℕ)
frames = (7 ∷ 8 ∷ []) ∷ [] ∷ []

-- Their bytes as three reads of the socket.
abbrev chunks : List (List ℕ)
chunks = (2 ∷ 0 ∷ []) ∷ (0 ∷ 0 ∷ 7 ∷ []) ∷ (8 ∷ 0 ∷ 0 ∷ 0 ∷ 0 ∷ []) ∷ []

encode-frames : encode frames ≡ 2 ∷ 0 ∷ 0 ∷ 0 ∷ 7 ∷ 8 ∷ 0 ∷ 0 ∷ 0 ∷ 0 ∷ []
unfolding encode append_frame length_bytes
encode-frames = refl

-- A length of 2^24 + 1 is refused.
push-oversized : push [] (1 ∷ 0 ∷ 0 ∷ 1 ∷ []) ≡ ([], fail corrupt_data)
unfolding push read_length
push-oversized = refl

-- A dispatch that keeps the sum of the payloads' first bytes and fails on an empty payload.
abbrev add_first : ℕ → List ℕ → Bool × ℕ
add_first sum [] = (false, sum)
add_first sum (x ∷ xs) = (true, sum + x)

abbrev idle : Server ℕ
idle = record { reader = []; client_open = true; state = 1 }

-- The first frame is handled; the second drops the client.
polled :
    poll_all add_first idle chunks ≡ (1, record { reader = []; client_open = false; state = 8 })
unfolding poll after_push push drain has_frame get_frame pop_frame read_length
polled = refl

-- A hang-up drops the client, and a timeout does not.
hung_up : poll add_first idle (bytes []) ≡ (ok 0, record idle { client_open = false })
unfolding poll
hung_up = refl

timed_out : poll add_first idle (failed timeout) ≡ (ok 0, idle)
unfolding poll
timed_out = refl

receive_all-encode_example :
    Equals add_first (poll_all add_first idle chunks) (dispatch_all add_first 1 frames)
unfolding encode append_frame length_bytes flatten
receive_all-encode_example =
    receive_all-encode add_first 1 frames chunks (omega arith) (omega arith, (omega arith, tt))
      (omega arith, (omega arith, (omega arith, tt))) refl
