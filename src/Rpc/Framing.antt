-- ===== src/Rpc/Framing.antt =====
-- engine/oyi_rpc/src/oyi_rpc/Framing.cpp: frames with a 32-bit little-endian length, and the reader
-- that reassembles them; and `RpcServer::Poll` (Server.cpp) over it, for a client that is connected.
-- `Dispatch` decodes a frame by generated code and calls the command handler: it is the argument
-- `dispatch`, of the server's state and a frame, and tells whether it succeeded. A handler that drops
-- the client makes `Dispatch` fail, since the response cannot be sent.
-- A byte is a number below 256. A buffer that outgrows memory terminates the program.
pub mod Bytes
pub mod Frames
pub mod Stream
mod Tests
use oyi_engine.Prelude.{
  ℕ, zero, suc, ◌+◌, ◌-◌, ◌*◌, ◌/◌, ◌%◌, ◌^◌, Bool, true, false, ◌&&◌, List, [], ◌∷◌, ◌++◌, leb,
  ltb, if◌then◌else◌, length, take, drop, Expected, ok, fail, ErrorCode, corrupt_data, timeout,
}

-- `kMaxFrameSize`
abbrev pub max_frame_size : ℕ
max_frame_size = 16 * 1024 * 1024

abbrev pub word : ℕ
word = 2 ^ 32

-- `ReadLength`: the four bytes occupy different bits, so `|` adds them. Every call stands behind a
-- test that the buffer holds four bytes.
pub read_length : List ℕ → ℕ
read_length (a ∷ b ∷ c ∷ d ∷ rest) = a + b * 2 ^ 8 + c * 2 ^ 16 + d * 2 ^ 24
read_length _ = 0

-- The loop of `AppendFrame`: the bytes of the length at shifts 0, 8, 16 and 24.
pub length_bytes : ℕ → List ℕ
length_bytes n = n % 256 ∷ n / 2 ^ 8 % 256 ∷ n / 2 ^ 16 % 256 ∷ n / 2 ^ 24 % 256 ∷ []

-- `AppendFrame`
pub append_frame : List ℕ → List ℕ → List ℕ
unfolding length_bytes
append_frame out payload = out ++ (length_bytes (length payload % word) ++ payload)

-- `FrameReader` is its buffer.
abbrev pub Reader : Type 0
Reader = List ℕ

-- `FrameReader::Push`: the reader afterwards, and whether the bytes were accepted.
pub push : Reader → List ℕ → Reader × Expected (Unit {0})
push buffer bytes =
    let all = buffer ++ bytes in
    if leb 4 (length all) && ltb max_frame_size (read_length all)
    then ([], fail corrupt_data)
    else (all, ok tt)

-- `FrameReader::HasFrame`
pub has_frame : Reader → Bool
has_frame buffer = leb 4 (length buffer) && leb (read_length buffer) (length buffer - 4)

-- `FrameReader::GetFrame`
pub get_frame : Reader → List ℕ
unfolding has_frame
get_frame buffer = if has_frame buffer then take (read_length buffer) (drop 4 buffer) else []

-- `FrameReader::PopFrame`; `4 + ReadLength` is a 32-bit sum.
pub pop_frame : Reader → Reader
unfolding has_frame
pop_frame buffer =
    if has_frame buffer then drop ((4 + read_length buffer) % word) buffer else buffer

-- What a server keeps between frames: the reader, whether a client is connected, and the state `S`
-- that `Dispatch` works on.
pub record Server (S : Type 0) : Type 0 where
  pub reader : Reader
  pub client_open : Bool
  pub state : S

-- What `Receive` returned.
pub data Received : Type 0 where
  bytes : List ℕ → Received
  failed : ErrorCode → Received

module _ {S : Type 0} (dispatch : S → List ℕ → Bool × S) where
  -- `DropClient`
  abbrev pub drop_client : Server S → Server S
  drop_client s = record s { reader = []; client_open = false }

  -- The loop `while (HasFrame())` of `RpcServer::Poll`, with the frames handled so far in 32 bits. A
  -- round takes at least four bytes out of the reader, so its length is fuel enough.
  pub drain : ℕ → ℕ → Server S → ℕ × Server S
  unfolding has_frame get_frame pop_frame
  drain zero handled s = (handled, s)
  drain (suc fuel) handled s =
      let (done, state) = dispatch s.state (get_frame s.reader) in
      let popped : Server S = record s { reader = pop_frame s.reader; state = state } in
      let rest = drain fuel ((handled + 1) % word) popped in
      if has_frame s.reader
      then (if done then rest else (handled, drop_client popped))
      else (handled, s)

  -- `Poll` where `Push` refused the bytes: too long a frame is the client's fault.
  refused : Server S → ErrorCode → Expected ℕ × Server S
  refused s corrupt_data = (ok 0, drop_client s)
  refused s e = (fail e, drop_client s)

  -- `Poll` behind `Push`, with what it returned.
  pub after_push : Server S → Reader × Expected (Unit {0}) → Expected ℕ × Server S
  unfolding drain refused
  after_push s (all, fail e) = refused (record s { reader = all }) e
  after_push s (all, ok _) =
      let (handled, after) = drain (length all) 0 (record s { reader = all }) in (ok handled, after)

  -- `Poll` of a client that is connected, from the call of `Receive` on.
  pub poll : Server S → Received → Expected ℕ × Server S
  unfolding push after_push
  poll s (failed timeout) = (ok 0, s)
  poll s (failed e) = (ok 0, drop_client s)
  poll s (bytes []) = (ok 0, drop_client s)
  poll s (bytes (x ∷ xs)) = after_push s (push s.reader (x ∷ xs))

-- What the sender writes for a list of payloads.
pub encode : List (List ℕ) → List ℕ
unfolding append_frame
encode [] = []
encode (f ∷ fs) = append_frame [] f ++ encode fs
