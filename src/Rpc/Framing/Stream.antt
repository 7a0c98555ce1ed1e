-- ===== src/Rpc/Framing/Stream.antt =====
-- RpcServer::Poll: the server dispatches exactly the frames that were written, however the socket
-- cuts the stream.
use mathlib.Core.List.{flatten, append_assoc}
use oyi_engine.Prelude.{
  ◌⊎◌, Bool, if◌then◌else◌, Expected, fail, ℕ, zero, suc, ◌+◌, ◌%◌, ◌≤◌, ◌<◌, ◌≡◌, refl, ap, sym,
  subst, ◌∙◌, inl, inr, true, false, List, [], ◌∷◌, ◌++◌, ltb, length, All, ok, length-drop,
  Bool-cases, arith,
}
use oyi_engine.Rpc.Framing.{
  max_frame_size, word, has_frame, get_frame, pop_frame, Server, bytes, drop_client, drain,
  after_push, poll, encode,
}
use oyi_engine.Rpc.Framing.Frames.{
  IsFrame, has_frame-first, not-has_frame-first, parts, pop_frame-first, get_frame-first,
  nothing_left, push-encoded, waits-end,
}

if_taken : {A : Type 0} (b : Bool) (x y : A) → b ≡ true → (if b then x else y) ≡ x
if_taken b x y e = rw e refl

abbrev handled_frames : Expected ℕ → ℕ
handled_frames (ok n) = n
handled_frames (fail e) = 0

module _ {S : Type 0} (dispatch : S → List ℕ → Bool × S) where
  -- The frames of a list dispatched one by one up to the first that fails: how many succeeded, whether
  -- all did, and the state then.
  abbrev pub dispatch_all : S → List (List ℕ) → ℕ × Bool × S
  dispatch_all state [] = (0, true, state)
  dispatch_all state (f ∷ fs) =
      let (done, next) = dispatch state f in
      let (count, all, last) = dispatch_all next fs in
      if done then (1 + count, all, last) else (0, false, next)

  abbrev more_done : ℕ → ℕ × Bool × S → ℕ × Bool × S
  more_done k (count, all, last) = (k + count, all, last)

  -- What the loop leaves of a connected client, of the stream `fs`: `left` is still to come.
  record Served (rest : List ℕ) (fs : List (List ℕ)) (handled : ℕ) (state : S) (out : ℕ × Server S)
      : Type 0 where
    left : List (List ℕ)
    count : ℕ
    goes_on : dispatch_all state fs ≡ more_done count (dispatch_all out.1.state left)
    counted : out.0 ≡ handled + count
    fewer : count + length left ≤ length fs
    stays_open : out.1.client_open ≡ true
    small : All IsFrame left
    split : out.1.reader ++ rest ≡ encode left
    waits : has_frame out.1.reader ≡ false

  -- What it leaves where a frame failed.
  record Dropped (fs : List (List ℕ)) (handled : ℕ) (state : S) (out : ℕ × Server S) : Type 0 where
    count : ℕ
    ended : dispatch_all state fs ≡ (count, false, out.1.state)
    counted : out.0 ≡ handled + count
    closed : out.1.client_open ≡ false
    cleared : out.1.reader ≡ []

  drain-nothing :
      (fuel handled : ℕ) (s : Server S)
      → has_frame s.reader ≡ false
      → drain dispatch fuel handled s ≡ (handled, s)
  unfolding drain
  drain-nothing zero handled s h = refl
  drain-nothing (suc fuel) handled s h = ground (arith, h)

  abbrev popped : Server S → Server S
  popped s = record s {
    reader = pop_frame s.reader;
    state = (dispatch s.state (get_frame s.reader)).1;
  }

  drain-done :
      (fuel handled : ℕ) (s : Server S)
      → has_frame s.reader ≡ true
      → (dispatch s.state (get_frame s.reader)).0 ≡ true
      → drain dispatch (suc fuel) handled s ≡ drain dispatch fuel ((handled + 1) % word) (popped s)
  unfolding drain
  drain-done fuel handled s h done = ground (arith, h, done)

  drain-failed :
      (fuel handled : ℕ) (s : Server S)
      → has_frame s.reader ≡ true
      → (dispatch s.state (get_frame s.reader)).0 ≡ false
      → drain dispatch (suc fuel) handled s ≡ (handled, drop_client dispatch (popped s))
  unfolding drain
  drain-failed fuel handled s h bad = ground (arith, h, bad)

  more_none : (d : ℕ × Bool × S) → d ≡ more_done 0 d
  more_none (count, all, last) = ap (λ k. (k, all, last)) (omega arith)

  more_step : (k : ℕ) (d : ℕ × Bool × S) → more_done (suc k) d ≡ more_done 1 (more_done k d)
  more_step k (count, all, last) = ap (λ n. (n, all, last)) (omega arith)

  dispatch_all-done :
      (state : S) (f : List ℕ) (fs : List (List ℕ))
      → (dispatch state f).0 ≡ true
      → dispatch_all state (f ∷ fs) ≡ more_done 1 (dispatch_all (dispatch state f).1 fs)
  dispatch_all-done state f fs e = rw e refl

  dispatch_all-failed :
      (state : S) (f : List ℕ) (fs : List (List ℕ))
      → (dispatch state f).0 ≡ false
      → dispatch_all state (f ∷ fs) ≡ (0, false, (dispatch state f).1)
  dispatch_all-failed state f fs e = rw e refl

  waiting :
      (fuel handled : ℕ) (s : Server S) (rest : List ℕ) (fs : List (List ℕ))
      → s.client_open ≡ true
      → All IsFrame fs
      → s.reader ++ rest ≡ encode fs
      → has_frame s.reader ≡ false
      → Served rest fs handled s.state (drain dispatch fuel handled s)
  waiting fuel handled s rest fs up small e h = rw (drain-nothing fuel handled s h) (record {
    left = fs;
    count = 0;
    goes_on = more_none (dispatch_all s.state fs);
    counted = omega arith;
    fewer = omega arith;
    stays_open = up;
    small = small;
    split = e;
    waits = h;
  })

  abbrev Outcome : List ℕ → List (List ℕ) → ℕ → S → ℕ × Server S → Type 0
  Outcome rest fs handled state out =
      Served rest fs handled state out ⊎ Dropped fs handled state out

  -- One frame was dispatched, and the loop goes on.
  one_more :
      (rest f : List ℕ) (fs : List (List ℕ)) (handled : ℕ) (state : S) (out : ℕ × Server S)
      → (dispatch state f).0 ≡ true
      → handled + 1 < word
      → Outcome rest fs ((handled + 1) % word) (dispatch state f).1 out
      → Outcome rest (f ∷ fs) handled state out
  one_more rest f fs handled state out done room (inl d) = inl (record {
    left = d.left;
    count = suc d.count;
    goes_on =
        dispatch_all-done state f fs done
        ∙ ap (more_done 1) d.goes_on
        ∙ sym (more_step d.count (dispatch_all out.1.state d.left));
    counted = omega (arith, d.counted, room);
    fewer = omega (arith, d.fewer);
    stays_open = d.stays_open;
    small = d.small;
    split = d.split;
    waits = d.waits;
  })
  one_more rest f fs handled state out done room (inr d) = inr (record {
    count = 1 + d.count;
    ended = dispatch_all-done state f fs done ∙ ap (more_done 1) d.ended;
    counted = omega (arith, d.counted, room);
    closed = d.closed;
    cleared = d.cleared;
  })

  drain_lem :
      (fuel handled : ℕ) (s : Server S) (rest : List ℕ) (fs : List (List ℕ))
      → length s.reader ≤ fuel
      → handled + length fs < word
      → s.client_open ≡ true
      → All IsFrame fs
      → s.reader ++ rest ≡ encode fs
      → Outcome rest fs handled s.state (drain dispatch fuel handled s)
  unfolding has_frame
  drain_lem fuel handled s rest [] room few up small e =
      inl (waiting fuel handled s rest [] up small e (rw (nothing_left s.reader rest e) refl))
  drain_lem zero handled s rest (f ∷ fs) room few up small e = inl (
      waiting zero handled s rest (f ∷ fs) up small e
        (not-has_frame-first s.reader rest f fs small.0 e (omega arith)))
  drain_lem (suc fuel) handled s rest (f ∷ fs) room few up small e =
      elim (Bool-cases (ltb (length s.reader) (4 + length f))) [
        | inl short ↦ inl (
            waiting (suc fuel) handled s rest (f ∷ fs) up small e
              (not-has_frame-first s.reader rest f fs small.0 e (ground (arith, short))))
        | inr enough ↦
            let h : 4 + length f ≤ length s.reader = ground (arith, enough) in
            let whole = has_frame-first s.reader rest f fs small.0 e h in
            let frame = get_frame-first s.reader rest f fs small.0 e h in
            let next = popped s in
            let pop = pop_frame-first s.reader rest f fs small.0 e h in
            let split : next.reader ++ rest ≡ encode fs =
              ap (λ xs. xs ++ rest) pop ∙ (parts s.reader rest f fs small.0 e h).1 in
            elim (Bool-cases (dispatch s.state (get_frame s.reader)).0) [
              | inl done ↦ rw (drain-done fuel handled s whole done) (
                  one_more rest f fs handled s.state _
                    (ap (λ x. (dispatch s.state x).0) (sym frame) ∙ done) (omega (arith, few))
                    (subst
                      (λ x.
                        Outcome rest fs ((handled + 1) % word) (dispatch s.state x).1
                          (drain dispatch fuel ((handled + 1) % word) next))
                      frame
                      (drain_lem fuel ((handled + 1) % word) next rest fs
                        (omega (arith, ap length pop, length-drop (4 + length f) s.reader, room, h))
                        (omega (arith, few)) up small.1 split)))
              | inr bad ↦ rw (drain-failed fuel handled s whole bad) (
                  inr (record {
                    count = 0;
                    ended =
                        dispatch_all-failed s.state f fs
                          (ap (λ x. (dispatch s.state x).0) (sym frame) ∙ bad)
                        ∙ ap (λ x. (0, false, (dispatch s.state x).1)) (sym frame);
                    counted = omega arith;
                    closed = refl;
                    cleared = refl;
                  }))
            ]
      ]

  -- The rounds of polling as the bytes come in, and the frames handled: a client that was dropped is
  -- not read any more.
  abbrev pub poll_all : Server S → List (List ℕ) → ℕ × Server S
  poll_all s [] = (0, s)
  poll_all s (chunk ∷ chunks) =
      let (handled, next) = poll dispatch s (bytes chunk) in
      let (later, last) = poll_all next chunks in
      if s.client_open then (handled_frames handled + later, last) else (0, s)

  poll_all-closed :
      (s : Server S) (chunks : List (List ℕ)) → s.client_open ≡ false → poll_all s chunks ≡ (0, s)
  poll_all-closed s [] h = refl
  poll_all-closed s (chunk ∷ chunks) h = rw h refl

  poll_all-open :
      (s : Server S) (chunk : List ℕ) (chunks : List (List ℕ)) (handled : ℕ) (next : Server S)
      → s.client_open ≡ true
      → poll dispatch s (bytes chunk) ≡ (ok handled, next)
      → poll_all s (chunk ∷ chunks) ≡ (handled + (poll_all next chunks).0, (poll_all next chunks).1)
  poll_all-open s chunk chunks handled next up e =
      if_taken s.client_open _ _ up
      ∙ ap (λ x. (handled_frames x.0 + (poll_all x.1 chunks).0, (poll_all x.1 chunks).1)) e

  -- One round that received bytes of an allowed stream.
  poll-encoded :
      (s : Server S) (chunk rest : List ℕ) (fs : List (List ℕ))
      → 0 < length chunk
      → All IsFrame fs
      → (s.reader ++ chunk) ++ rest ≡ encode fs
      → let out =
          drain dispatch (length (s.reader ++ chunk)) 0 (record s { reader = s.reader ++ chunk }) in
        poll dispatch s (bytes chunk) ≡ (ok out.0, out.1)
  unfolding poll after_push
  poll-encoded s [] rest fs some small e = absurd (omega arith)
  poll-encoded s (x ∷ xs) rest fs some small e =
      ap (after_push dispatch s) (push-encoded s.reader (x ∷ xs) rest fs small e)

  -- What the rounds come to.
  abbrev pub Equals : ℕ × Server S → ℕ × Bool × S → Type 0
  Equals (handled, s) (count, all, state) =
      (handled ≡ count) × (s.client_open ≡ all) × (s.state ≡ state) × (s.reader ≡ [])

  Equals-more :
      (handled k : ℕ) (p : ℕ × Server S) (d : ℕ × Bool × S)
      → handled ≡ 0 + k
      → Equals p d
      → Equals (handled + p.0, p.1) (more_done k d)
  Equals-more handled k (n, s) (count, all, state) e (same, up, at, read) =
      (omega (arith, e, same), up, at, read)

  poll_all_lem :
      (s : Server S) (chunks fs : List (List ℕ))
      → s.client_open ≡ true
      → length fs < word
      → All IsFrame fs
      → All (λ chunk. 0 < length chunk) chunks
      → s.reader ++ flatten chunks ≡ encode fs
      → has_frame s.reader ≡ false
      → Equals (poll_all s chunks) (dispatch_all s.state fs)
  unfolding flatten
  poll_all_lem s [] fs up few small some e waits =
      let (none_left, read) = waits-end s.reader fs small e waits in
      rw none_left (refl, up, refl, read)
  poll_all_lem s (chunk ∷ chunks) fs up few small some e waits =
      let all = s.reader ++ chunk in
      let split = append_assoc s.reader chunk (flatten chunks) ∙ e in
      let full : Server S = record s { reader = all } in
      let out = drain dispatch (length all) 0 full in
      let step =
        poll_all-open s chunk chunks out.0 out.1 up
          (poll-encoded s chunk (flatten chunks) fs some.0 small split) in
      let served =
        drain_lem (length all) 0 full (flatten chunks) fs (omega arith) (omega (arith, few)) up
          small split in
      subst (λ x. Equals x (dispatch_all s.state fs)) (sym step)
        (elim served [
          | inl d ↦
              subst (Equals (out.0 + (poll_all out.1 chunks).0, (poll_all out.1 chunks).1))
                (sym d.goes_on)
                (Equals-more out.0 d.count (poll_all out.1 chunks) (dispatch_all out.1.state d.left)
                  d.counted
                  (poll_all_lem out.1 chunks d.left d.stays_open (omega (arith, few, d.fewer))
                    d.small some.1 d.split d.waits))
          | inr d ↦
              rw (poll_all-closed out.1 chunks d.closed, d.ended)
                (omega (arith, d.counted), d.closed, refl, d.cleared)
        ])

-- However the socket cuts up a stream of fewer than 2^32 allowed frames into pieces that are not
-- empty, polling a client that is connected comes to dispatching the payloads that were written one
-- by one, in order, up to the first that `Dispatch` fails on: as many frames are counted as handled,
-- the state is the same, the client is still connected exactly if none failed, and nothing is left
-- in the reader.
pub receive_all-encode :
    {S : Type 0} (dispatch : S → List ℕ → Bool × S) (state : S) (fs chunks : List (List ℕ))
    → length fs < word
    → All (λ f. length f ≤ max_frame_size) fs
    → All (λ chunk. 0 < length chunk) chunks
    → flatten chunks ≡ encode fs
    → let s : Server S = record { reader = []; client_open = true; state = state } in
      Equals dispatch (poll_all dispatch s chunks) (dispatch_all dispatch state fs)
unfolding has_frame
receive_all-encode dispatch state fs chunks few small some e =
    poll_all_lem dispatch (record { reader = []; client_open = true; state = state }) chunks fs refl
      few small some e refl
