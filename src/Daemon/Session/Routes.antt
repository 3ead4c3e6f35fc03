-- ===== src/Daemon/Session/Routes.antt =====
-- The routes that a client's session leaves in the router of crates/flip-daemon, and what a request
-- that is answered at once sends.
use flip_link.Base.{
  ℕ, ◌≤◌, ◌≡◌, ◌≢◌, refl, eq→==, Bool, true, false, ◌==◌, if-either, Bool-cases, inl, inr, ◌⊎◌,
}
use flip_link.Base.{List, [], ◌∷◌, ◌++◌, All, Option, none, some, codes, length}
use flip_link.Proto.Bytes.{Bytes}
use flip_link.Proto.Frame.{Frame, hello, caps, stream_start, error, to_u8, max_payload}
use flip_link.Proto.Frame.Wire.{wire}
use flip_link.Proto.Messages.{AgentError}
use flip_link.Core.Reader.{OwnedFrame, FrameReader, new, feed, drain}
use flip_link.Daemon.Router.{Router, Routes, Channel, remove, register, unregister}
use flip_link.Daemon.Session.{
  Read, closed, nothing, broken, bytes, Io, Outcome, running, ended, failed, with_router, queued,
  streamed, woken, unregistered, framed, write_all, write_body, send, or_fail, finished, relay,
  internal_error, Exchange, then_next, stream_stop_ack_timeout, answer_hello, after_reply, proxy,
  serve_frame, serve_frames, serve_client,
}
use flip_link.Daemon.Session.Relay.{frame_of, framed_lem, Left, relay-Left}

-- No route leads to the client.
abbrev pub IsIdle : Channel → Router → Type 0
IsIdle me g = All (λ (route : ℕ × Channel). route.1 ≢ me) g.routes

remove-All :
    (me : Channel) (seq : ℕ) (rs : Routes)
    → All (λ (route : ℕ × Channel). route.1 ≢ me) rs
    → All (λ (route : ℕ × Channel). route.1 ≢ me) (remove seq rs)
unfolding remove
remove-All me seq [] h = tt
remove-All me seq ((s, tx) ∷ rs) h = elim (Bool-cases (s == seq)) [
  | inl e ↦ rw e (remove-All me seq rs h.1)
  | inr e ↦ rw e (h.0, remove-All me seq rs h.1)
]

-- A client that registered and is unregistered has no route again.
unregister-IsIdle :
    (me : Channel) (g : Router)
    → IsIdle me g
    → IsIdle me (unregister (register me g).0 (register me g).1)
unfolding register unregister remove
unregister-IsIdle me g h =
    let same : (g.next_seq == g.next_seq) ≡ true = eq→== g.next_seq g.next_seq refl in
    rw same
      (remove-All me g.next_seq (remove g.next_seq g.routes) (remove-All me g.next_seq g.routes h))

module _ (me : Channel) where
  abbrev Cleared : Outcome × Io → Type 0
  Cleared o = (o.0 ≢ ended) ⊎ IsIdle me o.1.router

  write_all-Cleared :
      (writes : Bool) (b : Option Bytes) (io : Io) (k : Io → Outcome × Io)
      → ((io' : Io) → io'.router ≡ io.router → Cleared (k io'))
      → Cleared (or_fail (write_all writes b io) io k)
  write_all-Cleared writes none io k h = inl λ e. cc
  write_all-Cleared false (some b) io k h = inl λ e. cc
  write_all-Cleared true (some b) io k h = h (streamed b io) refl

  write_body-Cleared :
      (writes : Bool) (seq : ℕ) (body : Option Bytes) (io : Io) (k : Io → Outcome × Io)
      → ((io' : Io) → io'.router ≡ io.router → Cleared (k io'))
      → Cleared (or_fail (write_body writes seq body io) io k)
  write_body-Cleared writes seq none io k h = inl λ e. cc
  write_body-Cleared writes seq (some body) io k h =
      write_all-Cleared writes (framed error 0 seq body) io k h

  send-Cleared :
      (b : Option Bytes) (io : Io) (k : Io → Outcome × Io)
      → ((io' : Io) → io'.router ≡ io.router → Cleared (k io'))
      → Cleared (or_fail (send b io) io k)
  send-Cleared none io k h = inl λ e. cc
  send-Cleared (some b) io k h = h (queued b io) refl

  -- What a relay leaves, when unregistering its number clears the client.
  Left-Cleared :
      (dev_seq : ℕ) (io : Io) (o : Outcome × Io)
      → Left dev_seq io o
      → IsIdle me (unregister dev_seq io.router)
      → Cleared o
  Left-Cleared dev_seq io o (sent, inl (e, same)) h = inl λ q. cc
  Left-Cleared dev_seq io o (sent, inr (inl (e, gone))) h = inr (rw gone h)
  Left-Cleared dev_seq io o (sent, inr (inr (e, either))) h = inl λ q. cc

  finished-Cleared :
      (io io' : Io) → io'.router ≡ io.router → IsIdle me io.router → Cleared (finished io')
  finished-Cleared io io' e h = inr (rw e h)

  module _ (to_payload : AgentError → Option Bytes) where
    after_reply-Cleared :
        (client_seq dev_seq : ℕ) (e : Exchange) (first : Option OwnedFrame) (io : Io)
        → IsIdle me (unregister dev_seq io.router)
        → Cleared (after_reply to_payload client_seq dev_seq e first io)
    unfolding after_reply
    after_reply-Cleared client_seq dev_seq e none io h =
        let io' = unregistered dev_seq io in
        write_body-Cleared e.writes client_seq
          (to_payload (internal_error (codes "device timeout"))) io' finished
          λ io'' same. finished-Cleared io' io'' same h
    after_reply-Cleared client_seq dev_seq e (some f) io h =
        let io' = unregistered dev_seq io in
        if-either Cleared (to_u8 f.typ == to_u8 stream_start) _ _
          (write_all-Cleared e.writes (framed f.typ 0 client_seq f.payload) io _ λ io'' same.
            Left-Cleared dev_seq io''
              (relay to_payload client_seq dev_seq stream_stop_ack_timeout e.turns new none io'')
              (relay-Left dev_seq to_payload client_seq stream_stop_ack_timeout e.turns new none
                io'')
              (rw same h))
          (write_all-Cleared e.writes (framed f.typ 0 client_seq f.payload) io' finished
            λ io'' same. finished-Cleared io' io'' same h)

    answer_hello-Cleared :
        (writes : Bool) (seq : ℕ) (cached : Bytes) (io : Io)
        → IsIdle me io.router
        → Cleared (or_fail (answer_hello to_payload writes seq cached io) io finished)
    unfolding answer_hello
    answer_hello-Cleared writes seq [] io h =
        write_body-Cleared writes seq (to_payload (internal_error (codes "device not connected")))
          io finished λ io' same. finished-Cleared io io' same h
    answer_hello-Cleared writes seq (b ∷ bs) io h =
        write_all-Cleared writes (framed caps 0 seq (b ∷ bs)) io finished
          λ io' same. finished-Cleared io io' same h

    serve_frame-Cleared :
        (e : Exchange) (f : OwnedFrame) (io : Io)
        → IsIdle me io.router
        → Cleared (serve_frame to_payload me e f io)
    unfolding serve_frame proxy
    serve_frame-Cleared e f io h =
        let reg = register me io.router in
        if-either Cleared (to_u8 f.typ == to_u8 hello) _ _
          (answer_hello-Cleared e.writes f.seq io.router.caps_payload io h)
          (send-Cleared (framed f.typ f.flags reg.0 f.payload) (with_router reg.1 io) _ λ io' same.
            after_reply-Cleared f.seq reg.0 e e.first io'
              (rw same (unregister-IsIdle me io.router h)))

    then_next-Cleared :
        (o : Outcome × Io) (k : Io → Outcome × Io)
        → Cleared o
        → ((io : Io) → IsIdle me io.router → Cleared (k io))
        → Cleared (then_next o k)
    then_next-Cleared (ended, io) k (inl n) h = absurd (n refl)
    then_next-Cleared (ended, io) k (inr i) h = h io i
    then_next-Cleared (running, io) k c h = inl λ e. cc
    then_next-Cleared (failed, io) k c h = inl λ e. cc

    serve_frames-Cleared :
        (es : List Exchange) (fs : List OwnedFrame) (io : Io)
        → IsIdle me io.router
        → Cleared (serve_frames to_payload me es fs io)
    unfolding serve_frames
    serve_frames-Cleared es [] io h = inr h
    serve_frames-Cleared [] (f ∷ fs) io h = inl λ e. cc
    serve_frames-Cleared (e ∷ es) (f ∷ fs) io h =
        then_next-Cleared (serve_frame to_payload me e f io) _ (serve_frame-Cleared e f io h)
          (serve_frames-Cleared es fs)

    serve_client-Cleared :
        (reads : List (Read × List Exchange)) (r : FrameReader) (io : Io)
        → IsIdle me io.router
        → Cleared (serve_client to_payload me reads r io)
    unfolding serve_client
    serve_client-Cleared [] r io h = inl λ e. cc
    serve_client-Cleared ((closed, es) ∷ later) r io h = inr h
    serve_client-Cleared ((broken, es) ∷ later) r io h = inl λ e. cc
    serve_client-Cleared ((nothing, es) ∷ later) r io h =
        then_next-Cleared (serve_frames to_payload me es (drain r).0 io) _
          (serve_frames-Cleared es (drain r).0 io h) (serve_client-Cleared later (drain r).1)
    serve_client-Cleared ((bytes b, es) ∷ later) r io h =
        then_next-Cleared (serve_frames to_payload me es (drain (feed r b)).0 (woken io)) _
          (serve_frames-Cleared es (drain (feed r b)).0 (woken io) h)
          (serve_client-Cleared later (drain (feed r b)).1)

-- When the client's socket is closed and the session ends by that, no route to the client is left in
-- the router, whatever was asked and answered before, streams and timeouts included: if the session
-- began with none.
pub serve_client-IsIdle :
    (to_payload : AgentError → Option Bytes) (me : Channel) (reads : List (Read × List Exchange))
    (r : FrameReader) (io : Io)
    → IsIdle me io.router
    → (serve_client to_payload me reads r io).0 ≡ ended
    → IsIdle me (serve_client to_payload me reads r io).1.router
serve_client-IsIdle to_payload me reads r io h e =
    elim (serve_client-Cleared me to_payload reads r io h) [ inl n ↦ absurd (n e) | inr i ↦ i ]

-- A frame that is no HELLO, answered in time by a frame that starts no stream, over an open socket:
-- the device is sent the client's frame under the number that the router gives next, the client is
-- sent the device's under its own number with no flags, and the number is unregistered.
pub serve_frame_once :
    (to_payload : AgentError → Option Bytes) (me : Channel) (e : Exchange) (f answer : Frame)
    (io : Io)
    → (to_u8 f.typ == to_u8 hello) ≡ false
    → (to_u8 answer.typ == to_u8 stream_start) ≡ false
    → e.first ≡ some answer
    → e.writes ≡ true
    → length f.payload ≤ max_payload
    → length answer.payload ≤ max_payload
    → ((serve_frame to_payload me e f io).0 ≡ ended)
      × ((serve_frame to_payload me e f io).1 ≡ record {
        router = unregister io.router.next_seq (register me io.router).1;
        outbound =
            io.outbound ++ (wire 1 (frame_of f.typ f.flags io.router.next_seq f.payload) ∷ []);
        stream = io.stream ++ (wire 1 (frame_of answer.typ 0 f.seq answer.payload) ∷ []);
        wakes = io.wakes;
      })
unfolding serve_frame proxy after_reply register
serve_frame_once to_payload me e f answer io not_hello not_start first taken fits answer_fits =
    let request = framed_lem f.typ f.flags io.router.next_seq f.payload fits in
    let response = framed_lem answer.typ 0 f.seq answer.payload answer_fits in
    rw (not_hello, request, first, not_start, taken, response) (refl, refl)

-- When a STREAM_START cannot be written to the client, the session fails and the stream's route stays
-- in the router, and the device is not told to stop.
pub serve_frame_leaks :
    (to_payload : AgentError → Option Bytes) (me : Channel) (e : Exchange) (f start : Frame)
    (io : Io)
    → (to_u8 f.typ == to_u8 hello) ≡ false
    → (to_u8 start.typ == to_u8 stream_start) ≡ true
    → e.first ≡ some start
    → e.writes ≡ false
    → length f.payload ≤ max_payload
    → length start.payload ≤ max_payload
    → ((serve_frame to_payload me e f io).0 ≡ failed)
      × ((serve_frame to_payload me e f io).1.router ≡ (register me io.router).1)
      × ((serve_frame to_payload me e f io).1.outbound
          ≡ io.outbound ++ (wire 1 (frame_of f.typ f.flags io.router.next_seq f.payload) ∷ []))
unfolding serve_frame proxy after_reply register
serve_frame_leaks to_payload me e f start io not_hello starts first broke fits start_fits =
    let request = framed_lem f.typ f.flags io.router.next_seq f.payload fits in
    let response = framed_lem start.typ 0 f.seq start.payload start_fits in
    rw (not_hello, request, first, starts, broke, response) (refl, refl, refl)
