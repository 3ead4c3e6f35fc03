-- ===== src/Daemon/Session/Relay.antt =====
-- What a relay of crates/flip-daemon/src/server.rs leaves behind, and what it sends.
use flip_link.Base.{
  ℕ, ◌+◌, ◌≤◌, ◌≡◌, refl, sym, ap, ◌∙◌, arith, Bool, true, false, if◌then◌else◌, Bool-cases, inl,
  inr, ◌⊎◌,
}
use flip_link.Base.{
  List, [], ◌∷◌, ◌++◌, append_assoc, append-nil, length, replicate, drop, Option, none, some,
  if-either, codes, take-append_length, length-replicate, replicate-append,
}
use flip_link.Proto.Bytes.{Bytes}
use flip_link.Proto.Frame.{Frame, MsgType, error, stream_stop, header_size, max_payload}
use flip_link.Proto.Frame.Wire.{wire, frame_size, length-wire, encode-wire}
use flip_link.Proto.Messages.{AgentError}
use flip_link.Core.Reader.{FrameReader, feed, drain}
use flip_link.Daemon.Router.{unregister}
use flip_link.Daemon.Session.{
  Read, closed, nothing, broken, bytes, Recv, reply, empty, disconnected, Turn, Io, Outcome,
  running, ended, failed, queued, streamed, framed, write_all, forward, or_fail, done, is_stop,
  past, get_or_insert, Rest, stops, after_read, after_recv, relay, write_body, internal_error,
}

abbrev pub frame_of : MsgType → ℕ → ℕ → Bytes → Frame
frame_of typ flags seq payload = record { typ = typ; flags = flags; seq = seq; payload = payload }

-- A payload that fits a frame: its bytes are the frame's.
pub framed_lem :
    (typ : MsgType) (flags seq : ℕ) (payload : Bytes)
    → length payload ≤ max_payload
    → framed typ flags seq payload ≡ some (wire 1 (frame_of typ flags seq payload))
unfolding framed
framed_lem typ flags seq payload h =
    let f = frame_of typ flags seq payload in
    let out = replicate (header_size + length payload + 2) 0 in
    let room : length out ≡ header_size + length payload + 2 =
      length-replicate (header_size + length payload + 2) 0 in
    let whole = encode-wire f out h (omega arith) in
    let front =
      take-append_length (wire 1 f) (drop (frame_size f) out) (frame_size f)
        (sym (length-wire 1 f)) in
    rw (whole, front) refl

abbrev pub stop_bytes : ℕ → Bytes
stop_bytes dev_seq = wire 1 (frame_of stream_stop 0 dev_seq [])

pub forward_stop :
    (dev_seq : ℕ) (io : Io)
    → forward stream_stop 0 dev_seq [] io ≡ some (queued (stop_bytes dev_seq) io)
forward_stop dev_seq io = rw (framed_lem stream_stop 0 dev_seq [] (omega arith)) refl

module _ (dev_seq : ℕ) where
  -- The device is sent STREAM_STOP frames alone, and the router is as it was.
  abbrev SentStops : Io → Io → Type 0
  SentStops io io' =
      ((n : ℕ) × (io'.outbound ≡ io.outbound ++ replicate n (stop_bytes dev_seq)))
      × (io'.router ≡ io.router)

  abbrev pub Left : Io → Outcome × Io → Type 0
  Left io o =
      ((n : ℕ) × (o.1.outbound ≡ io.outbound ++ replicate n (stop_bytes dev_seq)))
      × (((o.0 ≡ running) × (o.1.router ≡ io.router))
          ⊎ (((o.0 ≡ ended) × (o.1.router ≡ unregister dev_seq io.router))
              ⊎ ((o.0 ≡ failed)
                  × ((o.1.router ≡ io.router) ⊎ (o.1.router ≡ unregister dev_seq io.router)))))

  Left-after : (io io' : Io) (o : Outcome × Io) → SentStops io io' → Left io' o → Left io o
  Left-after io io' o ((n, sent), same) ((m, more), ends) = (
    (
      n + m,
      more
          ∙ ap (λ l. l ++ replicate m (stop_bytes dev_seq)) sent
          ∙ append_assoc io.outbound (replicate n (stop_bytes dev_seq))
              (replicate m (stop_bytes dev_seq))
          ∙ ap (λ l. io.outbound ++ l) (replicate-append n m (stop_bytes dev_seq)),
    ),
    rw⁻¹ same ends,
  )

  Left-stop : (io : Io) (o : Outcome × Io) → Left (queued (stop_bytes dev_seq) io) o → Left io o
  Left-stop io o = Left-after io (queued (stop_bytes dev_seq) io) o ((1, refl), refl)

  Left-failed : (io : Io) → Left io (failed, io)
  Left-failed io = ((0, sym (append-nil io.outbound)), inr (inr (refl, inl refl)))

  Left-write_all :
      (writes : Bool) (b : Option Bytes) (io : Io) (k : Io → Outcome × Io)
      → ((io' : Io) → Left io' (k io'))
      → Left io (or_fail (write_all writes b io) io k)
  Left-write_all writes none io k h = Left-failed io
  Left-write_all false (some b) io k h = Left-failed io
  Left-write_all true (some b) io k h = h (streamed b io)

  Left-write_body :
      (writes : Bool) (seq : ℕ) (body : Option Bytes) (io : Io) (k : Io → Outcome × Io)
      → ((io' : Io) → Left io' (k io'))
      → Left io (or_fail (write_body writes seq body io) io k)
  Left-write_body writes seq none io k h = Left-failed io
  Left-write_body writes seq (some body) io k h =
      Left-write_all writes (framed error 0 seq body) io k h

  Left-stops :
      (deadline : ℕ) (fs : List Frame) (rest : Rest) (d : Option ℕ) (io : Io)
      → ((d' : Option ℕ) (io' : Io) → Left io' (rest d' io'))
      → Left io (stops dev_seq deadline fs rest d io)
  unfolding stops
  Left-stops deadline [] rest d io h = h d io
  Left-stops deadline (f ∷ fs) rest d io h = elim (Bool-cases (is_stop f)) [
    | inl e ↦
        rw (e, forward_stop dev_seq io)
          (Left-stop io
            (stops dev_seq deadline fs rest (get_or_insert d deadline)
              (queued (stop_bytes dev_seq) io))
            (Left-stops deadline fs rest (get_or_insert d deadline) (queued (stop_bytes dev_seq) io)
              h))
    | inr e ↦ rw e (Left-stops deadline fs rest d io h)
  ]

  Left-after_read :
      (deadline : ℕ) (got : Read) (r : FrameReader) (rest : FrameReader → Rest) (d : Option ℕ)
      (io : Io)
      → ((r' : FrameReader) (d' : Option ℕ) (io' : Io) → Left io' (rest r' d' io'))
      → Left io (after_read dev_seq deadline got r rest d io)
  unfolding after_read
  Left-after_read deadline closed r rest d io h =
      rw (forward_stop dev_seq io) ((1, refl), inr (inl (refl, refl)))
  Left-after_read deadline nothing r rest d io h = h r d io
  Left-after_read deadline broken r rest d io h =
      ((0, sym (append-nil io.outbound)), inr (inr (refl, inr refl)))
  Left-after_read deadline (bytes b) r rest d io h =
      Left-stops deadline (drain (feed r b)).0 (rest (drain (feed r b)).1) d io
        (h (drain (feed r b)).1)

  Left-done : (io : Io) → Left io (done dev_seq io)
  Left-done io = ((0, sym (append-nil io.outbound)), inr (inl (refl, refl)))

  Left-stop_or :
      (f : Frame) (io : Io) (go_on : Io → Outcome × Io)
      → ((io' : Io) → Left io' (go_on io'))
      → Left io (if is_stop f then done dev_seq io else go_on io)
  Left-stop_or f io go_on h =
      if-either (Left io) (is_stop f) (done dev_seq io) (go_on io) (Left-done io) (h io)

  Left-after_recv :
      (client_seq : ℕ) (got : Recv) (writes : Bool) (io : Io) (go_on : Io → Outcome × Io)
      → ((io' : Io) → Left io' (go_on io'))
      → Left io (after_recv client_seq dev_seq got writes io go_on)
  unfolding after_recv
  Left-after_recv client_seq (reply f) writes io go_on h =
      Left-write_all writes (framed f.typ 0 client_seq f.payload) io _
        λ io'. Left-stop_or f io' go_on h
  Left-after_recv client_seq empty writes io go_on h = h io
  Left-after_recv client_seq disconnected writes io go_on h = Left-done io

  -- Whatever the socket, the clock and the device do: the device is sent nothing but STREAM_STOP
  -- frames of the stream's number; the route stays while the relay runs, and is gone when it ends;
  -- when it fails, the route is gone or the router is as it was.
  pub relay-Left :
      (to_payload : AgentError → Option Bytes) (client_seq stop_timeout : ℕ) (ts : List Turn)
      (r : FrameReader) (d : Option ℕ) (io : Io)
      → Left io (relay to_payload client_seq dev_seq stop_timeout ts r d io)
  unfolding relay
  relay-Left to_payload client_seq stop_timeout [] r d io =
      ((0, sym (append-nil io.outbound)), inl (refl, refl))
  relay-Left to_payload client_seq stop_timeout (t ∷ ts) r d io =
      if-either (Left io) (past t.now d) _ _
        (Left-write_body t.writes client_seq
          (to_payload (internal_error (codes "device timeout waiting for stream stop"))) io
          (done dev_seq) Left-done)
        (Left-after_read (t.read_at + stop_timeout) t.read r _ d io λ r' d' io'.
          Left-after_recv client_seq t.recv t.writes io' _
            (relay-Left to_payload client_seq stop_timeout ts r' d'))
