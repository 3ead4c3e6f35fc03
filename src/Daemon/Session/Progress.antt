-- ===== src/Daemon/Session/Progress.antt =====
-- What a relay of crates/flip-daemon/src/server.rs sends to the client, and that it ends once the
-- client has asked it to.
use flip_link.Base.{
  ℕ, ◌+◌, ◌≤◌, ◌≡◌, ◌≢◌, arith, Bool, true, false, leb, ◌||◌, if-either, Bool-cases, inl, inr,
}
use flip_link.Base.{List, [], ◌∷◌, ◌++◌, Option, none, some, codes}
use flip_link.Proto.Bytes.{Bytes}
use flip_link.Proto.Frame.{Frame, error}
use flip_link.Proto.Messages.{AgentError}
use flip_link.Core.Reader.{FrameReader, feed, drain}
use flip_link.Daemon.Session.{
  Read, closed, nothing, broken, bytes, Recv, reply, empty, disconnected, Turn, Io, Outcome,
  running, queued, streamed, framed, write_all, or_fail, done, is_stop, Rest, stops, after_read,
  after_recv, relay, write_body, internal_error,
}
use flip_link.Daemon.Session.Relay.{stop_bytes, forward_stop}

abbrev pub asks_stop : List Frame → Bool
asks_stop [] = false
asks_stop (f ∷ fs) = is_stop f || asks_stop fs

abbrev Settled : Outcome × Io → Type 0
Settled o = o.0 ≢ running

module _ (dev_seq : ℕ) where
  -- A deadline that is set stays.
  stops-Settled :
      (other deadline : ℕ) (fs : List Frame) (rest : Rest) (io : Io)
      → ((io' : Io) → Settled (rest (some deadline) io'))
      → Settled (stops dev_seq other fs rest (some deadline) io)
  unfolding stops
  stops-Settled other deadline [] rest io h = h io
  stops-Settled other deadline (f ∷ fs) rest io h = elim (Bool-cases (is_stop f)) [
    | inl e ↦
        rw (e, forward_stop dev_seq io)
          (stops-Settled other deadline fs rest (queued (stop_bytes dev_seq) io) h)
    | inr e ↦ rw e (stops-Settled other deadline fs rest io h)
  ]

  -- The first STREAM_STOP of the client sets it.
  stops-asked :
      (deadline : ℕ) (fs : List Frame) (rest : Rest) (io : Io)
      → asks_stop fs ≡ true
      → ((io' : Io) → Settled (rest (some deadline) io'))
      → Settled (stops dev_seq deadline fs rest none io)
  unfolding stops
  stops-asked deadline [] rest io a h = absurd cc
  stops-asked deadline (f ∷ fs) rest io a h = elim (Bool-cases (is_stop f)) [
    | inl e ↦
        rw (e, forward_stop dev_seq io)
          (stops-Settled deadline deadline fs rest (queued (stop_bytes dev_seq) io) h)
    | inr e ↦ rw e (stops-asked deadline fs rest io (ground arith) h)
  ]

  after_read-Settled :
      (other deadline : ℕ) (got : Read) (r : FrameReader) (rest : FrameReader → Rest) (io : Io)
      → ((r' : FrameReader) (io' : Io) → Settled (rest r' (some deadline) io'))
      → Settled (after_read dev_seq other got r rest (some deadline) io)
  unfolding after_read
  after_read-Settled other deadline closed r rest io h = rw (forward_stop dev_seq io) (λ e. cc)
  after_read-Settled other deadline nothing r rest io h = h r io
  after_read-Settled other deadline broken r rest io h = λ e. cc
  after_read-Settled other deadline (bytes b) r rest io h =
      stops-Settled other deadline (drain (feed r b)).0 (rest (drain (feed r b)).1) io
        (h (drain (feed r b)).1)

  write_all-Settled :
      (writes : Bool) (b : Option Bytes) (io : Io) (k : Io → Outcome × Io)
      → ((io' : Io) → Settled (k io'))
      → Settled (or_fail (write_all writes b io) io k)
  write_all-Settled writes none io k h = λ e. cc
  write_all-Settled false (some b) io k h = λ e. cc
  write_all-Settled true (some b) io k h = h (streamed b io)

  write_body-Settled :
      (writes : Bool) (seq : ℕ) (body : Option Bytes) (io : Io)
      → Settled (or_fail (write_body writes seq body io) io (done dev_seq))
  write_body-Settled writes seq none io = λ e. cc
  write_body-Settled writes seq (some body) io =
      write_all-Settled writes (framed error 0 seq body) io (done dev_seq) λ io' e. cc

  after_recv-Settled :
      (client_seq : ℕ) (got : Recv) (writes : Bool) (io : Io) (go_on : Io → Outcome × Io)
      → ((io' : Io) → Settled (go_on io'))
      → Settled (after_recv client_seq dev_seq got writes io go_on)
  unfolding after_recv
  after_recv-Settled client_seq (reply f) writes io go_on h =
      write_all-Settled writes (framed f.typ 0 client_seq f.payload) io _
        λ io'. if-either Settled (is_stop f) (done dev_seq io') (go_on io') (λ e. cc) (h io')
  after_recv-Settled client_seq empty writes io go_on h = h io
  after_recv-Settled client_seq disconnected writes io go_on h = λ e. cc

  module _ (to_payload : AgentError → Option Bytes) (client_seq stop_timeout : ℕ) where
    relay-Settled :
        (ts us : List Turn) (t : Turn) (deadline : ℕ) (r : FrameReader) (io : Io)
        → deadline ≤ t.now
        → Settled
            (relay to_payload client_seq dev_seq stop_timeout (ts ++ (t ∷ us)) r (some deadline) io)
    unfolding relay
    relay-Settled [] us t deadline r io h =
        let late : leb deadline t.now ≡ true = ground arith in
        rw late (
          write_body-Settled t.writes client_seq
            (to_payload (internal_error (codes "device timeout waiting for stream stop"))) io)
    relay-Settled (t' ∷ ts) us t deadline r io h =
        if-either Settled (leb deadline t'.now) _ _
          (write_body-Settled t'.writes client_seq
            (to_payload (internal_error (codes "device timeout waiting for stream stop"))) io)
          (after_read-Settled (t'.read_at + stop_timeout) deadline t'.read r _ io λ r' io'.
            after_recv-Settled client_seq t'.recv t'.writes io' _
              λ io''. relay-Settled ts us t deadline r' io'' h)

    -- When the client's bytes hold a STREAM_STOP and no stop was asked before, the relay is over by
    -- the turn whose clock is `stop_timeout` later, whatever happens between.
    pub relay_settles :
        (first t : Turn) (ts us : List Turn) (b : Bytes) (r : FrameReader) (io : Io)
        → first.read ≡ bytes b
        → asks_stop (drain (feed r b)).0 ≡ true
        → first.read_at + stop_timeout ≤ t.now
        → (relay to_payload client_seq dev_seq stop_timeout (first ∷ (ts ++ (t ∷ us))) r none io).0
          ≢ running
    unfolding relay after_read
    relay_settles first t ts us b r io e a h = rw e (
        stops-asked (first.read_at + stop_timeout) (drain (feed r b)).0 _ io a λ io'.
          after_recv-Settled client_seq first.recv first.writes io' _ λ io''.
            relay-Settled ts us t (first.read_at + stop_timeout) (drain (feed r b)).1 io'' h)
