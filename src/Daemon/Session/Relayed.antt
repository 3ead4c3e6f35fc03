-- ===== src/Daemon/Session/Relayed.antt =====
-- Which frames a relay of crates/flip-daemon/src/server.rs passes on while nothing disturbs it.
use flip_link.Base.{
  ℕ, ◌+◌, ◌≤◌, ◌<◌, ◌≡◌, refl, sym, ap, ◌∙◌, arith, Bool, true, false, leb, if◌then◌else◌,
  Bool-cases, inl, inr,
}
use flip_link.Base.{
  List, [], ◌∷◌, ◌++◌, All, append_assoc, append-nil, length, map, Option, none, some,
}
use flip_link.Proto.Bytes.{Bytes}
use flip_link.Proto.Frame.{Frame, max_payload}
use flip_link.Proto.Frame.Wire.{wire}
use flip_link.Proto.Messages.{AgentError}
use flip_link.Core.Reader.{FrameReader, feed, drain}
use flip_link.Daemon.Session.{
  Read, closed, nothing, broken, bytes, Recv, reply, empty, disconnected, Turn, Io, Outcome,
  running, ended, queued, streamed, is_stop, past, get_or_insert, Rest, stops, after_read,
  after_recv, relay,
}
use flip_link.Daemon.Session.Progress.{asks_stop}
use flip_link.Daemon.Session.Relay.{frame_of, framed_lem, stop_bytes, forward_stop}

-- The socket stays open, and so does the channel, whose frame fits.
abbrev is_open : Read → Bool
is_open closed = false
is_open nothing = true
is_open (bytes b) = true
is_open broken = false

abbrev is_linked : Recv → Bool
is_linked (reply f) = leb (length f.payload) max_payload
is_linked empty = true
is_linked disconnected = false

-- A turn before the time `limit`, which no deadline set in it comes before.
pub record IsCalm (limit stop_timeout : ℕ) (t : Turn) : Type 0 where
  pub before_limit : t.now < limit
  pub deadline_later : limit ≤ t.read_at + stop_timeout
  pub taken : t.writes ≡ true
  pub open_socket : is_open t.read ≡ true
  pub linked : is_linked t.recv ≡ true

abbrev in_turn : Recv → List Frame
in_turn (reply f) = f ∷ []
in_turn empty = []
in_turn disconnected = []

-- The device's frames in the turns' order, up to the first STREAM_STOP.
abbrev pub replies : List Turn → List Frame
replies [] = []
replies (t ∷ ts) = in_turn t.recv ++ replies ts

abbrev pub up_to_stop : List Frame → List Frame
up_to_stop [] = []
up_to_stop (f ∷ fs) = f ∷ (if is_stop f then [] else up_to_stop fs)

abbrev pub for_client : ℕ → Frame → Bytes
for_client client_seq f = wire 1 (frame_of f.typ 0 client_seq f.payload)

abbrev pub relayed : Bool → Outcome
relayed stopped = if stopped then ended else running

abbrev IsLate : ℕ → Option ℕ → Type 0
IsLate limit none = Unit
IsLate limit (some deadline) = limit ≤ deadline

get_or_insert-IsLate :
    (limit deadline : ℕ) (d : Option ℕ)
    → IsLate limit d
    → limit ≤ deadline
    → IsLate limit (get_or_insert d deadline)
get_or_insert-IsLate limit deadline none h k = k
get_or_insert-IsLate limit deadline (some d) h k = h

not_past : (limit now : ℕ) (d : Option ℕ) → IsLate limit d → now < limit → past now d ≡ false
not_past limit now none h k = refl
not_past limit now (some d) h k = ground arith

module _ (client_seq dev_seq limit : ℕ) where
  -- What the rest of the relay is shown to do, from a state with this client stream.
  abbrev Shows : List Frame → List Bytes → Outcome × Io → Type 0
  Shows fs before o =
      (o.0 ≡ relayed (asks_stop fs))
      × (o.1.stream ≡ before ++ map (for_client client_seq) (up_to_stop fs))

  stops-Shows :
      (sent : List Frame) (before : List Bytes) (deadline : ℕ) (fs : List Frame) (rest : Rest)
      (d : Option ℕ) (io : Io)
      → limit ≤ deadline
      → IsLate limit d
      → io.stream ≡ before
      → ((d' : Option ℕ) (io' : Io)
          → IsLate limit d'
          → io'.stream ≡ before
          → Shows sent before (rest d' io'))
      → Shows sent before (stops dev_seq deadline fs rest d io)
  unfolding stops
  stops-Shows sent before deadline [] rest d io k l s h = h d io l s
  stops-Shows sent before deadline (f ∷ fs) rest d io k l s h = elim (Bool-cases (is_stop f)) [
    | inl e ↦
        rw (e, forward_stop dev_seq io)
          (stops-Shows sent before deadline fs rest (get_or_insert d deadline)
            (queued (stop_bytes dev_seq) io) k (get_or_insert-IsLate limit deadline d l k) s h)
    | inr e ↦ rw e (stops-Shows sent before deadline fs rest d io k l s h)
  ]

  after_read-Shows :
      (sent : List Frame) (before : List Bytes) (deadline : ℕ) (got : Read) (r : FrameReader)
      (rest : FrameReader → Rest) (d : Option ℕ) (io : Io)
      → limit ≤ deadline
      → IsLate limit d
      → io.stream ≡ before
      → is_open got ≡ true
      → ((r' : FrameReader) (d' : Option ℕ) (io' : Io)
          → IsLate limit d'
          → io'.stream ≡ before
          → Shows sent before (rest r' d' io'))
      → Shows sent before (after_read dev_seq deadline got r rest d io)
  unfolding after_read
  after_read-Shows sent before deadline closed r rest d io k l s o h = absurd cc
  after_read-Shows sent before deadline broken r rest d io k l s o h = absurd cc
  after_read-Shows sent before deadline nothing r rest d io k l s o h = h r d io l s
  after_read-Shows sent before deadline (bytes b) r rest d io k l s o h =
      stops-Shows sent before deadline (drain (feed r b)).0 (rest (drain (feed r b)).1) d io k l s
        (h (drain (feed r b)).1)

  after_recv-Shows :
      (later : List Frame) (got : Recv) (before : List Bytes) (io : Io) (go_on : Io → Outcome × Io)
      → is_linked got ≡ true
      → io.stream ≡ before
      → ((io' : Io) → Shows later io'.stream (go_on io'))
      → Shows (in_turn got ++ later) before (after_recv client_seq dev_seq got true io go_on)
  unfolding after_recv
  after_recv-Shows later disconnected before io go_on k s h = absurd cc
  after_recv-Shows later empty before io go_on k s h = rw⁻¹ s (h io)
  after_recv-Shows later (reply f) before io go_on k s h =
      let bytes_of = framed_lem f.typ 0 client_seq f.payload (ground arith) in
      let io' = streamed (for_client client_seq f) io in
      let (same, more) = h io' in
      elim (Bool-cases (is_stop f)) [
        | inl e ↦ rw (bytes_of, e) (refl, ap (λ l. l ++ (for_client client_seq f ∷ [])) s)
        | inr e ↦
            rw (bytes_of, e)
              (
                same,
                more
                    ∙ append_assoc io.stream (for_client client_seq f ∷ [])
                        (map (for_client client_seq) (up_to_stop later))
                    ∙ ap
                        (λ l.
                          l
                          ++ (for_client client_seq f
                              ∷ map (for_client client_seq) (up_to_stop later)))
                        s,
              )
      ]

  module _ (to_payload : AgentError → Option Bytes) (stop_timeout : ℕ) where
    relay-Shows :
        (ts : List Turn) (r : FrameReader) (d : Option ℕ) (io : Io)
        → IsLate limit d
        → All (IsCalm limit stop_timeout) ts
        → Shows (replies ts) io.stream (relay to_payload client_seq dev_seq stop_timeout ts r d io)
    unfolding relay
    relay-Shows [] r d io l h = (refl, sym (append-nil io.stream))
    relay-Shows (t ∷ ts) r d io l (c, cs) =
        rw (not_past limit t.now d l c.before_limit, c.taken)
          (after_read-Shows (replies (t ∷ ts)) io.stream (t.read_at + stop_timeout) t.read r _ d io
            c.deadline_later l refl c.open_socket
            λ r' d' io' l' s.
              after_recv-Shows (replies ts) t.recv io.stream io' _ c.linked s
                λ io''. relay-Shows ts r' d' io'' l' cs)

-- While the socket is open and takes what is written, the channel is connected, the frames fit, and
-- no turn is as late as a deadline can be: the client is sent the device's frames in their order,
-- each with the client's number and no flags, up to the first STREAM_STOP; with that the relay ends,
-- and without one it runs on.
pub relay-relayed :
    (to_payload : AgentError → Option Bytes) (client_seq dev_seq limit stop_timeout : ℕ)
    (ts : List Turn) (r : FrameReader) (io : Io)
    → All (IsCalm limit stop_timeout) ts
    → ((relay to_payload client_seq dev_seq stop_timeout ts r none io).0
        ≡ relayed (asks_stop (replies ts)))
      × ((relay to_payload client_seq dev_seq stop_timeout ts r none io).1.stream
          ≡ io.stream ++ map (for_client client_seq) (up_to_stop (replies ts)))
relay-relayed to_payload client_seq dev_seq limit stop_timeout ts r io h =
    relay-Shows client_seq dev_seq limit to_payload stop_timeout ts r none io tt h
