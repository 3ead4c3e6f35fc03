-- ===== src/Daemon/Session.antt =====
-- crates/flip-daemon/src/server.rs: a client's session, and the relay of a stream in it. What the
-- socket, the clock and the device do is a list of turns; `me` is the client's reply channel. A
-- write that fails leaves the client's stream as it was, whatever part of it went out.
pub mod Relay
pub mod Progress
pub mod Relayed
pub mod Routes
mod Tests
use flip_link.Base.{
  ℕ, suc, ◌+◌, ◌≤◌, ◌<◌, Bool, true, false, leb, ◌==◌, if◌then◌else◌, List, [], ◌∷◌, ◌++◌, length,
  take, replicate, Option, none, some, Text, codes,
}
use flip_link.Proto.Bytes.{Bytes}
use flip_link.Proto.Frame.{
  Frame, MsgType, hello, caps, stream_start, stream_stop, error, encode, to_u8, header_size,
}
use flip_link.Proto.Messages.{AgentError, err_internal}
use flip_link.Core.Reader.{OwnedFrame, FrameReader, new, feed, drain}
use flip_link.Daemon.Router.{Router, Channel, register, unregister}

-- What `stream.read` gives; `nothing` when its 50 ms pass.
pub data Read : Type 0 where
  closed nothing broken : Read
  bytes : Bytes → Read

-- What `reply_rx.recv_timeout` gives.
pub data Recv : Type 0 where
  reply : OwnedFrame → Recv
  empty disconnected : Recv

-- A turn of the relay's loop: the clock at its top, the read, the clock where a stop is seen, the
-- device's frame, and whether the client's socket takes what is written.
pub record Turn : Type 0 where
  pub now : ℕ
  pub read : Read
  pub read_at : ℕ
  pub recv : Recv
  pub writes : Bool

-- What a session changes: the router, the frames queued to the device, what the client is sent, and
-- how often the device's owner was woken.
pub record Io : Type 0 where
  pub router : Router
  pub outbound : List Bytes
  pub stream : List Bytes
  pub wakes : ℕ

-- `running` when the turns end before the code does, `ended` for `Ok(())`, `failed` for an error.
pub data Outcome : Type 0 where
  running ended failed : Outcome

abbrev pub with_router : Router → Io → Io
with_router g io = record {
  router = g;
  outbound = io.outbound;
  stream = io.stream;
  wakes = io.wakes;
}

abbrev pub queued : Bytes → Io → Io
queued b io = record {
  router = io.router;
  outbound = io.outbound ++ (b ∷ []);
  stream = io.stream;
  wakes = io.wakes;
}

abbrev pub streamed : Bytes → Io → Io
streamed b io = record {
  router = io.router;
  outbound = io.outbound;
  stream = io.stream ++ (b ∷ []);
  wakes = io.wakes;
}

abbrev pub woken : Io → Io
woken io = record {
  router = io.router;
  outbound = io.outbound;
  stream = io.stream;
  wakes = io.wakes + 1;
}

abbrev pub unregistered : ℕ → Io → Io
unregistered seq io = with_router (unregister seq io.router) io

abbrev cut : Option (ℕ × Bytes) → Option Bytes
cut none = none
cut (some (n, buf)) = some (take n buf)

-- The bytes of a frame, in a buffer of its size.
unfoldable pub framed : MsgType → ℕ → ℕ → Bytes → Option Bytes
framed typ flags seq payload =
    cut (encode typ flags seq payload (replicate (header_size + length payload + 2) 0))

abbrev pub write_all : Bool → Option Bytes → Io → Option Io
write_all writes none io = none
write_all true (some b) io = some (streamed b io)
write_all false (some b) io = none

-- `none` is the error; it leaves the state alone.
abbrev pub write_frame : Bool → MsgType → ℕ → Bytes → Io → Option Io
write_frame writes typ seq payload = write_all writes (framed typ 0 seq payload)

abbrev pub send : Option Bytes → Io → Option Io
send none io = none
send (some b) io = some (queued b io)

abbrev pub forward : MsgType → ℕ → ℕ → Bytes → Io → Option Io
forward typ flags seq payload = send (framed typ flags seq payload)

-- `?`: an error ends the function in the state before the call.
abbrev pub or_fail : Option Io → Io → (Io → Outcome × Io) → Outcome × Io
or_fail none io go_on = (failed, io)
or_fail (some io') io go_on = go_on io'

abbrev pub finished : Io → Outcome × Io
finished io = (ended, io)

abbrev pub done : ℕ → Io → Outcome × Io
done dev_seq io = (ended, unregistered dev_seq io)

abbrev pub is_stop : Frame → Bool
is_stop f = to_u8 f.typ == to_u8 stream_stop

abbrev pub past : ℕ → Option ℕ → Bool
past now none = false
past now (some deadline) = leb deadline now

abbrev pub get_or_insert : Option ℕ → ℕ → Option ℕ
get_or_insert none deadline = some deadline
get_or_insert (some d) deadline = some d

-- `stop_deadline` and the state go to the rest of the turn.
abbrev pub Rest : Type 0
Rest = Option ℕ → Io → Outcome × Io

-- The frames that the client sent: each STREAM_STOP goes to the device, and the first one sets the
-- deadline.
unfoldable pub stops : ℕ → ℕ → List OwnedFrame → Rest → Rest
stops dev_seq deadline [] rest d io = rest d io
stops dev_seq deadline (f ∷ fs) rest d io =
    let stop = is_stop f in
    or_fail (if stop then forward stream_stop 0 dev_seq [] io else some io) io
      (stops dev_seq deadline fs rest (if stop then get_or_insert d deadline else d))

-- The read of a turn: it ends the relay, or the rest of the turn follows.
unfoldable pub after_read : ℕ → ℕ → Read → FrameReader → (FrameReader → Rest) → Rest
unfolding stops
after_read dev_seq deadline closed r rest d io =
    or_fail (forward stream_stop 0 dev_seq [] io) io (done dev_seq)
after_read dev_seq deadline (bytes b) r rest d io =
    let (fs, r') = drain (feed r b) in stops dev_seq deadline fs (rest r') d io
after_read dev_seq deadline nothing r rest d io = rest r d io
after_read dev_seq deadline broken r rest d io = (failed, unregistered dev_seq io)

-- The device's frame goes to the client under the client's number; the final STREAM_STOP ends.
unfoldable pub after_recv : ℕ → ℕ → Recv → Bool → Io → (Io → Outcome × Io) → Outcome × Io
after_recv client_seq dev_seq (reply f) writes io go_on =
    or_fail (write_frame writes f.typ client_seq f.payload io) io
      λ io'. if is_stop f then done dev_seq io' else go_on io'
after_recv client_seq dev_seq empty writes io go_on = go_on io
after_recv client_seq dev_seq disconnected writes io go_on = done dev_seq io

abbrev pub internal_error : Text → AgentError
internal_error message = record { code = err_internal; message = message }

abbrev write_body : Bool → ℕ → Option Bytes → Io → Option Io
write_body writes seq none io = none
write_body writes seq (some body) io = write_frame writes error seq body io

-- What the body of an error is encoded to, if it can be.
module _ (to_payload : AgentError → Option Bytes) where
  abbrev pub write_error : Bool → ℕ → Text → Io → Option Io
  write_error writes seq message = write_body writes seq (to_payload (internal_error message))

  -- `relay_stream_with_stop_timeout`
  unfoldable pub relay : ℕ → ℕ → ℕ → List Turn → FrameReader → Rest
  unfolding after_read after_recv
  relay client_seq dev_seq stop_timeout [] r d io = (running, io)
  relay client_seq dev_seq stop_timeout (t ∷ ts) r d io =
      if past t.now d
      then or_fail
          (write_error t.writes client_seq (codes "device timeout waiting for stream stop") io) io
          (done dev_seq)
      else after_read dev_seq (t.read_at + stop_timeout) t.read r
          (λ r' d' io1.
            after_recv client_seq dev_seq t.recv t.writes io1
              (relay client_seq dev_seq stop_timeout ts r' d'))
          d io

-- What the device and the client's socket do while one frame of the client is served: the first
-- frame that comes back in time, whether the answer is taken, and the turns of a relay.
pub record Exchange : Type 0 where
  pub first : Option OwnedFrame
  pub writes : Bool
  pub turns : List Turn

abbrev pub then_next : Outcome × Io → (Io → Outcome × Io) → Outcome × Io
then_next (ended, io) go_on = go_on io
then_next (running, io) go_on = (running, io)
then_next (failed, io) go_on = (failed, io)

abbrev pub stream_stop_ack_timeout : ℕ
stream_stop_ack_timeout = 3000

module _ (to_payload : AgentError → Option Bytes) where
  -- HELLO is answered from the cached CAPS.
  unfoldable pub answer_hello : Bool → ℕ → Bytes → Io → Option Io
  answer_hello writes seq [] io =
      write_error to_payload writes seq (codes "device not connected") io
  answer_hello writes seq (b ∷ bs) io = write_frame writes caps seq (b ∷ bs) io

  -- What the first frame that comes back leads to.
  unfoldable pub after_reply : ℕ → ℕ → Exchange → Option OwnedFrame → Io → Outcome × Io
  after_reply client_seq dev_seq e none io =
      let io' = unregistered dev_seq io in
      or_fail (write_error to_payload e.writes client_seq (codes "device timeout") io') io' finished
  after_reply client_seq dev_seq e (some f) io =
      if to_u8 f.typ == to_u8 stream_start
      then or_fail (write_frame e.writes f.typ client_seq f.payload io) io
          (relay to_payload client_seq dev_seq stream_stop_ack_timeout e.turns new none)
      else (let io' = unregistered dev_seq io in
          or_fail (write_frame e.writes f.typ client_seq f.payload io') io' finished)

-- A session; its own channel for the device's replies is `me`.
module _ (to_payload : AgentError → Option Bytes) (me : Channel) where
  unfoldable pub proxy : Exchange → OwnedFrame → Io → Outcome × Io
  unfolding after_reply
  proxy e f io =
      let reg = register me io.router in
      let io' = with_router reg.1 io in
      or_fail (forward f.typ f.flags reg.0 f.payload io') io'
        (after_reply to_payload f.seq reg.0 e e.first)

  unfoldable pub serve_frame : Exchange → OwnedFrame → Io → Outcome × Io
  unfolding answer_hello proxy
  serve_frame e f io =
      if to_u8 f.typ == to_u8 hello
      then or_fail (answer_hello to_payload e.writes f.seq io.router.caps_payload io) io finished
      else proxy e f io

  unfoldable pub serve_frames : List Exchange → List OwnedFrame → Io → Outcome × Io
  serve_frames es [] io = (ended, io)
  serve_frames [] (f ∷ fs) io = (running, io)
  serve_frames (e ∷ es) (f ∷ fs) io = then_next (serve_frame e f io) (serve_frames es fs)

  -- The loop of `serve_client`: a read, then the frames that are whole by then. Nothing else uses
  -- its reader, so they are taken at once.
  unfoldable pub serve_client : List (Read × List Exchange) → FrameReader → Io → Outcome × Io
  serve_client [] r io = (running, io)
  serve_client ((closed, es) ∷ later) r io = (ended, io)
  serve_client ((broken, es) ∷ later) r io = (failed, io)
  serve_client ((nothing, es) ∷ later) r io =
      let (fs, r') = drain r in then_next (serve_frames es fs io) (serve_client later r')
  serve_client ((bytes b, es) ∷ later) r io =
      let (fs, r') = drain (feed r b) in
      then_next (serve_frames es fs (woken io)) (serve_client later r')
