-- ===== src/Firmware/Loop/Tests.antt =====
-- The loop of firmware/src/main.rs with small instruments, and the table of firmware/src/registry.rs.
use flip_link.Base.{
  ℕ, ◌+◌, ◌≤◌, ◌≡◌, arith, false, ◌||◌, [], ◌∷◌, ◌++◌, length, Option, none, codes,
}
use flip_link.Base.Results.{ok}
use flip_link.Proto.Bytes.{Bytes}
use flip_link.Proto.Messages.{Req}
use flip_link.Core.Reader.{drain, feed}
use flip_link.Core.Reader.Chunks.{reader}
use flip_link.Firmware.Registry.{find, is_streaming, build_caps}
use flip_link.Firmware.Registry.Served.{lists, is_found, lists-build_caps}
use flip_link.Firmware.Loop.{Instruments, State, chunk, round, max_frame}
use flip_link.Firmware.Loop.Handled.{handle_all, round-chunk, round-bounded}

-- The world counts the stops.
abbrev counting : Instruments ℕ
counting = record {
  run = λ handler params w. (ok params, w);
  ir_start = λ seq w. (w, []);
  subghz_start = λ seq params w. (w, []);
  stop_captures = λ w. (w + 1, []);
  capturing = λ w. false;
  drain_captures = λ w. (w, []);
}

abbrev unreadable : Bytes → Option Req
unreadable payload = none

-- A STREAM_STOP frame of number 2 behind a lost byte, in two pieces.
abbrev first_piece : Bytes
first_piece = 0 ∷ 0xa6 ∷ 0xf1 ∷ 1 ∷ 7 ∷ 0 ∷ []

abbrev start : State ℕ
start = record { acc = first_piece; idle = 3; world = 0 }

abbrev second_piece : Bytes
second_piece = 2 ∷ 0 ∷ 0 ∷ 0 ∷ 0 ∷ 0 ∷ 0x4c ∷ 0x39 ∷ []

round-chunk_example :
    ((round counting unreadable (chunk second_piece) start).0.acc
      ≡ (drain (feed (reader first_piece) second_piece)).1.buf)
    × ((round counting unreadable (chunk second_piece) start).0.world
        ≡ (handle_all counting unreadable (drain (feed (reader first_piece) second_piece)).0 0).0)
    × ((round counting unreadable (chunk second_piece) start).1
        ≡ []
          ++ (handle_all counting unreadable
              (drain (feed (reader first_piece) second_piece)).0
              0).1)
round-chunk_example = round-chunk counting unreadable start second_piece (omega arith)

round-bounded_example :
    length (round counting unreadable (chunk second_piece) start).0.acc ≤ max_frame
round-bounded_example = round-bounded counting unreadable start (chunk second_piece) (omega arith)

lists_caps : lists (codes "ir") (codes "capture") build_caps.instruments ≡ (
    is_found (find (codes "ir") (codes "capture")) || is_streaming (codes "ir") (codes "capture"))
lists_caps = lists-build_caps (codes "ir") (codes "capture")
