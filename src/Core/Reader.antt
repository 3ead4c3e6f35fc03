-- ===== src/Core/Reader.antt =====
-- crates/flip-core/src/transport.rs: the reader that turns a byte stream into whole frames.
-- `&mut self` is the reader before the call, and the reader after it in the result.
pub mod Stream
pub mod Chunks
pub mod Prefix
use flip_link.Base.{ℕ, zero, suc, List, [], ◌∷◌, ◌++◌, length, drop, Option, none, some}
use flip_link.Proto.Bytes.{Bytes}
use flip_link.Proto.Frame.{Frame, frame, need_more, resync, decode}

-- The owned copy has the fields of the borrowed frame.
abbrev pub OwnedFrame : Type 0
OwnedFrame = Frame

pub record FrameReader : Type 0 where
  pub buf : Bytes

abbrev pub new : FrameReader
new = record { buf = [] }

unfoldable pub feed : FrameReader → Bytes → FrameReader
feed r bytes = record { buf = r.buf ++ bytes }

-- The loop of `next_frame`, over `self.buf`: it drops one byte for each `Resync`.
unfoldable pub scan : Bytes → Option OwnedFrame × Bytes
scan [] = elim (decode []) [
  | frame f used ↦ (some f, drop used [])
  | need_more ↦ (none, [])
  | resync ↦ (none, [])
]
scan (b ∷ bs) = elim (decode (b ∷ bs)) [
  | frame f used ↦ (some f, drop used (b ∷ bs))
  | need_more ↦ (none, b ∷ bs)
  | resync ↦ scan bs
]

unfoldable pub next_frame : FrameReader → Option OwnedFrame × FrameReader
next_frame r = let (f, rest) = scan r.buf in (f, record { buf = rest })

-- `while let Some(frame) = reader.next_frame()`, with the frames in the order of the rounds. A
-- round that finds a frame takes 13 bytes at least, so the buffer's length is enough fuel.
unfoldable pub drain_from : ℕ → FrameReader → List OwnedFrame × FrameReader
drain_from zero r = ([], r)
drain_from (suc fuel) r =
    let (found, r') = next_frame r in
    elim found [ none ↦ ([], r') | some f ↦ let (fs, last) = drain_from fuel r' in (f ∷ fs, last) ]

unfoldable pub drain : FrameReader → List OwnedFrame × FrameReader
drain r = drain_from (suc (length r.buf)) r

-- What a caller's loop reads from a stream that arrives in these pieces: it feeds each piece and
-- takes the frames that are whole by then.
unfoldable pub read_all : List Bytes → FrameReader → List OwnedFrame × FrameReader
read_all [] r = ([], r)
read_all (chunk ∷ chunks) r =
    let (fs, r') = drain (feed r chunk) in let (gs, last) = read_all chunks r' in (fs ++ gs, last)
