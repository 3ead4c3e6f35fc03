-- ===== src/Firmware/Stream.antt =====
-- The SDK's stream buffers, as firmware/src uses them without waiting: the bytes inside, of which a
-- send appends those that are accepted and a receive takes those that are given from the front.
use flip_link.Base.{ℕ, ◌-◌, ◌≡◌, min, refl, ◌++◌, length, take, drop, List, map, Text}
use flip_link.Proto.Bytes.{Bytes}

pub record StreamBuffer : Type 0 where
  pub accepts : Bytes → ℕ → ℕ
  pub gives : Bytes → ℕ → ℕ

-- What the SDK documents for a buffer of `cap` bytes: a send without a timeout takes what fits, and
-- a receive without a timeout gives what there is, up to what was asked for.
pub record IsStreamBuffer (cap : ℕ) (sb : StreamBuffer) : Type 0 where
  pub accepts_eq : (inside : Bytes) (n : ℕ) → sb.accepts inside n ≡ min n (cap - length inside)
  pub gives_eq : (inside : Bytes) (n : ℕ) → sb.gives inside n ≡ min n (length inside)

abbrev pub buffer_of : ℕ → StreamBuffer
buffer_of cap = record {
  accepts = λ inside n. min n (cap - length inside);
  gives = λ inside n. min n (length inside);
}

pub buffer_of-IsStreamBuffer : (cap : ℕ) → IsStreamBuffer cap (buffer_of cap)
buffer_of-IsStreamBuffer cap = record { accepts_eq = λ inside n. refl; gives_eq = λ inside n. refl }

-- The bytes inside after the send, and the count it returns.
abbrev pub send : StreamBuffer → Bytes → Bytes → Bytes × ℕ
send sb inside bytes = let n = sb.accepts inside (length bytes) in (inside ++ take n bytes, n)

-- The bytes given, and those inside after.
abbrev pub receive : StreamBuffer → Bytes → ℕ → Bytes × Bytes
receive sb inside n = let k = sb.gives inside n in (take k inside, drop k inside)

-- The frames that the capture code hands to its callbacks.
pub data Sent : Type 0 where
  stream_start : ℕ → Text → Sent
  stream_data : ℕ → Bytes → Sent
  stream_stop : ℕ → ℕ → Sent
  error : ℕ → ℕ → Text → Sent

abbrev pub data_frames : ℕ → List Bytes → List Sent
data_frames seq payloads = map (stream_data seq) payloads
