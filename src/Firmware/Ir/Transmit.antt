-- ===== src/Firmware/Ir/Transmit.antt =====
-- firmware/src/ir_instrument.rs: `transmit`, and the callback that feeds the infrared. The SDK's part
-- is a parameter: whether the infrared is busy, and how often it asks the callback at most. The duty
-- cycle stays in thousandths; the code hands it on as a fraction.
use flip_link.Base.{ℕ, zero, suc, ◌+◌, ◌%◌, Bool, true, false, ltb, leb, ◌==◌, if◌then◌else◌}
use flip_link.Base.{List, [], ◌∷◌, length, get_or, Option, none, some, codes}
use flip_link.Base.Results.{ok, err, ◌>>=◌, unwrap_or}
use flip_link.Proto.Messages.{err_bad_params, err_busy, err_oversized}
use flip_link.Proto.Value.{Value, Values, nil, cons, end, entry, get}
use flip_link.Firmware.Params.{Answer, as_u64, get_u64, as_u32}

abbrev pub default_freq : ℕ
default_freq = 38000

abbrev pub default_duty_permille : ℕ
default_duty_permille = 330

abbrev pub max_edges : ℕ
max_edges = 1024

-- `TX_PTR`, null or the timings it points to, `TX_LEN` and `TX_POS`.
pub record IrTx : Type 0 where
  pub ptr : Option (List ℕ)
  pub len : ℕ
  pub pos : ℕ

pub data TxDataState : Type 0 where
  more last_done : TxDataState

-- The state it returns, the duration and the level it writes, if it does, and the statics after it.
unfoldable pub tx_get_data : IrTx → TxDataState × Option (ℕ × Bool) × IrTx
tx_get_data tx = elim tx.ptr [
  | none ↦ (last_done, none, tx)
  | some timings ↦ if leb tx.len tx.pos then (last_done, none, tx) else (
    if leb tx.len (tx.pos + 1) then last_done else more,
    some (get_or timings tx.pos 0, tx.pos % 2 == 0),
    record { ptr = tx.ptr; len = tx.len; pos = tx.pos + 1 },
  )
]

abbrev pub written : Option (ℕ × Bool) → List (ℕ × Bool) → List (ℕ × Bool)
written none rest = rest
written (some edge) rest = edge ∷ rest

-- A call that says it is the last ends the asking.
abbrev pub after_answer :
    TxDataState → Option (ℕ × Bool) → List (ℕ × Bool) × Bool → List (ℕ × Bool) × Bool
after_answer last_done edge rest = (written edge [], true)
after_answer more edge (edges, told) = (written edge edges, told)

-- The edges that the infrared is given when it asks `count` times at most, and whether it was told
-- the end.
unfoldable pub asked : ℕ → IrTx → List (ℕ × Bool) × Bool
asked zero tx = ([], false)
asked (suc count) tx =
    let answer = tx_get_data tx in
    let rest = asked count answer.2 in after_answer answer.0 answer.1 rest

-- `a.iter().filter_map(as_u64).map(|v| v as u32)`
abbrev pub timing_list : Values → List ℕ
timing_list nil = []
timing_list (cons v vs) = elim (as_u64 v) [
  | none ↦ timing_list vs
  | some n ↦ as_u32 n ∷ timing_list vs
]

unfoldable pub timings_of : Value → Answer (List ℕ)
unfolding get
timings_of params = elim (get params (codes "timings")) [
  | some (Value.array a) ↦ ok (timing_list a)
  | _ ↦ err (err_bad_params, codes "timings array required")
]

-- What `async_tx_start` is called with, the timings published for the callback by then, and `TX_PTR`
-- once `wait_termination` has returned.
pub record Transmission : Type 0 where
  pub frequency : ℕ
  pub duty_permille : ℕ
  pub tx : IrTx
  pub ptr_after : Option (List ℕ)

abbrev pub published : List ℕ → IrTx
published timings = record { ptr = some timings; len = length timings; pos = 0 }

unfoldable pub checked_timings : Bool → List ℕ → Answer (List ℕ)
checked_timings is_busy timings =
    if length timings == 0
    then err (err_bad_params, codes "timings empty")
    else if ltb max_edges (length timings)
    then err (err_oversized, codes "too many timings")
    else if is_busy
    then err (err_busy, codes "ir busy")
    else ok timings

-- The answer, and what was sent.
unfoldable pub transmit : Bool → Value → Answer (Value × Transmission)
unfolding get
transmit is_busy params =
    let freq = as_u32 (unwrap_or (get_u64 params (codes "frequency")) default_freq) in
    let duty_permille =
      as_u32 (unwrap_or (get_u64 params (codes "duty_permille")) default_duty_permille) in
    timings_of params >>= λ ts. checked_timings is_busy ts >>= λ timings. ok (
      Value.map (entry (codes "sent") (Value.u64 (length timings)) end),
      record {
        frequency = freq;
        duty_permille = duty_permille;
        tx = published timings;
        ptr_after = none;
      },
    )
