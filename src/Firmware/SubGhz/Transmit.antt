-- ===== src/Firmware/SubGhz/Transmit.antt =====
-- firmware/src/subghz_instrument.rs: the statics of a transmission, the callback that feeds the
-- radio, and `transmit`. The SDK's radio is a parameter: what its calls answer, after how many
-- milliseconds it is done, and how often it asks the callback by then. A transmission returns its
-- answer, the statics after it, and what passes between it and the radio, in order: the calls that it
-- makes, and behind the start, as `yielded`, all that the callback gives.
pub mod Yield
pub mod Release
use flip_link.Base.{
  ℕ, zero, suc, ◌+◌, ◌*◌, ◌/◌, ◌%◌, ◌-◌, ◌^◌, min, Bool, true, false, not, ltb, leb, ◌==◌, ◌||◌,
}
use flip_link.Base.{
  if◌then◌else◌, List, [], ◌∷◌, ◌++◌, length, get_or, Option, none, some, Text, codes,
}
use flip_link.Base.Results.{ok, err, ◌>>=◌}
use flip_link.Proto.Messages.{err_bad_params, err_busy, err_internal}
use flip_link.Proto.Value.{Value, end, entry}
use flip_link.Firmware.Params.{Answer}
use flip_link.Firmware.SubGhz.{
  TxEdge, FuriPreset, required_frequency, required_preset, parse_edges, repeat_count,
}

-- `LevelDuration`: the two fields of its bit field, of 30 and of 2 bits.
pub record LevelDuration : Type 0 where
  pub duration : ℕ
  pub level : ℕ

abbrev pub level_duration : Bool → ℕ → LevelDuration
level_duration level duration_us = record {
  duration = duration_us % 2 ^ 30;
  level = if level then 2 else 1;
}

abbrev pub level_duration_reset : LevelDuration
level_duration_reset = record { duration = 0; level = 0 }

-- `TX_PTR`, null or the edges it points to, and the counters beside it.
pub record Tx : Type 0 where
  pub ptr : Option (List TxEdge)
  pub len : ℕ
  pub pos : ℕ
  pub repeat : ℕ
  pub repeat_pos : ℕ

abbrev pub silent : TxEdge
silent = record { level = false; duration_us = 0 }

unfoldable pub tx_yield : Tx → LevelDuration × Tx
tx_yield tx = elim tx.ptr [
  | none ↦ (level_duration_reset, tx)
  | some edges ↦
      let edge = get_or edges tx.pos silent in
      let next_pos = tx.pos + 1 in
      let wraps = leb tx.len next_pos in
      if tx.len == 0 || leb tx.repeat tx.repeat_pos then (level_duration_reset, tx) else (
        level_duration edge.level edge.duration_us,
        record {
          ptr = tx.ptr;
          len = tx.len;
          pos = if wraps then 0 else next_pos;
          repeat = tx.repeat;
          repeat_pos = if wraps then tx.repeat_pos + 1 else tx.repeat_pos;
        },
      )
]

-- What `count` calls of the callback give, and the statics after them.
pub yields : ℕ → Tx → List LevelDuration × Tx
yields zero tx = ([], tx)
yields (suc count) tx =
    let (d, tx') = tx_yield tx in let (ds, last) = yields count tx' in (d ∷ ds, last)

pub data RadioCall : Type 0 where
  begin : Bool → RadioCall
  reset flush_tx stop_async_tx idle sleep finish : RadioCall
  set_rx flush_rx start_async_rx stop_async_rx : RadioCall
  load_preset : FuriPreset → RadioCall
  set_frequency : ℕ → RadioCall
  start_async_tx : Bool → RadioCall
  yielded : List LevelDuration → RadioCall
  delay_ms : ℕ → RadioCall

pub record Radio : Type 0 where
  pub is_present : Bool
  pub is_frequency_valid : ℕ → Bool
  pub begins : Bool
  pub starts : Bool
  pub is_complete : ℕ → Bool
  pub asks : ℕ

pub record SubGhzState : Type 0 where
  pub capture_active : Bool
  pub tx : Tx

pub record TxRequest : Type 0 where
  pub frequency : ℕ
  pub preset : FuriPreset
  pub edges : List TxEdge
  pub repeat : ℕ

unfoldable pub tx_request : Value → Answer TxRequest
tx_request params = required_frequency params >>= λ f. required_preset params >>= λ p.
    parse_edges params >>= λ es.
    repeat_count params >>= λ n. ok (record { frequency = f; preset = p; edges = es; repeat = n })

-- `u64::saturating_…`
abbrev pub saturate : ℕ → ℕ
saturate n = min n (2 ^ 64 - 1)

pub edges_us : ℕ → List TxEdge → ℕ
edges_us acc [] = acc
edges_us acc (edge ∷ edges) = edges_us (saturate (acc + edge.duration_us)) edges

unfoldable pub total_us : List TxEdge → ℕ → ℕ
total_us edges repeat = saturate (edges_us 0 edges * repeat)

unfoldable pub timeout_ms : List TxEdge → ℕ → ℕ
timeout_ms edges repeat = min (saturate (total_us edges repeat / 1000 + 1000)) 60000

-- `while !complete && waited_ms < timeout_ms`, with the rounds that the timeout still allows.
pub wait : (ℕ → Bool) → ℕ → ℕ → ℕ
wait complete zero waited = waited
wait complete (suc left) waited =
    let later = wait complete left (suc waited) in if complete waited then waited else later

abbrev pub put_away : List RadioCall
put_away = idle ∷ sleep ∷ finish ∷ []

abbrev pub published : TxRequest → Tx
published r = record {
  ptr = some r.edges;
  len = length r.edges;
  pos = 0;
  repeat = r.repeat;
  repeat_pos = 0;
}

abbrev pub unpublished : Tx → Tx
unpublished tx = record {
  ptr = none;
  len = tx.len;
  pos = tx.pos;
  repeat = tx.repeat;
  repeat_pos = tx.repeat_pos;
}

abbrev pub Outcome : Type 0
Outcome = Answer Value × SubGhzState × List RadioCall

abbrev pub refuse : ℕ → Text → SubGhzState → List RadioCall → Outcome
refuse code message st calls = (err (code, message), st, calls)

-- The wait, the stop, and the answer.
unfoldable pub finish_tx : Radio → SubGhzState → TxRequest → List RadioCall → Outcome
finish_tx radio st r calls =
    let limit = timeout_ms r.edges r.repeat in
    let waited = wait radio.is_complete limit 0 in
    let (levels, tx) = yields radio.asks (published r) in
    let st' : SubGhzState = record { capture_active = st.capture_active; tx = unpublished tx } in
    let calls' = calls ++ (yielded levels ∷ delay_ms waited ∷ stop_async_tx ∷ put_away) in
    if leb limit waited then refuse err_internal (codes "subghz transmit timeout") st' calls' else (
      ok (Value.map (entry (codes "sent") (Value.u64 (saturate (length r.edges * r.repeat))) end)),
      st',
      calls',
    )

unfoldable pub start_tx : Radio → SubGhzState → TxRequest → Outcome
start_tx radio st r =
    let calls =
      begin true
      ∷ reset
      ∷ load_preset r.preset
      ∷ set_frequency r.frequency
      ∷ flush_tx
      ∷ start_async_tx radio.starts
      ∷ [] in
    let st' : SubGhzState = record {
      capture_active = st.capture_active;
      tx = unpublished (published r);
    } in
    if not radio.starts
    then refuse err_bad_params (codes "subghz transmit not allowed on this frequency") st'
        (calls ++ put_away)
    else finish_tx radio st r calls

unfoldable pub open_tx : Radio → SubGhzState → TxRequest → Outcome
open_tx radio st r =
    if not radio.is_present
    then refuse err_internal (codes "subghz internal device unavailable") st []
    else if not (radio.is_frequency_valid r.frequency)
    then refuse err_bad_params (codes "invalid subghz frequency") st []
    else if not radio.begins
    then refuse err_busy (codes "subghz device unavailable") st (begin false ∷ [])
    else start_tx radio st r

abbrev pub is_some {ℓ} : {A : Type ℓ} → Option A → Bool
is_some none = false
is_some (some a) = true

unfoldable pub after_request : Radio → SubGhzState → Answer TxRequest → Outcome
after_request radio st (err e) = (err e, st, [])
after_request radio st (ok r) = open_tx radio st r

unfoldable pub transmit : Radio → SubGhzState → Value → Outcome
transmit radio st params =
    if st.capture_active || is_some st.tx.ptr
    then refuse err_busy (codes "subghz busy") st []
    else after_request radio st (tx_request params)
