-- ===== src/Firmware/SubGhz/Transmit/Release.antt =====
-- What `transmit` of firmware/src/subghz_instrument.rs leaves behind, on every path.
use flip_link.Base.{
  ℕ, zero, suc, ◌+◌, ◌-◌, ◌<◌, ◌≤◌, ◌≡◌, refl, sym, ap, ◌∙◌, ◌==◌, arith, List, [], ◌∷◌, none, Bool,
  true, false, Bool-cases, inl, inr,
}
use flip_link.Base.{leb, not, ◌||◌, if-either}
use flip_link.Base.Results.{ok, err}
use flip_link.Proto.Value.{Value}
use flip_link.Firmware.Params.{Answer}
use flip_link.Firmware.SubGhz.Transmit.{
  Radio, RadioCall, begin, finish, SubGhzState, TxRequest, Outcome, is_some, transmit,
  after_request, open_tx, start_tx, finish_tx, wait, timeout_ms, tx_request,
}

-- The radio is held by those calls that begin it with success and do not put it away.
abbrev pub held : ℕ → List RadioCall → ℕ
held n [] = n
held n (begin true ∷ calls) = held (suc n) calls
held n (finish ∷ calls) = held (n - 1) calls
held n (c ∷ calls) = held n calls

-- Nothing is held, no edges are published, and the capture flag is what it was.
abbrev pub IsReleased : SubGhzState → Outcome → Type 0
IsReleased st out =
    (held 0 out.2 ≡ 0) × (out.1.tx.ptr ≡ none) × (out.1.capture_active ≡ st.capture_active)

start_tx-IsReleased :
    (radio : Radio) (st : SubGhzState) (r : TxRequest) → IsReleased st (start_tx radio st r)
unfolding start_tx finish_tx
start_tx-IsReleased radio st r =
    let P = IsReleased st in
    if-either P (not radio.starts) _ _ (refl, refl, refl)
      (if-either P
        (leb (timeout_ms r.edges r.repeat) (wait radio.is_complete (timeout_ms r.edges r.repeat) 0))
        _ _ (refl, refl, refl) (refl, refl, refl))

open_tx-IsReleased :
    (radio : Radio) (st : SubGhzState) (r : TxRequest)
    → st.tx.ptr ≡ none
    → IsReleased st (open_tx radio st r)
unfolding open_tx
open_tx-IsReleased radio st r h =
    let P = IsReleased st in
    if-either P (not radio.is_present) _ _ (refl, h, refl)
      (if-either P (not (radio.is_frequency_valid r.frequency)) _ _ (refl, h, refl)
        (if-either P (not radio.begins) _ _ (refl, h, refl) (start_tx-IsReleased radio st r)))

after_request-IsReleased :
    (radio : Radio) (st : SubGhzState) (a : Answer TxRequest)
    → st.tx.ptr ≡ none
    → IsReleased st (after_request radio st a)
unfolding after_request
after_request-IsReleased radio st (err e) h = (refl, h, refl)
after_request-IsReleased radio st (ok r) h = open_tx-IsReleased radio st r h

-- From statics without published edges, whatever the radio answers and on each error path too,
-- `transmit` ends every session of the radio that it begins, publishes no edges any more, and
-- leaves the capture flag alone.
pub transmit-IsReleased :
    (radio : Radio) (st : SubGhzState) (params : Value)
    → st.tx.ptr ≡ none
    → IsReleased st (transmit radio st params)
unfolding transmit
transmit-IsReleased radio st params h =
    if-either (IsReleased st) (st.capture_active || is_some st.tx.ptr) _ _ (refl, h, refl)
      (after_request-IsReleased radio st (tx_request params) h)

-- The wait ends by the first millisecond that finds the radio done.
pub wait-le :
    (complete : ℕ → Bool) (left waited w : ℕ)
    → waited ≤ w
    → complete w ≡ true
    → w < waited + left
    → wait complete left waited ≤ w
unfolding wait
wait-le complete zero waited w a e b = absurd (omega arith)
wait-le complete (suc left) waited w a e b = elim (Bool-cases (complete waited)) [
  | inl t ↦ rw t (omega arith)
  | inr t ↦ elim (Bool-cases (w == waited)) [
    | inl q ↦
        let same : w ≡ waited = ground arith in
        let no : true ≡ false = sym e ∙ ap complete same ∙ t in absurd cc
    | inr q ↦ rw t (wait-le complete left (suc waited) w (ground arith) e (omega arith))
  ]
]
