-- ===== src/Firmware/SubGhz/LinkProbe/Received.antt =====
-- What a link probe of firmware/src/subghz_instrument.rs receives, and how it leaves the worker.
use flip_link.Base.{
  length-take_le, ℕ, zero, suc, ◌+◌, ◌-◌, ◌^◌, ◌≤◌, ◌<◌, ◌≡◌, refl, sym, ap, ◌∙◌, arith, min, true,
  false, not, ltb, ◌||◌, if-either, Bool-cases, inl, inr,
}
use flip_link.Base.{
  List, [], ◌∷◌, ◌++◌, length, take, drop, append_assoc, append-nil, length-append, take-min,
  take-all,
}
use flip_link.Base.Results.{ok, err}
use flip_link.Proto.Bytes.{Bytes}
use flip_link.Proto.Value.{Value}
use flip_link.Firmware.Params.{Answer}
use flip_link.Firmware.SubGhz.{max_link_probe_bytes}
use flip_link.Firmware.SubGhz.Transmit.{SubGhzState, is_some, saturate}
use flip_link.Firmware.SubGhz.LinkProbe.{
  WorkerCall, alloc, start, set_callback, stop, free, delay, write, read, Worker, ProbeRequest,
  probe_request, Reading, got_in, calls_in, round, rounds, blank, run_probe, start_probe,
  open_probe, after_probe_request, link_probe, ProbeOutcome,
}

-- What the SDK documents of the worker's buffer: the received bytes wait in it in their order, a read
-- takes from its front, and those that the radio gets in a millisecond join its end. `arrives t` are
-- the bytes that join it from millisecond `t - 1` to millisecond `t` after the write; `content` and
-- `now` tell of a state what waits and which millisecond it is.
pub record IsFifo (S : Type 0) (w : Worker S) (arrives : ℕ → Bytes) : Type 0 where
  pub content : S → Bytes
  pub now : S → ℕ
  pub content_written : content w.written ≡ arrives 0
  pub now_written : now w.written ≡ 0
  pub available_content : (s : S) → w.available s ≡ length (content s)
  pub gives_content : (s : S) (n : ℕ) → (w.gives s n).0 ≡ take n (content s)
  pub content_gives : (s : S) (n : ℕ) → content (w.gives s n).1 ≡ drop n (content s)
  pub now_gives : (s : S) (n : ℕ) → now (w.gives s n).1 ≡ now s
  pub content_waits : (s : S) → content (w.waits s) ≡ content s ++ arrives (suc (now s))
  pub now_waits : (s : S) → now (w.waits s) ≡ suc (now s)

-- The bytes that arrive in `left` milliseconds, from number `t` on.
unfoldable pub arrived : (ℕ → Bytes) → ℕ → ℕ → Bytes
arrived arrives zero t = []
arrived arrives (suc left) t = arrives t ++ arrived arrives left (suc t)

-- The next bytes are kept while there is room.
room_lem :
    (room : ℕ) (xs ys : Bytes)
    → length xs ≤ room
    → xs ++ take (min (room - length xs) (length ys)) ys ≡ take room (xs ++ ys)
room_lem room [] ys h = let all : room - 0 ≡ room = omega arith in rw all (take-min room ys)
room_lem zero (x ∷ xs) ys h = absurd (omega arith)
room_lem (suc room) (x ∷ xs) ys h =
    let less : suc room - suc (length xs) ≡ room - length xs = omega arith in
    rw less (ap (λ l. x ∷ l) (room_lem room xs ys (omega arith)))

take_twice : (n : ℕ) (xs ys : Bytes) → take n (take n xs ++ ys) ≡ take n (xs ++ ys)
take_twice zero xs ys = refl
take_twice (suc n) [] ys = refl
take_twice (suc n) (x ∷ xs) ys = ap (λ l. x ∷ l) (take_twice n xs ys)

-- All the bytes that were got, counted and kept behind what was there.
abbrev after : Bytes → Reading → Reading
after bytes r = record {
  read_total = saturate (r.read_total + length bytes);
  rx_preview = take max_link_probe_bytes (r.rx_preview ++ bytes);
}

-- A reading within its bounds.
abbrev IsReading : Reading → Type 0
IsReading r = (length r.rx_preview ≤ max_link_probe_bytes) × (r.read_total < 2 ^ 64)

after-nil : (r : Reading) → IsReading r → after [] r ≡ r
after-nil r (p, q) =
    let total : saturate (r.read_total + 0) ≡ r.read_total = omega arith in
    let kept : take max_link_probe_bytes (r.rx_preview ++ []) ≡ r.rx_preview =
      ap (take max_link_probe_bytes) (append-nil r.rx_preview)
      ∙ take-all max_link_probe_bytes r.rx_preview p in
    rw (total, kept) refl

after-append : (xs ys : Bytes) (r : Reading) → after ys (after xs r) ≡ after (xs ++ ys) r
after-append xs ys r =
    let total : saturate (saturate (r.read_total + length xs) + length ys)
        ≡ saturate (r.read_total + length (xs ++ ys)) =
      omega (arith, length-append xs ys) in
    let kept : take max_link_probe_bytes (take max_link_probe_bytes (r.rx_preview ++ xs) ++ ys)
        ≡ take max_link_probe_bytes (r.rx_preview ++ (xs ++ ys)) =
      take_twice max_link_probe_bytes (r.rx_preview ++ xs) ys
      ∙ ap (take max_link_probe_bytes) (append_assoc r.rx_preview xs ys) in
    rw (total, kept) refl

round_lem :
    {S : Type 0} (w : Worker S) (s : S) (r : Reading)
    → IsReading r
    → round w s r ≡ after (got_in w s).0 r
round_lem w s r h = elim (Bool-cases (ltb 0 (w.available s))) [
  | inl e ↦
      rw
        (
          e,
          room_lem max_link_probe_bytes r.rx_preview
              (w.gives s (min (w.available s) max_link_probe_bytes)).0 h.0,
        )
        refl
  | inr e ↦ rw e (sym (after-nil r h))
]

after-IsReading : (bytes : Bytes) (r : Reading) → IsReading (after bytes r)
after-IsReading bytes r = (length-take_le max_link_probe_bytes (r.rx_preview ++ bytes), omega arith)

no_bytes : (xs : Bytes) → length xs ≡ 0 → xs ≡ []
no_bytes [] h = refl
no_bytes (x ∷ xs) h = absurd (omega arith)

drop-length : (xs : Bytes) → drop (length xs) xs ≡ []
drop-length [] = refl
drop-length (x ∷ xs) = drop-length xs

module _ {S : Type 0} (w : Worker S) (arrives : ℕ → Bytes) (q : IsFifo S w arrives) where
  -- A round gets all that waits, when it is 60 bytes at most.
  got_lem :
      (s : S)
      → length (q.content s) ≤ max_link_probe_bytes
      → ((got_in w s).0 ≡ q.content s)
        × (q.content (got_in w s).1 ≡ [])
        × (q.now (got_in w s).1 ≡ q.now s)
  got_lem s h = elim (Bool-cases (ltb 0 (w.available s))) [
    | inl e ↦
        let all : min (w.available s) max_link_probe_bytes ≡ length (q.content s) =
          omega (arith, q.available_content s) in
        rw (e, all)
          (
            q.gives_content s (length (q.content s))
                ∙ take-all (length (q.content s)) (q.content s) (omega arith),
            q.content_gives s (length (q.content s)) ∙ drop-length (q.content s),
            q.now_gives s (length (q.content s)),
          )
    | inr e ↦
        let same = q.available_content s in
        let none_waits = no_bytes (q.content s) (ground arith) in
        rw e (sym none_waits, none_waits, refl)
  ]

  rounds_lem :
      (left t : ℕ) (s : S) (r : Reading)
      → ((t : ℕ) → length (arrives t) ≤ max_link_probe_bytes)
      → q.content s ≡ arrives t
      → q.now s ≡ t
      → IsReading r
      → (rounds w left s r).0 ≡ after (arrived arrives left t) r
  unfolding rounds arrived
  rounds_lem zero t s r keeps_up waiting at_t h = sym (after-nil r h)
  rounds_lem (suc left) t s r keeps_up waiting at_t h =
      let (got, empty, same) = got_lem s (rw waiting (keeps_up t)) in
      let s' = (got_in w s).1 in
      let next_waiting : q.content (w.waits s') ≡ arrives (suc t) =
        q.content_waits s'
        ∙ ap (λ l. l ++ arrives (suc (q.now s'))) empty
        ∙ ap (λ n. arrives (suc n)) (same ∙ at_t) in
      let next_t : q.now (w.waits s') ≡ suc t = q.now_waits s' ∙ ap suc (same ∙ at_t) in
      ap (λ p. (rounds w left (w.waits s') p).0)
        (round_lem w s r h ∙ ap (λ b. after b r) (got ∙ waiting))
      ∙ rounds_lem left (suc t) (w.waits s') (after (arrives t) r) keeps_up next_waiting next_t
          (after-IsReading (arrives t) r)
      ∙ after-append (arrives t) (arrived arrives left (suc t)) r

  -- What a whole probe reads: the count of all bytes that arrive, and the first 60 of them.
  pub reading_lem :
      (timeout_ms : ℕ)
      → ((t : ℕ) → length (arrives t) ≤ max_link_probe_bytes)
      → (rounds w timeout_ms w.written blank).0 ≡ record {
        read_total = saturate (length (arrived arrives timeout_ms 0));
        rx_preview = take max_link_probe_bytes (arrived arrives timeout_ms 0);
      }
  reading_lem timeout_ms keeps_up =
      let all = arrived arrives timeout_ms 0 in
      let counted : saturate (0 + length all) ≡ saturate (length all) = omega arith in
      rounds_lem timeout_ms 0 w.written blank keeps_up q.content_written q.now_written (omega arith)
      ∙ rw counted refl

-- The worker as the SDK sees it; `misused` for a call that is made in the wrong state.
pub data WorkerState : Type 0 where
  absent allocated running misused : WorkerState

abbrev pub after_call : WorkerState → WorkerCall → WorkerState
after_call absent (alloc true) = allocated
after_call absent (alloc false) = absent
after_call allocated set_callback = allocated
after_call allocated (start true) = running
after_call allocated (start false) = allocated
after_call allocated free = absent
after_call running (write bytes) = running
after_call running (read n) = running
after_call running delay = running
after_call running stop = allocated
after_call _ _ = misused

abbrev pub after_calls : WorkerState → List WorkerCall → WorkerState
after_calls s [] = s
after_calls s (c ∷ cs) = after_calls (after_call s c) cs

after_calls-append :
    (s : WorkerState) (cs ds : List WorkerCall)
    → after_calls s (cs ++ ds) ≡ after_calls (after_calls s cs) ds
after_calls-append s [] ds = refl
after_calls-append s (c ∷ cs) ds = after_calls-append (after_call s c) cs ds

calls_in_lem : {S : Type 0} (w : Worker S) (s : S) → after_calls running (calls_in w s) ≡ running
calls_in_lem w s =
    if-either (λ cs. after_calls running cs ≡ running) (ltb 0 (w.available s))
      (read (min (w.available s) max_link_probe_bytes) ∷ delay ∷ []) (delay ∷ []) refl refl

rounds_calls :
    {S : Type 0} (w : Worker S) (left : ℕ) (s : S) (r : Reading)
    → after_calls running (rounds w left s r).1 ≡ running
unfolding rounds
rounds_calls w zero s r = refl
rounds_calls w (suc left) s r =
    let s' = w.waits (got_in w s).1 in
    let later = (rounds w left s' (round w s r)).1 in
    after_calls-append running (calls_in w s) later
    ∙ ap (λ q. after_calls q later) (calls_in_lem w s)
    ∙ rounds_calls w left s' (round w s r)

abbrev Released : ProbeOutcome → Type 0
Released o = after_calls absent o.1 ≡ absent

run_probe-Released : {S : Type 0} (w : Worker S) (r : ProbeRequest) → Released (run_probe w r)
unfolding run_probe
run_probe-Released w r =
    let calls = (rounds w r.timeout_ms w.written blank).1 in
    let released : after_calls running (calls ++ (stop ∷ free ∷ [])) ≡ absent =
      after_calls-append running calls (stop ∷ free ∷ [])
      ∙ ap (λ s. after_calls s (stop ∷ free ∷ [])) (rounds_calls w r.timeout_ms w.written blank) in
    if-either Released (not w.writes) _ _ released released

-- On every branch of `link_probe`, whatever the worker does: each call is made in a state that allows
-- it, a worker that was allocated is freed once at the end, and one that was started is stopped first.
pub link_probe-released :
    {S : Type 0} (w : Worker S) (st : SubGhzState) (params : Value)
    → after_calls absent (link_probe w st params).1 ≡ absent
unfolding link_probe after_probe_request open_probe start_probe
link_probe-released w st params =
    if-either Released (st.capture_active || is_some st.tx.ptr) _ _ refl
      (by_request (probe_request params))
  where
    by_request : (r : Answer ProbeRequest) → Released (after_probe_request w r)
    by_request (err e) = refl
    by_request (ok r) = if-either Released (not w.is_present) _ _ refl (
        if-either Released (not (w.is_frequency_valid r.frequency)) _ _ refl (
          if-either Released (not (w.is_frequency_allowed r.frequency)) _ _ refl (
            if-either Released (not w.allocates) _ _ refl
              (if-either Released (not w.starts) _ _ refl (run_probe-Released w r)))))
