-- ===== src/Firmware/SubGhz/Transmit/Yield.antt =====
-- The callback of firmware/src/subghz_instrument.rs over a whole transmission.
use flip_link.Base.{
  ℕ, zero, suc, ◌+◌, ◌*◌, ◌<◌, ◌≡◌, refl, arith, List, [], ◌∷◌, ◌++◌, map, length, drop-eq-cons,
  drop, some, ap, append_assoc, Bool-cases, inl, inr, ◌==◌, replicate, flatten,
}
use native.Mathlib.Nat.{suc-mul}
use flip_link.Firmware.SubGhz.{TxEdge}
use flip_link.Firmware.SubGhz.Transmit.{
  LevelDuration, level_duration, level_duration_reset, Tx, TxRequest, silent, tx_yield, yields,
  published,
}

abbrev pub sent : TxEdge → LevelDuration
sent e = level_duration e.level e.duration_us

-- The statics in round `k` of `n`, `i` edges into the list.
abbrev at : List TxEdge → ℕ → ℕ → ℕ → Tx
at edges n k i = record {
  ptr = some edges;
  len = length edges;
  pos = i;
  repeat = n;
  repeat_pos = k;
}

-- A call in the list, and the call that ends a round.
step :
    (edges : List TxEdge) (n k i : ℕ) (e : TxEdge) (rest : List TxEdge)
    → k < n
    → drop i edges ≡ e ∷ rest
    → tx_yield (at edges n k i)
      ≡ (sent e, elim rest [ [] ↦ at edges n (k + 1) 0 | _ ↦ at edges n k (suc i) ])
unfolding tx_yield
step edges n k i e [] p q = let (a, b, c) = drop-eq-cons edges i silent e [] q in ground arith
step edges n k i e (f ∷ rest) p q =
    let (a, b, c) = drop-eq-cons edges i silent e (f ∷ rest) q in ground arith

after :
    (count : ℕ) (tx tx' last : Tx) (d : LevelDuration) (ds : List LevelDuration)
    → tx_yield tx ≡ (d, tx')
    → yields count tx' ≡ (ds, last)
    → yields (suc count) tx ≡ (d ∷ ds, last)
unfolding yields
after count tx tx' last d ds p q = rw (p, q) refl

-- The rest of a round, before what follows the round.
rest_of_round :
    (edges : List TxEdge) (n k i count : ℕ) (rest : List TxEdge) (ds : List LevelDuration)
    (last : Tx)
    → k < n
    → drop i edges ≡ rest
    → 0 < length rest
    → yields count (at edges n (k + 1) 0) ≡ (ds, last)
    → yields (length rest + count) (at edges n k i) ≡ (map sent rest ++ ds, last)
rest_of_round edges n k i count [] ds last p q g h = absurd (omega arith)
rest_of_round edges n k i count (e ∷ []) ds last p q g h =
    let one : length (e ∷ []) + count ≡ suc count = omega arith in
    rw one (
      after count (at edges n k i) (at edges n (k + 1) 0) last (sent e) ds
        (step edges n k i e [] p q) h)
rest_of_round edges n k i count (e ∷ f ∷ rest) ds last p q g h =
    let more : length (e ∷ f ∷ rest) + count ≡ suc (length (f ∷ rest) + count) = omega arith in
    let (a, b, c) = drop-eq-cons edges i silent e (f ∷ rest) q in
    let tail = rest_of_round edges n k (suc i) count (f ∷ rest) ds last p b (omega arith) h in
    rw more (
      after (length (f ∷ rest) + count) (at edges n k i) (at edges n k (suc i)) last (sent e)
        (map sent (f ∷ rest) ++ ds) (step edges n k i e (f ∷ rest) p q) tail)

rounds :
    (edges : List TxEdge) (n k m count : ℕ) (ds : List LevelDuration) (last : Tx)
    → k + m ≡ n
    → 0 < length edges
    → yields count (at edges n n 0) ≡ (ds, last)
    → yields (m * length edges + count) (at edges n k 0)
      ≡ (flatten (replicate m (map sent edges)) ++ ds, last)
unfolding flatten
rounds edges n k zero count ds last e g h =
    let same : k ≡ n = omega arith in
    let none_left : 0 * length edges + count ≡ count = omega arith in rw (same, none_left) h
rounds edges n k (suc m) count ds last e g h =
    let more : suc m * length edges + count ≡ length edges + (m * length edges + count) =
      omega (arith, suc-mul m (length edges)) in
    let tail = rounds edges n (k + 1) m count ds last (omega arith) g h in
    let assoc = append_assoc (map sent edges) (flatten (replicate m (map sent edges))) ds in
    rw (more, assoc)
      (rest_of_round edges n k 0 (m * length edges + count) edges
        (flatten (replicate m (map sent edges)) ++ ds) last (omega arith) refl g tail)

idle_step :
    (edges : List TxEdge) (n : ℕ)
    → tx_yield (at edges n n 0) ≡ (level_duration_reset, at edges n n 0)
unfolding tx_yield
idle_step edges n = elim (Bool-cases (length edges == 0)) [
  | inl e ↦ rw e refl
  | inr e ↦ ground arith
]

-- Behind the last round.
over :
    (edges : List TxEdge) (n count : ℕ)
    → yields count (at edges n n 0) ≡ (replicate count level_duration_reset, at edges n n 0)
unfolding yields
over edges n zero = refl
over edges n (suc count) =
    after count (at edges n n 0) (at edges n n 0) (at edges n n 0) level_duration_reset
      (replicate count level_duration_reset) (idle_step edges n) (over edges n count)

-- For a request with at least one edge, the callback gives the radio the edges in order, as often
-- as the repeat count says, and after that the reset however often it is asked.
pub yields-published :
    (r : TxRequest) (count : ℕ)
    → 0 < length r.edges
    → (yields (r.repeat * length r.edges + count) (published r)).0
      ≡ flatten (replicate r.repeat (map sent r.edges)) ++ replicate count level_duration_reset
yields-published r count h =
    ap (λ (p : List LevelDuration × Tx). p.0)
      (rounds r.edges r.repeat 0 r.repeat count (replicate count level_duration_reset)
        (at r.edges r.repeat r.repeat 0) (omega arith) h (over r.edges r.repeat count))
