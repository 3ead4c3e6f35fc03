-- ===== src/Base/Lists.antt =====
-- Lists measured and cut by native numbers, under the library's names.
use Prim.Native.Nat.{ℕ, min, zero, suc, ◌+◌, ◌-◌, ◌<◌, ◌≤◌}
use mathlib.Core.Path.{◌≡◌, refl, sym, ap, ◌∙◌}
use mathlib.Core.List.{List, [], ◌∷◌, ◌++◌, flatten, append_assoc}
use native.Mathlib.Omega.{arith}

module _ {ℓ} {A : Type ℓ} where
  abbrev pub length : List A → ℕ
  length [] = 0
  length (x ∷ xs) = suc (length xs)

  abbrev pub take : ℕ → List A → List A
  take zero xs = []
  take (suc n) [] = []
  take (suc n) (x ∷ xs) = x ∷ take n xs

  abbrev pub drop : ℕ → List A → List A
  drop zero xs = xs
  drop (suc n) [] = []
  drop (suc n) (x ∷ xs) = drop n xs

  -- `xs[i]`, or `d` out of range.
  abbrev pub get_or : List A → ℕ → A → A
  get_or [] i d = d
  get_or (x ∷ xs) zero d = x
  get_or (x ∷ xs) (suc i) d = get_or xs i d

  abbrev pub replicate : ℕ → A → List A
  replicate zero a = []
  replicate (suc n) a = a ∷ replicate n a

  abbrev pub All {κ} : (A → Type κ) → List A → Type κ
  All P [] = Unit {κ}
  All P (x ∷ xs) = P x × All P xs

module _ {ℓ} {A : Type ℓ} where
  pub length-append : (xs ys : List A) → length (xs ++ ys) ≡ length xs + length ys
  length-append [] ys = omega arith
  length-append (x ∷ xs) ys = omega (arith, length-append xs ys)

  pub take-append-drop : (n : ℕ) (xs : List A) → take n xs ++ drop n xs ≡ xs
  take-append-drop zero xs = refl
  take-append-drop (suc n) [] = refl
  take-append-drop (suc n) (x ∷ xs) = ap (λ l. x ∷ l) (take-append-drop n xs)

  pub length-take : (n : ℕ) (xs : List A) → n ≤ length xs → length (take n xs) ≡ n
  length-take zero xs h = refl
  length-take (suc n) [] h = absurd (omega arith)
  length-take (suc n) (x ∷ xs) h = ap suc (length-take n xs (omega arith))

  pub length-take_le : (n : ℕ) (xs : List A) → length (take n xs) ≤ n
  length-take_le zero xs = omega arith
  length-take_le (suc n) [] = omega arith
  length-take_le (suc n) (x ∷ xs) = omega (arith, length-take_le n xs)

  pub length-drop : (n : ℕ) (xs : List A) → length (drop n xs) ≡ length xs - n
  length-drop zero xs = omega arith
  length-drop (suc n) [] = omega arith
  length-drop (suc n) (x ∷ xs) = omega (arith, length-drop n xs)

  -- A cut at the end of the first part.
  pub take-append_length : (xs ys : List A) (n : ℕ) → n ≡ length xs → take n (xs ++ ys) ≡ xs
  take-append_length [] ys zero e = refl
  take-append_length [] ys (suc n) e = absurd (omega arith)
  take-append_length (x ∷ xs) ys zero e = absurd (omega arith)
  take-append_length (x ∷ xs) ys (suc n) e =
      ap (λ l. x ∷ l) (take-append_length xs ys n (omega arith))

  pub drop-append_length : (xs ys : List A) (n : ℕ) → n ≡ length xs → drop n (xs ++ ys) ≡ ys
  drop-append_length [] ys zero e = refl
  drop-append_length [] ys (suc n) e = absurd (omega arith)
  drop-append_length (x ∷ xs) ys zero e = absurd (omega arith)
  drop-append_length (x ∷ xs) ys (suc n) e = drop-append_length xs ys n (omega arith)

  -- A cut inside the first part does not see the second.
  pub take-append_le : (n : ℕ) (xs ys : List A) → n ≤ length xs → take n (xs ++ ys) ≡ take n xs
  take-append_le zero xs ys h = refl
  take-append_le (suc n) [] ys h = absurd (omega arith)
  take-append_le (suc n) (x ∷ xs) ys h = ap (λ l. x ∷ l) (take-append_le n xs ys (omega arith))

  pub drop-append_le :
      (n : ℕ) (xs ys : List A) → n ≤ length xs → drop n (xs ++ ys) ≡ drop n xs ++ ys
  drop-append_le zero xs ys h = refl
  drop-append_le (suc n) [] ys h = absurd (omega arith)
  drop-append_le (suc n) (x ∷ xs) ys h = drop-append_le n xs ys (omega arith)

  pub get_or-append_lt :
      (xs ys : List A) (i : ℕ) (d : A) → i < length xs → get_or (xs ++ ys) i d ≡ get_or xs i d
  get_or-append_lt [] ys i d h = absurd (omega arith)
  get_or-append_lt (x ∷ xs) ys zero d h = refl
  get_or-append_lt (x ∷ xs) ys (suc i) d h = get_or-append_lt xs ys i d (omega arith)

  pub drop-drop : (xs : List A) (m n k : ℕ) → m + n ≡ k → drop n (drop m xs) ≡ drop k xs
  drop-drop xs zero n k e = let same : n ≡ k = omega arith in ap (λ j. drop j xs) same
  drop-drop xs (suc m) n zero e = absurd (omega arith)
  drop-drop [] (suc m) zero (suc k) e = refl
  drop-drop [] (suc m) (suc n) (suc k) e = refl
  drop-drop (x ∷ xs) (suc m) n (suc k) e = drop-drop xs m n k (omega arith)

  -- An index behind the first part counts in the second.
  pub get_or-append_ge :
      (xs ys : List A) (i k : ℕ) (d : A) → i ≡ length xs + k → get_or (xs ++ ys) i d ≡ get_or ys k d
  get_or-append_ge [] ys i k d e = let same : i ≡ k = omega arith in ap (λ j. get_or ys j d) same
  get_or-append_ge (x ∷ xs) ys zero k d e = absurd (omega arith)
  get_or-append_ge (x ∷ xs) ys (suc i) k d e = get_or-append_ge xs ys i k d (omega arith)

  -- A cut behind the end is one at the end.
  pub take-min : (n : ℕ) (xs : List A) → take (min n (length xs)) xs ≡ take n xs
  take-min zero xs = let none_taken : min 0 (length xs) ≡ 0 = omega arith in rw none_taken refl
  take-min (suc n) [] = let none_taken : min (suc n) 0 ≡ 0 = omega arith in rw none_taken refl
  take-min (suc n) (x ∷ xs) =
      let one_more : min (suc n) (suc (length xs)) ≡ suc (min n (length xs)) = omega arith in
      rw (one_more, take-min n xs) refl

  pub drop-min : (n : ℕ) (xs : List A) → drop (min n (length xs)) xs ≡ drop n xs
  drop-min zero xs = let none_taken : min 0 (length xs) ≡ 0 = omega arith in rw none_taken refl
  drop-min (suc n) [] = let none_taken : min (suc n) 0 ≡ 0 = omega arith in rw none_taken refl
  drop-min (suc n) (x ∷ xs) =
      let one_more : min (suc n) (suc (length xs)) ≡ suc (min n (length xs)) = omega arith in
      rw (one_more, drop-min n xs) refl

  pub take-all : (n : ℕ) (xs : List A) → length xs ≤ n → take n xs ≡ xs
  take-all zero [] h = refl
  take-all zero (x ∷ xs) h = absurd (omega arith)
  take-all (suc n) [] h = refl
  take-all (suc n) (x ∷ xs) h = ap (λ l. x ∷ l) (take-all n xs (omega arith))

  pub length-replicate : (n : ℕ) (x : A) → length (replicate n x) ≡ n
  length-replicate zero x = refl
  length-replicate (suc n) x = ap suc (length-replicate n x)

  pub replicate-append : (m n : ℕ) (x : A) → replicate m x ++ replicate n x ≡ replicate (m + n) x
  replicate-append zero n x = let same : n ≡ 0 + n = omega arith in ap (λ k. replicate k x) same
  replicate-append (suc m) n x =
      let one_more : suc (m + n) ≡ suc m + n = omega arith in
      ap (λ l. x ∷ l) (replicate-append m n x) ∙ ap (λ k. replicate k x) one_more

  -- The element at the cut, and what is behind it.
  pub drop-eq-cons :
      (xs : List A) (i : ℕ) (d x : A) (rest : List A)
      → drop i xs ≡ x ∷ rest
      → (get_or xs i d ≡ x) × (drop (suc i) xs ≡ rest) × (i + 1 + length rest ≡ length xs)
  drop-eq-cons [] zero d x rest e = absurd cc
  drop-eq-cons [] (suc i) d x rest e = absurd cc
  drop-eq-cons (y ∷ ys) zero d x rest e =
      let same : ys ≡ rest = cc in (cc, same, omega (arith, ap length same))
  drop-eq-cons (y ∷ ys) (suc i) d x rest e =
      let (a, b, c) = drop-eq-cons ys i d x rest e in (a, b, omega (arith, c))

module _ {ℓ} {A : Type ℓ} where
  pub flatten-append : (xss yss : List (List A)) → flatten (xss ++ yss) ≡ flatten xss ++ flatten yss
  unfolding flatten
  flatten-append [] yss = refl
  flatten-append (xs ∷ xss) yss =
      ap (λ l. xs ++ l) (flatten-append xss yss) ∙ sym (append_assoc xs (flatten xss) (flatten yss))

module _ {ℓ κ} {A : Type ℓ} (P : A → Type κ) where
  pub All-append : (xs ys : List A) → All P xs → All P ys → All P (xs ++ ys)
  All-append [] ys h k = k
  All-append (x ∷ xs) ys h k = (h.0, All-append xs ys h.1 k)

  pub All-append_left : (xs ys : List A) → All P (xs ++ ys) → All P xs
  All-append_left [] ys h = tt
  All-append_left (x ∷ xs) ys h = (h.0, All-append_left xs ys h.1)

  pub All-append_right : (xs ys : List A) → All P (xs ++ ys) → All P ys
  All-append_right [] ys h = h
  All-append_right (x ∷ xs) ys h = All-append_right xs ys h.1

  All-drop : (n : ℕ) (xs : List A) → All P xs → All P (drop n xs)
  All-drop zero xs h = h
  All-drop (suc n) [] h = tt
  All-drop (suc n) (x ∷ xs) h = All-drop n xs h.1

module _ {ℓ} {A : Type ℓ} where
  -- The list in pieces of `n + 1`; each takes an element at least, so the length is enough fuel.
  abbrev pub batches : ℕ → ℕ → List A → List (List A)
  batches n zero xs = []
  batches n (suc fuel) [] = []
  batches n (suc fuel) (x ∷ xs) = (x ∷ take n xs) ∷ batches n fuel (drop n xs)

  pub flatten-batches :
      (n fuel : ℕ) (xs : List A) → length xs < fuel → flatten (batches n fuel xs) ≡ xs
  unfolding flatten
  flatten-batches n zero xs h = absurd (omega arith)
  flatten-batches n (suc fuel) [] h = refl
  flatten-batches n (suc fuel) (x ∷ xs) h =
      let rest = flatten-batches n fuel (drop n xs) (omega (arith, length-drop n xs)) in
      ap (λ l. x ∷ (take n xs ++ l)) rest ∙ ap (λ l. x ∷ l) (take-append-drop n xs)
