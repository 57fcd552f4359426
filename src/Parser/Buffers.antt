-- ===== src/Parser/Buffers.antt =====
-- Buffers that bytes fill up to a size, at once and in two parts.
use easy_uds.Prelude.{
  ℕ, ◌-◌, ◌≡◌, ◌≤◌, zero, suc, refl, sym, ◌∙◌, ap, arith, inl, inr, [], ◌∷◌, ◌++◌, leb, length,
  length-append, length-take, drop, take, take-append-drop, min, Bool-cases,
}
use easy_uds.Output.{Bytes}
use easy_uds.Output.Stream.{append_assoc, append-nil, drop-all, drop-append_lt, drop-append_ge}

pub take-append_lt : (n : ℕ) (xs ys : Bytes) → n ≤ length xs → take n (xs ++ ys) ≡ take n xs
take-append_lt zero xs ys h = refl
take-append_lt (suc n) [] ys h = absurd (omega arith)
take-append_lt (suc n) (x ∷ xs) ys h = ap (λ r. x ∷ r) (take-append_lt n xs ys (omega arith))

pub take-append_ge :
    (n : ℕ) (xs ys : Bytes) → length xs ≤ n → take n (xs ++ ys) ≡ xs ++ take (n - length xs) ys
take-append_ge n [] ys h = ap (λ k. take k ys) (omega arith)
take-append_ge zero (x ∷ xs) ys h = absurd (omega arith)
take-append_ge (suc n) (x ∷ xs) ys h =
    ap (λ r. x ∷ r) (take-append_ge n xs ys (omega arith) ∙ ap (λ k. xs ++ take k ys) (omega arith))

pub take-all : (n : ℕ) (xs : Bytes) → length xs ≤ n → take n xs ≡ xs
take-all n xs h =
    sym (append-nil (take n xs))
    ∙ ap (λ r. take n xs ++ r) (sym (drop-all n xs h))
    ∙ take-append-drop n xs

pub take-exact : (n : ℕ) (xs ys : Bytes) → length xs ≡ n → take n (xs ++ ys) ≡ xs
take-exact n xs ys h = take-append_lt n xs ys (omega arith) ∙ take-all n xs (omega arith)

pub drop-exact : (n : ℕ) (xs ys : Bytes) → length xs ≡ n → drop n (xs ++ ys) ≡ ys
drop-exact n xs ys h =
    let over : n - length xs ≡ 0 = omega arith in
    drop-append_ge n xs ys (omega arith) ∙ ap (λ k. drop k ys) over

-- Filling a buffer up to a size, in two parts.
module _ (size : ℕ) (have xs ys : Bytes) (h : length xs ≤ size - length have) where
  pub take-again :
      have ++ take (size - length have) (xs ++ ys)
      ≡ (have ++ take (size - length have) xs)
        ++ take (size - length (have ++ take (size - length have) xs)) ys
  take-again =
      let sum = length-append have xs in
      let left : size - length have - length xs ≡ size - length (have ++ xs) = omega arith in
      ap (λ r. have ++ r) (take-append_ge (size - length have) xs ys h)
      ∙ sym (append_assoc have xs (take (size - length have - length xs) ys))
      ∙ ap (λ k. (have ++ xs) ++ take k ys) left
      ∙ ap (λ r. (have ++ r) ++ take (size - length (have ++ r)) ys) (sym (take-all _ xs h))

  pub drop-again :
      drop (size - length have) (xs ++ ys)
      ≡ drop (size - length (have ++ take (size - length have) xs)) ys
  drop-again =
      let sum = length-append have xs in
      drop-append_ge (size - length have) xs ys h
      ∙ ap (λ k. drop k ys) (omega arith)
      ∙ ap (λ r. drop (size - length (have ++ r)) ys) (sym (take-all _ xs h))

take-nil : (n : ℕ) → ◌≡◌ {A = Bytes} (take n []) []
take-nil zero = refl
take-nil (suc n) = refl

drop-nil : (n : ℕ) → ◌≡◌ {A = Bytes} (drop n []) []
drop-nil zero = refl
drop-nil (suc n) = refl

pub take-take : (k n : ℕ) (xs : Bytes) → take (min k n) xs ≡ take n (take k xs)
take-take k zero xs = let none_left : min k 0 ≡ 0 = omega arith in rw none_left refl
take-take zero (suc n) xs = let none_left : min 0 (suc n) ≡ 0 = omega arith in rw none_left refl
take-take (suc k) (suc n) [] = take-nil (min (suc k) (suc n))
take-take (suc k) (suc n) (x ∷ xs) =
    let less : min (suc k) (suc n) ≡ suc (min k n) = omega arith in
    ap (λ i. take i (x ∷ xs)) less ∙ ap (λ r. x ∷ r) (take-take k n xs)

pub take-drop : (k n : ℕ) (xs : Bytes) → take (k - min k n) (drop (min k n) xs) ≡ drop n (take k xs)
take-drop k zero xs =
    let none_left : min k 0 ≡ 0 = omega arith in
    let all : k - 0 ≡ k = omega arith in rw (none_left, all) refl
take-drop zero (suc n) xs = let none_left : 0 - min 0 (suc n) ≡ 0 = omega arith in rw none_left refl
take-drop (suc k) (suc n) [] =
    ap (λ (b : Bytes). take (suc k - min (suc k) (suc n)) b) (drop-nil (min (suc k) (suc n)))
    ∙ take-nil (suc k - min (suc k) (suc n))
take-drop (suc k) (suc n) (x ∷ xs) =
    let less : min (suc k) (suc n) ≡ suc (min k n) = omega arith in
    let left : suc k - suc (min k n) ≡ k - min k n = omega arith in
    rw (less, left) (take-drop k n xs)

-- A payload fills the route up to its size, and then the body.
module _ (size : ℕ) (have body xs ys : Bytes) where
  pub route-again :
      have ++ take (size - length have) (xs ++ ys)
      ≡ (have ++ take (size - length have) xs)
        ++ take (size - length (have ++ take (size - length have) xs)) ys
  route-again =
      let n = size - length have in
      let sum = length-append have (take n xs) in
      let sized = length-take n xs in
      elim (Bool-cases (leb (length xs) n)) [
        | inl short ↦ take-again size have xs ys (ground arith)
        | inr full ↦
            let none_left : size - length (have ++ take n xs) ≡ 0 = ground arith in
            rw none_left (
              ap (λ r. have ++ r) (take-append_lt n xs ys (ground arith))
              ∙ sym (append-nil (have ++ take n xs)))
      ]

  pub body-again :
      body ++ drop (size - length have) (xs ++ ys)
      ≡ (body ++ drop (size - length have) xs)
        ++ drop (size - length (have ++ take (size - length have) xs)) ys
  body-again =
      let n = size - length have in
      let sum = length-append have (take n xs) in
      let sized = length-take n xs in
      elim (Bool-cases (leb (length xs) n)) [
        | inl short ↦
            let nothing = drop-all n xs (ground arith) in
            rw (nothing, append-nil body)
              (ap (λ r. body ++ r) (drop-again size have xs ys (ground arith)))
        | inr full ↦
            let none_left : size - length (have ++ take n xs) ≡ 0 = ground arith in
            rw none_left (
              ap (λ r. body ++ r) (drop-append_lt n xs ys (ground arith))
              ∙ sym (append_assoc body (drop n xs) ys))
      ]
