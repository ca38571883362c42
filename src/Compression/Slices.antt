-- ===== src/Compression/Slices.antt =====
-- Slices of a list that is put together from two.
use datasluice.Base.{
  ℕ, zero, suc, ◌-◌, ◌≤◌, List, [], ◌∷◌, ◌++◌, ◌≡◌, ◌∙◌, ◌⊎◌, inl, inr, false, refl, ap, arith,
  length,
}
use datasluice.Compression.Peekable.{take, drop, is_empty}

module _ {A : Type 0} where
  pub append-nil : (xs : List A) → xs ++ [] ≡ xs
  append-nil [] = refl
  append-nil (x ∷ xs) = ap (λ ys. x ∷ ys) (append-nil xs)

  pub append_assoc : (xs ys zs : List A) → (xs ++ ys) ++ zs ≡ xs ++ (ys ++ zs)
  append_assoc [] ys zs = refl
  append_assoc (x ∷ xs) ys zs = ap (λ l. x ∷ l) (append_assoc xs ys zs)

  pub take-nil : (n : ℕ) → take {A = A} n [] ≡ []
  unfolding take
  take-nil zero = refl
  take-nil (suc n) = refl

  pub drop-nil : (n : ℕ) → drop {A = A} n [] ≡ []
  unfolding drop
  drop-nil zero = refl
  drop-nil (suc n) = refl

  pub take-append :
      (n : ℕ) (xs ys : List A) → take n (xs ++ ys) ≡ take n xs ++ take (n - length xs) ys
  unfolding take
  take-append zero [] ys = refl
  take-append zero (x ∷ xs) ys = let z : 0 - suc (length xs) ≡ 0 = omega arith in rw z refl
  take-append (suc n) [] ys = let z : suc n - 0 ≡ suc n = omega arith in rw z refl
  take-append (suc n) (x ∷ xs) ys =
      let z : suc n - suc (length xs) ≡ n - length xs = omega arith in
      rw z (ap (λ l. x ∷ l) (take-append n xs ys))

  pub drop-append :
      (n : ℕ) (xs ys : List A) → drop n (xs ++ ys) ≡ drop n xs ++ drop (n - length xs) ys
  unfolding drop
  drop-append zero [] ys = refl
  drop-append zero (x ∷ xs) ys = let z : 0 - suc (length xs) ≡ 0 = omega arith in rw z refl
  drop-append (suc n) [] ys = let z : suc n - 0 ≡ suc n = omega arith in rw z refl
  drop-append (suc n) (x ∷ xs) ys =
      let z : suc n - suc (length xs) ≡ n - length xs = omega arith in rw z (drop-append n xs ys)

  pub take_all : (n : ℕ) (xs : List A) → length xs ≤ n → take n xs ≡ xs
  unfolding take
  take_all zero [] h = refl
  take_all zero (x ∷ xs) h = absurd (omega arith)
  take_all (suc n) [] h = refl
  take_all (suc n) (x ∷ xs) h = ap (λ l. x ∷ l) (take_all n xs (omega arith))

  pub drop_all : (n : ℕ) (xs : List A) → length xs ≤ n → drop n xs ≡ []
  unfolding drop
  drop_all zero [] h = refl
  drop_all zero (x ∷ xs) h = absurd (omega arith)
  drop_all (suc n) [] h = refl
  drop_all (suc n) (x ∷ xs) h = drop_all n xs (omega arith)

  pub take-drop : (n : ℕ) (xs : List A) → take n xs ++ drop n xs ≡ xs
  unfolding take drop
  take-drop zero xs = refl
  take-drop (suc n) [] = refl
  take-drop (suc n) (x ∷ xs) = ap (λ l. x ∷ l) (take-drop n xs)

  pub length-take_le : (n : ℕ) (xs : List A) → length (take n xs) ≤ n
  unfolding take
  length-take_le zero xs = omega arith
  length-take_le (suc n) [] = omega arith
  length-take_le (suc n) (x ∷ xs) = omega (arith, length-take_le n xs)

  -- What a slice of a part leaves of the whole.
  pub take-take : (n : ℕ) (xs : List A) → take (length (take n xs)) xs ≡ take n xs
  unfolding take
  take-take zero xs = refl
  take-take (suc n) [] = refl
  take-take (suc n) (x ∷ xs) = ap (λ l. x ∷ l) (take-take n xs)

  pub drop-take : (n : ℕ) (xs : List A) → drop (length (take n xs)) xs ≡ drop n xs
  unfolding take drop
  drop-take zero xs = refl
  drop-take (suc n) [] = refl
  drop-take (suc n) (x ∷ xs) = drop-take n xs

  -- A slice of what the first part has enough of.
  pub take_within : (n : ℕ) (xs ys : List A) → n ≤ length xs → take n (xs ++ ys) ≡ take n xs
  unfolding take
  take_within n xs ys h =
      let z : n - length xs ≡ 0 = omega arith in take-append n xs ys ∙ rw z (append-nil (take n xs))

  pub drop_within : (n : ℕ) (xs ys : List A) → n ≤ length xs → drop n (xs ++ ys) ≡ drop n xs ++ ys
  unfolding drop
  drop_within n xs ys h = let z : n - length xs ≡ 0 = omega arith in drop-append n xs ys ∙ rw z refl

  pub minus-take : (n : ℕ) (xs : List A) → n - length (take n xs) ≡ n - length xs
  unfolding take
  minus-take zero xs = omega arith
  minus-take (suc n) [] = refl
  minus-take (suc n) (x ∷ xs) = omega (arith, minus-take n xs)

  pub length-take_within : (n : ℕ) (xs : List A) → length (take n xs) ≤ length xs
  unfolding take
  length-take_within zero xs = omega arith
  length-take_within (suc n) [] = omega arith
  length-take_within (suc n) (x ∷ xs) = omega (arith, length-take_within n xs)

  pub takes_some : (n : ℕ) (xs : List A) → is_empty xs ≡ false → (1 ≤ length (take n xs)) ⊎ (n ≡ 0)
  unfolding take
  takes_some zero xs e = inr refl
  takes_some (suc n) [] e = cc
  takes_some (suc n) (x ∷ xs) e = inl (omega arith)

  -- A slice that is shorter than was asked for is the whole.
  pub take_short : (n : ℕ) (xs : List A) → length (take (suc n) xs) ≤ n → take (suc n) xs ≡ xs
  unfolding take
  take_short n [] h = refl
  take_short zero (x ∷ xs) h = absurd (omega arith)
  take_short (suc n) (x ∷ xs) h = ap (λ l. x ∷ l) (take_short n xs (omega arith))
