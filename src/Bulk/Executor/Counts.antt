-- ===== src/Bulk/Executor/Counts.antt =====
-- Counting an index in the lists of a run.
use datasluice.Base.{
  ℕ, zero, suc, ◌+◌, ◌≤◌, ◌<◌, ◌≡◌, true, List, [], ◌∷◌, ◌++◌, length, contains, arith, ◌==◌,
  equatable_nat, if◌then◌else◌, leb, ltb,
}
use datasluice.Base.Dict
use datasluice.Base.Dict.{Dict, get-put, get-remove}
use datasluice.Safety.{is_some}
use datasluice.Bulk.{BulkPlan, BulkItemReceipt}
use datasluice.Bulk.Progress.{Executor, range_from, not_completed}
use datasluice.Bulk.Executor.{pop_in_flight}

abbrev pub count : ℕ → List ℕ → ℕ
count i [] = 0
count i (j ∷ js) = if i == j then suc (count i js) else count i js

-- 1 for a completed index, and 0 for any other.
abbrev pub has : ℕ → Dict ℕ BulkItemReceipt → ℕ
has i d = if is_some (Dict.get d i) then 1 else 0

pub count-append : (i : ℕ) (xs ys : List ℕ) → count i (xs ++ ys) ≡ count i xs + count i ys
count-append i [] ys = omega arith
count-append i (x ∷ xs) ys = ground (arith, count-append i xs ys)

pub count-of_contains : (i : ℕ) (xs : List ℕ) → contains xs i ≡ true → 1 ≤ count i xs
count-of_contains i [] h = cc
count-of_contains i (x ∷ xs) h = ground (arith, count-of_contains i xs)

pub count-range :
    (i low n : ℕ)
    → count i (range_from low n) ≡ (if leb low i then (if ltb i (low + n) then 1 else 0) else 0)
unfolding range_from
count-range i low zero = ground arith
count-range i low (suc n) = ground (arith, count-range i (suc low) n)

pub count-not_completed :
    (i : ℕ) (d : Dict ℕ BulkItemReceipt) (xs : List ℕ)
    → count i (not_completed d xs) ≡ (if is_some (Dict.get d i) then 0 else count i xs)
unfolding not_completed
count-not_completed i d [] = ground arith
count-not_completed i d (x ∷ xs) = ground (arith, count-not_completed i d xs)

module _ {W : Type 0} (x : Executor W) (plan : BulkPlan) where
  pub count-pop :
      (i j : ℕ) (xs : List ℕ)
      → contains xs j ≡ true
      → count i (pop_in_flight x plan j xs) + (if i == j then 1 else 0) ≡ count i xs
  unfolding pop_in_flight
  count-pop i j [] h = cc
  count-pop i j (k ∷ xs) h = ground (arith, count-pop i j xs)

  pub length-pop :
      (j : ℕ) (xs : List ℕ)
      → contains xs j ≡ true
      → length (pop_in_flight x plan j xs) + 1 ≡ length xs
  unfolding pop_in_flight
  length-pop j [] h = cc
  length-pop j (k ∷ xs) h = ground (arith, length-pop j xs)

pub has-put :
    (i j : ℕ) (r : BulkItemReceipt) (d : Dict ℕ BulkItemReceipt)
    → has i (Dict.put d j r) ≡ (if j == i then 1 else has i d)
has-put i j r d = ground (arith, get-put d j i r)

length-remove :
    (k : ℕ) (d : Dict ℕ BulkItemReceipt)
    → (length (Dict.remove d k) ≤ length d)
      × (is_some (Dict.get d k) ≡ true → length (Dict.remove d k) + 1 ≤ length d)
unfolding Dict.get Dict.remove
length-remove k [] = (omega arith, λ h. cc)
length-remove k ((j, r) ∷ d) =
    let (a, b) = length-remove k d in (ground (arith, a), λ h. ground (arith, a, b))

-- A dictionary that holds every index below `n` has at least `n` entries.
pub le-length_of_all :
    (n : ℕ) (d : Dict ℕ BulkItemReceipt)
    → ((i : ℕ) → i < n → is_some (Dict.get d i) ≡ true)
    → n ≤ length d
le-length_of_all zero d h = omega arith
le-length_of_all (suc n) d h =
    let ih =
      le-length_of_all n (Dict.remove d n)
        (λ i lt. ground (arith, get-remove d n i, h i (omega arith))) in
    let (_, b) = length-remove n d in omega (arith, ih, b (h n (omega arith)))
