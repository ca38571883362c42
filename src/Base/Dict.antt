-- ===== src/Base/Dict.antt =====
-- Python's `dict` and `set`, as association lists in insertion order.
use mathlib.Core.Path.{◌≡◌, refl}
use mathlib.Core.Bool.{Bool, true, false}
use mathlib.Core.Option.{Option, none, some}
use mathlib.Core.List.{List, [], ◌∷◌}
use native.Mathlib.Omega.{arith}
use datasluice.Base.Tests.{Equatable, ◌==◌, if◌then◌else◌}

abbrev pub Dict {ℓ} : Type ℓ → Type ℓ → Type ℓ
Dict K V = List (K × V)

module _ {ℓ} {K V : Type ℓ} ⦃e : Equatable K⦄ where
  -- `d.get(k)`
  unfoldable pub get : Dict K V → K → Option V
  get [] k = none
  get ((j, v) ∷ d) k = if j == k then some v else get d k

  -- `d[k] = v`
  unfoldable pub put : Dict K V → K → V → Dict K V
  put [] k v = (k, v) ∷ []
  put ((j, w) ∷ d) k v = if j == k then (k, v) ∷ d else (j, w) ∷ put d k v

  -- `d.pop(k, None)`
  unfoldable pub remove : Dict K V → K → Dict K V
  remove [] k = []
  remove ((j, v) ∷ d) k = let rest = remove d k in if j == k then rest else (j, v) ∷ rest

  pub get-put :
      (d : Dict K V) (k j : K) (v : V) → get (put d k v) j ≡ (if k == j then some v else get d j)
  unfolding get put
  get-put [] k j v = refl
  get-put ((i, w) ∷ d) k j v =
      ground (arith, e.equals_iff k j, e.equals_iff i k, e.equals_iff i j, get-put d k j v)

  pub get-remove :
      (d : Dict K V) (k j : K) → get (remove d k) j ≡ (if k == j then none else get d j)
  unfolding get remove
  get-remove [] k j = ground arith
  get-remove ((i, v) ∷ d) k j =
      ground (arith, e.equals_iff k j, e.equals_iff i k, e.equals_iff i j, get-remove d k j)

  pub put-same : (d : Dict K V) (k : K) (v : V) → get (put d k v) k ≡ some v
  put-same d k v = ground (arith, e.equals_iff k k, get-put d k k v)

  pub put-other : (d : Dict K V) (k j : K) (v : V) → ((k ≡ j) → ⊥) → get (put d k v) j ≡ get d j
  put-other d k j v apart = ground (arith, e.equals_iff k j, get-put d k j v)

  pub remove-other : (d : Dict K V) (k j : K) → ((k ≡ j) → ⊥) → get (remove d k) j ≡ get d j
  remove-other d k j apart = ground (arith, e.equals_iff k j, get-remove d k j)

module _ {ℓ} {K : Type ℓ} ⦃e : Equatable K⦄ where
  pub beq_refl : (k : K) → (k == k) ≡ true
  beq_refl k = (e.equals_iff k k).1 refl

  -- `k in s`
  unfoldable pub mem : List K → K → Bool
  mem [] k = false
  mem (j ∷ s) k = if j == k then true else mem s k

  -- `s.add(k)`
  unfoldable pub add : List K → K → List K
  add s k = if mem s k then s else k ∷ s

  -- `s.discard(k)`
  unfoldable pub discard : List K → K → List K
  discard [] k = []
  discard (j ∷ s) k = let rest = discard s k in if j == k then rest else j ∷ rest

  pub mem-add : (s : List K) (k j : K) → mem (add s k) j ≡ (if k == j then true else mem s j)
  unfolding mem add
  mem-add s k j = ground (arith, e.equals_iff k j)

  pub mem-discard :
      (s : List K) (k j : K) → mem (discard s k) j ≡ (if k == j then false else mem s j)
  unfolding mem discard
  mem-discard [] k j = ground arith
  mem-discard (i ∷ s) k j =
      ground (arith, e.equals_iff k j, e.equals_iff i k, e.equals_iff i j, mem-discard s k j)

pub ruleset dict_laws = (get-put, get-remove, mem-add, mem-discard)
