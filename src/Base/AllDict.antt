-- ===== src/Base/AllDict.antt =====
-- What holds of every entry of a dictionary.
use mathlib.Core.Path.{◌≡◌, sym}
use mathlib.Core.Bool.{false}
use mathlib.Core.Option.{some}
use mathlib.Core.List.{List, [], ◌∷◌}
use mathlib.Core.Logic.{inl, inr}
use native.Mathlib.Omega.{arith}
use datasluice.Base.Tests.{Equatable, ◌==◌, Bool-cases}
use datasluice.Base.Lists.{All}
use datasluice.Base.Dict.{Dict, get, put, remove}

module _ {ℓ κ μ} {A : Type ℓ} (P : A → Type κ) (Q : A → Type μ) where
  pub All-map : ((x : A) → P x → Q x) → (xs : List A) → All P xs → All Q xs
  All-map f [] h = tt
  All-map f (x ∷ xs) h = (f x h.0, All-map f xs h.1)

module _ {ℓ κ} {K V : Type ℓ} ⦃e : Equatable K⦄ (P : K × V → Type κ) where
  pub All-get : (d : Dict K V) (k : K) (v : V) → All P d → get d k ≡ some v → P (k, v)
  unfolding get
  All-get [] k v h q = cc
  All-get ((j, w) ∷ d) k v h q = elim (Bool-cases (j == k)) [
    | inl same ↦
        let same_key : j ≡ k = (e.equals_iff j k).0 same in
        let same_value : w ≡ v = ground arith in rw (sym same_key, sym same_value) h.0
    | inr other ↦ All-get d k v h.1 (ground arith)
  ]

module _ {ℓ κ μ} {K V : Type ℓ} ⦃e : Equatable K⦄ (P : K × V → Type κ) (Q : K × V → Type μ) where
  pub All-put :
      (d : Dict K V) (k : K) (v : V)
      → ((x : K × V) → P x → Q x)
      → Q (k, v)
      → All P d
      → All Q (put d k v)
  unfolding put
  All-put [] k v f q h = (q, tt)
  All-put ((j, w) ∷ d) k v f q h = elim (Bool-cases (j == k)) [
    | inl same ↦ rw same (q, All-map P Q f d h.1)
    | inr other ↦ rw other (f (j, w) h.0, All-put d k v f q h.1)
  ]

  pub All-remove :
      (d : Dict K V) (k : K)
      → ((j : K) (v : V) → (j == k) ≡ false → P (j, v) → Q (j, v))
      → All P d
      → All Q (remove d k)
  unfolding remove
  All-remove [] k f h = tt
  All-remove ((j, w) ∷ d) k f h = elim (Bool-cases (j == k)) [
    | inl same ↦ rw same (All-remove d k f h.1)
    | inr other ↦ rw other (f j w other h.0, All-remove d k f h.1)
  ]
