-- ===== src/Base/Exec.antt =====
-- Code that may raise and that changes a state. What was written before a raise stays written, so
-- the state comes back beside the exception.
pub data Result {ℓ} (E A : Type ℓ) : Type ℓ where
  ok : A → Result E A
  raise : E → Result E A

abbrev pub Exec {ℓ} : Type ℓ → Type ℓ → Type ℓ → Type ℓ
Exec S E A = S → Result E A × S

abbrev pub then_do {ℓ} : {S E A B : Type ℓ} → Result E A → (A → Exec S E B) → Exec S E B
then_do (ok a) f s = f a s
then_do (raise x) f s = (raise x, s)

infixl 5 ◌>>=◌ ◌>>◌
abbrev pub ◌>>=◌ {ℓ} : {S E A B : Type ℓ} → Exec S E A → (A → Exec S E B) → Exec S E B
◌>>=◌ m f s = then_do (m s).0 f (m s).1

abbrev pub ◌>>◌ {ℓ} : {S E A B : Type ℓ} → Exec S E A → Exec S E B → Exec S E B
m >> n = m >>= λ _. n

abbrev pub pure {ℓ} : {S E A : Type ℓ} → A → Exec S E A
pure a s = (ok a, s)

abbrev pub throw {ℓ} : {S E A : Type ℓ} → E → Exec S E A
throw x s = (raise x, s)

-- A call that may raise, and what follows it.
abbrev pub and_then {ℓ} : {E A B : Type ℓ} → Result E A → (A → Result E B) → Result E B
and_then (ok a) f = f a
and_then (raise e) f = raise e
