-- ===== src/Prelude/Exec.antt =====
-- A method of a mutable object that may raise: what was written before a raise stays written, so
-- the state comes back beside the error too.
use mathlib.Core.Path.{◌≡◌, ap}
use solo_rt.Prelude.Errors.{Error, Result, ok, err}

abbrev pub Exec {ℓ} : Type ℓ → Type ℓ → Type ℓ
Exec S A = S → Result A × S

module _ {ℓ} {S A : Type ℓ} where
  abbrev pub pure : A → Exec S A
  pure a s = (ok a, s)

  abbrev pub raise : Error → Exec S A
  raise e s = (err e, s)

infixl 5 ◌>>=◌ ◌>>◌
abbrev pub ◌>>=◌ {ℓ} : {S A B : Type ℓ} → Exec S A → (A → Exec S B) → Exec S B
◌>>=◌ m f s = let (r, s') = m s in elim r [ ok a ↦ f a s' | err e ↦ (err e, s') ]

abbrev pub ◌>>◌ {ℓ} : {S A B : Type ℓ} → Exec S A → Exec S B → Exec S B
m >> k = m >>= λ _. k

-- A block goes on from what its first call returned, and stops where that call raised.
module _ {ℓ} {S A B : Type ℓ} (m : Exec S A) (f : A → Exec S B) (s : S) where
  pub >>=-ok : {a : A} {s' : S} → m s ≡ (ok a, s') → (m >>= f) s ≡ f a s'
  >>=-ok e = ap (λ (p : Result A × S). elim p.0 [ ok a ↦ f a p.1 | err e ↦ (err e, p.1) ]) e

  pub >>=-err : {e : Error} {s' : S} → m s ≡ (err e, s') → (m >>= f) s ≡ (err e, s')
  >>=-err e = ap (λ (p : Result A × S). elim p.0 [ ok a ↦ f a p.1 | err e ↦ (err e, p.1) ]) e
