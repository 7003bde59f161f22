-- ===== src/Base/Go.antt =====
-- Go functions that act on the world, may return an error and may panic. What was done before an
-- error or a panic stays done, so the state comes back beside every result.
use mathlib.Core.Path.{◌≡◌, refl}
use mathlib.Core.Logic.{◌⊎◌, inl, inr}

pub data GoResult {ℓ} (E A : Type ℓ) : Type ℓ where
  ok : A → GoResult E A
  err : E → GoResult E A
  panic : GoResult E A

-- A result and an error that the caller looks at.
pub data Returned {ℓ} (E A : Type ℓ) : Type ℓ where
  value : A → Returned E A
  error : E → Returned E A

abbrev pub Cmd {ℓ} : Type ℓ → Type ℓ → Type ℓ → Type ℓ
Cmd S E A = S → GoResult E A × S

module _ {ℓ} {S E A : Type ℓ} where
  unfoldable pub pure : A → Cmd S E A
  pure a s = (ok a, s)

  unfoldable pub raise : E → Cmd S E A
  raise e s = (err e, s)

  unfoldable pub crash : Cmd S E A
  crash s = (panic, s)

  unfoldable pub lift : GoResult E A → Cmd S E A
  lift r s = (r, s)

module _ {ℓ} {E F A : Type ℓ} where
  abbrev pub rethrow : (E → F) → GoResult E A → GoResult F A
  rethrow f (ok a) = ok a
  rethrow f (err e) = err (f e)
  rethrow f panic = panic

module _ {ℓ} {E F A : Type ℓ} where
  abbrev pub inspect : GoResult E A → GoResult F (Returned E A)
  inspect (ok a) = ok (value a)
  inspect (err e) = ok (error e)
  inspect panic = panic

module _ {ℓ} {S E F A : Type ℓ} where
  -- `if err != nil { return f(err) }`
  unfoldable pub wrap : (E → F) → Cmd S E A → Cmd S F A
  wrap f m s = let (r, s') = m s in (rethrow f r, s')

  -- `a, err := m`, where the error is looked at and not returned as it is
  unfoldable pub attempt : Cmd S E A → Cmd S F (Returned E A)
  attempt m s = let (r, s') = m s in (inspect r, s')

module _ {ℓ} {S E A B : Type ℓ} where
  abbrev pub continue : GoResult E A → (A → Cmd S E B) → Cmd S E B
  continue (ok a) f s = f a s
  continue (err e) f s = (err e, s)
  continue panic f s = (panic, s)

  infixl 10 ◌>>=◌ ◌>>◌
  -- opening this opens the other actions too
  unfoldable pub ◌>>=◌ : Cmd S E A → (A → Cmd S E B) → Cmd S E B
  unfolding pure raise crash lift wrap attempt
  ◌>>=◌ m f s = let (r, s') = m s in continue r f s'

  abbrev pub ◌>>◌ : Cmd S E A → Cmd S E B → Cmd S E B
  m >> n = m >>= λ _. n

pub ok_inj {ℓ} : {E A : Type ℓ} {a b : A} → ◌≡◌ {A = GoResult E A} (ok a) (ok b) → a ≡ b
ok_inj h = cc

pub GoResult-cases {ℓ} :
    {E A : Type ℓ} (r : GoResult E A)
    → ((a : A) × (r ≡ ok a)) ⊎ (((e : E) × (r ≡ err e)) ⊎ (r ≡ panic))
GoResult-cases (ok a) = inl (a, refl)
GoResult-cases (err e) = inr (inl (e, refl))
GoResult-cases panic = inr (inr refl)
