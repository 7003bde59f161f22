-- ===== src/Base/Runs.antt =====
-- Running Go functions part by part.
use mathlib.Core.Path.{◌≡◌, refl, ap, sym, ◌∙◌}
use mathlib.Core.Logic.{◌↔◌, inl, inr}
use cni_genie.Base.Go.{
  GoResult, ok, err, panic, Returned, value, error, Cmd, rethrow, inspect, continue, lift, wrap,
  attempt, ◌>>=◌, ok_inj, GoResult-cases,
}

-- Running an action whose first part is known.
module _ {ℓ} {S E A B : Type ℓ} where
  pub bind-ok :
      (m : Cmd S E A) (f : A → Cmd S E B) (s : S) (a : A)
      → (m s).0 ≡ ok a
      → (m >>= f) s ≡ f a (m s).1
  unfolding ◌>>=◌
  bind-ok m f s a e = ap (λ r. continue r f (m s).1) e

  pub bind-err :
      (m : Cmd S E A) (f : A → Cmd S E B) (s : S) (x : E)
      → (m s).0 ≡ err x
      → (m >>= f) s ≡ (err x, (m s).1)
  unfolding ◌>>=◌
  bind-err m f s x e = ap (λ r. continue r f (m s).1) e

  pub bind-panic :
      (m : Cmd S E A) (f : A → Cmd S E B) (s : S) → (m s).0 ≡ panic → (m >>= f) s ≡ (panic, (m s).1)
  unfolding ◌>>=◌
  bind-panic m f s e = ap (λ r. continue r f (m s).1) e

-- A block that gives a result has run each of its parts.
module _ {ℓ} {S E A B : Type ℓ} where
  pub bind-done :
      (m : Cmd S E A) (f : A → Cmd S E B) (s u : S) (b : B)
      → (m >>= f) s ≡ (ok b, u)
      → (a : A) × (t : S) × (m s ≡ (ok a, t)) × (f a t ≡ (ok b, u))
  bind-done m f s u b e = elim (GoResult-cases (m s).0) [
    | inl (a, k) ↦ (a, (m s).1, ap (λ r. (r, (m s).1)) k, sym (bind-ok m f s a k) ∙ e)
    | inr (inl (x, k)) ↦ (let bad = ap (λ r. r.0) (sym (bind-err m f s x k) ∙ e) in cc)
    | inr (inr k) ↦ (let bad = ap (λ r. r.0) (sym (bind-panic m f s k) ∙ e) in cc)
  ]

-- Running the rest of a block after an action whose error is looked at.
module _ {ℓ} {S E F A B : Type ℓ} where
  pub attempt-bind_ok :
      (m : Cmd S E A) (f : Returned E A → Cmd S F B) (s : S) (a : A)
      → (m s).0 ≡ ok a
      → (attempt m >>= f) s ≡ f (value a) (m s).1
  unfolding attempt
  attempt-bind_ok m f s a e = bind-ok (attempt m) f s (value a) (ap inspect e)

  pub attempt-bind_err :
      (m : Cmd S E A) (f : Returned E A → Cmd S F B) (s : S) (x : E)
      → (m s).0 ≡ err x
      → (attempt m >>= f) s ≡ f (error x) (m s).1
  unfolding attempt
  attempt-bind_err m f s x e = bind-ok (attempt m) f s (error x) (ap inspect e)

  pub attempt-bind_panic :
      (m : Cmd S E A) (f : Returned E A → Cmd S F B) (s : S)
      → (m s).0 ≡ panic
      → ((attempt m >>= f) s).0 ≡ panic
  unfolding attempt ◌>>=◌
  attempt-bind_panic m f s e = ap (λ r. (continue (inspect {F = F} r) f (m s).1).0) e

  pub attempt-bind_crash :
      (m : Cmd S E A) (f : Returned E A → Cmd S F B) (s : S)
      → (m s).0 ≡ panic
      → (attempt m >>= f) s ≡ (panic, (m s).1)
  unfolding attempt
  attempt-bind_crash m f s e = bind-panic (attempt m) f s (ap inspect e)

module _ {ℓ} {S E F A : Type ℓ} where
  pub wrap-ok : (f : E → F) (m : Cmd S E A) (s : S) (a : A) → (m s).0 ≡ ok a → (wrap f m s).0 ≡ ok a
  unfolding wrap
  wrap-ok f m s a e = ap (rethrow f) e

  pub wrap-err :
      (f : E → F) (m : Cmd S E A) (s : S) (x : E) → (m s).0 ≡ err x → (wrap f m s).0 ≡ err (f x)
  unfolding wrap
  wrap-err f m s x e = ap (rethrow f) e

  pub wrap-state : (f : E → F) (m : Cmd S E A) (s : S) → (wrap f m s).1 ≡ (m s).1
  unfolding wrap
  wrap-state f m s = refl

  pub attempt-ok :
      (m : Cmd S E A) (s : S) (a : A) → (m s).0 ≡ ok a → (attempt {F = F} m s).0 ≡ ok (value a)
  unfolding attempt
  attempt-ok m s a e = ap inspect e

  pub attempt-err :
      (m : Cmd S E A) (s : S) (x : E) → (m s).0 ≡ err x → (attempt {F = F} m s).0 ≡ ok (error x)
  unfolding attempt
  attempt-err m s x e = ap inspect e

-- The same with the state that the action leaves.
module _ {ℓ} {S E A B : Type ℓ} where
  pub bind-run :
      (m : Cmd S E A) (f : A → Cmd S E B) (s t : S) (a : A) → m s ≡ (ok a, t) → (m >>= f) s ≡ f a t
  unfolding ◌>>=◌
  bind-run m f s t a e = ap (λ r. continue r.0 f r.1) e

  pub bind-stop :
      (m : Cmd S E A) (f : A → Cmd S E B) (s t : S) (x : E)
      → m s ≡ (err x, t)
      → (m >>= f) s ≡ (err x, t)
  unfolding ◌>>=◌
  bind-stop m f s t x e = ap (λ r. continue r.0 f r.1) e

module _ {ℓ} {S E F A : Type ℓ} where
  pub wrap-run :
      (f : E → F) (m : Cmd S E A) (s t : S) (a : A) → m s ≡ (ok a, t) → wrap f m s ≡ (ok a, t)
  unfolding wrap
  wrap-run f m s t a e = ap (λ r. (rethrow f r.0, r.1)) e

  pub wrap-lift_run :
      (f : E → F) (r : GoResult E A) (s : S) (a : A) → r ≡ ok a → wrap f (lift r) s ≡ (ok a, s)
  unfolding wrap lift
  wrap-lift_run f r s a e = ap (λ q. (rethrow f q, s)) e

  pub wrap-done :
      (f : E → F) (m : Cmd S E A) (s t : S) (a : A) → wrap f m s ≡ (ok a, t) → m s ≡ (ok a, t)
  unfolding wrap
  wrap-done f m s t a e =
      let same : (m s).1 ≡ t = ap (λ r. r.1) e in
      elim (GoResult-cases (m s).0) [
        | inl (b, k) ↦
            (let out : rethrow f (m s).0 ≡ ok a = ap (λ r. r.0) e in
              let eq : b ≡ a = ok_inj (rw k at out) in rw (← same, ← eq) (ap (λ r. (r, (m s).1)) k))
        | inr (inl (x, k)) ↦
            (let out : rethrow f (m s).0 ≡ ok a = ap (λ r. r.0) e in let bad = rw k at out in cc)
        | inr (inr k) ↦
            (let out : rethrow f (m s).0 ≡ ok a = ap (λ r. r.0) e in let bad = rw k at out in cc)
      ]

  pub wrap-lift_done :
      (f : E → F) (r : GoResult E A) (s t : S) (a : A)
      → wrap f (lift r) s ≡ (ok a, t)
      → (r ≡ ok a) × (s ≡ t)
  unfolding lift
  wrap-lift_done f r s t a e =
      let k = wrap-done f (lift r) s t a e in (ap (λ q. q.0) k, ap (λ q. q.1) k)

  -- an error keeps its place under another name
  pub wrap-ok_iff :
      (f : E → F) (m : Cmd S E A) (s : S) (a : A) → (wrap f m s).0 ≡ ok a ↔ ((m s).0 ≡ ok a)
  unfolding wrap
  wrap-ok_iff f m s a = go (m s).0
    where
      go : (r : GoResult E A) → rethrow f r ≡ ok a ↔ (r ≡ ok a)
      go (ok b) = ((λ e. ap ok (ok_inj e)), (λ e. ap ok (ok_inj e)))
      go (err x) = ((λ e. cc), (λ e. cc))
      go panic = ((λ e. cc), (λ e. cc))

module _ {ℓ} {S E F A B : Type ℓ} where
  pub attempt-run :
      (m : Cmd S E A) (f : Returned E A → Cmd S F B) (s t : S) (a : A)
      → m s ≡ (ok a, t)
      → (attempt m >>= f) s ≡ f (value a) t
  unfolding attempt
  attempt-run m f s t a e = bind-run (attempt m) f s t (value a) (ap (λ r. (inspect r.0, r.1)) e)
