-- ===== src/Base/Kept.antt =====
-- What Go functions keep of the world, and what holds of the values that they return.
use mathlib.Core.Path.{◌≡◌, refl, subst}
use mathlib.Core.Bool.{Bool, true, false}
use cni_genie.Base.Tests.{if◌then◌else◌}
use cni_genie.Base.Go.{
  GoResult, ok, err, panic, Returned, value, error, Cmd, rethrow, inspect, continue, pure, raise,
  crash, lift, wrap, attempt, ◌>>=◌, ok_inj,
}

-- `m` keeps `P`, however it ends.
pub record Keeps {ℓ} {S E A : Type ℓ} (P : S → Type ℓ) (m : Cmd S E A) : Type ℓ where
  pub at : (before : S) → P before → P (m before).1

module _ {ℓ} {S E A : Type ℓ} {P : S → Type ℓ} where
  pub Keeps-lift : (result : GoResult E A) → Keeps P (lift result)
  unfolding lift
  Keeps-lift result = record { at = λ before p. p }

  pub Keeps-if :
      (test : Bool) (m n : Cmd S E A) → Keeps P m → Keeps P n → Keeps P (if test then m else n)
  Keeps-if true m n ky kn = ky
  Keeps-if false m n ky kn = kn

  pub Keeps-raise : (e : E) → Keeps P (raise {A = A} e)
  unfolding raise
  Keeps-raise e = record { at = λ before p. p }

  pub Keeps-pure : (result : A) → Keeps P (pure {E = E} result)
  unfolding pure
  Keeps-pure result = record { at = λ before p. p }

  pub Keeps-crash : Keeps P (crash {E = E} {A = A})
  unfolding crash
  Keeps-crash = record { at = λ before p. p }

module _ {ℓ} {S E F A : Type ℓ} {P : S → Type ℓ} where
  pub Keeps-attempt : (m : Cmd S E A) → Keeps P m → Keeps P (attempt {F = F} m)
  unfolding attempt
  Keeps-attempt m k = record { at = k.at }

  pub Keeps-wrap : (f : E → F) (m : Cmd S E A) → Keeps P m → Keeps P (wrap f m)
  unfolding wrap
  Keeps-wrap f m k = record { at = k.at }

module _ {ℓ} {S E A B : Type ℓ} {P : S → Type ℓ} where
  Keeps-continue_of :
      (result : GoResult E A) (next : A → Cmd S E B)
      → ((a : A) → result ≡ ok a → Keeps P (next a))
      → Keeps P (continue result next)
  Keeps-continue_of (ok a) next k = record { at = (k a refl).at }
  Keeps-continue_of (err e) next k = record { at = λ before p. p }
  Keeps-continue_of panic next k = record { at = λ before p. p }

  pub Keeps-bind :
      (first : Cmd S E A) (next : A → Cmd S E B)
      → Keeps P first
      → ((a : A) → Keeps P (next a))
      → Keeps P (first >>= next)
  unfolding ◌>>=◌
  Keeps-bind first next kept later = record {
    at = λ before p.
        let (result, after) = first before in
        (Keeps-continue_of result next (λ a _. later a)).at after (kept.at before p);
  }

pub ruleset keeps_rules = (
  Keeps-bind, Keeps-attempt, Keeps-wrap, Keeps-if, Keeps-lift, Keeps-crash, Keeps-raise, Keeps-pure,
)

-- Whatever `m` returns without an error has `Q`.
pub record Gives {ℓ} {S E A : Type ℓ} (Q : A → Type ℓ) (m : Cmd S E A) : Type ℓ where
  pub holds : (s : S) (a : A) → (m s).0 ≡ ok a → Q a

module _ {ℓ} {S E A : Type ℓ} {Q : A → Type ℓ} where
  pub Gives-pure : (a : A) → Q a → Gives Q (pure {S = S} {E = E} a)
  unfolding pure
  Gives-pure a q = record { holds = λ s b e. subst Q (ok_inj e) q }

module _ {ℓ} {S E A B : Type ℓ} {Q : B → Type ℓ} where
  Gives-continue :
      (r : GoResult E A) (f : A → Cmd S E B) → ((a : A) → Gives Q (f a)) → Gives Q (continue r f)
  Gives-continue (ok a) f k = record { holds = (k a).holds }
  Gives-continue (err e) f k = record { holds = λ s b e. cc }
  Gives-continue panic f k = record { holds = λ s b e. cc }

  pub Gives-bind :
      (m : Cmd S E A) (f : A → Cmd S E B) → ((a : A) → Gives Q (f a)) → Gives Q (m >>= f)
  unfolding ◌>>=◌
  Gives-bind m f k = record {
    holds = λ s b e. let (r, s') = m s in (Gives-continue r f k).holds s' b e;
  }

-- What holds of a value, where there is one.
abbrev pub OnValue {ℓ} : {E A : Type ℓ} → (A → Type ℓ) → Returned E A → Type ℓ
OnValue Q (value a) = Q a
OnValue Q (error e) = Unit

module _ {ℓ} {E F A : Type ℓ} {Q : A → Type ℓ} where
  inspect-OnValue :
      (r : GoResult E A) (b : Returned E A)
      → ((a : A) → r ≡ ok a → Q a)
      → inspect {F = F} r ≡ ok b
      → OnValue Q b
  inspect-OnValue (ok a) b q e = subst (OnValue Q) (ok_inj e) (q a refl)
  inspect-OnValue (err x) b q e = subst (OnValue Q) (ok_inj e) tt
  inspect-OnValue panic b q e = cc

module _ {ℓ} {E F A : Type ℓ} {Q : A → Type ℓ} where
  rethrow-ok :
      (f : E → F) (r : GoResult E A) (a : A) → ((b : A) → r ≡ ok b → Q b) → rethrow f r ≡ ok a → Q a
  rethrow-ok f (ok b) a q e = subst Q (ok_inj e) (q b refl)
  rethrow-ok f (err x) a q e = cc
  rethrow-ok f panic a q e = cc

module _ {ℓ} {S E F A : Type ℓ} {Q : A → Type ℓ} where
  pub Gives-wrap : (f : E → F) (m : Cmd S E A) → Gives Q m → Gives Q (wrap f m)
  unfolding wrap
  Gives-wrap f m g = record { holds = λ s a e. let (r, s') = m s in rethrow-ok f r a (g.holds s) e }

  pub Gives-attempt : (m : Cmd S E A) → Gives Q m → Gives (OnValue Q) (attempt {F = F} m)
  unfolding attempt
  Gives-attempt m g = record {
    holds = λ s b e. let (r, s') = m s in inspect-OnValue r b (g.holds s) e;
  }

module _ {ℓ} {S E A : Type ℓ} {Q : A → Type ℓ} where
  pub Gives-raise : (e : E) → Gives Q (raise {S = S} {A = A} e)
  unfolding raise
  Gives-raise e = record { holds = λ s b h. cc }

  pub Gives-if : (b : Bool) (m n : Cmd S E A) → Gives Q m → Gives Q n → Gives Q (if b then m else n)
  Gives-if true m n gm gn = gm
  Gives-if false m n gm gn = gn

module _ {ℓ} {S E A B : Type ℓ} {Q : B → Type ℓ} where
  Gives-continue_of :
      (r : GoResult E A) (f : A → Cmd S E B)
      → ((a : A) → r ≡ ok a → Gives Q (f a))
      → Gives Q (continue r f)
  Gives-continue_of (ok a) f k = record { holds = (k a refl).holds }
  Gives-continue_of (err e) f k = record { holds = λ s b e. cc }
  Gives-continue_of panic f k = record { holds = λ s b e. cc }

  -- the rest of the block may use what the first action gives
  pub Gives-bind_of :
      {R : A → Type ℓ} (m : Cmd S E A) (f : A → Cmd S E B)
      → Gives R m
      → ((a : A) → R a → Gives Q (f a))
      → Gives Q (m >>= f)
  unfolding ◌>>=◌
  Gives-bind_of m f g k = record {
    holds = λ s b e.
        let (r, s') = m s in (Gives-continue_of r f (λ a h. k a (g.holds s a h))).holds s' b e;
  }

module _ {ℓ} {S E A B : Type ℓ} {P : S → Type ℓ} where
  -- the rest of the block may use what the first action gives
  pub Keeps-bind_of :
      {Q : A → Type ℓ} (first : Cmd S E A) (next : A → Cmd S E B)
      → Keeps P first
      → Gives Q first
      → ((a : A) → Q a → Keeps P (next a))
      → Keeps P (first >>= next)
  unfolding ◌>>=◌
  Keeps-bind_of first next kept gives later = record {
    at = λ before p.
        let (result, after) = first before in
        (Keeps-continue_of result next (λ a e. later a (gives.holds before a e))).at after
          (kept.at before p);
  }
