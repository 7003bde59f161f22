-- ===== src/Base/Trim.antt =====
-- What strings.TrimSpace leaves has no space at its ends.
use mathlib.Core.Path.{◌≡◌, refl, ap, sym, ◌∙◌}
use mathlib.Core.Bool.{false}
use mathlib.Core.Logic.{inl, inr}
use mathlib.Core.List.{[], ◌∷◌, ◌++◌, reverse, reverse-append, reverse-reverse}
use cni_genie.Base.Tests.{Bool-cases}
use cni_genie.Base.Strings.{Text, is_space, trim_left, trim_space}

-- the text does not begin with a space
abbrev Starts : Text → Type 0
Starts [] = Unit
Starts (c ∷ t) = is_space c ≡ false

trim_left-Starts : (t : Text) → Starts (trim_left t)
unfolding trim_left
trim_left-Starts [] = tt
trim_left-Starts (c ∷ t) = elim (Bool-cases (is_space c)) [
  | inl e ↦ rw e (trim_left-Starts t)
  | inr e ↦ rw e e
]

Starts-prefix : (s t : Text) → Starts (s ++ t) → Starts s
Starts-prefix [] t h = tt
Starts-prefix (c ∷ s) t h = h

trim_left-same : (t : Text) → Starts t → trim_left t ≡ t
unfolding trim_left
trim_left-same [] h = refl
trim_left-same (c ∷ t) h = rw h refl

-- only a prefix goes
trim_left-suffix : (t : Text) → (p : Text) × (t ≡ p ++ trim_left t)
unfolding trim_left
trim_left-suffix [] = ([], refl)
trim_left-suffix (c ∷ t) = elim (Bool-cases (is_space c)) [
  | inl e ↦ (let (p, k) = trim_left-suffix t in (c ∷ p, rw e (ap (λ u. c ∷ u) k)))
  | inr e ↦ ([], rw e refl)
]

pub trim_space-trim : (t : Text) → trim_space (trim_space t) ≡ trim_space t
unfolding trim_space
trim_space-trim t =
    let front = trim_left t in
    let back = trim_left (reverse front) in
    let (p, k) = trim_left-suffix (reverse front) in
    let whole : front ≡ reverse back ++ reverse p =
      sym (reverse-reverse front) ∙ ap reverse k ∙ reverse-append p back in
    let starts : Starts (reverse back) =
      Starts-prefix (reverse back) (reverse p) (rw whole at (trim_left-Starts t)) in
    ap (λ u. reverse (trim_left (reverse u))) (trim_left-same (reverse back) starts)
    ∙ ap (λ u. reverse (trim_left u)) (reverse-reverse back)
    ∙ ap reverse (trim_left-same back (trim_left-Starts (reverse front)))
