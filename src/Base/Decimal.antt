-- ===== src/Base/Decimal.antt =====
-- Decimal numbers in strings.
use Prim.Native.Nat.{ℕ, zero, suc, ◌+◌, ◌/◌, ◌%◌}
use mathlib.Core.Path.{◌≡◌, refl, ap, ◌∙◌, sym}
use mathlib.Core.Logic.{inl, inr}
use mathlib.Core.Bool.{true, false}
use mathlib.Core.List.{[], ◌∷◌, ◌++◌, reverse, reverse-cons, append_assoc, append-nil}
use native.Mathlib.Omega.{arith}
use cni_genie.Base.Tests.{ltb, eqb, Bool-cases}
use cni_genie.Base.Strings.{
  Text, codes, is_prefix, digits, itoa, is_digits, split_sep_from, split_sep,
}

is_digits-digits : (f n : ℕ) (acc : Text) → is_digits acc ≡ true → is_digits (digits f n acc) ≡ true
unfolding digits is_digits
is_digits-digits zero n acc h = h
is_digits-digits (suc f) n acc h = elim (Bool-cases (ltb n 10)) [
  | inl small ↦ rw small (ground (arith, h))
  | inr big ↦ rw big (is_digits-digits f (n / 10) ((48 + n % 10) ∷ acc) (ground (arith, h)))
]

pub is_digits-itoa : (n : ℕ) → is_digits (itoa n) ≡ true
unfolding itoa is_digits
is_digits-itoa n = is_digits-digits (suc n) n [] refl

-- A text is not empty.
abbrev pub Cons : Text → Type 0
Cons t = (c : ℕ) × ((u : Text) × (t ≡ c ∷ u))

digits-Cons : (f n c : ℕ) (acc : Text) → Cons (digits f n (c ∷ acc))
unfolding digits
digits-Cons zero n c acc = (c, (acc, refl))
digits-Cons (suc f) n c acc = elim (Bool-cases (ltb n 10)) [
  | inl small ↦ rw small (48 + n, (c ∷ acc, refl))
  | inr big ↦ rw big (digits-Cons f (n / 10) (48 + n % 10) (c ∷ acc))
]

pub itoa-Cons : (n : ℕ) → Cons (itoa n)
unfolding itoa digits
itoa-Cons n = elim (Bool-cases (ltb n 10)) [
  | inl small ↦ rw small (48 + n, ([], refl))
  | inr big ↦ rw big (digits-Cons n (n / 10) (48 + n % 10) [])
]

split_sep_from-digits :
    (sep cur t : Text)
    → is_digits t ≡ true
    → split_sep_from (b'e' ∷ sep) cur 0 t ≡ (reverse cur ++ t) ∷ []
unfolding split_sep_from is_digits is_prefix
split_sep_from-digits sep cur [] h = ap (λ u. u ∷ []) (sym (append-nil (reverse cur)))
split_sep_from-digits sep cur (c ∷ t) h =
    let other : eqb c b'e' ≡ false = ground (arith, h) in
    rw other (
      split_sep_from-digits sep (c ∷ cur) t (ground (arith, h))
      ∙ ap (λ u. u ∷ [])
          (ap (λ u. u ++ t) (reverse-cons c cur) ∙ append_assoc (reverse cur) (c ∷ []) t))

pub split_sep-eth :
    (t : Text) → is_digits t ≡ true → split_sep (codes "eth" ++ t) (codes "eth") ≡ [] ∷ t ∷ []
unfolding split_sep split_sep_from is_prefix
split_sep-eth t h = ap (λ u. [] ∷ u) (split_sep_from-digits (codes "th") [] t h)
