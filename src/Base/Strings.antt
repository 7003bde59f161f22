-- ===== src/Base/Strings.antt =====
-- Go strings as their bytes, with the functions of package strings that the program calls.
use Prim.Native.Nat.{ℕ, zero, suc, pred, ◌+◌, ◌-◌, ◌*◌, ◌/◌, ◌%◌, ◌<◌}
use Prim.Native.Char.{code}
use Prim.Native.String.{String}
use mathlib.Core.Path.{◌≡◌, refl, ap, sym, ◌∙◌}
use mathlib.Core.Logic.{◌↔◌, ◌≢◌, inl, inr}
use mathlib.Core.Bool.{Bool, true, false, ◌&&◌, ◌||◌}
use mathlib.Core.List.{List, [], ◌∷◌, reverse}
use native.Mathlib.Omega.{arith}
use cni_genie.Base.Tests.{ltb, leb, eqb, if◌then◌else◌, Bool-cases}

abbrev length : List ℕ → ℕ
length [] = 0
length (x ∷ xs) = suc (length xs)

abbrev pub Text : Type 0
Text = List ℕ

-- The bytes of an ASCII literal.
abbrev pub codes : String → Text
codes String.[] = []
codes (String.◌∷◌ c s) = code c ∷ codes s

infix 50 ◌==◌
unfoldable pub ◌==◌ : Text → Text → Bool
[] == [] = true
[] == (b ∷ t) = false
(a ∷ s) == [] = false
(a ∷ s) == (b ∷ t) = eqb a b && s == t

pub eq_iff : (s t : Text) → ((s == t) ≡ true) ↔ (s ≡ t)
unfolding ◌==◌
eq_iff [] [] = ground arith
eq_iff [] (b ∷ t) = ground arith
eq_iff (a ∷ s) [] = ground arith
eq_iff (a ∷ s) (b ∷ t) = ground (arith, eq_iff s t)

pub eq_refl : (s : Text) → (s == s) ≡ true
eq_refl s = (eq_iff s s).1 refl

pub eq_false_of_ne : (s t : Text) → s ≢ t → (s == t) ≡ false
eq_false_of_ne s t h = ground (arith, eq_iff s t)

-- strings.HasPrefix, the text first
unfoldable pub is_prefix : Text → Text → Bool
is_prefix s [] = true
is_prefix [] (b ∷ t) = false
is_prefix (a ∷ s) (b ∷ t) = eqb a b && is_prefix s t

-- strings.Contains, the text first
unfoldable pub contains : Text → Text → Bool
unfolding is_prefix
contains [] t = is_prefix [] t
contains (a ∷ s) t = is_prefix (a ∷ s) t || contains s t

-- strings.HasSuffix
unfoldable pub has_suffix : Text → Text → Bool
unfolding is_prefix
has_suffix s t = is_prefix (reverse s) (reverse t)

-- strings.Split at a separator of one byte
split_from : ℕ → Text → Text → List Text
split_from sep cur [] = reverse cur ∷ []
split_from sep cur (c ∷ s) =
    let closed = reverse cur ∷ split_from sep [] s in
    let longer = split_from sep (c ∷ cur) s in if eqb c sep then closed else longer

unfoldable pub split : Text → ℕ → List Text
unfolding split_from
split s sep = split_from sep [] s

pub is_space : ℕ → Bool
is_space c = eqb c 32 || (leb 9 c && leb c 13)

unfoldable pub trim_left : Text → Text
unfolding is_space
trim_left [] = []
trim_left (c ∷ s) = if is_space c then trim_left s else c ∷ s

-- strings.TrimSpace, on ASCII
unfoldable pub trim_space : Text → Text
unfolding trim_left
trim_space s = reverse (trim_left (reverse (trim_left s)))

-- strconv.Itoa of a natural number; its first argument is fuel
unfoldable pub digits : ℕ → ℕ → Text → Text
digits zero n acc = acc
digits (suc f) n acc =
    let more = digits f (n / 10) ((48 + n % 10) ∷ acc) in if ltb n 10 then (48 + n) ∷ acc else more

unfoldable pub itoa : ℕ → Text
unfolding digits
itoa n = digits (suc n) n []

-- the number that decimal digits write, behind the digits of `n`
unfoldable pub number_from : ℕ → Text → ℕ
number_from n [] = n
number_from n (c ∷ t) = number_from (n * 10 + (c - 48)) t

number_from-digits :
    (f n : ℕ) (acc : Text) → n < f → number_from 0 (digits f n acc) ≡ number_from n acc
unfolding digits number_from
number_from-digits zero n acc h = absurd (omega (arith, h))
number_from-digits (suc f) n acc h = elim (Bool-cases (ltb n 10)) [
  | inl small ↦ rw small (ap (λ k. number_from k acc) (ground arith))
  | inr big ↦
      rw (big, number_from-digits f (n / 10) ((48 + n % 10) ∷ acc) (ground arith))
        (ap (λ k. number_from k acc) (omega arith))
]

pub number_from-itoa : (n : ℕ) → number_from 0 (itoa n) ≡ n
unfolding itoa number_from
number_from-itoa n = number_from-digits (suc n) n [] (omega arith)

pub itoa_inj : (m n : ℕ) → itoa m ≡ itoa n → m ≡ n
itoa_inj m n h = sym (number_from-itoa m) ∙ ap (number_from 0) h ∙ number_from-itoa n

unfoldable pub is_digits : Text → Bool
is_digits [] = true
is_digits (c ∷ t) = leb 48 c && leb c 57 && is_digits t

-- strings.Split at a separator that is not empty; the counter skips the rest of a separator
unfoldable pub split_sep_from : Text → Text → ℕ → Text → List Text
split_sep_from sep cur skip [] = reverse cur ∷ []
split_sep_from sep cur (suc k) (c ∷ s) = split_sep_from sep cur k s
split_sep_from sep cur zero (c ∷ s) =
    let closed = reverse cur ∷ split_sep_from sep [] (pred (length sep)) s in
    let longer = split_sep_from sep (c ∷ cur) zero s in
    if is_prefix (c ∷ s) sep then closed else longer

unfoldable pub split_sep : Text → Text → List Text
unfolding split_sep_from is_prefix
split_sep s sep = split_sep_from sep [] 0 s

-- the order of sort.Strings
unfoldable pub text_le : Text → Text → Bool
text_le [] t = true
text_le (a ∷ s) [] = false
text_le (a ∷ s) (b ∷ t) = ltb a b || (eqb a b && text_le s t)

unfoldable pub insert_sorted : Text → List Text → List Text
unfolding text_le
insert_sorted t [] = t ∷ []
insert_sorted t (u ∷ us) = if text_le t u then t ∷ u ∷ us else u ∷ insert_sorted t us

-- sort.Strings: equal texts cannot be told apart, so any sorting algorithm gives this list
unfoldable pub sort_strings : List Text → List Text
unfolding insert_sorted
sort_strings [] = []
sort_strings (t ∷ ts) = insert_sorted t (sort_strings ts)
