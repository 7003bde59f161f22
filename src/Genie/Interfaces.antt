-- ===== src/Genie/Interfaces.antt =====
-- The names of interfaces that `GetPluginInfoFromNwAnnot` gives out.
use cni_genie.Base.{
  Text, ℕ, zero, suc, ◌+◌, ◌≤◌, ◌<◌, ◌≡◌, ◌≢◌, refl, ap, sym, ◌∙◌, Bool-cases, true, false, inl,
  inr, List, [], ◌∷◌, length, ◌==◌, eq_iff, itoa_inj, if◌then◌else◌, arith, none,
}
use cni_genie.Genie.Networks.{eth, used, free_index, choose}

tail : Text → Text
tail [] = []
tail (c ∷ t) = t

eth_inj : (i j : ℕ) → eth i ≡ eth j → i ≡ j
unfolding eth tail
eth_inj i j e = itoa_inj i j (ap (λ t. tail (tail (tail t))) e)

-- the list without the first `t`
remove : Text → List Text → List Text
remove t [] = []
remove t (u ∷ us) = if u == t then us else u ∷ remove t us

used-remove : (t v : Text) (us : List Text) → t ≢ v → used v (remove t us) ≡ used v us
unfolding used remove
used-remove t v [] h = refl
used-remove t v (u ∷ us) h = ground (arith, used-remove t v us h, eq_iff u t, eq_iff u v)

length-remove :
    (t : Text) (us : List Text) → used t us ≡ true → length us ≡ suc (length (remove t us))
unfolding used remove
length-remove t [] h = cc
length-remove t (u ∷ us) h = ground (arith, length-remove t us)

-- two lists with the same names from index `i` on
abbrev Agree : ℕ → List Text → List Text → Type 0
Agree i us vs = (j : ℕ) → i ≤ j → used (eth j) us ≡ used (eth j) vs

free_index-Agree :
    (fuel i : ℕ) (us vs : List Text) → Agree i us vs → free_index fuel i us ≡ free_index fuel i vs
unfolding free_index
free_index-Agree zero i us vs h = refl
free_index-Agree (suc fuel) i us vs h =
    rw (h i (omega arith), free_index-Agree fuel (suc i) us vs (λ j le. h j (omega (arith, le))))
      refl

free_index-ge : (fuel i : ℕ) (us : List Text) → i ≤ free_index fuel i us
unfolding free_index
free_index-ge zero i us = omega arith
free_index-ge (suc fuel) i us = ground (arith, free_index-ge fuel (suc i) us)

remove-Agree : (i : ℕ) (us : List Text) → Agree (suc i) (remove (eth i) us) us
remove-Agree i us j le =
    used-remove (eth i) (eth j) us (λ e. absurd (omega (arith, eth_inj i j e, le)))

-- With more fuel than names in the list, the index found is free.
free_index-free :
    (fuel i : ℕ) (us : List Text) → length us < fuel → used (eth (free_index fuel i us)) us ≡ false
unfolding free_index
free_index-free zero i us h = absurd (omega (arith, h))
free_index-free (suc fuel) i us h = elim (Bool-cases (used (eth i) us)) [
  | inr free ↦ rw free free
  | inl taken ↦ rw taken (
      let rest = remove (eth i) us in
      let j = free_index fuel (suc i) us in
      let same = free_index-Agree fuel (suc i) rest us (remove-Agree i us) in
      let here =
        free_index-free fuel (suc i) rest (omega (arith, h, length-remove (eth i) us taken)) in
      sym (remove-Agree i us j (free_index-ge fuel (suc i) us)) ∙ rw same at here)
]

-- The names of `n` indices from `i` on are given out.
abbrev pub TakenFrom : ℕ → ℕ → List Text → Type 0
TakenFrom i zero us = Unit
TakenFrom i (suc n) us = (used (eth i) us ≡ true) × TakenFrom (suc i) n us

-- Every smaller index from the start on is taken.
free_index-TakenFrom :
    (fuel i : ℕ) (us : List Text) → (n : ℕ) × (free_index fuel i us ≡ i + n) × TakenFrom i n us
unfolding free_index
free_index-TakenFrom zero i us = (0, omega arith, tt)
free_index-TakenFrom (suc fuel) i us = elim (Bool-cases (used (eth i) us)) [
  | inr free ↦ rw free (0, omega arith, tt)
  | inl taken ↦
      rw taken (
        let k = free_index-TakenFrom fuel (suc i) us in (suc k.0, omega (arith, k.1), (taken, k.2)))
]

-- An entry without an interface gets `ethN` for the first N from the loop's index on whose name was
-- not given out before: the search ends within one round more than there are names given out; the
-- name is noted as given out, and the index stays at N.
pub choose_lem :
    (i : ℕ) (taken : List Text)
    → let c = choose none i taken in
      (c.if_name ≡ eth c.index)
      × (used c.if_name taken ≡ false)
      × ((n : ℕ) × (c.index ≡ i + n) × TakenFrom i n taken)
      × (c.taken ≡ c.if_name ∷ taken)
unfolding choose
choose_lem i taken = (
  refl,
  free_index-free (suc (length taken)) i taken (omega arith),
  free_index-TakenFrom (suc (length taken)) i taken,
  refl,
)
