-- ===== src/Npc/Chains/DeleteTwo.antt =====
-- The loop that deletes a chain's rules by their positions while the positions move.
use cni_genie.Base.{
  Text, ℕ, zero, suc, ◌≡◌, refl, true, false, Bool-cases, inl, inr, some, List, [], ◌∷◌, ◌++◌, map,
  length, length-append, append_assoc, contains, eqb, itoa, value, attempt, attempt-ok, eq_iff,
  GoResult, bind-ok, pure, ok, if◌then◌else◌, arith, eq_refl,
}
use cni_genie.Npc.World.{World, Error}
use cni_genie.Npc.Chains.{delete_two, filter_table}
use cni_genie.Npc.Chains.Iptables.{Rule, Rules, Replaced, IsIptables, Accepts}

-- the rules without the first `n` whose line holds the needle
unfoldable pub drop_first : ℕ → (Rule → Text) → Text → List Rule → List Rule
drop_first zero line needle us = us
drop_first (suc n) line needle [] = []
drop_first (suc n) line needle (u ∷ us) =
    let gone = drop_first n line needle us in
    let kept = u ∷ drop_first (suc n) line needle us in
    if contains (line u) needle then gone else kept

Replaced-trans :
    (a b f : Rules) (t : Text) (us vs : List Rule)
    → Replaced a t us b
    → Replaced b t vs f
    → Replaced a t vs f
Replaced-trans a b f t us vs h k d = ground (arith, h d, k d)

module _ (w : World) {rules : w.State → Rules} {header : Text → Text} {show : Text → Rule → Text}
    {accepts : Accepts} (laws : IsIptables w rules header show accepts) (c needle : Text) where
  -- the run of an action at `s` succeeds and leaves the rules `us` in the chain
  abbrev Leaves : GoResult Error (Unit {0}) × w.State → w.State → List Rule → Type 0
  Leaves out s us = (out.0 ≡ ok tt) × Replaced (rules s) c us (rules out.1)

  -- the loop at the rules `rest`, behind the rules `pre`
  abbrev from_rule : List Rule → ℕ → List Rule → w.State → GoResult Error (Unit {0}) × w.State
  from_rule pre cnt rest s = delete_two w c needle (map (show c) rest) (suc (length pre)) cnt s

  stop :
      (pre : List Rule) (s : w.State) (cnt : ℕ)
      → rules s c ≡ some (pre ++ [])
      → Leaves (from_rule pre cnt [] s) s (pre ++ [])
  unfolding delete_two pure
  stop pre s cnt h = (refl, λ d. ground (arith, eq_iff c d))

  skip :
      (pre : List Rule) (r : Rule) (rest us : List Rule) (s : w.State) (cnt : ℕ)
      → contains (show c r) needle ≡ false
      → Leaves (from_rule (pre ++ r ∷ []) cnt rest s) s ((pre ++ r ∷ []) ++ us)
      → Leaves (from_rule pre cnt (r ∷ rest) s) s (pre ++ r ∷ us)
  unfolding delete_two
  skip pre r rest us s cnt no_hit h =
      let longer : length (pre ++ r ∷ []) ≡ suc (length pre) =
        omega (arith, length-append pre (r ∷ [])) in
      rw (no_hit, ← append_assoc pre (r ∷ []) us, ← longer) h

  hit :
      (pre : List Rule) (r : Rule) (rest us : List Rule) (s : w.State) (cnt : ℕ)
      → contains (show c r) needle ≡ true
      → rules s c ≡ some (pre ++ r ∷ rest)
      → ((t : w.State)
          → rules t c ≡ some (pre ++ rest)
          → Leaves ((if eqb (suc cnt) 2 then pure tt else from_rule pre (suc cnt) rest) t) t us)
      → Leaves (from_rule pre cnt (r ∷ rest) s) s us
  unfolding delete_two attempt
  hit pre r rest us s cnt found h k =
      let gone = w.delete filter_table c (itoa (suc (length pre)) ∷ []) in
      let t = (gone s).1 in
      let change = laws.delete_rules c s pre r rest h in
      let after = k t (rw (eq_refl c) at (change c)) in
      rw found (
        rw
          (bind-ok (attempt {F = Error} gone) _ s (value tt)
            (attempt-ok gone s tt (laws.delete c s pre r rest h)))
          (after.0, Replaced-trans (rules s) (rules t) _ c (pre ++ rest) us change after.1))

  last_one :
      (pre rest : List Rule) (s : w.State)
      → rules s c ≡ some (pre ++ rest)
      → Leaves (from_rule pre 1 rest s) s (pre ++ drop_first 1 (show c) needle rest)
  unfolding drop_first
  last_one pre [] s h = stop pre s 1 h
  last_one pre (r ∷ rest) s h = elim (Bool-cases (contains (show c r) needle)) [
    | inl found ↦ rw found (
        hit pre r rest (pre ++ rest) s 1 found h
          λ t e. (unfold pure in (refl, λ d. ground (arith, eq_iff c d))))
    | inr other ↦ rw other (
        skip pre r rest _ s 1 other
          (last_one (pre ++ r ∷ []) rest s (rw (append_assoc pre (r ∷ []) rest) h)))
  ]

  -- Started at a chain's first rule, the loop succeeds and leaves the chain without the first two
  -- rules whose lines hold the needle, in their order, and every other chain as it was: although
  -- the positions move with every deletion. The world's commands do what iptables documents.
  pub delete_two-drop_first :
      (pre rest : List Rule) (s : w.State)
      → rules s c ≡ some (pre ++ rest)
      → Leaves (from_rule pre 0 rest s) s (pre ++ drop_first 2 (show c) needle rest)
  unfolding drop_first
  delete_two-drop_first pre [] s h = stop pre s 0 h
  delete_two-drop_first pre (r ∷ rest) s h = elim (Bool-cases (contains (show c r) needle)) [
    | inl found ↦ rw found (hit pre r rest _ s 0 found h λ t e. last_one pre rest t e)
    | inr other ↦ rw other (
        skip pre r rest _ s 0 other
          (delete_two-drop_first (pre ++ r ∷ []) rest s (rw (append_assoc pre (r ∷ []) rest) h)))
  ]
