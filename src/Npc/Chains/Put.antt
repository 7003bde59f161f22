-- ===== src/Npc/Chains/Put.antt =====
-- Single commands as changes of one chain of the filter table.
use mathlib.Core.Path.{fun_ext}
use cni_genie.Base.{
  Text, ◌≡◌, refl, ◌∙◌, Bool, true, false, Option, none, some, List, ◌∷◌, ok, wrap, wrap-ok,
  bind-ok, attempt-bind_ok, attempt, ◌>>=◌, pure, ◌==◌, eq_iff, if◌then◌else◌, arith, Bool-cases,
  inl, inr,
}
use cni_genie.Npc.World.{World, Error, ipt}
use cni_genie.Npc.Chains.{filter_table, exists_chain, exists_of, insert_rule, inserted}
use cni_genie.Npc.Chains.Iptables.{Rule, Rules, Replaced, IsIptables, Accepts, has_rule, add_unique}

abbrev pub changed : (List Rule → List Rule) → Option (List Rule) → Option (List Rule)
changed f none = none
changed f (some us) = some (f us)

-- One chain is changed, where it is there.
abbrev pub put : Text → (List Rule → List Rule) → Rules → Rules
put c f rules d = if c == d then changed f (rules d) else rules d

-- the rule goes on top unless the chain has it
abbrev pub on_top : Rule → List Rule → List Rule
on_top r us = if has_rule r us then us else r ∷ us

pub Replaced-put :
    (before after : Rules) (c : Text) (f : List Rule → List Rule) (us : List Rule)
    → before c ≡ some us
    → Replaced before c (f us) after
    → after ≡ put c f before
Replaced-put before after c f us e h = fun_ext λ d. h d ∙ same d
  where
    same : (d : Text) → (if c == d then some (f us) else before d) ≡ put c f before d
    same d = elim (Bool-cases (c == d)) [
      | inl k ↦ rw (k, ← (eq_iff c d).0 k, e) refl
      | inr k ↦ rw k refl
    ]

-- The chain is there.
abbrev pub IsThere : Rules → Text → Type 0
IsThere r c = (us : List Rule) × (r c ≡ some us)

pub put-IsThere :
    (c d : Text) (f : List Rule → List Rule) (r : Rules) → IsThere r d → IsThere (put c f r) d
put-IsThere c d f r (us, e) = elim (Bool-cases (c == d)) [
  | inl k ↦ (f us, rw (k, e) refl)
  | inr k ↦ (us, rw (k, e) refl)
]

pub put-put :
    (c : Text) (f g : List Rule → List Rule) (r : Rules)
    → put c g (put c f r) ≡ put c (λ us. g (f us)) r
put-put c f g r = fun_ext λ d. same d (r d)
  where
    same :
        (d : Text) (o : Option (List Rule))
        → (if c == d
            then changed g (if c == d then changed f o else o)
            else (if c == d then changed f o else o))
          ≡ (if c == d then changed (λ us. g (f us)) o else o)
    same d none = ground arith
    same d (some us) = ground arith

pub put-same : (c : Text) (r : Rules) → put c (λ us. us) r ≡ r
put-same c r = fun_ext λ d. same d (r d)
  where
    same : (d : Text) (o : Option (List Rule)) → (if c == d then changed (λ us. us) o else o) ≡ o
    same d none = ground arith
    same d (some us) = ground arith

module _ (w : World) {rules : w.State → Rules} {header : Text → Text} {show : Text → Rule → Text}
    {accepts : Accepts} (laws : IsIptables w rules header show accepts) where
  pub append_unique_lem :
      (c : Text) (r : Rule) (s : w.State) (us : List Rule)
      → rules s c ≡ some us
      → accepts (rules s) r
      → rules (w.append_unique filter_table c r s).1 ≡ put c (add_unique r) (rules s)
  append_unique_lem c r s us h a =
      Replaced-put (rules s) _ c (add_unique r) us h (laws.append_unique_rules c r s h a)

  pub exists_chain_lem :
      (c : Text) (s : w.State) (us : List Rule)
      → rules s c ≡ some us
      → ((exists_chain w c s).0 ≡ ok true) × (rules (exists_chain w c s).1 ≡ rules s)
  unfolding exists_chain exists_of pure
  exists_chain_lem c s us h =
      rw (attempt-bind_ok {F = Error} (w.list filter_table c) (exists_of w) s _ (laws.list c s h))
        (refl, laws.list_rules c s)

  placed :
      (c : Text) (r : Rule) (t : w.State) (us : List Rule) (b : Bool)
      → has_rule r us ≡ b
      → rules t c ≡ some us
      → accepts (rules t) r
      → let out =
          (if b then pure tt else do done ← attempt (w.insert filter_table c 1 r); inserted w done)
            t in
        (out.0 ≡ ok tt) × (rules out.1 ≡ put c (on_top r) (rules t))
  unfolding pure inserted
  placed c r t us true e h a =
      (refl, Replaced-put (rules t) _ c (on_top r) us h λ d. rw e (ground (arith, eq_iff c d)))
  placed c r t us false e h a =
      let done : ((w.insert filter_table c 1 r) t).0 ≡ ok tt = laws.insert_top c r t h a in
      rw (attempt-bind_ok (w.insert filter_table c 1 r) (inserted w) t tt done)
        (refl, Replaced-put (rules t) _ c (on_top r) us h (rw e (laws.insert_top_rules c r t h a)))

  pub insert_rule_lem :
      (c : Text) (r : Rule) (s : w.State) (us : List Rule)
      → rules s c ≡ some us
      → accepts (rules s) r
      → ((insert_rule w c 1 r s).0 ≡ ok tt)
        × (rules (insert_rule w c 1 r s).1 ≡ put c (on_top r) (rules s))
  unfolding insert_rule wrap
  insert_rule_lem c r s us h a =
      let look = w.exists filter_table c r in
      let t = (look s).1 in
      let same = laws.exists_rules c r s in
      let known = wrap-ok ipt look s _ (laws.exists c r s h a) in
      rw (bind-ok (wrap ipt look) _ s (has_rule r us) known)
        (rw same at (placed c r t us (has_rule r us) refl (rw same h) (rw same a)))
