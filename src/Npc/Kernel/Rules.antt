-- ===== src/Npc/Kernel/Rules.antt =====
-- Which rules a command on the in-memory filter table brings in.
use cni_genie.Base.{
  Text, ℕ, zero, suc, ◌≡◌, refl, ◌⊎◌, inl, inr, Bool-cases, Option-cases, true, false, Option, none,
  some, List, [], ◌∷◌, ◌++◌, lookup, lookup-insert, eq_iff, ◌==◌, if◌then◌else◌, arith,
}
use cni_genie.Npc.Chains.Iptables.{Rule, same_rule, has_rule}
use cni_genie.Npc.Frame.Provenance.{Standing, OnlyAdds}
use cni_genie.Npc.Kernel.{
  Tables, kernel, rules_of, insert_at, delete_at, change, then_change, position, lookup-erase,
}

-- the table's name is not looked at
abbrev pub stands : Standing kernel
stands s t c q = has_rule q (rules_of (lookup c s.chains)) ≡ true

same_rule-eq : (q r : Rule) → same_rule q r ≡ true → r ≡ q
unfolding same_rule
same_rule-eq [] [] h = refl
same_rule-eq [] (v ∷ vs) h = cc
same_rule-eq (u ∷ us) [] h = cc
same_rule-eq (u ∷ us) (v ∷ vs) h =
    let rest : same_rule us vs ≡ true = ground (arith, h) in
    let tail = same_rule-eq us vs rest in let e : u ≡ v = ground (arith, h, eq_iff u v) in cc

has_rule-add :
    (q r : Rule) (us : List Rule)
    → has_rule q (us ++ r ∷ []) ≡ true
    → (has_rule q us ≡ true) ⊎ (same_rule q r ≡ true)
unfolding has_rule
has_rule-add q r [] h = ground (arith, h)
has_rule-add q r (u ∷ us) h = ground (arith, h, has_rule-add q r us)

has_rule-insert_at :
    (q r : Rule) (n : ℕ) (us : List Rule)
    → has_rule q (rules_of (insert_at n r us)) ≡ true
    → (has_rule q us ≡ true) ⊎ (same_rule q r ≡ true)
unfolding has_rule
has_rule-insert_at q r zero us h = cc
has_rule-insert_at q r (suc zero) us h = ground (arith, h)
has_rule-insert_at q r (suc (suc n)) [] h = cc
has_rule-insert_at q r (suc (suc n)) (u ∷ us) h = elim (Option-cases (insert_at (suc n) r us)) [
  | inl e ↦ (let bad : false ≡ true = rw e at h in cc)
  | inr (vs, e) ↦
      (let both : has_rule q (u ∷ vs) ≡ true = rw e at h in
        let ih : has_rule q vs ≡ true → (has_rule q us ≡ true) ⊎ (same_rule q r ≡ true) =
          rw e at (has_rule-insert_at q r (suc n) us) in
        ground (arith, both, ih))
]

has_rule-delete_at :
    (q : Rule) (n : ℕ) (us : List Rule)
    → has_rule q (rules_of (delete_at n us)) ≡ true
    → has_rule q us ≡ true
unfolding has_rule
has_rule-delete_at q zero us h = cc
has_rule-delete_at q (suc n) [] h = cc
has_rule-delete_at q (suc zero) (u ∷ us) h = ground (arith, h)
has_rule-delete_at q (suc (suc n)) (u ∷ us) h = elim (Option-cases (delete_at (suc n) us)) [
  | inl e ↦ (let bad : false ≡ true = rw e at h in cc)
  | inr (vs, e) ↦
      (let both : has_rule q (u ∷ vs) ≡ true = rw e at h in
        let ih : has_rule q vs ≡ true → has_rule q us ≡ true =
          rw e at (has_rule-delete_at q (suc n) us) in
        ground (arith, both, ih))
]

-- a rule that stands after a change stood before, or is one of the chain's new rules
stands-change :
    (c d : Text) (q : Rule) (o : Option (List Rule)) (s : Tables)
    → stands (change c o s).1 [] d q
    → stands s [] d q ⊎ ((c ≡ d) × (has_rule q (rules_of o) ≡ true))
stands-change c d q none s h = inl h
stands-change c d q (some us) s h =
    let known = lookup-insert c d us s.chains in
    elim (Bool-cases (c == d)) [
      | inl same ↦ (let now = rw (known, same) at h in inr ((eq_iff c d).0 same, now))
      | inr other ↦ inl (rw (known, other) at h)
    ]

-- the chain's rules before, where it is there
stands-then_change :
    (c d : Text) (q : Rule) (f : List Rule → Option (List Rule)) (s : Tables) (Q : Type 0)
    → ((us : List Rule) → has_rule q (rules_of (f us)) ≡ true → (has_rule q us ≡ true) ⊎ Q)
    → stands (change c (then_change (lookup c s.chains) f) s).1 [] d q
    → stands s [] d q ⊎ ((c ≡ d) × Q)
unfolding has_rule
stands-then_change c d q f s Q k h = elim (stands-change c d q _ s h) [
  | inl old ↦ inl old
  | inr (e, new) ↦ elim (Option-cases (lookup c s.chains)) [
    | inl gone ↦ (let bad : false ≡ true = rw gone at new in cc)
    | inr (us, there) ↦ elim (k us (rw there at new)) [
      | inl old ↦ inl (rw (← e, there) old)
      | inr x ↦ inr (e, x)
    ]
  ]
]

insert-stands :
    (c d : Text) (n : ℕ) (r q : Rule) (s : Tables)
    → stands (kernel.insert [] c n r s).1 [] d q
    → stands s [] d q ⊎ ((c ≡ d) × (r ≡ q))
insert-stands c d n r q s = stands-then_change c d q (insert_at n r) s (r ≡ q) λ us h.
    elim (has_rule-insert_at q r n us h) [ inl old ↦ inl old | inr e ↦ inr (same_rule-eq q r e) ]

append-stands :
    (c d : Text) (r q : Rule) (s : Tables)
    → stands (kernel.append_unique [] c r s).1 [] d q
    → stands s [] d q ⊎ ((c ≡ d) × (r ≡ q))
append-stands c d r q s =
    stands-then_change c d q (λ us. some (if has_rule r us then us else us ++ r ∷ [])) s (r ≡ q)
      λ us h. elim (Bool-cases (has_rule r us)) [
        | inl there ↦ inl (rw there at h)
        | inr new ↦ elim (has_rule-add q r us (rw new at h)) [
          | inl old ↦ inl old
          | inr e ↦ inr (same_rule-eq q r e)
        ]
      ]

delete-stands :
    (c d : Text) (r q : Rule) (s : Tables)
    → stands (kernel.delete [] c r s).1 [] d q
    → stands s [] d q
delete-stands c d r q s h =
    elim (stands-then_change c d q (delete_at (position r)) s ⊥
      (λ us k. inl (has_rule-delete_at q (position r) us k)) h) [
        | inl old ↦ old
        | inr (e, bad) ↦ absurd bad
      ]

clear-stands :
    (c d : Text) (q : Rule) (s : Tables)
    → stands (kernel.clear_chain [] c s).1 [] d q
    → stands s [] d q
unfolding has_rule
clear-stands c d q s h = elim (stands-change c d q (some []) s h) [
  | inl old ↦ old
  | inr (e, bad) ↦ cc
]

erase-stands :
    (c d : Text) (q : Rule) (s : Tables)
    → stands (kernel.delete_chain [] c s).1 [] d q
    → stands s [] d q
unfolding has_rule
erase-stands c d q s h =
    let known = lookup-erase c d s.chains in
    elim (Bool-cases (c == d)) [
      | inl same ↦ (let bad : false ≡ true = rw (known, same) at h in cc)
      | inr other ↦ rw (known, other) at h
    ]

pub kernel-OnlyAdds : OnlyAdds kernel stands
kernel-OnlyAdds = record {
  list = λ t c s u d q h. h;
  exists = λ t c r s u d q h. h;
  insert = λ t c n r s u d q h. insert-stands c d n r q s h;
  append_unique = λ t c r s u d q h. append-stands c d r q s h;
  delete = λ t c r s u d q h. delete-stands c d r q s h;
  clear_chain = λ t c s u d q h. clear-stands c d q s h;
  delete_chain = λ t c s u d q h. erase-stands c d q s h;
  get_logical_network = λ n k s u d q h. h;
  get_network_policy = λ n k s u d q h. h;
  list_policies = λ n s u d q h. h;
}
