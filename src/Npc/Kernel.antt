-- ===== src/Npc/Kernel.antt =====
-- An in-memory world: the filter table as a list of chains, and the objects of the caches. It is
-- for tests and examples of the controller.
pub mod Laws
pub mod Rules
use cni_genie.Base.{
  Text, codes, ℕ, zero, suc, ◌+◌, ◌-◌, ◌*◌, Bool, false, ◌&&◌, ◌||◌, Option, none, some, List, [],
  ◌∷◌, ◌++◌, map, take, GoMap, lookup, insert, if◌then◌else◌, ◌==◌, ◌≡◌, ◌≢◌, refl, arith, eq_iff,
  eq_false_of_ne, lookup-insert, split, number_from, Cmd, GoResult, ok, err,
}
use cni_genie.Types.{LogicalNetwork, PolicyObject}
use cni_genie.Npc.World.{IptablesError, exit, ApiError, not_found, NetworkPolicy, World}
use cni_genie.Npc.Chains.Iptables.{Rule, has_rule}
use cni_genie.Npc.Frame.Untouched.{View, IsLocal}

pub record Tables : Type 0 where
  pub chains : GoMap (List Rule)
  pub networks : List LogicalNetwork
  pub policies : List PolicyObject

-- the words of a rule, each behind a space
abbrev pub spaced : Rule → Text
spaced [] = []
spaced (w ∷ ws) = b' ' ∷ w ++ spaced ws

-- `iptables -S`
abbrev render : Text → List Rule → List Text
render c rules = (codes "-N " ++ c) ∷ map (λ r. codes "-A " ++ c ++ spaced r) rules

-- the n-th rule, from 1; `none` where there is no such place
abbrev pub insert_at : ℕ → Rule → List Rule → Option (List Rule)
insert_at zero r us = none
insert_at (suc zero) r us = some (r ∷ us)
insert_at (suc (suc n)) r [] = none
insert_at (suc (suc n)) r (u ∷ us) = elim (insert_at (suc n) r us) [
  | none ↦ none
  | some vs ↦ some (u ∷ vs)
]

abbrev pub delete_at : ℕ → List Rule → Option (List Rule)
delete_at zero us = none
delete_at (suc n) [] = none
delete_at (suc zero) (u ∷ us) = some us
delete_at (suc (suc n)) (u ∷ us) = elim (delete_at (suc n) us) [
  | none ↦ none
  | some vs ↦ some (u ∷ vs)
]

abbrev position : Rule → ℕ
position [] = 0
position (t ∷ ts) = number_from 0 t

abbrev erase : Text → GoMap (List Rule) → GoMap (List Rule)
erase k [] = []
erase k ((j, v) ∷ m) = let rest = erase k m in if j == k then rest else (j, v) ∷ rest

pub lookup-erase :
    (k j : Text) (m : GoMap (List Rule))
    → lookup j (erase k m) ≡ (if k == j then none else lookup j m)
unfolding lookup
lookup-erase k j [] = ground (arith, eq_iff k j)
lookup-erase k j ((i, v) ∷ m) =
    ground (arith, lookup-erase k j m, eq_iff k j, eq_iff i k, eq_iff i j)

abbrev Run : Type 0 → Type 0
Run A = Cmd Tables IptablesError A

-- the chain's rules are replaced, or the command fails with exit status 1
abbrev pub change : Text → Option (List Rule) → Run (Unit {0})
change c none s = (err (exit 1), s)
change c (some rules) s = (ok tt, record s { chains = insert c rules s.chains })

abbrev rules_of : Option (List Rule) → List Rule
rules_of none = []
rules_of (some l) = l

abbrev then_change : {A : Type 0} → Option A → (A → Option (List Rule)) → Option (List Rule)
then_change none f = none
then_change (some a) f = f a

abbrev find_network : Text → Text → List LogicalNetwork → GoResult ApiError LogicalNetwork
find_network ns n [] = err not_found
find_network ns n (l ∷ ls) =
    let rest = find_network ns n ls in if l.namespace == ns && l.name == n then ok l else rest

abbrev find_policy : Text → Text → List PolicyObject → GoResult ApiError PolicyObject
find_policy ns n [] = err not_found
find_policy ns n (p ∷ ps) =
    let rest = find_policy ns n ps in if p.namespace == ns && p.name == n then ok p else rest

abbrev policies_in : Text → List PolicyObject → List PolicyObject
policies_in ns [] = []
policies_in ns (p ∷ ps) =
    let rest = policies_in ns ps in if p.namespace == ns then p ∷ rest else rest

-- A stand-in for JSON: entries behind `;`, the selector and the peers behind `:`.
abbrev entry : List Text → Option NetworkPolicy
entry (sel ∷ peers ∷ []) = some (record { network_selector = sel; peer_networks = peers })
entry _ = none

abbrev entries : List Text → Option (List NetworkPolicy)
entries [] = some []
entries (t ∷ ts) = elim (entry (split t b':')) [
  | none ↦ none
  | some e ↦ elim (entries ts) [ none ↦ none | some es ↦ some (e ∷ es) ]
]

abbrev field_names : List Text
field_names = codes "kind" ∷ codes "name" ∷ codes "namespace" ∷ codes "action" ∷ codes "args" ∷ []

abbrev zip_fields : List Text → List Text → GoMap Text
zip_fields (k ∷ ks) (v ∷ vs) = (k, v) ∷ zip_fields ks vs
zip_fields _ _ = []

abbrev join_values : GoMap Text → Text
join_values [] = []
join_values ((_, v) ∷ m) = v ++ b'|' ∷ join_values m

abbrev listed : Text → Option (List Rule) → GoResult IptablesError (List Text)
listed c none = err (exit 1)
listed c (some rules) = ok (render c rules)

abbrev pub padding : Text
padding = codes "0123456789abcdef"

abbrev pub kernel : World
kernel = record {
  State = Tables;
  new = λ s. (ok tt, s);
  list = λ t c s. (listed c (lookup c s.chains), s);
  exists = λ t c r s. (ok (has_rule r (rules_of (lookup c s.chains))), s);
  insert = λ t c n r s. change c (then_change (lookup c s.chains) (insert_at n r)) s;
  append_unique = λ t c r s.
      change c
        (then_change (lookup c s.chains) (λ us. some (if has_rule r us then us else us ++ r ∷ [])))
        s;
  delete = λ t c r s. change c (then_change (lookup c s.chains) (delete_at (position r))) s;
  clear_chain = λ t c s. change c (some []) s;
  delete_chain = λ t c s. (ok tt, record s { chains = erase c s.chains });
  get_logical_network = λ ns n s. (find_network ns n s.networks, s);
  get_network_policy = λ ns n s. (find_policy ns n s.policies, s);
  list_policies = λ ns s. (ok (policies_in ns s.policies), s);
  md5 = λ t. take 16 (t ++ padding);
  unmarshal_policies = λ t. entries (split t b';');
  unmarshal_map = λ t. some (zip_fields field_names (split t b'|'));
  marshal_map = λ m. some (join_values m);
  range = λ m. m;
}

abbrev rendered : Text → Option (List Rule) → Option (List Text)
rendered c none = none
rendered c (some rules) = some (render c rules)

abbrev pub kernel_view : View kernel
kernel_view s t c = rendered c (lookup c s.chains)

change_local :
    (c d : Text) (o : Option (List Rule)) (s : Tables)
    → c ≢ d
    → kernel_view (change c o s).1 [] d ≡ kernel_view s [] d
change_local c d none s h = refl
change_local c d (some rules) s h = ground (arith, lookup-insert c d rules s.chains, eq_iff c d)

pub kernel-IsLocal : IsLocal kernel kernel_view
kernel-IsLocal = record {
  list = λ t c s. refl;
  exists = λ t c r s. refl;
  insert = λ t c n r s u d h. change_local c d _ s h;
  append_unique = λ t c r s u d h. change_local c d _ s h;
  delete = λ t c r s u d h. change_local c d _ s h;
  clear_chain = λ t c s u d h. change_local c d (some []) s h;
  delete_chain = λ t c s u d h. rw (lookup-erase c d s.chains, eq_false_of_ne c d h) refl;
  get_logical_network = λ n k s. refl;
  get_network_policy = λ n k s. refl;
  list_policies = λ n s. refl;
}
