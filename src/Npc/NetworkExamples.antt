-- ===== src/Npc/NetworkExamples.antt =====
-- The theorems on logical networks at concrete inputs, in the in-memory world with fixed networks
-- and policies.
use cni_genie.Base.{
  Text, codes, ◌≡◌, ◌≢◌, refl, false, some, List, [], ◌∷◌, ok, err, lookup, ◌==◌, eq_false_of_ne,
  member, itoa, number_from, Option-cases, Bool-cases, ◌>>=◌, inl, inr,
}
use cni_genie.Types.{LogicalNetwork}
use cni_genie.Npc.World.{exit, ipt, at, delete_base_rule}
use cni_genie.Npc.Chains.{genie_base_npc_chain, jump, to_subnet, from_subnet}
use cni_genie.Npc.Chains.Iptables.{Rule, mentions}
use cni_genie.Npc.Chains.NetworkChain.{reject, network_chain}
use cni_genie.Npc.Chains.DeletePolicyRule.{some_line}
use cni_genie.Npc.Chains.DeleteTwo.{drop_first}
use cni_genie.Npc.Policies.{policy_infos}
use cni_genie.Npc.Policies.Lister.{ListsPolicies}
use cni_genie.Npc.NetworkHandlers.{
  get_cidr_from_network, handle_logical_network_add, handle_logical_network_update,
  handle_logical_network_delete,
}
use cni_genie.Npc.NetworkHandlers.Linked.{policies_added}
use cni_genie.Npc.NetworkHandlers.Added.{AcceptsNetwork, handle_logical_network_add_lem}
use cni_genie.Npc.NetworkHandlers.LastPolicy.{last_policy_only}
use cni_genie.Npc.NetworkHandlers.Updated.{RefusesZero, update_changes_nothing}
use cni_genie.Npc.NetworkHandlers.Forgotten.{policies_forgotten, OnlyBase}
use cni_genie.Npc.NetworkHandlers.Deleted.{handle_logical_network_delete_lem}
use cni_genie.Npc.PolicyHandlers.{handle_network_policy_add}
use cni_genie.Npc.PolicyHandlers.Linked.{cleared, chain_of_network, chain_of_policy, visited}
use cni_genie.Npc.PolicyHandlers.Selected.{all_selected}
use cni_genie.Npc.PolicyHandlers.NewNetwork.{ListsMissing}
use cni_genie.Npc.PolicyHandlers.AddedAll.{handle_network_policy_add-all_selected}
use cni_genie.Npc.Kernel.{Tables}
use cni_genie.Npc.Kernel.Laws.{kernel_rules, show, accepts_all}
use cni_genie.Npc.Tests.{controller, web_policy, network_at, start, web_chain, front_chain}
use cni_genie.Npc.PolicyExamples.{known, policies, fixed, fixed-IsIptables, known-IsLister}

pub fixed-ListsPolicies : ListsPolicies fixed kernel_rules (codes "ns") policies
fixed-ListsPolicies = record { list = λ s. refl; list_rules = λ s. refl }

pub all_accepted : (ln : LogicalNetwork) → AcceptsNetwork accepts_all fixed ln
all_accepted ln = record {
  reject_rule = λ t. tt;
  jumps = λ c t us e. tt;
  jump_to = λ t us e. tt;
  jump_from = λ t us e. tt;
}

abbrev pub shop_chain : Text
shop_chain = codes "GnPlc-73686f706e7330313233"

abbrev front : LogicalNetwork
front = network_at "front" "10.1.0.0/24"

-- the chains of both policies are there, and the network's chain with an old rule
abbrev before_add : Tables
before_add = record start {
  chains =
      (genie_base_npc_chain, [])
      ∷ (shop_chain, [])
      ∷ (web_chain, [])
      ∷ (front_chain, jump (codes "DROP") ∷ [])
      ∷ [];
}

handle_logical_network_add_lem_example :
    ((handle_logical_network_add fixed (codes " front") (codes "ns") before_add).0 ≡ ok tt)
    × (kernel_rules (handle_logical_network_add fixed (codes " front") (codes "ns") before_add).1
        ≡ policies_added fixed known front
            (codes "ns")
            (codes "front")
            (policy_infos fixed (codes "front") policies)
            (kernel_rules before_add))
unfolding controller
handle_logical_network_add_lem_example =
    handle_logical_network_add_lem fixed (codes "ns") (codes " front") front policies before_add
      fixed-IsIptables known-IsLister fixed-ListsPolicies (λ ns name ln t e. (tt, tt))
      (all_accepted front) refl ([], refl) (([], refl), (([], refl), tt))

-- of two policies that select the network the second one keeps its jump
last_policy_only_example :
    ((handle_logical_network_add fixed (codes "front") (codes "ns") before_add).0 ≡ ok tt)
    × (kernel_rules
          (handle_logical_network_add fixed (codes "front") (codes "ns") before_add).1
          (network_chain fixed front)
        ≡ some (jump (chain_of_policy fixed (codes "ns") (codes "web")) ∷ reject ∷ []))
unfolding controller
last_policy_only_example =
    last_policy_only fixed (codes "ns") (codes "front") front policies
      (record {
        name = codes "shop";
        namespace = codes "ns";
        networks = some ((codes "front", [] ∷ []) ∷ []);
      }
        ∷ [])
      []
      (record {
        name = codes "web";
        namespace = codes "ns";
        networks = some ((codes "front", codes "back" ∷ []) ∷ []);
      })
      ((codes "front", codes "back" ∷ []) ∷ []) before_add fixed-IsIptables known-IsLister
      fixed-ListsPolicies (λ ns name ln t e. (tt, tt)) (all_accepted front) refl ([], refl)
      (([], refl), (([], refl), tt)) refl refl tt

fixed-RefusesZero : RefusesZero fixed kernel_rules (exit 1)
unfolding itoa number_from
fixed-RefusesZero = record {
  delete = λ s. elim (Option-cases (lookup genie_base_npc_chain s.chains)) [
    | inl e ↦ rw e refl
    | inr (us, e) ↦ rw e refl
  ];
  delete_rules = λ s. elim (Option-cases (lookup genie_base_npc_chain s.chains)) [
    | inl e ↦ rw e refl
    | inr (us, e) ↦ rw e refl
  ];
}

-- the base chain has the rules for the network's old subnet
abbrev with_old_rules : Tables
with_old_rules = record start {
  chains =
      (
        genie_base_npc_chain,
        to_subnet (codes "10.9.0.0/24") front_chain
            ∷ from_subnet (codes "10.9.0.0/24") front_chain
            ∷ [],
      )
      ∷ (front_chain, reject ∷ [])
      ∷ [];
}

abbrev pub old_rules : List Rule
old_rules =
    to_subnet (codes "10.9.0.0/24") front_chain ∷ from_subnet (codes "10.9.0.0/24") front_chain ∷ []

update_changes_nothing_example :
    let out = handle_logical_network_update fixed (codes "front") (codes "ns") with_old_rules in
    (out.0 ≡ err (at delete_base_rule (ipt (exit 1))))
    × (kernel_rules out.1 ≡ kernel_rules with_old_rules)
unfolding controller some_line
update_changes_nothing_example =
    update_changes_nothing fixed (exit 1) (codes "ns") (codes "front") front old_rules
      with_old_rules fixed-IsIptables known-IsLister fixed-RefusesZero refl refl

reject-mentions : mentions front_chain (reject ∷ []) ≡ false
unfolding mentions member ◌==◌
reject-mentions = refl

only_front :
    (d : Text) (vs : List Rule)
    → genie_base_npc_chain ≢ d
    → kernel_rules with_old_rules d ≡ some vs
    → mentions front_chain vs ≡ false
unfolding lookup
only_front d vs ne h = elim (Bool-cases (front_chain == d)) [
  | inl k ↦
      (let only = rw (eq_false_of_ne genie_base_npc_chain d ne, k) at h in
        let e : reject ∷ [] ≡ vs = cc in rw (← e) reject-mentions)
  | inr k ↦ (let only = rw (eq_false_of_ne genie_base_npc_chain d ne, k) at h in cc)
]

only_base :
    OnlyBase show
      (chain_of_network fixed (codes "ns") (codes "front"))
      (kernel_rules with_old_rules)
unfolding controller mentions member drop_first
only_base = record {
  base = old_rules;
  base_there = refl;
  two = refl;
  others = λ d vs ne h. only_front d vs ne h;
}

handle_logical_network_delete_lem_example :
    let out =
      handle_logical_network_delete fixed
        (codes "front")
        (codes "ns")
        (codes "10.9.0.0/24")
        with_old_rules in
    (out.0 ≡ ok tt)
    × (kernel_rules out.1
        ≡ policies_forgotten show
            (chain_of_network fixed (codes "ns") (codes "front"))
            (codes "10.9.0.0/24")
            fixed
            (policy_infos fixed (codes "front") policies)
            (kernel_rules with_old_rules))
unfolding controller
handle_logical_network_delete_lem_example =
    handle_logical_network_delete_lem fixed (codes "ns") (codes "front") (codes "10.9.0.0/24")
      policies with_old_rules fixed-IsIptables fixed-ListsPolicies refl only_base (tt, (tt, tt))

pub fixed-ListsMissing : ListsMissing fixed kernel_rules
fixed-ListsMissing c s h = rw h refl

-- the selected network has no chain yet
abbrev no_network : Tables
no_network = record start { chains = (genie_base_npc_chain, []) ∷ (shop_chain, []) ∷ [] }

handle_network_policy_add-all_selected_example :
    ((handle_network_policy_add fixed (codes "web") (codes "ns") no_network).0 ≡ ok tt)
    × (kernel_rules (handle_network_policy_add fixed (codes "web") (codes "ns") no_network).1
        ≡ all_selected fixed known policies
            (codes "ns")
            (chain_of_policy fixed (codes "ns") (codes "web"))
            (visited fixed ((codes "front", codes "back" ∷ []) ∷ []))
            (cleared (chain_of_policy fixed (codes "ns") (codes "web")) (kernel_rules no_network)))
unfolding controller
handle_network_policy_add-all_selected_example =
    handle_network_policy_add-all_selected fixed (codes "ns") (codes "web") no_network web_policy
      ((codes "front", codes "back" ∷ []) ∷ []) policies fixed-IsIptables known-IsLister
      (λ ns name ln t e. (tt, tt)) fixed-ListsPolicies fixed-ListsMissing
      (λ name ln e. all_accepted ln) (λ t us e. tt) refl refl refl ([], refl)
      (inr ([], refl), (inr ([], refl), tt))

front_cidr :
    (get_cidr_from_network fixed (codes "front") (codes "ns") start).0 ≡ ok (codes "10.1.0.0/24")
unfolding get_cidr_from_network ◌>>=◌ ◌==◌
front_cidr = refl
