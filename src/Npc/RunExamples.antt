-- ===== src/Npc/RunExamples.antt =====
-- The controller's Run at a concrete input, in the in-memory world with fixed networks and policies.
use cni_genie.Base.{codes, true, [], ◌∷◌, ok, inr, ◌==◌, ◌≡◌, refl}
use cni_genie.Npc.Chains.{forward_chain, genie_base_npc_chain, jump}
use cni_genie.Npc.PolicyHandlers.Linked.{cleared, chain_of_policy, visited}
use cni_genie.Npc.PolicyHandlers.Selected.{all_selected}
use cni_genie.Npc.Events.{add_policy}
use cni_genie.Npc.Events.Delivery.{PolicyEncodes}
use cni_genie.Npc.Sync.{run}
use cni_genie.Npc.Sync.AddedPolicy.{base_made, GetsPolicy, run-added_policy}
use cni_genie.Npc.Kernel.{Tables}
use cni_genie.Npc.Kernel.Laws.{kernel_rules}
use cni_genie.Npc.Tests.{controller, web_policy, start}
use cni_genie.Npc.PolicyExamples.{known, policies, fixed, fixed-IsIptables, known-IsLister}
use cni_genie.Npc.NetworkExamples.{
  fixed-ListsPolicies, fixed-ListsMissing, all_accepted, shop_chain, old_rules,
}

fixed-GetsPolicy : GetsPolicy fixed kernel_rules web_policy
unfolding ◌==◌
fixed-GetsPolicy = record { get = λ s. refl; get_rules = λ s. refl }

-- the key of the added policy
web_key : PolicyEncodes fixed web_policy (codes "ADD") []
unfolding controller
web_key = record {
  text = codes "networkpolicy|web|ns|ADD||";
  marshalled = refl;
  decoded = _;
  unmarshalled = refl;
  same = λ k. refl;
}

-- after a restart the chain of the other policy is there, and the base chain has old rules
abbrev restarted : Tables
restarted = record start {
  chains =
      (forward_chain, jump (codes "DROP") ∷ [])
      ∷ (genie_base_npc_chain, old_rules)
      ∷ (shop_chain, [])
      ∷ [];
}

run-added_policy_example :
    ((run fixed true (add_policy fixed web_policy) restarted).0 ≡ ok tt)
    × (kernel_rules (run fixed true (add_policy fixed web_policy) restarted).1
        ≡ all_selected fixed known policies
            (codes "ns")
            (chain_of_policy fixed (codes "ns") (codes "web"))
            (visited fixed ((codes "front", codes "back" ∷ []) ∷ []))
            (cleared
              (chain_of_policy fixed (codes "ns") (codes "web"))
              (base_made (kernel_rules restarted))))
unfolding controller
run-added_policy_example =
    run-added_policy fixed web_policy ((codes "front", codes "back" ∷ []) ∷ []) policies
      (jump (codes "DROP") ∷ []) restarted fixed-IsIptables known-IsLister
      (λ ns name ln t e. (tt, tt)) fixed-ListsPolicies fixed-ListsMissing
      (λ name ln e. all_accepted ln) (λ c t us e. tt) fixed-GetsPolicy refl web_key refl refl
      (inr ([], refl), (inr ([], refl), tt))
