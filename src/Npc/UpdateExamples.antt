-- ===== src/Npc/UpdateExamples.antt =====
-- An update of a policy that selects no network any more, in the in-memory world.
use cni_genie.Base.{List, [], ◌∷◌, ◌++◌, codes, some, ok, map, inl, inr, ◌≡◌, refl}
use cni_genie.Types.{PolicyObject}
use cni_genie.Npc.Chains.{genie_base_npc_chain, jump, to_subnet, from_subnet}
use cni_genie.Npc.Chains.Iptables.{Rule}
use cni_genie.Npc.Chains.DeleteTwo.{drop_first}
use cni_genie.Npc.Chains.DeletePolicyRule.{some_line}
use cni_genie.Npc.Policies.{genie_network_policy}
use cni_genie.Npc.PolicyHandlers.{handle_network_policy_update}
use cni_genie.Npc.PolicyHandlers.Linked.{cleared, chain_of_policy}
use cni_genie.Npc.PolicyHandlers.Unselected.{
  NoJump, chains_named, chains_unlinked, handle_network_policy_update-chains_unlinked,
}
use cni_genie.Npc.Kernel.{Tables, kernel}
use cni_genie.Npc.Kernel.Laws.{kernel_rules, header, show, kernel-IsIptables}
use cni_genie.Npc.Tests.{controller, start, web_policy, web_chain, front_chain}
use cni_genie.Npc.RemovalExamples.{other_jump, rejects, back_chain, front_jumps}

-- the annotation is an entry without a selector
abbrev no_selector : PolicyObject
no_selector = record web_policy { annotations = some ((genie_network_policy, codes ":") ∷ []) }

abbrev base_rules : List Rule
base_rules =
    to_subnet (codes "10.1.0.0/24") front_chain
    ∷ from_subnet (codes "10.1.0.0/24") front_chain
    ∷ to_subnet (codes "10.2.0.0/24") back_chain
    ∷ []

-- the policy stands in the chain of one of two networks
abbrev linked_once : Tables
linked_once = record start {
  chains =
      (genie_base_npc_chain, base_rules)
      ∷ (front_chain, other_jump ++ jump web_chain ∷ rejects)
      ∷ (back_chain, other_jump)
      ∷ (web_chain, jump (codes "ACCEPT") ∷ [])
      ∷ [];
  policies = no_selector ∷ [];
}

back_quiet : NoJump header show web_chain back_chain other_jump
unfolding controller some_line
back_quiet = record { quiet = refl; more = refl }

handle_network_policy_update-chains_unlinked_example :
    let out = handle_network_policy_update kernel (codes "web") (codes "ns") linked_once in
    let chain = chain_of_policy kernel (codes "ns") (codes "web") in
    (out.0 ≡ ok tt)
    × (kernel_rules out.1
        ≡ chains_unlinked header show chain
            (chains_named
              (header genie_base_npc_chain ∷ map (show genie_base_npc_chain) base_rules)
              [])
            (cleared chain (kernel_rules linked_once)))
unfolding controller drop_first
handle_network_policy_update-chains_unlinked_example =
    handle_network_policy_update-chains_unlinked kernel (codes "ns") (codes "web") linked_once
      no_selector base_rules kernel-IsIptables refl refl refl refl
      ((_, refl, inl front_jumps), ((_, refl, inr back_quiet), tt))
