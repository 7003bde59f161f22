-- ===== src/Npc/NetworkHandlers/LastPolicy.antt =====
-- Which jumps a logical network's chain holds after `handleLogicalNetworkAdd`.
use cni_genie.Base.{
  Text, codes, ◌≡◌, ◌≢◌, refl, ap, sym, ◌∙◌, none, some, List, [], ◌∷◌, ◌++◌, ok, trim_space,
  eq_refl, eq_false_of_ne, lookup, get_or, arith,
}
use cni_genie.Types.{LogicalNetwork, PolicyObject}
use cni_genie.Npc.World.{World}
use cni_genie.Npc.Chains.{
  genie_base_npc_chain, create_iptable_chain_name, jump, to_subnet, from_subnet,
}
use cni_genie.Npc.Chains.Iptables.{
  Rule, Rules, IsIptables, Accepts, has_rule, same_rule, add_unique,
}
use cni_genie.Npc.Chains.Put.{put, changed, IsThere, on_top}
use cni_genie.Npc.Chains.NetworkChain.{reject, network_chain, network-ne-base}
use cni_genie.Npc.Policies.{Networks, NetworkPolicyInfo, or_nil, policy_infos}
use cni_genie.Npc.NetworkHandlers.{handle_logical_network_add}
use cni_genie.Npc.Policies.Lister.{ListsPolicies}
use cni_genie.Npc.NetworkHandlers.Linked.{
  filled, not_blank, chain_added, policy_added, policies_added, Ready,
}
use cni_genie.Npc.NetworkHandlers.Added.{AcceptsNetwork, handle_logical_network_add_lem}
use cni_genie.Npc.PolicyHandlers.Peers.{Listed, IsLister, AcceptsPeers, with_peer, with_peers}
use cni_genie.Npc.PolicyHandlers.Linked.{chain_of_policy}

-- the policies that only name the network as a peer
abbrev pub PeersOnly : List NetworkPolicyInfo → Type 0
PeersOnly [] = Unit
PeersOnly (info ∷ infos) = (info.networks ≡ none) × PeersOnly infos

policy-ne-network :
    (w : World) (ns p : Text) (ln : LogicalNetwork) → chain_of_policy w ns p ≢ network_chain w ln
unfolding create_iptable_chain_name
policy-ne-network w ns p ln e = absurd (omega (arith, ap (λ t. get_or t 2 0) e))

policy-ne-reject : (w : World) (ns p : Text) → chain_of_policy w ns p ≢ codes "REJECT"
unfolding create_iptable_chain_name
policy-ne-reject w ns p e = absurd (omega (arith, ap (λ t. get_or t 0 0) e))

put-other : (c d : Text) (f : List Rule → List Rule) (r : Rules) → c ≢ d → put c f r d ≡ r d
put-other c d f r ne = rw (eq_false_of_ne c d ne) refl

put-here : (c : Text) (f : List Rule → List Rule) (r : Rules) → put c f r c ≡ changed f (r c)
put-here c f r = rw (eq_refl c) refl

jump_on_reject :
    (c : Text) → c ≢ codes "REJECT" → on_top (jump c) (reject ∷ []) ≡ jump c ∷ reject ∷ []
unfolding has_rule same_rule
jump_on_reject c ne = rw (eq_false_of_ne c (codes "REJECT") ne, eq_refl (codes "-j")) refl

module _ (w : World) (listed : Listed) (ln : LogicalNetwork) (ns name : Text) where
  rejecting : (r : Rules) → chain_added w ln r (network_chain w ln) ≡ some (reject ∷ [])
  rejecting r =
      let chain = network_chain w ln in
      let both : List Rule → List Rule = λ us.
        add_unique (from_subnet ln.sub_subnet chain)
          (add_unique (to_subnet ln.sub_subnet chain) us) in
      let alone : filled chain (reject ∷ []) r chain ≡ some (reject ∷ []) =
        rw (eq_refl chain) refl in
      put-other genie_base_npc_chain chain both (filled chain (reject ∷ []) r)
        (λ e. network-ne-base w (ln.name ++ ln.namespace) (sym e))
      ∙ alone

  selected_last :
      (p : Text) (networks : Networks) (r : Rules)
      → policy_added w listed ln ns name
          (chain_of_policy w ns p)
          (some networks)
          r
          (network_chain w ln)
        ≡ some (jump (chain_of_policy w ns p) ∷ reject ∷ [])
  selected_last p networks r =
      let c = chain_of_policy w ns p in
      let chain = network_chain w ln in
      put-other c chain (with_peers listed ns (not_blank (or_nil (lookup name networks))))
        (put chain (on_top (jump c)) (chain_added w ln r)) (policy-ne-network w ns p ln)
      ∙ put-here chain (on_top (jump c)) (chain_added w ln r)
      ∙ ap (changed (on_top (jump c))) (rejecting r)
      ∙ ap some (jump_on_reject c (policy-ne-reject w ns p))

  peers_keep :
      (infos : List NetworkPolicyInfo) (r : Rules)
      → PeersOnly infos
      → policies_added w listed ln ns name infos r (network_chain w ln) ≡ r (network_chain w ln)
  peers_keep [] r h = refl
  peers_keep (info ∷ infos) r (e, h) =
      let c = chain_of_policy w ns info.name in
      rw e (
        peers_keep infos (put c (with_peer (some ln)) r) h
        ∙ put-other c (network_chain w ln) (with_peer (some ln)) r
            (policy-ne-network w ns info.name ln))

  last_one :
      (before after : List NetworkPolicyInfo) (p : NetworkPolicyInfo) (networks : Networks)
      (r : Rules)
      → p.networks ≡ some networks
      → PeersOnly after
      → policies_added w listed ln ns name (before ++ p ∷ after) r (network_chain w ln)
        ≡ some (jump (chain_of_policy w ns p.name) ∷ reject ∷ [])
  last_one [] after p networks r e h = rw e (peers_keep after _ h ∙ selected_last p.name networks r)
  last_one (b ∷ before) after p networks r e h = last_one before after p networks _ e h

-- In a state in which the handler for an added network succeeds, for as many policies as
-- `ListNetworkPolicies` returns: if a policy that selects the network is the last one to do so among
-- them, the network's chain holds the jump to this policy's chain and the reject rule, and nothing
-- else: the jumps to the chains of the policies before it, which select the network as well, are
-- lost. The state has the base chain and the chains of the policies, the listers answer the same
-- throughout, the world's commands do what iptables documents, and iptables accepts the rules.
pub last_policy_only :
    (w : World) {rules : w.State → Rules} {header : Text → Text} {show : Text → Rule → Text}
    {accepts : Accepts} {listed : Listed} (ns name : Text) (ln : LogicalNetwork)
    (policies : List PolicyObject) (before after : List NetworkPolicyInfo) (p : NetworkPolicyInfo)
    (networks : Networks) (s : w.State)
    → IsIptables w rules header show accepts
    → IsLister w rules listed
    → ListsPolicies w rules ns policies
    → AcceptsPeers accepts listed
    → AcceptsNetwork accepts w ln
    → listed ns (trim_space name) ≡ some ln
    → IsThere (rules s) genie_base_npc_chain
    → Ready w ns (policy_infos w (trim_space name) policies) (rules s)
    → policy_infos w (trim_space name) policies ≡ before ++ p ∷ after
    → p.networks ≡ some networks
    → PeersOnly after
    → ((handle_logical_network_add w name ns s).0 ≡ ok tt)
      × (rules (handle_logical_network_add w name ns s).1 (network_chain w ln)
          ≡ some (jump (chain_of_policy w ns p.name) ∷ reject ∷ []))
last_policy_only w {rules} {listed = listed} ns name ln policies before after p networks s laws
      lister lists peers_accepted accepted found base ready split e rest =
    let (done, left) =
      handle_logical_network_add_lem w ns name ln policies s laws lister lists peers_accepted
        accepted found base ready in
    (
      done,
      ap (λ r. r (network_chain w ln)) left
          ∙ ap
              (λ l.
                policies_added w listed ln ns (trim_space name) l (rules s) (network_chain w ln))
              split
          ∙ last_one w listed ln ns (trim_space name) before after p networks (rules s) e rest,
    )
