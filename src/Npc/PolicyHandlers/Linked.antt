-- ===== src/Npc/PolicyHandlers/Linked.antt =====
-- What a policy that selects networks means for the filter table, as a change of its chains.
use cni_genie.Base.{
  Text, ◌≡◌, some, List, [], ◌∷◌, ◌++◌, trim_space, ◌==◌, if◌then◌else◌, Bool-cases, inl, inr, ◌⊎◌,
}
use cni_genie.Npc.World.{World}
use cni_genie.Npc.Chains.{
  genie_policy_prefix, genie_network_prefix, create_iptable_chain_name, jump,
}
use cni_genie.Npc.Chains.Iptables.{Rules}
use cni_genie.Npc.Chains.Put.{put, IsThere, on_top, put-IsThere}
use cni_genie.Npc.Policies.{Networks}
use cni_genie.Npc.PolicyHandlers.Peers.{Listed, with_peers}

-- One chain is there and empty, and the others are as they were.
abbrev pub cleared : Text → Rules → Rules
cleared c r d = if c == d then some [] else r d

module _ (w : World) where
  abbrev pub chain_of_network : Text → Text → Text
  chain_of_network ns name = create_iptable_chain_name w genie_network_prefix (name ++ ns)

  abbrev pub chain_of_policy : Text → Text → Text
  chain_of_policy ns name = create_iptable_chain_name w genie_policy_prefix (name ++ ns)

  -- A selected network's chain jumps to the policy's chain, which gets the rules of the peers.
  abbrev pub linked : Listed → Text → Text → Text × List Text → Rules → Rules
  linked listed ns chain (selector, peers) r =
      let name = trim_space selector in
      if name == []
      then r
      else put chain (with_peers listed ns peers)
          (put (chain_of_network ns name) (on_top (jump chain)) r)

  abbrev pub all_linked : Listed → Text → Text → Networks → Rules → Rules
  all_linked listed ns chain [] r = r
  all_linked listed ns chain (n ∷ networks) r =
      all_linked listed ns chain networks (linked listed ns chain n r)

  -- every network that is selected has its chain
  abbrev pub Built : Text → Networks → Rules → Type 0
  Built ns [] r = Unit
  Built ns ((selector, _) ∷ networks) r =
      ((trim_space selector ≡ []) ⊎ IsThere r (chain_of_network ns (trim_space selector)))
      × Built ns networks r

  -- the networks in the order in which `range` visits them
  abbrev pub visited : Networks → Networks
  visited [] = []
  visited (n ∷ networks) = w.range (n ∷ networks)

pub linked-IsThere :
    (w : World) (listed : Listed) (ns chain : Text) (n : Text × List Text) (r : Rules) (d : Text)
    → IsThere r d
    → IsThere (linked w listed ns chain n r) d
linked-IsThere w listed ns chain (selector, peers) r d h =
    elim (Bool-cases (trim_space selector == [])) [
      | inl e ↦ rw e h
      | inr e ↦
          let net = chain_of_network w ns (trim_space selector) in
          let top = on_top (jump chain) in
          rw e (
            put-IsThere chain d (with_peers listed ns peers) (put net top r)
              (put-IsThere net d top r h))
    ]

pub linked-Built :
    (w : World) (listed : Listed) (ns chain : Text) (n : Text × List Text) (networks : Networks)
    (r : Rules)
    → Built w ns networks r
    → Built w ns networks (linked w listed ns chain n r)
linked-Built w listed ns chain n [] r h = tt
linked-Built w listed ns chain n ((selector, peers) ∷ networks) r (inl e, h) =
    (inl e, linked-Built w listed ns chain n networks r h)
linked-Built w listed ns chain n ((selector, peers) ∷ networks) r (inr e, h) =
    (inr (linked-IsThere w listed ns chain n r _ e), linked-Built w listed ns chain n networks r h)
