-- ===== src/Npc/PolicyHandlers/Selected.antt =====
-- What a policy means for the filter table when the networks that it selects need not have their
-- chains yet, as a change of its chains.
use cni_genie.Base.{
  Text, Option, none, some, List, [], ◌∷◌, trim_space, ◌==◌, if◌then◌else◌, Bool-cases, inl, inr,
}
use cni_genie.Types.{LogicalNetwork, PolicyObject}
use cni_genie.Npc.World.{World}
use cni_genie.Npc.Chains.{jump}
use cni_genie.Npc.Chains.Iptables.{Rule, Rules}
use cni_genie.Npc.Chains.Put.{put, IsThere, on_top, put-IsThere}
use cni_genie.Npc.Policies.{Networks, NetworkPolicyInfo, policy_infos}
use cni_genie.Npc.NetworkHandlers.Linked.{policies_added, policy_added, policy_added-IsThere}
use cni_genie.Npc.PolicyHandlers.Peers.{Listed, with_peers}
use cni_genie.Npc.PolicyHandlers.Linked.{chain_of_network, chain_of_policy}
use cni_genie.Npc.PolicyHandlers.Chained.{PoliciesThere}

module _ (w : World) (listed : Listed) (policies : List PolicyObject) (ns chain : Text) where
  -- A network without a chain is added as by its own handler, for all its policies; nothing happens
  -- for a network that the lister does not have.
  abbrev pub network_built : Text → List Text → Option LogicalNetwork → Rules → Rules
  network_built name peers none r = r
  network_built name peers (some ln) r =
      put chain (with_peers listed ns peers)
        (policies_added w listed ln ns name (policy_infos w name policies) r)

  -- A network's chain that is there gets the jump to the policy's chain.
  abbrev pub network_selected : Text → List Text → Option (List Rule) → Rules → Rules
  network_selected name peers none r = network_built name peers (listed ns name) r
  network_selected name peers (some _) r =
      put chain (with_peers listed ns peers)
        (put (chain_of_network w ns name) (on_top (jump chain)) r)

  abbrev pub selected : Text → List Text → Rules → Rules
  selected selector peers r =
      let name = trim_space selector in
      if name == [] then r else network_selected name peers (r (chain_of_network w ns name)) r

  abbrev pub all_selected : Networks → Rules → Rules
  all_selected [] r = r
  all_selected ((selector, peers) ∷ networks) r = all_selected networks (selected selector peers r)

pub policies_added-IsThere :
    (w : World) (listed : Listed) (ln : LogicalNetwork) (ns name : Text)
    (infos : List NetworkPolicyInfo) (r : Rules) (d : Text)
    → IsThere r d
    → IsThere (policies_added w listed ln ns name infos r) d
policies_added-IsThere w listed ln ns name [] r d h = h
policies_added-IsThere w listed ln ns name (i ∷ infos) r d h =
    let c = chain_of_policy w ns i.name in
    policies_added-IsThere w listed ln ns name infos
      (policy_added w listed ln ns name c i.networks r) d
      (policy_added-IsThere w listed ln ns name c i.networks r d h)

module _ (w : World) (listed : Listed) (policies : List PolicyObject) (ns chain : Text) where
  built-IsThere :
      (name : Text) (peers : List Text) (o : Option LogicalNetwork) (r : Rules) (d : Text)
      → IsThere r d
      → IsThere (network_built w listed policies ns chain name peers o r) d
  built-IsThere name peers none r d h = h
  built-IsThere name peers (some ln) r d h =
      let infos = policy_infos w name policies in
      put-IsThere chain d (with_peers listed ns peers) (policies_added w listed ln ns name infos r)
        (policies_added-IsThere w listed ln ns name infos r d h)

  network_selected-IsThere :
      (name : Text) (peers : List Text) (o : Option (List Rule)) (r : Rules) (d : Text)
      → IsThere r d
      → IsThere (network_selected w listed policies ns chain name peers o r) d
  network_selected-IsThere name peers none r d h = built-IsThere name peers (listed ns name) r d h
  network_selected-IsThere name peers (some _) r d h =
      let net = chain_of_network w ns name in
      put-IsThere chain d (with_peers listed ns peers) (put net (on_top (jump chain)) r)
        (put-IsThere net d (on_top (jump chain)) r h)

  pub selected-IsThere :
      (selector : Text) (peers : List Text) (r : Rules) (d : Text)
      → IsThere r d
      → IsThere (selected w listed policies ns chain selector peers r) d
  selected-IsThere selector peers r d h =
      let name = trim_space selector in
      elim (Bool-cases (name == [])) [
        | inl e ↦ rw e h
        | inr e ↦ rw e (network_selected-IsThere name peers (r (chain_of_network w ns name)) r d h)
      ]

  pub selected-PoliciesThere :
      (selector : Text) (peers : List Text) (ps : List PolicyObject) (r : Rules)
      → PoliciesThere w ns r ps
      → PoliciesThere w ns (selected w listed policies ns chain selector peers r) ps
  selected-PoliciesThere selector peers [] r h = tt
  selected-PoliciesThere selector peers (p ∷ ps) r (inl e, hs) =
      (inl e, selected-PoliciesThere selector peers ps r hs)
  selected-PoliciesThere selector peers (p ∷ ps) r (inr h, hs) = (
    inr (selected-IsThere selector peers r (chain_of_policy w ns p.name) h),
    selected-PoliciesThere selector peers ps r hs,
  )
