-- ===== src/Npc/Policies.antt =====
-- The annotation of a network policy and the policies that concern a logical network
-- (controllers/network-policy-controller/networkpolicycontroller.go).
pub mod Annotation
pub mod Listed
pub mod Lister
use cni_genie.Base.{
  Text, codes, Option, none, some, List, [], ◌∷◌, ◌++◌, GoMap, lookup, insert, or_empty, ◌==◌,
  contains, split, trim_space, if◌then◌else◌, Cmd, wrap, pure, ◌>>=◌,
}
use cni_genie.Types.{PolicyObject}
use cni_genie.Npc.World.{World, NetworkPolicy, Error, api}

abbrev pub genie_network_policy : Text
genie_network_policy = codes "genieNetworkPolicy"

abbrev pub Networks : Type 0
Networks = GoMap (List Text)

-- A nil map is `none`.
pub record NetworkPolicyInfo : Type 0 where
  pub name : Text
  pub namespace : Text
  pub networks : Option Networks

-- m[key], a nil slice for a missing key
abbrev pub or_nil : Option (List Text) → List Text
or_nil none = []
or_nil (some l) = l

-- m[key] of the annotations, which may be a nil map
abbrev pub annotation : Option (GoMap Text) → Text → Text
annotation none key = []
annotation (some m) key = or_empty (lookup key m)

-- the loop over the entries of the annotation
unfoldable pub collect : Networks → List NetworkPolicy → Networks
collect m [] = m
collect m (p ∷ ps) =
    collect
      (if p.network_selector == []
        then m
        else insert p.network_selector
            (or_nil (lookup p.network_selector m) ++ split p.peer_networks b',') m)
      ps

-- the peers that name the network, whatever the selector
unfoldable pub count_peer : Text → List Text → NetworkPolicyInfo → List NetworkPolicyInfo
count_peer lnw [] info = []
count_peer lnw (p ∷ ps) info =
    if lnw == trim_space p then info ∷ count_peer lnw ps info else count_peer lnw ps info

unfoldable pub count_peers : Text → Networks → NetworkPolicyInfo → List NetworkPolicyInfo
count_peers lnw [] info = []
count_peers lnw ((_, peers) ∷ m) info = count_peer lnw peers info ++ count_peers lnw m info

abbrev pub networks_of : Option Networks → Networks
networks_of none = []
networks_of (some m) = m

module _ (w : World) where
  open w use {State, unmarshal_policies, list_policies}

  -- `none` is an error of json.Unmarshal; the map is then nil
  unfoldable pub get_logical_networks_from_annotation : Text → Option Networks
  get_logical_networks_from_annotation text = elim (unmarshal_policies text) [
    | none ↦ none
    | some policies ↦ some (collect [] policies)
  ]

  -- one round of the loop of `ListNetworkPolicies`: what it appends for a policy
  unfoldable pub policy_info : Text → PolicyObject → List NetworkPolicyInfo
  policy_info lnw policy =
      let text = annotation policy.annotations genie_network_policy in
      let networks = get_logical_networks_from_annotation text in
      let info : NetworkPolicyInfo = record {
        name = policy.name;
        namespace = policy.namespace;
        networks = networks;
      } in
      let as_peer = count_peers lnw (networks_of networks) (record info { networks = none }) in
      let as_selector : List NetworkPolicyInfo = info ∷ [] in
      if text == []
      then []
      else if lnw == []
      then as_selector
      else if contains text lnw
      then elim (lookup lnw (networks_of networks)) [ some _ ↦ as_selector | none ↦ as_peer ]
      else []

  unfoldable pub policy_infos : Text → List PolicyObject → List NetworkPolicyInfo
  policy_infos lnw [] = []
  policy_infos lnw (p ∷ ps) = policy_info lnw p ++ policy_infos lnw ps

  unfoldable pub list_network_policies : Text → Text → Cmd State Error (List NetworkPolicyInfo)
  list_network_policies lnwname namespace = do
    policies ← wrap api (list_policies namespace)
    pure (policy_infos lnwname policies)
