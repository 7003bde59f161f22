-- ===== src/Npc/PolicyHandlers/Chained.antt =====
-- The chains of the policies that `ListNetworkPolicies` returns for a network.
use cni_genie.Base.{
  Text, ◌≡◌, Bool, true, false, Option, none, some, List, [], ◌∷◌, ◌++◌, trim_space, ◌==◌, eq_refl,
  lookup, contains, if◌then◌else◌, inl, inr, ◌⊎◌,
}
use cni_genie.Types.{PolicyObject}
use cni_genie.Npc.World.{World}
use cni_genie.Npc.Chains.Iptables.{Rules}
use cni_genie.Npc.Chains.Put.{IsThere}
use cni_genie.Npc.Policies.{
  genie_network_policy, Networks, NetworkPolicyInfo, annotation, count_peer, count_peers,
  networks_of, policy_info, policy_infos, get_logical_networks_from_annotation,
}
use cni_genie.Npc.NetworkHandlers.Linked.{Ready}
use cni_genie.Npc.PolicyHandlers.Linked.{chain_of_policy}

module _ (w : World) (ns : Text) (r : Rules) where
  -- every policy with an annotation has its chain
  abbrev pub PoliciesThere : List PolicyObject → Type 0
  PoliciesThere [] = Unit
  PoliciesThere (p ∷ ps) =
      ((annotation p.annotations genie_network_policy ≡ [])
        ⊎ IsThere r (chain_of_policy w ns p.name))
      × PoliciesThere ps

  Ready-append :
      (is js : List NetworkPolicyInfo) → Ready w ns is r → Ready w ns js r → Ready w ns (is ++ js) r
  Ready-append [] js h k = k
  Ready-append (i ∷ is) js (h, hs) k = (h, Ready-append is js hs k)

  Ready-if :
      (b : Bool) (is js : List NetworkPolicyInfo)
      → Ready w ns is r
      → Ready w ns js r
      → Ready w ns (if b then is else js) r
  Ready-if true is js h k = h
  Ready-if false is js h k = k

  count_peer-Ready :
      (lnw : Text) (ps : List Text) (info : NetworkPolicyInfo)
      → IsThere r (chain_of_policy w ns info.name)
      → Ready w ns (count_peer lnw ps info) r
  unfolding count_peer
  count_peer-Ready lnw [] info h = tt
  count_peer-Ready lnw (p ∷ ps) info h =
      let rest = count_peer-Ready lnw ps info h in
      Ready-if (lnw == trim_space p) (info ∷ count_peer lnw ps info) (count_peer lnw ps info)
        (h, rest) rest

  count_peers-Ready :
      (lnw : Text) (m : Networks) (info : NetworkPolicyInfo)
      → IsThere r (chain_of_policy w ns info.name)
      → Ready w ns (count_peers lnw m info) r
  unfolding count_peers
  count_peers-Ready lnw [] info h = tt
  count_peers-Ready lnw ((k, peers) ∷ m) info h =
      Ready-append (count_peer lnw peers info) (count_peers lnw m info)
        (count_peer-Ready lnw peers info h) (count_peers-Ready lnw m info h)

  chosen-Ready :
      (o : Option (List Text)) (is js : List NetworkPolicyInfo)
      → Ready w ns is r
      → Ready w ns js r
      → Ready w ns (elim o [ some _ ↦ is | none ↦ js ]) r
  chosen-Ready none is js h k = k
  chosen-Ready (some _) is js h k = h

  policy_info-Ready :
      (lnw : Text) (p : PolicyObject)
      → ((annotation p.annotations genie_network_policy ≡ [])
          ⊎ IsThere r (chain_of_policy w ns p.name))
      → Ready w ns (policy_info w lnw p) r
  unfolding policy_info
  policy_info-Ready lnw p (inl e) = rw (e, eq_refl []) tt
  policy_info-Ready lnw p (inr h) =
      let text = annotation p.annotations genie_network_policy in
      let networks = get_logical_networks_from_annotation w text in
      let info : NetworkPolicyInfo = record {
        name = p.name;
        namespace = p.namespace;
        networks = networks;
      } in
      let named = count_peers lnw (networks_of networks) (record info { networks = none }) in
      let chosen : List NetworkPolicyInfo = elim (lookup lnw (networks_of networks)) [
        | some _ ↦ info ∷ []
        | none ↦ named
      ] in
      Ready-if (text == []) [] _ tt (
        Ready-if (lnw == []) (info ∷ []) _ (h, tt)
          (Ready-if (contains text lnw) chosen []
            (chosen-Ready (lookup lnw (networks_of networks)) (info ∷ []) named (h, tt)
              (count_peers-Ready lnw (networks_of networks) (record info { networks = none }) h))
            tt))

  pub policy_infos-Ready :
      (lnw : Text) (ps : List PolicyObject)
      → PoliciesThere ps
      → Ready w ns (policy_infos w lnw ps) r
  unfolding policy_infos
  policy_infos-Ready lnw [] h = tt
  policy_infos-Ready lnw (p ∷ ps) (h, hs) =
      Ready-append (policy_info w lnw p) (policy_infos w lnw ps) (policy_info-Ready lnw p h)
        (policy_infos-Ready lnw ps hs)
