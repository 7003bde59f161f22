-- ===== src/Npc/NetworkHandlers/Deleted.antt =====
-- What `handleLogicalNetworkDelete` leaves in the filter table.
use mathlib.Core.Path.{fun_ext}
use cni_genie.Base.{
  Text, ◌≡◌, refl, ap, sym, ◌∙◌, false, Option, none, some, List, [], ◌∷◌, map, ok, wrap, wrap-ok,
  bind-ok, attempt-bind_ok, pure, contains, ◌==◌, eq_iff, Bool-cases, inl, inr, if◌then◌else◌,
  value,
}
use cni_genie.Types.{PolicyObject}
use cni_genie.Npc.World.{World, Error, ipt, at, delete_network_site}
use cni_genie.Npc.Chains.{filter_table, genie_base_npc_chain, delete_two, delete_network_chain}
use cni_genie.Npc.Chains.Iptables.{Rule, Rules, IsIptables, Accepts}
use cni_genie.Npc.Chains.Put.{put, Replaced-put}
use cni_genie.Npc.Chains.DeleteTwo.{drop_first, delete_two-drop_first}
use cni_genie.Npc.Chains.DeleteNetwork.{delete_network_chain_lem}
use cni_genie.Npc.Policies.{Networks, NetworkPolicyInfo, policy_infos, list_network_policies}
use cni_genie.Npc.NetworkHandlers.{
  remove_subnet, forget_policy, forget_policies, handle_logical_network_delete,
}
use cni_genie.Npc.Policies.Lister.{ListsPolicies, list_network_policies_lem}
use cni_genie.Npc.NetworkHandlers.Forgotten.{
  policy_forgotten, policies_forgotten, OnlyBase, forgotten-OnlyBase, forgotten-PeersReady,
  PeerReady, PeersReady,
}
use cni_genie.Npc.PolicyHandlers.Linked.{chain_of_network, chain_of_policy}

put-there :
    (r : Rules) (c : Text) (f : List Rule → List Rule) (us : List Rule)
    → r c ≡ some us
    → (d : Text) → put c f r d ≡ (if c == d then some (f us) else r d)
put-there r c f us h d = elim (Bool-cases (c == d)) [
  | inl k ↦ rw (k, ← (eq_iff c d).0 k, h) refl
  | inr k ↦ rw k refl
]

module _ (w : World) {rules : w.State → Rules} {header : Text → Text} {show : Text → Rule → Text}
    {accepts : Accepts} (laws : IsIptables w rules header show accepts) (subnet : Text) where
  remove_subnet_lem :
      (c : Text) (us : List Rule) (s : w.State)
      → rules s c ≡ some us
      → contains (header c) subnet ≡ false
      → let out = remove_subnet w c subnet (value (header c ∷ map (show c) us)) s in
        (out.0 ≡ ok tt) × (rules out.1 ≡ put c (drop_first 2 (show c) subnet) (rules s))
  unfolding remove_subnet delete_two
  remove_subnet_lem c us s h no_header =
      let (done, left) = delete_two-drop_first w laws c subnet [] us s h in
      rw no_header (done, Replaced-put (rules s) _ c (drop_first 2 (show c) subnet) us h left)

  module _ (ns name : Text)
      (no_header : contains (header genie_base_npc_chain) (chain_of_network w ns name)
        ≡ false) where
    abbrev net : Text
    net = chain_of_network w ns name

    forget_policy_lem :
        (info : NetworkPolicyInfo) (o : Option Networks) (s : w.State)
        → OnlyBase show net (rules s)
        → PeerReady header subnet (chain_of_policy w info.namespace info.name) o (rules s)
        → let out = forget_policy w net subnet info o s in
          (out.0 ≡ ok tt)
          × (rules out.1
              ≡ policy_forgotten show net subnet
                  (chain_of_policy w info.namespace info.name)
                  o
                  (rules s))
    unfolding forget_policy wrap
    forget_policy_lem info none s b ((us, h), clean) =
        let c = chain_of_policy w info.namespace info.name in
        let look = w.list filter_table c in
        let t = (look s).1 in
        let same = laws.list_rules c s in
        let (done, left) = remove_subnet_lem c us t (rw same h) clean in
        rw
          (attempt-bind_ok {F = Error} (wrap ipt look) (remove_subnet w c subnet) s _
            (wrap-ok ipt look s _ (laws.list c s h)))
          (done, left ∙ ap (put c (drop_first 2 (show c) subnet)) same)
    forget_policy_lem info (some m) s b h =
        let gone = delete_network_chain w net in
        let (done, left) =
          delete_network_chain_lem w laws net b.base s b.base_there no_header b.two b.others in
        (
          wrap-ok (at delete_network_site) gone s tt done,
          fun_ext λ d.
              left d
              ∙ sym (
                  ap (λ o. if net == d then none else o)
                    (put-there (rules s) genie_base_npc_chain
                      (drop_first 2 (show genie_base_npc_chain) net) b.base b.base_there d)),
        )

    forget_policies_lem :
        (infos : List NetworkPolicyInfo) (s : w.State)
        → OnlyBase show net (rules s)
        → PeersReady w header subnet infos (rules s)
        → let out = forget_policies w net subnet infos s in
          (out.0 ≡ ok tt) × (rules out.1 ≡ policies_forgotten show net subnet w infos (rules s))
    unfolding forget_policies pure
    forget_policies_lem [] s b h = (refl, refl)
    forget_policies_lem (info ∷ infos) s b (h, k) =
        let ms = info.namespace in
        let o = info.networks in
        let run = forget_policy w net subnet info o in
        let (done, left) = forget_policy_lem info o s b h in
        let t = (run s).1 in
        let b' : OnlyBase show net (rules t) =
          rw left (forgotten-OnlyBase w show subnet ns name ms info.name o (rules s) b) in
        let k' : PeersReady w header subnet infos (rules t) =
          rw left
            (forgotten-PeersReady w header show subnet ns name ms info.name o infos (rules s) k) in
        let (over, after) = forget_policies_lem infos t b' k' in
        rw (bind-ok run _ s tt done)
          (over, after ∙ ap (policies_forgotten show net subnet w infos) left)

-- If the base chain is there and no rule of any chain names the network's chain but the first two of
-- the base chain whose lines hold it, and each policy that `ListNetworkPolicies` returns for the
-- network as a peer has its chain: the handler for a deleted network succeeds. For a policy that
-- selects the network the network's chain is gone and the base chain is without these two rules; for
-- a policy that names it as a peer the policy's chain is without the first two rules whose lines hold
-- the network's subnet; the policies are gone through in their order, and every other chain is as it
-- was. The first lines of the listings hold neither the network's chain nor the subnet, the lister
-- of policies answers the same throughout, and the world's commands do what iptables documents.
pub handle_logical_network_delete_lem :
    (w : World) {rules : w.State → Rules} {header : Text → Text} {show : Text → Rule → Text}
    {accepts : Accepts} (ns name subnet : Text) (policies : List PolicyObject) (s : w.State)
    → IsIptables w rules header show accepts
    → ListsPolicies w rules ns policies
    → contains (header genie_base_npc_chain) (chain_of_network w ns name) ≡ false
    → OnlyBase show (chain_of_network w ns name) (rules s)
    → PeersReady w header subnet (policy_infos w name policies) (rules s)
    → let out = handle_logical_network_delete w name ns subnet s in
      (out.0 ≡ ok tt)
      × (rules out.1
          ≡ policies_forgotten show
              (chain_of_network w ns name)
              subnet
              w
              (policy_infos w name policies)
              (rules s))
unfolding handle_logical_network_delete
handle_logical_network_delete_lem w {rules} {show = show} ns name subnet policies s laws lists
      no_header only ready =
    let look = list_network_policies w name ns in
    let t = (look s).1 in
    let infos = policy_infos w name policies in
    let (read, same) = list_network_policies_lem w ns name policies s lists in
    let (done, left) =
      forget_policies_lem w laws subnet ns name no_header infos t (rw same only) (rw same ready) in
    rw (attempt-bind_ok {F = Error} look _ s infos read)
      (done, left ∙ ap (policies_forgotten show (chain_of_network w ns name) subnet w infos) same)
