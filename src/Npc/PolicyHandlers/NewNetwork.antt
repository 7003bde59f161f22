-- ===== src/Npc/PolicyHandlers/NewNetwork.antt =====
-- A network without a chain, which `populatePolicyChain` passes to the networks' own handler.
use cni_genie.Base.{
  Text, ◌≡◌, refl, ap, ◌∙◌, false, Option, none, some, List, ok, err, wrap, wrap-err, bind-err,
  attempt-bind_ok, attempt-bind_err, pure, attempt, ◌>>=◌, trim_space,
}
use cni_genie.Types.{LogicalNetwork, PolicyObject}
use cni_genie.Npc.World.{World, Error, exit, not_found, api, at, get_network}
use cni_genie.Npc.Chains.{filter_table, genie_base_npc_chain, exists_chain, exists_of}
use cni_genie.Npc.Chains.Iptables.{Rule, Rules, IsIptables, Accepts}
use cni_genie.Npc.Chains.Put.{put, IsThere}
use cni_genie.Npc.Policies.{policy_infos}
use cni_genie.Npc.Policies.Lister.{ListsPolicies}
use cni_genie.Npc.NetworkHandlers.{handle_logical_network_add}
use cni_genie.Npc.NetworkHandlers.Linked.{policies_added}
use cni_genie.Npc.NetworkHandlers.Added.{AcceptsNetwork, handle_logical_network_add_lem}
use cni_genie.Npc.PolicyHandlers.{peers_after}
use cni_genie.Npc.PolicyHandlers.Peers.{Listed, IsLister, AcceptsPeers, populate_peers_lem, got}
use cni_genie.Npc.PolicyHandlers.Chained.{PoliciesThere, policy_infos-Ready}
use cni_genie.Npc.PolicyHandlers.Selected.{network_built, policies_added-IsThere}

-- The listing of a chain that is not there fails with exit status 1.
abbrev pub ListsMissing : (w : World) → (w.State → Rules) → Type 0
ListsMissing w rules =
    (c : Text) (s : w.State) → rules s c ≡ none → (w.list filter_table c s).0 ≡ err (exit 1)

-- iptables accepts the rules for every network that the lister has.
abbrev pub AcceptsNetworks : Accepts → World → Listed → Text → Type 0
AcceptsNetworks accepts w listed ns =
    (name : Text) (ln : LogicalNetwork) → listed ns name ≡ some ln → AcceptsNetwork accepts w ln

module _ (w : World) {rules : w.State → Rules} {header : Text → Text} {show : Text → Rule → Text}
    {accepts : Accepts} (laws : IsIptables w rules header show accepts) {listed : Listed}
    (lister : IsLister w rules listed) (peers_accepted : AcceptsPeers accepts listed)
    (ns chain : Text) (policies : List PolicyObject) (lists : ListsPolicies w rules ns policies)
    (missing : ListsMissing w rules) (accepted : AcceptsNetworks accepts w listed ns) where
  pub exists_missing :
      (c : Text) (s : w.State)
      → rules s c ≡ none
      → ((exists_chain w c s).0 ≡ ok false) × (rules (exists_chain w c s).1 ≡ rules s)
  unfolding exists_chain exists_of pure
  exists_missing c s h =
      rw
        (attempt-bind_err {F = Error} (w.list filter_table c) (exists_of w) s (exit 1)
          (missing c s h))
        (refl, laws.list_rules c s)

  not_listed_lem :
      (name : Text) (t : w.State)
      → trim_space name ≡ name
      → listed ns name ≡ none
      → ((handle_logical_network_add w name ns t).0 ≡ err (at get_network (api not_found)))
        × (rules (handle_logical_network_add w name ns t).1 ≡ rules t)
  unfolding handle_logical_network_add wrap
  not_listed_lem name t trimmed e =
      let ask = w.get_logical_network ns name in
      let none_there : (ask t).0 ≡ err not_found = lister.get ns name t ∙ ap got e in
      let failed = wrap-err (λ e. at get_network (api e)) ask t not_found none_there in
      rw (trimmed, bind-err (wrap (λ e. at get_network (api e)) ask) _ t _ failed)
        (refl, lister.get_rules ns name t)

  -- the network's own handler, then the rules for the peers
  pub built_lem :
      (name : Text) (peers : List Text) (o : Option LogicalNetwork) (t : w.State)
      → trim_space name ≡ name
      → listed ns name ≡ o
      → IsThere (rules t) genie_base_npc_chain
      → IsThere (rules t) chain
      → PoliciesThere w ns (rules t) policies
      → let out =
          (do
            linked ← attempt {F = Error} (handle_logical_network_add w name ns)
            peers_after w ns chain peers linked)
            t in
        (out.0 ≡ ok tt)
        × (rules out.1 ≡ network_built w listed policies ns chain name peers o (rules t))
  unfolding peers_after pure
  built_lem name peers none t trimmed e base there known =
      let (failed, same) = not_listed_lem name t trimmed e in
      rw
        (attempt-bind_err {F = Error} (handle_logical_network_add w name ns)
          (peers_after w ns chain peers) t _ failed)
        (refl, same)
  built_lem name peers (some ln) t trimmed e base there known =
      let (done, left) =
        handle_logical_network_add_lem w ns name ln policies t laws lister lists peers_accepted
          (accepted name ln e) (rw trimmed e) base
          (rw trimmed (policy_infos-Ready w ns (rules t) name policies known)) in
      let u = (handle_logical_network_add w name ns t).1 in
      let infos = policy_infos w name policies in
      let added : rules u ≡ policies_added w listed ln ns name infos (rules t) =
        rw trimmed at left in
      let still : IsThere (rules u) chain =
        rw added (policies_added-IsThere w listed ln ns name infos (rules t) chain there) in
      let (over, after) = populate_peers_lem w laws lister peers_accepted chain ns peers u still in
      rw (attempt-bind_ok {F = Error} (handle_logical_network_add w name ns) _ t tt done)
        (over, after ∙ ap (put chain _) added)
