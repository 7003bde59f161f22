-- ===== src/Npc/NetworkHandlers/Added.antt =====
-- What `handleLogicalNetworkAdd` leaves in the filter table.
use mathlib.Core.Path.{fun_ext}
use cni_genie.Base.{
  Text, ◌≡◌, ◌≢◌, refl, ap, sym, ◌∙◌, Option, none, some, List, [], ◌∷◌, ◌++◌, ok, wrap, wrap-ok,
  bind-ok, attempt-bind_ok, pure, trim_space, ◌==◌, lookup, eq_iff, eq_false_of_ne, Bool-cases, inl,
  inr, if◌then◌else◌,
}
use cni_genie.Types.{LogicalNetwork, PolicyObject}
use cni_genie.Npc.World.{World, Error, api, at, get_network, add_policy_rule}
use cni_genie.Npc.Chains.{
  genie_base_npc_chain, jump, to_subnet, from_subnet, insert_rule, add_network_chain,
}
use cni_genie.Npc.Chains.Iptables.{Rule, Rules, IsIptables, Accepts, JumpsTo, add_unique}
use cni_genie.Npc.Chains.Put.{put, IsThere, on_top, put-IsThere, put-put, put-same, insert_rule_lem}
use cni_genie.Npc.Chains.NetworkChain.{
  reject, network_chain, network-ne-base, add_network_chain_lem,
}
use cni_genie.Npc.Policies.{
  Networks, NetworkPolicyInfo, or_nil, policy_infos, list_network_policies,
}
use cni_genie.Npc.Policies.Lister.{ListsPolicies, list_network_policies_lem}
use cni_genie.Npc.NetworkHandlers.{
  add_peers, add_policy, add_policies, peer_rule_of, handle_logical_network_add,
}
use cni_genie.Npc.NetworkHandlers.Linked.{
  filled, not_blank, chain_added, policy_added, policies_added, Ready, policy_added-IsThere,
  chain_added-IsThere, own_chain-IsThere, policy_added-Ready,
}
use cni_genie.Npc.PolicyHandlers.Peers.{
  Listed, IsLister, AcceptsPeers, with_peers, peer_rule_of_lem, ask_peer_lem, got,
}
use cni_genie.Npc.PolicyHandlers.Linked.{chain_of_policy}

-- iptables accepts the reject rule, and a jump wherever its chain is there: from any chain, and for
-- the network's subnet.
pub record AcceptsNetwork (accepts : Accepts) (w : World) (ln : LogicalNetwork) : Type 0 where
  pub reject_rule : (t : Rules) → accepts t reject
  pub jumps : (c : Text) → JumpsTo accepts c (jump c)
  pub jump_to : JumpsTo accepts (network_chain w ln) (to_subnet ln.sub_subnet (network_chain w ln))
  pub jump_from :
      JumpsTo accepts (network_chain w ln) (from_subnet ln.sub_subnet (network_chain w ln))

pub put-filled :
    (r : Rules) (base c : Text) (f : List Rule → List Rule) (us vs : List Rule)
    → c ≢ base
    → r base ≡ some us
    → (d : Text)
    → put base f (filled c vs r) d
      ≡ (if base == d then some (f us) else if c == d then some vs else r d)
put-filled r base c f us vs ne h d = elim (Bool-cases (base == d)) [
  | inl k ↦ rw (k, ← (eq_iff base d).0 k, eq_false_of_ne c base ne, h) refl
  | inr k ↦ rw k refl
]

module _ (w : World) {rules : w.State → Rules} {header : Text → Text} {show : Text → Rule → Text}
    {accepts : Accepts} (laws : IsIptables w rules header show accepts) {listed : Listed}
    (lister : IsLister w rules listed) (peers_accepted : AcceptsPeers accepts listed) where
  add_peers_lem :
      (c ns : Text) (ps : List Text) (s : w.State)
      → IsThere (rules s) c
      → ((add_peers w ns c ps s).0 ≡ ok tt)
        × (rules (add_peers w ns c ps s).1 ≡ put c (with_peers listed ns (not_blank ps)) (rules s))
  unfolding add_peers pure
  add_peers_lem c ns [] s h = (refl, sym (put-same c (rules s)))
  add_peers_lem c ns (p ∷ ps) s h = elim (Bool-cases (trim_space p == [])) [
    | inl e ↦ rw e (add_peers_lem c ns ps s h)
    | inr e ↦
        let rest = add_peers w ns c ps in
        let (t, run, left) =
          ask_peer_lem w laws lister peers_accepted c ns (trim_space p) rest s
            (listed ns (trim_space p)) refl h in
        let there : IsThere (rules t) c = rw left (put-IsThere c c _ (rules s) h) in
        let (done, after) = add_peers_lem c ns ps t there in
        rw (e, run) (done, after ∙ ap (put c _) left ∙ put-put c _ _ (rules s))
  ]

module _ (w : World) {rules : w.State → Rules} {header : Text → Text} {show : Text → Rule → Text}
    {accepts : Accepts} (laws : IsIptables w rules header show accepts) (ln : LogicalNetwork)
    (accepted : AcceptsNetwork accepts w ln) where
  chain_added_lem :
      (s : w.State)
      → IsThere (rules s) genie_base_npc_chain
      → ((add_network_chain w ln s).0 ≡ ok (network_chain w ln))
        × (rules (add_network_chain w ln s).1 ≡ chain_added w ln (rules s))
  chain_added_lem s (us, h) =
      let chain = network_chain w ln in
      let (done, left) =
        add_network_chain_lem w laws ln us s h accepted.reject_rule accepted.jump_to
          accepted.jump_from in
      (
        done,
        fun_ext λ d.
            left d
            ∙ sym (
                put-filled (rules s) genie_base_npc_chain chain
                  (λ vs.
                    add_unique (from_subnet ln.sub_subnet chain)
                      (add_unique (to_subnet ln.sub_subnet chain) vs))
                  us (reject ∷ []) (network-ne-base w (ln.name ++ ln.namespace)) h d),
      )

module _ (w : World) {rules : w.State → Rules} {header : Text → Text} {show : Text → Rule → Text}
    {accepts : Accepts} (laws : IsIptables w rules header show accepts) {listed : Listed}
    (lister : IsLister w rules listed) (peers_accepted : AcceptsPeers accepts listed)
    (ln : LogicalNetwork) (accepted : AcceptsNetwork accepts w ln) (ns name : Text)
    (found : listed ns name ≡ some ln) where
  abbrev added_to : Text → Option Networks → Rules → Rules
  added_to = policy_added w listed ln ns name

  add_policy_lem :
      (c : Text) (o : Option Networks) (s : w.State)
      → IsThere (rules s) genie_base_npc_chain
      → IsThere (rules s) c
      → ((add_policy w ln name ns c o s).0 ≡ ok tt)
        × (rules (add_policy w ln name ns c o s).1 ≡ added_to c o (rules s))
  unfolding add_policy peer_rule_of wrap
  add_policy_lem c none s base h =
      peer_rule_of_lem w laws lister peers_accepted c ns name ln s found h
  add_policy_lem c (some networks) s base h =
      let chain = network_chain w ln in
      let (made, built) = chain_added_lem w laws ln accepted s base in
      let t = (add_network_chain w ln s).1 in
      let there : IsThere (rules t) c = rw built (chain_added-IsThere w ln (rules s) c h) in
      let (vs, own) : IsThere (rules t) chain = rw built (own_chain-IsThere w ln (rules s)) in
      let (done, top) =
        insert_rule_lem w laws chain (jump c) t vs own
          (accepted.jumps c (rules t) there.0 there.1) in
      let u = (insert_rule w chain 1 (jump c) t).1 in
      let jumped = top ∙ ap (put chain (on_top (jump c))) built in
      let still : IsThere (rules u) c = rw jumped (
        put-IsThere chain c (on_top (jump c)) (chain_added w ln (rules s))
          (chain_added-IsThere w ln (rules s) c h)) in
      let (over, left) =
        add_peers_lem w laws lister peers_accepted c ns (or_nil (lookup name networks)) u still in
      let jump_in = insert_rule w chain 1 (jump c) in
      let enter = wrap {E = Error} (at add_policy_rule) jump_in in
      let entered : (enter t).0 ≡ ok tt = wrap-ok (at add_policy_rule) jump_in t tt done in
      rw (attempt-bind_ok {F = Error} (add_network_chain w ln) _ s chain made)
        (rw (bind-ok enter _ t tt entered) (over, left ∙ ap (put c _) jumped))

  add_policies_lem :
      (infos : List NetworkPolicyInfo) (s : w.State)
      → IsThere (rules s) genie_base_npc_chain
      → Ready w ns infos (rules s)
      → ((add_policies w ln name ns infos s).0 ≡ ok tt)
        × (rules (add_policies w ln name ns infos s).1
            ≡ policies_added w listed ln ns name infos (rules s))
  unfolding add_policies pure
  add_policies_lem [] s base h = (refl, refl)
  add_policies_lem (info ∷ infos) s base (h, k) =
      let c = chain_of_policy w ns info.name in
      let run = add_policy w ln name ns c info.networks in
      let (done, left) = add_policy_lem c info.networks s base h in
      let t = (run s).1 in
      let base' : IsThere (rules t) genie_base_npc_chain = rw left (
        policy_added-IsThere w listed ln ns name c info.networks (rules s) genie_base_npc_chain
          base) in
      let ready : Ready w ns infos (rules t) =
        rw left (policy_added-Ready w listed ln ns name c info.networks infos (rules s) k) in
      let (over, after) = add_policies_lem infos t base' ready in
      rw (bind-ok run _ s tt done)
        (over, after ∙ ap (policies_added w listed ln ns name infos) left)

-- If the lister has the network, under its name without the spaces around it, the base chain is
-- there, and so is the chain of every policy that `ListNetworkPolicies` returns for it: the handler
-- for an added network succeeds, and goes through these policies in their order. A policy that names
-- the network as a peer gets the two rules that accept the network's traffic into its chain. For a
-- policy that selects it the network's chain is made anew with the reject rule alone, whatever it
-- held, with the jump to the policy's chain on top; the base chain gets the two rules that send the
-- network's traffic there unless it has them; and the policy's chain gets the rules for its peers
-- that are listed, blank names left out. Every other chain is as it was. The listers answer the same
-- throughout, the world's commands do what iptables documents, and iptables accepts these rules.
pub handle_logical_network_add_lem :
    (w : World) {rules : w.State → Rules} {header : Text → Text} {show : Text → Rule → Text}
    {accepts : Accepts} {listed : Listed} (ns name : Text) (ln : LogicalNetwork)
    (policies : List PolicyObject) (s : w.State)
    → IsIptables w rules header show accepts
    → IsLister w rules listed
    → ListsPolicies w rules ns policies
    → AcceptsPeers accepts listed
    → AcceptsNetwork accepts w ln
    → listed ns (trim_space name) ≡ some ln
    → IsThere (rules s) genie_base_npc_chain
    → Ready w ns (policy_infos w (trim_space name) policies) (rules s)
    → ((handle_logical_network_add w name ns s).0 ≡ ok tt)
      × (rules (handle_logical_network_add w name ns s).1
          ≡ policies_added w listed ln ns
              (trim_space name)
              (policy_infos w (trim_space name) policies)
              (rules s))
unfolding handle_logical_network_add wrap
handle_logical_network_add_lem w {rules} {listed = listed} ns name ln policies s laws lister lists
      peers_accepted accepted found base ready =
    let nm = trim_space name in
    let infos = policy_infos w nm policies in
    let ask = w.get_logical_network ns nm in
    let got_it : (ask s).0 ≡ ok ln = lister.get ns nm s ∙ ap got found in
    let t = (ask s).1 in
    let look = list_network_policies w nm ns in
    let u = (look t).1 in
    let (read, kept) = list_network_policies_lem w ns nm policies t lists in
    let same : rules u ≡ rules s = kept ∙ lister.get_rules ns nm s in
    let (done, left) =
      add_policies_lem w laws lister peers_accepted ln accepted ns nm found infos u (rw same base)
        (rw same ready) in
    rw (bind-ok (wrap (λ e. at get_network (api e)) ask) _ s ln (wrap-ok _ ask s ln got_it)) (
      rw (attempt-bind_ok {F = Error} look _ t infos read)
        (done, left ∙ ap (policies_added w listed ln ns nm infos) same))
