-- ===== src/Npc/PolicyHandlers/Unselected.antt =====
-- What `handleNetworkPolicyUpdate` leaves in the filter table where the policy selects no network any
-- more.
use cni_genie.Base.{
  Text, ◌≡◌, refl, ap, ◌∙◌, true, false, some, List, [], ◌∷◌, map, ok, wrap, wrap-ok, bind-ok,
  attempt-run, lift, pure, contains, split, ◌==◌, eq_iff, if◌then◌else◌, arith, Bool-cases, inl,
  inr, ◌⊎◌,
}
use cni_genie.Types.{PolicyObject}
use cni_genie.Npc.World.{
  World, Error, api, at, ipt, get_policy, annotation_of_policy, reset_policy_chain, list_base,
}
use cni_genie.Npc.Chains.{
  filter_table, genie_base_npc_chain, genie_network_prefix, genie_policy_prefix, add_policy_chain,
  delete_network_chain_rule,
}
use cni_genie.Npc.Chains.Iptables.{Rule, Rules, IsIptables, Accepts}
use cni_genie.Npc.Chains.Put.{Replaced-put}
use cni_genie.Npc.Chains.DeleteTwo.{drop_first}
use cni_genie.Npc.Chains.DeletePolicyRule.{some_line, delete_network_chain_rule-none}
use cni_genie.Npc.Policies.{genie_network_policy, annotation, get_logical_networks_from_annotation}
use cni_genie.Npc.PolicyHandlers.{
  network_word, seen, annotation_result, networks_result, unlink_policy, repopulate,
  handle_network_policy_update,
}
use cni_genie.Npc.PolicyHandlers.Linked.{cleared, chain_of_policy}
use cni_genie.Npc.PolicyHandlers.Cleared.{add_policy_chain_lem}
use cni_genie.Npc.PolicyHandlers.RemovedAll.{OneJump, unlinked, unlink_lem}

-- The networks' chains that the lines name, each once, in the order of the lines: of a line's words
-- the last one with the prefix of the networks' chains.
abbrev pub chains_named : List Text → List Text → List Text
chains_named [] visited = []
chains_named (l ∷ lines) visited =
    let net = network_word [] (split l b' ') in
    let skip = chains_named lines visited in
    let visit = net ∷ chains_named lines (net ∷ visited) in
    if contains l genie_network_prefix then (if seen net visited then skip else visit) else skip

module _ (header : Text → Text) (show : Text → Rule → Text) (chain : Text) where
  -- No line of the listing holds the policy's chain, and some line a policy's.
  pub record NoJump (net : Text) (us : List Rule) : Type 0 where
    pub quiet : some_line chain (header net ∷ map (show net) us) ≡ false
    pub more : some_line genie_policy_prefix (header net ∷ map (show net) us) ≡ true

  abbrev pub chains_unlinked : List Text → Rules → Rules
  chains_unlinked [] r = r
  chains_unlinked (net ∷ nets) r = chains_unlinked nets (unlinked header show chain net r)

  -- the chain of each network, when its turn comes, has at most one rule for the policy
  abbrev pub EachAtMostOne : List Text → Rules → Type 0
  EachAtMostOne [] r = Unit
  EachAtMostOne (net ∷ nets) r =
      ((us : List Rule) × (r net ≡ some us) × (OneJump header show chain net us ⊎ NoJump net us))
      × EachAtMostOne nets (unlinked header show chain net r)

  drop_first-quiet :
      (net : Text) (us : List Rule)
      → some_line chain (map (show net) us) ≡ false
      → drop_first 1 (show net) chain us ≡ us
  unfolding drop_first some_line
  drop_first-quiet net [] h = refl
  drop_first-quiet net (u ∷ us) h =
      let this : contains (show net u) chain ≡ false = ground (arith, h) in
      let rest : some_line chain (map (show net) us) ≡ false = ground (arith, h) in
      rw this (ap (λ l. u ∷ l) (drop_first-quiet net us rest))

  unlinked-quiet :
      (net : Text) (us : List Rule) (r : Rules)
      → r net ≡ some us
      → NoJump net us
      → r ≡ unlinked header show chain net r
  unfolding some_line
  unlinked-quiet net us r h j =
      let quiet_rules : some_line chain (map (show net) us) ≡ false = ground (arith, j.quiet) in
      let same = drop_first-quiet net us quiet_rules in
      Replaced-put r r net (drop_first 1 (show net) chain) us h λ d. elim (Bool-cases (net == d)) [
        | inl k ↦ rw (k, same, ← (eq_iff net d).0 k) h
        | inr k ↦ rw k refl
      ]

module _ (w : World) {rules : w.State → Rules} {header : Text → Text} {show : Text → Rule → Text}
    {accepts : Accepts} (laws : IsIptables w rules header show accepts) (ns chain : Text) where
  visit_lem :
      (net : Text) (us : List Rule) (s : w.State)
      → rules s net ≡ some us
      → OneJump header show chain net us ⊎ NoJump header show chain net us
      → (t : w.State) × (delete_network_chain_rule w net chain s ≡ (ok tt, t))
        × (rules t ≡ unlinked header show chain net (rules s))
  visit_lem net us s h (inl j) = unlink_lem w laws ns chain net us s h j
  visit_lem net us s h (inr j) =
      let (t, same, run) = delete_network_chain_rule-none w laws net chain us s h j.quiet j.more in
      (t, run, same ∙ unlinked-quiet header show chain net us (rules s) h j)

  unlink_policy_lem :
      (lines visited : List Text) (s : w.State)
      → EachAtMostOne header show chain (chains_named lines visited) (rules s)
      → (t : w.State) × (unlink_policy w chain lines visited s ≡ (ok tt, t))
        × (rules t ≡ chains_unlinked header show chain (chains_named lines visited) (rules s))
  unfolding unlink_policy pure
  unlink_policy_lem [] visited s h = (s, refl, refl)
  unlink_policy_lem (l ∷ lines) visited s h =
      let net = network_word [] (split l b' ') in
      elim (Bool-cases (contains l genie_network_prefix)) [
        | inr e ↦ (let rest = rw e at h in rw e (unlink_policy_lem lines visited s rest))
        | inl e ↦ elim (Bool-cases (seen net visited)) [
          | inl k ↦
              (let rest = rw (e, k) at h in rw (e, k) (unlink_policy_lem lines visited s rest))
          | inr k ↦
              (let ((us, there, jump), rest) = rw (e, k) at h in
                let (t, run, left) = visit_lem net us s there jump in
                let nets = chains_named lines (net ∷ visited) in
                let rest' : EachAtMostOne header show chain nets (rules t) = rw left rest in
                let (u, over, after) = unlink_policy_lem lines (net ∷ visited) t rest' in
                rw (e, k)
                  (
                    u,
                    attempt-run {F = Error} (delete_network_chain_rule w net chain) _ s t tt run
                        ∙ over,
                    after ∙ ap (chains_unlinked header show chain nets) left,
                  ))
        ]
      ]

-- If the lister has the policy and its annotation is read as a map of no networks, the base chain is
-- there, and the chain of each network that a line of its listing names has, when its turn comes, at
-- most one line with the policy's chain and some line of another policy: the handler for an updated
-- policy succeeds; the policy's chain is there and empty, the chains of these networks are without
-- their rule for the policy, each visited once, and every other chain is as it was. The world's
-- commands do what iptables documents.
pub handle_network_policy_update-chains_unlinked :
    (w : World) {rules : w.State → Rules} {header : Text → Text} {show : Text → Rule → Text}
    {accepts : Accepts} (ns name : Text) (s : w.State) (policy : PolicyObject) (us : List Rule)
    → IsIptables w rules header show accepts
    → (w.get_network_policy ns name s).0 ≡ ok policy
    → rules (w.get_network_policy ns name s).1 ≡ rules s
    → get_logical_networks_from_annotation w (annotation policy.annotations genie_network_policy)
      ≡ some []
    → cleared (chain_of_policy w ns name) (rules s) genie_base_npc_chain ≡ some us
    → EachAtMostOne header show
        (chain_of_policy w ns name)
        (chains_named (header genie_base_npc_chain ∷ map (show genie_base_npc_chain) us) [])
        (cleared (chain_of_policy w ns name) (rules s))
    → ((handle_network_policy_update w name ns s).0 ≡ ok tt)
      × (rules (handle_network_policy_update w name ns s).1
          ≡ chains_unlinked header show
              (chain_of_policy w ns name)
              (chains_named (header genie_base_npc_chain ∷ map (show genie_base_npc_chain) us) [])
              (cleared (chain_of_policy w ns name) (rules s)))
unfolding handle_network_policy_update annotation_result networks_result repopulate lift wrap
handle_network_policy_update-chains_unlinked w {rules} {header} {show} ns name s policy us laws
      found same read base each =
    let chain = chain_of_policy w ns name in
    let ask = w.get_network_policy ns name in
    let t = (ask s).1 in
    let (made, clear) = add_policy_chain_lem w laws ns name t in
    let u = (add_policy_chain w name ns t).1 in
    let left : rules u ≡ cleared chain (rules s) = clear ∙ ap (cleared chain) same in
    let lines = header genie_base_npc_chain ∷ map (show genie_base_npc_chain) us in
    let look = w.list filter_table genie_base_npc_chain in
    let listed : (look u).0 ≡ ok lines = laws.list genie_base_npc_chain u (rw left base) in
    let kept : rules (look u).1 ≡ cleared chain (rules s) =
      laws.list_rules genie_base_npc_chain u ∙ left in
    let each' : EachAtMostOne header show chain (chains_named lines []) (rules (look u).1) =
      rw kept each in
    let (v, run, after) = unlink_policy_lem w laws ns chain lines [] (look u).1 each' in
    rw (bind-ok (wrap (λ e. at get_policy (api e)) ask) _ s policy (wrap-ok _ ask s policy found)) (
      rw
        (bind-ok
          (wrap (at annotation_of_policy)
            (annotation_result w (annotation policy.annotations genie_network_policy)))
          _ t [] (rw read refl))
        (rw
          (bind-ok (wrap (at reset_policy_chain) (add_policy_chain w name ns)) _ t chain
            (wrap-ok _ (add_policy_chain w name ns) t chain made))
          (rw
            (
              bind-ok (wrap (λ e. at list_base (ipt e)) look) _ u lines
                  (wrap-ok _ look u lines listed),
              run,
            )
            (refl, after ∙ ap (chains_unlinked header show chain (chains_named lines [])) kept))))
