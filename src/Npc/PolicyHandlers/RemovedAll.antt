-- ===== src/Npc/PolicyHandlers/RemovedAll.antt =====
-- What `handleNetworkPolicyDelete` leaves in the filter table, for all networks of the annotation.
use mathlib.Core.Path.{fun_ext}
use cni_genie.Base.{
  Text, ◌≡◌, ◌≢◌, refl, ap, ◌∙◌, true, false, some, List, [], ◌∷◌, ◌++◌, map, ok, wrap, wrap-ok,
  bind-run, attempt-run, lift, pure, contains, trim_space, arith,
}
use cni_genie.Npc.World.{World, Error, at, delete_policy_chain}
use cni_genie.Npc.Chains.{
  filter_table, genie_policy_prefix, delete_network_chain_rule, delete_iptable_chain,
}
use cni_genie.Npc.Chains.Iptables.{Rule, Rules, Replaced, IsIptables, Accepts, mentions}
use cni_genie.Npc.Chains.Put.{put, Replaced-put}
use cni_genie.Npc.Chains.DeleteTwo.{drop_first}
use cni_genie.Npc.Chains.DeleteNetwork.{Removed, delete_iptable_chain_lem}
use cni_genie.Npc.Chains.DeletePolicyRule.{some_line, delete_network_chain_rule_lem}
use cni_genie.Npc.Policies.{Networks, get_logical_networks_from_annotation}
use cni_genie.Npc.NetworkHandlers.Forgotten.{without}
use cni_genie.Npc.PolicyHandlers.{
  annotation_result, networks_result, unlink_networks, handle_network_policy_delete,
}
use cni_genie.Npc.PolicyHandlers.Linked.{chain_of_network, chain_of_policy}

module _ (header : Text → Text) (show : Text → Rule → Text) (chain : Text) where
  -- Exactly one line of the listing holds the policy's chain, and some other line a policy's.
  pub record OneJump (net : Text) (us : List Rule) : Type 0 where
    pub pre : List Rule
    pub rule : Rule
    pub post : List Rule
    pub split : us ≡ pre ++ rule ∷ post
    pub before : some_line chain (header net ∷ map (show net) pre) ≡ false
    pub this : contains (show net rule) chain ≡ true
    pub after : some_line chain (map (show net) post) ≡ false
    pub more : some_line genie_policy_prefix (header net ∷ map (show net) (pre ++ post)) ≡ true

  -- the chain without the rule for the policy
  abbrev pub unlinked : Text → Rules → Rules
  unlinked net = put net (drop_first 1 (show net) chain)

  abbrev pub all_unlinked : World → Text → Networks → Rules → Rules
  all_unlinked w ns [] r = r
  all_unlinked w ns ((lnw, _) ∷ networks) r =
      all_unlinked w ns networks (unlinked (chain_of_network w ns (trim_space lnw)) r)

  -- the chain of each network, when its turn comes, has one rule for the policy
  abbrev pub EachJumps : World → Text → Networks → Rules → Type 0
  EachJumps w ns [] r = Unit
  EachJumps w ns ((lnw, _) ∷ networks) r =
      let net = chain_of_network w ns (trim_space lnw) in
      ((us : List Rule) × (r net ≡ some us) × OneJump net us)
      × EachJumps w ns networks (unlinked net r)

  drop_first-one :
      (net : Text) (pre : List Rule) (rule : Rule) (post : List Rule)
      → some_line chain (map (show net) pre) ≡ false
      → contains (show net rule) chain ≡ true
      → drop_first 1 (show net) chain (pre ++ rule ∷ post) ≡ pre ++ post
  unfolding drop_first some_line
  drop_first-one net [] rule post h this = rw this refl
  drop_first-one net (u ∷ pre) rule post h this =
      let quiet : contains (show net u) chain ≡ false = ground (arith, h) in
      let rest : some_line chain (map (show net) pre) ≡ false = ground (arith, h) in
      rw quiet (ap (λ l. u ∷ l) (drop_first-one net pre rule post rest this))

  quiet_rules :
      (net : Text) (pre : List Rule)
      → some_line chain (header net ∷ map (show net) pre) ≡ false
      → some_line chain (map (show net) pre) ≡ false
  unfolding some_line
  quiet_rules net pre h = ground (arith, h)

module _ (w : World) {rules : w.State → Rules} {header : Text → Text} {show : Text → Rule → Text}
    {accepts : Accepts} (laws : IsIptables w rules header show accepts) (ns chain : Text) where
  pub unlink_lem :
      (net : Text) (us : List Rule) (s : w.State)
      → rules s net ≡ some us
      → OneJump header show chain net us
      → (t : w.State) × (delete_network_chain_rule w net chain s ≡ (ok tt, t))
        × (rules t ≡ unlinked header show chain net (rules s))
  unfolding pure
  unlink_lem net us s h j =
      let there : rules s net ≡ some (j.pre ++ j.rule ∷ j.post) = h ∙ ap some (j.split) in
      let (t, change, run) =
        delete_network_chain_rule_lem w laws net chain j.pre j.rule j.post s there j.before j.this
          j.after in
      let dropped : drop_first 1 (show net) chain us ≡ j.pre ++ j.post =
        ap (drop_first 1 (show net) chain) (j.split)
        ∙ drop_first-one header show chain net j.pre j.rule j.post
            (quiet_rules header show chain net j.pre j.before) j.this in
      (
        t,
        run ∙ rw (j.more) refl,
        Replaced-put (rules s) (rules t) net (drop_first 1 (show net) chain) us h
            (rw dropped change),
      )

  unlink_networks_lem :
      (networks : Networks) (s : w.State)
      → EachJumps header show chain w ns networks (rules s)
      → (t : w.State) × (unlink_networks w ns chain networks s ≡ (ok tt, t))
        × (rules t ≡ all_unlinked header show chain w ns networks (rules s))
  unfolding unlink_networks pure
  unlink_networks_lem [] s h = (s, refl, refl)
  unlink_networks_lem ((lnw, peers) ∷ networks) s ((us, there, jumps), rest) =
      let net = chain_of_network w ns (trim_space lnw) in
      let (t, run, left) = unlink_lem net us s there jumps in
      let rest' : EachJumps header show chain w ns networks (rules t) = rw left rest in
      let (u, over, after) = unlink_networks_lem networks t rest' in
      (
        u,
        attempt-run {F = Error} (delete_network_chain_rule w net chain) _ s t tt run ∙ over,
        after ∙ ap (all_unlinked header show chain w ns networks) left,
      )

two_steps :
    (r0 r1 r2 : Rules) (c : Text)
    → Replaced r0 c [] r1
    → Removed r1 c r2
    → (d : Text) → r2 d ≡ without c r0 d
two_steps r0 r1 r2 c a b d = ground (arith, a d, b d)

-- If the annotation that the key carries is read as a map of networks, the chain of each of them,
-- when its turn comes, has exactly one line with the policy's chain and some line of another policy,
-- and in the tables without these rules no other chain names the policy's chain: the handler for a
-- deleted policy succeeds; each network's chain is without its rule for the policy, the policy's
-- chain is gone, and every other chain is as it was. The world's commands do what iptables
-- documents.
pub handle_network_policy_delete-all_unlinked :
    (w : World) {rules : w.State → Rules} {header : Text → Text} {show : Text → Rule → Text}
    {accepts : Accepts} (name ns text : Text) (networks : Networks) (s : w.State)
    → IsIptables w rules header show accepts
    → get_logical_networks_from_annotation w text ≡ some networks
    → EachJumps header show (chain_of_policy w ns name) w ns (w.range networks) (rules s)
    → ((d : Text) (vs : List Rule)
        → chain_of_policy w ns name ≢ d
        → all_unlinked header show (chain_of_policy w ns name) w ns (w.range networks) (rules s) d
          ≡ some vs
        → mentions (chain_of_policy w ns name) vs ≡ false)
    → let out = handle_network_policy_delete w name ns text s in
      let chain = chain_of_policy w ns name in
      (out.0 ≡ ok tt)
      × (rules out.1
          ≡ without chain (all_unlinked header show chain w ns (w.range networks) (rules s)))
unfolding handle_network_policy_delete annotation_result networks_result lift wrap
handle_network_policy_delete-all_unlinked w {rules} {header} {show} name ns text networks s laws
      read jumps clean =
    let chain = chain_of_policy w ns name in
    let (t, run, left) = unlink_networks_lem w laws ns chain (w.range networks) s jumps in
    let clean' : (d : Text) (vs : List Rule)
        → chain ≢ d
        → rules t d ≡ some vs
        → mentions chain vs ≡ false =
      rw left clean in
    let gone = delete_iptable_chain_lem w laws chain t clean' in
    let known : annotation_result w text s ≡ (ok networks, s) =
      ap (λ o. (networks_result o, s)) read in
    rw (bind-run (annotation_result w text) _ s s networks known) (
      rw (bind-run (unlink_networks w ns chain (w.range networks)) _ s t tt run) (
        wrap-ok (at delete_policy_chain) (delete_iptable_chain w filter_table chain) t tt gone.0,
        fun_ext (two_steps (rules t) gone.1.0 _ chain gone.1.1 gone.1.2) ∙ ap (without chain) left,
      ))
