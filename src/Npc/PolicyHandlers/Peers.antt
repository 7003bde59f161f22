-- ===== src/Npc/PolicyHandlers/Peers.antt =====
-- The rules for a policy's peers that `populatePolicyChain` adds to the policy's chain.
use cni_genie.Base.{
  Text, ◌≡◌, refl, ap, sym, ◌∙◌, Option, none, some, List, [], ◌∷◌, ok, err, wrap, wrap-ok, Cmd,
  attempt, ◌>>=◌, ◌>>◌, wrap-err, bind-ok, attempt-bind_ok, attempt-bind_err, pure, trim_space,
  GoResult, value,
}
use cni_genie.Types.{LogicalNetwork}
use cni_genie.Npc.World.{World, Error, ApiError, not_found, api, at, ipt, peer_rule_src}
use cni_genie.Npc.Chains.{filter_table, from_subnet, to_subnet}
use cni_genie.Npc.Chains.Iptables.{Rule, Rules, IsIptables, Accepts, add_unique}
use cni_genie.Npc.Chains.Put.{put, IsThere, put-IsThere, put-put, put-same, append_unique_lem}
use cni_genie.Npc.NetworkHandlers.{accept, insert_peer_rule, peer_rule_of}
use cni_genie.Npc.PolicyHandlers.{populate_peers}

abbrev pub Listed : Type 0
Listed = Text → Text → Option LogicalNetwork

abbrev pub got : Option LogicalNetwork → GoResult ApiError LogicalNetwork
got none = err not_found
got (some ln) = ok ln

-- The lister of logical networks finds those of `listed`, and leaves the filter table as it is.
pub record IsLister (w : World) (rules : w.State → Rules) (listed : Listed) : Type 0 where
  pub get :
      (ns name : Text) (s : w.State) → (w.get_logical_network ns name s).0 ≡ got (listed ns name)
  pub get_rules :
      (ns name : Text) (s : w.State) → rules (w.get_logical_network ns name s).1 ≡ rules s

-- iptables accepts the rules for the networks' subnets
abbrev pub AcceptsPeers : Accepts → Listed → Type 0
AcceptsPeers accepts listed =
    (ns name : Text) (ln : LogicalNetwork) (t : Rules)
    → listed ns name ≡ some ln
    → accepts t (from_subnet ln.sub_subnet accept) × accepts t (to_subnet ln.sub_subnet accept)

-- the rules that accept a network's traffic, each unless it is there
abbrev pub with_peer : Option LogicalNetwork → List Rule → List Rule
with_peer none us = us
with_peer (some ln) us =
    add_unique (to_subnet ln.sub_subnet accept) (add_unique (from_subnet ln.sub_subnet accept) us)

-- the rules of the peers that are listed, in their order
abbrev pub with_peers : Listed → Text → List Text → List Rule → List Rule
with_peers listed ns [] us = us
with_peers listed ns (p ∷ ps) us = with_peers listed ns ps (with_peer (listed ns (trim_space p)) us)

module _ (w : World) {rules : w.State → Rules} {header : Text → Text} {show : Text → Rule → Text}
    {accepts : Accepts} (laws : IsIptables w rules header show accepts) {listed : Listed}
    (lister : IsLister w rules listed) (peers_accepted : AcceptsPeers accepts listed) where
  insert_peer_rule_lem :
      (c ns name : Text) (ln : LogicalNetwork) (s : w.State)
      → listed ns name ≡ some ln
      → IsThere (rules s) c
      → ((insert_peer_rule w c ln.sub_subnet s).0 ≡ ok tt)
        × (rules (insert_peer_rule w c ln.sub_subnet s).1 ≡ put c (with_peer (some ln)) (rules s))
  unfolding insert_peer_rule wrap
  insert_peer_rule_lem c ns name ln s e (us, h) =
      let src = w.append_unique filter_table c (from_subnet ln.sub_subnet accept) in
      let dst = w.append_unique filter_table c (to_subnet ln.sub_subnet accept) in
      let t = (src s).1 in
      let ok_src = laws.append_unique c _ s h (peers_accepted ns name ln _ e).0 in
      let first = append_unique_lem w laws c _ s us h (peers_accepted ns name ln _ e).0 in
      let (vs, there) : IsThere (rules t) c = rw first (put-IsThere c c _ (rules s) (us, h)) in
      let ok_dst = laws.append_unique c _ t there (peers_accepted ns name ln _ e).1 in
      let second = append_unique_lem w laws c _ t vs there (peers_accepted ns name ln _ e).1 in
      rw (bind-ok (wrap (λ x. at peer_rule_src (ipt x)) src) _ s tt (wrap-ok _ src s tt ok_src))
        (wrap-ok _ dst t tt ok_dst, second ∙ ap (put c _) first ∙ put-put c _ _ (rules s))

  -- what is done with one peer's answer
  pub peer_rule_of_lem :
      (c ns name : Text) (ln : LogicalNetwork) (s : w.State)
      → listed ns name ≡ some ln
      → IsThere (rules s) c
      → ((peer_rule_of w c (value ln) s).0 ≡ ok tt)
        × (rules (peer_rule_of w c (value ln) s).1 ≡ put c (with_peer (some ln)) (rules s))
  unfolding peer_rule_of pure
  peer_rule_of_lem c ns name ln s e h =
      let (done, left) = insert_peer_rule_lem c ns name ln s e h in
      rw (attempt-bind_ok {F = Error} (insert_peer_rule w c ln.sub_subnet) _ s tt done) (refl, left)

  -- The lister is asked for one peer, and the rest of the loop runs.
  pub ask_peer_lem :
      (c ns name : Text) (rest : Cmd w.State Error (Unit {0})) (s : w.State)
      (o : Option LogicalNetwork)
      → listed ns name ≡ o
      → IsThere (rules s) c
      → let run = (do
        found ← attempt (wrap api (w.get_logical_network ns name))
        peer_rule_of w c found
        rest) in
        (t : w.State) × (run s ≡ rest t) × (rules t ≡ put c (with_peer o) (rules s))
  unfolding peer_rule_of wrap pure
  ask_peer_lem c ns name rest s none e h =
      let ask = w.get_logical_network ns name in
      let missing = wrap-err api ask s not_found (lister.get ns name s ∙ ap got e) in
      (
        (ask s).1,
        attempt-bind_err (wrap api ask) _ s _ missing ∙ bind-ok (pure tt) _ _ tt refl,
        lister.get_rules ns name s ∙ sym (put-same c (rules s)),
      )
  ask_peer_lem c ns name rest s (some ln) e h =
      let ask = w.get_logical_network ns name in
      let found = wrap-ok api ask s ln (lister.get ns name s ∙ ap got e) in
      let t = (ask s).1 in
      let same = lister.get_rules ns name s in
      let (done, left) = peer_rule_of_lem c ns name ln t e (rw same h) in
      (
        (peer_rule_of w c (value ln) t).1,
        attempt-bind_ok (wrap api ask) _ s ln found
            ∙ bind-ok (peer_rule_of w c (value ln)) _ t tt done,
        left ∙ ap (put c (with_peer (some ln))) same,
      )

  pub populate_peers_lem :
      (c ns : Text) (ps : List Text) (s : w.State)
      → IsThere (rules s) c
      → ((populate_peers w ns c ps s).0 ≡ ok tt)
        × (rules (populate_peers w ns c ps s).1 ≡ put c (with_peers listed ns ps) (rules s))
  unfolding populate_peers pure
  populate_peers_lem c ns [] s h = (refl, sym (put-same c (rules s)))
  populate_peers_lem c ns (p ∷ ps) s h =
      let rest = populate_peers w ns c ps in
      let (t, run, left) =
        ask_peer_lem c ns (trim_space p) rest s (listed ns (trim_space p)) refl h in
      let there : IsThere (rules t) c = rw left (put-IsThere c c _ (rules s) h) in
      let (done, after) = populate_peers_lem c ns ps t there in
      rw run (done, after ∙ ap (put c _) left ∙ put-put c _ _ (rules s))
