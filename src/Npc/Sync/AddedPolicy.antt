-- ===== src/Npc/Sync/AddedPolicy.antt =====
-- From the informer's event for an added policy, through Run, to the filter table.
use mathlib.Core.Path.{fun_ext}
use cni_genie.Base.{
  Text, codes, true, some, List, [], ◌∷◌, map, ok, pure, attempt, wrap, wrap-ok, bind-ok,
  attempt-bind_ok, Cmd, ◌>>◌, ◌==◌, eq_refl, ◌≡◌, refl, ap, sym, ◌∙◌, inl, inr, Bool-cases,
}
use cni_genie.Types.{PolicyObject}
use cni_genie.Npc.World.{World, Error, at, create_base}
use cni_genie.Npc.Chains.{forward_chain, genie_base_npc_chain, jump, create_base_chain}
use cni_genie.Npc.Chains.Iptables.{Rule, Rules, IsIptables, Accepts, JumpsTo}
use cni_genie.Npc.Chains.Put.{put, IsThere, on_top, put-IsThere}
use cni_genie.Npc.Chains.BaseChain.{base-ne-forward, create_base_chain_lem}
use cni_genie.Npc.Policies.{
  genie_network_policy, Networks, annotation, get_logical_networks_from_annotation,
}
use cni_genie.Npc.Policies.Lister.{ListsPolicies}
use cni_genie.Npc.NetworkHandlers.Linked.{filled, filled-IsThere}
use cni_genie.Npc.NetworkHandlers.Added.{put-filled}
use cni_genie.Npc.PolicyHandlers.{handle_network_policy_add}
use cni_genie.Npc.PolicyHandlers.Peers.{Listed, IsLister, AcceptsPeers}
use cni_genie.Npc.PolicyHandlers.Linked.{cleared, chain_of_policy, visited}
use cni_genie.Npc.PolicyHandlers.Chained.{PoliciesThere}
use cni_genie.Npc.PolicyHandlers.Selected.{all_selected}
use cni_genie.Npc.PolicyHandlers.NewNetwork.{ListsMissing, AcceptsNetworks}
use cni_genie.Npc.PolicyHandlers.AddedAll.{handle_network_policy_add-all_selected}
use cni_genie.Npc.Events.{add_policy}
use cni_genie.Npc.Events.Delivery.{PolicyEncodes, add_policy-handled}
use cni_genie.Npc.Sync.{sync_handler, worker, run}

-- The base chain is there and empty, with the jump to it on top of the forward chain.
abbrev pub base_made : Rules → Rules
base_made r =
    put forward_chain (on_top (jump genie_base_npc_chain)) (filled genie_base_npc_chain [] r)

-- The lister of policies has the policy, and leaves the filter table as it is.
pub record GetsPolicy (w : World) (rules : w.State → Rules) (np : PolicyObject) : Type 0 where
  pub get : (s : w.State) → (w.get_network_policy np.namespace np.name s).0 ≡ ok np
  pub get_rules : (s : w.State) → rules (w.get_network_policy np.namespace np.name s).1 ≡ rules s

base_made-IsThere : (r : Rules) (d : Text) → IsThere r d → IsThere (base_made r) d
base_made-IsThere r d h =
    put-IsThere forward_chain d (on_top (jump genie_base_npc_chain))
      (filled genie_base_npc_chain [] r) (filled-IsThere genie_base_npc_chain d [] r h)

cleared_base-IsThere :
    (c : Text) (r : Rules) (d : Text)
    → IsThere (cleared c r) d
    → IsThere (cleared c (base_made r)) d
cleared_base-IsThere c r d (us, h) = elim (Bool-cases (c == d)) [
  | inl k ↦ ([], rw k refl)
  | inr k ↦ (let e : r d ≡ some us = rw k at h in rw k (base_made-IsThere r d (us, e)))
]

PoliciesThere-made :
    (w : World) (ns c : Text) (r : Rules) (ps : List PolicyObject)
    → PoliciesThere w ns (cleared c r) ps
    → PoliciesThere w ns (cleared c (base_made r)) ps
PoliciesThere-made w ns c r [] h = tt
PoliciesThere-made w ns c r (p ∷ ps) (inl e, hs) = (inl e, PoliciesThere-made w ns c r ps hs)
PoliciesThere-made w ns c r (p ∷ ps) (inr h, hs) = (
  inr (cleared_base-IsThere c r (chain_of_policy w ns p.name) h),
  PoliciesThere-made w ns c r ps hs,
)

base-IsThere : (c : Text) (r : Rules) → IsThere (cleared c (base_made r)) genie_base_npc_chain
base-IsThere c r =
    let made =
      put-IsThere forward_chain genie_base_npc_chain (on_top (jump genie_base_npc_chain))
        (filled genie_base_npc_chain [] r) ([], rw (eq_refl genie_base_npc_chain) refl) in
    elim (Bool-cases (c == genie_base_npc_chain)) [ inl k ↦ ([], rw k refl) | inr k ↦ rw k made ]

module _ (w : World) where
  worker_one :
      (keys : List Text) (m : Cmd w.State Error (Unit {0})) (s : w.State)
      → map (sync_handler w) keys ≡ m ∷ []
      → worker w keys s ≡ (attempt {F = Error} m >> pure tt) s
  unfolding worker
  worker_one [] m s h = cc
  worker_one (k ∷ []) m s h =
      let e : sync_handler w k ≡ m = cc in ap (λ n. (attempt {F = Error} n >> pure tt) s) e
  worker_one (k ∷ l ∷ keys) m s h = cc

  run_one :
      (keys : List Text) (m : Cmd w.State Error (Unit {0})) (s : w.State)
      → map (sync_handler w) keys ≡ m ∷ []
      → (create_base_chain w s).0 ≡ ok tt
      → (m (create_base_chain w s).1).0 ≡ ok tt
      → run w true keys s ≡ (ok tt, (m (create_base_chain w s).1).1)
  unfolding run wrap pure
  run_one keys m s h made done =
      let make = wrap (at create_base) (create_base_chain w) in
      let t = (create_base_chain w s).1 in
      bind-ok make _ s tt (wrap-ok (at create_base) (create_base_chain w) s tt made)
      ∙ worker_one keys m t h
      ∙ attempt-bind_ok {F = Error} m (λ _. pure tt) t tt done

module _ (w : World) {rules : w.State → Rules} {header : Text → Text} {show : Text → Rule → Text}
    {accepts : Accepts} (laws : IsIptables w rules header show accepts) where
  base_made_lem :
      (us : List Rule) (s : w.State)
      → (w.new s).0 ≡ ok tt
      → rules s forward_chain ≡ some us
      → JumpsTo accepts genie_base_npc_chain (jump genie_base_npc_chain)
      → ((create_base_chain w s).0 ≡ ok tt)
        × (rules (create_base_chain w s).1 ≡ base_made (rules s))
  base_made_lem us s started h jumps =
      let (done, left) = create_base_chain_lem w laws us s started h jumps in
      (
        done,
        fun_ext λ d.
            left d
            ∙ sym (
                put-filled (rules s) forward_chain genie_base_npc_chain
                  (on_top (jump genie_base_npc_chain)) us [] base-ne-forward h d),
      )

-- If the informer delivers an added policy and its key is the queue's only one, `Run` returns
-- without an error, for a policy that the lister has and whose annotation is read as a map of
-- networks. The forward chain has the jump to the base chain, the base chain was made anew, and on
-- the tables with it the policy is added: its own chain is made anew, each selected network with a
-- chain gets the jump to it, each selected network without one is added as by its own handler, and
-- the policy's chain gets the rules for its listed peers. The caches are filled, iptables starts, the
-- forward chain is there, and so is, before, the chain of every other policy of the namespace with an
-- annotation; the key survives encoding and decoding, the listers answer the same throughout, the
-- world's commands do what iptables documents, and iptables accepts the rules for the listed
-- networks' subnets and the jumps to chains that are there.
pub run-added_policy :
    (w : World) {rules : w.State → Rules} {header : Text → Text} {show : Text → Rule → Text}
    {accepts : Accepts} {listed : Listed} (np : PolicyObject) (networks : Networks)
    (policies : List PolicyObject) (us : List Rule) (s : w.State)
    → IsIptables w rules header show accepts
    → IsLister w rules listed
    → AcceptsPeers accepts listed
    → ListsPolicies w rules np.namespace policies
    → ListsMissing w rules
    → AcceptsNetworks accepts w listed np.namespace
    → ((c : Text) → JumpsTo accepts c (jump c))
    → GetsPolicy w rules np
    → get_logical_networks_from_annotation w (annotation np.annotations genie_network_policy)
      ≡ some networks
    → PolicyEncodes w np (codes "ADD") []
    → (w.new s).0 ≡ ok tt
    → rules s forward_chain ≡ some us
    → PoliciesThere w np.namespace
        (cleared (chain_of_policy w np.namespace np.name) (rules s))
        policies
    → ((run w true (add_policy w np) s).0 ≡ ok tt)
      × (rules (run w true (add_policy w np) s).1
          ≡ all_selected w listed policies np.namespace
              (chain_of_policy w np.namespace np.name)
              (visited w networks)
              (cleared (chain_of_policy w np.namespace np.name) (base_made (rules s))))
run-added_policy w {rules} {listed = listed} np networks policies us s laws lister peers_accepted
      lists missing accepted jumps gets read encodes started forward known =
    let ns = np.namespace in
    let chain = chain_of_policy w ns np.name in
    let t = (create_base_chain w s).1 in
    let (made, left) = base_made_lem w laws us s started forward (jumps genie_base_npc_chain) in
    let base : IsThere (cleared chain (rules t)) genie_base_npc_chain =
      rw left (base-IsThere chain (rules s)) in
    let known' : PoliciesThere w ns (cleared chain (rules t)) policies =
      rw left (PoliciesThere-made w ns chain (rules s) policies known) in
    let (done, after) =
      handle_network_policy_add-all_selected w ns np.name t np networks policies laws lister
        peers_accepted lists missing accepted (jumps chain) (gets.get t) (gets.get_rules t) read
        base known' in
    let e =
      run_one w (add_policy w np) (handle_network_policy_add w np.name ns) s
        (add_policy-handled w np encodes) made done in
    (
      ap (λ r. r.0) e,
      ap (λ r. rules r.1) e
          ∙ after
          ∙ ap (λ r. all_selected w listed policies ns chain (visited w networks) (cleared chain r))
              left,
    )
