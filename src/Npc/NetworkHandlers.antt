-- ===== src/Npc/NetworkHandlers.antt =====
-- The handlers for logical networks of
-- controllers/network-policy-controller/networkpolicycontroller.go. What the source
-- only logs is dropped; where it logs an error and goes on, so does the model.
pub mod Linked
pub mod Added
pub mod Updated
pub mod LastPolicy
pub mod Forgotten
pub mod Deleted
use cni_genie.Base.{
  Text, codes, ℕ, zero, suc, Option, none, some, List, [], ◌∷◌, ◌++◌, lookup, eqb, if◌then◌else◌,
  ◌==◌, contains, trim_space, itoa, Cmd, pure, wrap, attempt, Returned, value, error, ◌>>=◌, ◌>>◌,
}
use cni_genie.Types.{LogicalNetwork}
use cni_genie.Npc.World.{
  World, Error, ipt, api, at, list_base, get_network, add_policy_rule, peer_rule_src, peer_rule_dst,
  delete_base_rule, insert_base_rule, delete_network_site,
}
use cni_genie.Npc.Chains.{
  genie_base_npc_chain, filter_table, genie_policy_prefix, genie_network_prefix, jump, to_subnet,
  from_subnet, create_iptable_chain_name, add_network_chain, delete_two, delete_network_chain,
  insert_rule,
}
use cni_genie.Npc.Policies.{Networks, NetworkPolicyInfo, or_nil, list_network_policies}

abbrev pub accept : Text
accept = codes "ACCEPT"

-- an error that is only logged leaves no policies
abbrev pub infos_of : Returned Error (List NetworkPolicyInfo) → List NetworkPolicyInfo
infos_of (value l) = l
infos_of (error _) = []

abbrev pub chain_of : Returned Error Text → Text
chain_of (value t) = t
chain_of (error _) = []

module _ (w : World) where
  open w use {
    State, list, insert, append_unique, delete, get_logical_network, get_network_policy, range,
  }

  abbrev pub M : Type 0 → Type 0
  M A = Cmd State Error A

  -- `getCidrFromNetwork`, which has no caller
  unfoldable pub get_cidr_from_network : Text → Text → M Text
  get_cidr_from_network name namespace = do
    ln ← wrap api (get_logical_network namespace name)
    pure ln.sub_subnet

  unfoldable pub insert_peer_rule : Text → Text → M (Unit {0})
  insert_peer_rule chain subnet = do
    wrap (λ e. at peer_rule_src (ipt e))
        (append_unique filter_table chain (from_subnet subnet accept))
    wrap (λ e. at peer_rule_dst (ipt e))
        (append_unique filter_table chain (to_subnet subnet accept))

  -- the peer rule of one network, if the lister has it; `error` is passed over
  unfoldable pub peer_rule_of : Text → Returned Error LogicalNetwork → M (Unit {0})
  peer_rule_of chain (error _) = pure tt
  peer_rule_of chain (value l) = do
    attempt {F = Error} (insert_peer_rule chain l.sub_subnet)
    pure tt

  -- the loop over the peers of `handleLogicalNetworkAdd`
  unfoldable pub add_peers : Text → Text → List Text → M (Unit {0})
  add_peers namespace chain [] = pure tt
  add_peers namespace chain (p ∷ ps) =
      let rest = add_peers namespace chain ps in
      let peer = trim_space p in
      if peer == [] then rest else do
        found ← attempt (wrap api (get_logical_network namespace peer))
        peer_rule_of chain found
        rest

  -- one round of the loop over the policies of `handleLogicalNetworkAdd`
  unfoldable pub add_policy : LogicalNetwork → Text → Text → Text → Option Networks → M (Unit {0})
  add_policy ln name namespace chain none = do
    attempt {F = Error} (insert_peer_rule chain ln.sub_subnet)
    pure tt
  add_policy ln name namespace chain (some networks) = do
    added ← attempt {F = Error} (add_network_chain w ln)
    wrap (at add_policy_rule) (insert_rule w (chain_of added) 1 (jump chain))
    add_peers namespace chain (or_nil (lookup name networks))

  unfoldable pub add_policies : LogicalNetwork → Text → Text → List NetworkPolicyInfo → M (Unit {0})
  add_policies ln name namespace [] = pure tt
  add_policies ln name namespace (p ∷ ps) = do
    let chain = create_iptable_chain_name w genie_policy_prefix (p.name ++ namespace)
    add_policy ln name namespace chain p.networks
    add_policies ln name namespace ps

  unfoldable pub handle_logical_network_add : Text → Text → M (Unit {0})
  handle_logical_network_add name' namespace = do
    let name = trim_space name'
    ln ← wrap (λ e. at get_network (api e)) (get_logical_network namespace name)
    infos ← attempt {F = Error} (list_network_policies w name namespace)
    add_policies ln name namespace (infos_of infos)

  -- the rule that replaces the first, then the second rule of the network in the base chain
  abbrev pub base_rule_at : ℕ → Text → Text → List Text
  base_rule_at zero subnet chain = to_subnet subnet chain
  base_rule_at (suc _) subnet chain = from_subnet subnet chain

  -- the loop of `handleLogicalNetworkUpdate`
  unfoldable pub replace_base_rules : Text → Text → List Text → ℕ → ℕ → M (Unit {0})
  replace_base_rules subnet chain [] pos i = pure tt
  replace_base_rules subnet chain (rule ∷ rules) pos i =
      let skip = replace_base_rules subnet chain rules (suc pos) i in
      let again = replace_base_rules subnet chain rules (suc pos) (suc i) in
      if contains rule chain
      then (do
        wrap (λ e. at delete_base_rule (ipt e))
            (delete filter_table genie_base_npc_chain (itoa i ∷ []))
        wrap (λ e. at insert_base_rule (ipt e))
            (insert filter_table genie_base_npc_chain pos (base_rule_at i subnet chain))
        if eqb (suc i) 2 then pure tt else again)
      else skip

  unfoldable pub handle_logical_network_update : Text → Text → M (Unit {0})
  handle_logical_network_update name namespace = do
    ln ← wrap (λ e. at get_network (api e)) (get_logical_network namespace name)
    let chain = create_iptable_chain_name w genie_network_prefix (name ++ namespace)
    rules ← wrap (λ e. at list_base (ipt e)) (list filter_table genie_base_npc_chain)
    replace_base_rules ln.sub_subnet chain rules 0 0

  -- the rules for the subnet in the chain of a policy that names the network as a peer
  unfoldable pub remove_subnet : Text → Text → Returned Error (List Text) → M (Unit {0})
  remove_subnet chain subnet (error _) = pure tt
  remove_subnet chain subnet (value rules) = delete_two w chain subnet rules 0 0

  -- one round of the loop of `handleLogicalNetworkDelete`
  unfoldable pub forget_policy : Text → Text → NetworkPolicyInfo → Option Networks → M (Unit {0})
  forget_policy ln_chain subnet info (some _) =
      wrap (at delete_network_site) (delete_network_chain w ln_chain)
  forget_policy ln_chain subnet info none = do
    let chain = create_iptable_chain_name w genie_policy_prefix (info.name ++ info.namespace)
    rules ← attempt {F = Error} (wrap ipt (list filter_table chain))
    remove_subnet chain subnet rules

  unfoldable pub forget_policies : Text → Text → List NetworkPolicyInfo → M (Unit {0})
  forget_policies ln_chain subnet [] = pure tt
  forget_policies ln_chain subnet (p ∷ ps) = do
    forget_policy ln_chain subnet p p.networks
    forget_policies ln_chain subnet ps

  unfoldable pub handle_logical_network_delete : Text → Text → Text → M (Unit {0})
  handle_logical_network_delete name namespace subnet = do
    infos ← attempt {F = Error} (list_network_policies w name namespace)
    let chain = create_iptable_chain_name w genie_network_prefix (name ++ namespace)
    forget_policies chain subnet (infos_of infos)
