-- ===== src/Npc/Frame/Networks.antt =====
-- The invariant rules of Npc/Frame.antt through the handlers for logical networks.
use cni_genie.Base.{
  Text, ℕ, Option, none, some, List, [], ◌∷◌, Keeps, Keeps-wrap, Keeps-pure, keeps_rules, Returned,
  value, error, refl, ◌==◌, trim_space, Keeps-if, Keeps-bind_of, Gives, Gives-pure, Gives-bind,
  OnValue, Gives-attempt, Keeps-bind, ◌⊎◌, inl, inr, ◌≡◌, zero, suc,
}
use cni_genie.Npc.Chains.{add_network_chain, genie_base_npc_chain}
use cni_genie.Types.{LogicalNetwork}
use cni_genie.Npc.World.{World, Error}
use cni_genie.Npc.Policies.{Networks, NetworkPolicyInfo, list_network_policies}
use cni_genie.Npc.NetworkHandlers.{
  insert_peer_rule, peer_rule_of, add_peers, add_policy, add_policies, handle_logical_network_add,
  replace_base_rules, handle_logical_network_update, remove_subnet, forget_policy, forget_policies,
  handle_logical_network_delete, chain_of, base_rule_at,
}
use cni_genie.Npc.Frame.{
  IsGenie, IsPolicy, IsNetwork, Permitted, to_network, from_network, to_policy, accepts_to,
  accepts_from, Confined, IsGenie-base, create_iptable_chain_name-IsPolicy,
  create_iptable_chain_name-IsNetwork, IsPolicy-IsGenie, IsNetwork-IsGenie, Keeps-add_network_chain,
  Keeps-insert_rule, Keeps-delete_two, Keeps-delete_network_chain,
}

-- where `AddNetworkChain` or its failure lead
abbrev Linked : World → Text → Type 0
Linked w c = IsNetwork w c ⊎ (c ≡ [])

add_network_chain-IsNetwork :
    (w : World) (ln : LogicalNetwork) → Gives (IsNetwork w) (add_network_chain w ln)
unfolding add_network_chain
add_network_chain-IsNetwork w ln = Gives-bind _ _ λ _. Gives-bind _ _ λ _.
    Gives-bind _ _ λ _. Gives-bind _ _ λ _. Gives-pure _ (create_iptable_chain_name-IsNetwork w _)

chain_of-Linked :
    (w : World) (r : Returned Error Text) → OnValue (IsNetwork w) r → Linked w (chain_of r)
chain_of-Linked w (value c) g = inl g
chain_of-Linked w (error e) g = inr refl

module _ (w : World) {P : w.State → Type 0} (k : Confined w P) where
  pub Keeps-insert_peer_rule :
      (c subnet : Text) → IsPolicy w c → Keeps P (insert_peer_rule w c subnet)
  unfolding insert_peer_rule
  Keeps-insert_peer_rule c subnet g =
      Keeps-bind _ _ (Keeps-wrap _ _ (k.append_unique _ _ _ (accepts_from subnet g refl)))
        λ _. Keeps-wrap _ _ (k.append_unique _ _ _ (accepts_to subnet g refl))

  pub Keeps-peer_rule_of :
      (c : Text) → IsPolicy w c → (r : Returned Error LogicalNetwork) → Keeps P (peer_rule_of w c r)
  unfolding peer_rule_of
  Keeps-peer_rule_of c g (error _) = Keeps-pure tt
  Keeps-peer_rule_of c g (value l) = search (keeps_rules, Keeps-insert_peer_rule)

  Keeps-add_peers :
      (ns c : Text) → IsPolicy w c → (peers : List Text) → Keeps P (add_peers w ns c peers)
  unfolding add_peers
  Keeps-add_peers ns c g [] = Keeps-pure tt
  Keeps-add_peers ns c g (p ∷ ps) =
      let rest = Keeps-add_peers ns c g ps in
      Keeps-if (trim_space p == []) _ _ rest (
        Keeps-bind _ _ (search (keeps_rules, k.get_logical_network))
          (λ found. Keeps-bind _ _ (Keeps-peer_rule_of c g found) (λ _. rest)))

  Keeps-add_policy :
      (ln : LogicalNetwork) (name ns c : Text)
      → IsPolicy w c
      → (o : Option Networks) → Keeps P (add_policy w ln name ns c o)
  unfolding add_policy
  Keeps-add_policy ln name ns c g none = search (keeps_rules, Keeps-insert_peer_rule)
  Keeps-add_policy ln name ns c g (some networks) =
      Keeps-bind_of _ _ (search (keeps_rules, Keeps-add_network_chain w k))
        (Gives-attempt _ (add_network_chain-IsNetwork w ln))
        λ added h.
          let p = to_policy c (chain_of-Linked w added h) g refl in
          Keeps-bind _ _ (Keeps-wrap _ _ (Keeps-insert_rule w k _ 1 _ p))
            λ _. Keeps-add_peers ns c g _

  Keeps-add_policies :
      (ln : LogicalNetwork) (name ns : Text) (l : List NetworkPolicyInfo)
      → Keeps P (add_policies w ln name ns l)
  unfolding add_policies
  Keeps-add_policies ln name ns [] = Keeps-pure tt
  Keeps-add_policies ln name ns (p ∷ ps) =
      Keeps-bind _ _
        (Keeps-add_policy ln name ns _ (create_iptable_chain_name-IsPolicy w _) p.networks)
        (λ _. Keeps-add_policies ln name ns ps)

  Keeps-list_network_policies : (n ns : Text) → Keeps P (list_network_policies w n ns)
  unfolding list_network_policies
  Keeps-list_network_policies n ns = search (keeps_rules, k.list_policies)

  pub Keeps-logical_network_add : (n ns : Text) → Keeps P (handle_logical_network_add w n ns)
  unfolding handle_logical_network_add
  Keeps-logical_network_add n ns =
      search (keeps_rules, k.get_logical_network, Keeps-list_network_policies, Keeps-add_policies)

  base_rule_at-Permitted :
      (i : ℕ) (subnet c : Text)
      → IsNetwork w c
      → Permitted w genie_base_npc_chain (base_rule_at w i subnet c)
  base_rule_at-Permitted zero subnet c n = to_network subnet c refl n refl
  base_rule_at-Permitted (suc i) subnet c n = from_network subnet c refl n refl

  Keeps-replace_base_rules :
      (subnet c : Text)
      → IsNetwork w c
      → (rules : List Text) (pos i : ℕ) → Keeps P (replace_base_rules w subnet c rules pos i)
  unfolding replace_base_rules
  Keeps-replace_base_rules subnet c n [] pos i = Keeps-pure tt
  Keeps-replace_base_rules subnet c n (r ∷ rs) pos i =
      search
        (
          keeps_rules,
          k.delete,
          k.insert,
          IsGenie-base,
          base_rule_at-Permitted,
          Keeps-replace_base_rules subnet c n rs,
        )
        depth 9

  pub Keeps-logical_network_update : (n ns : Text) → Keeps P (handle_logical_network_update w n ns)
  unfolding handle_logical_network_update
  Keeps-logical_network_update n ns = search (
    keeps_rules,
    k.get_logical_network,
    k.list,
    Keeps-replace_base_rules,
    create_iptable_chain_name-IsNetwork w,
  )

  Keeps-remove_subnet :
      (c subnet : Text)
      → IsGenie c
      → (r : Returned Error (List Text)) → Keeps P (remove_subnet w c subnet r)
  unfolding remove_subnet
  Keeps-remove_subnet c subnet g (error _) = Keeps-pure tt
  Keeps-remove_subnet c subnet g (value rules) = Keeps-delete_two w k c subnet g rules 0 0

  Keeps-forget_policy :
      (c subnet : Text)
      → IsGenie c
      → (p : NetworkPolicyInfo) (o : Option Networks) → Keeps P (forget_policy w c subnet p o)
  unfolding forget_policy
  Keeps-forget_policy c subnet g p (some _) = search (keeps_rules, Keeps-delete_network_chain w k)
  Keeps-forget_policy c subnet g p none = search (
    keeps_rules,
    k.list,
    Keeps-remove_subnet,
    IsPolicy-IsGenie w,
    create_iptable_chain_name-IsPolicy w,
  )

  Keeps-forget_policies :
      (c subnet : Text)
      → IsGenie c
      → (l : List NetworkPolicyInfo) → Keeps P (forget_policies w c subnet l)
  unfolding forget_policies
  Keeps-forget_policies c subnet g [] = Keeps-pure tt
  Keeps-forget_policies c subnet g (p ∷ ps) =
      Keeps-bind _ _ (Keeps-forget_policy c subnet g p p.networks)
        (λ _. Keeps-forget_policies c subnet g ps)

  pub Keeps-logical_network_delete :
      (n ns subnet : Text) → Keeps P (handle_logical_network_delete w n ns subnet)
  unfolding handle_logical_network_delete
  Keeps-logical_network_delete n ns subnet = search (
    keeps_rules,
    Keeps-list_network_policies,
    Keeps-forget_policies,
    IsNetwork-IsGenie w,
    create_iptable_chain_name-IsNetwork w,
  )
