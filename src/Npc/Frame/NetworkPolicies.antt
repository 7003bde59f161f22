-- ===== src/Npc/Frame/NetworkPolicies.antt =====
-- The invariant rules of Npc/Frame.antt through the handlers for network policies.
use cni_genie.Base.{
  Text, ◌≡◌, ◌⊎◌, Keeps-bind_of, Gives, Gives-pure, Gives-bind, Gives-wrap, Keeps-lift, Bool, true,
  false, List, [], ◌∷◌, contains, split, Bool-cases, inl, inr, Keeps, Keeps-pure, Keeps-bind,
  Keeps-if, keeps_rules, Returned, value, error, if◌then◌else◌, refl,
}
use cni_genie.Npc.World.{World, Error}
use cni_genie.Npc.Chains.{genie_network_prefix, add_policy_chain}
use cni_genie.Npc.Policies.{Networks}
use cni_genie.Npc.PolicyHandlers.{
  network_word, seen, annotation_result, populate_peers, link_policy, peers_after, populate_network,
  populate_policy_chain, populate, handle_network_policy_add, unlink_policy, repopulate,
  handle_network_policy_update, unlink_networks, handle_network_policy_delete,
}
use cni_genie.Npc.Frame.{
  IsGenie, network, nameless, IsPolicy, IsNetwork, to_policy, Confined,
  create_iptable_chain_name-IsPolicy, create_iptable_chain_name-IsNetwork, IsPolicy-IsGenie,
  IsNetwork-IsGenie, Keeps-exists_chain, Keeps-add_policy_chain, Keeps-insert_rule,
  Keeps-delete_iptable_chain, Keeps-delete_network_chain_rule,
}
use cni_genie.Npc.Frame.Networks.{Keeps-peer_rule_of, Keeps-logical_network_add}

-- The word that the update looks up in a rule is a name of the controller.
IsGenie-network_word :
    (found : Text) (words : List Text) → IsGenie found → IsGenie (network_word found words)
unfolding network_word
IsGenie-network_word found [] g = g
IsGenie-network_word found (p ∷ ps) g =
    IsGenie-network_word (if contains p genie_network_prefix then p else found) ps
      (choose (Bool-cases _))
  where
    choose :
        (contains p genie_network_prefix ≡ true) ⊎ (contains p genie_network_prefix ≡ false)
        → IsGenie (if contains p genie_network_prefix then p else found)
    choose (inl e) = rw e (network e)
    choose (inr e) = rw e g

add_policy_chain-IsPolicy : (w : World) (n ns : Text) → Gives (IsPolicy w) (add_policy_chain w n ns)
unfolding add_policy_chain
add_policy_chain-IsPolicy w n ns =
    search (Gives-bind, Gives-pure, create_iptable_chain_name-IsPolicy w)

module _ (w : World) {P : w.State → Type 0} (k : Confined w P) where
  Keeps-annotation_result : (text : Text) → Keeps P (annotation_result w text)
  unfolding annotation_result
  Keeps-annotation_result text = Keeps-lift _

  Keeps-populate_peers :
      (ns c : Text) → IsPolicy w c → (peers : List Text) → Keeps P (populate_peers w ns c peers)
  unfolding populate_peers
  Keeps-populate_peers ns c g [] = Keeps-pure tt
  Keeps-populate_peers ns c g (p ∷ ps) =
      Keeps-bind _ _ (search (keeps_rules, k.get_logical_network)) (λ found.
        Keeps-bind _ _ (Keeps-peer_rule_of w k c g found) (λ _. Keeps-populate_peers ns c g ps))

  Keeps-link_policy :
      (sel ns lc c : Text)
      → IsNetwork w lc
      → IsPolicy w c
      → (b : Bool) → Keeps P (link_policy w sel ns lc c b)
  unfolding link_policy
  Keeps-link_policy sel ns lc c n g false = Keeps-logical_network_add w k sel ns
  Keeps-link_policy sel ns lc c n g true = Keeps-insert_rule w k lc _ _ (to_policy c (inl n) g refl)

  Keeps-peers_after :
      (ns c : Text)
      → IsPolicy w c
      → (peers : List Text) (r : Returned Error (Unit {0})) → Keeps P (peers_after w ns c peers r)
  unfolding peers_after
  Keeps-peers_after ns c g peers (error _) = Keeps-pure tt
  Keeps-peers_after ns c g peers (value _) = Keeps-populate_peers ns c g peers

  Keeps-populate_network :
      (ns c : Text)
      → IsPolicy w c
      → (sel : Text) (peers : List Text) → Keeps P (populate_network w ns c sel peers)
  unfolding populate_network
  Keeps-populate_network ns c g sel peers =
      search
        (
          keeps_rules,
          Keeps-exists_chain w k,
          Keeps-link_policy,
          create_iptable_chain_name-IsNetwork w,
          Keeps-peers_after,
        )
        depth 9

  Keeps-populate_policy_chain :
      (ns c : Text) → IsPolicy w c → (m : Networks) → Keeps P (populate_policy_chain w ns c m)
  unfolding populate_policy_chain
  Keeps-populate_policy_chain ns c g [] = Keeps-pure tt
  Keeps-populate_policy_chain ns c g ((sel, peers) ∷ m) =
      Keeps-bind _ _ (Keeps-populate_network ns c g sel peers)
        (λ _. Keeps-populate_policy_chain ns c g m)

  Keeps-populate : (ns c : Text) → IsPolicy w c → (m : Networks) → Keeps P (populate w ns c m)
  unfolding populate
  Keeps-populate ns c g [] = Keeps-pure tt
  Keeps-populate ns c g (n ∷ m) = Keeps-populate_policy_chain ns c g _

  Keeps-unlink_policy :
      (c : Text) (rules visited : List Text) → Keeps P (unlink_policy w c rules visited)
  unfolding unlink_policy
  Keeps-unlink_policy c [] visited = Keeps-pure tt
  Keeps-unlink_policy c (r ∷ rs) visited =
      let skip = Keeps-unlink_policy c rs visited in
      let g = IsGenie-network_word [] (split r b' ') (nameless refl) in
      Keeps-if (contains r genie_network_prefix) _ _
        (Keeps-if (seen _ visited) _ _ skip (
          Keeps-bind _ _ (search (keeps_rules, Keeps-delete_network_chain_rule w k _ c g))
            (λ _. Keeps-unlink_policy c rs _)))
        skip

  Keeps-repopulate : (ns c : Text) → IsPolicy w c → (m : Networks) → Keeps P (repopulate w ns c m)
  unfolding repopulate
  Keeps-repopulate ns c g [] = search (keeps_rules, k.list, Keeps-unlink_policy)
  Keeps-repopulate ns c g (n ∷ m) = Keeps-populate_policy_chain ns c g _

  pub Keeps-network_policy_add : (n ns : Text) → Keeps P (handle_network_policy_add w n ns)
  unfolding handle_network_policy_add
  Keeps-network_policy_add n ns =
      Keeps-bind _ _ (search (keeps_rules, k.get_network_policy)) (λ policy.
        Keeps-bind _ _ (search (keeps_rules, Keeps-annotation_result)) (λ networks.
          Keeps-bind_of _ _ (search (keeps_rules, Keeps-add_policy_chain w k))
            (Gives-wrap _ _ (add_policy_chain-IsPolicy w n ns))
            (λ c g. Keeps-populate ns c g networks)))

  pub Keeps-network_policy_update : (n ns : Text) → Keeps P (handle_network_policy_update w n ns)
  unfolding handle_network_policy_update
  Keeps-network_policy_update n ns =
      Keeps-bind _ _ (search (keeps_rules, k.get_network_policy)) (λ policy.
        Keeps-bind _ _ (search (keeps_rules, Keeps-annotation_result)) (λ networks.
          Keeps-bind_of _ _ (search (keeps_rules, Keeps-add_policy_chain w k))
            (Gives-wrap _ _ (add_policy_chain-IsPolicy w n ns))
            (λ c g. Keeps-repopulate ns c g networks)))

  Keeps-unlink_networks : (ns c : Text) (m : Networks) → Keeps P (unlink_networks w ns c m)
  unfolding unlink_networks
  Keeps-unlink_networks ns c [] = Keeps-pure tt
  Keeps-unlink_networks ns c ((lnw, _) ∷ m) =
      Keeps-bind _ _
        (search (
          keeps_rules,
          Keeps-delete_network_chain_rule w k,
          IsNetwork-IsGenie w,
          create_iptable_chain_name-IsNetwork w,
        ))
        (λ _. Keeps-unlink_networks ns c m)

  pub Keeps-network_policy_delete :
      (n ns text : Text) → Keeps P (handle_network_policy_delete w n ns text)
  unfolding handle_network_policy_delete
  Keeps-network_policy_delete n ns text =
      search
        (
          keeps_rules,
          Keeps-annotation_result,
          Keeps-unlink_networks,
          Keeps-delete_iptable_chain w k,
          IsPolicy-IsGenie w,
          create_iptable_chain_name-IsPolicy w,
        )
        depth 9
