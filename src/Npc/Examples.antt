-- ===== src/Npc/Examples.antt =====
-- The controller's theorems at concrete inputs, in the in-memory world.
use cni_genie.Base.{
  none, false, contains, member, eq_false_of_ne, Text, codes, ◌≡◌, ◌≢◌, ◌≤◌, refl, arith, some,
  List, [], ◌∷◌, ◌++◌, length, length-append, lookup, split, ok, ◌==◌, if◌then◌else◌,
}
use cni_genie.Types.{LogicalNetwork}
use cni_genie.Npc.Chains.{
  genie_base_npc_chain, genie_policy_prefix, genie_network_prefix, hex, create_iptable_chain_name,
  delete_network_chain, add_network_chain, to_subnet, from_subnet,
}
use cni_genie.Npc.Chains.Iptables.{Rule, mentions, add_unique}
use cni_genie.Npc.Chains.Names.{chain_names, length-take}
use cni_genie.Npc.Chains.DeleteTwo.{drop_first}
use cni_genie.Npc.Chains.NetworkChain.{reject, add_network_chain_lem}
use cni_genie.Npc.Chains.DeleteNetwork.{delete_network_chain_lem}
use cni_genie.Npc.World.{NetworkPolicy}
use cni_genie.Npc.Policies.{Networks, or_nil, get_logical_networks_from_annotation}
use cni_genie.Npc.Policies.Annotation.{peers_of, annotation-peers_of}
use cni_genie.Npc.Kernel.{Tables, kernel, padding}
use cni_genie.Npc.Kernel.Laws.{kernel_rules, header, show, kernel-IsIptables}
use cni_genie.Npc.Tests.{network_at, start}

md5-length : (t : Text) → length (kernel.md5 t) ≡ 16
md5-length t = length-take 16 (t ++ padding) (omega (arith, length-append t padding))

chain_names_example :
    (26 ≤ length (genie_policy_prefix ++ hex (kernel.md5 (codes "webns"))))
    × (length (create_iptable_chain_name kernel genie_policy_prefix (codes "webns")) ≡ 26)
    × (create_iptable_chain_name kernel genie_policy_prefix (codes "webns")
        ≢ create_iptable_chain_name kernel genie_network_prefix (codes "frontns"))
    × (create_iptable_chain_name kernel genie_policy_prefix (codes "webns") ≢ genie_base_npc_chain)
    × (create_iptable_chain_name kernel genie_network_prefix (codes "frontns")
        ≢ genie_base_npc_chain)
chain_names_example =
    chain_names kernel md5-length genie_policy_prefix (codes "webns") (codes "webns")
      (codes "frontns")

abbrev front : LogicalNetwork
front = network_at "front" "10.1.0.0/24"

abbrev front_rules : List Rule
front_rules =
    to_subnet (codes "10.2.0.0/24") (codes "GnNtk-b")
    ∷ to_subnet (codes "10.1.0.0/24") (codes "GnNtk-a")
    ∷ from_subnet (codes "10.1.0.0/24") (codes "GnNtk-a")
    ∷ []

abbrev linked : Tables
linked = record start { chains = (genie_base_npc_chain, front_rules) ∷ [] }

linked_rules : kernel_rules linked genie_base_npc_chain ≡ some front_rules
unfolding lookup ◌==◌
linked_rules = refl

add_network_chain_lem_example :
    let chain = create_iptable_chain_name kernel genie_network_prefix (codes "frontns") in
    let out = add_network_chain kernel front linked in
    let both =
      add_unique
        (from_subnet (codes "10.1.0.0/24") chain)
        (add_unique (to_subnet (codes "10.1.0.0/24") chain) front_rules) in
    (out.0 ≡ ok chain)
    × ((d : Text)
        → kernel_rules out.1 d ≡ (
            if genie_base_npc_chain == d
            then some both
            else if chain == d
            then some (reject ∷ [])
            else kernel_rules linked d))
add_network_chain_lem_example =
    add_network_chain_lem kernel kernel-IsIptables front front_rules linked linked_rules (λ t. tt)
      (λ t us e. tt) (λ t us e. tt)

header_clean : contains (header genie_base_npc_chain) (codes "GnNtk-a") ≡ false
unfolding contains
header_clean = refl

kept_clean :
    mentions
      (codes "GnNtk-a")
      (drop_first 2 (show genie_base_npc_chain) (codes "GnNtk-a") front_rules)
    ≡ false
unfolding mentions drop_first contains member ◌==◌
kept_clean = refl

only_base :
    (d : Text) (vs : List Rule)
    → genie_base_npc_chain ≢ d
    → kernel_rules linked d ≡ some vs
    → mentions (codes "GnNtk-a") vs ≡ false
unfolding lookup
only_base d vs ne h = let no = rw (eq_false_of_ne genie_base_npc_chain d ne) at h in cc

delete_network_chain_lem_example :
    let out = delete_network_chain kernel (codes "GnNtk-a") linked in
    let kept = drop_first 2 (show genie_base_npc_chain) (codes "GnNtk-a") front_rules in
    (out.0 ≡ ok tt)
    × ((d : Text)
        → kernel_rules out.1 d ≡ (
            if codes "GnNtk-a" == d
            then none
            else if genie_base_npc_chain == d
            then some kept
            else kernel_rules linked d))
delete_network_chain_lem_example =
    delete_network_chain_lem kernel kernel-IsIptables (codes "GnNtk-a") front_rules linked
      linked_rules header_clean kept_clean only_base

abbrev front_text : Text
front_text = codes "front:back;front:db"

abbrev front_entries : List NetworkPolicy
front_entries =
    record { network_selector = codes "front"; peer_networks = codes "back" }
    ∷ record { network_selector = codes "front"; peer_networks = codes "db" }
    ∷ []

front_parsed : kernel.unmarshal_policies front_text ≡ some front_entries
unfolding split
front_parsed = refl

front_named : codes "front" ≢ []
front_named e = cc

annotation-peers_of_example :
    (m : Networks) × (get_logical_networks_from_annotation kernel front_text ≡ some m)
    × (or_nil (lookup (codes "front") m) ≡ codes "back" ∷ codes "db" ∷ [])
    × (lookup [] m ≡ none)
unfolding peers_of split ◌==◌
annotation-peers_of_example =
    annotation-peers_of kernel front_text (codes "front") front_entries front_parsed front_named
