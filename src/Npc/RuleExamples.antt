-- ===== src/Npc/RuleExamples.antt =====
-- The theorems on rules and chains at concrete inputs, in the in-memory world.
use cni_genie.Base.{
  codes, ◌≡◌, ◌⊎◌, refl, true, false, some, List, [], ◌∷◌, ◌++◌, map, contains, lookup, wrap, pure,
  ◌==◌, if◌then◌else◌,
}
use cni_genie.Npc.World.{at, delete_network_chain_site}
use cni_genie.Npc.Chains.{
  genie_policy_prefix, delete_network_chain, delete_network_chain_rule, jump,
}
use cni_genie.Npc.Chains.Iptables.{Rule, Replaced, has_rule, same_rule}
use cni_genie.Npc.Chains.DeletePolicyRule.{some_line, delete_network_chain_rule_lem}
use cni_genie.Npc.Chains.NetworkChain.{reject}
use cni_genie.Npc.Sync.{worker}
use cni_genie.Npc.Frame.{Permitted}
use cni_genie.Npc.Frame.Provenance.{worker_rules}
use cni_genie.Npc.Kernel.{Tables, kernel}
use cni_genie.Npc.Kernel.Laws.{kernel_rules, header, show, kernel-IsIptables}
use cni_genie.Npc.Kernel.Rules.{stands, kernel-OnlyAdds}
use cni_genie.Npc.Tests.{controller, add_web, start, web_chain, front_chain}

jump_added :
    stands (worker kernel (add_web ∷ []) start).1 (codes "filter") front_chain (jump web_chain)
unfolding controller has_rule same_rule
jump_added = refl

worker_rules_example :
    stands start (codes "filter") front_chain (jump web_chain)
    ⊎ Permitted kernel front_chain (jump web_chain)
worker_rules_example =
    worker_rules kernel stands kernel-OnlyAdds (add_web ∷ []) start (codes "filter") front_chain
      (jump web_chain) jump_added

abbrev two_policies : Tables
two_policies = record start {
  chains = (codes "GnNtk-a", jump (codes "GnPlc-p") ∷ jump (codes "GnPlc-q") ∷ reject ∷ []) ∷ [];
}

abbrev others : List Rule
others = jump (codes "GnPlc-p") ∷ reject ∷ []

two_there :
    kernel_rules two_policies (codes "GnNtk-a")
    ≡ some ((jump (codes "GnPlc-p") ∷ []) ++ jump (codes "GnPlc-q") ∷ reject ∷ [])
unfolding lookup ◌==◌
two_there = refl

before_clean :
    some_line
      (codes "GnPlc-q")
      (header (codes "GnNtk-a") ∷ map (show (codes "GnNtk-a")) (jump (codes "GnPlc-p") ∷ []))
    ≡ false
unfolding some_line contains
before_clean = refl

line_found : contains (show (codes "GnNtk-a") (jump (codes "GnPlc-q"))) (codes "GnPlc-q") ≡ true
unfolding contains
line_found = refl

after_clean : some_line (codes "GnPlc-q") (map (show (codes "GnNtk-a")) (reject ∷ [])) ≡ false
unfolding some_line contains
after_clean = refl

delete_network_chain_rule_lem_example :
    let left = header (codes "GnNtk-a") ∷ map (show (codes "GnNtk-a")) others in
    (t : Tables) × Replaced (kernel_rules two_policies) (codes "GnNtk-a") others (kernel_rules t)
    × (delete_network_chain_rule kernel (codes "GnNtk-a") (codes "GnPlc-q") two_policies
        ≡ (if some_line genie_policy_prefix left
              then pure tt
              else wrap
                  (at delete_network_chain_site)
                  (delete_network_chain kernel (codes "GnNtk-a")))
            t)
delete_network_chain_rule_lem_example =
    delete_network_chain_rule_lem kernel kernel-IsIptables (codes "GnNtk-a") (codes "GnPlc-q")
      (jump (codes "GnPlc-p") ∷ []) (jump (codes "GnPlc-q")) (reject ∷ []) two_policies two_there
      before_clean line_found after_clean
