-- ===== src/Npc/Policies/Lister.antt =====
-- `ListNetworkPolicies` over a lister that answers the same throughout.
use cni_genie.Base.{◌≡◌, ap, ◌∙◌, Text, List, ok, wrap, wrap-ok, bind-ok, pure}
use cni_genie.Types.{PolicyObject}
use cni_genie.Npc.World.{World, Error, api}
use cni_genie.Npc.Chains.Iptables.{Rules}
use cni_genie.Npc.Policies.{policy_infos, list_network_policies}

-- The lister of policies finds `policies` in a namespace, and leaves the filter table as it is.
pub record ListsPolicies (w : World) (rules : w.State → Rules) (ns : Text)
    (policies : List PolicyObject) : Type 0 where
  pub list : (s : w.State) → (w.list_policies ns s).0 ≡ ok policies
  pub list_rules : (s : w.State) → rules (w.list_policies ns s).1 ≡ rules s

pub list_network_policies_lem :
    (w : World) {rules : w.State → Rules} (ns name : Text) (policies : List PolicyObject)
    (s : w.State)
    → ListsPolicies w rules ns policies
    → ((list_network_policies w name ns s).0 ≡ ok (policy_infos w name policies))
      × (rules (list_network_policies w name ns s).1 ≡ rules s)
unfolding list_network_policies pure wrap
list_network_policies_lem w {rules} ns name policies s lists =
    let look = wrap {F = Error} api (w.list_policies ns) in
    let fetch =
      bind-ok look (λ l. pure {S = w.State} {E = Error} (policy_infos w name l)) s policies
        (wrap-ok api (w.list_policies ns) s policies (lists.list s)) in
    (ap (λ r. r.0) fetch, ap (λ r. rules r.1) fetch ∙ lists.list_rules s)
