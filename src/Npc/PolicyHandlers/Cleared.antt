-- ===== src/Npc/PolicyHandlers/Cleared.antt =====
-- What `AddPolicyChain` leaves in the filter table.
use mathlib.Core.Path.{fun_ext}
use cni_genie.Base.{Text, ◌≡◌, refl, ok, wrap, wrap-ok, bind-ok, pure}
use cni_genie.Npc.World.{World, ipt}
use cni_genie.Npc.Chains.{filter_table, add_policy_chain}
use cni_genie.Npc.Chains.Iptables.{Rule, Rules, IsIptables, Accepts}
use cni_genie.Npc.PolicyHandlers.Linked.{cleared, chain_of_policy}

module _ (w : World) {rules : w.State → Rules} {header : Text → Text} {show : Text → Rule → Text}
    {accepts : Accepts} (laws : IsIptables w rules header show accepts) where
  pub add_policy_chain_lem :
      (ns name : Text) (s : w.State)
      → ((add_policy_chain w name ns s).0 ≡ ok (chain_of_policy w ns name))
        × (rules (add_policy_chain w name ns s).1 ≡ cleared (chain_of_policy w ns name) (rules s))
  unfolding add_policy_chain wrap pure
  add_policy_chain_lem ns name s =
      let chain = chain_of_policy w ns name in
      let clear = w.clear_chain filter_table chain in
      rw (bind-ok (wrap ipt clear) _ s tt (wrap-ok ipt clear s tt (laws.clear_chain chain s)))
        (refl, fun_ext (laws.clear_chain_rules chain s))
