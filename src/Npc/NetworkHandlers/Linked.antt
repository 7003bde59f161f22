-- ===== src/Npc/NetworkHandlers/Linked.antt =====
-- What a logical network that is added means for the filter table, as a change of its chains.
use cni_genie.Base.{
  Text, refl, Option, none, some, List, [], ◌∷◌, lookup, trim_space, ◌==◌, eq_refl, if◌then◌else◌,
  Bool-cases, inl, inr,
}
use cni_genie.Types.{LogicalNetwork}
use cni_genie.Npc.World.{World}
use cni_genie.Npc.Chains.{genie_base_npc_chain, jump, to_subnet, from_subnet}
use cni_genie.Npc.Chains.Iptables.{Rule, Rules, add_unique}
use cni_genie.Npc.Chains.Put.{put, IsThere, on_top, put-IsThere}
use cni_genie.Npc.Chains.NetworkChain.{reject, network_chain}
use cni_genie.Npc.Policies.{Networks, NetworkPolicyInfo, or_nil}
use cni_genie.Npc.PolicyHandlers.Peers.{Listed, with_peer, with_peers}
use cni_genie.Npc.PolicyHandlers.Linked.{chain_of_policy}

-- One chain holds the rules `us`, and the others are as they were.
abbrev pub filled : Text → List Rule → Rules → Rules
filled c us r d = if c == d then some us else r d

-- The names that are not blank.
abbrev pub not_blank : List Text → List Text
not_blank [] = []
not_blank (p ∷ ps) = let rest = not_blank ps in if trim_space p == [] then rest else p ∷ rest

module _ (w : World) (ln : LogicalNetwork) where
  -- the network's chain holds the reject rule alone, and the base chain sends the traffic into it
  abbrev pub chain_added : Rules → Rules
  chain_added r =
      let chain = network_chain w ln in
      put genie_base_npc_chain
        (λ us.
          add_unique (from_subnet ln.sub_subnet chain)
            (add_unique (to_subnet ln.sub_subnet chain) us))
        (filled chain (reject ∷ []) r)

module _ (w : World) (listed : Listed) (ln : LogicalNetwork) (ns name : Text) where
  -- For a policy that names the network as a peer its chain gets the rules for the network; for one
  -- that selects it the network's chain is built, with the jump to the policy's chain on top, and
  -- the policy's chain gets the rules for its peers.
  abbrev pub policy_added : Text → Option Networks → Rules → Rules
  policy_added chain none r = put chain (with_peer (some ln)) r
  policy_added chain (some networks) r =
      put chain (with_peers listed ns (not_blank (or_nil (lookup name networks))))
        (put (network_chain w ln) (on_top (jump chain)) (chain_added w ln r))

  abbrev pub policies_added : List NetworkPolicyInfo → Rules → Rules
  policies_added [] r = r
  policies_added (info ∷ infos) r =
      policies_added infos (policy_added (chain_of_policy w ns info.name) info.networks r)

-- the chain of every policy is there
abbrev pub Ready : World → Text → List NetworkPolicyInfo → Rules → Type 0
Ready w ns [] r = Unit
Ready w ns (info ∷ infos) r = IsThere r (chain_of_policy w ns info.name) × Ready w ns infos r

pub filled-IsThere :
    (c d : Text) (us : List Rule) (r : Rules) → IsThere r d → IsThere (filled c us r) d
filled-IsThere c d us r (vs, e) = elim (Bool-cases (c == d)) [
  | inl k ↦ (us, rw k refl)
  | inr k ↦ (vs, rw k e)
]

pub chain_added-IsThere :
    (w : World) (ln : LogicalNetwork) (r : Rules) (d : Text)
    → IsThere r d
    → IsThere (chain_added w ln r) d
chain_added-IsThere w ln r d h =
    put-IsThere genie_base_npc_chain d _ (filled (network_chain w ln) (reject ∷ []) r)
      (filled-IsThere (network_chain w ln) d (reject ∷ []) r h)

pub own_chain-IsThere :
    (w : World) (ln : LogicalNetwork) (r : Rules)
    → IsThere (chain_added w ln r) (network_chain w ln)
own_chain-IsThere w ln r =
    let chain = network_chain w ln in
    put-IsThere genie_base_npc_chain chain _ (filled chain (reject ∷ []) r)
      (reject ∷ [], rw (eq_refl chain) refl)

module _ (w : World) (listed : Listed) (ln : LogicalNetwork) (ns name : Text) where
  pub policy_added-IsThere :
      (chain : Text) (o : Option Networks) (r : Rules) (d : Text)
      → IsThere r d
      → IsThere (policy_added w listed ln ns name chain o r) d
  policy_added-IsThere chain none r d h = put-IsThere chain d (with_peer (some ln)) r h
  policy_added-IsThere chain (some networks) r d h =
      put-IsThere chain d (with_peers listed ns (not_blank (or_nil (lookup name networks))))
        (put (network_chain w ln) (on_top (jump chain)) (chain_added w ln r))
        (put-IsThere (network_chain w ln) d (on_top (jump chain)) (chain_added w ln r)
          (chain_added-IsThere w ln r d h))

  pub policy_added-Ready :
      (chain : Text) (o : Option Networks) (infos : List NetworkPolicyInfo) (r : Rules)
      → Ready w ns infos r
      → Ready w ns infos (policy_added w listed ln ns name chain o r)
  policy_added-Ready chain o [] r h = tt
  policy_added-Ready chain o (i ∷ infos) r (h, k) = (
    policy_added-IsThere chain o r (chain_of_policy w ns i.name) h,
    policy_added-Ready chain o infos r k,
  )
