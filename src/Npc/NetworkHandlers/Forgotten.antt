-- ===== src/Npc/NetworkHandlers/Forgotten.antt =====
-- What a logical network that is deleted means for the filter table, as a change of its chains.
use cni_genie.Base.{
  Text, ℕ, zero, suc, ◌≡◌, ◌≢◌, refl, ap, false, Option, none, some, List, [], ◌∷◌, ◌++◌, ◌==◌,
  eq_refl, eq_false_of_ne, Bool-cases, inl, inr, if◌then◌else◌, arith, get_or, contains,
}
use cni_genie.Npc.World.{World}
use cni_genie.Npc.Chains.{genie_base_npc_chain, create_iptable_chain_name}
use cni_genie.Npc.Chains.Iptables.{Rule, Rules, mentions}
use cni_genie.Npc.Chains.Put.{put, changed, IsThere, put-IsThere}
use cni_genie.Npc.Chains.NetworkChain.{network-ne-base}
use cni_genie.Npc.Chains.DeleteTwo.{drop_first}
use cni_genie.Npc.Policies.{Networks, NetworkPolicyInfo}
use cni_genie.Npc.PolicyHandlers.Linked.{chain_of_network, chain_of_policy}

-- One chain is no longer there.
abbrev pub without : Text → Rules → Rules
without c r d = if c == d then none else r d

module _ (show : Text → Rule → Text) (net subnet : Text) where
  -- A policy that selects the network: its chain goes, and the two rules of the base chain for it. A
  -- policy that names it as a peer: the two rules for its subnet go from the policy's chain.
  abbrev pub policy_forgotten : Text → Option Networks → Rules → Rules
  policy_forgotten chain none r = put chain (drop_first 2 (show chain) subnet) r
  policy_forgotten chain (some _) r =
      without net (put genie_base_npc_chain (drop_first 2 (show genie_base_npc_chain) net) r)

  abbrev pub policies_forgotten : World → List NetworkPolicyInfo → Rules → Rules
  policies_forgotten w [] r = r
  policies_forgotten w (info ∷ infos) r =
      policies_forgotten w infos
        (policy_forgotten (chain_of_policy w info.namespace info.name) info.networks r)

-- The base chain is there, and no rule names the network's chain but the first two of the base chain
-- whose lines hold it.
pub record OnlyBase (show : Text → Rule → Text) (net : Text) (r : Rules) : Type 0 where
  pub base : List Rule
  pub base_there : r genie_base_npc_chain ≡ some base
  pub two : mentions net (drop_first 2 (show genie_base_npc_chain) net base) ≡ false
  pub others :
      (d : Text) (vs : List Rule)
      → genie_base_npc_chain ≢ d
      → r d ≡ some vs
      → mentions net vs ≡ false

mentions-drop_first :
    (n : ℕ) (line : Rule → Text) (needle c : Text) (us : List Rule)
    → mentions c us ≡ false
    → mentions c (drop_first n line needle us) ≡ false
unfolding mentions drop_first
mentions-drop_first zero line needle c us h = h
mentions-drop_first (suc n) line needle c [] h = h
mentions-drop_first (suc n) line needle c (u ∷ us) h =
    ground (
      arith,
      h,
      mentions-drop_first n line needle c us,
      mentions-drop_first (suc n) line needle c us,
    )

policy-ne-base : (w : World) (ns p : Text) → chain_of_policy w ns p ≢ genie_base_npc_chain
unfolding create_iptable_chain_name
policy-ne-base w ns p e = absurd (omega (arith, ap (λ t. get_or t 1 0) e))

network-ne-policy :
    (w : World) (ns n ms p : Text) → chain_of_network w ns n ≢ chain_of_policy w ms p
unfolding create_iptable_chain_name
network-ne-policy w ns n ms p e = absurd (omega (arith, ap (λ t. get_or t 2 0) e))

module _ (show : Text → Rule → Text) (net subnet : Text) where
  put-OnlyBase :
      (c : Text) (r : Rules)
      → c ≢ genie_base_npc_chain
      → OnlyBase show net r
      → OnlyBase show net (put c (drop_first 2 (show c) subnet) r)
  put-OnlyBase c r ne b = record {
    base = b.base;
    base_there = rw (eq_false_of_ne c genie_base_npc_chain ne) b.base_there;
    two = b.two;
    others = λ d vs apart h. kept (r d) d vs apart refl h;
  }
    where
      kept :
          (o : Option (List Rule)) (d : Text) (vs : List Rule)
          → genie_base_npc_chain ≢ d
          → r d ≡ o
          → (if c == d then changed (drop_first 2 (show c) subnet) o else o) ≡ some vs
          → mentions net vs ≡ false
      kept none d vs apart e h = ground (arith, h)
      kept (some us) d vs apart e h =
          let clean = b.others d us apart e in
          elim (Bool-cases (c == d)) [
            | inl k ↦
                (let same = rw k at h in
                  let e : drop_first 2 (show c) subnet us ≡ vs = cc in
                  rw (← e) (mentions-drop_first 2 (show c) subnet net us clean))
            | inr k ↦ (let same = rw k at h in let e : us ≡ vs = cc in rw (← e) clean)
          ]

  without-OnlyBase :
      (r : Rules)
      → net ≢ genie_base_npc_chain
      → OnlyBase show net r
      → OnlyBase show net (policy_forgotten show net subnet [] (some []) r)
  without-OnlyBase r ne b = record {
    base = drop_first 2 (show genie_base_npc_chain) net b.base;
    base_there =
        rw (eq_false_of_ne net genie_base_npc_chain ne, eq_refl genie_base_npc_chain, b.base_there)
          refl;
    two = mentions-drop_first 2 (show genie_base_npc_chain) net net _ b.two;
    others = λ d vs apart h. kept d vs apart h;
  }
    where
      kept :
          (d : Text) (vs : List Rule)
          → genie_base_npc_chain ≢ d
          → without net
              (put genie_base_npc_chain (drop_first 2 (show genie_base_npc_chain) net) r)
              d
            ≡ some vs
          → mentions net vs ≡ false
      kept d vs apart h = elim (Bool-cases (net == d)) [
        | inl k ↦ (let bad = rw k at h in cc)
        | inr k ↦
            (let same = rw (k, eq_false_of_ne genie_base_npc_chain d apart) at h in
              b.others d vs apart same)
      ]

-- A policy that names the network as a peer has its chain, and the first line of the chain's listing
-- does not hold the subnet.
abbrev pub PeerReady : (Text → Text) → Text → Text → Option Networks → Rules → Type 0
PeerReady header subnet c none r = IsThere r c × (contains (header c) subnet ≡ false)
PeerReady header subnet c (some _) r = Unit

abbrev pub PeersReady : World → (Text → Text) → Text → List NetworkPolicyInfo → Rules → Type 0
PeersReady w header subnet [] r = Unit
PeersReady w header subnet (info ∷ infos) r =
    PeerReady header subnet (chain_of_policy w info.namespace info.name) info.networks r
    × PeersReady w header subnet infos r

without-IsThere : (c d : Text) (r : Rules) → c ≢ d → IsThere r d → IsThere (without c r) d
without-IsThere c d r ne (us, h) = (us, rw (eq_false_of_ne c d ne) h)

module _ (w : World) (show : Text → Rule → Text) (subnet ns name : Text) where
  pub forgotten-OnlyBase :
      (ms p : Text) (o : Option Networks) (r : Rules)
      → OnlyBase show (chain_of_network w ns name) r
      → OnlyBase show
          (chain_of_network w ns name)
          (policy_forgotten show (chain_of_network w ns name) subnet (chain_of_policy w ms p) o r)
  forgotten-OnlyBase ms p none r b =
      put-OnlyBase show (chain_of_network w ns name) subnet (chain_of_policy w ms p) r
        (policy-ne-base w ms p) b
  forgotten-OnlyBase ms p (some _) r b =
      without-OnlyBase show (chain_of_network w ns name) subnet r (network-ne-base w (name ++ ns)) b

module _ (w : World) (header : Text → Text) (show : Text → Rule → Text)
    (subnet ns name : Text) where
  forgotten-PeerReady :
      (ms p is i : Text) (o q : Option Networks) (r : Rules)
      → PeerReady header subnet (chain_of_policy w is i) q r
      → PeerReady header subnet
          (chain_of_policy w is i)
          q
          (policy_forgotten show (chain_of_network w ns name) subnet (chain_of_policy w ms p) o r)
  forgotten-PeerReady ms p is i o (some _) r h = tt
  forgotten-PeerReady ms p is i none none r (there, clean) =
      (put-IsThere (chain_of_policy w ms p) (chain_of_policy w is i) _ r there, clean)
  forgotten-PeerReady ms p is i (some _) none r (there, clean) = (
    without-IsThere (chain_of_network w ns name) (chain_of_policy w is i)
        (put genie_base_npc_chain
          (drop_first 2 (show genie_base_npc_chain) (chain_of_network w ns name)) r)
        (network-ne-policy w ns name is i)
        (put-IsThere genie_base_npc_chain (chain_of_policy w is i)
          (drop_first 2 (show genie_base_npc_chain) (chain_of_network w ns name)) r there),
    clean,
  )

  pub forgotten-PeersReady :
      (ms p : Text) (o : Option Networks) (infos : List NetworkPolicyInfo) (r : Rules)
      → PeersReady w header subnet infos r
      → PeersReady w header subnet infos
          (policy_forgotten show (chain_of_network w ns name) subnet (chain_of_policy w ms p) o r)
  forgotten-PeersReady ms p o [] r h = tt
  forgotten-PeersReady ms p o (i ∷ infos) r (h, k) = (
    forgotten-PeerReady ms p i.namespace i.name o i.networks r h,
    forgotten-PeersReady ms p o infos r k,
  )
