-- ===== src/Npc/Chains/Names.antt =====
-- The names that `CreateIptableChainName` makes.
use cni_genie.Base.{
  Text, ℕ, ◌*◌, ◌≤◌, ◌≡◌, ◌≢◌, refl, List, [], ◌∷◌, ◌++◌, length, take, get_or, length-append,
  arith, ap,
}
use cni_genie.Npc.World.{World}
use cni_genie.Npc.Chains.{
  genie_base_npc_chain, genie_policy_prefix, genie_network_prefix, hex, create_iptable_chain_name,
}

length-hex : (bs : List ℕ) → length (hex bs) ≡ 2 * length bs
unfolding hex
length-hex [] = refl
length-hex (b ∷ bs) = omega (arith, length-hex bs)

pub length-take : (n : ℕ) (t : Text) → n ≤ length t → length (take n t) ≡ n
length-take ℕ.zero t h = refl
length-take (ℕ.suc n) [] h = elim h [ ]
length-take (ℕ.suc n) (c ∷ t) h = ap ℕ.suc (length-take n t (omega arith))

module _ (w : World) (md5-length : (t : Text) → length (w.md5 t) ≡ 16) where
  long_enough : (prefix suffix : Text) → 26 ≤ length (prefix ++ hex (w.md5 suffix))
  long_enough prefix suffix = omega (
    arith,
    length-append prefix (hex (w.md5 suffix)),
    length-hex (w.md5 suffix),
    md5-length suffix,
  )

  -- With an MD5 sum of sixteen bytes the slice of 26 bytes is within bounds for every prefix, so
  -- that every chain name has 26 bytes; and the chain of a policy is neither the chain of a logical
  -- network nor the base chain, and no network's chain is the base chain.
  pub chain_names :
      (prefix suffix p n : Text)
      → (26 ≤ length (prefix ++ hex (w.md5 suffix)))
        × (length (create_iptable_chain_name w prefix suffix) ≡ 26)
        × (create_iptable_chain_name w genie_policy_prefix p
            ≢ create_iptable_chain_name w genie_network_prefix n)
        × (create_iptable_chain_name w genie_policy_prefix p ≢ genie_base_npc_chain)
        × (create_iptable_chain_name w genie_network_prefix n ≢ genie_base_npc_chain)
  unfolding create_iptable_chain_name
  chain_names prefix suffix p n = (
    long_enough prefix suffix,
    length-take 26 _ (long_enough prefix suffix),
    (λ e. absurd (omega (arith, ap (λ t. get_or t 2 0) e))),
    (λ e. absurd (omega (arith, ap (λ t. get_or t 1 0) e))),
    (λ e. absurd (omega (arith, ap (λ t. get_or t 1 0) e))),
  )
