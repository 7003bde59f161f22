-- ===== src/Npc/Chains.antt =====
-- controllers/network-policy-controller/iptables/iptables.go
pub mod Names
pub mod Iptables
pub mod DeleteTwo
pub mod NetworkChain
pub mod DeleteNetwork
pub mod BaseChain
pub mod DeletePolicyRule
pub mod Put
use cni_genie.Base.{
  Text, codes, ℕ, suc, ◌+◌, ◌/◌, ◌%◌, Bool, true, false, not, ◌&&◌, List, [], ◌∷◌, ◌++◌, take, ltb,
  eqb, if◌then◌else◌, contains, itoa, Cmd, pure, raise, crash, wrap, attempt, Returned, value,
  error, ◌>>=◌, ◌>>◌,
}
use cni_genie.Types.{LogicalNetwork}
use cni_genie.Npc.World.{
  World, IptablesError, exit, other, Error, ipt, at, iptables_init, base_exists, base_insert,
  list_base, list_network_chain, delete_network_chain_site, flush_before_delete, delete_chain_site,
}

abbrev pub genie_base_npc_chain : Text
genie_base_npc_chain = codes "Genie-NPC-Base"

abbrev pub filter_table : Text
filter_table = codes "filter"

abbrev pub forward_chain : Text
forward_chain = codes "FORWARD"

abbrev pub genie_policy_prefix : Text
genie_policy_prefix = codes "GnPlc-"

abbrev pub genie_network_prefix : Text
genie_network_prefix = codes "GnNtk-"

-- fmt.Sprintf("%x", m)
unfoldable pub hex_digit : ℕ → ℕ
hex_digit n = if ltb n 10 then 48 + n else 87 + n

unfoldable pub hex : List ℕ → Text
hex [] = []
hex (b ∷ bs) = hex_digit (b / 16) ∷ hex_digit (b % 16) ∷ hex bs

abbrev pub jump : Text → List Text
jump chain = codes "-j" ∷ chain ∷ []

abbrev pub to_subnet : Text → Text → List Text
to_subnet subnet chain = codes "-d" ∷ subnet ∷ codes "-j" ∷ chain ∷ []

abbrev pub from_subnet : Text → Text → List Text
from_subnet subnet chain = codes "-s" ∷ subnet ∷ codes "-j" ∷ chain ∷ []

module _ (w : World) where
  open w use {State, new, list, exists, insert, append_unique, delete, clear_chain, delete_chain}

  abbrev M : Type 0 → Type 0
  M A = Cmd State Error A

  unfoldable pub create_iptable_chain_name : Text → Text → Text
  create_iptable_chain_name prefix suffix = take 26 (prefix ++ hex (w.md5 suffix))

  unfoldable pub base_rule : Bool → M (Unit {0})
  base_rule true = pure tt
  base_rule false =
      wrap (λ e. at base_insert (ipt e))
        (insert filter_table forward_chain 1 (jump genie_base_npc_chain))

  unfoldable pub create_base_chain : M (Unit {0})
  create_base_chain = do
    wrap (λ e. at iptables_init (ipt e)) new
    wrap ipt (clear_chain filter_table genie_base_npc_chain)
    there ←
        wrap (λ e. at base_exists (ipt e))
          (exists filter_table forward_chain (jump genie_base_npc_chain))
    base_rule there

  -- a failed listing with exit status 1 means that there is no such chain
  unfoldable pub exists_of : Returned IptablesError (List Text) → M Bool
  exists_of (value rules) = pure true
  exists_of (error (exit n)) = pure (not (eqb n 1))
  exists_of (error other) = crash

  unfoldable pub exists_chain : Text → M Bool
  exists_chain chain = do listed ← attempt (list filter_table chain); exists_of listed

  unfoldable pub add_policy_chain : Text → Text → M Text
  add_policy_chain name namespace = do
    let chain = create_iptable_chain_name genie_policy_prefix (name ++ namespace)
    wrap ipt (clear_chain filter_table chain)
    pure chain

  -- the rule is appended to the base chain unless it is there
  unfoldable pub append_to_base : List Text → M (Unit {0})
  append_to_base rule = do
    there ← wrap ipt (exists filter_table genie_base_npc_chain rule)
    if there then pure tt else wrap ipt (append_unique filter_table genie_base_npc_chain rule)

  unfoldable pub add_network_chain : LogicalNetwork → M Text
  add_network_chain ln = do
    let chain = create_iptable_chain_name genie_network_prefix (ln.name ++ ln.namespace)
    wrap ipt (clear_chain filter_table chain)
    wrap ipt (append_unique filter_table chain (codes "-j" ∷ codes "REJECT" ∷ []))
    append_to_base (to_subnet ln.sub_subnet chain)
    append_to_base (from_subnet ln.sub_subnet chain)
    pure chain

  unfoldable pub delete_iptable_chain : Text → Text → M (Unit {0})
  delete_iptable_chain table chain = do
    wrap (λ e. at flush_before_delete (ipt e)) (clear_chain table chain)
    wrap (λ e. at delete_chain_site (ipt e)) (delete_chain table chain)

  -- where the loop goes on: a rule that was removed moves the later ones up
  abbrev pub next_pos : ℕ → Returned IptablesError (Unit {0}) → ℕ
  next_pos pos (value _) = pos
  next_pos pos (error _) = suc pos

  -- the loops of `DeleteNetworkChain` and of `handleLogicalNetworkDelete`: at most two rules whose
  -- text holds `needle` are deleted from `chain`, by their position
  unfoldable pub delete_two : Text → Text → List Text → ℕ → ℕ → M (Unit {0})
  delete_two chain needle [] pos cnt = pure tt
  delete_two chain needle (rule ∷ rules) pos cnt =
      let skip = delete_two chain needle rules (suc pos) cnt in
      if contains rule needle
      then (do
        done ← attempt (delete filter_table chain (itoa pos ∷ []))
        let rest = delete_two chain needle rules (next_pos pos done) (suc cnt)
        if eqb (suc cnt) 2 then pure tt else rest)
      else skip

  unfoldable pub delete_network_chain : Text → M (Unit {0})
  delete_network_chain chain = do
    rules ← wrap (λ e. at list_base (ipt e)) (list filter_table genie_base_npc_chain)
    delete_two genie_base_npc_chain chain rules 0 0
    delete_iptable_chain filter_table chain

  -- exit status 1 of the insertion is passed over
  unfoldable pub inserted : Returned IptablesError (Unit {0}) → M (Unit {0})
  inserted (value _) = pure tt
  inserted (error (exit n)) = if eqb n 1 then pure tt else raise (ipt (exit n))
  inserted (error other) = crash

  unfoldable pub insert_rule : Text → ℕ → List Text → M (Unit {0})
  insert_rule chain pos args = do
    there ← wrap ipt (exists filter_table chain args)
    if there then pure tt else do done ← attempt (insert filter_table chain pos args); inserted done

  -- the loop of `DeleteNetworkChainRule`: its result is the count of other policies' rules, up to 1
  unfoldable pub delete_rules : Text → Text → List Text → ℕ → ℕ → M ℕ
  delete_rules chain rule [] pos cnt = pure cnt
  delete_rules chain rule (r ∷ rs) pos cnt =
      let keep =
        delete_rules chain rule rs (suc pos)
          (if ltb cnt 1 && contains r genie_policy_prefix then suc cnt else cnt) in
      let drop = (do
        attempt (delete filter_table chain (itoa pos ∷ []))
        delete_rules chain rule rs (suc pos) cnt) in
      if contains r rule then drop else keep

  unfoldable pub delete_network_chain_rule : Text → Text → M (Unit {0})
  delete_network_chain_rule chain rule = do
    rules ← wrap (λ e. at list_network_chain (ipt e)) (list filter_table chain)
    cnt ← delete_rules chain rule rules 0 0
    if eqb cnt 0 then wrap (at delete_network_chain_site) (delete_network_chain chain) else pure tt
