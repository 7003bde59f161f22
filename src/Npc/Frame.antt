-- ===== src/Npc/Frame.antt =====
-- Which chains the controller touches: the rules by which an invariant of the world passes through
-- the code of iptables.go, networkpolicycontroller.go and its worker.
pub mod Networks
pub mod NetworkPolicies
pub mod Untouched
pub mod Provenance
use cni_genie.Base.{
  Text, codes, ℕ, Bool, true, false, Option, none, some, List, [], ◌∷◌, ◌≡◌, refl, contains, Cmd,
  Keeps, Keeps-pure, Keeps-bind, Keeps-wrap, Keeps-crash, keeps_rules, Returned, value, error,
  ◌>>=◌, Bool-cases, inl, inr, eqb, if◌then◌else◌, ◌⊎◌, ◌++◌,
}
use cni_genie.Types.{LogicalNetwork}
use cni_genie.Npc.World.{World, IptablesError, exit, other}
use cni_genie.Npc.Chains.{
  genie_base_npc_chain, genie_policy_prefix, genie_network_prefix, filter_table,
  create_iptable_chain_name, exists_of, exists_chain, add_policy_chain, append_to_base,
  add_network_chain, delete_two, delete_network_chain, inserted, insert_rule, delete_rules,
  delete_network_chain_rule, delete_iptable_chain, next_pos, to_subnet, from_subnet, jump,
}

-- The chain names that the controller works on: the base chain, names that hold one of the two
-- prefixes, and the empty name, which a failed `AddNetworkChain` leaves.
pub data IsGenie (c : Text) : Type 0 where
  base : c ≡ genie_base_npc_chain → IsGenie c
  policy : contains c genie_policy_prefix ≡ true → IsGenie c
  network : contains c genie_network_prefix ≡ true → IsGenie c
  nameless : c ≡ [] → IsGenie c

-- The names of the policies' chains and of the logical networks' chains.
abbrev pub IsPolicy : World → Text → Type 0
IsPolicy w c = (suffix : Text) × (c ≡ create_iptable_chain_name w genie_policy_prefix suffix)

abbrev pub IsNetwork : World → Text → Type 0
IsNetwork w c = (suffix : Text) × (c ≡ create_iptable_chain_name w genie_network_prefix suffix)

-- The rules that the controller writes: in the base chain the traffic to or from a subnet goes to a
-- network's chain; a network's chain rejects, or goes to a policy's chain; a policy's chain accepts
-- the traffic to or from a subnet. An empty name stands where a network's chain could not be made.
pub data Permitted (w : World) (c : Text) (r : List Text) : Type 0 where
  to_network :
      (subnet chain : Text)
      → c ≡ genie_base_npc_chain
      → IsNetwork w chain
      → r ≡ to_subnet subnet chain
      → Permitted w c r
  from_network :
      (subnet chain : Text)
      → c ≡ genie_base_npc_chain
      → IsNetwork w chain
      → r ≡ from_subnet subnet chain
      → Permitted w c r
  rejects : IsNetwork w c → r ≡ jump (codes "REJECT") → Permitted w c r
  to_policy :
      (chain : Text)
      → IsNetwork w c ⊎ (c ≡ [])
      → IsPolicy w chain
      → r ≡ jump chain
      → Permitted w c r
  accepts_to :
      (subnet : Text) → IsPolicy w c → r ≡ to_subnet subnet (codes "ACCEPT") → Permitted w c r
  accepts_from :
      (subnet : Text) → IsPolicy w c → r ≡ from_subnet subnet (codes "ACCEPT") → Permitted w c r

-- Every call of the world keeps `P`, where those that write do so on a chain of the controller, and
-- add a permitted rule.
pub record Confined (w : World) (P : w.State → Type 0) : Type 0 where
  pub list : (t c : Text) → Keeps P (w.list t c)
  pub exists : (t c : Text) (r : List Text) → Keeps P (w.exists t c r)
  pub insert : (t c : Text) (n : ℕ) (r : List Text) → Permitted w c r → Keeps P (w.insert t c n r)
  pub append_unique :
      (t c : Text) (r : List Text) → Permitted w c r → Keeps P (w.append_unique t c r)
  pub delete : (t c : Text) (r : List Text) → IsGenie c → Keeps P (w.delete t c r)
  pub clear_chain : (t c : Text) → IsGenie c → Keeps P (w.clear_chain t c)
  pub delete_chain : (t c : Text) → IsGenie c → Keeps P (w.delete_chain t c)
  pub get_logical_network : (n k : Text) → Keeps P (w.get_logical_network n k)
  pub get_network_policy : (n k : Text) → Keeps P (w.get_network_policy n k)
  pub list_policies : (n : Text) → Keeps P (w.list_policies n)

pub IsGenie-base : IsGenie genie_base_npc_chain
IsGenie-base = base refl

module _ (w : World) where
  pub create_iptable_chain_name-IsPolicy :
      (suffix : Text) → IsPolicy w (create_iptable_chain_name w genie_policy_prefix suffix)
  create_iptable_chain_name-IsPolicy suffix = (suffix, refl)

  pub create_iptable_chain_name-IsNetwork :
      (suffix : Text) → IsNetwork w (create_iptable_chain_name w genie_network_prefix suffix)
  create_iptable_chain_name-IsNetwork suffix = (suffix, refl)

  pub IsPolicy-IsGenie : (c : Text) → IsPolicy w c → IsGenie c
  unfolding create_iptable_chain_name contains
  IsPolicy-IsGenie c p = rw (p.1) (policy refl)

  pub IsNetwork-IsGenie : (c : Text) → IsNetwork w c → IsGenie c
  unfolding create_iptable_chain_name contains
  IsNetwork-IsGenie c p = rw (p.1) (network refl)

  pub Permitted-IsGenie : (c : Text) (r : List Text) → Permitted w c r → IsGenie c
  Permitted-IsGenie c r (to_network s d e n q) = base e
  Permitted-IsGenie c r (from_network s d e n q) = base e
  Permitted-IsGenie c r (rejects n q) = IsNetwork-IsGenie c n
  Permitted-IsGenie c r (to_policy d (inl n) p q) = IsNetwork-IsGenie c n
  Permitted-IsGenie c r (to_policy d (inr e) p q) = nameless e
  Permitted-IsGenie c r (accepts_to s p q) = IsPolicy-IsGenie c p
  Permitted-IsGenie c r (accepts_from s p q) = IsPolicy-IsGenie c p

module _ (w : World) {P : w.State → Type 0} (k : Confined w P) where
  Keeps-exists_of : (r : Returned IptablesError (List Text)) → Keeps P (exists_of w r)
  unfolding exists_of
  Keeps-exists_of (value rules) = Keeps-pure true
  Keeps-exists_of (error (exit n)) = Keeps-pure _
  Keeps-exists_of (error other) = Keeps-crash

  pub Keeps-exists_chain : (c : Text) → Keeps P (exists_chain w c)
  unfolding exists_chain
  Keeps-exists_chain c = search (keeps_rules, k.list, Keeps-exists_of)

  pub Keeps-add_policy_chain : (n ns : Text) → Keeps P (add_policy_chain w n ns)
  unfolding add_policy_chain
  Keeps-add_policy_chain n ns =
      search (keeps_rules, k.clear_chain, IsPolicy-IsGenie w, create_iptable_chain_name-IsPolicy)

  Keeps-append_to_base :
      (r : List Text) → Permitted w genie_base_npc_chain r → Keeps P (append_to_base w r)
  unfolding append_to_base
  Keeps-append_to_base r p = search (keeps_rules, k.exists, k.append_unique)

  pub Keeps-add_network_chain : (ln : LogicalNetwork) → Keeps P (add_network_chain w ln)
  unfolding add_network_chain
  Keeps-add_network_chain ln =
      let n = create_iptable_chain_name-IsNetwork w (ln.name ++ ln.namespace) in
      Keeps-bind _ _ (Keeps-wrap _ _ (k.clear_chain _ _ (IsNetwork-IsGenie w _ n))) λ _.
        Keeps-bind _ _ (Keeps-wrap _ _ (k.append_unique _ _ _ (rejects n refl))) λ _.
          Keeps-bind _ _ (Keeps-append_to_base _ (to_network ln.sub_subnet _ refl n refl)) λ _.
            Keeps-bind _ _ (Keeps-append_to_base _ (from_network ln.sub_subnet _ refl n refl))
              λ _. Keeps-pure _

  pub Keeps-delete_two :
      (c needle : Text)
      → IsGenie c
      → (rules : List Text) (pos cnt : ℕ) → Keeps P (delete_two w c needle rules pos cnt)
  unfolding delete_two
  Keeps-delete_two c needle g [] pos cnt = Keeps-pure tt
  Keeps-delete_two c needle g (r ∷ rs) pos cnt =
      search (keeps_rules, k.delete, Keeps-delete_two c needle g rs)

  pub Keeps-delete_iptable_chain : (t c : Text) → IsGenie c → Keeps P (delete_iptable_chain w t c)
  unfolding delete_iptable_chain
  Keeps-delete_iptable_chain t c g = search (keeps_rules, k.clear_chain, k.delete_chain)

  pub Keeps-delete_network_chain : (c : Text) → IsGenie c → Keeps P (delete_network_chain w c)
  unfolding delete_network_chain
  Keeps-delete_network_chain c g =
      search (keeps_rules, k.list, Keeps-delete_two, IsGenie-base, Keeps-delete_iptable_chain)

  Keeps-inserted : (r : Returned IptablesError (Unit {0})) → Keeps P (inserted w r)
  unfolding inserted
  Keeps-inserted (value _) = Keeps-pure tt
  Keeps-inserted (error (exit n)) = search keeps_rules
  Keeps-inserted (error other) = Keeps-crash

  pub Keeps-insert_rule :
      (c : Text) (pos : ℕ) (args : List Text)
      → Permitted w c args
      → Keeps P (insert_rule w c pos args)
  unfolding insert_rule
  Keeps-insert_rule c pos args g = search (keeps_rules, k.exists, k.insert, Keeps-inserted)

  Keeps-delete_rules :
      (c rule : Text)
      → IsGenie c
      → (rules : List Text) (pos cnt : ℕ) → Keeps P (delete_rules w c rule rules pos cnt)
  unfolding delete_rules
  Keeps-delete_rules c rule g [] pos cnt = Keeps-pure cnt
  Keeps-delete_rules c rule g (r ∷ rs) pos cnt =
      search (keeps_rules, k.delete, Keeps-delete_rules c rule g rs)

  pub Keeps-delete_network_chain_rule :
      (c rule : Text) → IsGenie c → Keeps P (delete_network_chain_rule w c rule)
  unfolding delete_network_chain_rule
  Keeps-delete_network_chain_rule c rule g =
      search (keeps_rules, k.list, Keeps-delete_rules, Keeps-delete_network_chain)
