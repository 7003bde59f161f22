-- ===== src/Npc/Chains/Iptables.antt =====
-- What iptables documents of the filter table, for the theorems on what the controller achieves
-- where its commands succeed.
use cni_genie.Base.{
  Text, suc, ◌≡◌, Bool, true, false, ◌&&◌, ◌||◌, Option, none, some, List, [], ◌∷◌, ◌++◌, map,
  member, length, ok, itoa, ◌==◌, if◌then◌else◌,
}
use cni_genie.Npc.World.{World}
use cni_genie.Npc.Chains.{filter_table}

abbrev pub Rule : Type 0
Rule = List Text

abbrev pub Rules : Type 0
Rules = Text → Option (List Rule)

unfoldable pub same_rule : Rule → Rule → Bool
same_rule [] [] = true
same_rule [] (v ∷ vs) = false
same_rule (u ∷ us) [] = false
same_rule (u ∷ us) (v ∷ vs) = u == v && same_rule us vs

unfoldable pub has_rule : Rule → List Rule → Bool
has_rule r [] = false
has_rule r (u ∷ us) = same_rule r u || has_rule r us

abbrev pub add_unique : Rule → List Rule → List Rule
add_unique r us = if has_rule r us then us else us ++ r ∷ []

-- `after` is `before` with the rules of `c` replaced.
abbrev pub Replaced : Rules → Text → List Rule → Rules → Type 0
Replaced before c us after = (d : Text) → after d ≡ (if c == d then some us else before d)

-- a rule of the list names the chain
unfoldable pub mentions : Text → List Rule → Bool
mentions c [] = false
mentions c (r ∷ rs) = member c r || mentions c rs

-- No rule of any chain names `c`.
abbrev pub Unreferenced : Rules → Text → Type 0
Unreferenced rules c = (d : Text) (us : List Rule) → rules d ≡ some us → mentions c us ≡ false

-- Whether a rule is well formed and its target is there is up to iptables.
abbrev pub Accepts : Type 1
Accepts = Rules → Rule → Type 0

-- The rule is accepted wherever the chain that it jumps to is there.
abbrev pub JumpsTo : Accepts → Text → Rule → Type 0
JumpsTo accepts c r = (t : Rules) (us : List Rule) → t c ≡ some us → accepts t r

-- `rules` reads the filter table, `header` and `show` are the lines of a listing. Commands on a
-- chain that is there, with a rule that iptables accepts, succeed; `-D` takes a position from 1, and
-- clearing makes a missing chain. An empty chain that no rule names can be deleted.
pub record IsIptables (w : World) (rules : w.State → Rules) (header : Text → Text)
    (show : Text → Rule → Text) (accepts : Accepts) : Type 0 where
  pub list :
      (c : Text) (s : w.State) {us : List Rule}
      → rules s c ≡ some us
      → (w.list filter_table c s).0 ≡ ok (header c ∷ map (show c) us)
  pub list_rules : (c : Text) (s : w.State) → rules (w.list filter_table c s).1 ≡ rules s
  pub exists :
      (c : Text) (r : Rule) (s : w.State) {us : List Rule}
      → rules s c ≡ some us
      → accepts (rules s) r
      → (w.exists filter_table c r s).0 ≡ ok (has_rule r us)
  pub exists_rules :
      (c : Text) (r : Rule) (s : w.State) → rules (w.exists filter_table c r s).1 ≡ rules s
  pub insert_top :
      (c : Text) (r : Rule) (s : w.State) {us : List Rule}
      → rules s c ≡ some us
      → accepts (rules s) r
      → (w.insert filter_table c 1 r s).0 ≡ ok tt
  pub insert_top_rules :
      (c : Text) (r : Rule) (s : w.State) {us : List Rule}
      → rules s c ≡ some us
      → accepts (rules s) r
      → Replaced (rules s) c (r ∷ us) (rules (w.insert filter_table c 1 r s).1)
  pub append_unique :
      (c : Text) (r : Rule) (s : w.State) {us : List Rule}
      → rules s c ≡ some us
      → accepts (rules s) r
      → (w.append_unique filter_table c r s).0 ≡ ok tt
  pub append_unique_rules :
      (c : Text) (r : Rule) (s : w.State) {us : List Rule}
      → rules s c ≡ some us
      → accepts (rules s) r
      → Replaced (rules s) c (add_unique r us) (rules (w.append_unique filter_table c r s).1)
  pub delete :
      (c : Text) (s : w.State) (pre : List Rule) (r : Rule) (post : List Rule)
      → rules s c ≡ some (pre ++ r ∷ post)
      → (w.delete filter_table c (itoa (suc (length pre)) ∷ []) s).0 ≡ ok tt
  pub delete_rules :
      (c : Text) (s : w.State) (pre : List Rule) (r : Rule) (post : List Rule)
      → rules s c ≡ some (pre ++ r ∷ post)
      → Replaced
          (rules s)
          c
          (pre ++ post)
          (rules (w.delete filter_table c (itoa (suc (length pre)) ∷ []) s).1)
  pub clear_chain : (c : Text) (s : w.State) → (w.clear_chain filter_table c s).0 ≡ ok tt
  pub clear_chain_rules :
      (c : Text) (s : w.State) → Replaced (rules s) c [] (rules (w.clear_chain filter_table c s).1)
  pub delete_chain :
      (c : Text) (s : w.State)
      → rules s c ≡ some []
      → Unreferenced (rules s) c
      → (w.delete_chain filter_table c s).0 ≡ ok tt
  pub delete_chain_rules :
      (c : Text) (s : w.State)
      → rules s c ≡ some []
      → Unreferenced (rules s) c
      → (d : Text)
      → rules (w.delete_chain filter_table c s).1 d ≡ (if c == d then none else rules s d)
  pub new_rules : (s : w.State) → rules (w.new s).1 ≡ rules s
