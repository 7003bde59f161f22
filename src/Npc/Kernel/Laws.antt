-- ===== src/Npc/Kernel/Laws.antt =====
-- The in-memory filter table does what iptables documents.
use cni_genie.Base.{
  Text, codes, suc, ◌≡◌, refl, some, List, [], ◌∷◌, ◌++◌, length, lookup, lookup-insert, itoa,
  number_from-itoa,
}
use cni_genie.Npc.Chains.Iptables.{Rule, Rules, IsIptables, Accepts}
use cni_genie.Npc.Kernel.{Tables, kernel, spaced, change, delete_at, lookup-erase}

abbrev pub kernel_rules : Tables → Rules
kernel_rules s c = lookup c s.chains

abbrev pub header : Text → Text
header c = codes "-N " ++ c

abbrev pub show : Text → Rule → Text
show c r = codes "-A " ++ c ++ spaced r

delete_at-length :
    (pre : List Rule) (r : Rule) (post : List Rule)
    → delete_at (suc (length pre)) (pre ++ r ∷ post) ≡ some (pre ++ post)
delete_at-length [] r post = refl
delete_at-length (u ∷ pre) r post = rw (delete_at-length pre r post) refl

delete_at-position :
    (c : Text) (s : Tables) (pre : List Rule) (r : Rule) (post : List Rule)
    → kernel_rules s c ≡ some (pre ++ r ∷ post)
    → kernel.delete (codes "filter") c (itoa (suc (length pre)) ∷ []) s
      ≡ change c (some (pre ++ post)) s
delete_at-position c s pre r post h =
    rw (h, number_from-itoa (suc (length pre)), delete_at-length pre r post) refl

-- the in-memory table accepts every rule
abbrev pub accepts_all : Accepts
accepts_all t r = Unit

pub kernel-IsIptables : IsIptables kernel kernel_rules header show accepts_all
kernel-IsIptables = record {
  list = λ c s h. rw h refl;
  list_rules = λ c s. refl;
  exists = λ c r s h a. rw h refl;
  exists_rules = λ c r s. refl;
  insert_top = λ c r s h a. rw h refl;
  insert_top_rules = λ c r s h a d. rw h (lookup-insert c d _ s.chains);
  append_unique = λ c r s h a. rw h refl;
  append_unique_rules = λ c r s h a d. rw h (lookup-insert c d _ s.chains);
  delete = λ c s pre r post h. rw (delete_at-position c s pre r post h) refl;
  delete_rules =
      λ c s pre r post h d. rw (delete_at-position c s pre r post h) (lookup-insert c d _ s.chains);
  new_rules = λ s. refl;
  delete_chain = λ c s h u. refl;
  delete_chain_rules = λ c s h u d. lookup-erase c d s.chains;
  clear_chain = λ c s. refl;
  clear_chain_rules = λ c s d. lookup-insert c d [] s.chains;
}
