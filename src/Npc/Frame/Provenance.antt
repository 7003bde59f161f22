-- ===== src/Npc/Frame/Provenance.antt =====
-- Where the rules of the filter table come from.
use cni_genie.Base.{Text, ℕ, ◌≡◌, ◌⊎◌, inl, inr, List}
use cni_genie.Npc.World.{World}
use cni_genie.Npc.Sync.{worker}
use cni_genie.Npc.Frame.{Permitted, Confined}
use cni_genie.Npc.Frame.Untouched.{Keeps-worker}

-- A rule stands in a chain of a table, as an observer of the world sees it.
abbrev pub Standing : World → Type 1
Standing w = w.State → Text → Text → List Text → Type 0

-- However a call ends: an insertion or an appending brings in at most its rule, in the chain that it
-- names, and every other call brings in no rule.
pub record OnlyAdds (w : World) (has : Standing w) : Type 0 where
  pub list :
      (t c : Text) (s : w.State) (u d : Text) (q : List Text)
      → has (w.list t c s).1 u d q
      → has s u d q
  pub exists :
      (t c : Text) (r : List Text) (s : w.State) (u d : Text) (q : List Text)
      → has (w.exists t c r s).1 u d q
      → has s u d q
  pub insert :
      (t c : Text) (n : ℕ) (r : List Text) (s : w.State) (u d : Text) (q : List Text)
      → has (w.insert t c n r s).1 u d q
      → has s u d q ⊎ ((c ≡ d) × (r ≡ q))
  pub append_unique :
      (t c : Text) (r : List Text) (s : w.State) (u d : Text) (q : List Text)
      → has (w.append_unique t c r s).1 u d q
      → has s u d q ⊎ ((c ≡ d) × (r ≡ q))
  pub delete :
      (t c : Text) (r : List Text) (s : w.State) (u d : Text) (q : List Text)
      → has (w.delete t c r s).1 u d q
      → has s u d q
  pub clear_chain :
      (t c : Text) (s : w.State) (u d : Text) (q : List Text)
      → has (w.clear_chain t c s).1 u d q
      → has s u d q
  pub delete_chain :
      (t c : Text) (s : w.State) (u d : Text) (q : List Text)
      → has (w.delete_chain t c s).1 u d q
      → has s u d q
  pub get_logical_network :
      (n k : Text) (s : w.State) (u d : Text) (q : List Text)
      → has (w.get_logical_network n k s).1 u d q
      → has s u d q
  pub get_network_policy :
      (n k : Text) (s : w.State) (u d : Text) (q : List Text)
      → has (w.get_network_policy n k s).1 u d q
      → has s u d q
  pub list_policies :
      (n : Text) (s : w.State) (u d : Text) (q : List Text)
      → has (w.list_policies n s).1 u d q
      → has s u d q

module _ (w : World) (has : Standing w) (o : OnlyAdds w has) where
  -- every rule stood there at the start, or is one that the controller may write there
  abbrev Known : w.State → w.State → Type 0
  Known start s = (u d : Text) (q : List Text) → has s u d q → has start u d q ⊎ Permitted w d q

  Known-Confined : (start : w.State) → Confined w (Known start)
  Known-Confined start = record {
    list = λ t c. record { at = λ s k u d q h. k u d q (o.list t c s u d q h) };
    exists = λ t c r. record { at = λ s k u d q h. k u d q (o.exists t c r s u d q h) };
    insert = λ t c n r p. record {
      at = λ s k u d q h. elim (o.insert t c n r s u d q h) [
        | inl old ↦ k u d q old
        | inr e ↦ inr (rw (e.0, e.1) at p)
      ];
    };
    append_unique = λ t c r p. record {
      at = λ s k u d q h. elim (o.append_unique t c r s u d q h) [
        | inl old ↦ k u d q old
        | inr e ↦ inr (rw (e.0, e.1) at p)
      ];
    };
    delete = λ t c r g. record { at = λ s k u d q h. k u d q (o.delete t c r s u d q h) };
    clear_chain = λ t c g. record { at = λ s k u d q h. k u d q (o.clear_chain t c s u d q h) };
    delete_chain = λ t c g. record { at = λ s k u d q h. k u d q (o.delete_chain t c s u d q h) };
    get_logical_network =
        λ n c. record { at = λ s k u d q h. k u d q (o.get_logical_network n c s u d q h) };
    get_network_policy =
        λ n c. record { at = λ s k u d q h. k u d q (o.get_network_policy n c s u d q h) };
    list_policies = λ n. record { at = λ s k u d q h. k u d q (o.list_policies n s u d q h) };
  }

  -- Whatever keys the queue hands out, and whether the calls succeed, fail or panic: a rule that
  -- stands in a chain after a worker's run stood there before, or is one of the controller's rules
  -- for that chain. These are, in the base chain, jumps to the networks' chains; in a network's
  -- chain, or one with an empty name, jumps to policies' chains, and the reject rule in the former;
  -- in a policy's chain, the rules that accept a subnet. Of the world this takes that insertions and
  -- appendings bring in at most their rule, in the chain that they name, and other calls none.
  pub worker_rules :
      (keys : List Text) (s : w.State) (u d : Text) (q : List Text)
      → has (worker w keys s).1 u d q
      → has s u d q ⊎ Permitted w d q
  worker_rules keys s = (Keeps-worker w (Known-Confined s) keys).at s (λ u d q h. inl h)
