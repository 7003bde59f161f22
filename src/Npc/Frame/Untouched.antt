-- ===== src/Npc/Frame/Untouched.antt =====
-- No run of the controller changes a chain that is not its own.
use cni_genie.Base.{
  Text, ℕ, ◌≡◌, ◌≢◌, refl, ◌∙◌, Option, none, some, List, [], ◌∷◌, Keeps, Keeps-pure, Keeps-raise,
  Keeps-bind, keeps_rules, GoMap,
}
use cni_genie.Npc.World.{World}
use cni_genie.Npc.Sync.{
  KeyAction, sync_policy, sync_network, dispatch, sync_unmarshalled, sync_handler, worker,
}
use cni_genie.Npc.Frame.{IsGenie, Permitted-IsGenie, Confined}
use cni_genie.Npc.Frame.Networks.{
  Keeps-logical_network_add, Keeps-logical_network_update, Keeps-logical_network_delete,
}
use cni_genie.Npc.Frame.NetworkPolicies.{
  Keeps-network_policy_add, Keeps-network_policy_update, Keeps-network_policy_delete,
}

-- The rules of a chain of a table, as an observer of the world sees them.
abbrev pub View : World → Type 0
View w = w.State → Text → Text → Option (List Text)

-- An iptables command works on the chain that it names, and the other calls change no chain.
pub record IsLocal (w : World) (view : View w) : Type 0 where
  pub list : (t c : Text) (s : w.State) → view (w.list t c s).1 ≡ view s
  pub exists : (t c : Text) (r : List Text) (s : w.State) → view (w.exists t c r s).1 ≡ view s
  pub insert :
      (t c : Text) (n : ℕ) (r : List Text) (s : w.State) (u d : Text)
      → c ≢ d
      → view (w.insert t c n r s).1 u d ≡ view s u d
  pub append_unique :
      (t c : Text) (r : List Text) (s : w.State) (u d : Text)
      → c ≢ d
      → view (w.append_unique t c r s).1 u d ≡ view s u d
  pub delete :
      (t c : Text) (r : List Text) (s : w.State) (u d : Text)
      → c ≢ d
      → view (w.delete t c r s).1 u d ≡ view s u d
  pub clear_chain :
      (t c : Text) (s : w.State) (u d : Text)
      → c ≢ d
      → view (w.clear_chain t c s).1 u d ≡ view s u d
  pub delete_chain :
      (t c : Text) (s : w.State) (u d : Text)
      → c ≢ d
      → view (w.delete_chain t c s).1 u d ≡ view s u d
  pub get_logical_network :
      (n k : Text) (s : w.State) → view (w.get_logical_network n k s).1 ≡ view s
  pub get_network_policy : (n k : Text) (s : w.State) → view (w.get_network_policy n k s).1 ≡ view s
  pub list_policies : (n : Text) (s : w.State) → view (w.list_policies n s).1 ≡ view s

module _ (w : World) {P : w.State → Type 0} (k : Confined w P) where
  Keeps-sync_policy : (a : KeyAction) → Keeps P (sync_policy w a)
  unfolding sync_policy
  Keeps-sync_policy a = search (
    keeps_rules,
    Keeps-network_policy_add w k,
    Keeps-network_policy_update w k,
    Keeps-network_policy_delete w k,
  )

  Keeps-sync_network : (a : KeyAction) → Keeps P (sync_network w a)
  unfolding sync_network
  Keeps-sync_network a = search (
    keeps_rules,
    Keeps-logical_network_add w k,
    Keeps-logical_network_update w k,
    Keeps-logical_network_delete w k,
  )

  Keeps-sync_unmarshalled : (o : Option (GoMap Text)) → Keeps P (sync_unmarshalled w o)
  unfolding sync_unmarshalled dispatch
  Keeps-sync_unmarshalled none = Keeps-raise _
  Keeps-sync_unmarshalled (some m) = search (keeps_rules, Keeps-sync_policy, Keeps-sync_network)

  pub Keeps-sync_handler : (key : Text) → Keeps P (sync_handler w key)
  unfolding sync_handler
  Keeps-sync_handler key = Keeps-sync_unmarshalled _

  pub Keeps-worker : (keys : List Text) → Keeps P (worker w keys)
  unfolding worker
  Keeps-worker [] = Keeps-pure tt
  Keeps-worker (key ∷ keys) =
      Keeps-bind _ _ (search (keeps_rules, Keeps-sync_handler)) (λ _. Keeps-worker keys)

module _ (w : World) (view : View w) (l : IsLocal w view) (u d : Text) (foreign : ¬ IsGenie d) where
  genie-ne : (c : Text) → IsGenie c → c ≢ d
  genie-ne c g e = foreign (rw e at g)

  untouched-Confined : (v : Option (List Text)) → Confined w (λ s. view s u d ≡ v)
  untouched-Confined v = record {
    list = λ t c. record { at = λ s h. rw (l.list t c s) h };
    exists = λ t c r. record { at = λ s h. rw (l.exists t c r s) h };
    insert = λ t c n r g. record {
      at = λ s h. l.insert t c n r s u d (genie-ne c (Permitted-IsGenie w c r g)) ∙ h;
    };
    append_unique = λ t c r g. record {
      at = λ s h. l.append_unique t c r s u d (genie-ne c (Permitted-IsGenie w c r g)) ∙ h;
    };
    delete = λ t c r g. record { at = λ s h. l.delete t c r s u d (genie-ne c g) ∙ h };
    clear_chain = λ t c g. record { at = λ s h. l.clear_chain t c s u d (genie-ne c g) ∙ h };
    delete_chain = λ t c g. record { at = λ s h. l.delete_chain t c s u d (genie-ne c g) ∙ h };
    get_logical_network = λ n k. record { at = λ s h. rw (l.get_logical_network n k s) h };
    get_network_policy = λ n k. record { at = λ s h. rw (l.get_network_policy n k s) h };
    list_policies = λ n. record { at = λ s h. rw (l.list_policies n s) h };
  }

  -- Whatever keys the queue hands out, and whether the calls succeed, fail or panic: a worker leaves
  -- the rules of every chain whose name is not the controller's as they were, if every iptables
  -- command changes at most the chain that it names and the other calls change no chain.
  pub worker_untouched :
      (keys : List Text) (s : w.State) → view (worker w keys s).1 u d ≡ view s u d
  worker_untouched keys s = (Keeps-worker w (untouched-Confined (view s u d)) keys).at s refl
