-- ===== src/Npc/Sync/Run.antt =====
-- How `Run` ends.
use cni_genie.Base.{
  Text, ◌≡◌, ◌≢◌, refl, ap, ◌++◌, GoResult, attempt-bind_crash, wrap-state, Bool, true, false, List,
  [], ◌∷◌, ok, panic, pure, raise, wrap, wrap-ok, wrap-ok_iff, bind-ok, bind-err, bind-panic,
  attempt-bind_ok, attempt-bind_err, GoResult-cases, ◌⊎◌, inl, inr, if◌then◌else◌,
}
use cni_genie.Npc.World.{World, Error, at, plain, create_base, cache_sync}
use cni_genie.Npc.Chains.{create_base_chain}
use cni_genie.Npc.Sync.{sync_handler, worker, run}

module _ (w : World) where
  -- The keys were handled in their order, each in the state that the one before it left. Their handlers
  -- returned, with or without an error.
  pub data AllHandled : List Text → w.State → w.State → Type 0 where
    none_left : (s : w.State) → AllHandled [] s s
    handled :
        (key : Text) (keys : List Text) (s t : w.State)
        → (sync_handler w key s).0 ≢ panic
        → AllHandled keys (sync_handler w key s).1 t
        → AllHandled (key ∷ keys) s t

  -- all keys were handled, and there is no error
  abbrev pub Drained : List Text → w.State → GoResult Error (Unit {0}) × w.State → Type 0
  Drained keys s out = (t : w.State) × (out ≡ (ok tt, t)) × AllHandled keys s t

  -- the keys before one were handled, and the handler of this one panicked
  pub record Crashed (keys : List Text) (s : w.State) (out : GoResult Error (Unit {0}) × w.State)
      : Type 0 where
    pub before : List Text
    pub key : Text
    pub after : List Text
    pub split : keys ≡ before ++ key ∷ after
    pub reached : w.State
    pub each : AllHandled before s reached
    pub crash : (sync_handler w key reached).0 ≡ panic
    pub out_is : out ≡ (panic, (sync_handler w key reached).1)

  abbrev pub Ended : List Text → w.State → GoResult Error (Unit {0}) × w.State → Type 0
  Ended keys s out = Drained keys s out ⊎ Crashed keys s out

  Ended-handled :
      (key : Text) (keys : List Text) (s : w.State) (out : GoResult Error (Unit {0}) × w.State)
      → (sync_handler w key s).0 ≢ panic
      → Ended keys (sync_handler w key s).1 out
      → Ended (key ∷ keys) s out
  Ended-handled key keys s out n (inl (t, e, h)) = inl (t, e, handled key keys s t n h)
  Ended-handled key keys s out n (inr c) = inr (record {
    before = key ∷ c.before;
    key = c.key;
    after = c.after;
    split = ap (λ l. key ∷ l) c.split;
    reached = c.reached;
    each = handled key c.before s c.reached n c.each;
    crash = c.crash;
    out_is = c.out_is;
  })

  worker-Ended : (keys : List Text) (s : w.State) → Ended keys s (worker w keys s)
  unfolding worker pure
  worker-Ended [] s = inl (s, refl, none_left s)
  worker-Ended (key ∷ keys) s =
      let handle = sync_handler w key in
      elim (GoResult-cases (handle s).0) [
        | inl (a, e) ↦
            Ended-handled key keys s _ (λ p. cc)
              (rw (attempt-bind_ok {F = Error} handle (λ _. worker w keys) s a e)
                (worker-Ended keys (handle s).1))
        | inr (inl (x, e)) ↦
            Ended-handled key keys s _ (λ p. cc)
              (rw (attempt-bind_err {F = Error} handle (λ _. worker w keys) s x e)
                (worker-Ended keys (handle s).1))
        | inr (inr e) ↦ inr (record {
          before = [];
          key = key;
          after = keys;
          split = refl;
          reached = s;
          each = none_left s;
          crash = e;
          out_is = attempt-bind_crash {F = Error} handle (λ _. worker w keys) s e;
        })
      ]

  -- Once the base chain is made and the caches are filled, `Run` hands every key to its handler, in the
  -- order of the queue, each in the state that the one before it left, whether or not the ones before
  -- it failed, and returns without an error; unless a handler panics: then the keys before that one
  -- were handled in this way, the ones after it are not, and `Run` panics in the state that the
  -- handler left.
  pub run-Ended :
      (synced : Bool) (keys : List Text) (s : w.State)
      → (create_base_chain w s).0 ≡ ok tt
      → synced ≡ true
      → Ended keys (create_base_chain w s).1 (run w synced keys s)
  unfolding run
  run-Ended synced keys s made filled =
      let make = wrap (at create_base) (create_base_chain w) in
      rw
        (
          bind-ok make _ s tt (wrap-ok (at create_base) (create_base_chain w) s tt made),
          filled,
          wrap-state (at create_base) (create_base_chain w) s,
        )
        (worker-Ended keys (create_base_chain w s).1)

  -- If `Run` returns without an error, the base chain was made and the caches were filled.
  pub run-ok :
      (synced : Bool) (keys : List Text) (s : w.State)
      → (run w synced keys s).0 ≡ ok tt
      → ((create_base_chain w s).0 ≡ ok tt) × (synced ≡ true)
  unfolding run raise
  run-ok synced keys s e =
      let base = create_base_chain w in
      let make = wrap (at create_base) base in
      elim (GoResult-cases (make s).0) [
        | inl (a, k) ↦
            (let rest = rw (bind-ok make _ s a k) at e in
              ((wrap-ok_iff (at create_base) base s tt).0 k, went_on synced (make s).1 rest))
        | inr (inl (x, k)) ↦ (let bad = rw (bind-err make _ s x k) at e in cc)
        | inr (inr k) ↦ (let bad = rw (bind-panic make _ s k) at e in cc)
      ]
    where
      went_on :
          (b : Bool) (t : w.State)
          → ((if b then worker w keys else raise (plain cache_sync)) t).0 ≡ ok tt
          → b ≡ true
      went_on true t h = refl
      went_on false t h = cc
