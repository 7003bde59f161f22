-- ===== src/Client/Factory/Requested.antt =====
-- Informers that were requested of the factory, and `Start`.
use cni_genie.Base.{
  Text, true, none, some, List, [], ◌∷◌, lookup, member, lookup-insert, ◌≡◌, refl, ◌∙◌, ◌==◌,
  eq_iff, arith, Option-cases, Bool-cases, ◌⊎◌, inl, inr,
}
use cni_genie.Client.Library.{Library}
use cni_genie.Client.Requests.{Clientset}
use cni_genie.Client.Factory.{Process, is_started, start_informer, start, informer_for}
use cni_genie.Client.Factory.Calls.{
  runs_of, requests, starts, Call, call, calls, IsNew, IsCounted, IsNew-IsCounted, start-IsCounted,
  informer_for-IsCounted, calls-IsCounted, informer_for-known, IsAdded, informer_for-IsAdded,
}

module _ (lib : Library) where
  open lib use {Duration, Informer, State}

  start_informer-keeps :
      (t : Text) (i : Informer) (p : Process lib)
      → (start_informer lib t i p).factory.informers ≡ p.factory.informers
  unfolding start_informer
  start_informer-keeps t i p = ground arith

  -- A type's informer stays.
  start-keeps :
      (order : List Text) (p : Process lib)
      → (start lib order p).factory.informers ≡ p.factory.informers
  unfolding start start_informer
  start-keeps [] p = refl
  start-keeps (t ∷ order) p = elim (Option-cases (lookup t p.factory.informers)) [
    | inl e ↦ rw (e, start) (start-keeps order p)
    | inr (i, e) ↦ rw (e, start) (start-keeps order _ ∙ start_informer-keeps t i p)
  ]

  IsAdded-keeps :
      (t u : Text) (i j : Informer) (p q : Process lib)
      → lookup u p.factory.informers ≡ none
      → IsAdded lib u j p q
      → lookup t p.factory.informers ≡ some i
      → lookup t q.factory.informers ≡ some i
  IsAdded-keeps t u i j p q e a h =
      rw a.informers (ground (arith, eq_iff u t, lookup-insert u t j p.factory.informers))

  calls-keeps :
      (cs : List (Call lib)) (p : Process lib) (t : Text) (i : Informer)
      → lookup t p.factory.informers ≡ some i
      → lookup t (calls lib cs p).factory.informers ≡ some i
  calls-keeps [] p t i h = h
  calls-keeps (starts order ∷ cs) p t i h = calls-keeps cs _ t i (rw (start-keeps order p) h)
  calls-keeps (requests u new_func ∷ cs) p t i h =
      calls-keeps cs _ t i (elim (Option-cases (lookup u p.factory.informers)) [
        | inl e ↦ IsAdded-keeps t u i _ p _ e (informer_for-IsAdded lib u new_func p e) h
        | inr (j, e) ↦ rw (call, informer_for-known lib u new_func p j e) h
      ])

  informer_for-registers :
      (t : Text) (new_func : Clientset lib → Duration → State → Informer × State) (p : Process lib)
      → let (i, q) = informer_for lib t new_func p in lookup t q.factory.informers ≡ some i
  informer_for-registers t new_func p = elim (Option-cases (lookup t p.factory.informers)) [
    | inl e ↦ rw ((informer_for-IsAdded lib t new_func p e).informers) (
        ground (
          arith,
          eq_iff t t,
          lookup-insert t t (informer_for lib t new_func p).0 p.factory.informers,
        ))
    | inr (i, e) ↦ rw (informer_for-known lib t new_func p i e) e
  ]

  -- A mark stays, and a visit of a registered type sets it.
  start_informer-marks :
      (t u : Text) (i : Informer) (p : Process lib)
      → (u ≡ t) ⊎ (is_started lib t p.factory ≡ true)
      → is_started lib t (start_informer lib u i p).factory ≡ true
  unfolding start_informer is_started
  start_informer-marks t u i p h =
      ground (arith, eq_iff u t, lookup-insert u t true p.factory.started_informers)

  start-marked :
      (order : List Text) (p : Process lib) (t : Text)
      → is_started lib t p.factory ≡ true
      → is_started lib t (start lib order p).factory ≡ true
  unfolding start
  start-marked [] p t h = h
  start-marked (u ∷ order) p t h = elim (Option-cases (lookup u p.factory.informers)) [
    | inl e ↦ rw (e, start) (start-marked order p t h)
    | inr (i, e) ↦ rw (e, start) (start-marked order _ t (start_informer-marks t u i p (inr h)))
  ]

  start-starts :
      (order : List Text) (p : Process lib) (t : Text) (i : Informer)
      → lookup t p.factory.informers ≡ some i
      → member t order ≡ true
      → is_started lib t (start lib order p).factory ≡ true
  unfolding start member
  start-starts [] p t i e m = cc
  start-starts (u ∷ order) p t i e m = elim (Bool-cases (u == t)) [
    | inl h ↦
        let same : u ≡ t = (eq_iff u t).0 h in
        let known : lookup u p.factory.informers ≡ some i = rw same e in
        rw (known, start) (start-marked order _ t (start_informer-marks t u i p (inl same)))
    | inr h ↦
        let rest : member t order ≡ true = ground (arith, h) in
        elim (Option-cases (lookup u p.factory.informers)) [
          | inl k ↦ rw (k, start) (start-starts order p t i e rest)
          | inr (j, k) ↦
              rw (k, start) (start-starts order _ t i (rw (start_informer-keeps u j p) e) rest)
        ]
  ]

  runs_of-started :
      (order : List Text) (p : Process lib) (t : Text) (i : Informer)
      → member t order ≡ true
      → lookup t p.factory.informers ≡ some i
      → IsCounted lib p
      → runs_of t (start lib order p).runs ≡ i ∷ []
  runs_of-started order p t i m e h =
      let known : lookup t (start lib order p).factory.informers ≡ some i =
        rw (start-keeps order p) e in
      (start-IsCounted lib order p h).ran t ∙ rw (start-starts order p t i e m, known) refl

  -- An informer that was requested, at whatever moment, stays the informer of its type; and once
  -- a loop of `Start` that visits the type is done, it has been run, exactly once.
  pub requested-runs :
      (cs later : List (Call lib)) (p : Process lib) (t : Text)
      (new_func other : Clientset lib → Duration → State → Informer × State) (order : List Text)
      → IsNew lib p
      → member t order ≡ true
      → let (i, q) = informer_for lib t new_func (calls lib cs p) in
        let r = calls lib later q in
        (informer_for lib t other r ≡ (i, r)) × (runs_of t (start lib order r).runs ≡ i ∷ [])
  requested-runs cs later p t new_func other order h m =
      let (i, q) = informer_for lib t new_func (calls lib cs p) in
      let r = calls lib later q in
      let counted : IsCounted lib q =
        informer_for-IsCounted lib t new_func _
          (calls-IsCounted lib cs p (IsNew-IsCounted lib p h)) in
      let known : lookup t r.factory.informers ≡ some i =
        calls-keeps later q t i (informer_for-registers t new_func (calls lib cs p)) in
      (
        informer_for-known lib t other r i known,
        runs_of-started order r t i m known (calls-IsCounted lib later q counted),
      )
