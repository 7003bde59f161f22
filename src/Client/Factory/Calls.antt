-- ===== src/Client/Factory/Calls.antt =====
-- Sequences of calls of the factory that shares informers.
use cni_genie.Base.{
  Text, true, Option, none, some, List, [], ◌∷◌, ◌++◌, lookup, insert, lookup-insert, length, ◌≡◌,
  ◌≢◌, refl, ◌≤◌, ◌==◌, eq_iff, if◌then◌else◌, arith, Option-cases, inl, inr,
}
use cni_genie.Client.Library.{Library}
use cni_genie.Client.Requests.{Clientset}
use cni_genie.Client.Factory.{Factory, Process, is_started, start_informer, start, informer_for}

-- the informers that were run for a type
abbrev pub runs_of {ℓ} : {A : Type ℓ} → Text → List (Text × A) → List A
runs_of t [] = []
runs_of t ((name, i) ∷ runs) = if name == t then i ∷ runs_of t runs else runs_of t runs

runs_of-append {ℓ} :
    {A : Type ℓ} (t : Text) (xs ys : List (Text × A))
    → runs_of t (xs ++ ys) ≡ runs_of t xs ++ runs_of t ys
runs_of-append t [] ys = refl
runs_of-append t ((name, i) ∷ xs) ys = ground (arith, runs_of-append t xs ys)

abbrev to_list {ℓ} : {A : Type ℓ} → Option A → List A
to_list none = []
to_list (some a) = a ∷ []

module _ (lib : Library) where
  open lib use {Duration, Informer, State}

  -- `InformerFor` with the object's type and `newFunc`, and `Start` with the order of its loop
  pub data Call : Type 0 where
    requests : Text → (Clientset lib → Duration → State → Informer × State) → Call
    starts : List Text → Call

  abbrev pub call : Call → Process lib → Process lib
  call (requests t new_func) p = (informer_for lib t new_func p).1
  call (starts order) p = start lib order p

  abbrev pub calls : List Call → Process lib → Process lib
  calls [] p = p
  calls (c ∷ cs) p = calls cs (call c p)

  -- Nothing was requested, started or run.
  pub record IsNew (p : Process lib) : Type 0 where
    pub no_informers : p.factory.informers ≡ []
    pub none_started : p.factory.started_informers ≡ []
    pub no_runs : p.runs ≡ []

  abbrev expected : Text → Factory lib → List Informer
  expected t f = if is_started lib t f then to_list (lookup t f.informers) else []

  -- What was run for a type is its informer, once, if it is marked as started.
  pub record IsCounted (p : Process lib) : Type 0 where
    pub ran : (t : Text) → runs_of t p.runs ≡ expected t p.factory
    registered :
        (t : Text) → is_started lib t p.factory ≡ true → lookup t p.factory.informers ≢ none

  pub IsNew-IsCounted : (p : Process lib) → IsNew p → IsCounted p
  unfolding is_started lookup
  IsNew-IsCounted p h = record {
    ran = λ t. rw (h.none_started, h.no_runs) refl;
    registered = λ t e. ground (arith, h.none_started);
  }

  start_informer-IsCounted :
      (t : Text) (i : Informer) (p : Process lib)
      → lookup t p.factory.informers ≡ some i
      → IsCounted p
      → IsCounted (start_informer lib t i p)
  unfolding start_informer is_started
  start_informer-IsCounted t i p e h = record {
    ran = λ u. ground (
      arith,
      h.ran u,
      h.ran t,
      eq_iff t u,
      runs_of-append u p.runs ((t, i) ∷ []),
      lookup-insert t u true p.factory.started_informers,
    );
    registered = λ u.
        ground
          (arith, h.registered u, eq_iff t u, lookup-insert t u true p.factory.started_informers);
  }

  pub start-IsCounted :
      (order : List Text) (p : Process lib) → IsCounted p → IsCounted (start lib order p)
  unfolding start
  start-IsCounted [] p h = h
  start-IsCounted (t ∷ order) p h = elim (Option-cases (lookup t p.factory.informers)) [
    | inl e ↦ rw e (start-IsCounted order p h)
    | inr (i, e) ↦ rw e (start-IsCounted order _ (start_informer-IsCounted t i p e h))
  ]

  pub informer_for-known :
      (t : Text) (new_func : Clientset lib → Duration → State → Informer × State) (p : Process lib)
      (i : Informer)
      → lookup t p.factory.informers ≡ some i
      → informer_for lib t new_func p ≡ (i, p)
  unfolding informer_for
  informer_for-known t new_func p i e = rw (e, informer_for) refl

  -- an informer is added to the map, and nothing is run
  pub record IsAdded (t : Text) (i : Informer) (p q : Process lib) : Type 0 where
    pub informers : q.factory.informers ≡ insert t i p.factory.informers
    pub started : q.factory.started_informers ≡ p.factory.started_informers
    pub runs : q.runs ≡ p.runs

  pub informer_for-IsAdded :
      (t : Text) (new_func : Clientset lib → Duration → State → Informer × State) (p : Process lib)
      → lookup t p.factory.informers ≡ none
      → let (i, q) = informer_for lib t new_func p in IsAdded t i p q
  unfolding informer_for
  informer_for-IsAdded t new_func p e =
      rw (e, informer_for) (record { informers = refl; started = refl; runs = refl })

  IsAdded-IsCounted :
      (t : Text) (i : Informer) (p q : Process lib)
      → lookup t p.factory.informers ≡ none
      → IsAdded t i p q
      → IsCounted p
      → IsCounted q
  unfolding is_started
  IsAdded-IsCounted t i p q e a h = record {
    ran = λ u.
        rw (a.informers, a.started, a.runs)
          (ground
            (arith, h.ran u, h.registered u, eq_iff t u, lookup-insert t u i p.factory.informers));
    registered = λ u.
        rw (a.informers, a.started)
          (ground (arith, h.registered u, eq_iff t u, lookup-insert t u i p.factory.informers));
  }

  pub informer_for-IsCounted :
      (t : Text) (new_func : Clientset lib → Duration → State → Informer × State) (p : Process lib)
      → IsCounted p
      → IsCounted (informer_for lib t new_func p).1
  informer_for-IsCounted t new_func p h = elim (Option-cases (lookup t p.factory.informers)) [
    | inl e ↦ IsAdded-IsCounted t _ p _ e (informer_for-IsAdded t new_func p e) h
    | inr (i, e) ↦ rw (informer_for-known t new_func p i e) h
  ]

  pub calls-IsCounted : (cs : List Call) (p : Process lib) → IsCounted p → IsCounted (calls cs p)
  calls-IsCounted [] p h = h
  calls-IsCounted (requests t new_func ∷ cs) p h =
      calls-IsCounted cs _ (informer_for-IsCounted t new_func p h)
  calls-IsCounted (starts order ∷ cs) p h = calls-IsCounted cs _ (start-IsCounted order p h)

  at_most_one : (t : Text) (p : Process lib) → IsCounted p → length (runs_of t p.runs) ≤ 1
  at_most_one t p h = ground (arith, h.ran t)

  -- From a new factory, whatever informers are requested and however often `Start` is called, and
  -- in whatever orders its loops visit the map, no type's informer is run twice.
  pub calls-once :
      (cs : List Call) (p : Process lib) (t : Text)
      → IsNew p
      → length (runs_of t (calls cs p).runs) ≤ 1
  calls-once cs p t h = at_most_one t _ (calls-IsCounted cs p (IsNew-IsCounted p h))
