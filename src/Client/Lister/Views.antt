-- ===== src/Client/Lister/Views.antt =====
-- The lister against a cache that files objects under their namespaces and names.
use cni_genie.Base.{
  Text, codes, ◌&&◌, ◌==◌, eq_iff, if◌then◌else◌, Option, none, GoResult, bind-ok, wrap, wrap-ok,
  wrap-state, pure, raise, some, List, [], ◌∷◌, ◌++◌, GoMap, lookup, insert, lookup-insert, ◌≡◌,
  refl, sym, ap, ◌∙◌, eq_false_of_ne, ok, err, arith,
}
use cni_genie.Types.{LogicalNetwork}
use cni_genie.Client.Lister.{
  Object, network, Indexer, missing, failed, found, assert_network, get, ListerError,
}
use cni_genie.Client.Requests.{group_resource}
use cni_genie.Client.Lister.Keys.{key_of, IsNamed, same_key}

-- Add and Update of cache.Store, and Delete: what an informer does to its cache.
pub data Change : Type 0 where
  sets : LogicalNetwork → Change
  unsets : LogicalNetwork → Change

-- m without a key
abbrev pub remove : Text → GoMap Object → GoMap Object
remove key [] = []
remove key ((k, o) ∷ m) = if k == key then remove key m else (k, o) ∷ remove key m

lookup-remove :
    (key other : Text) (m : GoMap Object)
    → lookup other (remove key m) ≡ (if key == other then none else lookup other m)
unfolding lookup
lookup-remove key other [] = ground arith
lookup-remove key other ((k, o) ∷ m) =
    ground (arith, lookup-remove key other m, eq_iff k key, eq_iff k other, eq_iff key other)

abbrev pub store : Change → GoMap Object → GoMap Object
store (sets ln) m = insert (key_of ln.namespace ln.name) (network ln) m
store (unsets ln) m = remove (key_of ln.namespace ln.name) m

abbrev pub replay : GoMap Object → List Change → GoMap Object
replay m [] = m
replay m (c ∷ cs) = replay (store c m) cs

-- A map from a namespace and a name to the network that is there.
abbrev pub View : Type 0
View = Text → Text → Option LogicalNetwork

abbrev update : LogicalNetwork → Option LogicalNetwork → View → View
update ln o view ns name = if (ln.namespace == ns) && (ln.name == name) then o else view ns name

abbrev pub change : Change → View → View
change (sets ln) view = update ln (some ln) view
change (unsets ln) view = update ln none view

abbrev pub view_of : View → List Change → View
view_of view [] = view
view_of view (c ∷ cs) = view_of (change c view) cs

abbrev pub NamedChange : Change → Type 0
NamedChange (sets ln) = IsNamed ln.namespace ln.name
NamedChange (unsets ln) = IsNamed ln.namespace ln.name

abbrev pub AllNamed : List Change → Type 0
AllNamed [] = Unit
AllNamed (c ∷ cs) = NamedChange c × AllNamed cs

abbrev as_object : Option LogicalNetwork → Option Object
as_object none = none
as_object (some ln) = some (network ln)

-- The store files what the view shows.
record Shows (m : GoMap Object) (view : View) : Type 0 where
  entry : (ns name : Text) → IsNamed ns name → lookup (key_of ns name) m ≡ as_object (view ns name)

store-Shows :
    (c : Change) (m : GoMap Object) (view : View)
    → NamedChange c
    → Shows m view
    → Shows (store c m) (change c view)
store-Shows (sets ln) m view named h = record {
  entry = λ ns name k. ground (
    arith,
    h.entry ns name k,
    same_key ln.namespace ln.name ns name named k,
    lookup-insert (key_of ln.namespace ln.name) (key_of ns name) (network ln) m,
  );
}
store-Shows (unsets ln) m view named h = record {
  entry = λ ns name k. ground (
    arith,
    h.entry ns name k,
    same_key ln.namespace ln.name ns name named k,
    lookup-remove (key_of ln.namespace ln.name) (key_of ns name) m,
  );
}

replay-Shows :
    (cs : List Change) (m : GoMap Object) (view : View)
    → AllNamed cs
    → Shows m view
    → Shows (replay m cs) (view_of view cs)
replay-Shows [] m view named h = h
replay-Shows (c ∷ cs) m view (n, named) h = replay-Shows cs _ _ named (store-Shows c m view n h)

-- What client-go documents of the cache: it holds what the informer stored in it.
pub record IsCache (x : Indexer) : Type 0 where
  pub changes : x.State → List Change
  pub reads :
      (key : Text) (s : x.State) → x.get_by_key key s ≡ (ok (lookup key (replay [] (changes s))), s)

abbrev pub answer :
    {E : Type 0} → Text → Option LogicalNetwork → GoResult (ListerError E) LogicalNetwork
answer name (some ln) = ok ln
answer name none = err (missing (group_resource (codes "logicalnetwork")) name)

abbrev pub no_networks : View
no_networks ns name = none

found-answer :
    (x : Indexer) (name : Text) (o : Option LogicalNetwork) (s : x.State)
    → found x name (as_object o) s ≡ (answer name o, s)
unfolding found assert_network pure raise
found-answer x name none s = refl
found-answer x name (some ln) s = refl

get-found :
    (x : Indexer) (ns name : Text) (s : x.State) (o : Option Object)
    → x.get_by_key (ns ++ codes "/" ++ name) s ≡ (ok o, s)
    → get x ns name s ≡ found x name o s
unfolding get
get-found x ns name s o e =
    let read = x.get_by_key (ns ++ codes "/" ++ name) in
    bind-ok (wrap failed read) (found x name) s o (wrap-ok failed read s o (ap (λ r. r.0) e))
    ∙ ap (found x name o) (wrap-state failed read s ∙ ap (λ r. r.1) e)

stored :
    (x : Indexer) (cache : IsCache x) (ns name : Text) (s : x.State)
    → AllNamed (cache.changes s)
    → IsNamed ns name
    → x.get_by_key (ns ++ codes "/" ++ name) s
      ≡ (ok (as_object (view_of no_networks (cache.changes s) ns name)), s)
unfolding lookup
stored x cache ns name s named h =
    let key : key_of ns name ≡ ns ++ codes "/" ++ name =
      rw (eq_false_of_ne ns [] h.namespaced) refl in
    let empty : Shows [] no_networks = record { entry = λ _ _ _. refl } in
    let shown = replay-Shows (cache.changes s) [] no_networks named empty in
    cache.reads (ns ++ codes "/" ++ name) s
    ∙ ap (λ o. (ok o, s))
        (ap (λ k. lookup k (replay [] (cache.changes s))) (sym key) ∙ shown.entry ns name h)

-- With names that the API server takes, `Get` returns the network that the informer last stored
-- under this namespace and name, and NotFound with the name where it stored none or has deleted it
-- since; it changes nothing. The cache holds what the informer stored in it.
pub get_lem :
    (x : Indexer) (cache : IsCache x) (ns name : Text) (s : x.State)
    → AllNamed (cache.changes s)
    → IsNamed ns name
    → get x ns name s ≡ (answer name (view_of no_networks (cache.changes s) ns name), s)
get_lem x cache ns name s named h =
    get-found x ns name s _ (stored x cache ns name s named h) ∙ found-answer x name _ s
