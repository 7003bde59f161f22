-- ===== src/Client/Tests.antt =====
-- The factory and the lister on small inputs.
use cni_genie.Base.{
  ℕ, suc, insert, member, ◌==◌, if◌then◌else◌, wrap, pure, ◌>>=◌, Text, codes, ◌≡◌, ◌≤◌, refl, true,
  none, some, List, [], ◌∷◌, length, lookup, ok,
}
use cni_genie.Types.{LogicalNetwork}
use cni_genie.Client.Factory.{
  Factory, start, informer_for, wait_for_cache_sync, is_started, new_shared, new_with_options,
  apply_options, start_informer, started, sync_each,
}
use cni_genie.Client.Requests.{Clientset}
use cni_genie.Client.Factory.Calls.{Call, requests, starts, calls, runs_of, IsNew, calls-once}
use cni_genie.Client.Factory.Requested.{requested-runs}
use cni_genie.Client.Factory.Synced.{wait_for_cache_sync_lem, synced_of}
use cni_genie.Client.Lister.{Indexer, get, found, assert_network}
use cni_genie.Client.Lister.Keys.{IsNamed, slash_free}
use cni_genie.Client.Lister.Views.{
  Change, sets, unsets, replay, IsCache, get_lem, answer, view_of, no_networks,
}
use cni_genie.Client.Copies.{Heap, list_copy}
use cni_genie.Client.Copies.Fresh.{items_at, overwrite, list_copy-fresh}
use cni_genie.Client.Memory.{numbered, fresh}

fresh-IsNew : IsNew numbered fresh
unfolding new_shared new_with_options apply_options
fresh-IsNew = record { no_informers = refl; none_started = refl; no_runs = refl }

abbrev request : Text → Call numbered
request t = requests t λ _ _ s. (s, suc s)

abbrev types : List Text
types = codes "a" ∷ codes "b" ∷ []

-- two types, started twice
abbrev twice : List (Call numbered)
twice = request (codes "a") ∷ starts types ∷ request (codes "b") ∷ starts types ∷ []

twice_runs : (calls numbered twice fresh).runs ≡ (codes "a", 7) ∷ (codes "b", 8) ∷ []
unfolding new_shared new_with_options apply_options informer_for start start_informer is_started
    lookup insert ◌==◌
twice_runs = refl

calls-once_example : length (runs_of (codes "a") (calls numbered twice fresh).runs) ≤ 1
calls-once_example = calls-once numbered twice fresh (codes "a") fresh-IsNew

abbrev make : Clientset numbered → ℕ → ℕ → ℕ × ℕ
make _ _ s = (s, suc s)

requested-runs_example :
    let (i, q) = informer_for numbered (codes "b") make (calls numbered twice fresh) in
    let r = calls numbered (starts types ∷ []) q in
    (informer_for numbered (codes "b") make r ≡ (i, r))
    × (runs_of (codes "b") (start numbered types r).runs ≡ i ∷ [])
unfolding member ◌==◌
requested-runs_example =
    requested-runs numbered twice (starts types ∷ []) fresh (codes "b") make make types fresh-IsNew
      refl

abbrev mixed : Factory numbered
mixed = record fresh.factory {
  informers = (codes "a", 1) ∷ (codes "b", 2) ∷ [];
  started_informers = (codes "a", true) ∷ [];
}

wait_for_cache_sync_lem_example :
    lookup (codes "a") (wait_for_cache_sync numbered types types (λ i. true) mixed) ≡ (
      if is_started numbered (codes "a") mixed
      then synced_of numbered (λ i. true) (lookup (codes "a") mixed.informers)
      else none)
unfolding member ◌==◌
wait_for_cache_sync_lem_example =
    wait_for_cache_sync_lem numbered types types (λ i. true) mixed (codes "a") refl refl

-- what `WaitForCacheSync` says of the two types
mixed_synced : wait_for_cache_sync numbered types types (λ i. true) mixed ≡ (codes "a", true) ∷ []
unfolding wait_for_cache_sync started sync_each is_started lookup insert ◌==◌
mixed_synced = refl

-- A cache that replays what was stored in it.
abbrev cache : Indexer
cache = record {
  State = List Change;
  Error = Unit;
  Selector = Unit;
  get_by_key = λ key s. (ok (lookup key (replay [] s)), s);
  list_all = λ _ s. (([], none), s);
  list_all_by_namespace = λ _ _ s. (([], none), s);
}

abbrev kept_cache : IsCache cache
kept_cache = record { changes = λ s. s; reads = λ key s. refl }

abbrev web : LogicalNetwork
web = record {
  name = codes "web";
  namespace = codes "shop";
  resource_version = codes "1";
  physical_net = [];
  sub_subnet = codes "10.0.1.0/24";
  plugin = codes "bridge";
}

abbrev stored : List Change
stored =
    sets web
    ∷ sets (record web { name = codes "db" })
    ∷ unsets (record web { name = codes "db" })
    ∷ []

named : (name : Text) → slash_free name ≡ true → IsNamed (codes "shop") name
named name h = record { namespaced = λ e. cc; plain_namespace = refl; plain_name = h }

get_lem_example :
    get cache (codes "shop") (codes "db") stored
    ≡ (answer (codes "db") (view_of no_networks stored (codes "shop") (codes "db")), stored)
get_lem_example =
    get_lem cache kept_cache (codes "shop") (codes "db") stored
      (named (codes "web") refl, (named (codes "db") refl, (named (codes "db") refl, tt)))
      (named (codes "db") refl)

web_found : (get cache (codes "shop") (codes "web") stored).0 ≡ ok web
unfolding get wrap ◌>>=◌ found assert_network pure lookup insert ◌==◌
web_found = refl

abbrev one_list : Heap
one_list = record {
  networks = [];
  lists = record { resource_version = codes "5"; items = some 0 } ∷ [];
  arrays = (web ∷ []) ∷ [];
}

list_copy-fresh_example :
    ((list_copy (some 0) one_list).0 ≡ some 1)
    × (items_at 1 (list_copy (some 0) one_list).1 ≡ some (web ∷ []))
    × (items_at 0 (overwrite 1 [] (list_copy (some 0) one_list).1) ≡ some (web ∷ []))
list_copy-fresh_example =
    list_copy-fresh one_list 0 0 (record { resource_version = codes "5"; items = some 0 })
      (web ∷ []) [] refl refl refl
