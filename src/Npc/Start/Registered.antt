-- ===== src/Npc/Start/Registered.antt =====
-- The informer that the controller's handlers are added to, and the goroutines of the factory.
use cni_genie.Base.{Text, true, List, [], ◌∷◌, ◌++◌, member, ◌≡◌, refl, ap, ◌∙◌}
use cni_genie.Client.Library.{Library}
use cni_genie.Client.Factory.{Process, start}
use cni_genie.Client.Factory.Calls.{Call, calls, runs_of, IsNew}
use cni_genie.Client.Factory.Requested.{requested-runs}
use cni_genie.Client.Informers.{logical_network_type, informer, lister, default_informer}
use cni_genie.Npc.World.{World}
use cni_genie.Npc.Start.{Kube, SetUp, network_funcs, new_npc_controller, network_informer}

module _ (lib : Library) (kube : Kube) (w : World) where
  -- the informer of logical networks that the first call gives
  abbrev requested : SetUp lib kube w → lib.Informer × Process lib
  requested u = informer lib (network_informer lib kube w u.external) u.external

  -- Every part of the controller that concerns logical networks stands on one informer.
  record IsShared (u : SetUp lib kube w) (i : lib.Informer) (p : Process lib) : Type 0 where
    lists : (new_npc_controller lib kube w u).0.logical_nw_lister ≡ lib.get_indexer i
    syncs : (new_npc_controller lib kube w u).0.logical_nw_synced ≡ i
    handles :
        (new_npc_controller lib kube w u).1.network_handlers
        ≡ u.network_handlers ++ (i, network_funcs lib kube w) ∷ []
    process : (new_npc_controller lib kube w u).1.external ≡ p

  new_npc_controller-IsShared :
      (u : SetUp lib kube w)
      → let (i, p) = requested u in
        informer lib (network_informer lib kube w u.external) p ≡ (i, p)
        → IsShared u (requested u).0 (requested u).1
  unfolding new_npc_controller lister
  new_npc_controller-IsShared u e =
      let ask = informer lib (network_informer lib kube w u.external) in
      let again = ap (λ r. ask r.1) e ∙ e in
      record {
        lists = refl;
        syncs = ap (λ r. r.0) e;
        handles = ap (λ r. u.network_handlers ++ (r.0, network_funcs lib kube w) ∷ []) again;
        process = ap (λ r. r.1) again;
      }

  -- What the controller has of logical networks.
  pub record IsServed (u : SetUp lib kube w) (later : List (Call lib)) (order : List Text)
      : Type 0 where
    pub network : lib.Informer
    pub lists : (new_npc_controller lib kube w u).0.logical_nw_lister ≡ lib.get_indexer network
    pub syncs : (new_npc_controller lib kube w u).0.logical_nw_synced ≡ network
    pub handles :
        (new_npc_controller lib kube w u).1.network_handlers
        ≡ u.network_handlers ++ (network, network_funcs lib kube w) ∷ []
    pub ran :
        runs_of logical_network_type
          (start lib order (calls lib later (new_npc_controller lib kube w u).1.external)).runs
        ≡ network ∷ []

  -- With a new factory of informers, the lister, the test for a filled cache and the event
  -- handlers of a new controller all stand on one informer of logical networks; and after any more
  -- calls of the factory, once a loop of `Start` has visited the type, this informer has been run,
  -- exactly once, and no other informer of the type has.
  pub new_npc_controller-IsServed :
      (u : SetUp lib kube w) (later : List (Call lib)) (order : List Text)
      → IsNew lib u.external
      → member logical_network_type order ≡ true
      → IsServed u later order
  unfolding informer
  new_npc_controller-IsServed u later order new m =
      let i = (requested u).0 in
      let make = default_informer lib (network_informer lib kube w u.external) in
      let now = requested-runs lib [] [] u.external logical_network_type make make order new m in
      let after =
        requested-runs lib [] later u.external logical_network_type make make order new m in
      let shared = new_npc_controller-IsShared u now.0 in
      record {
        network = i;
        lists = shared.lists;
        syncs = shared.syncs;
        handles = shared.handles;
        ran = rw shared.process after.1;
      }
