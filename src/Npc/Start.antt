-- ===== src/Npc/Start.antt =====
-- How the controller is put together (NewNpcController of
-- controllers/network-policy-controller/networkpolicycontroller.go).
pub mod Registered
use cni_genie.Base.{Text, List, [], ◌∷◌, ◌++◌}
use cni_genie.Types.{LogicalNetwork, PolicyObject}
use cni_genie.Client.Library.{Library}
use cni_genie.Client.Factory.{Process}
use cni_genie.Client.Informers.{NetworkInformer, informer, lister, alpha, v1, logical_networks}
use cni_genie.Npc.World.{World}
use cni_genie.Npc.Events.{
  Deleted, add_logical_network, update_logical_network, delete_logical_network, add_policy,
  update_policy, delete_policy,
}

-- The informers of network policies (k8s.io/client-go/informers): the shared informer and its
-- lister.
pub record Kube : Type 1 where
  pub State : Type 0
  pub Informer : Type 0
  pub Lister : Type 0
  pub informer : State → Informer × State
  pub lister : State → Lister × State

-- cache.ResourceEventHandlerFuncs: each function's keys for the queue
pub record HandlerFuncs (A : Type 0) : Type 0 where
  pub add_func : A → List Text
  pub update_func : A → A → List Text
  pub delete_func : Deleted A → List Text

module _ (lib : Library) (kube : Kube) (w : World) where
  -- The two factories, and the event handlers that were added to their informers.
  pub record SetUp : Type 0 where
    pub external : Process lib
    pub kube_factory : kube.State
    pub network_handlers : List (lib.Informer × HandlerFuncs LogicalNetwork)
    pub policy_handlers : List (kube.Informer × HandlerFuncs PolicyObject)

  -- `NetworkPolicyController`, with the informers whose `HasSynced` it keeps
  pub record Controller : Type 0 where
    pub network_policies_lister : kube.Lister
    pub network_policies_synced : kube.Informer
    pub logical_nw_lister : lib.Indexer
    pub logical_nw_synced : lib.Informer

  unfoldable pub network_funcs : HandlerFuncs LogicalNetwork
  network_funcs = record {
    add_func = add_logical_network w;
    update_func = update_logical_network w;
    delete_func = delete_logical_network w;
  }

  unfoldable pub policy_funcs : HandlerFuncs PolicyObject
  policy_funcs = record {
    add_func = add_policy w;
    update_func = update_policy w;
    delete_func = delete_policy w;
  }

  abbrev pub network_informer : Process lib → NetworkInformer lib
  network_informer p = logical_networks lib (v1 lib (alpha lib p.factory))

  -- `NewNpcController`
  unfoldable pub new_npc_controller : SetUp → Controller × SetUp
  new_npc_controller u =
      let networks = network_informer u.external in
      let (policies_lister, k1) = kube.lister u.kube_factory in
      let (policies_synced, k2) = kube.informer k1 in
      let (networks_lister, p1) = lister lib networks u.external in
      let (networks_synced, p2) = informer lib networks p1 in
      let (networks_handled, p3) = informer lib networks p2 in
      let (policies_handled, k3) = kube.informer k2 in
      (
        record {
          network_policies_lister = policies_lister;
          network_policies_synced = policies_synced;
          logical_nw_lister = networks_lister;
          logical_nw_synced = networks_synced;
        },
        record {
          external = p3;
          kube_factory = k3;
          network_handlers = u.network_handlers ++ (networks_handled, network_funcs) ∷ [];
          policy_handlers = u.policy_handlers ++ (policies_handled, policy_funcs) ∷ [];
        },
      )
