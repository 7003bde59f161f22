-- ===== src/Client/Informers.antt =====
-- The informer of logical networks
-- (controllers/logicalnetwork-pkg/client/informers/externalversions: network/v1/logicalnetwork.go,
-- network/interface.go, network/v1/interface.go and generic.go). The factory that an informer
-- refers to is the process that the functions act on.
use cni_genie.Base.{Text, codes, Option, none, some, List, [], ◌∷◌, ◌==◌, ◌&&◌, if◌then◌else◌, Cmd}
use cni_genie.Client.Library.{Library, GroupVersionResource, GroupResource}
use cni_genie.Client.Requests.{
  Clientset, new_logical_networks, list, watch, scheme_group_version, with_resource,
}
use cni_genie.Client.Factory.{Tweak, Factory, Process, informer_for}

-- reflect.TypeOf(&network_v1.LogicalNetwork{})
abbrev pub logical_network_type : Text
logical_network_type = codes "*utils.LogicalNetwork"

-- cache.NamespaceIndex, with cache.MetaNamespaceIndexFunc
abbrev pub namespace_index : Text
namespace_index = codes "namespace"

-- `resource.GroupResource()`
abbrev pub group_of : GroupVersionResource → GroupResource
group_of r = record { group = r.group; resource = r.resource }

module _ (lib : Library) where
  open lib use {State, Error, Duration, ListOptions, NetworkList, Watch, Informer, Indexer}

  -- `group` and `version`
  pub record Group : Type 0 where
    pub namespace : Text
    pub tweak_list_options : Tweak lib

  -- `logicalNetworkInformer`
  pub record NetworkInformer : Type 0 where
    pub namespace : Text
    pub tweak_list_options : Tweak lib

  -- `genericInformer`
  pub record GenericInformer : Type 0 where
    pub informer : Informer
    pub resource : GroupResource

  abbrev pub tweaked : Tweak lib → ListOptions → ListOptions
  tweaked none options = options
  tweaked (some tweak) options = tweak options

  -- `ListFunc`
  unfoldable pub list_func :
      Clientset lib → Text → Tweak lib → ListOptions → Cmd State Error NetworkList
  list_func client ns tweak options =
      list lib (new_logical_networks lib client.alpha_v1 ns) (tweaked tweak options)

  -- `WatchFunc`
  unfoldable pub watch_func : Clientset lib → Text → Tweak lib → ListOptions → Cmd State Error Watch
  watch_func client ns tweak options =
      watch lib (new_logical_networks lib client.alpha_v1 ns) (tweaked tweak options)

  -- `NewFilteredLogicalNetworkInformer`
  unfoldable pub new_filtered_informer :
      Clientset lib → Text → Duration → List Text → Tweak lib → State → Informer × State
  new_filtered_informer client ns resync indexers tweak =
      lib.new_shared_index_informer (list_func client ns tweak) (watch_func client ns tweak)
        logical_network_type resync indexers

  -- `NewLogicalNetworkInformer`
  unfoldable pub new_logical_network_informer :
      Clientset lib → Text → Duration → List Text → State → Informer × State
  new_logical_network_informer client ns resync indexers =
      new_filtered_informer client ns resync indexers none

  unfoldable pub default_informer :
      NetworkInformer → Clientset lib → Duration → State → Informer × State
  default_informer f client resync =
      new_filtered_informer client f.namespace resync (namespace_index ∷ []) f.tweak_list_options

  unfoldable pub informer : NetworkInformer → Process lib → Informer × Process lib
  informer f p = informer_for lib logical_network_type (default_informer f) p

  -- `Lister`: a lister is its indexer
  unfoldable pub lister : NetworkInformer → Process lib → Indexer × Process lib
  lister f p = let (i, q) = informer f p in (lib.get_indexer i, q)

  -- `Alpha`
  unfoldable pub alpha : Factory lib → Group
  alpha f = record { namespace = f.namespace; tweak_list_options = f.tweak_list_options }

  -- `V1` and `New`, which pass the fields on
  unfoldable pub v1 : Group → Group
  v1 g = record { namespace = g.namespace; tweak_list_options = g.tweak_list_options }

  unfoldable pub logical_networks : Group → NetworkInformer
  logical_networks v = record { namespace = v.namespace; tweak_list_options = v.tweak_list_options }

  -- `ForResource`; `none` is an error
  unfoldable pub for_resource :
      GroupVersionResource → Process lib → Option GenericInformer × Process lib
  for_resource r p =
      let known = with_resource scheme_group_version (codes "logicalnetworks") in
      let (i, q) = informer (logical_networks (v1 (alpha p.factory))) p in
      if r.group == known.group && r.version == known.version && r.resource == known.resource
      then (some (record { informer = i; resource = group_of r }), q)
      else (none, p)
