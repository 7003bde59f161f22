-- ===== src/Client/Requests.antt =====
-- The typed client of logical networks (controllers/logicalnetwork-pkg/client/clientset/versioned:
-- clientset.go, typed/network/v1/network_client.go and typed/network/v1/logicalnetwork.go). The
-- pointers that the code checks for nil are those of a configuration.
use cni_genie.Base.{
  Text, codes, Bool, true, false, Option, none, some, List, [], ◌==◌, ◌&&◌, if◌then◌else◌, Cmd,
  GoResult, ok, err, panic, pure, ◌>>=◌,
}
use cni_genie.Types.{LogicalNetwork}
use cni_genie.Client.Library.{
  Library, RestConfig, GroupVersion, GroupVersionResource, GroupResource,
}

-- register.go of the two packages
abbrev pub group_name : Text
group_name = codes "alpha.network.k8s.io"

abbrev pub scheme_group_version : GroupVersion
scheme_group_version = record { group = group_name; version = codes "v1" }

abbrev pub with_resource : GroupVersion → Text → GroupVersionResource
with_resource gv r = record { group = gv.group; version = gv.version; resource = r }

-- `Resource`
abbrev pub group_resource : Text → GroupResource
group_resource r = record { group = scheme_group_version.group; resource = r }

abbrev logicalnetworks : Text
logicalnetworks = codes "logicalnetworks"

-- an error becomes a panic
unfoldable pub or_die : {E A : Type 0} → GoResult E A → GoResult E A
or_die (ok a) = ok a
or_die (err e) = panic
or_die panic = panic

module _ (lib : Library) where
  abbrev pub Config : Type 0
  Config = RestConfig lib.Limiter lib.Codec lib.Float

  -- `logicalNetworks`
  pub record Networks : Type 0 where
    pub client : lib.Rest
    pub ns : Text

  -- `Clientset`; `AlphaV1Client` is its REST client
  pub record Clientset : Type 0 where
    pub discovery : lib.Discovery
    pub alpha_v1 : lib.Rest

  abbrev pub new_logical_networks : lib.Rest → Text → Networks
  new_logical_networks c namespace = record { client = c; ns = namespace }

  -- the namespace and the resource, which every request names
  abbrev about : Networks → lib.Request → lib.Request
  about c r = lib.with_resource logicalnetworks (lib.with_namespace c.ns r)

  unfoldable pub get : Networks → Text → lib.GetOptions → Cmd lib.State lib.Error LogicalNetwork
  get c name options =
      lib.do_network
        (lib.with_get_options options (lib.with_name name (about c (lib.get_verb c.client))))

  unfoldable pub list : Networks → lib.ListOptions → Cmd lib.State lib.Error lib.NetworkList
  list c opts = lib.do_list (lib.with_list_options opts (about c (lib.get_verb c.client)))

  unfoldable pub watch : Networks → lib.ListOptions → Cmd lib.State lib.Error lib.Watch
  watch c opts =
      lib.do_watch (lib.with_list_options (lib.set_watch opts) (about c (lib.get_verb c.client)))

  unfoldable pub create : Networks → LogicalNetwork → Cmd lib.State lib.Error LogicalNetwork
  create c ln = lib.do_network (lib.with_network ln (about c (lib.post_verb c.client)))

  unfoldable pub update : Networks → LogicalNetwork → Cmd lib.State lib.Error LogicalNetwork
  update c ln =
      lib.do_network (lib.with_network ln (lib.with_name ln.name (about c (lib.put_verb c.client))))

  unfoldable pub delete : Networks → Text → lib.DeleteOptions → Cmd lib.State lib.Error (Unit {0})
  delete c name options =
      lib.do_error
        (lib.with_delete_options options (lib.with_name name (about c (lib.delete_verb c.client))))

  unfoldable pub delete_collection :
      Networks → lib.DeleteOptions → lib.ListOptions → Cmd lib.State lib.Error (Unit {0})
  delete_collection c options list_options = lib.do_error (
      lib.with_delete_options options
        (lib.with_list_options list_options (about c (lib.delete_verb c.client))))

  unfoldable pub patch :
      Networks → Text → lib.PatchType → Text → List Text → Cmd lib.State lib.Error LogicalNetwork
  patch c name pt data_ subresources = lib.do_network (
      lib.with_bytes data_ (
        lib.with_name name
          (lib.with_sub_resource subresources (about c (lib.patch_verb pt c.client)))))

  -- `setConfigDefaults`, which returns no error
  unfoldable pub set_config_defaults : Config → Config
  set_config_defaults config = record config {
    group_version = some scheme_group_version;
    api_path = codes "/apis";
    serializer = some lib.codec;
    user_agent = if config.user_agent == [] then lib.default_user_agent else config.user_agent;
  }

  -- `NewForConfig` of network_client.go
  unfoldable pub new_alpha_client : Config → Cmd lib.State lib.Error lib.Rest
  new_alpha_client c = lib.rest_client_for (set_config_defaults c)

  abbrev is_nil {ℓ} : {A : Type ℓ} → Option A → Bool
  is_nil none = true
  is_nil (some _) = false

  -- the copy of the configuration, with a limiter where the code makes one
  unfoldable pub limited : Config → Cmd lib.State lib.Error Config
  limited c s =
      let (limiter, after) = lib.new_token_bucket c.qps c.burst s in
      if is_nil c.rate_limiter && lib.is_positive c.qps
      then (ok (record c { rate_limiter = some limiter }), after)
      else (ok c, s)

  -- `NewForConfig` of clientset.go
  unfoldable pub new_for_config : Config → Cmd lib.State lib.Error Clientset
  new_for_config c = do
    copy ← limited c
    alpha ← new_alpha_client copy
    discovery ← lib.new_discovery_for_config copy
    pure (record { discovery = discovery; alpha_v1 = alpha })

  -- `NewForConfigOrDie` of network_client.go
  unfoldable pub alpha_client_or_die : Config → Cmd lib.State lib.Error lib.Rest
  alpha_client_or_die c s = let (r, after) = new_alpha_client c s in (or_die r, after)

  -- `NewForConfigOrDie` of clientset.go, which makes no limiter
  unfoldable pub new_for_config_or_die : Config → Cmd lib.State lib.Error Clientset
  new_for_config_or_die c = do
    alpha ← alpha_client_or_die c
    discovery ← lib.new_discovery_for_config_or_die c
    pure (record { discovery = discovery; alpha_v1 = alpha })

  -- `New`
  unfoldable pub new : lib.Rest → Clientset
  new c = record { discovery = lib.new_discovery c; alpha_v1 = c }
