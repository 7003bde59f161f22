-- ===== src/Client/Library.antt =====
-- What the client of logical networks calls and does not implement (k8s.io/client-go and
-- k8s.io/apimachinery). Calls act on a state: they allocate, or they send a request.
use cni_genie.Base.{Text, Bool, Option, List, Cmd, ℕ}
use cni_genie.Types.{LogicalNetwork}

-- schema.GroupVersion, schema.GroupVersionResource and schema.GroupResource.
pub record GroupVersion : Type 0 where
  pub group : Text
  pub version : Text

pub record GroupVersionResource : Type 0 where
  pub group : Text
  pub version : Text
  pub resource : Text

pub record GroupResource : Type 0 where
  pub group : Text
  pub resource : Text

-- What the clients read and set of a rest.Config: a nil pointer is `none`.
pub record RestConfig (Limiter Codec Float : Type 0) : Type 0 where
  pub group_version : Option GroupVersion
  pub api_path : Text
  pub serializer : Option Codec
  pub user_agent : Text
  pub rate_limiter : Option Limiter
  pub qps : Float
  pub burst : ℕ

pub record Library : Type 1 where
  pub State : Type 0
  pub Error : Type 0
  pub Duration : Type 0
  pub ListOptions : Type 0
  pub Watch : Type 0
  pub NetworkList : Type 0
  -- opts.Watch = true
  pub set_watch : ListOptions → ListOptions
  -- rest.Interface and rest.Request: a verb, then what the request is about, then how it is sent
  pub Rest : Type 0
  pub Request : Type 0
  pub GetOptions : Type 0
  pub DeleteOptions : Type 0
  pub PatchType : Type 0
  pub get_verb : Rest → Request
  pub post_verb : Rest → Request
  pub put_verb : Rest → Request
  pub delete_verb : Rest → Request
  pub patch_verb : PatchType → Rest → Request
  pub with_namespace : Text → Request → Request
  pub with_resource : Text → Request → Request
  pub with_name : Text → Request → Request
  pub with_sub_resource : List Text → Request → Request
  pub with_get_options : GetOptions → Request → Request
  pub with_list_options : ListOptions → Request → Request
  pub with_network : LogicalNetwork → Request → Request
  pub with_delete_options : DeleteOptions → Request → Request
  pub with_bytes : Text → Request → Request
  pub do_network : Request → Cmd State Error LogicalNetwork
  pub do_list : Request → Cmd State Error NetworkList
  pub do_error : Request → Cmd State Error (Unit {0})
  pub do_watch : Request → Cmd State Error Watch
  -- clients from a configuration; `codec` is DirectCodecFactory over the scheme's codecs
  pub Limiter : Type 0
  pub Codec : Type 0
  pub Float : Type 0
  pub Discovery : Type 0
  pub is_positive : Float → Bool
  pub new_token_bucket : Float → ℕ → State → Limiter × State
  pub default_user_agent : Text
  pub codec : Codec
  pub rest_client_for : RestConfig Limiter Codec Float → Cmd State Error Rest
  pub new_discovery_for_config : RestConfig Limiter Codec Float → Cmd State Error Discovery
  pub new_discovery_for_config_or_die : RestConfig Limiter Codec Float → Cmd State Error Discovery
  pub new_discovery : Rest → Discovery
  -- cache.SharedIndexInformer and cache.Indexer: list, watch, the object's type, resync period
  pub Informer : Type 0
  pub Indexer : Type 0
  pub new_shared_index_informer :
      (ListOptions → Cmd State Error NetworkList)
      → (ListOptions → Cmd State Error Watch)
      → Text
      → Duration
      → List Text
      → State
      → Informer × State
  pub get_indexer : Informer → Indexer
