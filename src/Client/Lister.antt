-- ===== src/Client/Lister.antt =====
-- The lister of logical networks over an informer's cache
-- (controllers/logicalnetwork-pkg/client/listers/network/v1/logicalnetwork.go).
pub mod Keys
pub mod Views
use cni_genie.Base.{
  Text, codes, Option, none, some, List, [], ◌∷◌, ◌++◌, Cmd, GoResult, ok, err, panic, pure, raise,
  crash, wrap, ◌>>=◌, ◌>>◌,
}
use cni_genie.Types.{LogicalNetwork}
use cni_genie.Client.Library.{GroupResource}
use cni_genie.Client.Requests.{group_resource}

-- What a cache holds: a logical network, or an object of another type.
pub data Object : Type 0 where
  network : LogicalNetwork → Object
  foreign : Object

-- errors.NewNotFound, and the errors of the cache
pub data ListerError (E : Type 0) : Type 0 where
  missing : GroupResource → Text → ListerError E
  failed : E → ListerError E

-- cache.Indexer (client-go), with cache.ListAll and cache.ListAllByNamespace: the objects that the
-- callback gets, in order, and the error.
pub record Indexer : Type 1 where
  pub State : Type 0
  pub Error : Type 0
  pub Selector : Type 0
  pub get_by_key : Text → Cmd State Error (Option Object)
  pub list_all : Selector → State → (List Object × Option Error) × State
  pub list_all_by_namespace : Text → Selector → State → (List Object × Option Error) × State

-- `obj.(*v1.LogicalNetwork)`
unfoldable pub assert_network : {S E : Type 0} → Object → Cmd S E LogicalNetwork
assert_network (network ln) = pure ln
assert_network foreign = crash

-- the callback of `List`, over the objects; what is listed comes back beside an error
unfoldable pub append_all : {S E : Type 0} → List Object → Cmd S E (List LogicalNetwork)
append_all [] = pure []
append_all (o ∷ os) = do ln ← assert_network o; rest ← append_all os; pure (ln ∷ rest)

module _ (x : Indexer) where
  open x use {State, Error, Selector, get_by_key, list_all, list_all_by_namespace}

  abbrev pub Listed : Type 0
  Listed = List LogicalNetwork × Option Error

  abbrev ret_of : (List Object × Option Error) × State → GoResult Error Listed × State
  ret_of ((os, e), s) = (do ret ← append_all {S = State} os; pure (ret, e)) s

  -- `logicalNetworkLister.List`
  unfoldable pub list : Selector → Cmd State Error Listed
  list selector s = ret_of (list_all selector s)

  -- `logicalNetworkNamespaceLister.List`
  unfoldable pub list_in : Text → Selector → Cmd State Error Listed
  list_in namespace selector s = ret_of (list_all_by_namespace namespace selector s)

  -- the rest of `Get`, with what GetByKey found
  unfoldable pub found : Text → Option Object → Cmd State (ListerError Error) LogicalNetwork
  found name none = raise (missing (group_resource (codes "logicalnetwork")) name)
  found name (some o) = assert_network o

  -- `Get` of `LogicalNetworks(namespace)`
  unfoldable pub get : Text → Text → Cmd State (ListerError Error) LogicalNetwork
  get namespace name = do
    o ← wrap failed (get_by_key (namespace ++ codes "/" ++ name))
    found name o
