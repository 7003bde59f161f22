-- ===== src/Genie/Networks.antt =====
-- The plugins that a pod asks for by logical networks (genie/genie-crd-processor.go).
use cni_genie.Base.{
  Text, codes, ℕ, zero, suc, Bool, false, ◌||◌, Option, none, some, List, [], ◌∷◌, ◌++◌, length,
  if◌then◌else◌, ◌==◌, contains, split, itoa, Cmd, pure, raise, lift, wrap, attempt, Returned,
  value, error, ◌>>=◌,
}
use cni_genie.Types.{LogicalNetwork, PhysicalNetwork, PluginInfo}
use cni_genie.Genie.Host.{
  Host, Error, call, at, plain, physical_network, physical_network_json, logical_network,
  logical_network_json, no_physical_net,
}
use cni_genie.Genie.Args.{or_error}

unfoldable pub eth : ℕ → Text
eth i = codes "eth" ++ itoa i

unfoldable pub used : Text → List Text → Bool
used t [] = false
used t (u ∷ us) = u == t || used t us

-- the first index from `i` whose interface is not taken; the first argument is fuel
unfoldable pub free_index : ℕ → ℕ → List Text → ℕ
free_index zero i taken = i
free_index (suc fuel) i taken =
    let rest = free_index fuel (suc i) taken in if used (eth i) taken then rest else i

-- An entry of the annotation: a network's name, and the interface if it is written behind a colon.
pub record Entry : Type 0 where
  pub network : Text
  pub interface : Option Text

abbrev entry_of : List Text → Entry
entry_of (n ∷ i ∷ _) = record { network = n; interface = some i }
entry_of (n ∷ []) = record { network = n; interface = none }
entry_of [] = record { network = []; interface = none }

unfoldable pub parse_entry : Text → Entry
parse_entry t =
    if contains t (codes ":")
    then entry_of (split t b':')
    else record { network = t; interface = none }

-- The interface of an entry, and the loop's variables `i` and `usedIntfMap` after it.
pub record Chosen : Type 0 where
  pub if_name : Text
  pub index : ℕ
  pub taken : List Text

unfoldable pub choose : Option Text → ℕ → List Text → Chosen
choose (some name) i taken = record { if_name = name; index = i; taken = taken }
choose none i taken =
    let j = free_index (suc (length taken)) i taken in
    record { if_name = eth j; index = j; taken = eth j ∷ taken }

abbrev network_path : Text → Text → Text → Text
network_path namespace kind name =
    codes "/apis/alpha.network.k8s.io/v1/namespaces/" ++ namespace ++ kind ++ name

abbrev pub info_of : PluginInfo → Returned Error PluginInfo → PluginInfo
info_of before (value info) = info
info_of before (error _) = before

module _ (h : Host) where
  open h use {State, Client, get_raw, unmarshal_logical_network, unmarshal_physical_network}

  abbrev pub M : Type 0 → Type 0
  M A = Cmd State Error A

  -- a dedicated physical network brings its plugin
  unfoldable pub with_physical : PluginInfo → PhysicalNetwork → PluginInfo
  with_physical info p = record info {
    plugin_name = if p.dedicated_status then p.plugin else info.plugin_name;
    subnet = p.subnet;
    refer_nic = p.refer_nic;
  }

  unfoldable pub get_plugin_info_from_physical_nw : Text → Text → Client → PluginInfo → M PluginInfo
  get_plugin_info_from_physical_nw name namespace client info = do
    bytes ←
        wrap (λ e. at physical_network (call e))
          (get_raw client (network_path namespace (codes "/physicalnetworks/") name))
    p ← lift (or_error (plain physical_network_json) (unmarshal_physical_network bytes))
    pure (with_physical info p)

  unfoldable pub get_logical_network : Text → Text → Client → M LogicalNetwork
  get_logical_network name namespace client = do
    bytes ←
        wrap (λ e. at logical_network (call e))
          (get_raw client (network_path namespace (codes "/logicalnetworks/") name))
    lift (or_error (plain logical_network_json) (unmarshal_logical_network bytes))

  -- one round of the loop; an error of the physical network is not looked at
  unfoldable pub plugin_info : Text → Text → Client → Text → M PluginInfo
  plugin_info name namespace client if_name = do
    ln ← get_logical_network name namespace client
    if ln.physical_net == [] then raise (plain no_physical_net) else do
      let info : PluginInfo = record {
        plugin_name = ln.plugin;
        if_name = if_name;
        subnet = [];
        refer_nic = [];
      }
      got ←
          attempt {F = Error}
            (get_plugin_info_from_physical_nw ln.physical_net namespace client info)
      pure (info_of info got)

  unfoldable pub plugin_infos : List Text → Text → Client → ℕ → List Text → M (List PluginInfo)
  plugin_infos [] namespace client i taken = pure []
  plugin_infos (t ∷ ts) namespace client i taken = do
    let entry = parse_entry t
    let chosen = choose entry.interface i taken
    info ← plugin_info entry.network namespace client chosen.if_name
    rest ← plugin_infos ts namespace client chosen.index chosen.taken
    pure (info ∷ rest)

  unfoldable pub get_plugin_info_from_nw_annot : Text → Text → Client → M (List PluginInfo)
  get_plugin_info_from_nw_annot text namespace client =
      plugin_infos (split text b',') namespace client 0 []
