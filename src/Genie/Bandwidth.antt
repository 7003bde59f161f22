-- ===== src/Genie/Bandwidth.antt =====
-- The plugin with the least traffic by cAdvisor's samples (genie/genie-cadvisor-client.go,
-- utils/sort-map-values.go).
use cni_genie.Base.{
  Text, codes, ℕ, ◌+◌, ◌-◌, ◌%◌, ◌^◌, Bool, Option, none, some, List, [], ◌∷◌, ◌++◌, take, length,
  ltb, GoMap, lookup, insert, if◌then◌else◌, ◌==◌, Cmd, GoResult, ok, err, panic, pure, raise, lift,
  wrap, ◌>>=◌,
}
use cni_genie.Types.{InterfaceStats, ContainerStatsGenie, ContainerInfoGenie}
use cni_genie.Genie.Host.{
  Host, Response, CallError, Error, call, at, plain, empty_url, http_request, empty_response,
  read_body, bad_status, bad_json,
}
use cni_genie.Genie.Args.{or_error}

-- `<` on int64, by the bits
unfoldable pub int_less : ℕ → ℕ → Bool
int_less a b = ltb ((a + 2 ^ 63) % 2 ^ 64) ((b + 2 ^ 63) % 2 ^ 64)

abbrev pub or_zero : Option ℕ → ℕ
or_zero none = 0
or_zero (some n) = n

-- `Less` of two keys
unfoldable pub less : GoMap ℕ → Text → Text → Bool
less m a b = int_less (or_zero (lookup a m)) (or_zero (lookup b m))

-- one round of the insertion sort by which sort.Sort sorts short lists: a key goes before the
-- keys that are greater
unfoldable pub insert_key : GoMap ℕ → Text → List Text → List Text
insert_key m k [] = k ∷ []
insert_key m k (j ∷ js) = if less m k j then k ∷ j ∷ js else j ∷ insert_key m k js

unfoldable pub sort_keys : GoMap ℕ → List Text → List Text → List Text
sort_keys m sorted [] = sorted
sort_keys m sorted (k ∷ ks) = sort_keys m (insert_key m k sorted) ks

-- The variables of `computeNetworkUsage`.
pub record Usage : Type 0 where
  pub usage : GoMap ℕ
  pub rx : GoMap ℕ
  pub downlink : ℕ

unfoldable pub initial_usage : Usage
initial_usage = record {
  usage = (codes "flan", 0) ∷ (codes "cali", 0) ∷ (codes "weav", 0) ∷ [];
  rx = [];
  downlink = 0;
}

-- the difference of two uint64 counters, as an int
abbrev difference : ℕ → ℕ → ℕ
difference new old = (new + 2 ^ 64 - old) % 2 ^ 64

abbrev pub new_downlink : Option ℕ → ℕ → ℕ → ℕ
new_downlink none rx_bytes downlink = downlink
new_downlink (some old) rx_bytes downlink = difference rx_bytes old

abbrev pub record_usage : Option ℕ → Text → InterfaceStats → Usage → Usage
record_usage none key intf u = u
record_usage (some _) key intf u =
    let downlink = new_downlink (lookup intf.name u.rx) intf.rx_bytes u.downlink in
    record {
      usage = insert key downlink u.usage;
      rx = insert intf.name intf.rx_bytes u.rx;
      downlink = downlink;
    }

-- the slice of four bytes panics on a shorter name
unfoldable pub interface_usage : InterfaceStats → Usage → GoResult Error Usage
interface_usage intf u =
    if ltb (length intf.name) 4
    then panic
    else ok (record_usage (lookup (take 4 intf.name) u.usage) (take 4 intf.name) intf u)

unfoldable pub sample_usage : List InterfaceStats → Usage → GoResult Error Usage
sample_usage [] u = ok u
sample_usage (i ∷ is) u = elim (interface_usage i u) [
  | ok v ↦ sample_usage is v
  | err e ↦ err e
  | panic ↦ panic
]

unfoldable pub samples_usage : List ContainerStatsGenie → Usage → GoResult Error Usage
samples_usage [] u = ok u
samples_usage (c ∷ cs) u = elim (sample_usage c.network u) [
  | ok v ↦ samples_usage cs v
  | err e ↦ err e
  | panic ↦ panic
]

unfoldable pub full_name : Text → Text
full_name c =
    if c == codes "weav"
    then codes "weave"
    else if c == codes "flan"
    then codes "flannel"
    else if c == codes "cali"
    then codes "calico"
    else c

-- cns[0]
abbrev pub first_key : List Text → GoResult Error Text
first_key [] = panic
first_key (c ∷ cs) = ok (full_name c)

module _ (h : Host) where
  open h use {State, unmarshal_container_info, http_get, http_post, range_keys}

  abbrev pub M : Type 0 → Type 0
  M A = Cmd State Error A

  unfoldable pub sorted_keys : GoMap ℕ → List Text
  sorted_keys m = sort_keys m [] (range_keys m)

  unfoldable pub compute_network_usage : List ContainerStatsGenie → GoResult Error Text
  compute_network_usage cinfo = elim (samples_usage cinfo initial_usage) [
    | ok u ↦ first_key (sorted_keys u.usage)
    | err e ↦ err e
    | panic ↦ panic
  ]

  unfoldable pub body_of : Option Response → GoResult Error Text
  body_of none = err (plain empty_response)
  body_of (some r) = elim r.body [
    | none ↦ err (plain read_body)
    | some body ↦
        if ltb r.status_code 200
        then err (plain bad_status)
        else if ltb 200 r.status_code
        then err (plain bad_status)
        else ok body
  ]

  -- the request, with the JSON of the query where there is one
  unfoldable pub send : Option Text → Text → Cmd State CallError (Option Response)
  send none url = http_get url
  send (some data_) url = http_post url data_

  unfoldable pub http_get_json_data : Option Text → Text → M ContainerInfoGenie
  http_get_json_data post_data url = do
    resp ← wrap (λ e. at http_request (call e)) (send post_data url)
    body ← lift (body_of resp)
    lift (or_error (plain bad_json) (unmarshal_container_info body))

  unfoldable pub container_info_url : Text → Text
  container_info_url base_url = base_url ++ codes "containers"

  -- The caller's query is a nil pointer, and as an interface it is not nil: its JSON is `null`.
  unfoldable pub get_docker_containers : Text → M (List ContainerStatsGenie)
  get_docker_containers url = do
    info ← http_get_json_data (some (codes "null")) (container_info_url url)
    pure info.stats

  unfoldable pub get_cns_order_by_network_bandwith : Text → M Text
  get_cns_order_by_network_bandwith url = if url == [] then raise (plain empty_url) else do
    cinfo ← get_docker_containers (url ++ codes "/api/v1.3/")
    lift (compute_network_usage cinfo)
