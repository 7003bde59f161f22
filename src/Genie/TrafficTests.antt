-- ===== src/Genie/TrafficTests.antt =====
-- The plugin with the least traffic at a concrete input, on the in-memory host with an answer of
-- cAdvisor.
use cni_genie.Base.{
  codes, ℕ, ◌≡◌, refl, ◌==◌, some, List, [], ◌∷◌, ◌++◌, lookup, insert, member, ok, ◌>>=◌,
  Bool-cases, inl, inr,
}
use cni_genie.Types.{InterfaceStats, ContainerStatsGenie}
use cni_genie.Genie.Host.{Host}
use cni_genie.Genie.Bandwidth.{
  int_less, less, insert_key, sort_keys, sorted_keys, initial_usage, interface_usage, sample_usage,
  samples_usage, full_name, compute_network_usage, body_of, send, http_get_json_data,
  container_info_url, get_docker_containers, get_cns_order_by_network_bandwith,
}
use cni_genie.Genie.Args.{or_error}
use cni_genie.Genie.LeastPlugin.{VisitsKeys, IsLeast, get_cns_order_by_network_bandwith-IsLeast}
use cni_genie.Genie.Memory.{memory}

abbrev interface_of : ℕ → ℕ → ℕ → List InterfaceStats
interface_of a b c =
    record { name = codes "flannel.1"; rx_bytes = a }
    ∷ record { name = codes "cali0"; rx_bytes = b }
    ∷ record { name = codes "weave"; rx_bytes = c }
    ∷ []

-- the downlinks of the second sample are 350, 250 and 150
abbrev two_samples : List ContainerStatsGenie
two_samples =
    record { network = interface_of 100 10 7 } ∷ record { network = interface_of 450 260 157 } ∷ []

abbrev answering : Host
answering = record memory {
  http_post = λ u b s. (ok (some (record { status_code = 200; body = some (codes "{}") })), s);
  unmarshal_container_info = λ t. some (record { stats = two_samples });
}

answering-VisitsKeys : VisitsKeys answering
unfolding member lookup
answering-VisitsKeys [] k = refl
answering-VisitsKeys ((j, n) ∷ m) k = elim (Bool-cases (j == k)) [
  | inl e ↦ rw e refl
  | inr e ↦ rw e (answering-VisitsKeys m k)
]

weave_chosen :
    (get_cns_order_by_network_bandwith answering (codes "http://127.0.0.1:4194") []).0
    ≡ ok (codes "weave")
unfolding or_error get_cns_order_by_network_bandwith get_docker_containers http_get_json_data send
    body_of container_info_url compute_network_usage full_name samples_usage sample_usage
    interface_usage initial_usage sorted_keys sort_keys insert_key less int_less lookup insert ◌==◌
    ◌>>=◌
weave_chosen = refl

get_cns_order_by_network_bandwith-IsLeast_example :
    (samples : List ContainerStatsGenie) × ((get_docker_containers answering
        (codes "http://127.0.0.1:4194" ++ codes "/api/v1.3/")
        []).0
      ≡ ok samples)
    × IsLeast samples (codes "weave")
get_cns_order_by_network_bandwith-IsLeast_example =
    get_cns_order_by_network_bandwith-IsLeast answering answering-VisitsKeys
      (codes "http://127.0.0.1:4194") [] (codes "weave") weave_chosen
