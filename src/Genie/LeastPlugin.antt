-- ===== src/Genie/LeastPlugin.antt =====
-- Which plugin cAdvisor's samples choose.
use cni_genie.Base.{
  Text, codes, ℕ, ltb, length, take, ◌≡◌, refl, sym, ◌∙◌, ◌==◌, eq_iff, Bool, true, false, Option,
  none, some, List, [], ◌∷◌, ◌++◌, GoMap, lookup, insert, lookup-insert, member, GoResult-cases, ok,
  lift, raise, bind-ok, bind-err, bind-panic, arith, Bool-cases, inl, inr,
}
use cni_genie.Types.{InterfaceStats, ContainerStatsGenie}
use cni_genie.Genie.Host.{Host}
use cni_genie.Genie.Bandwidth.{
  less, Usage, initial_usage, new_downlink, record_usage, interface_usage, sample_usage,
  samples_usage, full_name, first_key, sorted_keys, compute_network_usage, get_docker_containers,
  get_cns_order_by_network_bandwith,
}
use cni_genie.Genie.LeastUsed.{Every, sorted_keys-least}

abbrev pub is_some : Option ℕ → Bool
is_some none = false
is_some (some _) = true

-- `range` over a map visits its keys
abbrev pub VisitsKeys : Host → Type 0
VisitsKeys h = (m : GoMap ℕ) (k : Text) → member k (h.range_keys m) ≡ is_some (lookup k m)

-- the prefixes of the interfaces' names that are counted
abbrev pub counted : List Text
counted = codes "flan" ∷ codes "cali" ∷ codes "weav" ∷ []

-- The two maps have the same keys.
abbrev SameKeys : GoMap ℕ → GoMap ℕ → Type 0
SameKeys m n = (k : Text) → is_some (lookup k m) ≡ is_some (lookup k n)

Every-at : (Q : Text → Type 0) (ks : List Text) (k : Text) → Every Q ks → member k ks ≡ true → Q k
unfolding member
Every-at Q [] k qs h = cc
Every-at Q (j ∷ ks) k qs h = elim (Bool-cases (j == k)) [
  | inl e ↦ (let same : j ≡ k = (eq_iff j k).0 e in rw (← same) (qs.0))
  | inr e ↦ (let rest = rw e at h in Every-at Q ks k qs.1 rest)
]

insert-SameKeys :
    (key : Text) (n old : ℕ) (m : GoMap ℕ) → lookup key m ≡ some old → SameKeys (insert key n m) m
insert-SameKeys key n old m e k = elim (Bool-cases (key == k)) [
  | inl h ↦
      (let same : key ≡ k = (eq_iff key k).0 h in rw (lookup-insert key k n m, h, ← same, e) refl)
  | inr h ↦ rw (lookup-insert key k n m, h) refl
]

record_usage-SameKeys :
    (o : Option ℕ) (key : Text) (intf : InterfaceStats) (u : Usage)
    → lookup key u.usage ≡ o
    → SameKeys (record_usage o key intf u).usage u.usage
record_usage-SameKeys none key intf u e k = refl
record_usage-SameKeys (some old) key intf u e k =
    insert-SameKeys key (new_downlink (lookup intf.name u.rx) intf.rx_bytes u.downlink) old u.usage
      e k

interface_usage-SameKeys :
    (intf : InterfaceStats) (u v : Usage) → interface_usage intf u ≡ ok v → SameKeys v.usage u.usage
unfolding interface_usage
interface_usage-SameKeys intf u v e k = elim (Bool-cases (ltb (length intf.name) 4)) [
  | inl h ↦ (let bad = rw h at e in cc)
  | inr h ↦
      (let key = take 4 intf.name in
        let same : record_usage (lookup key u.usage) key intf u ≡ v = (let r = rw h at e in cc) in
        rw (← same) (record_usage-SameKeys (lookup key u.usage) key intf u refl k))
]

sample_usage-SameKeys :
    (is : List InterfaceStats) (u v : Usage) → sample_usage is u ≡ ok v → SameKeys v.usage u.usage
unfolding sample_usage
sample_usage-SameKeys [] u v e k = (let same : u ≡ v = cc in rw (← same) refl)
sample_usage-SameKeys (i ∷ is) u v e k = elim (GoResult-cases (interface_usage i u)) [
  | inl (m, h) ↦
      (let rest = rw (sample_usage, h) at e in
        sample_usage-SameKeys is m v rest k ∙ interface_usage-SameKeys i u m h k)
  | inr (inl (x, h)) ↦ (let bad = rw (sample_usage, h) at e in cc)
  | inr (inr h) ↦ (let bad = rw (sample_usage, h) at e in cc)
]

samples_usage-SameKeys :
    (cs : List ContainerStatsGenie) (u v : Usage)
    → samples_usage cs u ≡ ok v
    → SameKeys v.usage u.usage
unfolding samples_usage
samples_usage-SameKeys [] u v e k = (let same : u ≡ v = cc in rw (← same) refl)
samples_usage-SameKeys (c ∷ cs) u v e k = elim (GoResult-cases (sample_usage c.network u)) [
  | inl (m, h) ↦
      (let rest = rw (samples_usage, h) at e in
        samples_usage-SameKeys cs m v rest k ∙ sample_usage-SameKeys c.network u m h k)
  | inr (inl (x, h)) ↦ (let bad = rw (samples_usage, h) at e in cc)
  | inr (inr h) ↦ (let bad = rw (samples_usage, h) at e in cc)
]

initial-counted : (k : Text) → is_some (lookup k initial_usage.usage) ≡ member k counted
unfolding initial_usage lookup member
initial-counted k = ground arith

-- What a chosen plugin's name comes from.
pub record IsLeast (samples : List ContainerStatsGenie) (name : Text) : Type 0 where
  pub usage : Usage
  pub computed : samples_usage samples initial_usage ≡ ok usage
  pub prefix : Text
  pub full : full_name prefix ≡ name
  pub one : member prefix counted ≡ true
  pub least : (k : Text) → member k counted ≡ true → less usage.usage k prefix ≡ false

module _ (h : Host) (visits : VisitsKeys h) where
  first_key-IsLeast :
      (samples : List ContainerStatsGenie) (u : Usage) (ks : List Text) (name : Text)
      → samples_usage samples initial_usage ≡ ok u
      → sorted_keys h u.usage ≡ ks
      → first_key ks ≡ ok name
      → IsLeast samples name
  first_key-IsLeast samples u [] name e s f = cc
  first_key-IsLeast samples u (c ∷ cs) name e s f =
      let keys = samples_usage-SameKeys samples initial_usage u e in
      let visited : (k : Text) → member k (h.range_keys u.usage) ≡ member k counted =
        λ k. visits u.usage k ∙ keys k ∙ initial-counted k in
      let (least, known) = sorted_keys-least h u.usage c cs s in
      record {
        usage = u;
        computed = e;
        prefix = c;
        full = cc;
        one = sym (visited c) ∙ known;
        least = λ k m.
            Every-at (λ j. less u.usage j c ≡ false) (h.range_keys u.usage) k least (visited k ∙ m);
      }

  compute_network_usage-IsLeast :
      (samples : List ContainerStatsGenie) (name : Text)
      → compute_network_usage h samples ≡ ok name
      → IsLeast samples name
  unfolding compute_network_usage
  compute_network_usage-IsLeast samples name e =
      elim (GoResult-cases (samples_usage samples initial_usage)) [
        | inl (u, k) ↦
            (let f = rw (compute_network_usage, k) at e in
              first_key-IsLeast samples u (sorted_keys h u.usage) name k refl f)
        | inr (inl (x, k)) ↦ (let bad = rw (compute_network_usage, k) at e in cc)
        | inr (inr k) ↦ (let bad = rw (compute_network_usage, k) at e in cc)
      ]

  -- If a plugin is chosen by its traffic, cAdvisor has answered with samples, and the plugin is
  -- weave, flannel or calico by the prefix of its interfaces' names; and none of the three has less
  -- traffic, as a signed number, by what the loop over the samples counts. A loop over a map visits
  -- the map's keys, in any order.
  pub get_cns_order_by_network_bandwith-IsLeast :
      (url : Text) (s : h.State) (name : Text)
      → (get_cns_order_by_network_bandwith h url s).0 ≡ ok name
      → (samples : List ContainerStatsGenie) × ((get_docker_containers h
            (url ++ codes "/api/v1.3/")
            s).0
          ≡ ok samples)
        × IsLeast samples name
  unfolding get_cns_order_by_network_bandwith raise lift
  get_cns_order_by_network_bandwith-IsLeast url s name e =
      let ask = get_docker_containers h (url ++ codes "/api/v1.3/") in
      elim (Bool-cases (url == [])) [
        | inl b ↦ (let bad = rw b at e in cc)
        | inr b ↦
            (let asked = rw b at e in
              elim (GoResult-cases (ask s).0) [
                | inl (samples, k) ↦
                    (let f = rw (bind-ok ask _ s samples k) at asked in
                      (samples, k, compute_network_usage-IsLeast samples name f))
                | inr (inl (x, k)) ↦ (let bad = rw (bind-err ask _ s x k) at asked in cc)
                | inr (inr k) ↦ (let bad = rw (bind-panic ask _ s k) at asked in cc)
              ])
      ]
