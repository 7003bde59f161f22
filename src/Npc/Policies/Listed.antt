-- ===== src/Npc/Policies/Listed.antt =====
-- Which policies `ListNetworkPolicies` returns for a network, by the entries of their annotations.
use cni_genie.Base.{
  Text, ℕ, zero, suc, ◌+◌, ◌≡◌, ◌≢◌, refl, ap, sym, ◌∙◌, Bool, true, false, ◌||◌, Option, none,
  some, List, [], ◌∷◌, ◌++◌, lookup, insert, lookup-insert, if◌then◌else◌, ◌==◌, eq_iff,
  eq_false_of_ne, split, trim_space, contains, arith, Option-cases, inl, inr,
}
use cni_genie.Types.{PolicyObject}
use cni_genie.Npc.World.{World, NetworkPolicy}
use cni_genie.Npc.Policies.{
  genie_network_policy, annotation, Networks, NetworkPolicyInfo, or_nil, collect, count_peer,
  count_peers, networks_of, policy_info, get_logical_networks_from_annotation,
}

abbrev pub replicate {ℓ} : {A : Type ℓ} → ℕ → A → List A
replicate zero a = []
replicate (suc n) a = a ∷ replicate n a

replicate-add {ℓ} :
    {A : Type ℓ} (m n : ℕ) (a : A) → replicate (m + n) a ≡ replicate m a ++ replicate n a
replicate-add zero n a = let e : zero + n ≡ n = omega arith in ap (λ k. replicate k a) e
replicate-add (suc m) n a =
    let e : suc m + n ≡ suc (m + n) = omega arith in
    ap (λ k. replicate k a) e ∙ ap (λ l. a ∷ l) (replicate-add m n a)

-- how many of the names are the network's, without spaces around them
abbrev pub occurrences : Text → List Text → ℕ
occurrences lnw [] = 0
occurrences lnw (p ∷ ps) =
    if lnw == trim_space p then suc (occurrences lnw ps) else occurrences lnw ps

-- an entry with a selector has the network for its selector
abbrev pub is_selected : Text → List NetworkPolicy → Bool
is_selected lnw [] = false
is_selected lnw (e ∷ es) = e.network_selector == lnw || is_selected lnw es

-- how often the entries with a selector name the network as a peer
abbrev pub named : Text → List NetworkPolicy → ℕ
named lnw [] = 0
named lnw (e ∷ es) =
    if e.network_selector == []
    then named lnw es
    else occurrences lnw (split e.peer_networks b',') + named lnw es

abbrev total : Text → Networks → ℕ
total lnw [] = 0
total lnw ((_, peers) ∷ m) = occurrences lnw peers + total lnw m

occurrences-append :
    (lnw : Text) (xs ys : List Text)
    → occurrences lnw (xs ++ ys) ≡ occurrences lnw xs + occurrences lnw ys
occurrences-append lnw [] ys = omega arith
occurrences-append lnw (x ∷ xs) ys = ground (arith, occurrences-append lnw xs ys)

count_peer-replicate :
    (lnw : Text) (ps : List Text) (info : NetworkPolicyInfo)
    → count_peer lnw ps info ≡ replicate (occurrences lnw ps) info
unfolding count_peer
count_peer-replicate lnw [] info = refl
count_peer-replicate lnw (p ∷ ps) info = ground (arith, count_peer-replicate lnw ps info)

count_peers-replicate :
    (lnw : Text) (m : Networks) (info : NetworkPolicyInfo)
    → count_peers lnw m info ≡ replicate (total lnw m) info
unfolding count_peers
count_peers-replicate lnw [] info = refl
count_peers-replicate lnw ((k, peers) ∷ m) info =
    rw (count_peer-replicate lnw peers info, count_peers-replicate lnw m info)
      (sym (replicate-add (occurrences lnw peers) (total lnw m) info))

total-insert :
    (lnw sel : Text) (new : List Text) (m : Networks)
    → total lnw (insert sel (or_nil (lookup sel m) ++ new) m) ≡ total lnw m + occurrences lnw new
unfolding insert lookup
total-insert lnw sel new [] = omega (arith, occurrences-append lnw [] new)
total-insert lnw sel new ((k, v) ∷ m) =
    ground (arith, total-insert lnw sel new m, occurrences-append lnw v new, eq_iff k sel)

total-collect :
    (lnw : Text) (es : List NetworkPolicy) (m : Networks)
    → total lnw (collect m es) ≡ total lnw m + named lnw es
unfolding collect
total-collect lnw [] m = omega arith
total-collect lnw (e ∷ es) m = ground (
  arith,
  total-collect lnw es m,
  total-collect lnw es (
      insert e.network_selector (or_nil (lookup e.network_selector m) ++ split e.peer_networks b',')
        m),
  total-insert lnw e.network_selector (split e.peer_networks b',') m,
)

abbrev is_some {ℓ} : {A : Type ℓ} → Option A → Bool
is_some none = false
is_some (some _) = true

is_some-collect :
    (lnw : Text) (es : List NetworkPolicy) (m : Networks)
    → lnw ≢ []
    → is_some (lookup lnw (collect m es)) ≡ (is_some (lookup lnw m) || is_selected lnw es)
unfolding collect
is_some-collect lnw [] m h = ground arith
is_some-collect lnw (e ∷ es) m h = ground (
  arith,
  is_some-collect lnw es m h,
  is_some-collect lnw es
      (insert e.network_selector
        (or_nil (lookup e.network_selector m) ++ split e.peer_networks b',') m)
      h,
  lookup-insert e.network_selector lnw
      (or_nil (lookup e.network_selector m) ++ split e.peer_networks b',') m,
  eq_iff e.network_selector lnw,
  eq_iff e.network_selector [],
)

-- What the annotation of a policy contributes for a network.
abbrev pub contribution :
    Text → Text → List NetworkPolicy → NetworkPolicyInfo → List NetworkPolicyInfo
contribution text lnw es info =
    if contains text lnw
    then (if is_selected lnw es
        then info ∷ []
        else replicate (named lnw es) (record info { networks = none }))
    else []

by_selector :
    (lnw : Text) (es : List NetworkPolicy) (info peer : NetworkPolicyInfo)
    → lnw ≢ []
    → (elim (lookup lnw (collect [] es)) [
      | some _ ↦ info ∷ []
      | none ↦ count_peers lnw (collect [] es) peer
    ])
      ≡ (if is_selected lnw es then info ∷ [] else replicate (named lnw es) peer)
unfolding lookup
by_selector lnw es info peer h =
    let chosen : is_some (lookup lnw (collect [] es)) ≡ is_selected lnw es =
      is_some-collect lnw es [] h in
    let count : total lnw (collect [] es) ≡ named lnw es = omega (arith, total-collect lnw es []) in
    let peers = count_peers-replicate lnw (collect [] es) peer ∙ ap (λ n. replicate n peer) count in
    elim (Option-cases (lookup lnw (collect [] es))) [
      | inl e ↦ (let c = rw e at chosen in rw (e, ← c, peers) refl)
      | inr (l, e) ↦ (let c = rw e at chosen in rw (e, ← c) refl)
    ]

-- the policy with the map that was read
abbrev info_of : PolicyObject → Option Networks → NetworkPolicyInfo
info_of policy read = record { name = policy.name; namespace = policy.namespace; networks = read }

abbrev listed_of : Text → Text → PolicyObject → Option Networks → List NetworkPolicyInfo
listed_of text lnw policy read =
    if text == []
    then []
    else if lnw == []
    then info_of policy read ∷ []
    else if contains text lnw
    then elim (lookup lnw (networks_of read)) [
      | some _ ↦ info_of policy read ∷ []
      | none ↦ count_peers lnw (networks_of read) (info_of policy none)
    ]
    else []

-- For a network's name that is not empty, and an annotation that is an array of entries, the loop
-- of `ListNetworkPolicies` appends for a policy what the entries say, provided that the
-- annotation's text contains the name: the policy with its networks, once, if an entry selects the
-- network; and otherwise the policy without networks, once for each time that an entry with a
-- selector names the network as a peer, with spaces around it or not.
pub policy_info-contribution :
    (w : World) (lnw : Text) (policy : PolicyObject) (es : List NetworkPolicy)
    → lnw ≢ []
    → annotation policy.annotations genie_network_policy ≢ []
    → w.unmarshal_policies (annotation policy.annotations genie_network_policy) ≡ some es
    → policy_info w lnw policy
      ≡ contribution (annotation policy.annotations genie_network_policy) lnw es (record {
        name = policy.name;
        namespace = policy.namespace;
        networks = some (collect [] es);
      })
unfolding policy_info get_logical_networks_from_annotation
policy_info-contribution w lnw policy es h k e =
    let text = annotation policy.annotations genie_network_policy in
    let got : get_logical_networks_from_annotation w text ≡ some (collect [] es) =
      rw (get_logical_networks_from_annotation, e) refl in
    let asked : text ≢ [] = k in
    ap (listed_of text lnw policy) got
    ∙ rw (eq_false_of_ne text [] asked, eq_false_of_ne lnw [] h)
        (ap (λ l. if contains text lnw then l else [])
          (by_selector lnw es (info_of policy (some (collect [] es))) (info_of policy none) h))
