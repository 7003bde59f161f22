-- ===== src/Npc/Policies/Annotation.antt =====
-- What the annotation of a network policy means.
use cni_genie.Base.{
  Text, ◌≡◌, ◌≢◌, refl, ap, sym, ◌∙◌, Bool-cases, inl, inr, false, none, some, List, [], ◌∷◌, ◌++◌,
  append-nil, append_assoc, lookup, insert, lookup-insert, if◌then◌else◌, ◌==◌, eq_iff,
  eq_false_of_ne, split,
}
use cni_genie.Npc.World.{World, NetworkPolicy}
use cni_genie.Npc.Policies.{Networks, or_nil, collect, get_logical_networks_from_annotation}

-- the peers that the entries for a selector name, in their order
unfoldable pub peers_of : Text → List NetworkPolicy → List Text
peers_of k [] = []
peers_of k (p ∷ ps) =
    let rest = peers_of k ps in
    if p.network_selector == k then split p.peer_networks b',' ++ rest else rest

-- one entry adds its peers under its selector
insert-peers :
    (k sel : Text) (new rest : List Text) (m : Networks)
    → or_nil (lookup k (insert sel (or_nil (lookup sel m) ++ new) m)) ++ rest
      ≡ or_nil (lookup k m) ++ (if sel == k then new ++ rest else rest)
insert-peers k sel new rest m =
    let known = lookup-insert sel k (or_nil (lookup sel m) ++ new) m in
    elim (Bool-cases (sel == k)) [
      | inl same ↦
          (let e : sel ≡ k = (eq_iff sel k).0 same in
            let here = rw same at known in
            rw (here, same)
              (ap (λ t. (or_nil (lookup t m) ++ new) ++ rest) e
                ∙ append_assoc (or_nil (lookup k m)) new rest))
      | inr other ↦ (let here = rw other at known in rw (here, other) refl)
    ]

lookup-collect :
    (k : Text) (ps : List NetworkPolicy) (m : Networks)
    → k ≢ []
    → or_nil (lookup k (collect m ps)) ≡ or_nil (lookup k m) ++ peers_of k ps
unfolding collect peers_of
lookup-collect k [] m h = sym (append-nil (or_nil (lookup k m)))
lookup-collect k (p ∷ ps) m h = elim (Bool-cases (p.network_selector == [])) [
  | inl empty ↦
      (let e = (eq_iff p.network_selector []).0 empty in
        let other : (p.network_selector == k) ≡ false =
          eq_false_of_ne p.network_selector k (λ c. h (sym c ∙ e)) in
        rw (empty, other) (lookup-collect k ps m h))
  | inr full ↦ rw full (
      lookup-collect k ps _ h
      ∙ insert-peers k p.network_selector (split p.peer_networks b',') (peers_of k ps) m)
]

lookup-collect_empty :
    (ps : List NetworkPolicy) (m : Networks) → lookup [] m ≡ none → lookup [] (collect m ps) ≡ none
unfolding collect
lookup-collect_empty [] m h = h
lookup-collect_empty (p ∷ ps) m h = elim (Bool-cases (p.network_selector == [])) [
  | inl empty ↦ rw empty (lookup-collect_empty ps m h)
  | inr full ↦ rw full (
      lookup-collect_empty ps _ (
        let known =
          lookup-insert p.network_selector []
            (or_nil (lookup p.network_selector m) ++ split p.peer_networks b',') m in
        let here = rw full at known in here ∙ h))
]

-- If the annotation is an array of entries: it is read as a map that gives a selector the peers of
-- all entries with that selector, in their order, and that leaves out the entries with an empty one.
pub annotation-peers_of :
    (w : World) (text k : Text) (ps : List NetworkPolicy)
    → w.unmarshal_policies text ≡ some ps
    → k ≢ []
    → (m : Networks) × (get_logical_networks_from_annotation w text ≡ some m)
      × (or_nil (lookup k m) ≡ peers_of k ps)
      × (lookup [] m ≡ none)
unfolding get_logical_networks_from_annotation lookup
annotation-peers_of w text k ps e h = (
  collect [] ps,
  rw (get_logical_networks_from_annotation, e) refl,
  lookup-collect k ps [] h,
  lookup-collect_empty ps [] refl,
)
