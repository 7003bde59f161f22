-- ===== src/Genie/LeastUsed.antt =====
-- The order in which `SortedKeys` puts the networks.
use cni_genie.Base.{
  Text, ℕ, ◌≡◌, ◌||◌, ◌==◌, eq_refl, true, false, inl, inr, List, [], ◌∷◌, GoMap, member, arith,
  Bool-cases,
}
use cni_genie.Genie.Bandwidth.{int_less, less, insert_key, sort_keys, sorted_keys}
use cni_genie.Genie.Host.{Host}

-- Each key of the list has the property.
abbrev pub Every : (Text → Type 0) → List Text → Type 0
Every Q [] = Unit
Every Q (k ∷ ks) = Q k × Every Q ks

Every-weaken :
    (Q R : Text → Type 0) (ks : List Text) → ((k : Text) → Q k → R k) → Every Q ks → Every R ks
Every-weaken Q R [] f qs = tt
Every-weaken Q R (k ∷ ks) f qs = (f k qs.0, Every-weaken Q R ks f qs.1)

Every-member : (ks : List Text) → Every (λ j. member j ks ≡ true) ks
unfolding member
Every-member [] = tt
Every-member (k ∷ ks) = (
  ground (arith, eq_refl k),
  Every-weaken (λ j. member j ks ≡ true) (λ j. (k == j || member j ks) ≡ true) ks
      (λ j h. ground (arith, h)) (Every-member ks),
)

int_less_trans : (a b c : ℕ) → int_less a b ≡ true → int_less c b ≡ false → int_less c a ≡ false
unfolding int_less
int_less_trans a b c h k = ground (arith, h, k)

int_less_irrefl : (a : ℕ) → int_less a a ≡ false
unfolding int_less
int_less_irrefl a = ground arith

module _ (m : GoMap ℕ) where
  less_trans : (j k c : Text) → less m k c ≡ true → less m j c ≡ false → less m j k ≡ false
  unfolding less
  less_trans j k c h g = int_less_trans _ _ _ h g

  -- no key of the list has less traffic than `c`
  abbrev pub NoneLess : Text → List Text → Type 0
  NoneLess c ks = Every (λ j. less m j c ≡ false) ks

  NoneLess-trans : (k c : Text) (ks : List Text) → less m k c ≡ true → NoneLess c ks → NoneLess k ks
  NoneLess-trans k c [] h n = tt
  NoneLess-trans k c (j ∷ js) h n = (less_trans j k c h n.0, NoneLess-trans k c js h n.1)

  module _ (Q : Text → Type 0) where
    Every-insert_key : (k : Text) (js : List Text) → Q k → Every Q js → Every Q (insert_key m k js)
    unfolding insert_key
    Every-insert_key k [] q qs = (q, tt)
    Every-insert_key k (j ∷ js) q qs = elim (Bool-cases (less m k j)) [
      | inl less ↦ rw less (q, qs)
      | inr other ↦ rw other (qs.0, Every-insert_key k js q qs.1)
    ]

    insert_key-Every : (k : Text) (js : List Text) → Every Q (insert_key m k js) → Q k × Every Q js
    unfolding insert_key
    insert_key-Every k [] qs = qs
    insert_key-Every k (j ∷ js) qs = elim (Bool-cases (less m k j)) [
      | inl less ↦ rw less at qs
      | inr other ↦
          (let all = rw other at qs in
            let rest = insert_key-Every k js all.1 in (rest.0, (all.0, rest.1)))
    ]

    Every-sort_keys :
        (sorted ks : List Text) → Every Q sorted → Every Q ks → Every Q (sort_keys m sorted ks)
    unfolding sort_keys
    Every-sort_keys sorted [] qs q = qs
    Every-sort_keys sorted (k ∷ ks) qs q =
        Every-sort_keys (insert_key m k sorted) ks (Every-insert_key k sorted q.0 qs) q.1

    sort_keys-Every :
        (sorted ks : List Text) → Every Q (sort_keys m sorted ks) → Every Q sorted × Every Q ks
    unfolding sort_keys
    sort_keys-Every sorted [] qs = (qs, tt)
    sort_keys-Every sorted (k ∷ ks) qs =
        let all = sort_keys-Every (insert_key m k sorted) ks qs in
        let rest = insert_key-Every k sorted all.0 in (rest.1, (rest.0, all.1))

  abbrev HeadLeast : List Text → Type 0
  HeadLeast [] = Unit
  HeadLeast (c ∷ cs) = NoneLess c (c ∷ cs)

  less_irrefl : (k : Text) → less m k k ≡ false
  unfolding less
  less_irrefl k = int_less_irrefl _

  HeadLeast-insert_key : (k : Text) (js : List Text) → HeadLeast js → HeadLeast (insert_key m k js)
  unfolding insert_key
  HeadLeast-insert_key k [] h = (less_irrefl k, tt)
  HeadLeast-insert_key k (j ∷ js) h = elim (Bool-cases (less m k j)) [
    | inl smaller ↦ rw smaller (less_irrefl k, NoneLess-trans k j (j ∷ js) smaller h)
    | inr other ↦ rw other (h.0, Every-insert_key (λ i. less m i j ≡ false) k js other h.1)
  ]

  HeadLeast-sort_keys :
      (sorted ks : List Text) → HeadLeast sorted → HeadLeast (sort_keys m sorted ks)
  unfolding sort_keys
  HeadLeast-sort_keys sorted [] h = h
  HeadLeast-sort_keys sorted (k ∷ ks) h =
      HeadLeast-sort_keys (insert_key m k sorted) ks (HeadLeast-insert_key k sorted h)

  -- of visited keys, the first sorted one is a visited key with the least traffic
  sort_keys-least :
      (ks : List Text) (c : Text) (cs : List Text)
      → sort_keys m [] ks ≡ c ∷ cs
      → NoneLess c ks × (member c ks ≡ true)
  sort_keys-least ks c cs e =
      let least = rw e at (HeadLeast-sort_keys [] ks tt) in
      let known = Every-sort_keys (λ j. member j ks ≡ true) [] ks tt (Every-member ks) in
      ((sort_keys-Every (λ j. less m j c ≡ false) [] ks (rw e least)).1, (rw e at known).0)

-- In whatever order `range` visits the keys of a map: the first of the sorted keys is one of them,
-- and none of them has less traffic, as signed numbers.
pub sorted_keys-least :
    (h : Host) (m : GoMap ℕ) (c : Text) (cs : List Text)
    → sorted_keys h m ≡ c ∷ cs
    → NoneLess m c (h.range_keys m) × (member c (h.range_keys m) ≡ true)
unfolding sorted_keys
sorted_keys-least h m c cs e = sort_keys-least m (h.range_keys m) c cs e
