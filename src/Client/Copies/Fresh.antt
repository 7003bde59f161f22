-- ===== src/Client/Copies/Fresh.antt =====
-- A deep copy of a list of networks shares nothing with the list.
use cni_genie.Base.{
  ℕ, zero, suc, ◌<◌, ◌≡◌, ◌≢◌, refl, ap, ◌∙◌, Option, none, some, List, [], ◌∷◌, ◌++◌, length,
  get_elem?, arith,
}
use cni_genie.Types.{LogicalNetwork}
use cni_genie.Client.Copies.{
  NetworkList, Heap, set, network_into, copy_items, list_into, list_copy, zero_list,
}

get_elem-end {ℓ} :
    {A : Type ℓ} (xs : List A) (x : A) → get_elem? (xs ++ x ∷ []) (length xs) ≡ some x
get_elem-end [] x = refl
get_elem-end (y ∷ ys) x = get_elem-end ys x

set-end {ℓ} : {A : Type ℓ} (xs : List A) (x y : A) → set (length xs) y (xs ++ x ∷ []) ≡ xs ++ y ∷ []
unfolding set
set-end [] x y = refl
set-end (z ∷ zs) x y = ap (λ l. z ∷ l) (set-end zs x y)

get_elem-append {ℓ} :
    {A : Type ℓ} (xs ys : List A) (i : ℕ) (x : A)
    → get_elem? xs i ≡ some x
    → get_elem? (xs ++ ys) i ≡ some x
get_elem-append [] ys i x e = cc
get_elem-append (y ∷ xs) ys zero x e = e
get_elem-append (y ∷ xs) ys (suc i) x e = get_elem-append xs ys i x e

get_elem-set_ne {ℓ} :
    {A : Type ℓ} (xs : List A) (i j : ℕ) (x : A) → i ≢ j → get_elem? (set j x xs) i ≡ get_elem? xs i
unfolding set
get_elem-set_ne [] i j x h = refl
get_elem-set_ne (y ∷ ys) zero zero x h = absurd (h refl)
get_elem-set_ne (y ∷ ys) zero (suc j) x h = refl
get_elem-set_ne (y ∷ ys) (suc i) zero x h = refl
get_elem-set_ne (y ∷ ys) (suc i) (suc j) x h = get_elem-set_ne ys i j x (λ e. h (ap suc e))

place-lt {ℓ} : {A : Type ℓ} (xs : List A) (i : ℕ) (x : A) → get_elem? xs i ≡ some x → i < length xs
place-lt [] i x e = cc
place-lt (y ∷ ys) zero x e = omega arith
place-lt (y ∷ ys) (suc i) x e = omega (arith, place-lt ys i x e)

copy_items-same : (ns : List LogicalNetwork) → copy_items ns ≡ ns
unfolding copy_items network_into
copy_items-same [] = refl
copy_items-same (n ∷ ns) = ap (λ l. n ∷ l) (copy_items-same ns)

-- the items that a list has in a heap
abbrev pub items_at : ℕ → Heap → Option (List LogicalNetwork)
items_at p h = elim (get_elem? h.lists p) [
  | none ↦ none
  | some l ↦ elim l.items [ none ↦ none | some a ↦ get_elem? h.arrays a ]
]

-- the array of the list at `p` is overwritten
abbrev pub overwrite : ℕ → List LogicalNetwork → Heap → Heap
overwrite p ns h = elim (get_elem? h.lists p) [
  | none ↦ h
  | some l ↦ elim l.items [ none ↦ h | some a ↦ record h { arrays = set a ns h.arrays } ]
]

-- the heap with a new list at the end, and its array
abbrev extended : Heap → NetworkList → List LogicalNetwork → Heap
extended h l ns = record h {
  lists = h.lists ++ record l { items = some (length h.arrays) } ∷ [];
  arrays = h.arrays ++ ns ∷ [];
}

list_into-extended :
    (h : Heap) (a : ℕ) (l : NetworkList) (ns : List LogicalNetwork) (x : NetworkList)
    → l.items ≡ some a
    → get_elem? h.arrays a ≡ some ns
    → list_into l (length h.lists) (record h { lists = h.lists ++ x ∷ [] }) ≡ extended h l ns
unfolding list_into
list_into-extended h a l ns x e2 e3 =
    let new : NetworkList = record l { items = some (length h.arrays) } in
    rw (e2, list_into) (rw (e3, list_into) (rw (set-end h.lists x new, copy_items-same ns) refl))

list_copy-extended :
    (h : Heap) (p a : ℕ) (l : NetworkList) (ns : List LogicalNetwork)
    → get_elem? h.lists p ≡ some l
    → l.items ≡ some a
    → get_elem? h.arrays a ≡ some ns
    → list_copy (some p) h ≡ (some (length h.lists), extended h l ns)
unfolding list_copy
list_copy-extended h p a l ns e1 e2 e3 =
    rw (e1, list_copy)
      (ap (λ k. (some (length h.lists), k)) (list_into-extended h a l ns zero_list e2 e3))

abbrev written_to : Heap → NetworkList → List LogicalNetwork → List LogicalNetwork → Heap
written_to h l ns written = record (extended h l ns) {
  arrays = set (length h.arrays) written (h.arrays ++ ns ∷ []);
}

overwrite-extended :
    (h : Heap) (l : NetworkList) (ns written : List LogicalNetwork)
    → overwrite (length h.lists) written (extended h l ns) ≡ written_to h l ns written
overwrite-extended h l ns written =
    let new : NetworkList = record l { items = some (length h.arrays) } in
    rw (get_elem-end h.lists new, overwrite) refl

items_at-kept :
    (h : Heap) (p a : ℕ) (l : NetworkList) (ns written : List LogicalNetwork)
    → get_elem? h.lists p ≡ some l
    → l.items ≡ some a
    → get_elem? h.arrays a ≡ some ns
    → items_at p (written_to h l ns written) ≡ some ns
items_at-kept h p a l ns written e1 e2 e3 =
    let new : NetworkList = record l { items = some (length h.arrays) } in
    let apart : a ≢ length h.arrays = λ e. absurd (omega (arith, place-lt h.arrays a ns e3, e)) in
    let there = get_elem-append h.lists (new ∷ []) p l e1 in
    rw (there, items_at)
      (rw (e2, items_at)
        (get_elem-set_ne (h.arrays ++ ns ∷ []) a (length h.arrays) written apart
          ∙ get_elem-append h.arrays (ns ∷ []) a ns e3))

-- The copy of a list whose array is there is a new list with the same items; and whatever is
-- written to the items of the copy, the items of the original stay as they were.
pub list_copy-fresh :
    (h : Heap) (p a : ℕ) (l : NetworkList) (ns written : List LogicalNetwork)
    → get_elem? h.lists p ≡ some l
    → l.items ≡ some a
    → get_elem? h.arrays a ≡ some ns
    → let q = length h.lists in
      let after = (list_copy (some p) h).1 in
      ((list_copy (some p) h).0 ≡ some q)
      × (items_at q after ≡ some ns)
      × (items_at p (overwrite q written after) ≡ some ns)
list_copy-fresh h p a l ns written e1 e2 e3 =
    let new : NetworkList = record l { items = some (length h.arrays) } in
    rw (list_copy-extended h p a l ns e1 e2 e3) (
      refl,
      rw (get_elem-end h.lists new, items_at) (get_elem-end h.arrays ns),
      ap (items_at p) (overwrite-extended h l ns written)
          ∙ items_at-kept h p a l ns written e1 e2 e3,
    )
