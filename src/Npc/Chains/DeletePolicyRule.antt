-- ===== src/Npc/Chains/DeletePolicyRule.antt =====
-- What `DeleteNetworkChainRule` does.
use cni_genie.Base.{
  Text, ℕ, suc, ◌+◌, ◌≤◌, not, ◌≡◌, refl, ap, sym, ◌∙◌, Bool, true, false, ◌&&◌, ◌||◌, some, List,
  [], ◌∷◌, ◌++◌, map, length, ltb, eqb, itoa, ok, attempt, attempt-bind_ok, wrap, wrap-ok, bind-ok,
  bind-run, pure, contains, if◌then◌else◌, ◌>>=◌, arith,
}
use cni_genie.Npc.World.{World, Error, ipt, at, list_network_chain, delete_network_chain_site}
use cni_genie.Npc.Chains.{
  filter_table, genie_policy_prefix, delete_rules, delete_network_chain, delete_network_chain_rule,
}
use cni_genie.Npc.Chains.Iptables.{Rule, Rules, Replaced, IsIptables, Accepts}

-- a line of the list holds the needle
unfoldable pub some_line : Text → List Text → Bool
some_line needle [] = false
some_line needle (l ∷ ls) = contains l needle || some_line needle ls

-- the loop's count behind lines that it keeps
counted : ℕ → List Text → ℕ
counted cnt [] = cnt
counted cnt (l ∷ ls) =
    counted (if ltb cnt 1 && contains l genie_policy_prefix then suc cnt else cnt) ls

counted-ge : (cnt : ℕ) (ls : List Text) → cnt ≤ counted cnt ls
unfolding counted
counted-ge cnt [] = omega arith
counted-ge cnt (l ∷ ls) = ground (arith, counted-ge cnt ls, counted-ge (suc cnt) ls)

counted-some_line : (ls : List Text) → eqb (counted 0 ls) 0 ≡ not (some_line genie_policy_prefix ls)
unfolding counted some_line
counted-some_line [] = refl
counted-some_line (l ∷ ls) = ground (arith, counted-some_line ls, counted-ge 1 ls)

some_line-append :
    (needle : Text) (ls ms : List Text)
    → some_line needle (ls ++ ms) ≡ (some_line needle ls || some_line needle ms)
unfolding some_line
some_line-append needle [] ms = refl
some_line-append needle (l ∷ ls) ms = ground (arith, some_line-append needle ls ms)

counted-append :
    (ls ms : List Text) (cnt : ℕ) → counted cnt (ls ++ ms) ≡ counted (counted cnt ls) ms
unfolding counted
counted-append [] ms cnt = refl
counted-append (l ∷ ls) ms cnt = counted-append ls ms _

module _ (w : World) (c needle : Text) where
  -- lines that do not hold the needle are only counted
  delete_rules-quiet :
      (ls : List Text) (pos cnt : ℕ) (s : w.State)
      → some_line needle ls ≡ false
      → delete_rules w c needle ls pos cnt s ≡ (ok (counted cnt ls), s)
  unfolding delete_rules some_line counted pure
  delete_rules-quiet [] pos cnt s h = refl
  delete_rules-quiet (l ∷ ls) pos cnt s h =
      let this : contains l needle ≡ false = ground (arith, h) in
      rw this (delete_rules-quiet ls (suc pos) _ s (ground (arith, h)))

  -- up to the first line that holds the needle
  delete_rules-skip :
      (ls rest : List Text) (l : Text) (pos cnt : ℕ) (s : w.State)
      → some_line needle ls ≡ false
      → contains l needle ≡ true
      → delete_rules w c needle (ls ++ l ∷ rest) pos cnt s
        ≡ (attempt {F = Error} (w.delete filter_table c (itoa (pos + length ls) ∷ [])) >>= λ _.
              delete_rules w c needle rest (suc (pos + length ls)) (counted cnt ls))
            s
  unfolding delete_rules some_line counted
  delete_rules-skip [] rest l pos cnt s h hit =
      let e : pos + 0 ≡ pos = omega arith in rw (hit, e) refl
  delete_rules-skip (k ∷ ls) rest l pos cnt s h hit =
      let this : contains k needle ≡ false = ground (arith, h) in
      let e : pos + suc (length ls) ≡ suc pos + length ls = omega arith in
      rw (this, e) (delete_rules-skip ls rest l (suc pos) _ s (ground (arith, h)) hit)

length-map : (f : Rule → Text) (us : List Rule) → length (map f us) ≡ length us
length-map f [] = refl
length-map f (u ∷ us) = ap suc (length-map f us)

map-append : (f : Rule → Text) (us vs : List Rule) → map f (us ++ vs) ≡ map f us ++ map f vs
map-append f [] vs = refl
map-append f (u ∷ us) vs = ap (λ l. f u ∷ l) (map-append f us vs)

-- the test of the loop's count
either_branch {ℓ} :
    {A : Type ℓ} (b : Bool) (yes_case no_case : A)
    → (if not b then no_case else yes_case) ≡ (if b then yes_case else no_case)
either_branch true y n = refl
either_branch false y n = refl

module _ (w : World) {rules : w.State → Rules} {header : Text → Text} {show : Text → Rule → Text}
    {accepts : Accepts} (laws : IsIptables w rules header show accepts) where
  -- If exactly one line of the listing of a network's chain holds the rule's text, that of the rule
  -- `r`: `DeleteNetworkChainRule` takes this rule away and keeps every other rule and chain as it is;
  -- then it succeeds if one of the lines that are left holds the prefix of the policies' chains, and
  -- goes on to delete the network's chain if none does. The world's commands do what iptables
  -- documents.
  pub delete_network_chain_rule_lem :
      (c needle : Text) (pre : List Rule) (r : Rule) (post : List Rule) (s : w.State)
      → rules s c ≡ some (pre ++ r ∷ post)
      → some_line needle (header c ∷ map (show c) pre) ≡ false
      → contains (show c r) needle ≡ true
      → some_line needle (map (show c) post) ≡ false
      → let left = header c ∷ map (show c) (pre ++ post) in
        (t : w.State) × Replaced (rules s) c (pre ++ post) (rules t)
        × (delete_network_chain_rule w c needle s
            ≡ (if some_line genie_policy_prefix left
                  then pure tt
                  else wrap (at delete_network_chain_site) (delete_network_chain w c))
                t)
  unfolding delete_network_chain_rule wrap
  delete_network_chain_rule_lem c needle pre r post s h before this after =
      let look = w.list filter_table c in
      let s1 = (look s).1 in
      let same = laws.list_rules c s in
      let first = header c ∷ map (show c) pre in
      let lines = first ++ show c r ∷ map (show c) post in
      let listed : (look s).0 ≡ ok lines =
        laws.list c s h ∙ ap (λ l. ok (header c ∷ l)) (map-append (show c) pre (r ∷ post)) in
      let gone = w.delete filter_table c (itoa (suc (length pre)) ∷ []) in
      let t = (gone s1).1 in
      let h1 : rules s1 c ≡ some (pre ++ r ∷ post) = rw same h in
      let place : 0 + length first ≡ suc (length pre) = omega (arith, length-map (show c) pre) in
      let count = counted (counted 0 first) (map (show c) post) in
      let loop : delete_rules w c needle lines 0 0 s1 ≡ (ok count, t) =
        delete_rules-skip w c needle first (map (show c) post) (show c r) 0 0 s1 before this
        ∙ rw place (
            attempt-bind_ok gone _ s1 tt (laws.delete c s1 pre r post h1)
            ∙ delete_rules-quiet w c needle (map (show c) post) _ _ t after) in
      let left = header c ∷ map (show c) (pre ++ post) in
      let tested : eqb count 0 ≡ not (some_line genie_policy_prefix left) =
        ap (λ n. eqb n 0)
          (sym (counted-append first (map (show c) post) 0)
            ∙ ap (λ l. counted 0 (header c ∷ l)) (sym (map-append (show c) pre post)))
        ∙ counted-some_line left in
      let forget = wrap (at delete_network_chain_site) (delete_network_chain w c) in
      let change = rw same at (laws.delete_rules c s1 pre r post h1) in
      (
        t,
        change,
        bind-ok (wrap (λ e. at list_network_chain (ipt e)) look) _ s lines
              (wrap-ok (λ e. at list_network_chain (ipt e)) look s lines listed)
            ∙ bind-ok (delete_rules w c needle lines 0 0) _ s1 count (ap (λ o. o.0) loop)
            ∙ ap (λ o. (if eqb count 0 then forget else pure tt) o.1) loop
            ∙ ap (λ b. (if b then forget else pure tt) t) tested
            ∙ ap (λ m. m t) (either_branch (some_line genie_policy_prefix left) (pure tt) forget),
      )

  -- If no line of the listing of a network's chain holds the rule's text, and some line the prefix of
  -- the policies' chains: `DeleteNetworkChainRule` succeeds and changes nothing.
  pub delete_network_chain_rule-none :
      (c needle : Text) (us : List Rule) (s : w.State)
      → rules s c ≡ some us
      → some_line needle (header c ∷ map (show c) us) ≡ false
      → some_line genie_policy_prefix (header c ∷ map (show c) us) ≡ true
      → (t : w.State) × (rules t ≡ rules s) × (delete_network_chain_rule w c needle s ≡ (ok tt, t))
  unfolding delete_network_chain_rule wrap pure
  delete_network_chain_rule-none c needle us s h quiet more =
      let look = w.list filter_table c in
      let t = (look s).1 in
      let lines = header c ∷ map (show c) us in
      let listed : (look s).0 ≡ ok lines = laws.list c s h in
      let loop : delete_rules w c needle lines 0 0 t ≡ (ok (counted 0 lines), t) =
        delete_rules-quiet w c needle lines 0 0 t quiet in
      let tested : eqb (counted 0 lines) 0 ≡ false = counted-some_line lines ∙ ap not more in
      let forget = wrap (at delete_network_chain_site) (delete_network_chain w c) in
      (
        t,
        laws.list_rules c s,
        bind-ok (wrap (λ e. at list_network_chain (ipt e)) look) _ s lines
              (wrap-ok (λ e. at list_network_chain (ipt e)) look s lines listed)
            ∙ bind-run (delete_rules w c needle lines 0 0) _ t t (counted 0 lines) loop
            ∙ ap (λ b. (if b then forget else pure tt) t) tested,
      )
