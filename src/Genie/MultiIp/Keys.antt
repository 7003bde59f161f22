-- ===== src/Genie/MultiIp/Keys.antt =====
-- The keys under which `UpdatePodDefinition` writes addresses.
use cni_genie.Base.{
  Text, codes, ℕ, suc, ◌+◌, ◌^◌, ◌%◌, ◌<◌, ◌≡◌, refl, ap, ◌∙◌, true, false, some, List, ◌∷◌, ◌++◌,
  GoMap, insert, eqb, split_sep, itoa, number_from, is_digits, number_from-itoa, is_digits-itoa,
  itoa-Cons, split_sep-eth, arith,
}
use cni_genie.Types.{IpAddressPreferences, MultiIpPreferences}
use cni_genie.Genie.Networks.{eth}
use cni_genie.Genie.MultiIp.{
  pos, max_int, magnitude, positive, atoi, itoa_next, second, add_preference,
}

atoi-digits :
    (c : ℕ) (t : Text)
    → is_digits (c ∷ t) ≡ true
    → atoi (c ∷ t) ≡ positive (some (number_from 0 (c ∷ t)))
unfolding atoi magnitude is_digits
atoi-digits c t h =
    let minus : eqb c b'-' ≡ false = ground (arith, h) in
    let plus : eqb c b'+' ≡ false = ground (arith, h) in rw (minus, plus, h) refl

positive-small : (n : ℕ) → n < max_int → positive (some n) ≡ pos n
positive-small n h = ground (arith, h)

atoi-itoa : (n : ℕ) → n < max_int → atoi (itoa n) ≡ pos n
atoi-itoa n h =
    let (c, (u, e)) = itoa-Cons n in
    ap atoi e
    ∙ atoi-digits c u (rw e at (is_digits-itoa n))
    ∙ ap (λ k. positive (some k)) (rw e at (number_from-itoa n))
    ∙ positive-small n h

itoa_next-pos : (n : ℕ) → n < max_int → itoa_next (pos n) ≡ itoa (suc n)
unfolding itoa_next
itoa_next-pos n h = ground (arith, h)

-- The address of the interface `ethN`, which the plugin gives out, is written under the key `ip` with
-- the number N + 1, whatever was written before: the index that is read from the interface's name is
-- the one that it was made of, if N + 1 fits an int.
pub add_preference-eth :
    (n : ℕ) (ip : Text) (ips : List Text) (prefs : MultiIpPreferences)
    (addresses : GoMap IpAddressPreferences)
    → n < max_int
    → add_preference
        (eth n)
        (second (split_sep (eth n) (codes "eth")))
        (ip ∷ ips)
        prefs
        (some addresses)
      ≡ some (record {
        multi_entry = (prefs.multi_entry + 1) % 2 ^ 64;
        ips =
            some (
              insert
                (codes "ip" ++ itoa (suc n))
                (record { ip = ip; interface = eth n })
                addresses);
      })
unfolding add_preference eth
add_preference-eth n ip ips prefs addresses h =
    rw (split_sep-eth (itoa n) (is_digits-itoa n), atoi-itoa n h, itoa_next-pos n h) refl
