-- ===== src/Genie/MultiIp.antt =====
-- The annotation with the addresses of a pod (genie/genie-controller.go, `UpdatePodDefinition`).
pub mod Keys
pub mod Written
use cni_genie.Base.{
  Text, codes, ℕ, zero, suc, ◌+◌, ◌-◌, ◌%◌, ◌^◌, Bool, true, ◌&&◌, Option, none, some, List, [],
  ◌∷◌, ◌++◌, GoMap, insert, ltb, leb, eqb, if◌then◌else◌, split_sep, itoa, number_from, is_digits,
  Cmd, pure, crash, lift, wrap, ◌>>=◌, ◌>>◌,
}
use cni_genie.Types.{K8sArgs, IpAddressPreferences, MultiIpPreferences}
use cni_genie.Genie.Host.{
  Host, Error, call, at, plain, convert_result, update_pod, get_pod_site, marshal_conf,
}
use cni_genie.Genie.Args.{or_error}
use cni_genie.Genie.Selection.{get_pod_definition}

-- An `int`; `negsuc n` is -(n + 1).
pub data ℤ : Type 0 where
  pos : ℕ → ℤ
  negsuc : ℕ → ℤ

abbrev max_int : ℕ
max_int = 2 ^ 63 - 1

-- a syntax error gives 0, a number out of range the nearest int
magnitude : Text → Option ℕ
magnitude [] = none
magnitude (c ∷ t) = if is_digits (c ∷ t) then some (number_from 0 (c ∷ t)) else none

abbrev positive : Option ℕ → ℤ
positive none = pos 0
positive (some n) = if ltb max_int n then pos max_int else pos n

abbrev negative : Option ℕ → ℤ
negative none = pos 0
negative (some zero) = pos 0
negative (some (suc n)) = if ltb max_int n then negsuc max_int else negsuc n

-- strconv.Atoi, its error dropped
unfoldable pub atoi : Text → ℤ
unfolding magnitude is_digits number_from
atoi [] = pos 0
atoi (c ∷ t) =
    if eqb c b'-'
    then negative (magnitude t)
    else if eqb c b'+'
    then positive (magnitude t)
    else positive (magnitude (c ∷ t))

-- strconv.Itoa(n + 1), with the wrap-around of int
unfoldable pub itoa_next : ℤ → Text
itoa_next (pos n) = if eqb n max_int then codes "-9223372036854775808" else itoa (suc n)
itoa_next (negsuc zero) = itoa 0
itoa_next (negsuc (suc n)) = codes "-" ++ itoa (suc n)

-- strings.Split(intfName, "eth")[1]; `none` is out of range
abbrev pub second : List Text → Option Text
second (_ ∷ t ∷ _) = some t
second _ = none

abbrev multi_ip_preferences_annotation : Text
multi_ip_preferences_annotation = codes "multi-ip-preferences"

-- {"metadata":{"annotations":{"multi-ip-preferences":…}}}
abbrev pub ip_patch : Text → Text
ip_patch quoted =
    codes "{\"metadata\":{\"annotations\":{\""
    ++ multi_ip_preferences_annotation
    ++ codes "\":"
    ++ quoted
    ++ codes "}}}"

-- The preferences with one more address. `none` is a panic: no index in the interface's name, no
-- address in the result, or a nil map of addresses.
unfoldable pub add_preference :
    Text
    → Option Text
    → List Text
    → MultiIpPreferences
    → Option (GoMap IpAddressPreferences)
    → Option MultiIpPreferences
add_preference intf (some id) (ip ∷ _) prefs (some ips) = some (record {
  multi_entry = (prefs.multi_entry + 1) % 2 ^ 64;
  ips =
      some (insert (codes "ip" ++ itoa_next (atoi id)) (record { ip = ip; interface = intf }) ips);
})
add_preference intf _ _ prefs _ = none

module _ (h : Host) where
  open h use {
    State, Client, CniResult, unmarshal_preferences, marshal_preferences, quote, patch_pod,
    current_ips,
  }

  abbrev pub M : Type 0 → Type 0
  M A = Cmd State Error A

  -- a nil result panics in the conversion
  unfoldable pub result_ips : Option CniResult → M (List Text)
  result_ips none = crash
  result_ips (some r) = wrap (λ e. at convert_result (call e)) (lift (current_ips r))

  unfoldable pub or_crash : {A : Type 0} → Option A → M A
  or_crash none = crash
  or_crash (some a) = pure a

  -- the new text of the annotation; after an error the caller keeps the old one
  unfoldable pub update_pod_definition : Text → Option CniResult → Text → Client → K8sArgs → M Text
  update_pod_definition intf result [] client k8s = pure []
  update_pod_definition intf result (c ∷ cs) client k8s = do
    let prefs = unmarshal_preferences (c ∷ cs)
    ips ← result_ips result
    next ←
        or_crash (add_preference intf (second (split_sep intf (codes "eth"))) ips prefs prefs.ips)
    text ← lift (or_error (plain marshal_conf) (marshal_preferences next))
    pod ←
        wrap (λ e. at get_pod_site (call e))
          (get_pod_definition h client k8s.k8s_pod_namespace k8s.k8s_pod_name)
    wrap (λ e. at update_pod (call e))
        (patch_pod client k8s.k8s_pod_namespace pod.name (ip_patch (quote text)))
    pure text
