-- ===== src/Client/Lister/Keys.antt =====
-- The keys under which a cache files objects (cache.MetaNamespaceKeyFunc of client-go), which the
-- lister of logical networks builds again.
use cni_genie.Base.{
  Text, codes, Bool, true, not, ◌&&◌, ◌==◌, eq_iff, if◌then◌else◌, eqb, append_assoc, [], ◌∷◌, ◌++◌,
  ◌≡◌, ◌≢◌, sym, ◌∙◌, eq_false_of_ne, arith,
}

-- The text has no slash.
abbrev pub slash_free : Text → Bool
slash_free [] = true
slash_free (c ∷ cs) = not (eqb c b'/') && slash_free cs

key_inj :
    (n m x y : Text)
    → slash_free n ≡ true
    → slash_free m ≡ true
    → n ++ b'/' ∷ x ≡ m ++ b'/' ∷ y
    → (n ≡ m) × (x ≡ y)
key_inj [] [] x y hn hm e = ground (arith)
key_inj [] (c ∷ m) x y hn hm e = ground (arith)
key_inj (c ∷ n) [] x y hn hm e = ground arith
key_inj (c ∷ n) (d ∷ m) x y hn hm e = ground (arith, key_inj n m x y)

-- cache.MetaNamespaceKeyFunc (client-go)
abbrev pub key_of : Text → Text → Text
key_of namespace name = if namespace == [] then name else namespace ++ codes "/" ++ name

-- The namespace and the name are as the API server takes them.
pub record IsNamed (namespace name : Text) : Type 0 where
  pub namespaced : namespace ≢ []
  pub plain_namespace : slash_free namespace ≡ true
  pub plain_name : slash_free name ≡ true

key_of-slash : (ns name : Text) → IsNamed ns name → key_of ns name ≡ ns ++ (b'/' ∷ name)
key_of-slash ns name h = rw (eq_false_of_ne ns [] h.namespaced) (append_assoc ns (codes "/") name)

key_of-inj :
    (ns name ns' name' : Text)
    → IsNamed ns name
    → IsNamed ns' name'
    → key_of ns name ≡ key_of ns' name'
    → (ns ≡ ns') × (name ≡ name')
key_of-inj ns name ns' name' h h' e =
    key_inj ns ns' name name' h.plain_namespace h'.plain_namespace
      (sym (key_of-slash ns name h) ∙ e ∙ key_of-slash ns' name' h')

pub same_key :
    (ns name ns' name' : Text)
    → IsNamed ns name
    → IsNamed ns' name'
    → (key_of ns name == key_of ns' name') ≡ ((ns == ns') && (name == name'))
same_key ns name ns' name' h h' = ground (
  arith,
  eq_iff ns ns',
  eq_iff name name',
  eq_iff (key_of ns name) (key_of ns' name'),
  key_of-inj ns name ns' name' h h',
)
