-- ===== src/Client/Memory.antt =====
-- A library in which informers are numbered as they are made; requests fail.
use cni_genie.Base.{codes, Bool, true, false, [], Cmd, raise, pure, ℕ, suc}
use cni_genie.Client.Library.{Library}
use cni_genie.Client.Factory.{Process, new_shared}

abbrev refused : {A : Type 0} → Cmd ℕ (Unit {0}) A
refused = raise tt

abbrev pub numbered : Library
numbered = record {
  State = ℕ;
  Error = Unit;
  Duration = ℕ;
  ListOptions = Bool;
  Watch = Unit;
  NetworkList = Unit;
  set_watch = λ _. true;
  Rest = Unit;
  Request = Unit;
  GetOptions = Unit;
  DeleteOptions = Unit;
  PatchType = Unit;
  get_verb = λ r. r;
  post_verb = λ r. r;
  put_verb = λ r. r;
  delete_verb = λ r. r;
  patch_verb = λ _ r. r;
  with_namespace = λ _ r. r;
  with_resource = λ _ r. r;
  with_name = λ _ r. r;
  with_sub_resource = λ _ r. r;
  with_get_options = λ _ r. r;
  with_list_options = λ _ r. r;
  with_network = λ _ r. r;
  with_delete_options = λ _ r. r;
  with_bytes = λ _ r. r;
  do_network = λ _. refused;
  do_list = λ _. refused;
  do_error = λ _. refused;
  do_watch = λ _. refused;
  Limiter = Unit;
  Codec = Unit;
  Float = Unit;
  Discovery = Unit;
  is_positive = λ _. false;
  new_token_bucket = λ _ _ s. (tt, s);
  default_user_agent = codes "genie";
  codec = tt;
  rest_client_for = λ _. pure tt;
  new_discovery_for_config = λ _. pure tt;
  new_discovery_for_config_or_die = λ _. pure tt;
  new_discovery = λ _. tt;
  Informer = ℕ;
  Indexer = ℕ;
  new_shared_index_informer = λ _ _ _ _ _ s. (s, suc s);
  get_indexer = λ i. i;
}

-- a new factory, before its first informer, which will be number 7
abbrev pub fresh : Process numbered
fresh = record {
  factory = new_shared numbered (record { discovery = tt; alpha_v1 = tt }) 30;
  runs = [];
  state = 7;
}
