-- ===== src/Npc/PolicyExamples.antt =====
-- The theorems on policies at concrete inputs, in the in-memory world with fixed networks.
use cni_genie.Base.{
  arith, ap, get_or, true, Text, ◌≢◌, List, codes, ◌≡◌, refl, none, some, [], ◌∷◌, ok, ◌==◌,
  if◌then◌else◌, inr,
}
use cni_genie.Types.{PolicyObject}
use cni_genie.Npc.World.{World, NetworkPolicy}
use cni_genie.Npc.Chains.{jump, add_policy_chain, create_base_chain}
use cni_genie.Npc.Chains.Iptables.{IsIptables}
use cni_genie.Npc.Policies.{genie_network_policy, Networks, policy_info, collect}
use cni_genie.Npc.Policies.Listed.{contribution, policy_info-contribution}
use cni_genie.Npc.PolicyHandlers.{handle_network_policy_add, handle_network_policy_update}
use cni_genie.Npc.PolicyHandlers.Updated.{update-as_add}
use cni_genie.Npc.PolicyHandlers.Relinked.{update_keeps_others}
use cni_genie.Npc.PolicyHandlers.Peers.{Listed, IsLister, got}
use cni_genie.Npc.PolicyHandlers.Linked.{chain_of_network, chain_of_policy}
use cni_genie.Npc.Sync.{run}
use cni_genie.Npc.Sync.Run.{Ended, run-Ended}
use cni_genie.Npc.Kernel.{Tables, kernel}
use cni_genie.Npc.Kernel.Laws.{kernel_rules, header, show, accepts_all, kernel-IsIptables}
use cni_genie.Npc.Tests.{controller, web_policy, add_web, network_at, start, web_chain, front_chain}

-- a policy that selects the same network
abbrev pub shop_policy : PolicyObject
shop_policy = record web_policy {
  name = codes "shop";
  annotations = some ((genie_network_policy, codes "front:") ∷ []);
}

abbrev pub known : Listed
known ns name =
    if name == codes "front"
    then some (network_at "front" "10.1.0.0/24")
    else if name == codes "back"
    then some (network_at "back" "10.2.0.0/24")
    else none

abbrev pub policies : List PolicyObject
policies = shop_policy ∷ web_policy ∷ []

abbrev pub fixed : World
fixed = record kernel {
  get_logical_network = λ ns name s. (got (known ns name), s);
  list_policies = λ ns s. (ok policies, s);
  get_network_policy =
      λ ns name s. (if name == codes "shop" then ok shop_policy else ok web_policy, s);
}

pub fixed-IsIptables : IsIptables fixed kernel_rules header show accepts_all
fixed-IsIptables = record {
  list = kernel-IsIptables.list;
  list_rules = kernel-IsIptables.list_rules;
  exists = kernel-IsIptables.exists;
  exists_rules = kernel-IsIptables.exists_rules;
  insert_top = kernel-IsIptables.insert_top;
  insert_top_rules = kernel-IsIptables.insert_top_rules;
  append_unique = kernel-IsIptables.append_unique;
  append_unique_rules = kernel-IsIptables.append_unique_rules;
  delete = kernel-IsIptables.delete;
  delete_rules = kernel-IsIptables.delete_rules;
  clear_chain = kernel-IsIptables.clear_chain;
  clear_chain_rules = kernel-IsIptables.clear_chain_rules;
  delete_chain = kernel-IsIptables.delete_chain;
  delete_chain_rules = kernel-IsIptables.delete_chain_rules;
  new_rules = kernel-IsIptables.new_rules;
}

pub known-IsLister : IsLister fixed kernel_rules known
known-IsLister = record { get = λ ns name s. refl; get_rules = λ ns name s. refl }

-- the network's chain is there, and so is an old chain of the policy
abbrev built : Tables
built = record start {
  chains = (web_chain, jump (codes "DROP") ∷ []) ∷ (front_chain, jump (codes "REJECT") ∷ []) ∷ [];
}

abbrev selected : Networks
selected = (codes "front", codes "back" ∷ []) ∷ []

abbrev web_entries : List NetworkPolicy
web_entries = record { network_selector = codes "front"; peer_networks = codes "back" } ∷ []

policy_info-contribution_example :
    policy_info kernel (codes "back") web_policy
    ≡ contribution (codes "front:back") (codes "back") web_entries (record {
      name = codes "web";
      namespace = codes "ns";
      networks = some (collect [] web_entries);
    })
unfolding controller
policy_info-contribution_example =
    policy_info-contribution kernel (codes "back") web_policy web_entries (λ e. cc) (λ e. cc) refl

-- the policy is returned for its peer, without its networks
back_listed :
    policy_info kernel (codes "back") web_policy
    ≡ record { name = codes "web"; namespace = codes "ns"; networks = none } ∷ []
unfolding controller
back_listed = refl

update-as_add_example :
    handle_network_policy_update kernel (codes "web") (codes "ns") start
    ≡ handle_network_policy_add kernel (codes "web") (codes "ns") start
unfolding controller
update-as_add_example =
    update-as_add kernel (codes "web") (codes "ns") web_chain web_policy
      (codes "front", codes "back" ∷ []) [] start start
      (add_policy_chain kernel (codes "web") (codes "ns") start).1 refl refl refl

-- the chain of a network that the policy selected before
abbrev old_chain : Text
old_chain = codes "GnNtk-old"

abbrev moved : Tables
moved = record built { chains = (old_chain, jump web_chain ∷ []) ∷ built.chains }

web-ne_old : chain_of_policy fixed (codes "ns") (codes "web") ≢ old_chain
unfolding controller
web-ne_old e = absurd (omega (arith, ap (λ t. get_or t 2 0) e))

front-ne_old : chain_of_network fixed (codes "ns") (codes "front") ≢ old_chain
unfolding controller
front-ne_old e = absurd (omega (arith, ap (λ t. get_or t 6 0) e))

update_keeps_others_example :
    ((handle_network_policy_update fixed (codes "web") (codes "ns") moved).0 ≡ ok tt)
    × (kernel_rules
          (handle_network_policy_update fixed (codes "web") (codes "ns") moved).1
          old_chain
        ≡ kernel_rules moved old_chain)
unfolding controller
update_keeps_others_example =
    update_keeps_others fixed fixed-IsIptables known-IsLister (λ ns name ln t e. (tt, tt))
      (codes "ns") (codes "web") moved web_policy (codes "front", codes "back" ∷ []) [] old_chain
      refl refl refl (λ t us e. tt) (inr (jump (codes "REJECT") ∷ [], refl), tt) web-ne_old
      (front-ne_old, tt)

-- a key that is unknown to the lister between two others
abbrev three_keys : List Text
three_keys = add_web ∷ codes "networkpolicy|gone|ns|ADD|" ∷ add_web ∷ []

run-Ended_example :
    Ended kernel three_keys (create_base_chain kernel start).1 (run kernel true three_keys start)
unfolding controller
run-Ended_example = run-Ended kernel true three_keys start refl refl

handled_all : (run kernel true three_keys start).0 ≡ ok tt
unfolding controller run
handled_all = refl
