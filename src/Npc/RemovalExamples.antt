-- ===== src/Npc/RemovalExamples.antt =====
-- The deletion of a policy at a concrete input, in the in-memory world.
use cni_genie.Base.{
  Bool-cases, inl, sym, eq_iff, Text, ◌++◌, ◌≢◌, false, lookup, eq_false_of_ne, member, trim_space,
  List, codes, ◌≡◌, refl, some, [], ◌∷◌, ok, ◌==◌, inr,
}
use cni_genie.Npc.Chains.{jump}
use cni_genie.Npc.Chains.Iptables.{Rule, Rules, mentions}
use cni_genie.Npc.Policies.{Networks}
use cni_genie.Npc.PolicyHandlers.{handle_network_policy_delete}
use cni_genie.Npc.PolicyHandlers.RemovedAll.{
  all_unlinked, OneJump, handle_network_policy_delete-all_unlinked,
}
use cni_genie.Npc.Chains.DeleteTwo.{drop_first}
use cni_genie.Npc.NetworkHandlers.Forgotten.{without}
use cni_genie.Npc.Chains.DeletePolicyRule.{some_line}
use cni_genie.Npc.PolicyHandlers.Linked.{chain_of_network, chain_of_policy}
use cni_genie.Npc.Kernel.{Tables, kernel}
use cni_genie.Npc.Kernel.Laws.{kernel_rules, header, show, kernel-IsIptables}
use cni_genie.Npc.Tests.{controller, start, web_chain, front_chain}

-- the chains of two networks that two policies select, and the chain of the policy that goes
abbrev pub other_jump : List Rule
other_jump = jump (codes "GnPlc-other") ∷ []

abbrev pub rejects : List Rule
rejects = jump (codes "REJECT") ∷ []

abbrev pub back_chain : Text
back_chain = codes "GnNtk-6261636b6e7330313233"

abbrev two_jumps : Tables
two_jumps = record start {
  chains =
      (front_chain, other_jump ++ jump web_chain ∷ rejects)
      ∷ (back_chain, jump web_chain ∷ other_jump)
      ∷ (web_chain, [])
      ∷ [];
}

abbrev two_selected : Networks
two_selected = (codes "front", codes "db" ∷ []) ∷ (codes "back", codes "db" ∷ []) ∷ []

left_behind : Rules
left_behind =
    all_unlinked header show web_chain kernel (codes "ns") two_selected (kernel_rules two_jumps)

front_left : left_behind front_chain ≡ some (other_jump ++ rejects)
unfolding left_behind controller drop_first
front_left = refl

back_left : left_behind back_chain ≡ some other_jump
unfolding left_behind controller drop_first
back_left = refl

left_mentions :
    (mentions web_chain (other_jump ++ rejects) ≡ false) × (mentions web_chain other_jump ≡ false)
unfolding mentions member ◌==◌
left_mentions = (refl, refl)

named_chains :
    (chain_of_network kernel (codes "ns") (trim_space (codes "front")) ≡ front_chain)
    × (chain_of_network kernel (codes "ns") (trim_space (codes "back")) ≡ back_chain)
unfolding controller
named_chains = (refl, refl)

nowhere_else :
    (d : Text) (vs : List Rule)
    → front_chain ≢ d
    → back_chain ≢ d
    → web_chain ≢ d
    → left_behind d ≡ some vs
    → mentions web_chain vs ≡ false
unfolding left_behind lookup
nowhere_else d vs f b c h =
    let bad =
      rw
        (
          named_chains.0,
          named_chains.1,
          eq_false_of_ne front_chain d f,
          eq_false_of_ne back_chain d b,
          eq_false_of_ne web_chain d c,
        )
        at h in
    cc

clean_left :
    (d : Text) (vs : List Rule)
    → web_chain ≢ d
    → left_behind d ≡ some vs
    → mentions web_chain vs ≡ false
clean_left d vs ne h = elim (Bool-cases (front_chain == d)) [
  | inl k ↦
      (let e : d ≡ front_chain = sym ((eq_iff front_chain d).0 k) in
        let here = rw (e, front_left) at h in
        let same : other_jump ++ rejects ≡ vs = cc in rw (← same) (left_mentions.0))
  | inr k ↦ elim (Bool-cases (back_chain == d)) [
    | inl j ↦
        (let e : d ≡ back_chain = sym ((eq_iff back_chain d).0 j) in
          let here = rw (e, back_left) at h in
          let same : other_jump ≡ vs = cc in rw (← same) (left_mentions.1))
    | inr j ↦
        nowhere_else d vs (λ e. cc ((eq_iff front_chain d).1 e, k))
          (λ e. cc ((eq_iff back_chain d).1 e, j)) ne h
  ]
]

pub front_jumps : OneJump header show web_chain front_chain (other_jump ++ jump web_chain ∷ rejects)
unfolding controller some_line
front_jumps = record {
  pre = other_jump;
  rule = jump web_chain;
  post = rejects;
  split = refl;
  before = refl;
  this = refl;
  after = refl;
  more = refl;
}

back_jumps : OneJump header show web_chain back_chain (jump web_chain ∷ other_jump)
unfolding controller some_line
back_jumps = record {
  pre = [];
  rule = jump web_chain;
  post = other_jump;
  split = refl;
  before = refl;
  this = refl;
  after = refl;
  more = refl;
}

handle_network_policy_delete-all_unlinked_example :
    let text = codes "front:db;back:db" in
    let out = handle_network_policy_delete kernel (codes "web") (codes "ns") text two_jumps in
    let chain = chain_of_policy kernel (codes "ns") (codes "web") in
    (out.0 ≡ ok tt)
    × (kernel_rules out.1
        ≡ without chain (
            all_unlinked header show chain kernel
              (codes "ns")
              two_selected
              (kernel_rules two_jumps)))
unfolding controller left_behind
handle_network_policy_delete-all_unlinked_example =
    handle_network_policy_delete-all_unlinked kernel (codes "web") (codes "ns")
      (codes "front:db;back:db") two_selected two_jumps kernel-IsIptables refl
      ((_, refl, front_jumps), ((_, refl, back_jumps), tt)) clean_left
