-- ===== src/Calico/Store.antt =====
-- What provider/calico takes from Calico: the messages of felix/proto, the policy store, and the
-- checker that walks a flow's policies. None of it is part of the repository.
use telepathy.Prelude.{
  ℕ, ◌≡◌, ◌↔◌, Bool, true, ◌&&◌, Option, none, some, List, [], arith, Eq, ◌==◌, ℕ_eq, Text,
  text_beq_iff, text_eq, Map, ℤ, int_eq,
}

pub record PolicyId : Type 0 where
  pub kind : Text
  pub namespace : Text
  pub name : Text

unfoldable pub policy_id_beq : PolicyId → PolicyId → Bool
policy_id_beq p q = p.kind == q.kind && (p.namespace == q.namespace && p.name == q.name)

pub policy_id_beq_iff : (p q : PolicyId) → (policy_id_beq p q ≡ true) ↔ (p ≡ q)
unfolding policy_id_beq
policy_id_beq_iff p q = ground (
  arith,
  text_beq_iff p.kind q.kind,
  text_beq_iff p.namespace q.namespace,
  text_beq_iff p.name q.name,
)

instance abbrev pub policy_id_eq : Eq PolicyId
policy_id_eq = record { beq = policy_id_beq; beq_iff = policy_id_beq_iff }

pub record TierInfo : Type 0 where
  pub name : Text
  pub default_action : Text
  pub ingress_policies : List PolicyId
  pub egress_policies : List PolicyId

pub record WorkloadEndpoint : Type 0 where
  pub name : Text
  pub tiers : List TierInfo
  pub profile_ids : List Text

pub record HostEndpoint : Type 0 where
  pub name : Text
  pub tiers : List TierInfo
  pub untracked_tiers : List TierInfo
  pub pre_dnat_tiers : List TierInfo
  pub forward_tiers : List TierInfo
  pub profile_ids : List Text

-- `GetTiers()` and `GetProfileIds()`, which read a nil pointer as an empty message.
abbrev pub tiers_of : Option WorkloadEndpoint → List TierInfo
tiers_of none = []
tiers_of (some w) = w.tiers

abbrev pub profile_ids_of : Option WorkloadEndpoint → List Text
profile_ids_of none = []
profile_ids_of (some w) = w.profile_ids

pub data RuleDir : Type 0 where
  dir_ingress dir_egress : RuleDir

pub data PolicyScope : Type 0 where
  enforced_only staged_as_enforced : PolicyScope

pub data RuleAction : Type 0 where
  action_allow action_deny action_pass action_log : RuleAction

-- calc.RuleID: a step of the checker's trace.
pub record RuleId : Type 0 where
  pub action : RuleAction
  pub kind : Text
  pub tier : Text
  pub is_tier_default_action : Bool

-- proto.Policy and proto.Profile, as far as they are read here.
pub record Rules (Rule : Type 0) : Type 0 where
  pub inbound : List Rule
  pub outbound : List Rule

pub record PolicyStore (Rule IpSet : Type 0) : Type 0 where
  pub policy_by_id : Map PolicyId (Rules Rule)
  pub profile_by_id : Map Text (Rules Rule)
  pub ip_set_by_id : Map Text IpSet

-- flow.go: the probe of a pair.
pub record Flow (Ip : Type 0) : Type 0 where
  pub src_ip : Option Ip
  pub dst_ip : Option Ip
  pub src_port : ℤ
  pub dst_port : ℤ
  pub protocol : ℕ
  pub http_method : Option Text
  pub http_path : Option Text

-- proto.Rule by its getters, the IP sets, and app-policy/checker.Evaluate. A failed walk returns
-- the nil trace.
pub record Checker (Ip : Type 0) : Type 1 where
  pub Rule : Type 0
  pub src_ip_set_ids : Rule → List Text
  pub not_src_ip_set_ids : Rule → List Text
  pub dst_ip_set_ids : Rule → List Text
  pub not_dst_ip_set_ids : Rule → List Text
  pub dst_ip_port_set_ids : Rule → List Text
  pub dst_named_port_ip_set_ids : Rule → List Text
  pub not_dst_named_port_ip_set_ids : Rule → List Text
  pub src_named_port_ip_set_ids : Rule → List Text
  pub not_src_named_port_ip_set_ids : Rule → List Text
  pub src_net : Rule → List Text
  pub not_src_net : Rule → List Text
  pub dst_net : Rule → List Text
  pub not_dst_net : Rule → List Text
  pub IpSet : Type 0
  pub ip_set_contains : IpSet → Text → Bool
  pub evaluate :
      PolicyScope
      → RuleDir
      → PolicyStore Rule IpSet
      → Option WorkloadEndpoint
      → Flow Ip
      → List RuleId
