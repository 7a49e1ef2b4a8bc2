-- ===== src/Api/Cost.antt =====
-- api/cost.go: the portable cost of a policy set.
pub mod Bounds
pub mod Reordering
pub mod Repeats
pub mod Additive
use telepathy.Prelude.{
  Map, none, ℕ, zero, suc, ◌+◌, ◌-◌, ◌*◌, ◌/◌, ◌%◌, ◌^◌, ◌≤◌, ◌<◌, ◌≡◌, refl, sym, ap, ◌∙◌, ◌≢◌,
  ◌↔◌, ◌⊎◌, inl, inr, Bool, true, false, not, ◌&&◌, ◌||◌, Option, none, some, List, [], ◌∷◌, ◌++◌,
  map, append_assoc, append-nil, arith, ltb, leb, nat_eq, nat_eq_iff, ltb→lt, lt→ltb, leb→le,
  if◌then◌else◌, Bool-cases, Option-cases, Eq, ◌==◌, ==_refl, ==_ne, ℕ_eq, bool_eq, or_assoc, Text,
  codes, text_beq, text_beq_iff, text_eq, is_empty, to_lower, trim_space, equal_fold, has_prefix,
  has_text, cut_byte, length, get_elem?, length-append, All, All-append, All-append_parts, All-mono,
  All-both, any, any-append, get_elem?-map, length-map, map_pointwise, fold, fold-append, set_at,
  get_elem?-set_at_self, get_elem?-set_at_other, get_elem?-append_left, get_elem?-append_right,
  get_elem?-append_end, get_elem?-append_cases, every, Member, Member-append, every-append,
  contains, is_nil, ◌>>=◌, itoa, quote, text_leb, insert_sorted, sort_texts, join, int_itoa, Map,
  or_zero, get, put, get-put, get-put_self, HasDistinctKeys, put-HasDistinctKeys, ℤ, pos, negsuc,
  int_beq, int_leb, int_beq_iff, int_eq,
}
use telepathy.Api.Types.{PolicyInput, Request}
use telepathy.Api.Documents.{
  Value, Members, Codec, json_object, member, as_object, object_or_empty, as_string, array_or_empty,
  Counts, walk_counts, walk_members,
}
use telepathy.Api.Smells.{
  Finding, unreachable_rule_finding, log_action_finding, duplicate_rule_findings,
}
use telepathy.Api.Scopes.{broad_selector_finding, network_set_findings, inline_ports_findings}

-- `resolved_peers` and `max_stack` are left zero here.
pub record Structural : Type 0 where
  pub policies : ℕ
  pub rules : ℕ
  pub cidrs : ℕ
  pub ports : ℕ
  pub negations : ℕ
  pub resolved_peers : ℕ
  pub max_stack : ℕ

-- The weight that an engine's own dataplane gives a policy set.
pub record DataplaneWeight : Type 0 where
  pub kind : Text
  pub rules : ℕ
  pub rules_unit : Text
  pub peer_entries : ℕ
  pub ip_sets : ℕ
  pub by_endpoint : Map Text ℕ

-- The caller fills `engine` and `dataplane`.
pub record CostReport : Type 0 where
  pub engine : Text
  pub structural : Structural
  pub hygiene : List Finding
  pub dataplane : Option DataplaneWeight
  pub cost : ℕ
  pub formula_version : ℕ

abbrev pub cost_formula_version : ℕ
cost_formula_version = 2

abbrev pub weight_rule : ℕ
weight_rule = 2

abbrev pub weight_cidr : ℕ
weight_cidr = 1

abbrev pub weight_port : ℕ
weight_port = 1

abbrev pub weight_neg : ℕ
weight_neg = 3

abbrev pub empty_report : CostReport
empty_report = record {
  engine = [];
  dataplane = none;
  structural = record {
    policies = 0;
    rules = 0;
    cidrs = 0;
    ports = 0;
    negations = 0;
    resolved_peers = 0;
    max_stack = 0;
  };
  hygiene = [];
  cost = 0;
  formula_version = cost_formula_version;
}

unfoldable pub is_policy_kind : Text → Bool
unfolding has_text
is_policy_kind kind = has_text kind (codes "NetworkPolicy")

unfoldable pub policy_name : Members → Text → Text
unfolding member
policy_name doc kind = elim (as_object (member (codes "metadata") doc)) [
  | none ↦ kind
  | some md ↦ elim (as_string (member (codes "name") md)) [
    | none ↦ kind
    | some n ↦ if is_empty n then kind else kind ++ codes " " ++ n
  ]
]

unfoldable pub total_penalty : ℕ → List Finding → ℕ
total_penalty s [] = s
total_penalty s (f ∷ fs) = total_penalty (s + f.penalty) fs

unfoldable pub cost_of : CostReport → ℕ
unfolding total_penalty
cost_of r =
    let s = r.structural in
    total_penalty
      (s.rules * weight_rule
        + s.cidrs * weight_cidr
        + s.ports * weight_port
        + s.negations * weight_neg)
      r.hygiene

module _ ⦃codec : Codec⦄ where
  -- The rules of a direction: their number and findings.
  unfoldable pub add_direction : Text → Members → CostReport → Text → CostReport
  unfolding duplicate_rule_findings unreachable_rule_finding log_action_finding array_or_empty
  add_direction name spec r dir =
      let rules = array_or_empty (member dir spec) in
      record r {
        structural = record r.structural { rules = r.structural.rules + length rules };
        hygiene =
            r.hygiene
            ++ duplicate_rule_findings name dir rules
            ++ unreachable_rule_finding name dir rules
            ++ log_action_finding name dir rules;
      }

  -- The literals and the findings on the whole policy.
  unfoldable pub add_literals : PolicyInput → Text → Members → CostReport → CostReport
  unfolding walk_counts broad_selector_finding network_set_findings inline_ports_findings
  add_literals p name spec r =
      let n = walk_counts (json_object spec) in
      record r {
        structural = record r.structural {
          cidrs = r.structural.cidrs + n.cidrs;
          ports = r.structural.ports + n.ports;
          negations = r.structural.negations + n.negs;
        };
        hygiene =
            r.hygiene
            ++ broad_selector_finding name spec
            ++ network_set_findings name n.cidrs (has_text p.yaml (codes "domains:"))
            ++ inline_ports_findings name n.ports;
      }

  unfoldable pub count_policy : CostReport → CostReport
  count_policy r = record r {
    structural = record r.structural { policies = suc r.structural.policies };
  }

  -- The rest of the loop's body, for a manifest of a policy that decodes.
  unfoldable pub add_document : CostReport → PolicyInput → Text → Members → CostReport
  unfolding add_direction add_literals count_policy policy_name
  add_document r p kind doc =
      let name = policy_name doc kind in
      let spec = object_or_empty (member (codes "spec") doc) in
      let ingress = add_direction name spec (count_policy r) (codes "ingress") in
      add_literals p name spec (add_direction name spec ingress (codes "egress"))

  unfoldable pub add_policy : CostReport → PolicyInput → CostReport
  unfolding add_document is_policy_kind
  add_policy r p = elim (codec.decode_kind p.yaml) [
    | none ↦ r
    | some kind ↦
        if not (is_policy_kind kind)
        then r
        else elim (codec.decode_doc p.yaml) [ none ↦ r | some doc ↦ add_document r p kind doc ]
  ]

  unfoldable pub compute_cost : Request → CostReport
  unfolding add_policy cost_of fold
  compute_cost req =
      let r = fold add_policy empty_report req.policies in record r { cost = cost_of r }
