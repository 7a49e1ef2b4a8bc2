-- ===== src/Tests/Cost.antt =====
-- api/cost.go on two manifests.
use telepathy.Prelude.{
  ◌+◌, ◌*◌, ◌≤◌, ◌≡◌, refl, some, [], ◌∷◌, ◌++◌, ℕ_eq, codes, text_beq, text_eq, is_empty, to_lower,
  trim_space, equal_fold, has_prefix, has_text, length, any, fold, every, get, put, int_eq,
}
use telepathy.Api.Types.{PolicyInput, no_request}
use telepathy.Api.Documents.{
  Value, Members, Codec, json_null, json_string, json_array, json_object, no_values, more_values,
  no_members, more_members, member, array_or_empty, count_if, key_counts, walk_counts,
  has_constraint_key,
}
use telepathy.Api.Smells.{
  is_match_all, is_terminal_action, shadows, find_shadow, unreachable_rule_finding, logs,
  count_logs, log_action_finding, find_duplicates, duplicate_finding, duplicate_rule_findings,
}
use telepathy.Api.Scopes.{
  broad_scope, has_specific_allow, allows_specific_peer, pod_scope, broad_selector_finding,
  network_set_findings, inline_ports_findings,
}
use telepathy.Api.Cost.{
  is_policy_kind, policy_name, total_penalty, cost_of, add_direction, add_literals, count_policy,
  add_document, add_policy, compute_cost,
}
use telepathy.Api.Cost.Additive.{plus_report, compute_cost-append}
use telepathy.Api.Cost.Bounds.{compute_cost-bounds}
use telepathy.Api.Cost.Repeats.{repeats, duplicate_rule_findings-repeats}
use telepathy.Api.Cost.Reordering.{in_object, swap, walk_counts-Reordered}

-- A rule without a match, twice, under one selector for all pods.
abbrev open_rule : Value
open_rule = json_object (more_members (codes "action") (json_string (codes "Allow")) no_members)

abbrev open_spec : Members
open_spec = more_members (codes "selector") (json_string (codes "all()")) (
    more_members (codes "ingress")
      (json_array (more_values open_rule (more_values open_rule no_values))) no_members)

-- Every text is a manifest of that policy, and every value has the same JSON.
instance abbrev one_policy : Codec
one_policy = record {
  decode_kind = λ s. some (codes "GlobalNetworkPolicy");
  decode_doc = λ s. some (more_members (codes "spec") (json_object open_spec) no_members);
  marshal = λ v. some (codes "{}");
}

abbrev manifest : PolicyInput
manifest = record { flavor = []; yaml = codes "kind: GlobalNetworkPolicy" }

-- Two rules, one of them unreachable and one a duplicate.
open_policy_cost : (compute_cost (record no_request { policies = manifest ∷ [] })).cost ≡ 15
unfolding compute_cost add_policy add_document add_direction add_literals count_policy policy_name
    is_policy_kind has_text has_prefix member array_or_empty duplicate_rule_findings find_duplicates
    duplicate_finding get put text_beq unreachable_rule_finding find_shadow shadows is_match_all
    is_terminal_action every equal_fold to_lower log_action_finding count_logs logs walk_counts
    key_counts count_if broad_selector_finding broad_scope has_specific_allow allows_specific_peer
    pod_scope any has_constraint_key network_set_findings inline_ports_findings cost_of
    total_penalty fold is_empty trim_space
open_policy_cost = refl

compute_cost-append_example :
    compute_cost (record no_request { policies = (manifest ∷ []) ++ (manifest ∷ []) })
    ≡ plus_report
        (compute_cost (record no_request { policies = manifest ∷ [] }))
        (compute_cost (record no_request { policies = manifest ∷ [] }))
compute_cost-append_example = compute_cost-append no_request (manifest ∷ []) (manifest ∷ [])

compute_cost-bounds_example :
    let r = compute_cost (record no_request { policies = manifest ∷ [] }) in
    let s =
      r.structural.rules * 2
      + r.structural.cidrs
      + r.structural.ports
      + r.structural.negations * 3 in
    (s + 4 * length r.hygiene ≤ r.cost) × (r.cost ≤ s + 10 * length r.hygiene)
compute_cost-bounds_example = compute_cost-bounds (record no_request { policies = manifest ∷ [] })

duplicate_rule_findings-repeats_example :
    duplicate_rule_findings (codes "p") (codes "ingress") (open_rule ∷ open_rule ∷ [])
    ≡ repeats (codes "p") (codes "ingress") [] (open_rule ∷ open_rule ∷ [])
duplicate_rule_findings-repeats_example =
    duplicate_rule_findings-repeats (codes "p") (codes "ingress") (open_rule ∷ open_rule ∷ [])

abbrev two_keys : Members
two_keys =
    more_members (codes "nets") (json_array no_values)
      (more_members (codes "selector") json_null no_members)

abbrev other_order : Members
other_order =
    more_members (codes "selector") json_null
      (more_members (codes "nets") (json_array no_values) no_members)

walk_counts-Reordered_example :
    (walk_counts (json_object two_keys) ≡ walk_counts (json_object other_order))
    × (has_constraint_key (json_object two_keys) ≡ has_constraint_key (json_object other_order))
walk_counts-Reordered_example =
    walk_counts-Reordered (json_object two_keys) (json_object other_order) (in_object swap)
