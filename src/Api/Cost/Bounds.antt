-- ===== src/Api/Cost/Bounds.antt =====
-- api/cost.go: the headline cost against the counters and the number of findings.
use telepathy.Prelude.{
  ℕ, suc, ◌+◌, ◌*◌, ◌≤◌, inl, inr, Bool, true, false, not, ◌||◌, List, [], ◌∷◌, ◌++◌, arith, leb,
  nat_eq, Bool-cases, Option-cases, ℕ_eq, Text, codes, text_eq, is_empty, has_text, length, All,
  All-append, fold, Map, get, put, int_eq,
}
use telepathy.Api.Types.{PolicyInput, Request}
use telepathy.Api.Documents.{
  Value, Members, Codec, member, json_object, object_or_empty, array_or_empty, walk_counts,
}
use telepathy.Api.Smells.{
  Finding, find_shadow, unreachable_rule_finding, count_logs, log_action_finding, find_duplicates,
  duplicate_finding, duplicate_rule_findings,
}
use telepathy.Api.Scopes.{
  broad_scope, has_specific_allow, broad_selector_finding, network_set_findings,
  inline_ports_findings,
}
use telepathy.Api.Cost.{
  CostReport, empty_report, is_policy_kind, policy_name, total_penalty, cost_of, add_direction,
  add_literals, count_policy, add_document, add_policy, compute_cost,
}

-- The penalty of every finding lies between that of a logging rule and that of a broad selector.
abbrev pub IsPriced : Finding → Type 0
IsPriced f = (4 ≤ f.penalty) × (f.penalty ≤ 10)

abbrev AllPriced : List Finding → Type 0
AllPriced = All IsPriced

unreachable_rule_finding-IsPriced :
    (name dir : Text) (rules : List Value) → AllPriced (unreachable_rule_finding name dir rules)
unfolding unreachable_rule_finding
unreachable_rule_finding-IsPriced name dir rules = elim (Option-cases (find_shadow 1 rules)) [
  | inl e ↦ rw (e, unreachable_rule_finding) tt
  | inr ((i, n), e) ↦ rw (e, unreachable_rule_finding) ((omega arith, omega arith), tt)
]

log_action_finding-IsPriced :
    (name dir : Text) (rules : List Value) → AllPriced (log_action_finding name dir rules)
unfolding log_action_finding
log_action_finding-IsPriced name dir rules = elim (Bool-cases (nat_eq (count_logs rules) 0)) [
  | inl e ↦ rw e tt
  | inr e ↦ rw e ((omega arith, omega arith), tt)
]

broad_selector_finding-IsPriced :
    (name : Text) (spec : Members) → AllPriced (broad_selector_finding name spec)
unfolding broad_selector_finding
broad_selector_finding-IsPriced name spec =
    elim (Bool-cases (is_empty (broad_scope spec) || not (has_specific_allow spec))) [
      | inl e ↦ rw e tt
      | inr e ↦ rw e ((omega arith, omega arith), tt)
    ]

network_set_findings-IsPriced :
    (name : Text) (cidrs : ℕ) (domains : Bool) → AllPriced (network_set_findings name cidrs domains)
unfolding network_set_findings
network_set_findings-IsPriced name cidrs true = elim (Bool-cases (leb 5 cidrs)) [
  | inl e ↦ rw e ((omega arith, omega arith), ((omega arith, omega arith), tt))
  | inr e ↦ rw e ((omega arith, omega arith), tt)
]
network_set_findings-IsPriced name cidrs false = elim (Bool-cases (leb 5 cidrs)) [
  | inl e ↦ rw e ((omega arith, omega arith), tt)
  | inr e ↦ rw e tt
]

inline_ports_findings-IsPriced :
    (name : Text) (ports : ℕ) → AllPriced (inline_ports_findings name ports)
unfolding inline_ports_findings
inline_ports_findings-IsPriced name ports = elim (Bool-cases (leb 8 ports)) [
  | inl e ↦ rw e ((omega arith, omega arith), tt)
  | inr e ↦ rw e tt
]

total_penalty-bounds :
    (s : ℕ) (fs : List Finding)
    → AllPriced fs
    → (s + 4 * length fs ≤ total_penalty s fs) × (total_penalty s fs ≤ s + 10 * length fs)
unfolding total_penalty
total_penalty-bounds s [] h = (omega arith, omega arith)
total_penalty-bounds s (f ∷ fs) h =
    let (low, high) = total_penalty-bounds (s + f.penalty) fs h.1 in
    (omega (arith, low, h.0.0), omega (arith, high, h.0.1))

module _ ⦃codec : Codec⦄ where
  find_duplicates-IsPriced :
      (name dir : Text) (seen : Map Text ℕ) (i : ℕ) (rules : List Value)
      → AllPriced (find_duplicates name dir seen i rules)
  unfolding find_duplicates duplicate_finding
  find_duplicates-IsPriced name dir seen i [] = tt
  find_duplicates-IsPriced name dir seen i (r ∷ rest) = elim (Option-cases (codec.marshal r)) [
    | inl e ↦ rw (e, find_duplicates) (find_duplicates-IsPriced name dir seen (suc i) rest)
    | inr (b, e) ↦ elim (Option-cases (get b seen)) [
      | inl n ↦
          rw (e, n, find_duplicates) (find_duplicates-IsPriced name dir (put b i seen) (suc i) rest)
      | inr (j, n) ↦
          rw (e, n, find_duplicates)
            ((omega arith, omega arith), find_duplicates-IsPriced name dir seen (suc i) rest)
    ]
  ]

  add_three-IsPriced :
      (hygiene a b c : List Finding)
      → AllPriced hygiene
      → AllPriced a
      → AllPriced b
      → AllPriced c
      → AllPriced (hygiene ++ a ++ b ++ c)
  add_three-IsPriced hygiene a b c h ha hb hc =
      All-append (hygiene ++ a ++ b) c IsPriced
        (All-append (hygiene ++ a) b IsPriced (All-append hygiene a IsPriced h ha) hb) hc

  add_direction-IsPriced :
      (name : Text) (spec : Members) (r : CostReport) (dir : Text)
      → AllPriced r.hygiene
      → AllPriced (add_direction name spec r dir).hygiene
  unfolding add_direction duplicate_rule_findings
  add_direction-IsPriced name spec r dir h =
      let rules = array_or_empty (member dir spec) in
      add_three-IsPriced r.hygiene _ _ _ h (find_duplicates-IsPriced name dir [] 1 rules)
        (unreachable_rule_finding-IsPriced name dir rules)
        (log_action_finding-IsPriced name dir rules)

  add_document-IsPriced :
      (r : CostReport) (p : PolicyInput) (kind : Text) (doc : Members)
      → AllPriced r.hygiene
      → AllPriced (add_document r p kind doc).hygiene
  unfolding add_document add_literals count_policy
  add_document-IsPriced r p kind doc h =
      let name = policy_name doc kind in
      let spec = object_or_empty (member (codes "spec") doc) in
      let n = walk_counts (json_object spec) in
      let ingress = add_direction-IsPriced name spec (count_policy r) (codes "ingress") h in
      let egress =
        add_direction-IsPriced name spec
          (add_direction name spec (count_policy r) (codes "ingress")) (codes "egress") ingress in
      add_three-IsPriced _ _ _ _ egress (broad_selector_finding-IsPriced name spec)
        (network_set_findings-IsPriced name n.cidrs (has_text p.yaml (codes "domains:")))
        (inline_ports_findings-IsPriced name n.ports)

  add_policy-IsPriced :
      (r : CostReport) (p : PolicyInput) → AllPriced r.hygiene → AllPriced (add_policy r p).hygiene
  unfolding add_policy
  add_policy-IsPriced r p h = elim (Option-cases (codec.decode_kind p.yaml)) [
    | inl e ↦ rw (e, add_policy) h
    | inr (kind, e) ↦ elim (Bool-cases (is_policy_kind kind)) [
      | inr n ↦ rw (e, n, add_policy) h
      | inl n ↦ elim (Option-cases (codec.decode_doc p.yaml)) [
        | inl d ↦ rw (e, n, d, add_policy) h
        | inr (doc, d) ↦ rw (e, n, d, add_policy) (add_document-IsPriced r p kind doc h)
      ]
    ]
  ]

  fold-IsPriced :
      (r : CostReport) (ps : List PolicyInput)
      → AllPriced r.hygiene
      → AllPriced (fold add_policy r ps).hygiene
  unfolding fold
  fold-IsPriced r [] h = h
  fold-IsPriced r (p ∷ ps) h = fold-IsPriced (add_policy r p) ps (add_policy-IsPriced r p h)

  -- The cost is at least, and at most, the weighted counters with 4, and with 10, for each
  -- finding.
  pub compute_cost-bounds :
      (req : Request)
      → let r = compute_cost req in
        let s =
          r.structural.rules * 2
          + r.structural.cidrs
          + r.structural.ports
          + r.structural.negations * 3 in
        (s + 4 * length r.hygiene ≤ r.cost) × (r.cost ≤ s + 10 * length r.hygiene)
  unfolding compute_cost cost_of
  compute_cost-bounds req =
      let r = fold add_policy empty_report req.policies in
      let (low, high) =
        total_penalty-bounds
          (r.structural.rules * 2
            + r.structural.cidrs * 1
            + r.structural.ports * 1
            + r.structural.negations * 3)
          r.hygiene (fold-IsPriced empty_report req.policies tt) in
      (omega (arith, low), omega (arith, high))
