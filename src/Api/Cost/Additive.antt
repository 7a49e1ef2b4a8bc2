-- ===== src/Api/Cost/Additive.antt =====
-- api/cost.go: the cost of a policy set is the sum over its parts.
use telepathy.Prelude.{
  ℕ, ◌+◌, ◌≡◌, refl, sym, ap, ◌∙◌, inl, inr, List, [], ◌∷◌, ◌++◌, append_assoc, append-nil, arith,
  Option-cases, ℕ_eq, Text, codes, text_eq, has_text, fold, fold-append, int_eq,
}
use telepathy.Api.Types.{PolicyInput, Request}
use telepathy.Api.Documents.{
  Members, Codec, json_object, member, object_or_empty, array_or_empty, walk_counts,
}
use telepathy.Api.Smells.{
  Finding, unreachable_rule_finding, log_action_finding, duplicate_rule_findings,
}
use telepathy.Api.Scopes.{broad_selector_finding, network_set_findings, inline_ports_findings}
use telepathy.Api.Cost.{
  Structural, CostReport, empty_report, policy_name, total_penalty, cost_of, add_direction,
  add_literals, count_policy, add_document, add_policy, compute_cost,
}

abbrev pub plus_structural : Structural → Structural → Structural
plus_structural a b = record {
  policies = a.policies + b.policies;
  rules = a.rules + b.rules;
  cidrs = a.cidrs + b.cidrs;
  ports = a.ports + b.ports;
  negations = a.negations + b.negations;
  resolved_peers = a.resolved_peers + b.resolved_peers;
  max_stack = a.max_stack + b.max_stack;
}

-- Two reports put together.
abbrev pub plus_report : CostReport → CostReport → CostReport
plus_report a b = record {
  engine = a.engine;
  structural = plus_structural a.structural b.structural;
  hygiene = a.hygiene ++ b.hygiene;
  dataplane = a.dataplane;
  cost = a.cost + b.cost;
  formula_version = a.formula_version;
}

plus_report-empty : (a : CostReport) → plus_report a empty_report ≡ a
plus_report-empty a = ground (arith, append-nil a.hygiene)

append_three : {A : Type 0} (u v a b c : List A) → u ++ v ++ a ++ b ++ c ≡ u ++ (v ++ a ++ b ++ c)
append_three u v a b c = simp append_assoc refl

module _ ⦃codec : Codec⦄ where
  add_direction-plus :
      (name : Text) (spec : Members) (r s : CostReport) (dir : Text)
      → add_direction name spec (plus_report r s) dir
        ≡ plus_report r (add_direction name spec s dir)
  unfolding add_direction
  add_direction-plus name spec r s dir =
      let rules = array_or_empty (member dir spec) in
      ground (
        arith,
        append_three r.hygiene s.hygiene (duplicate_rule_findings name dir rules)
            (unreachable_rule_finding name dir rules) (log_action_finding name dir rules),
      )

  add_literals-plus :
      (p : PolicyInput) (name : Text) (spec : Members) (r s : CostReport)
      → add_literals p name spec (plus_report r s) ≡ plus_report r (add_literals p name spec s)
  unfolding add_literals
  add_literals-plus p name spec r s =
      let n = walk_counts (json_object spec) in
      ground (
        arith,
        append_three r.hygiene s.hygiene (broad_selector_finding name spec)
            (network_set_findings name n.cidrs (has_text p.yaml (codes "domains:")))
            (inline_ports_findings name n.ports),
      )

  count_policy-plus :
      (r s : CostReport) → count_policy (plus_report r s) ≡ plus_report r (count_policy s)
  unfolding count_policy
  count_policy-plus r s = ground arith

  add_document-plus :
      (r s : CostReport) (p : PolicyInput) (kind : Text) (doc : Members)
      → add_document (plus_report r s) p kind doc ≡ plus_report r (add_document s p kind doc)
  unfolding add_document
  add_document-plus r s p kind doc =
      let name = policy_name doc kind in
      let spec = object_or_empty (member (codes "spec") doc) in
      let ingress = add_direction name spec (count_policy s) (codes "ingress") in
      let egress = add_direction name spec ingress (codes "egress") in
      ap
        (λ x.
          add_literals p name spec (
            add_direction name spec (add_direction name spec x (codes "ingress")) (codes "egress")))
        (count_policy-plus r s)
      ∙ (ap (λ x. add_literals p name spec (add_direction name spec x (codes "egress")))
            (add_direction-plus name spec r (count_policy s) (codes "ingress"))
          ∙ (ap (add_literals p name spec) (add_direction-plus name spec r ingress (codes "egress"))
              ∙ add_literals-plus p name spec r egress))

  add_policy-plus :
      (r s : CostReport) (p : PolicyInput)
      → add_policy (plus_report r s) p ≡ plus_report r (add_policy s p)
  unfolding add_policy
  add_policy-plus r s p = elim (Option-cases (codec.decode_kind p.yaml)) [
    | inl e ↦ ground (arith, e)
    | inr (kind, e) ↦ elim (Option-cases (codec.decode_doc p.yaml)) [
      | inl n ↦ ground (arith, e, n)
      | inr (doc, n) ↦ ground (arith, e, n, add_document-plus r s p kind doc)
    ]
  ]

  fold-plus :
      (r s : CostReport) (ps : List PolicyInput)
      → fold add_policy (plus_report r s) ps ≡ plus_report r (fold add_policy s ps)
  unfolding fold
  fold-plus r s [] = refl
  fold-plus r s (p ∷ ps) =
      ap (λ x. fold add_policy x ps) (add_policy-plus r s p) ∙ fold-plus r (add_policy s p) ps

total_penalty-plus :
    (s t : ℕ) (fs gs : List Finding)
    → total_penalty (s + t) (fs ++ gs) ≡ total_penalty s fs + total_penalty t gs
unfolding total_penalty
total_penalty-plus s t [] [] = refl
total_penalty-plus s t [] (g ∷ gs) =
    ap (λ n. total_penalty n gs) (omega arith) ∙ total_penalty-plus s (t + g.penalty) [] gs
total_penalty-plus s t (f ∷ fs) gs =
    ap (λ n. total_penalty n (fs ++ gs)) (omega arith) ∙ total_penalty-plus (s + f.penalty) t fs gs

cost_of-plus : (a b : CostReport) → cost_of (plus_report a b) ≡ cost_of a + cost_of b
unfolding cost_of
cost_of-plus a b =
    ap (λ n. total_penalty n (a.hygiene ++ b.hygiene)) (omega arith)
    ∙ total_penalty-plus _ _ a.hygiene b.hygiene

module _ ⦃codec : Codec⦄ where
  abbrev with_policies : Request → List PolicyInput → Request
  with_policies req ps = record req { policies = ps }

  -- The report on the policies of two lists, one after the other, is that of the first and that of
  -- the second put together: the counters and the cost are sums, and the findings follow each
  -- other.
  pub compute_cost-append :
      (req : Request) (ps qs : List PolicyInput)
      → compute_cost (record req { policies = ps ++ qs })
        ≡ plus_report
            (compute_cost (record req { policies = ps }))
            (compute_cost (record req { policies = qs }))
  unfolding compute_cost
  compute_cost-append req ps qs =
      let a = fold add_policy empty_report ps in
      let b = fold add_policy empty_report qs in
      let both : fold add_policy empty_report (ps ++ qs) ≡ plus_report a b =
        fold-append add_policy empty_report ps qs
        ∙ (ap (λ x. fold add_policy x qs) (sym (plus_report-empty a))
            ∙ fold-plus a empty_report qs) in
      rw (both, cost_of-plus a b) refl
