-- ===== src/Cilium/Unrestricted.antt =====
-- engines/cilium/defaults.go: a direction that the index marks as free is one that no compiled
-- rule affects, and there the early `continue` gives what the lookup would give.
use telepathy.Prelude.{
  ℕ, ◌≡◌, refl, sym, ap, ◌∙◌, inl, inr, Bool, true, false, not, ◌&&◌, ◌||◌, Option, none, some,
  List, [], ◌∷◌, ◌++◌, map, arith, nat_eq, if◌then◌else◌, Bool-cases, ℕ_eq, Text, text_eq,
  get_elem?, any, get_elem?-map, map_pointwise, bind_agree, ◌>>=◌, Map, or_zero, put, int_eq,
}
use telepathy.Api.Types.{Endpoint, Request, flow_key}
use telepathy.Api.Pairs.{endpoint_pairs}
use telepathy.Cilium.Repository.{done, Identity, PolicyEntry, Flow, CiliumLib}
use telepathy.Cilium.Defaults.{
  EndpointDirections, applies, init_directions, affect, affect_all, affect_rules,
  affected_directions,
}
use telepathy.Cilium.Identities.{uint16}
use telepathy.Cilium.Evaluate.{
  flow_record, probe_proto, probe_port, flow_of, unaffected, looked_up, flow_verdict, may_skip,
  fill, identities, load, evaluate_with_defaults,
}

module _ ⦃lib : CiliumLib⦄ where
  -- A rule of the direction (true is ingress) whose subject an identity is.
  abbrev pub affects : Bool → Identity lib.Label lib.LabelArray → PolicyEntry lib.Selector → Bool
  affects direction id rule =
      applies rule id && (if direction then rule.ingress else not rule.ingress)

  -- What Cilium does by default: where no rule affects the source's egress or the destination's
  -- ingress, and neither has the label of init, the lookup of a real protocol and port allows.
  abbrev pub AllowsUnaffected : Type 0
  AllowsUnaffected =
      (repo : lib.Repository) (flow : Flow lib.Label lib.LabelArray)
      → nat_eq flow.proto 0 ≡ false
      → nat_eq flow.dport 0 ≡ false
      → lib.has_init flow.from.label_array ≡ false
      → lib.has_init flow.to.label_array ≡ false
      → any (affects false flow.from) (lib.iterate repo) ≡ false
      → any (affects true flow.to) (lib.iterate repo) ≡ false
      → lib.lookup_flow repo flow ≡ done true

  -- All rules at one endpoint.
  after_rules :
      List (PolicyEntry lib.Selector)
      → Identity lib.Label lib.LabelArray
      → EndpointDirections
      → EndpointDirections
  after_rules [] id d = d
  after_rules (rule ∷ rules) id d = after_rules rules id (affect rule id d)

  affect_all-map :
      (rule : PolicyEntry lib.Selector) (f : Identity lib.Label lib.LabelArray → EndpointDirections)
      (ids : List (Identity lib.Label lib.LabelArray))
      → affect_all rule ids (map f ids) ≡ map (λ id. affect rule id (f id)) ids
  unfolding affect_all
  affect_all-map rule f [] = refl
  affect_all-map rule f (id ∷ ids) = ap (◌∷◌ (affect rule id (f id))) (affect_all-map rule f ids)

  affect_rules-map :
      (rules : List (PolicyEntry lib.Selector))
      (f : Identity lib.Label lib.LabelArray → EndpointDirections)
      (ids : List (Identity lib.Label lib.LabelArray))
      → affect_rules rules ids (map f ids) ≡ map (λ id. after_rules rules id (f id)) ids
  unfolding affect_rules after_rules
  affect_rules-map [] f ids = refl
  affect_rules-map (rule ∷ rules) f ids =
      ap (affect_rules rules ids) (affect_all-map rule f ids)
      ∙ affect_rules-map rules (λ id. affect rule id (f id)) ids

  after_rules_ingress :
      (rules : List (PolicyEntry lib.Selector)) (id : Identity lib.Label lib.LabelArray)
      (d : EndpointDirections)
      → (after_rules rules id d).ingress ≡ (d.ingress || any (affects true id) rules)
  unfolding after_rules affect any
  after_rules_ingress [] id d = ground arith
  after_rules_ingress (rule ∷ rules) id d =
      ground (arith, after_rules_ingress rules id (affect rule id d))

  after_rules_egress :
      (rules : List (PolicyEntry lib.Selector)) (id : Identity lib.Label lib.LabelArray)
      (d : EndpointDirections)
      → (after_rules rules id d).egress ≡ (d.egress || any (affects false id) rules)
  unfolding after_rules affect any
  after_rules_egress [] id d = ground arith
  after_rules_egress (rule ∷ rules) id d =
      ground (arith, after_rules_egress rules id (affect rule id d))

  -- The slot of an endpoint: the label of init, or a rule of the direction.
  abbrev pub slot : lib.Repository → Identity lib.Label lib.LabelArray → EndpointDirections
  slot repo id = record {
    ingress = lib.has_init id.label_array || any (affects true id) (lib.iterate repo);
    egress = lib.has_init id.label_array || any (affects false id) (lib.iterate repo);
  }

  after_rules-slot :
      (repo : lib.Repository) (id : Identity lib.Label lib.LabelArray)
      → after_rules (lib.iterate repo) id (init_directions id) ≡ slot repo id
  unfolding init_directions
  after_rules-slot repo id = ground (
    arith,
    after_rules_ingress (lib.iterate repo) id (init_directions id),
    after_rules_egress (lib.iterate repo) id (init_directions id),
  )

  -- Each slot of the index is marked in a direction just when its identity has the label of init or
  -- some compiled rule of that direction has it as a subject, and there are as many slots as
  -- identities.
  pub affected_directions-exact :
      (repo : lib.Repository) (ids : List (Identity lib.Label lib.LabelArray))
      → affected_directions repo ids ≡ map (slot repo) ids
  unfolding affected_directions
  affected_directions-exact repo ids =
      affect_rules-map (lib.iterate repo) init_directions ids
      ∙ map_pointwise (λ id. after_rules (lib.iterate repo) id (init_directions id)) (slot repo) ids
          (after_rules-slot repo)

  -- The parts of a flow, from the lookups that it is made of.
  flow_parts :
      (dst : Option Endpoint) (from to : Option (Identity lib.Label lib.LabelArray))
      (proto dport : ℕ) (flow : Flow lib.Label lib.LabelArray)
      → (do d ← dst; a ← from; b ← to; some (flow_record d a b proto dport)) ≡ some flow
      → (from ≡ some flow.from) × (to ≡ some flow.to) × (flow.proto ≡ proto) × (flow.dport ≡ dport)
  flow_parts none from to proto dport flow h = cc
  flow_parts (some d) none to proto dport flow h = cc
  flow_parts (some d) (some a) none proto dport flow h = cc
  flow_parts (some d) (some a) (some b) proto dport flow h =
      let e : flow_record d a b proto dport ≡ flow = ap (or_zero flow) h in
      (
        ap (λ (f : Flow lib.Label lib.LabelArray). some f.from) e,
        ap (λ (f : Flow lib.Label lib.LabelArray). some f.to) e,
        sym (ap (λ (f : Flow lib.Label lib.LabelArray). f.proto) e),
        sym (ap (λ (f : Flow lib.Label lib.LabelArray). f.dport) e),
      )

  module _ (allows : AllowsUnaffected) (repo : lib.Repository) where
    -- Identities that no rule affects are allowed by the lookup too.
    flow_verdict-unaffected :
        (src dst : Text) (flow : Flow lib.Label lib.LabelArray)
        → nat_eq flow.proto 0 ≡ false
        → nat_eq flow.dport 0 ≡ false
        → (skip : Bool)
        → skip ≡ (not (slot repo flow.from).egress && not (slot repo flow.to).ingress)
        → flow_verdict repo skip src dst flow ≡ flow_verdict repo false src dst flow
    unfolding flow_verdict
    flow_verdict-unaffected src dst flow hp hd false h = refl
    flow_verdict-unaffected src dst flow hp hd true h =
        let free =
          allows repo flow hp hd (ground (arith, h)) (ground (arith, h)) (ground (arith, h))
            (ground (arith, h)) in
        sym (ap (looked_up src dst) free ∙ unfold looked_up in refl)

    module _ (endpoints : List Endpoint) (idents : List (Identity lib.Label lib.LabelArray))
        (proto dport : ℕ) where
      abbrev index : List EndpointDirections
      index = affected_directions repo idents

      unaffected-slot :
          (i j : ℕ) (flow : Flow lib.Label lib.LabelArray)
          → flow_of endpoints idents proto dport (i, j) ≡ some flow
          → (unaffected index (i, j)
              ≡ some (not (slot repo flow.from).egress && not (slot repo flow.to).ingress))
            × (flow.proto ≡ proto)
            × (flow.dport ≡ dport)
      unfolding unaffected flow_of
      unaffected-slot i j flow h =
          let parts =
            flow_parts (get_elem? endpoints j) (get_elem? idents i) (get_elem? idents j) proto dport
              flow h in
          (
            rw
                (
                  affected_directions-exact repo idents,
                  get_elem?-map (slot repo) idents i,
                  get_elem?-map (slot repo) idents j,
                  parts.0,
                  parts.1,
                )
                refl,
            parts.2,
            parts.3,
          )

      -- The test of the early `continue` never changes a verdict.
      may_skip-verdict :
          (src dst : Text) (i j : ℕ) (flow : Flow lib.Label lib.LabelArray)
          → flow_of endpoints idents proto dport (i, j) ≡ some flow
          → (skip : Bool) × (may_skip true index proto dport (i, j) ≡ some skip)
            × (flow_verdict repo skip src dst flow ≡ flow_verdict repo false src dst flow)
      unfolding may_skip
      may_skip-verdict src dst i j flow h =
          let at = unaffected-slot i j flow h in
          elim (Bool-cases (nat_eq dport 0)) [
            | inl hd ↦ (false, rw hd refl, refl)
            | inr hd ↦ elim (Bool-cases (nat_eq proto 0)) [
              | inl hp ↦ (false, rw (hd, hp) refl, refl)
              | inr hp ↦ (
                not (slot repo flow.from).egress && not (slot repo flow.to).ingress,
                rw (hd, hp) at.0,
                flow_verdict-unaffected src dst flow (rw at.1 hp) (rw at.2 hd) _ refl,
              )
            ]
          ]

      -- The loop over the pairs, with and without the index.
      fill-optimize :
          (affected : List EndpointDirections) (pairs : List (ℕ × ℕ))
          (acc : Map Text Text × List Text)
          → fill repo true index endpoints idents proto dport pairs acc
            ≡ fill repo false affected endpoints idents proto dport pairs acc
      unfolding fill may_skip
      fill-optimize affected [] acc = refl
      fill-optimize affected ((i, j) ∷ pairs) (matrix, warnings) =
          bind_agree (get_elem? endpoints i) _ _ (λ src hsrc.
            bind_agree (get_elem? endpoints j) _ _ (λ dst hdst.
              bind_agree (flow_of endpoints idents proto dport (i, j)) _ _ (λ flow hflow.
                let step = may_skip-verdict src.id dst.id i j flow hflow in
                rw (step.1, step.2)
                  (bind_agree (flow_verdict repo false src.id dst.id flow) _ _ (λ verdict hv.
                    fill-optimize affected pairs
                      (put (flow_key src.id dst.id) verdict.0 matrix, warnings ++ verdict.1))))))

  -- When Cilium allows what no rule affects, `evaluate` answers every request as the loop without
  -- the index does: the same matrix, errors, warnings and actors, or both none.
  pub evaluate_with_defaults-unaffected :
      AllowsUnaffected
      → (req : Request) → evaluate_with_defaults req true ≡ evaluate_with_defaults req false
  unfolding evaluate_with_defaults
  evaluate_with_defaults-unaffected allows req = bind_agree (load req) _ _ (λ loaded hload.
      rw
        (fill-optimize allows loaded.repo req.endpoints (identities req) (probe_proto req.protocol)
          (uint16 (probe_port req.port)) [] (endpoint_pairs req.endpoints req.matrix_pairs)
          ([], loaded.warnings))
        refl)
