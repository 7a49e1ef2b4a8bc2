-- ===== src/Antrea/Verdicts.antt =====
-- engines/antrea: what the matrix of `evaluate` holds.
use telepathy.Prelude.{
  ℕ, ◌+◌, ◌≡◌, refl, ◌∙◌, Bool, true, false, ◌&&◌, none, some, List, [], ◌∷◌, map, arith, ltb,
  nat_eq, if◌then◌else◌, ℕ_eq, Text, text_beq_iff, text_eq, get_elem?, All, get_elem?-map, Map, get,
  put, get-put, ℤ, int_eq,
}
use mathlib.Core.Path.{ap₂}
use telepathy.Api.Types.{Endpoint, Request, Response, flow_key}
use telepathy.Api.Ids.{HasDistinctIds, HasArrowFreeIds, index_of_id, All-get_elem?}
use telepathy.Api.FlowKey.{IsArrowFree, flow_key-injective}
use telepathy.Api.Pairs.{endpoint_pairs}
use telepathy.Api.Pairs.Visits.{times, one}
use telepathy.Api.Pairs.Exactness.{wanted, endpoint_pairs-times}
use telepathy.Net.{Net}
use telepathy.Antrea.Types.{Model}
use telepathy.Antrea.Rules.{ingress_allows, egress_allows, default_tcp}
use telepathy.Antrea.Defaults.{
  EndpointPolicies, index_policies, endpoint_entry, index_endpoint_policies,
}
use telepathy.Antrea.Manifests.{Grouping}
use telepathy.Antrea.Build.{build}
use telepathy.Antrea.Evaluate.{
  default_port, verdict_text, actor_of, pair_allows, fill, evaluate_with_defaults, evaluate,
}
use telepathy.Antrea.Equivalence.{IsWellFormed, endpoint_entry-ingress, endpoint_entry-egress}
use telepathy.Antrea.WellFormed.{build-IsWellFormed, InRange, endpoint_pairs-InRange}

-- Two-sided enforcement: the destination's ingress and the source's egress.
abbrev pub two_sided : ⦃net : Net⦄ → Model net.Cidr → Text → ℤ → Endpoint → Endpoint → Bool
two_sided m proto port src dst =
    ingress_allows m dst src proto port && egress_allows m src dst proto port

module _ ⦃net : Net⦄ (m : Model net.Cidr) (endpoints : List Endpoint) (proto : Text)
    (port : ℤ) where
  abbrev both_allow : Endpoint → Endpoint → Bool
  both_allow = two_sided m proto port

  -- By the loops or by the index, a pair in range has the two-sided verdict.
  pair_allows-plain :
      (applicable : List (EndpointPolicies net.Cidr)) (i j : ℕ) (src dst : Endpoint)
      → get_elem? endpoints i ≡ some src
      → get_elem? endpoints j ≡ some dst
      → pair_allows false m applicable endpoints proto port (i, j) ≡ some (both_allow src dst)
  unfolding pair_allows
  pair_allows-plain applicable i j src dst hi hj = rw (hi, hj) refl

  pair_allows-indexed :
      (i j : ℕ) (src dst : Endpoint)
      → IsWellFormed m.policies
      → get_elem? endpoints i ≡ some src
      → get_elem? endpoints j ≡ some dst
      → pair_allows true m
          (index_endpoint_policies m endpoints proto port)
          endpoints
          proto
          port
          (i, j)
        ≡ some (both_allow src dst)
  unfolding pair_allows index_endpoint_policies
  pair_allows-indexed i j src dst wf hi hj =
      let entry = endpoint_entry (index_policies m.policies []) proto port in
      rw (hi, hj, get_elem?-map entry endpoints j, get_elem?-map entry endpoints i, hi, hj)
        (ap₂ (λ x y. some (x && y)) (endpoint_entry-ingress m wf proto port src dst)
          (endpoint_entry-egress m wf proto port src dst))

  -- Every visited pair has a verdict, so the loop ends with a matrix, the same by both ways.
  fill-eq :
      (applicable : List (EndpointPolicies net.Cidr)) (pairs : List (ℕ × ℕ))
      (matrix : Map Text Text)
      → IsWellFormed m.policies
      → All (InRange endpoints) pairs
      → fill true m
          (index_endpoint_policies m endpoints proto port)
          endpoints
          proto
          port
          pairs
          matrix
        ≡ fill false m applicable endpoints proto port pairs matrix
  unfolding fill
  fill-eq applicable [] matrix wf h = refl
  fill-eq applicable ((i, j) ∷ pairs) matrix wf ((src, dst, hi, hj), rest) =
      let next = put (flow_key src.id dst.id) (verdict_text (both_allow src dst)) matrix in
      rw
        (
          hi,
          hj,
          pair_allows-indexed i j src dst wf hi hj,
          pair_allows-plain applicable i j src dst hi hj,
        )
        (fill-eq applicable pairs next wf rest)

  module _ (i j : ℕ) (src dst : Endpoint) (hi : get_elem? endpoints i ≡ some src)
      (hj : get_elem? endpoints j ≡ some dst)
      (unique : (a b : ℕ) (s d : Endpoint)
        → get_elem? endpoints a ≡ some s
        → get_elem? endpoints b ≡ some d
        → flow_key s.id d.id ≡ flow_key src.id dst.id
        → (a ≡ i) × (b ≡ j)) where
    same_ends :
        (a b : ℕ) (s d : Endpoint)
        → get_elem? endpoints a ≡ some s
        → get_elem? endpoints b ≡ some d
        → a ≡ i
        → b ≡ j
        → (flow_key s.id d.id ≡ flow_key src.id dst.id) × (both_allow s d ≡ both_allow src dst)
    same_ends a b s d ha hb ea eb =
        let es : s ≡ src = cc in
        let ed : d ≡ dst = cc in
        (ap₂ (λ (x y : Endpoint). flow_key x.id y.id) es ed, ap₂ both_allow es ed)

    entry_step :
        (a b : ℕ) (s d : Endpoint)
        → get_elem? endpoints a ≡ some s
        → get_elem? endpoints b ≡ some d
        → (later : ℕ) (matrix : Map Text Text)
        → (if ltb 0 later
            then some (verdict_text (both_allow src dst))
            else get
                (flow_key src.id dst.id)
                (put (flow_key s.id d.id) (verdict_text (both_allow s d)) matrix))
          ≡ (if ltb 0 (one (nat_eq a i && nat_eq b j) + later)
              then some (verdict_text (both_allow src dst))
              else get (flow_key src.id dst.id) matrix)
    entry_step a b s d ha hb later matrix =
        let k = flow_key src.id dst.id in
        let k' = flow_key s.id d.id in
        ground (
          arith,
          get-put k' k (verdict_text (both_allow s d)) matrix,
          text_beq_iff k' k,
          unique a b s d ha hb,
          same_ends a b s d ha hb,
        )

    -- The entry of a flow is the verdict of its pair, if the pair is visited.
    fill-get :
        (pairs : List (ℕ × ℕ)) (matrix : Map Text Text)
        → All (InRange endpoints) pairs
        → (result : Map Text Text) × (fill false m [] endpoints proto port pairs matrix
            ≡ some result)
          × (get (flow_key src.id dst.id) result ≡ (
              if ltb 0 (times i j pairs)
              then some (verdict_text (both_allow src dst))
              else get (flow_key src.id dst.id) matrix))
    unfolding fill times
    fill-get [] matrix h = (matrix, refl, refl)
    fill-get ((a, b) ∷ pairs) matrix ((s, d, ha, hb), rest) =
        let next = put (flow_key s.id d.id) (verdict_text (both_allow s d)) matrix in
        let (result, filled, entry) = fill-get pairs next rest in
        (
          result,
          rw (ha, hb, pair_allows-plain [] a b s d ha hb) filled,
          entry ∙ entry_step a b s d ha hb (times i j pairs) matrix,
        )

module _ ⦃net : Net⦄ ⦃group : Grouping⦄ (req : Request) where
  -- The probe of the request, with its defaults.
  abbrev pub probe_proto : Text
  probe_proto = default_tcp req.protocol

  abbrev pub probe_port : ℤ
  probe_port = default_port req.port

  -- The optimisation changes nothing: for every request, and whatever the grouping index, the YAML
  -- decoder and the net package compute, `evaluateWithDefaults` returns the same response, matrix,
  -- errors, warnings and actors, with the index as without it.
  pub evaluate_with_defaults-optimize :
      evaluate_with_defaults req true ≡ evaluate_with_defaults req false
  unfolding evaluate_with_defaults
  evaluate_with_defaults-optimize =
      rw
        (fill-eq (build req) req.endpoints probe_proto probe_port []
          (endpoint_pairs req.endpoints req.matrix_pairs) [] (build-IsWellFormed req)
          (endpoint_pairs-InRange req.endpoints req.matrix_pairs))
        refl

  -- With distinct IDs that hold no "->", `evaluate` ends with a matrix, and its entry for two
  -- endpoints of the request is there exactly if the pair is wanted (distinct IDs, and requested
  -- if anything is); it is "allow" exactly if the destination's ingress policies and the source's
  -- egress policies both allow the probe.
  pub evaluate-entry :
      (i j : ℕ) (src dst : Endpoint)
      → HasDistinctIds req.endpoints
      → HasArrowFreeIds req.endpoints
      → get_elem? req.endpoints i ≡ some src
      → get_elem? req.endpoints j ≡ some dst
      → (resp : Response) × (evaluate req ≡ some resp)
        × (get (flow_key src.id dst.id) resp.matrix ≡ (
            if wanted req.matrix_pairs (some src) (some dst)
            then some (verdict_text (two_sided (build req) probe_proto probe_port src dst))
            else none))
  unfolding evaluate
  evaluate-entry i j src dst distinct free hi hj =
      let pairs = endpoint_pairs req.endpoints req.matrix_pairs in
      let (result, filled, entry) =
        fill-get (build req) req.endpoints probe_proto probe_port i j src dst hi hj unique pairs []
          (endpoint_pairs-InRange req.endpoints req.matrix_pairs) in
      let resp : Response = record {
        matrix = result;
        errors = (build req).errors;
        warnings = (build req).warnings;
        actors = map actor_of req.endpoints;
      } in
      let count : times i j pairs ≡ one (wanted req.matrix_pairs (some src) (some dst)) =
        rw (hi, hj) at (endpoint_pairs-times req.endpoints req.matrix_pairs i j) in
      (
        resp,
        evaluate_with_defaults-optimize ∙ (unfold evaluate_with_defaults in rw filled refl),
        entry ∙ (unfold get in rw count (ground arith)),
      )
    where
      unique :
          (a b : ℕ) (s d : Endpoint)
          → get_elem? req.endpoints a ≡ some s
          → get_elem? req.endpoints b ≡ some d
          → flow_key s.id d.id ≡ flow_key src.id dst.id
          → (a ≡ i) × (b ≡ j)
      unique a b s d ha hb k =
          let arrow_free = λ (n : ℕ) (e : Endpoint).
            All-get_elem? (λ x. IsArrowFree x.id) req.endpoints n e free in
          let (es, ed) =
            flow_key-injective s.id d.id src.id dst.id (arrow_free a s ha) (arrow_free i src hi)
              k in
          (
            index_of_id (λ e. e.id) req.endpoints a i s src distinct ha hi es,
            index_of_id (λ e. e.id) req.endpoints b j d dst distinct hb hj ed,
          )
