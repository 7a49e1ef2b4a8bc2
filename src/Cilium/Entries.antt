-- ===== src/Cilium/Entries.antt =====
-- engines/cilium/eval.go: what the matrix of `evaluate` holds.
use telepathy.Prelude.{
  ℕ, ◌+◌, ◌≡◌, refl, sym, ap, ◌∙◌, Bool, true, false, ◌&&◌, Option, none, some, List, [], ◌∷◌, ◌++◌,
  map, arith, ltb, nat_eq, if◌then◌else◌, ℕ_eq, Text, text_beq_iff, text_eq, get_elem?, All, Map,
  get, put, get-put, int_eq,
}
use mathlib.Core.Path.{ap₂}
use telepathy.Api.Types.{Endpoint, Request, Response, allow, deny, flow_key}
use telepathy.Api.Ids.{HasDistinctIds, HasArrowFreeIds, index_of_id, All-get_elem?}
use telepathy.Api.FlowKey.{IsArrowFree, flow_key-injective}
use telepathy.Api.Pairs.{endpoint_pairs}
use telepathy.Api.Pairs.Visits.{times, one}
use telepathy.Api.Pairs.Exactness.{wanted, endpoint_pairs-times}
use telepathy.Antrea.WellFormed.{InRange, endpoint_pairs-InRange}
use telepathy.Cilium.Repository.{Outcome, Flow, CiliumLib}
use telepathy.Cilium.Identities.{uint16}
use telepathy.Cilium.Policies.{Loading}
use telepathy.Cilium.Evaluate.{
  endpoint_actor, probe_proto, probe_port, flow_of, looked_up, flow_verdict, may_skip, fill,
  identities, load, evaluate_with_defaults, evaluate,
}
use telepathy.Cilium.Unrestricted.{AllowsUnaffected, evaluate_with_defaults-unaffected}
use telepathy.Cilium.Total.{is_calm, NeverPanics, flow_of-Returns}

-- An error is a denial.
abbrev pub lookup_text : Outcome Bool → Text
lookup_text (Outcome.done true) = allow
lookup_text o = deny

module _ ⦃lib : CiliumLib⦄ where
  looked_up-lookup_text :
      (src dst : Text) (o : Outcome Bool)
      → is_calm o ≡ true
      → (warnings : List Text) × (looked_up src dst o ≡ some (lookup_text o, warnings))
  unfolding looked_up is_calm
  looked_up-lookup_text src dst (Outcome.done true) h = (_, refl)
  looked_up-lookup_text src dst (Outcome.done false) h = (_, refl)
  looked_up-lookup_text src dst (Outcome.failed e) h = (_, refl)
  looked_up-lookup_text src dst (Outcome.panicked r) h = cc h

module _ ⦃lib : CiliumLib⦄ (never : NeverPanics) (req : Request) (repo : lib.Repository)
    (proto dport : ℕ) where
  -- The verdict of a pair, by its flow.
  abbrev flow_text : Option (Flow lib.Label lib.LabelArray) → Text
  flow_text none = deny
  flow_text (some flow) = lookup_text (lib.lookup_flow repo flow)

  abbrev pair_text : ℕ → ℕ → Text
  pair_text a b = flow_text (flow_of req.endpoints (identities req) proto dport (a, b))

  module _ (i j : ℕ) (src dst : Endpoint)
      (unique : (a b : ℕ) (s d : Endpoint)
        → get_elem? req.endpoints a ≡ some s
        → get_elem? req.endpoints b ≡ some d
        → flow_key s.id d.id ≡ flow_key src.id dst.id
        → (a ≡ i) × (b ≡ j))
      (hi : get_elem? req.endpoints i ≡ some src) (hj : get_elem? req.endpoints j ≡ some dst) where
    same_key :
        (a b : ℕ) (s d : Endpoint)
        → get_elem? req.endpoints a ≡ some s
        → get_elem? req.endpoints b ≡ some d
        → a ≡ i
        → b ≡ j
        → flow_key s.id d.id ≡ flow_key src.id dst.id
    same_key a b s d ha hb ea eb =
        let es : s ≡ src = cc in
        let ed : d ≡ dst = cc in ap₂ (λ (x y : Endpoint). flow_key x.id y.id) es ed

    entry_step :
        (a b : ℕ) (s d : Endpoint)
        → get_elem? req.endpoints a ≡ some s
        → get_elem? req.endpoints b ≡ some d
        → (later : ℕ) (matrix : Map Text Text) (v w : Text) → (a ≡ i → b ≡ j → v ≡ w)
        → (if ltb 0 later
            then some w
            else get (flow_key src.id dst.id) (put (flow_key s.id d.id) v matrix))
          ≡ (if ltb 0 (one (nat_eq a i && nat_eq b j) + later)
              then some w
              else get (flow_key src.id dst.id) matrix)
    entry_step a b s d ha hb later matrix v w same =
        let k = flow_key src.id dst.id in
        let k' = flow_key s.id d.id in
        ground (
          arith,
          get-put k' k v matrix,
          text_beq_iff k' k,
          unique a b s d ha hb,
          same_key a b s d ha hb,
          same,
        )

    fill-get :
        (pairs : List (ℕ × ℕ)) (acc : Map Text Text × List Text)
        → All (InRange req.endpoints) pairs
        → (result : Map Text Text × List Text) × (fill repo false [] req.endpoints
              (identities req)
              proto
              dport
              pairs
              acc
            ≡ some result)
          × (get (flow_key src.id dst.id) result.0 ≡ (
              if ltb 0 (times i j pairs)
              then some (pair_text i j)
              else get (flow_key src.id dst.id) acc.0))
    unfolding fill times may_skip flow_verdict
    fill-get [] acc h = (acc, refl, refl)
    fill-get ((a, b) ∷ pairs) (matrix, warnings) ((s, d, ha, hb), rest) =
        let (flow, ef) = flow_of-Returns never req repo false proto dport a b (s, d, ha, hb) in
        let (more, ev) =
          looked_up-lookup_text s.id d.id (lib.lookup_flow repo flow)
            (never.calm_lookup repo flow) in
        let v = lookup_text (lib.lookup_flow repo flow) in
        let next : Map Text Text × List Text =
          (put (flow_key s.id d.id) v matrix, warnings ++ more) in
        let (result, filled, entry) = fill-get pairs next rest in
        let at : v ≡ pair_text a b = sym (ap flow_text ef) in
        (
          result,
          rw (ef, ha, hb, ev) filled,
          entry
              ∙ entry_step a b s d ha hb (times i j pairs) matrix v (pair_text i j)
                  (λ ea eb. at ∙ ap₂ pair_text ea eb),
        )

module _ ⦃lib : CiliumLib⦄ where
  -- If Cilium allows what no rule affects, its calls that nothing covers never panic, and the IDs
  -- are distinct and hold no "->", then `evaluate` returns a response once the policies load, and
  -- its entry for two endpoints of the request is there exactly if the pair is wanted (distinct
  -- IDs, and requested if anything is); it is "allow" exactly if the lookup of the pair's flow in
  -- the loaded repository allows, and "deny" also when the lookup fails.
  pub evaluate-lookup :
      AllowsUnaffected
      → NeverPanics
      → (req : Request) (loaded : Loading lib.Repository lib.Rule)
      → (flow : Flow lib.Label lib.LabelArray) (i j : ℕ) (src dst : Endpoint)
      → HasDistinctIds req.endpoints
      → HasArrowFreeIds req.endpoints
      → get_elem? req.endpoints i ≡ some src
      → get_elem? req.endpoints j ≡ some dst
      → load req ≡ some loaded
      → flow_of req.endpoints
          (identities req)
          (probe_proto req.protocol)
          (uint16 (probe_port req.port))
          (i, j)
        ≡ some flow
      → (resp : Response) × (evaluate req ≡ some resp)
        × (get (flow_key src.id dst.id) resp.matrix ≡ (
            if wanted req.matrix_pairs (some src) (some dst)
            then some (lookup_text (lib.lookup_flow loaded.repo flow))
            else none))
  unfolding evaluate
  evaluate-lookup allows never req loaded flow i j src dst distinct free hi hj hl hf =
      let pairs = endpoint_pairs req.endpoints req.matrix_pairs in
      let (result, filled, entry) =
        fill-get never req loaded.repo (probe_proto req.protocol) (uint16 (probe_port req.port)) i j
          src dst unique hi hj pairs ([], loaded.warnings)
          (endpoint_pairs-InRange req.endpoints req.matrix_pairs) in
      let resp : Response = record {
        matrix = result.0;
        errors = loaded.errors;
        warnings = result.1;
        actors = map endpoint_actor req.endpoints;
      } in
      let count : times i j pairs ≡ one (wanted req.matrix_pairs (some src) (some dst)) =
        rw (hi, hj) at (endpoint_pairs-times req.endpoints req.matrix_pairs i j) in
      let text =
        ap
          (flow_text never req loaded.repo (probe_proto req.protocol)
            (uint16 (probe_port req.port)))
          hf in
      (
        resp,
        evaluate_with_defaults-unaffected allows req
            ∙ (unfold evaluate_with_defaults in rw (hl, filled) refl),
        entry ∙ (unfold get in rw (count, text) (ground arith)),
      )
    where
      unique :
          (a b : ℕ) (s d : Endpoint)
          → get_elem? req.endpoints a ≡ some s
          → get_elem? req.endpoints b ≡ some d
          → flow_key s.id d.id ≡ flow_key src.id dst.id
          → (a ≡ i) × (b ≡ j)
      unique a b s d ha hb k =
          let arrow_free = λ (n : ℕ) (e : Endpoint).
            All-get_elem? (λ x. IsArrowFree x.id) req.endpoints n e free in
          let (es, ed) =
            flow_key-injective s.id d.id src.id dst.id (arrow_free a s ha) (arrow_free i src hi)
              k in
          (
            index_of_id (λ e. e.id) req.endpoints a i s src distinct ha hi es,
            index_of_id (λ e. e.id) req.endpoints b j d dst distinct hb hj ed,
          )
