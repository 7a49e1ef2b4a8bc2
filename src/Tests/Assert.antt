-- ===== src/Tests/Assert.antt =====
-- api/assert.go with an evaluator that allows port 80 only.
use telepathy.Prelude.{
  ◌+◌, ◌≡◌, refl, Bool, true, false, some, List, [], ◌∷◌, if◌then◌else◌, ◌==◌, ℕ_eq, Text, codes,
  text_beq, text_eq, is_empty, to_lower, trim_space, length, get_elem?, fold, set_at, Member,
  contains, text_leb, Map, get, put, ℤ, pos, int_eq,
}
use telepathy.Api.Types.{MatrixPair, Request, no_request, Response, allow, deny, flow_key}
use telepathy.Api.Assert.{
  Assertion, AssertionResult, AssertionReport, probe_key_beq, probe_less, insert_probe, sort_probes,
  add_unseen, probe_key, probe_request, check_assertion, validate_assertion, effective_port,
  effective_proto, place, group_step, group_assertions, set_results, tally, summarize_assertions,
  run_probe, run_assertions,
}
use telepathy.Api.Assert.Tally.{count_passed, run_assertions-counts}
use telepathy.Api.Assert.Results.{run_assertions-result}

verdicts : Text → List MatrixPair → Map Text Text
verdicts v [] = []
verdicts v (p ∷ ps) = (flow_key p.from p.to, v) ∷ verdicts v ps

abbrev web_only : Request → Response
web_only req = record {
  matrix = verdicts (if req.port == pos 80 then allow else deny) req.matrix_pairs;
  errors = codes "broken" ∷ [];
  warnings = [];
  actors = [];
}

abbrev expects : Text → ℤ → Assertion
expects verdict port = record {
  name = [];
  from = codes "f";
  to = codes "b";
  port = port;
  protocol = [];
  expect = verdict;
}

abbrev assertions : List Assertion
assertions =
    expects (codes " Allow") (pos 80)
    ∷ expects (codes "maybe") (pos 80)
    ∷ expects (codes "allow") (pos 22)
    ∷ expects (codes "deny") (pos 0)
    ∷ []

abbrev report : AssertionReport
report = run_assertions web_only no_request assertions

passes : List AssertionResult → List Bool
passes [] = []
passes (r ∷ rs) = r.pass ∷ passes rs

report_passes :
    (passes report.results ≡ true ∷ false ∷ false ∷ true ∷ [])
    × (report.passed ≡ 2)
    × (report.failed ≡ 2)
    × (report.errors ≡ codes "broken" ∷ [])
unfolding passes verdicts run_assertions group_assertions group_step place fold get put sort_probes
    insert_probe probe_less run_probe add_unseen contains set_results set_at summarize_assertions
    tally check_assertion validate_assertion effective_port effective_proto flow_key text_beq
    is_empty trim_space to_lower text_leb probe_key_beq
report_passes = (refl, refl, refl, refl)

run_assertions-counts_example :
    (length report.results ≡ length assertions)
    × (report.passed ≡ count_passed report.results)
    × (report.passed + report.failed ≡ length assertions)
run_assertions-counts_example = run_assertions-counts web_only no_request assertions

run_assertions-result_example :
    (pairs : List MatrixPair) × Member (record { from = codes "f"; to = codes "b" }) pairs
    × (get_elem? report.results 2
        ≡ some (
            check_assertion
              (expects (codes "allow") (pos 22))
              (web_only (
                probe_request no_request
                  (probe_key no_request (expects (codes "allow") (pos 22)))
                  pairs)).matrix))
unfolding validate_assertion is_empty trim_space to_lower text_beq
run_assertions-result_example =
    run_assertions-result web_only no_request assertions 2 (expects (codes "allow") (pos 22)) refl
      refl
