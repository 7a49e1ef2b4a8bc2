-- ===== src/Api/Assert/Tally.antt =====
-- api/assert.go: the counters of an assertion report.
use telepathy.Prelude.{
  ℕ, zero, suc, ◌+◌, ◌≡◌, refl, ap, ◌∙◌, Option, none, some, List, [], ◌∷◌, map, arith,
  if◌then◌else◌, ℕ_eq, Text, text_eq, length, length-append, fold, set_at, Map, or_zero, get,
  int_eq,
}
use telepathy.Api.Types.{Request, Response}
use telepathy.Api.Assert.{
  Assertion, AssertionResult, AssertionReport, no_report, ProbeKey, probe_key_eq, Group, pair_of,
  probe_request, tally, summarize_assertions, place, group_step, group_assertions, set_results,
  run_probe, sort_probes, run_assertions, validate_assertion, no_result,
}

unfoldable pub count_passed : List AssertionResult → ℕ
count_passed [] = 0
count_passed (r ∷ rs) = (if r.pass then 1 else 0) + count_passed rs

pub tally-counts :
    (report : AssertionReport) (rs : List AssertionResult)
    → ((tally report rs).passed ≡ report.passed + count_passed rs)
      × ((tally report rs).passed + (tally report rs).failed
          ≡ report.passed + report.failed + length rs)
      × ((tally report rs).results ≡ report.results)
unfolding tally count_passed
tally-counts report [] = (omega arith, omega arith, refl)
tally-counts report (r ∷ rs) = ground (
  arith,
  tally-counts (record report { passed = suc report.passed }) rs,
  tally-counts (record report { failed = suc report.failed }) rs,
)

length-set_at : {A : Type 0} (xs : List A) (i : ℕ) (a : A) → length (set_at xs i a) ≡ length xs
unfolding set_at
length-set_at [] i a = refl
length-set_at (x ∷ xs) zero a = refl
length-set_at (x ∷ xs) (suc i) a = omega (arith, length-set_at xs i a)

length-set_results :
    (matrix : Map Text Text) (results : List AssertionResult) (group : Group)
    → length (set_results matrix results group) ≡ length results
unfolding set_results
length-set_results matrix results [] = refl
length-set_results matrix results ((i, a) ∷ rest) =
    length-set_results matrix (set_at results i _) rest ∙ length-set_at results i _

length-place :
    (req : Request) (s : List AssertionResult × Map ProbeKey Group) (a : Assertion)
    (verdict : Option AssertionResult)
    → length (place req s a verdict).0 ≡ suc (length s.0)
unfolding place
length-place req (results, m) a none = omega (arith, length-append results (no_result ∷ []))
length-place req (results, m) a (some res) = omega (arith, length-append results (res ∷ []))

length-group_assertions :
    (req : Request) (s : List AssertionResult × Map ProbeKey Group) (assertions : List Assertion)
    → length (fold (group_step req) s assertions).0 ≡ length s.0 + length assertions
unfolding fold group_step
length-group_assertions req s [] = omega arith
length-group_assertions req s (a ∷ rest) = omega (
  arith,
  length-group_assertions req (place req s a (validate_assertion a)) rest,
  length-place req s a (validate_assertion a),
)

pub run_probe-counts :
    (eval : Request → Response) (req : Request) (m : Map ProbeKey Group) (report : AssertionReport)
    (ks : List ProbeKey)
    → (length (fold (run_probe eval req m) report ks).results ≡ length report.results)
      × ((fold (run_probe eval req m) report ks).passed ≡ report.passed)
      × ((fold (run_probe eval req m) report ks).failed ≡ report.failed)
unfolding fold run_probe
run_probe-counts eval req m report [] = (refl, refl, refl)
run_probe-counts eval req m report (k ∷ ks) =
    let (l, p, f) = run_probe-counts eval req m (run_probe eval req m report k) ks in
    let group = or_zero [] (get k m) in
    (
      l
          ∙ length-set_results (eval (probe_request req k (map pair_of group))).matrix
              report.results group,
      p,
      f,
    )

-- Whatever the evaluator answers, a report of `RunAssertions` has a result for each assertion, its
-- passed ones are the results that pass, and every other one is failed.
pub run_assertions-counts :
    (eval : Request → Response) (req : Request) (assertions : List Assertion)
    → let report = run_assertions eval req assertions in
      (length report.results ≡ length assertions)
      × (report.passed ≡ count_passed report.results)
      × (report.passed + report.failed ≡ length assertions)
unfolding run_assertions summarize_assertions group_assertions
run_assertions-counts eval req assertions =
    let g = fold (group_step req) ([], []) assertions in
    let ks = sort_probes (map (λ e. e.0) g.1) in
    let before = record no_report { results = g.0 } in
    let r = fold (run_probe eval req g.1) before ks in
    let (l, p, f) = run_probe-counts eval req g.1 before ks in
    let (t, n, same) = tally-counts r r.results in
    let len = length-group_assertions req ([], []) assertions in
    (
      ap length same ∙ l ∙ omega (arith, len),
      rw same (omega (arith, t, p)),
      omega (arith, n, l, len, p, f),
    )
