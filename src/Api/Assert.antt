-- ===== src/Api/Assert.antt =====
-- api/assert.go: assertions on the flows of a request, checked against evaluated matrices.
pub mod Tally
pub mod Groups
pub mod Results
use telepathy.Prelude.{
  ℕ, zero, suc, ◌+◌, ◌-◌, ◌*◌, ◌/◌, ◌%◌, ◌^◌, ◌≤◌, ◌<◌, ◌≡◌, refl, sym, ap, ◌∙◌, ◌≢◌, ◌↔◌, ◌⊎◌, inl,
  inr, Bool, true, false, not, ◌&&◌, ◌||◌, Option, none, some, List, [], ◌∷◌, ◌++◌, map,
  append_assoc, append-nil, arith, ltb, leb, nat_eq, nat_eq_iff, ltb→lt, lt→ltb, leb→le,
  if◌then◌else◌, Bool-cases, Option-cases, Eq, ◌==◌, ==_refl, ==_ne, ℕ_eq, bool_eq, or_assoc, Text,
  codes, text_beq, text_beq_iff, text_eq, is_empty, to_lower, trim_space, equal_fold, cut_byte,
  length, get_elem?, length-append, All, All-append, any, any-append, get_elem?-map, fold,
  fold-append, set_at, get_elem?-set_at_self, get_elem?-set_at_other, get_elem?-append_left,
  get_elem?-append_end, get_elem?-append_cases, every, Member, Member-append, every-append,
  contains, is_nil, ◌>>=◌, itoa, quote, text_leb, insert_sorted, sort_texts, join, int_itoa, Map,
  or_zero, get, put, get-put, get-put_self, HasDistinctKeys, put-HasDistinctKeys, ℤ, pos, negsuc,
  int_beq, int_leb, int_beq_iff, int_eq,
}
use telepathy.Api.Types.{MatrixPair, Request, Response, allow, deny, flow_key}

pub record Assertion : Type 0 where
  pub name : Text
  pub from : Text
  pub to : Text
  pub port : ℤ
  pub protocol : Text
  pub expect : Text

pub record AssertionResult : Type 0 where
  pub assertion : Assertion
  pub got : Text
  pub pass : Bool
  pub err : Text

pub record AssertionReport : Type 0 where
  pub results : List AssertionResult
  pub passed : ℕ
  pub failed : ℕ
  pub errors : List Text
  pub warnings : List Text

abbrev pub no_result : AssertionResult
no_result = record {
  assertion = record { name = []; from = []; to = []; port = pos 0; protocol = []; expect = [] };
  got = [];
  pass = false;
  err = [];
}

abbrev pub no_report : AssertionReport
no_report = record { results = []; passed = 0; failed = 0; errors = []; warnings = [] }

-- `AssertionReport.Ok`
abbrev pub is_ok : AssertionReport → Bool
is_ok r = nat_eq r.failed 0 && ltb 0 r.passed

abbrev pub failed_with : Assertion → Text → AssertionResult
failed_with a err = record no_result { assertion = a; err = err }

-- `none` for a well-formed assertion, else the result that says what is wrong.
unfoldable pub validate_assertion : Assertion → Option AssertionResult
validate_assertion a =
    let expect = to_lower (trim_space a.expect) in
    if is_empty (trim_space a.from) || is_empty (trim_space a.to)
    then some (failed_with a (codes "assertion missing `from` or `to`"))
    else if expect == allow || expect == deny
    then none
    else some
        (failed_with a (codes "assertion `expect` must be allow|deny, got " ++ quote a.expect))

unfoldable pub check_assertion : Assertion → Map Text Text → AssertionResult
check_assertion a matrix = elim (get (flow_key a.from a.to) matrix) [
  | none ↦
      failed_with a
        (codes "no flow " ++ flow_key a.from a.to ++ codes " in matrix (check endpoint ids)")
  | some got ↦ record {
    assertion = a;
    got = got;
    pass = got == to_lower (trim_space a.expect);
    err = [];
  }
]

unfoldable pub effective_port : Assertion → Request → ℤ
effective_port a req =
    if not (a.port == pos 0) then a.port else if not (req.port == pos 0) then req.port else pos 8080

unfoldable pub effective_proto : Assertion → Request → Text
effective_proto a req =
    if not (is_empty a.protocol)
    then a.protocol
    else if not (is_empty req.protocol)
    then req.protocol
    else codes "tcp"

-- The loop of `summarizeAssertions`.
unfoldable pub tally : AssertionReport → List AssertionResult → AssertionReport
tally report [] = report
tally report (r ∷ rs) =
    tally
      (if r.pass
        then record report { passed = suc report.passed }
        else record report { failed = suc report.failed })
      rs

unfoldable pub summarize_assertions : AssertionReport → AssertionReport
unfolding tally
summarize_assertions report = tally report report.results

-- The body of the loop of `RunAssertionsOnMatrix`.
unfoldable pub result_on : Map Text Text → Assertion → AssertionResult
unfolding validate_assertion check_assertion
result_on matrix a = or_zero (check_assertion a matrix) (validate_assertion a)

unfoldable pub run_assertions_on_matrix : Map Text Text → List Assertion → AssertionReport
unfolding summarize_assertions result_on
run_assertions_on_matrix matrix assertions =
    summarize_assertions (record no_report { results = map (result_on matrix) assertions })

-- `probeKey`: one run of the evaluator.
pub record ProbeKey : Type 0 where
  pub port : ℤ
  pub proto : Text

unfoldable pub probe_key_beq : ProbeKey → ProbeKey → Bool
probe_key_beq k j = k.port == j.port && k.proto == j.proto

pub probe_key_beq_iff : (k j : ProbeKey) → (probe_key_beq k j ≡ true) ↔ (k ≡ j)
unfolding probe_key_beq
probe_key_beq_iff k j = ground (arith, int_beq_iff k.port j.port, text_beq_iff k.proto j.proto)

instance abbrev pub probe_key_eq : Eq ProbeKey
probe_key_eq = record { beq = probe_key_beq; beq_iff = probe_key_beq_iff }

abbrev pub probe_key : Request → Assertion → ProbeKey
probe_key req a = record { port = effective_port a req; proto = effective_proto a req }

-- The indices that share a probe, each with its assertion.
abbrev pub Group : Type 0
Group = List (ℕ × Assertion)

-- The first loop: the results so far, a zero result where an assertion is to be checked, and the
-- assertions to check by their probes.
unfoldable pub place :
    Request
    → List AssertionResult × Map ProbeKey Group
    → Assertion
    → Option AssertionResult
    → List AssertionResult × Map ProbeKey Group
place req (results, idx_by_probe) a (some res) = (results ++ (res ∷ []), idx_by_probe)
place req (results, idx_by_probe) a none =
    let k = probe_key req a in
    (
      results ++ (no_result ∷ []),
      put k (or_zero [] (get k idx_by_probe) ++ ((length results, a) ∷ [])) idx_by_probe,
    )

unfoldable pub group_step :
    Request
    → List AssertionResult × Map ProbeKey Group
    → Assertion
    → List AssertionResult × Map ProbeKey Group
unfolding place
group_step req s a = place req s a (validate_assertion a)

unfoldable pub group_assertions :
    Request → List Assertion → List AssertionResult × Map ProbeKey Group
unfolding group_step fold
group_assertions req assertions = fold (group_step req) ([], []) assertions

-- The order of the probes.
unfoldable pub probe_less : ProbeKey → ProbeKey → Bool
probe_less k j =
    if not (k.port == j.port) then not (int_leb j.port k.port) else not (text_leb j.proto k.proto)

unfoldable pub insert_probe : ProbeKey → List ProbeKey → List ProbeKey
unfolding probe_less
insert_probe k [] = k ∷ []
insert_probe k (j ∷ js) =
    let rest = insert_probe k js in if probe_less j k then j ∷ rest else k ∷ j ∷ js

unfoldable pub sort_probes : List ProbeKey → List ProbeKey
unfolding insert_probe
sort_probes [] = []
sort_probes (k ∷ ks) = insert_probe k (sort_probes ks)

-- `seenErr` and `seenWarn` hold what the report holds.
unfoldable pub add_unseen : List Text → List Text → List Text
add_unseen report [] = report
add_unseen report (e ∷ es) =
    add_unseen (if contains report e then report else report ++ (e ∷ [])) es

abbrev pub pair_of : ℕ × Assertion → MatrixPair
pair_of (i, a) = record { from = a.from; to = a.to }

abbrev pub probe_request : Request → ProbeKey → List MatrixPair → Request
probe_request req k pairs = record req {
  matrix_sink = false;
  port = k.port;
  protocol = k.proto;
  matrix_pairs = pairs;
}

-- The results of one probe.
unfoldable pub set_results : Map Text Text → List AssertionResult → Group → List AssertionResult
unfolding set_at
set_results matrix results [] = results
set_results matrix results ((i, a) ∷ rest) =
    set_results matrix (set_at results i (check_assertion a matrix)) rest

-- The body of the loop over the probes.
unfoldable pub run_probe :
    (Request → Response)
    → Request
    → Map ProbeKey Group
    → AssertionReport
    → ProbeKey
    → AssertionReport
unfolding add_unseen set_results
run_probe eval req idx_by_probe report k =
    let group = or_zero [] (get k idx_by_probe) in
    let resp = eval (probe_request req k (map pair_of group)) in
    record report {
      errors = add_unseen report.errors resp.errors;
      warnings = add_unseen report.warnings resp.warnings;
      results = set_results resp.matrix report.results group;
    }

unfoldable pub run_assertions : (Request → Response) → Request → List Assertion → AssertionReport
unfolding group_assertions sort_probes run_probe summarize_assertions fold
run_assertions eval req assertions =
    let (results, idx_by_probe) = group_assertions req assertions in
    summarize_assertions (
      fold (run_probe eval req idx_by_probe) (record no_report { results = results })
        (sort_probes (map (λ e. e.0) idx_by_probe)))
