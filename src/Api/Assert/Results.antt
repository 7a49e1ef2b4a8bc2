-- ===== src/Api/Assert/Results.antt =====
-- api/assert.go: each assertion is checked against a matrix that was evaluated for it.
use telepathy.Prelude.{
  ℕ, zero, suc, ◌≡◌, refl, sym, ap, ◌∙◌, inl, inr, Bool, true, ◌||◌, none, some, List, [], ◌∷◌, map,
  arith, nat_eq, nat_eq_iff, if◌then◌else◌, Bool-cases, ◌==◌, ℕ_eq, Text, text_eq, length,
  get_elem?, any, fold, set_at, get_elem?-set_at_self, get_elem?-set_at_other, Member, contains,
  Map, get, int_eq,
}
use mathlib.Core.Path.{subst}
use telepathy.Api.Types.{Request, Response, MatrixPair}
use telepathy.Api.Assert.{
  Assertion, AssertionResult, AssertionReport, no_report, ProbeKey, probe_key_beq_iff, probe_key_eq,
  Group, pair_of, probe_request, probe_key, insert_probe, sort_probes, summarize_assertions,
  check_assertion, group_step, group_assertions, set_results, run_probe, run_assertions,
  validate_assertion,
}
use telepathy.Api.Assert.Tally.{tally-counts}
use telepathy.Api.Assert.Groups.{group_of, IsGrouped, group_assertions-IsGrouped}

-- Whether an index stands in a group.
abbrev names_index : ℕ → Group → Bool
names_index i group = any (λ (p : ℕ × Assertion). nat_eq p.0 i) group

Member-names_index :
    (i : ℕ) (a : Assertion) (group : Group) → Member (i, a) group → names_index i group ≡ true
unfolding any
Member-names_index i a [] m = elim m [ ]
Member-names_index i a (p ∷ rest) (inl e) =
    let same : p.0 ≡ i = ap (λ q. q.0) e in ground (arith, nat_eq_iff p.0 i)
Member-names_index i a (p ∷ rest) (inr m) = ground (arith, Member-names_index i a rest m)

names_index-Member :
    (i : ℕ) (group : Group) → names_index i group ≡ true → (b : Assertion) × Member (i, b) group
unfolding any
names_index-Member i [] h = cc
names_index-Member i ((j, b) ∷ rest) h = elim (Bool-cases (nat_eq j i)) [
  | inl e ↦ (b, inl (ap (λ n. (n, b)) ((nat_eq_iff j i).0 e)))
  | inr e ↦ let (c, m) = names_index-Member i rest (ground arith) in (c, inr m)
]

set_results-get :
    (matrix : Map Text Text) (results : List AssertionResult) (group : Group) (i : ℕ)
    (a : Assertion) (x : AssertionResult)
    → ((b : Assertion) → Member (i, b) group → b ≡ a)
    → get_elem? results i ≡ some x
    → get_elem? (set_results matrix results group) i
      ≡ some (if names_index i group then check_assertion a matrix else x)
unfolding set_results any
set_results-get matrix results [] i a x own at = at
set_results-get matrix results ((j, b) ∷ rest) i a x own at = elim (Bool-cases (nat_eq j i)) [
  | inl e ↦
      let here : j ≡ i = (nat_eq_iff j i).0 e in
      let same : b ≡ a = own b (inl (ap (λ n. (n, b)) here)) in
      let v = check_assertion b matrix in
      let next : get_elem? (set_at results j v) i ≡ some (check_assertion a matrix) =
        ap (get_elem? (set_at results j v)) (sym here)
        ∙ get_elem?-set_at_self results j v x (ap (get_elem? results) here ∙ at)
        ∙ ap (λ c. some (check_assertion c matrix)) same in
      ground (
        arith,
        set_results-get matrix (set_at results j v) rest i a (check_assertion a matrix)
            (λ c m. own c (inr m)) next,
      )
  | inr e ↦
      let v = check_assertion b matrix in
      let next : get_elem? (set_at results j v) i ≡ some x =
        get_elem?-set_at_other results j i v (λ q. ground (arith, nat_eq_iff j i)) ∙ at in
      ground
        (arith, set_results-get matrix (set_at results j v) rest i a x (λ c m. own c (inr m)) next)
]

contains-insert_probe :
    (k j : ProbeKey) (ks : List ProbeKey)
    → contains (insert_probe j ks) k ≡ (j == k || contains ks k)
unfolding contains insert_probe
contains-insert_probe k j [] = refl
contains-insert_probe k j (i ∷ ks) = ground (arith, contains-insert_probe k j ks)

contains-sort_probes :
    (k : ProbeKey) (ks : List ProbeKey) → contains (sort_probes ks) k ≡ contains ks k
unfolding contains sort_probes
contains-sort_probes k [] = refl
contains-sort_probes k (j ∷ ks) =
    ground (arith, contains-sort_probes k ks, contains-insert_probe k j (sort_probes ks))

group_of-contains :
    (k : ProbeKey) (p : ℕ × Assertion) (m : Map ProbeKey Group)
    → Member p (group_of k m)
    → contains (map (λ e. e.0) m) k ≡ true
unfolding contains get
group_of-contains k p [] h = elim h [ ]
group_of-contains k p ((j, g) ∷ m) h = elim (Bool-cases (j == k)) [
  | inl e ↦ rw e refl
  | inr e ↦ rw e (group_of-contains k p m (rw e at h))
]

get_elem?-some :
    {A B : Type 0} (xs : List A) (ys : List B) (i : ℕ) (b : B)
    → length xs ≡ length ys
    → get_elem? ys i ≡ some b
    → (a : A) × (get_elem? xs i ≡ some a)
get_elem?-some xs [] i b h at = cc
get_elem?-some [] (y ∷ ys) i b h at = ground arith
get_elem?-some (x ∷ xs) (y ∷ ys) zero b h at = (x, refl)
get_elem?-some (x ∷ xs) (y ∷ ys) (suc i) b h at = get_elem?-some xs ys i b (omega arith) at

module _ (eval : Request → Response) (req : Request) (assertions : List Assertion)
    (s : List AssertionResult × Map ProbeKey Group) (grouped : IsGrouped req assertions s) (i : ℕ)
    (a : Assertion) (at : get_elem? assertions i ≡ some a) where
  abbrev pairs : List MatrixPair
  pairs = map pair_of (group_of (probe_key req a) s.1)

  abbrev checked : AssertionResult
  checked = check_assertion a (eval (probe_request req (probe_key req a) pairs)).matrix

  owns : (k : ProbeKey) (b : Assertion) → Member (i, b) (group_of k s.1) → b ≡ a
  owns k b m = let (found, key, valid) = grouped.sound k i b m in ground arith

  -- A valid assertion stands in the group of its probe alone.
  hit :
      validate_assertion a ≡ none
      → (k : ProbeKey) → names_index i (group_of k s.1) ≡ (k == probe_key req a)
  hit valid k = elim (Bool-cases (k == probe_key req a)) [
    | inl e ↦
        let same : k ≡ probe_key req a = (probe_key_beq_iff k (probe_key req a)).0 e in
        Member-names_index i a (group_of k s.1)
          (subst (λ j. Member (i, a) (group_of j s.1)) (sym same) (grouped.complete i a at valid))
        ∙ sym e
    | inr e ↦ elim (Bool-cases (names_index i (group_of k s.1))) [
      | inr n ↦ n ∙ sym e
      | inl n ↦
          let (b, m) = names_index-Member i (group_of k s.1) n in
          let (found, key, well) = grouped.sound k i b m in
          let same : k ≡ probe_key req a = sym key ∙ ap (probe_key req) (owns k b m) in
          ground (arith, probe_key_beq_iff k (probe_key req a))
    ]
  ]

  fold-get :
      validate_assertion a ≡ none
      → (report : AssertionReport) (ks : List ProbeKey) (x : AssertionResult)
      → get_elem? report.results i ≡ some x
      → get_elem? (fold (run_probe eval req s.1) report ks).results i
        ≡ some (if contains ks (probe_key req a) then checked else x)
  unfolding fold contains run_probe
  fold-get valid report [] x e = e
  fold-get valid report (k ∷ ks) x e =
      let result_at = λ (j : ProbeKey).
        check_assertion a (eval (probe_request req j (map pair_of (group_of j s.1)))).matrix in
      let next =
        set_results-get (eval (probe_request req k (map pair_of (group_of k s.1)))).matrix
          report.results (group_of k s.1) i a x (owns k) e in
      let rec =
        fold-get valid (run_probe eval req s.1 report k) ks
          (if names_index i (group_of k s.1) then result_at k else x) next in
      elim (Bool-cases (k == probe_key req a)) [
        | inl h ↦
            let same : result_at k ≡ checked =
              ap result_at ((probe_key_beq_iff k (probe_key req a)).0 h) in
            ground (arith, rec, hit valid k)
        | inr h ↦ ground (arith, rec, hit valid k)
      ]

Member-map :
    {A B : Type 0} (f : A → B) (a : A) (xs : List A) → Member a xs → Member (f a) (map f xs)
Member-map f a [] m = m
Member-map f a (x ∷ xs) (inl e) = inl (ap f e)
Member-map f a (x ∷ xs) (inr m) = inr (Member-map f a xs m)

IsGrouped-empty : (req : Request) → IsGrouped req [] ([], [])
unfolding get
IsGrouped-empty req = record {
  lengths = refl;
  sound = λ k j b m. elim m [ ];
  complete = λ i a at valid. cc;
  refused = λ i a res at found. cc;
}

-- If assertion number i is well formed, then result number i of `RunAssertions` is that of checking
-- it on a matrix which the evaluator returned for the request with the assertion's own port and
-- protocol, and with a list of pairs that holds the assertion's pair, whatever the evaluator is.
pub run_assertions-result :
    (eval : Request → Response) (req : Request) (assertions : List Assertion) (i : ℕ)
    (a : Assertion)
    → get_elem? assertions i ≡ some a
    → validate_assertion a ≡ none
    → (pairs : List MatrixPair) × Member (record { from = a.from; to = a.to }) pairs
      × (get_elem? (run_assertions eval req assertions).results i
          ≡ some (check_assertion a (eval (probe_request req (probe_key req a) pairs)).matrix))
unfolding run_assertions group_assertions summarize_assertions
run_assertions-result eval req assertions i a at valid =
    let s = fold (group_step req) ([], []) assertions in
    let grouped = group_assertions-IsGrouped req [] ([], []) assertions (IsGrouped-empty req) in
    let key = probe_key req a in
    let group = group_of key s.1 in
    let mem = grouped.complete i a at valid in
    let (x, found) = get_elem?-some s.0 assertions i a grouped.lengths at in
    let keys = map (λ (e : ProbeKey × Group). e.0) s.1 in
    let report = record no_report { results = s.0 } in
    let after = fold (run_probe eval req s.1) report (sort_probes keys) in
    let (passed, total, same) = tally-counts after after.results in
    let visited = contains-sort_probes key keys ∙ group_of-contains key (i, a) s.1 mem in
    (
      map pair_of group,
      Member-map pair_of (i, a) group mem,
      ap (λ rs. get_elem? rs i) same
          ∙ (rw visited at (
              fold-get eval req assertions s grouped i a at valid report (sort_probes keys) x
                found)),
    )
