-- ===== src/Calico/Requested/Decisions.antt =====
-- provider/calico/pairs.go: `fillMatrixPairs` against the decisions of its pairs, one by one.
use telepathy.Prelude.{
  ◌≡◌, refl, sym, ap, ◌∙◌, inl, inr, true, false, List, [], ◌∷◌, arith, Bool-cases, Option-cases,
  ℕ_eq, text_eq, fold, contains, get, put, int_eq,
}
use telepathy.Net.{Net}
use telepathy.Api.Types.{MatrixPair, Request}
use telepathy.Api.Pairs.{pair_eq}
use telepathy.Calico.Store.{PolicyStore, Checker}
use telepathy.Calico.Actors.{ActorBundle}
use telepathy.Calico.Matrix.{MatrixSink}
use telepathy.Calico.Requested.{
  PairSearch, by_id, services, put_decision, pair_search_step, fill_matrix_pairs,
}
use telepathy.Calico.Requested.Uncached.{decision_to, put_pair_decision, first_pairs, found-Known}
use telepathy.Calico.Requested.Tracked.{
  IsTracked, put_decision-IsDecided, unknown-IsTracked, put_decision-IsTracked,
  put_pair_decision-known, put_pair_decision-unknown, pair_search_step-skipped,
  pair_search_step-repeated, pair_search_step-fresh,
}

module _ ⦃net : Net⦄ ⦃checker : Checker net.Ip⦄ (store : PolicyStore checker.Rule checker.IpSet)
    (req : Request) (actors : ActorBundle net.Ip) where
  first_pairs-done :
      (p : MatrixPair) (ps done : List MatrixPair)
      → contains done p ≡ true
      → first_pairs done (p ∷ ps) ≡ first_pairs done ps
  unfolding first_pairs
  first_pairs-done p ps done e = ground (arith, e)

  first_pairs-new :
      (p : MatrixPair) (ps done : List MatrixPair)
      → contains done p ≡ false
      → first_pairs done (p ∷ ps) ≡ p ∷ first_pairs (p ∷ done) ps
  unfolding first_pairs
  first_pairs-new p ps done e = ground (arith, e)

  abbrev run : PairSearch → List MatrixPair → PairSearch
  run = fold (pair_search_step store req actors)

  abbrev entries : MatrixSink → List MatrixPair → MatrixSink
  entries = fold (put_pair_decision store req actors)

  fold-first_pairs :
      (ps done : List MatrixPair) (st : PairSearch)
      → IsTracked store req actors done st
      → (run st ps).sink ≡ entries st.sink (first_pairs done ps)
  unfolding fold first_pairs
  fold-first_pairs [] done st h = refl
  fold-first_pairs (p ∷ ps) done st h =
      let skip =
        λ (same : pair_search_step store req actors st p ≡ st) (e : contains done p ≡ true).
          ap (λ x. (run x ps).sink) same
          ∙ (fold-first_pairs ps done st h
              ∙ ap (entries st.sink) (sym (first_pairs-done p ps done e))) in
      elim (Option-cases (get p.from (by_id store req actors))) [
        | inl unknown ↦
            let same = pair_search_step-skipped store req actors p st unknown in
            elim (Bool-cases (contains done p)) [
              | inl e ↦ skip same e
              | inr e ↦
                  ap (λ x. (run x ps).sink) same
                  ∙ (fold-first_pairs ps (p ∷ done) st
                        (unknown-IsTracked store req actors p done st unknown h)
                      ∙ (ap (λ x. entries x (first_pairs (p ∷ done) ps))
                            (sym (put_pair_decision-unknown store req actors st.sink p unknown))
                          ∙ ap (entries st.sink) (sym (first_pairs-new p ps done e))))
            ]
        | inr (src, found) ↦ elim (Bool-cases (contains done p)) [
          | inl e ↦
              skip
                (pair_search_step-repeated store req actors p src st found (h.seen p src found ∙ e))
                e
          | inr e ↦
              let o = get p.to (services store req actors) in
              let d = get p.to (by_id store req actors) in
              let started : PairSearch = record st { seen = put p true st.seen } in
              let r = put_decision store req actors p src o d started in
              let v = decision_to store req actors src o d in
              let decided =
                put_decision-IsDecided store req actors p src o d started
                  (found-Known store req actors p.from src found) refl refl h.cache h.backends in
              ap (λ x. (run x ps).sink)
                (pair_search_step-fresh store req actors p src st found (h.seen p src found ∙ e))
              ∙ (fold-first_pairs ps (p ∷ done) r
                    (put_decision-IsTracked store req actors p v done st r h decided)
                  ∙ (ap (λ x. entries x (first_pairs (p ∷ done) ps))
                        (decided.sink
                          ∙ sym (put_pair_decision-known store req actors st.sink p src found))
                      ∙ ap (entries st.sink) (sym (first_pairs-new p ps done e))))
        ]
      ]

  -- `fillMatrixPairs` writes, for the requested pairs at their first occurrences and in order, the
  -- verdict that each has by itself, whatever its caches held: a pair without a known source, of
  -- one actor with itself, or to a column that is neither a service nor an actor writes nothing.
  pub fill_matrix_pairs-first_pairs :
      (sink : MatrixSink)
      → fill_matrix_pairs store req actors sink
        ≡ fold (put_pair_decision store req actors) sink (first_pairs [] req.matrix_pairs)
  unfolding fill_matrix_pairs get contains
  fill_matrix_pairs-first_pairs sink =
      fold-first_pairs req.matrix_pairs []
        (record { sink = sink; seen = []; backends = []; cache = [] })
        (record {
          cache = λ a b v ha hb e. ground arith;
          backends = λ c svc ids named e. ground arith;
          seen = λ p src found. refl;
        })
