-- ===== src/Calico/Requested/Tracked.antt =====
-- provider/calico/pairs.go: what the maps of `fillMatrixPairs` hold after each pair.
use telepathy.Prelude.{
  ◌≡◌, refl, sym, ap, ◌∙◌, inl, inr, Bool, true, false, ◌||◌, Option, none, some, List, [], ◌∷◌,
  arith, Bool-cases, Option-cases, ◌==◌, ℕ_eq, Text, text_beq_iff, text_eq, contains, Map, or_zero,
  get, put, get-put, int_eq,
}
use mathlib.Core.Path.{subst}
use telepathy.Net.{Net}
use telepathy.Api.Types.{MatrixPair, Request, ServiceInput}
use telepathy.Api.Pairs.{pair_beq_iff, pair_eq}
use telepathy.Calico.Store.{PolicyStore, Checker}
use telepathy.Calico.Actors.{Actor, ActorBundle}
use telepathy.Calico.Matrix.{MatrixSink, put_verdict}
use telepathy.Calico.Services.{ip_to_id, service_backend_ids}
use telepathy.Calico.Eval.{verdict_text}
use telepathy.Calico.Requested.{
  PairSearch, by_id, services, put_pair, resolve_backends, put_decision, pair_search_step,
}
use telepathy.Calico.Requested.Uncached.{
  decision_to, pair_decision, put_pair_decision, Known, found-Known, IsSound, cached_allows-Answers,
  search_backends-Answers,
}

module _ ⦃net : Net⦄ ⦃checker : Checker net.Ip⦄ (store : PolicyStore checker.Rule checker.IpSet)
    (req : Request) (actors : ActorBundle net.Ip) where
  abbrev backends_of : ServiceInput → List Text
  backends_of svc = service_backend_ids svc req (ip_to_id req.endpoints [])

  abbrev IsResolved : Map Text (List Text) → Type 0
  IsResolved m =
      (c : Text) (svc : ServiceInput) (ids : List Text)
      → get c (services store req actors) ≡ some svc
      → get c m ≡ some ids
      → backends_of svc ≡ ids

  put-IsResolved :
      (c : Text) (svc : ServiceInput) (m : Map Text (List Text))
      → get c (services store req actors) ≡ some svc
      → IsResolved m
      → IsResolved (put c (backends_of svc) m)
  put-IsResolved c svc m named known d other ids at_d found = elim (Bool-cases (c == d)) [
    | inl e ↦
        let same = (text_beq_iff c d).0 e in
        let stored : backends_of svc ≡ ids = ground (arith, get-put c d (backends_of svc) m) in
        let one : svc ≡ other = cc in subst (λ x. backends_of x ≡ ids) one stored
    | inr e ↦ known d other ids at_d (ground (arith, get-put c d (backends_of svc) m))
  ]

  -- What the maps of the loop hold, after the pairs of a list.
  pub record IsTracked (done : List MatrixPair) (st : PairSearch) : Type 0 where
    pub cache : IsSound store req actors st.cache
    pub backends : IsResolved st.backends
    pub seen :
        (p : MatrixPair) (src : Actor net.Ip)
        → get p.from (by_id store req actors) ≡ some src
        → or_zero false (get p st.seen) ≡ contains done p

  abbrev pub put_verdict_of : MatrixPair → Option Bool → MatrixSink → MatrixSink
  put_verdict_of p none sink = sink
  put_verdict_of p (some allow) sink = put_verdict sink p.from p.to (verdict_text allow)

  -- What a decision leaves: the sink with its entry, the maps still right, and `seen` untouched.
  pub record IsDecided (p : MatrixPair) (v : Option Bool) (st r : PairSearch) : Type 0 where
    pub sink : r.sink ≡ put_verdict_of p v st.sink
    pub cache : IsSound store req actors r.cache
    pub backends : IsResolved r.backends
    pub seen : r.seen ≡ st.seen

  resolve_backends-IsResolved :
      (c : Text) (svc : ServiceInput) (st : PairSearch)
      → get c (services store req actors) ≡ some svc
      → IsResolved st.backends
      → (m : Map Text (List Text)) × (resolve_backends store req actors c svc st
          ≡ (backends_of svc, record st { backends = m }))
        × IsResolved m
  unfolding resolve_backends
  resolve_backends-IsResolved c svc st named known = elim (Option-cases (get c st.backends)) [
    | inl e ↦ (
      put c (backends_of svc) st.backends,
      ground (arith, e),
      put-IsResolved c svc st.backends named known,
    )
    | inr (ids, e) ↦
        let same = known c svc ids named e in (st.backends, ground (arith, e, same), known)
  ]

  pub put_decision-IsDecided :
      (p : MatrixPair) (src : Actor net.Ip) (o : Option ServiceInput) (d : Option (Actor net.Ip))
      (st : PairSearch)
      → Known store req actors src
      → get p.to (services store req actors) ≡ o
      → get p.to (by_id store req actors) ≡ d
      → IsSound store req actors st.cache
      → IsResolved st.backends
      → IsDecided p
          (decision_to store req actors src o d)
          st
          (put_decision store req actors p src o d st)
  unfolding put_decision decision_to put_pair
  put_decision-IsDecided p src none none st hs ho hd sound known = record {
    sink = refl;
    cache = sound;
    backends = known;
    seen = refl;
  }
  put_decision-IsDecided p src none (some dst) st hs ho hd sound known =
      let (answer, kept) =
        cached_allows-Answers store req actors src dst st.cache hs
          (found-Known store req actors p.to dst hd) sound in
      elim (Bool-cases (src.id == dst.id)) [
        | inl e ↦ rw e (record { sink = refl; cache = sound; backends = known; seen = refl })
        | inr e ↦
            rw e (record { sink = rw answer refl; cache = kept; backends = known; seen = refl })
      ]
  put_decision-IsDecided p src (some svc) d st hs ho hd sound known =
      let (m, resolved, right) = resolve_backends-IsResolved p.to svc st ho known in
      let (answer, kept) =
        search_backends-Answers store req actors src (backends_of svc) st.cache hs sound in
      rw resolved (record { sink = rw answer refl; cache = kept; backends = right; seen = refl })

  contains-cons :
      (p q : MatrixPair) (done : List MatrixPair)
      → contains (p ∷ done) q ≡ (p == q || contains done q)
  unfolding contains
  contains-cons p q done = refl

  -- A pair with an unknown source leaves the maps as they are.
  pub unknown-IsTracked :
      (p : MatrixPair) (done : List MatrixPair) (st : PairSearch)
      → get p.from (by_id store req actors) ≡ none
      → IsTracked done st
      → IsTracked (p ∷ done) st
  unknown-IsTracked p done st unknown h = record {
    cache = h.cache;
    backends = h.backends;
    seen = λ q src found. elim (Bool-cases (p == q)) [
      | inl e ↦
          let same = (pair_beq_iff p q).0 e in
          let clash : none ≡ some src =
            sym unknown
            ∙ (ap (λ (x : MatrixPair). get x.from (by_id store req actors)) same ∙ found) in
          ground arith
      | inr e ↦ h.seen q src found ∙ sym (contains-cons p q done ∙ rw e refl)
    ];
  }

  pub put_decision-IsTracked :
      (p : MatrixPair) (v : Option Bool) (done : List MatrixPair) (st r : PairSearch)
      → IsTracked done st
      → IsDecided p v (record st { seen = put p true st.seen }) r
      → IsTracked (p ∷ done) r
  put_decision-IsTracked p v done st r h d = record {
    cache = d.cache;
    backends = d.backends;
    seen = λ q src found.
        rw (d.seen, get-put p q true st.seen, contains-cons p q done)
          (elim (Bool-cases (p == q)) [ inl e ↦ rw e refl | inr e ↦ rw e (h.seen q src found) ]);
  }

  pub put_pair_decision-known :
      (sink : MatrixSink) (p : MatrixPair) (src : Actor net.Ip)
      → get p.from (by_id store req actors) ≡ some src
      → put_pair_decision store req actors sink p
        ≡ put_verdict_of p
            (decision_to store req actors src
              (get p.to (services store req actors))
              (get p.to (by_id store req actors)))
            sink
  unfolding put_pair_decision pair_decision
  put_pair_decision-known sink p src found =
      let v =
        decision_to store req actors src (get p.to (services store req actors))
          (get p.to (by_id store req actors)) in
      elim (Option-cases v) [
        | inl e ↦ ground (arith, found, e)
        | inr (b, e) ↦ ground (arith, found, e)
      ]

  pub put_pair_decision-unknown :
      (sink : MatrixSink) (p : MatrixPair)
      → get p.from (by_id store req actors) ≡ none
      → put_pair_decision store req actors sink p ≡ sink
  unfolding put_pair_decision pair_decision
  put_pair_decision-unknown sink p unknown = ground (arith, unknown)

  pub pair_search_step-skipped :
      (p : MatrixPair) (st : PairSearch)
      → get p.from (by_id store req actors) ≡ none
      → pair_search_step store req actors st p ≡ st
  unfolding pair_search_step
  pair_search_step-skipped p st unknown = ground (arith, unknown)

  pub pair_search_step-repeated :
      (p : MatrixPair) (src : Actor net.Ip) (st : PairSearch)
      → get p.from (by_id store req actors) ≡ some src
      → or_zero false (get p st.seen) ≡ true
      → pair_search_step store req actors st p ≡ st
  unfolding pair_search_step
  pair_search_step-repeated p src st found e = ground (arith, found, e)

  pub pair_search_step-fresh :
      (p : MatrixPair) (src : Actor net.Ip) (st : PairSearch)
      → get p.from (by_id store req actors) ≡ some src
      → or_zero false (get p st.seen) ≡ false
      → pair_search_step store req actors st p
        ≡ put_decision store req actors p src
            (get p.to (services store req actors))
            (get p.to (by_id store req actors))
            (record st { seen = put p true st.seen })
  unfolding pair_search_step
  pair_search_step-fresh p src st found e = ground (arith, found, e)
