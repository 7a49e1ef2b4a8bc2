-- ===== src/Calico/Requested.antt =====
-- provider/calico/pairs.go: the verdicts of the requested pairs only, with caches.
pub mod Uncached
pub mod Tracked
pub mod Decisions
pub mod FullMatrix
use telepathy.Prelude.{
  Bool, true, false, Option, none, some, List, [], ◌∷◌, if◌then◌else◌, ◌==◌, ℕ_eq, Text, text_eq,
  fold, Map, or_zero, get, put, int_eq,
}
use telepathy.Net.{Net}
use telepathy.Api.Types.{MatrixPair, Request, ServiceInput}
use telepathy.Api.Pairs.{pair_eq}
use telepathy.Calico.Store.{PolicyStore, Checker}
use telepathy.Calico.Actors.{Actor, ActorBundle}
use telepathy.Calico.Matrix.{MatrixSink, put_verdict}
use telepathy.Calico.Services.{ip_to_id, service_backend_ids, service_column}
use telepathy.Calico.Eval.{verdict_text, pair_allows}

-- `byID`
unfoldable pub actors_by_id : {Ip : Type 0} → List (Actor Ip) → Map Text (Actor Ip)
unfolding fold put
actors_by_id list = fold (λ m a. put a.id a m) [] list

-- `services`, by their columns.
unfoldable pub services_by_column : List ServiceInput → Map Text ServiceInput
unfolding fold put
services_by_column svcs = fold (λ m svc. put (service_column svc) svc m) [] svcs

-- The state of the loop: the sink, and the maps `seen`, `backends` and `cache`.
pub record PairSearch : Type 0 where
  pub sink : MatrixSink
  pub seen : Map MatrixPair Bool
  pub backends : Map Text (List Text)
  pub cache : Map MatrixPair Bool

abbrev pub pair_between : {Ip : Type 0} → Actor Ip → Actor Ip → MatrixPair
pair_between src dst = record { from = src.id; to = dst.id }

module _ ⦃net : Net⦄ ⦃checker : Checker net.Ip⦄ (store : PolicyStore checker.Rule checker.IpSet)
    (req : Request) (actors : ActorBundle net.Ip) where
  abbrev pub by_id : Map Text (Actor net.Ip)
  by_id = actors_by_id actors.list

  abbrev pub services : Map Text ServiceInput
  services = services_by_column req.services

  -- `allows`, with the cache before and after.
  unfoldable pub cached_allows :
      Actor net.Ip → Actor net.Ip → Map MatrixPair Bool → Bool × Map MatrixPair Bool
  cached_allows src dst cache = elim (get (pair_between src dst) cache) [
    | some allow ↦ (allow, cache)
    | none ↦ (
      pair_allows store req actors src dst,
      put (pair_between src dst) (pair_allows store req actors src dst) cache,
    )
  ]

  -- The loop over the backends, which stops at the first that is reached.
  unfoldable pub search_backends :
      Actor net.Ip → List Text → Map MatrixPair Bool → Bool × Map MatrixPair Bool
  unfolding cached_allows
  search_backends src [] cache = (false, cache)
  search_backends src (id ∷ ids) cache =
      if id == src.id then (true, cache) else elim (get id by_id) [
        | none ↦ search_backends src ids cache
        | some dst ↦
            let r = cached_allows src dst cache in
            let rest = search_backends src ids r.1 in if r.0 then (true, r.1) else rest
      ]

  unfoldable pub put_pair : MatrixPair → Bool → PairSearch → PairSearch
  put_pair p allow st = record st { sink = put_verdict st.sink p.from p.to (verdict_text allow) }

  unfoldable pub resolve_backends : Text → ServiceInput → PairSearch → List Text × PairSearch
  resolve_backends col svc st = elim (get col st.backends) [
    | some ids ↦ (ids, st)
    | none ↦
        let ids = service_backend_ids svc req (ip_to_id req.endpoints []) in
        (ids, record st { backends = put col ids st.backends })
  ]

  -- The pair when its column is a service, or not.
  unfoldable pub put_decision :
      MatrixPair
      → Actor net.Ip
      → Option ServiceInput
      → Option (Actor net.Ip)
      → PairSearch
      → PairSearch
  unfolding search_backends put_pair resolve_backends
  put_decision p src (some svc) dst st =
      let (ids, resolved) = resolve_backends p.to svc st in
      let (allow, cache) = search_backends src ids resolved.cache in
      put_pair p allow (record resolved { cache = cache })
  put_decision p src none none st = st
  put_decision p src none (some dst) st =
      let (allow, cache) = cached_allows src dst st.cache in
      if src.id == dst.id then st else put_pair p allow (record st { cache = cache })

  unfoldable pub pair_search_step : PairSearch → MatrixPair → PairSearch
  unfolding put_decision
  pair_search_step st p = elim (get p.from by_id) [
    | none ↦ st
    | some src ↦
        if or_zero false (get p st.seen)
        then st
        else put_decision p src (get p.to services) (get p.to by_id)
            (record st { seen = put p true st.seen })
  ]

  unfoldable pub fill_matrix_pairs : MatrixSink → MatrixSink
  unfolding pair_search_step fold
  fill_matrix_pairs sink =
      (fold pair_search_step (record { sink = sink; seen = []; backends = []; cache = [] })
        req.matrix_pairs).sink
