-- ===== src/Calico/Services.antt =====
-- provider/calico: the columns of the services and the report of the actors (eval.go), backends of
-- a service (eval.go, resources.go), and the columns that a streamed matrix keeps (matrix.go).
use telepathy.Prelude.{
  Bool, true, false, not, ◌&&◌, ◌||◌, none, some, List, [], ◌∷◌, ◌++◌, map, if◌then◌else◌, ◌==◌,
  ℕ_eq, Text, codes, text_eq, is_empty, contains, is_nil, Map, or_zero, get, put, int_eq,
}
use telepathy.Api.Types
use telepathy.Api.Types.{Endpoint, ServiceInput, EndpointSliceInput, Request, allow, deny, flow_key}
use telepathy.Calico.Actors.{Actor, actor_kind_string}
use telepathy.Calico.Matrix.{MatrixSink, put_verdict, get_verdict}
use telepathy.Calico.Eval.{verdict_text}

-- Every label that is wanted has its value; a missing label reads as the empty text.
unfoldable pub labels_match_loop : Map Text Text → Map Text Text → Bool
labels_match_loop have [] = true
labels_match_loop have ((k, v) ∷ rest) =
    if not (or_zero [] (get k have) == v) then false else labels_match_loop have rest

unfoldable pub labels_match : Map Text Text → Map Text Text → Bool
unfolding labels_match_loop
labels_match have want = if is_nil want then false else labels_match_loop have want

-- The addresses of `autoSliceForService`; their number is the hit count.
unfoldable pub auto_addresses : ServiceInput → List Endpoint → List Text
unfolding labels_match
auto_addresses svc [] = []
auto_addresses svc (ep ∷ rest) =
    let more = auto_addresses svc rest in
    if not (ep.namespace == svc.namespace)
    then more
    else if not (labels_match ep.labels svc.selector)
    then more
    else if not (is_empty ep.ip)
    then ep.ip ∷ more
    else more

-- The loop over the explicit slices: the addresses, and whether a slice names the service.
unfoldable pub slice_addresses :
    ServiceInput → List EndpointSliceInput → List Text × Bool → List Text × Bool
slice_addresses svc [] s = s
slice_addresses svc (e ∷ rest) s = slice_addresses svc rest (
    if e.service_name == svc.name && e.namespace == svc.namespace
    then (s.0 ++ e.addresses, true)
    else s)

-- `ipToID`
unfoldable pub ip_to_id : List Endpoint → Map Text Text → Map Text Text
ip_to_id [] m = m
ip_to_id (ep ∷ rest) m = ip_to_id rest (if not (is_empty ep.ip) then put ep.ip ep.id m else m)

-- The loop over the addresses, with the IDs so far, which are those seen.
unfoldable pub backend_ids : Map Text Text → List Text → List Text → List Text
backend_ids ids_by_ip ids [] = ids
backend_ids ids_by_ip ids (a ∷ rest) = elim (get a ids_by_ip) [
  | none ↦ backend_ids ids_by_ip ids rest
  | some id ↦ backend_ids ids_by_ip (if not (contains ids id) then ids ++ (id ∷ []) else ids) rest
]

unfoldable pub service_backend_ids : ServiceInput → Request → Map Text Text → List Text
unfolding slice_addresses auto_addresses backend_ids
service_backend_ids svc req ids_by_ip =
    let (addrs, explicit) = slice_addresses svc req.endpoint_slices ([], false) in
    backend_ids ids_by_ip [] (if not explicit then auto_addresses svc req.endpoints else addrs)

abbrev pub service_column : ServiceInput → Text
service_column svc = codes "svc/" ++ svc.namespace ++ codes "/" ++ svc.name

unfoldable pub keep_ids : List Text → Map Text Bool → Map Text Bool
keep_ids [] keep = keep
keep_ids (id ∷ ids) keep = keep_ids ids (put id true keep)

unfoldable pub keep_services :
    Request → Map Text Text → List ServiceInput → Map Text Bool → Map Text Bool
unfolding keep_ids
keep_services req ids_by_ip [] keep = keep
keep_services req ids_by_ip (svc ∷ rest) keep =
    keep_services req ids_by_ip rest (keep_ids (service_backend_ids svc req ids_by_ip) keep)

module _ {Ip : Type 0} where
  -- The inner loop: some backend is the source, or is reached by it.
  unfoldable pub reaches_backend : MatrixSink → Actor Ip → List Text → Bool
  unfolding get_verdict
  reaches_backend sink src [] = false
  reaches_backend sink src (b ∷ rest) =
      if b == src.id || get_verdict sink src.id b == allow
      then true
      else reaches_backend sink src rest

  unfoldable pub service_rows : Text → List Text → List (Actor Ip) → MatrixSink → MatrixSink
  unfolding reaches_backend
  service_rows col backends [] sink = sink
  service_rows col backends (src ∷ rest) sink =
      service_rows col backends rest
        (put_verdict sink src.id col (verdict_text (reaches_backend sink src backends)))

  unfoldable pub service_columns :
      Request → Map Text Text → List (Actor Ip) → List ServiceInput → MatrixSink → MatrixSink
  unfolding service_rows
  service_columns req ids_by_ip actors [] sink = sink
  service_columns req ids_by_ip actors (svc ∷ rest) sink =
      service_columns req ids_by_ip actors rest
        (service_rows (service_column svc) (service_backend_ids svc req ids_by_ip) actors sink)

  -- `addServiceColumns`
  unfoldable pub add_service_columns : Request → List (Actor Ip) → MatrixSink → MatrixSink
  unfolding service_columns ip_to_id
  add_service_columns req actors sink =
      if is_nil req.services
      then sink
      else service_columns req (ip_to_id req.endpoints []) actors req.services sink

  abbrev pub is_external : Actor Ip → Bool
  is_external a = actor_kind_string a == codes "external"

  unfoldable pub externals : List (Actor Ip) → List (Actor Ip)
  unfolding actor_kind_string
  externals [] = []
  externals (a ∷ rest) = let more = externals rest in if is_external a then a ∷ more else more

  unfoldable pub reaches_external : MatrixSink → Actor Ip → List (Actor Ip) → Bool
  unfolding get_verdict
  reaches_external sink a [] = false
  reaches_external sink a (e ∷ rest) =
      if get_verdict sink a.id e.id == allow then true else reaches_external sink a rest

  -- One entry of `buildActorReport`.
  unfoldable pub report_entry : MatrixSink → List (Actor Ip) → Bool → Actor Ip → Types.Actor
  unfolding reaches_external actor_kind_string
  report_entry sink exts complete a = record {
    id = a.id;
    kind = actor_kind_string a;
    node = a.node;
    internet =
        if complete && not (is_external a) && not (is_nil exts)
        then verdict_text (reaches_external sink a exts)
        else [];
  }

  unfoldable pub build_actor_report : MatrixSink → List (Actor Ip) → Bool → List Types.Actor
  unfolding report_entry externals
  build_actor_report sink actors complete =
      map (report_entry sink (externals actors) complete) actors

  -- `matrixKeepSet`
  unfoldable pub matrix_keep_set : Request → List (Actor Ip) → Map Text Bool
  unfolding keep_ids keep_services externals
  matrix_keep_set req actors =
      let keep = keep_ids (map (λ (a : Actor Ip). a.id) (externals actors)) [] in
      if is_nil req.services
      then keep
      else keep_services req (ip_to_id req.endpoints []) req.services keep
