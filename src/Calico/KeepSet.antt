-- ===== src/Calico/KeepSet.antt =====
-- provider/calico/matrix.go: `matrixKeepSet` holds the columns that the post-processors read.
use telepathy.Prelude.{
  ◌≡◌, refl, inl, inr, Bool, true, false, Option, none, some, List, [], ◌∷◌, map, arith, Bool-cases,
  ℕ_eq, Text, text_eq, All, is_nil, Map, get, put, get-put, get-put_self, int_eq,
}
use telepathy.Net.{Net}
use telepathy.Api.Types.{ServiceInput, Request}
use telepathy.Api.FlowKey.{IsArrowFree}
use telepathy.Calico.Store.{PolicyStore, Checker}
use telepathy.Calico.Actors.{Actor, ActorBundle}
use telepathy.Calico.Matrix.{MatrixSink, new_matrix_sink, get_verdict}
use telepathy.Calico.Eval.{pair_rows, fill_matrix}
use telepathy.Calico.Streaming.{
  Kept, Agrees, service_columns-Agrees, reaches_external-Agrees, pair_rows-Agrees,
}
use telepathy.Calico.Services.{
  ip_to_id, service_backend_ids, add_service_columns, externals, report_entry, build_actor_report,
  keep_ids, keep_services, matrix_keep_set,
}

keep_ids-Kept :
    (ids : List Text) (keep : Map Text Bool) (c : Text) → Kept keep c → Kept (keep_ids ids keep) c
unfolding keep_ids
keep_ids-Kept [] keep c k = k
keep_ids-Kept (id ∷ ids) keep c k =
    keep_ids-Kept ids (put id true keep) c (ground (arith, get-put id c true keep))

All-keep_ids : (ids : List Text) (keep : Map Text Bool) → All (Kept (keep_ids ids keep)) ids
unfolding keep_ids
All-keep_ids [] keep = tt
All-keep_ids (id ∷ ids) keep = (
  keep_ids-Kept ids (put id true keep) id (get-put_self id true keep),
  All-keep_ids ids (put id true keep),
)

All-impl :
    {A : Type 0} (P Q : A → Type 0) (xs : List A) → ((x : A) → P x → Q x) → All P xs → All Q xs
All-impl P Q [] f h = tt
All-impl P Q (x ∷ xs) f h = (f x h.0, All-impl P Q xs f h.1)

All-map :
    {A B : Type 0} (P : B → Type 0) (f : A → B) (xs : List A)
    → All P (map f xs)
    → All (λ x. P (f x)) xs
All-map P f [] h = tt
All-map P f (x ∷ xs) h = (h.0, All-map P f xs h.1)

keep_services-Kept :
    (req : Request) (ids_by_ip : Map Text Text) (svcs : List ServiceInput) (keep : Map Text Bool)
    (c : Text)
    → Kept keep c
    → Kept (keep_services req ids_by_ip svcs keep) c
unfolding keep_services
keep_services-Kept req ids_by_ip [] keep c k = k
keep_services-Kept req ids_by_ip (svc ∷ rest) keep c k =
    let ids = service_backend_ids svc req ids_by_ip in
    keep_services-Kept req ids_by_ip rest (keep_ids ids keep) c (keep_ids-Kept ids keep c k)

All-keep_services :
    (req : Request) (ids_by_ip : Map Text Text) (svcs : List ServiceInput) (keep : Map Text Bool)
    → All
        (λ svc.
          All
            (Kept (keep_services req ids_by_ip svcs keep))
            (service_backend_ids svc req ids_by_ip))
        svcs
unfolding keep_services
All-keep_services req ids_by_ip [] keep = tt
All-keep_services req ids_by_ip (svc ∷ rest) keep =
    let ids = service_backend_ids svc req ids_by_ip in
    let next = keep_ids ids keep in
    (
      All-impl (Kept next) (Kept (keep_services req ids_by_ip rest next)) ids
          (λ c. keep_services-Kept req ids_by_ip rest next c) (All-keep_ids ids keep),
      All-keep_services req ids_by_ip rest next,
    )

report-Agrees :
    {Ip : Type 0} (both : Bool) (keep : Map Text Bool) (s t : MatrixSink) (exts : List (Actor Ip))
    (complete : Bool) (actors : List (Actor Ip))
    → All (λ x. IsArrowFree x.id) actors
    → Agrees both keep s t
    → All (λ (e : Actor Ip). Kept keep e.id) exts
    → map (report_entry s exts complete) actors ≡ map (report_entry t exts complete) actors
unfolding report_entry
report-Agrees both keep s t exts complete [] free g kept = refl
report-Agrees both keep s t exts complete (a ∷ rest) free g kept =
    rw
      (
        reaches_external-Agrees both keep s t a exts free.0 g kept,
        report-Agrees both keep s t exts complete rest free.1 g kept,
      )
      refl

new_matrix_sink-Agrees :
    (keep : Map Text Bool) (streaming : Bool)
    → Agrees streaming keep (new_matrix_sink true (some keep)) (new_matrix_sink streaming none)
unfolding new_matrix_sink get_verdict get
new_matrix_sink-Agrees keep true = record {
  keeps = refl;
  keeps_all = refl;
  written = λ e. refl;
  entries = λ src c free kept. refl;
}
new_matrix_sink-Agrees keep false = record {
  keeps = refl;
  keeps_all = refl;
  written = λ e. cc;
  entries = λ src c free kept. refl;
}

matrix_keep_set-externals :
    {Ip : Type 0} (req : Request) (actors : List (Actor Ip))
    → All (λ (e : Actor Ip). Kept (matrix_keep_set req actors) e.id) (externals actors)
unfolding matrix_keep_set
matrix_keep_set-externals req actors =
    let exts = externals actors in
    let ext_ids = map (λ a. a.id) exts in
    let kept = All-keep_ids ext_ids [] in
    All-map (Kept (matrix_keep_set req actors)) (λ a. a.id) exts
      (elim (Bool-cases (is_nil req.services)) [
        | inl e ↦ rw e kept
        | inr e ↦ rw e (
            All-impl (Kept (keep_ids ext_ids []))
              (Kept
                (keep_services req (ip_to_id req.endpoints []) req.services (keep_ids ext_ids [])))
              ext_ids
              (λ c.
                keep_services-Kept req (ip_to_id req.endpoints []) req.services
                  (keep_ids ext_ids []) c)
              kept)
      ])

module _ ⦃net : Net⦄ ⦃checker : Checker net.Ip⦄ (store : PolicyStore checker.Rule checker.IpSet)
    (req : Request) (actors : ActorBundle net.Ip) where
  -- The per-pair loop and the service columns of `Evaluate`, into a new sink.
  abbrev pub filled : Bool → Option (Map Text Bool) → MatrixSink
  filled streaming keep =
      add_service_columns req actors.list
        (fill_matrix store req actors (new_matrix_sink streaming keep))

  filled-Agrees :
      (streaming : Bool)
      → All (λ x. IsArrowFree x.id) actors.list
      → Agrees streaming
          (matrix_keep_set req actors.list)
          (filled true (some (matrix_keep_set req actors.list)))
          (filled streaming none)
  unfolding fill_matrix add_service_columns
  filled-Agrees streaming free =
      let keep = matrix_keep_set req actors.list in
      let start = new_matrix_sink true (some keep) in
      let rows =
        pair_rows-Agrees store req actors streaming keep actors.list actors.list start
          (new_matrix_sink streaming none) free (new_matrix_sink-Agrees keep streaming) in
      elim (Bool-cases (is_nil req.services)) [
        | inl e ↦ rw e rows
        | inr e ↦ rw e (
            service_columns-Agrees streaming keep req (ip_to_id req.endpoints []) actors.list
              req.services (pair_rows store req actors actors.list actors.list start)
              (pair_rows store req actors actors.list actors.list (new_matrix_sink streaming none))
              free
              (unfold matrix_keep_set in
                rw e (All-keep_services req (ip_to_id req.endpoints []) req.services _))
              rows)
      ]

  -- Streaming with the columns of `matrixKeepSet` loses nothing, if no actor's ID holds "->": the
  -- actor report is the one that the matrix in memory gives, and the text written is the one that
  -- a stream which keeps every column writes, the service columns included.
  pub matrix_keep_set-enough :
      (complete : Bool)
      → All (λ x. IsArrowFree x.id) actors.list
      → (build_actor_report
            (filled true (some (matrix_keep_set req actors.list)))
            actors.list
            complete
          ≡ build_actor_report (filled false none) actors.list complete)
        × ((filled true (some (matrix_keep_set req actors.list))).w ≡ (filled true none).w)
  unfolding build_actor_report
  matrix_keep_set-enough complete free = (
    report-Agrees false (matrix_keep_set req actors.list) _ _ (externals actors.list) complete
        actors.list free (filled-Agrees false free) (matrix_keep_set-externals req actors.list),
    (filled-Agrees true free).written refl,
  )
