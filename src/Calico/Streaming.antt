-- ===== src/Calico/Streaming.antt =====
-- provider/calico/matrix.go: a streamed matrix keeps every column that is read back.
use telepathy.Prelude.{
  ◌≡◌, refl, ap, ◌∙◌, inl, inr, Bool, true, ◌&&◌, none, some, List, [], ◌∷◌, arith, if◌then◌else◌,
  Bool-cases, Option-cases, ◌==◌, ℕ_eq, Text, text_beq_iff, text_eq, All, Map, get, int_eq,
}
use telepathy.Net.{Net}
use telepathy.Api.Types.{ServiceInput, Request, flow_key}
use telepathy.Api.FlowKey.{IsArrowFree, flow_key-injective}
use telepathy.Calico.Store.{PolicyStore, Checker}
use telepathy.Calico.Actors.{Actor, ActorBundle}
use telepathy.Calico.Matrix.{MatrixSink, is_kept, put_verdict, get_verdict}
use telepathy.Calico.Eval.{verdict_text, pair_allows, pair_step, pair_row, pair_rows}
use telepathy.Calico.Entries.{put_verdict-get}
use telepathy.Calico.Services.{
  service_backend_ids, service_column, reaches_backend, service_rows, service_columns,
  reaches_external,
}

abbrev pub Kept : Map Text Bool → Text → Type 0
Kept keep c = get c keep ≡ some true

-- A sink that keeps some columns, beside one that keeps all: they agree on the columns kept, and
-- have written the same text if both are to write.
pub record Agrees (both : Bool) (keep : Map Text Bool) (s t : MatrixSink) : Type 0 where
  pub keeps : s.keep ≡ some keep
  pub keeps_all : t.keep ≡ none
  pub written : both ≡ true → s.w ≡ t.w
  pub entries :
      (src c : Text) → IsArrowFree src → Kept keep c → get_verdict s src c ≡ get_verdict t src c

is_kept_column :
    (keep : Map Text Bool) (s : MatrixSink) (c : Text)
    → s.keep ≡ some keep
    → Kept keep c
    → is_kept s c ≡ true
is_kept_column keep s c e k = elim (Option-cases s.w) [
  | inl n ↦ rw n refl
  | inr (t, n) ↦ rw (n, e, k) refl
]

is_kept_all : (s : MatrixSink) (c : Text) → s.keep ≡ none → is_kept s c ≡ true
is_kept_all s c e = elim (Option-cases s.w) [ inl n ↦ rw n refl | inr (t, n) ↦ rw (n, e) refl ]

get_verdict-put_verdict :
    (s : MatrixSink) (a d v src c : Text)
    → get_verdict (put_verdict s a d v) src c
      ≡ (if is_kept s d && (flow_key a d == flow_key src c) then v else get_verdict s src c)
unfolding get_verdict
get_verdict-put_verdict s a d v src c = ground (arith, put_verdict-get s a d v (flow_key src c))

put_verdict-entries :
    (both : Bool) (keep : Map Text Bool) (s t : MatrixSink) (a d v src c : Text)
    → IsArrowFree a
    → IsArrowFree src
    → Agrees both keep s t
    → Kept keep c
    → get_verdict (put_verdict s a d v) src c ≡ get_verdict (put_verdict t a d v) src c
put_verdict-entries both keep s t a d v src c free src_free g kept =
    let all = is_kept_all t d g.keeps_all in
    let at_s = get_verdict-put_verdict s a d v src c in
    let at_t = get_verdict-put_verdict t a d v src c in
    elim (Bool-cases (flow_key a d == flow_key src c)) [
      | inl e ↦
          let same =
            flow_key-injective a d src c free src_free
              ((text_beq_iff (flow_key a d) (flow_key src c)).0 e) in
          let here : is_kept s d ≡ true =
            ap (is_kept s) same.1 ∙ is_kept_column keep s c g.keeps kept in
          ground arith
      | inr e ↦ let before = g.entries src c src_free kept in ground arith
    ]

put_verdict-Agrees :
    (both : Bool) (keep : Map Text Bool) (s t : MatrixSink) (a d v : Text)
    → IsArrowFree a
    → Agrees both keep s t
    → Agrees both keep (put_verdict s a d v) (put_verdict t a d v)
unfolding put_verdict
put_verdict-Agrees both keep s t a d v free g = record {
  keeps = g.keeps;
  keeps_all = g.keeps_all;
  written = λ e. rw (g.written e) refl;
  entries =
      λ src c src_free kept. put_verdict-entries both keep s t a d v src c free src_free g kept;
}

reaches_backend-Agrees :
    {Ip : Type 0} (both : Bool) (keep : Map Text Bool) (s t : MatrixSink) (src : Actor Ip)
    (bs : List Text)
    → IsArrowFree src.id
    → Agrees both keep s t
    → All (Kept keep) bs
    → reaches_backend s src bs ≡ reaches_backend t src bs
unfolding reaches_backend
reaches_backend-Agrees both keep s t src [] free g kept = refl
reaches_backend-Agrees both keep s t src (b ∷ bs) free g kept =
    rw (g.entries src.id b free kept.0, reaches_backend-Agrees both keep s t src bs free g kept.1)
      refl

service_rows-Agrees :
    {Ip : Type 0} (both : Bool) (keep : Map Text Bool) (col : Text) (bs : List Text)
    (srcs : List (Actor Ip)) (s t : MatrixSink)
    → All (λ x. IsArrowFree x.id) srcs
    → All (Kept keep) bs
    → Agrees both keep s t
    → Agrees both keep (service_rows col bs srcs s) (service_rows col bs srcs t)
unfolding service_rows
service_rows-Agrees both keep col bs [] s t free kept g = g
service_rows-Agrees both keep col bs (src ∷ rest) s t free kept g =
    let v = verdict_text (reaches_backend t src bs) in
    service_rows-Agrees both keep col bs rest
      (put_verdict s src.id col (verdict_text (reaches_backend s src bs)))
      (put_verdict t src.id col v) free.1 kept
      (rw (reaches_backend-Agrees both keep s t src bs free.0 g kept)
        (put_verdict-Agrees both keep s t src.id col v free.0 g))

pub service_columns-Agrees :
    {Ip : Type 0} (both : Bool) (keep : Map Text Bool) (req : Request) (ids_by_ip : Map Text Text)
    (srcs : List (Actor Ip)) (svcs : List ServiceInput) (s t : MatrixSink)
    → All (λ x. IsArrowFree x.id) srcs
    → All (λ svc. All (Kept keep) (service_backend_ids svc req ids_by_ip)) svcs
    → Agrees both keep s t
    → Agrees both keep
        (service_columns req ids_by_ip srcs svcs s)
        (service_columns req ids_by_ip srcs svcs t)
unfolding service_columns
service_columns-Agrees both keep req ids_by_ip srcs [] s t free kept g = g
service_columns-Agrees both keep req ids_by_ip srcs (svc ∷ rest) s t free kept g =
    service_columns-Agrees both keep req ids_by_ip srcs rest
      (service_rows (service_column svc) (service_backend_ids svc req ids_by_ip) srcs s)
      (service_rows (service_column svc) (service_backend_ids svc req ids_by_ip) srcs t) free kept.1
      (service_rows-Agrees both keep (service_column svc) (service_backend_ids svc req ids_by_ip)
        srcs s t free kept.0 g)

pub reaches_external-Agrees :
    {Ip : Type 0} (both : Bool) (keep : Map Text Bool) (s t : MatrixSink) (a : Actor Ip)
    (es : List (Actor Ip))
    → IsArrowFree a.id
    → Agrees both keep s t
    → All (λ e. Kept keep e.id) es
    → reaches_external s a es ≡ reaches_external t a es
unfolding reaches_external
reaches_external-Agrees both keep s t a [] free g kept = refl
reaches_external-Agrees both keep s t a (e ∷ es) free g kept =
    rw (g.entries a.id e.id free kept.0, reaches_external-Agrees both keep s t a es free g kept.1)
      refl

module _ ⦃net : Net⦄ ⦃checker : Checker net.Ip⦄ (store : PolicyStore checker.Rule checker.IpSet)
    (req : Request) (actors : ActorBundle net.Ip) (both : Bool) (keep : Map Text Bool) where
  pair_row-Agrees :
      (src : Actor net.Ip) (cols : List (Actor net.Ip)) (s t : MatrixSink)
      → IsArrowFree src.id
      → Agrees both keep s t
      → Agrees both keep
          (pair_row store req actors src cols s)
          (pair_row store req actors src cols t)
  unfolding pair_row
  pair_row-Agrees src [] s t free g = g
  pair_row-Agrees src (dst ∷ rest) s t free g =
      pair_row-Agrees src rest (pair_step store req actors src dst s)
        (pair_step store req actors src dst t) free
        (elim (Bool-cases (src.id == dst.id)) [
          | inl e ↦ rw e g
          | inr e ↦ rw e (
              put_verdict-Agrees both keep s t src.id dst.id
                (verdict_text (pair_allows store req actors src dst)) free g)
        ])

  pub pair_rows-Agrees :
      (rows cols : List (Actor net.Ip)) (s t : MatrixSink)
      → All (λ x. IsArrowFree x.id) rows
      → Agrees both keep s t
      → Agrees both keep
          (pair_rows store req actors rows cols s)
          (pair_rows store req actors rows cols t)
  unfolding pair_rows
  pair_rows-Agrees [] cols s t free g = g
  pair_rows-Agrees (src ∷ rest) cols s t free g =
      pair_rows-Agrees rest cols (pair_row store req actors src cols s)
        (pair_row store req actors src cols t) free.1 (pair_row-Agrees src cols s t free.0 g)
