-- ===== src/Calico/ByClass/Equivalence.antt =====
-- provider/calico/collapse.go against the loop over every pair of eval.go.
use telepathy.Prelude.{
  ℕ, ◌≡◌, refl, ◌∙◌, inl, inr, Bool, true, false, some, List, [], ◌∷◌, arith, Bool-cases, ◌==◌,
  ℕ_eq, text_eq, length, All, int_eq,
}
use telepathy.Net.{Net}
use telepathy.Api.Types.{Request}
use telepathy.Calico.Store.{dir_ingress, dir_egress, PolicyStore, Checker}
use telepathy.Calico.Actors.{Actor, ActorBundle}
use telepathy.Calico.Matrix.{MatrixSink, put_verdict}
use telepathy.Calico.Eval.{verdict_text, pair_allows, pair_row, pair_rows, fill_matrix}
use telepathy.Calico.Classes.{expand_cell, expand_row, expand_rows, fill_matrix_collapsed}
use telepathy.Calico.Locality.{IsLocal}
use telepathy.Calico.ByClass.Cells.{
  IsPod, probes, key, groups, memo, Placed, expand_cell-pair_allows,
}
use telepathy.Calico.ByClass.Classmates.{class_key}
use telepathy.Calico.ByClass.Representatives.{Marks, group_actors-IsGrouped}

-- The two steps of the inner loop.
module _ {Ip : Type 0} (eg_memo in_memo : List Bool) (n : ℕ) (src dst : Actor Ip) (ci pi c p : ℕ)
    (cols : List (Actor Ip)) (cs ps : List ℕ) (sink : MatrixSink) where
  expand_row-skip :
      (src.id == dst.id) ≡ true
      → expand_row eg_memo in_memo n src ci pi (dst ∷ cols) (c ∷ cs) (p ∷ ps) sink
        ≡ expand_row eg_memo in_memo n src ci pi cols cs ps sink
  unfolding expand_row
  expand_row-skip e = ground (arith, e)

  expand_row-cell :
      (v : Bool)
      → (src.id == dst.id) ≡ false
      → expand_cell eg_memo in_memo n ci pi c p ≡ some v
      → expand_row eg_memo in_memo n src ci pi (dst ∷ cols) (c ∷ cs) (p ∷ ps) sink
        ≡ expand_row eg_memo in_memo n src ci pi cols cs ps
            (put_verdict sink src.id dst.id (verdict_text v))
  unfolding expand_row
  expand_row-cell v e h = ground (arith, e, h)

module _ ⦃net : Net⦄ ⦃checker : Checker net.Ip⦄ (store : PolicyStore checker.Rule checker.IpSet)
    (req : Request) (actors : ActorBundle net.Ip) where
  abbrev PlacedAll : List (Actor net.Ip) → List ℕ → List ℕ → Type 0
  PlacedAll list cs ps =
      Marks (class_key store (probes store req)) IsPod (groups store req actors).rep_class list cs
      × Marks (key store req) IsPod (groups store req actors).rep_peer list ps

  expand_row-pair_row :
      (src : Actor net.Ip) (ci pi : ℕ) (cols : List (Actor net.Ip)) (cs ps : List ℕ)
      (sink : MatrixSink)
      → actors.heps_by_node ≡ []
      → IsLocal store
      → IsPod src
      → All IsPod cols
      → All IsPod (groups store req actors).rep_class
      → Placed store req actors src ci pi
      → PlacedAll cols cs ps
      → expand_row
          (memo store req actors dir_egress)
          (memo store req actors dir_ingress)
          (length (groups store req actors).rep_peer)
          src
          ci
          pi
          cols
          cs
          ps
          sink
        ≡ some (pair_row store req actors src cols sink)
  unfolding expand_row pair_row
  expand_row-pair_row src ci pi [] cs ps sink none_left local hs hc reps at_src at_cols = refl
  expand_row-pair_row src ci pi (dst ∷ cols) [] ps sink none_left local hs hc reps at_src at_cols =
      elim at_cols.0 [ ]
  expand_row-pair_row src ci pi (dst ∷ cols) (c ∷ cs) [] sink none_left local hs hc reps at_src
        at_cols =
      elim at_cols.1 [ ]
  expand_row-pair_row src ci pi (dst ∷ cols) (c ∷ cs) (p ∷ ps) sink none_left local hs hc reps
        at_src at_cols =
      let cell =
        expand_cell-pair_allows store req actors src dst ci pi c p none_left local hs hc.0 reps
          at_src (at_cols.0.0, at_cols.1.0) in
      let rest = λ (s : MatrixSink).
        expand_row-pair_row src ci pi cols cs ps s none_left local hs hc.1 reps at_src
          (at_cols.0.1, at_cols.1.1) in
      elim (Bool-cases (src.id == dst.id)) [
        | inl e ↦ expand_row-skip _ _ _ src dst ci pi c p cols cs ps sink e ∙ rw e (rest sink)
        | inr e ↦
            expand_row-cell _ _ _ src dst ci pi c p cols cs ps sink _ e cell
            ∙ rw e (
                rest (
                  put_verdict sink src.id dst.id
                    (verdict_text (pair_allows store req actors src dst))))
      ]

  expand_rows-pair_rows :
      (rows cols : List (Actor net.Ip)) (rcs rps cs ps : List ℕ) (sink : MatrixSink)
      → actors.heps_by_node ≡ []
      → IsLocal store
      → All IsPod rows
      → All IsPod cols
      → All IsPod (groups store req actors).rep_class
      → PlacedAll rows rcs rps
      → PlacedAll cols cs ps
      → expand_rows
          (memo store req actors dir_egress)
          (memo store req actors dir_ingress)
          (length (groups store req actors).rep_peer)
          rows
          rcs
          rps
          cols
          cs
          ps
          sink
        ≡ some (pair_rows store req actors rows cols sink)
  unfolding expand_rows pair_rows
  expand_rows-pair_rows [] cols rcs rps cs ps sink none_left local hr hc reps at_rows at_cols = refl
  expand_rows-pair_rows (src ∷ rows) cols [] rps cs ps sink none_left local hr hc reps at_rows
        at_cols =
      elim at_rows.0 [ ]
  expand_rows-pair_rows (src ∷ rows) cols (c ∷ rcs) [] cs ps sink none_left local hr hc reps at_rows
        at_cols =
      elim at_rows.1 [ ]
  expand_rows-pair_rows (src ∷ rows) cols (c ∷ rcs) (p ∷ rps) cs ps sink none_left local hr hc reps
        at_rows at_cols =
      rw
        (expand_row-pair_row src c p cols cs ps sink none_left local hr.0 hc reps
          (at_rows.0.0, at_rows.1.0) at_cols)
        (expand_rows-pair_rows rows cols rcs rps cs ps (pair_row store req actors src cols sink)
          none_left local hr.1 hc reps (at_rows.0.1, at_rows.1.1) at_cols)

-- The matrix by classes is the matrix of the loop over every pair, for every sink: if no host
-- endpoint is present, every actor is a workload with an endpoint in the store or is unpoliced, no
-- name of a tier, a policy or a profile holds a separator of the fingerprint, no profile has an
-- empty name, and the checker reads addresses only through the sets and blocks that the rules name.
pub fill_matrix_collapsed-fill_matrix :
    ⦃net : Net⦄ ⦃checker : Checker net.Ip⦄ (store : PolicyStore checker.Rule checker.IpSet)
    (req : Request) (actors : ActorBundle net.Ip) (sink : MatrixSink)
    → IsLocal store
    → actors.heps_by_node ≡ []
    → All IsPod actors.list
    → fill_matrix_collapsed store req actors sink ≡ some (fill_matrix store req actors sink)
unfolding fill_matrix_collapsed fill_matrix
fill_matrix_collapsed-fill_matrix store req actors sink local none_left pods =
    let grouped = group_actors-IsGrouped store (probes store req) IsPod actors.list pods in
    let placed : PlacedAll store req actors actors.list (groups store req actors).class_of
        (groups store req actors).peer_of =
      (grouped.classes, grouped.peers) in
    expand_rows-pair_rows store req actors actors.list actors.list _ _ _ _ sink none_left local pods
      pods grouped.good_classes placed placed
