-- ===== src/Api/Diff/Report.antt =====
-- api/diff.go: the counters of a report, and the order of its changes.
use telepathy.Prelude.{
  ℕ, suc, ◌+◌, ◌≡◌, refl, sym, ◌∙◌, Option, none, some, List, [], ◌∷◌, ◌++◌, arith, if◌then◌else◌,
  ◌==◌, ℕ_eq, Text, text_beq, text_eq, length, length-append, fold, Map, get, int_eq,
}
use telepathy.Api.Types.{Response}
use telepathy.Api.Diff.{
  FlowChange, DiffReport, flow_opened, flow_closed, flow_added, flow_removed, flow_change,
  diff_both, diff_verdicts, diff_key, insert_change, sort_changes, flow_keys, no_diff,
  diff_responses,
}

unfoldable pub count_kind : Text → List FlowChange → ℕ
count_kind kind [] = 0
count_kind kind (c ∷ cs) = (if c.kind == kind then 1 else 0) + count_kind kind cs

count_kind-append :
    (kind : Text) (cs ds : List FlowChange)
    → count_kind kind (cs ++ ds) ≡ count_kind kind cs + count_kind kind ds
unfolding count_kind
count_kind-append kind [] ds = omega arith
count_kind-append kind (c ∷ cs) ds = omega (arith, count_kind-append kind cs ds)

count_kind-insert_change :
    (kind : Text) (c : FlowChange) (cs : List FlowChange)
    → count_kind kind (insert_change c cs) ≡ (if c.kind == kind then 1 else 0) + count_kind kind cs
unfolding count_kind insert_change
count_kind-insert_change kind c [] = refl
count_kind-insert_change kind c (d ∷ ds) = ground (arith, count_kind-insert_change kind c ds)

count_kind-sort_changes :
    (kind : Text) (cs : List FlowChange) → count_kind kind (sort_changes cs) ≡ count_kind kind cs
unfolding count_kind sort_changes
count_kind-sort_changes kind [] = refl
count_kind-sort_changes kind (c ∷ cs) =
    ground
      (arith, count_kind-sort_changes kind cs, count_kind-insert_change kind c (sort_changes cs))

-- The counters are those of the changes.
abbrev pub IsCounted : DiffReport → Type 0
IsCounted r =
    (r.opened ≡ count_kind flow_opened r.changes)
    × (r.closed ≡ count_kind flow_closed r.changes)
    × (r.added ≡ count_kind flow_added r.changes)
    × (r.removed ≡ count_kind flow_removed r.changes)
    × (r.opened + r.closed + r.added + r.removed ≡ length r.changes)

-- A change of a kind adds one to that kind alone.
abbrev marks : Text → Text → ℕ
marks kind k = if k == kind then 1 else 0

count_kind-add :
    (kind : Text) (cs : List FlowChange) (c : FlowChange)
    → count_kind kind (cs ++ (c ∷ [])) ≡ count_kind kind cs + marks kind c.kind
unfolding count_kind
count_kind-add kind cs c = omega (arith, count_kind-append kind cs (c ∷ []))

-- What one more change adds to the counts of a list.
abbrev CountsAfter : List FlowChange → FlowChange → Type 0
CountsAfter cs c =
    (count_kind flow_opened (cs ++ (c ∷ [])) ≡ count_kind flow_opened cs + marks flow_opened c.kind)
    × (count_kind flow_closed (cs ++ (c ∷ []))
        ≡ count_kind flow_closed cs + marks flow_closed c.kind)
    × (count_kind flow_added (cs ++ (c ∷ [])) ≡ count_kind flow_added cs + marks flow_added c.kind)
    × (count_kind flow_removed (cs ++ (c ∷ []))
        ≡ count_kind flow_removed cs + marks flow_removed c.kind)
    × (length (cs ++ (c ∷ [])) ≡ length cs + 1)

append_counts : (cs : List FlowChange) (c : FlowChange) → CountsAfter cs c
append_counts cs c = (
  count_kind-add flow_opened cs c,
  count_kind-add flow_closed cs c,
  count_kind-add flow_added cs c,
  count_kind-add flow_removed cs c,
  length-append cs (c ∷ []),
)

diff_verdicts-IsCounted :
    (r : DiffReport) (k : Text) (b h : Option Text)
    → IsCounted r
    → IsCounted (diff_verdicts r k b h)
unfolding diff_verdicts diff_both text_beq
diff_verdicts-IsCounted r k none none counted = counted
diff_verdicts-IsCounted r k none (some h) counted =
    ground (arith, append_counts r.changes (flow_change k [] h flow_added))
diff_verdicts-IsCounted r k (some b) none counted =
    ground (arith, append_counts r.changes (flow_change k b [] flow_removed))
diff_verdicts-IsCounted r k (some b) (some h) counted = ground (
  arith,
  append_counts r.changes (flow_change k b h flow_opened),
  append_counts r.changes (flow_change k b h flow_closed),
)

fold-IsCounted :
    (base head : Map Text Text) (r : DiffReport) (ks : List Text)
    → IsCounted r
    → IsCounted (fold (diff_key base head) r ks)
unfolding fold diff_key
fold-IsCounted base head r [] counted = counted
fold-IsCounted base head r (k ∷ ks) counted =
    fold-IsCounted base head (diff_key base head r k) ks
      (diff_verdicts-IsCounted r k (get k base) (get k head) counted)

length-insert_change :
    (c : FlowChange) (cs : List FlowChange) → length (insert_change c cs) ≡ suc (length cs)
unfolding insert_change
length-insert_change c [] = refl
length-insert_change c (d ∷ ds) = ground (arith, length-insert_change c ds)

length-sort_changes : (cs : List FlowChange) → length (sort_changes cs) ≡ length cs
unfolding sort_changes
length-sort_changes [] = refl
length-sort_changes (c ∷ cs) =
    ground (arith, length-sort_changes cs, length-insert_change c (sort_changes cs))

-- In a report of `DiffResponses`, each counter is the number of its changes, and every change is
-- counted: the four counters add up to their number.
pub diff_responses-IsCounted : (base head : Response) → IsCounted (diff_responses base head)
unfolding diff_responses count_kind
diff_responses-IsCounted base head =
    let r =
      fold (diff_key base.matrix head.matrix) (no_diff head) (flow_keys base.matrix head.matrix) in
    let (o, c, a, m, n) =
      fold-IsCounted base.matrix head.matrix (no_diff head) (flow_keys base.matrix head.matrix)
        (refl, refl, refl, refl, refl) in
    (
      o ∙ sym (count_kind-sort_changes flow_opened r.changes),
      c ∙ sym (count_kind-sort_changes flow_closed r.changes),
      a ∙ sym (count_kind-sort_changes flow_added r.changes),
      m ∙ sym (count_kind-sort_changes flow_removed r.changes),
      n ∙ sym (length-sort_changes r.changes),
    )
