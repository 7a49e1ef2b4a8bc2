-- ===== src/Api/Diff.antt =====
-- api/diff.go: the flows that differ between two responses.
pub mod Changes
pub mod Report
pub mod Order
use telepathy.Prelude.{
  ℕ, zero, suc, ◌+◌, ◌-◌, ◌*◌, ◌/◌, ◌%◌, ◌^◌, ◌≤◌, ◌<◌, ◌≡◌, refl, sym, ap, ◌∙◌, ◌≢◌, ◌↔◌, ◌⊎◌, inl,
  inr, Bool, true, false, not, ◌&&◌, ◌||◌, Option, none, some, List, [], ◌∷◌, ◌++◌, map,
  append_assoc, append-nil, arith, ltb, leb, nat_eq, nat_eq_iff, ltb→lt, lt→ltb, leb→le,
  if◌then◌else◌, Bool-cases, Option-cases, Eq, ◌==◌, ==_refl, ==_ne, ℕ_eq, bool_eq, or_assoc, Text,
  codes, text_beq, text_beq_iff, text_eq, is_empty, to_lower, equal_fold, cut_byte, length,
  get_elem?, length-append, All, All-append, any, any-append, get_elem?-map, fold, fold-append,
  every, Member, Member-append, every-append, contains, is_nil, ◌>>=◌, itoa, quote, text_leb,
  insert_sorted, sort_texts, join, int_itoa, Map, or_zero, get, put, get-put, get-put_self,
  HasDistinctKeys, put-HasDistinctKeys, ℤ, pos, negsuc, int_beq, int_leb, int_beq_iff, int_eq,
}
use telepathy.Api.Types.{Response, allow, deny, flow_key}
use telepathy.Api.FlowKey.{split_flow_key}

abbrev pub flow_opened : Text
flow_opened = codes "opened"

abbrev pub flow_closed : Text
flow_closed = codes "closed"

abbrev pub flow_added : Text
flow_added = codes "added"

abbrev pub flow_removed : Text
flow_removed = codes "removed"

pub record FlowChange : Type 0 where
  pub from : Text
  pub to : Text
  pub base : Text
  pub head : Text
  pub kind : Text

pub record DiffReport : Type 0 where
  pub changes : List FlowChange
  pub opened : ℕ
  pub closed : ℕ
  pub added : ℕ
  pub removed : ℕ
  pub unchanged : ℕ
  pub errors : List Text
  pub warnings : List Text

-- `FlowChange.Flow` and `DiffReport.Changed`.
abbrev pub flow : FlowChange → Text
flow c = flow_key c.from c.to

abbrev pub changed : DiffReport → Bool
changed r = not (is_nil r.changes)

unfoldable pub kind_rank : Text → ℕ
kind_rank kind =
    if kind == flow_opened
    then 0
    else if kind == flow_closed
    then 1
    else if kind == flow_removed
    then 2
    else if kind == flow_added
    then 3
    else 4

-- The keys of a matrix, added to a set.
unfoldable pub add_flow_keys : Map Text Text → Map Text Bool → Map Text Bool
add_flow_keys [] keys = keys
add_flow_keys ((k, v) ∷ rest) keys = add_flow_keys rest (put k true keys)

abbrev pub flow_change : Text → Text → Text → Text → FlowChange
flow_change k base head kind =
    let (from, to) = split_flow_key k in
    record { from = from; to = to; base = base; head = head; kind = kind }

abbrev pub add_change : DiffReport → FlowChange → DiffReport
add_change r c = record r { changes = r.changes ++ (c ∷ []) }

-- The case of a key in both matrices, with its two verdicts.
unfoldable pub diff_both : DiffReport → Text → Text → Text → DiffReport
diff_both r k bv hv =
    if bv == hv
    then record r { unchanged = suc r.unchanged }
    else if bv == deny && hv == allow
    then add_change (record r { opened = suc r.opened }) (flow_change k bv hv flow_opened)
    else add_change (record r { closed = suc r.closed }) (flow_change k bv hv flow_closed)

-- The cases of the switch, by the verdicts that the two matrices have for a key.
unfoldable pub diff_verdicts : DiffReport → Text → Option Text → Option Text → DiffReport
unfolding diff_both
diff_verdicts r k (some bv) (some hv) = diff_both r k bv hv
diff_verdicts r k none (some hv) =
    if hv == allow
    then add_change (record r { added = suc r.added }) (flow_change k [] hv flow_added)
    else r
diff_verdicts r k (some bv) none =
    if bv == allow
    then add_change (record r { removed = suc r.removed }) (flow_change k bv [] flow_removed)
    else r
diff_verdicts r k none none = r

-- The body of the loop over the keys.
unfoldable pub diff_key : Map Text Text → Map Text Text → DiffReport → Text → DiffReport
unfolding diff_verdicts
diff_key base head r k = diff_verdicts r k (get k base) (get k head)

-- The order of the changes, and a stable sort by it.
unfoldable pub change_less : FlowChange → FlowChange → Bool
unfolding kind_rank
change_less c d =
    let ri = kind_rank c.kind in
    let rj = kind_rank d.kind in
    if not (ri == rj) then ltb ri rj else not (text_leb (flow d) (flow c))

unfoldable pub insert_change : FlowChange → List FlowChange → List FlowChange
unfolding change_less
insert_change c [] = c ∷ []
insert_change c (d ∷ ds) =
    let rest = insert_change c ds in if change_less d c then d ∷ rest else c ∷ d ∷ ds

unfoldable pub sort_changes : List FlowChange → List FlowChange
unfolding insert_change
sort_changes [] = []
sort_changes (c ∷ cs) = insert_change c (sort_changes cs)

abbrev pub no_diff : Response → DiffReport
no_diff head = record {
  changes = [];
  opened = 0;
  closed = 0;
  added = 0;
  removed = 0;
  unchanged = 0;
  errors = head.errors;
  warnings = head.warnings;
}

-- The sorted keys of both matrices.
unfoldable pub flow_keys : Map Text Text → Map Text Text → List Text
unfolding add_flow_keys
flow_keys base head = sort_texts (map (λ e. e.0) (add_flow_keys head (add_flow_keys base [])))

unfoldable pub diff_responses : Response → Response → DiffReport
unfolding diff_key flow_keys fold
diff_responses base head =
    let r =
      fold (diff_key base.matrix head.matrix) (no_diff head) (flow_keys base.matrix head.matrix) in
    record r { changes = sort_changes r.changes }
