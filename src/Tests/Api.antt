-- ===== src/Tests/Api.antt =====
-- api: the diff of two responses on small matrices.
use telepathy.Prelude.{
  ◌≡◌, refl, ◌↔◌, List, [], ◌∷◌, ◌++◌, ℕ_eq, Text, codes, text_beq, text_eq, fold, Member, text_leb,
  insert_sorted, sort_texts, Map, get, put, int_eq,
}
use telepathy.Api.Types.{Response, allow, deny, flow_key}
use telepathy.Api.FlowKey.{find_arrow, split_flow_key}
use telepathy.Api.Diff.{
  FlowChange, flow_opened, flow_change, change_less, diff_both, diff_verdicts, diff_key,
  insert_change, sort_changes, kind_rank, add_flow_keys, flow_keys, diff_responses,
}
use telepathy.Api.Diff.Changes.{ChangeOf, diff_responses-changes}
use telepathy.Api.Diff.Report.{IsCounted, diff_responses-IsCounted}
use telepathy.Api.Diff.Order.{IsOrdered, diff_responses-IsOrdered}

abbrev response : Map Text Text → Response
response m = record { matrix = m; errors = []; warnings = []; actors = [] }

abbrev base : Response
base = response (
    (codes "b->c", allow)
    ∷ (codes "a->b", deny)
    ∷ (codes "a->c", allow)
    ∷ (codes "c->a", allow)
    ∷ (codes "c->b", allow)
    ∷ [])

abbrev head : Response
head = response (
    (codes "a->b", allow)
    ∷ (codes "b->c", deny)
    ∷ (codes "a->c", allow)
    ∷ (codes "d->a", allow)
    ∷ (codes "c->b", deny)
    ∷ [])

kinds : List FlowChange → List Text
kinds [] = []
kinds (c ∷ cs) = (c.kind ++ codes " " ++ flow_key c.from c.to) ∷ kinds cs

base_head_kinds :
    kinds (diff_responses base head).changes
    ≡ codes "opened a->b"
      ∷ codes "closed b->c"
      ∷ codes "closed c->b"
      ∷ codes "removed c->a"
      ∷ codes "added d->a"
      ∷ []
unfolding kinds diff_responses fold diff_key diff_verdicts diff_both flow_keys add_flow_keys
    sort_texts insert_sorted text_leb sort_changes insert_change change_less kind_rank get put
    text_beq split_flow_key find_arrow flow_key
base_head_kinds = refl

diff_responses-changes_example :
    Member (flow_change (codes "a->b") deny allow flow_opened) (diff_responses base head).changes
    ↔ ((k : Text) × ChangeOf k
          (get k base.matrix)
          (get k head.matrix)
          (flow_change (codes "a->b") deny allow flow_opened))
diff_responses-changes_example =
    diff_responses-changes base head (flow_change (codes "a->b") deny allow flow_opened)

diff_responses-IsCounted_example : IsCounted (diff_responses base head)
diff_responses-IsCounted_example = diff_responses-IsCounted base head

diff_responses-IsOrdered_example : IsOrdered (diff_responses base head).changes
diff_responses-IsOrdered_example = diff_responses-IsOrdered base head
