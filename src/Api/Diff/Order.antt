-- ===== src/Api/Diff/Order.antt =====
-- api/diff.go: the changes of a report stand in the order of their kinds, then of their flows.
use telepathy.Prelude.{
  ℕ, ◌<◌, ◌≡◌, refl, ◌⊎◌, inl, inr, true, false, ◌&&◌, Option, none, some, List, [], ◌∷◌, ◌++◌,
  arith, Bool-cases, ◌==◌, ℕ_eq, Text, codes, text_beq, text_eq, get_elem?, All, All-append,
  All-mono, All-both, fold, text_leb, get, int_eq,
}
use telepathy.Api.Types.{Response, allow, deny}
use telepathy.Api.Diff.{
  FlowChange, DiffReport, flow, flow_change, flow_opened, flow_closed, flow_removed, flow_added,
  kind_rank, diff_both, diff_verdicts, diff_key, change_less, insert_change, sort_changes,
  flow_keys, no_diff, diff_responses,
}

-- The kinds in the order of a report: what opens first, what appears last.
abbrev pub kinds_in_order : List Text
kinds_in_order = codes "opened" ∷ codes "closed" ∷ codes "removed" ∷ codes "added" ∷ []

-- A change stands before another: its kind is earlier in that list, or the kinds have one place
-- and its flow is not after the other's as a text.
abbrev pub StandsBefore : FlowChange → FlowChange → Type 0
StandsBefore c d =
    (i : ℕ) × (j : ℕ) × (get_elem? kinds_in_order i ≡ some c.kind)
    × (get_elem? kinds_in_order j ≡ some d.kind)
    × ((i < j) ⊎ ((i ≡ j) × (text_leb (flow c) (flow d) ≡ true)))

-- Every change stands before all later ones.
abbrev pub IsOrdered : List FlowChange → Type 0
IsOrdered [] = Unit
IsOrdered (c ∷ cs) = All (StandsBefore c) cs × IsOrdered cs

text_leb_total : (s t : Text) → text_leb s t ≡ false → text_leb t s ≡ true
unfolding text_leb
text_leb_total [] t h = cc
text_leb_total (a ∷ s) [] h = refl
text_leb_total (a ∷ s) (b ∷ t) h = ground (arith, text_leb_total s t)

text_leb_trans : (s t u : Text) → text_leb s t ≡ true → text_leb t u ≡ true → text_leb s u ≡ true
unfolding text_leb
text_leb_trans [] t u h k = refl
text_leb_trans (a ∷ s) [] u h k = ground arith
text_leb_trans (a ∷ s) (b ∷ t) [] h k = ground arith
text_leb_trans (a ∷ s) (b ∷ t) (c ∷ u) h k = ground (arith, text_leb_trans s t u)

-- The comparison of the code, by ranks.
abbrev NotAfter : FlowChange → FlowChange → Type 0
NotAfter c d =
    (kind_rank c.kind < kind_rank d.kind)
    ⊎ ((kind_rank c.kind ≡ kind_rank d.kind) × (text_leb (flow c) (flow d) ≡ true))

change_less-NotAfter : (c d : FlowChange) → change_less d c ≡ false → NotAfter c d
unfolding change_less
change_less-NotAfter c d h = ground arith

change_less-NotAfter_before : (c d : FlowChange) → change_less d c ≡ true → NotAfter d c
unfolding change_less
change_less-NotAfter_before c d h = ground (arith, text_leb_total (flow c) (flow d))

NotAfter-trans : (c d e : FlowChange) → NotAfter c d → NotAfter d e → NotAfter c e
NotAfter-trans c d e h k = ground (arith, text_leb_trans (flow c) (flow d) (flow e))

abbrev IsSorted : List FlowChange → Type 0
IsSorted [] = Unit
IsSorted (c ∷ cs) = All (NotAfter c) cs × IsSorted cs

insert_change-All :
    (Q : FlowChange → Type 0) (c : FlowChange) (ds : List FlowChange)
    → Q c
    → All Q ds
    → All Q (insert_change c ds)
unfolding insert_change
insert_change-All Q c [] h o = (h, tt)
insert_change-All Q c (d ∷ ds) h o = elim (Bool-cases (change_less d c)) [
  | inl k ↦ rw k (o.0, insert_change-All Q c ds h o.1)
  | inr k ↦ rw k (h, o)
]

insert_change-IsSorted :
    (c : FlowChange) (ds : List FlowChange) → IsSorted ds → IsSorted (insert_change c ds)
unfolding insert_change
insert_change-IsSorted c [] o = (tt, tt)
insert_change-IsSorted c (d ∷ ds) o = elim (Bool-cases (change_less d c)) [
  | inl k ↦ rw k (
    insert_change-All (NotAfter d) c ds (change_less-NotAfter_before c d k) o.0,
    insert_change-IsSorted c ds o.1,
  )
  | inr k ↦
      let first = change_less-NotAfter c d k in
      rw k ((first, All-mono ds (NotAfter d) (NotAfter c) (λ e. NotAfter-trans c d e first) o.0), o)
]

sort_changes-IsSorted : (cs : List FlowChange) → IsSorted (sort_changes cs)
unfolding sort_changes
sort_changes-IsSorted [] = tt
sort_changes-IsSorted (c ∷ cs) =
    insert_change-IsSorted c (sort_changes cs) (sort_changes-IsSorted cs)

sort_changes-All :
    (Q : FlowChange → Type 0) (cs : List FlowChange) → All Q cs → All Q (sort_changes cs)
unfolding sort_changes
sort_changes-All Q [] h = tt
sort_changes-All Q (c ∷ cs) h =
    insert_change-All Q c (sort_changes cs) h.0 (sort_changes-All Q cs h.1)

-- The kind of a change is the one at its rank.
abbrev HasPlace : FlowChange → Type 0
HasPlace c = get_elem? kinds_in_order (kind_rank c.kind) ≡ some c.kind

abbrev HasPlaces : DiffReport → Type 0
HasPlaces r = All HasPlace r.changes

snoc-HasPlace :
    (cs : List FlowChange) (c : FlowChange)
    → All HasPlace cs
    → HasPlace c
    → All HasPlace (cs ++ (c ∷ []))
snoc-HasPlace cs c h k = All-append cs (c ∷ []) HasPlace h (k, tt)

diff_verdicts-HasPlaces :
    (r : DiffReport) (k : Text) (base head : Option Text)
    → HasPlaces r
    → HasPlaces (diff_verdicts r k base head)
unfolding diff_verdicts diff_both kind_rank text_beq
diff_verdicts-HasPlaces r k none none h = h
diff_verdicts-HasPlaces r k none (some hv) h = elim (Bool-cases (hv == allow)) [
  | inl e ↦ rw e (snoc-HasPlace r.changes (flow_change k [] hv flow_added) h refl)
  | inr e ↦ rw e h
]
diff_verdicts-HasPlaces r k (some bv) none h = elim (Bool-cases (bv == allow)) [
  | inl e ↦ rw e (snoc-HasPlace r.changes (flow_change k bv [] flow_removed) h refl)
  | inr e ↦ rw e h
]
diff_verdicts-HasPlaces r k (some bv) (some hv) h = elim (Bool-cases (bv == hv)) [
  | inl e ↦ rw e h
  | inr e ↦ elim (Bool-cases (bv == deny && hv == allow)) [
    | inl o ↦ rw (e, o) (snoc-HasPlace r.changes (flow_change k bv hv flow_opened) h refl)
    | inr o ↦ rw (e, o) (snoc-HasPlace r.changes (flow_change k bv hv flow_closed) h refl)
  ]
]

fold-HasPlaces :
    (base head : Response) (ks : List Text) (r : DiffReport)
    → HasPlaces r
    → HasPlaces (fold (diff_key base.matrix head.matrix) r ks)
unfolding fold diff_key
fold-HasPlaces base head [] r h = h
fold-HasPlaces base head (k ∷ ks) r h =
    fold-HasPlaces base head ks (diff_key base.matrix head.matrix r k)
      (diff_verdicts-HasPlaces r k (get k base.matrix) (get k head.matrix) h)

IsSorted-IsOrdered : (cs : List FlowChange) → All HasPlace cs → IsSorted cs → IsOrdered cs
IsSorted-IsOrdered [] h o = tt
IsSorted-IsOrdered (c ∷ cs) h o = (
  All-both cs HasPlace (NotAfter c) (StandsBefore c)
      (λ d place after. (kind_rank c.kind, kind_rank d.kind, h.0, place, after)) h.1 o.0,
  IsSorted-IsOrdered cs h.1 o.1,
)

-- In a report of `DiffResponses` every change stands before all later ones: changes that open come
-- first, then those that close, those removed and those added, and within a kind the texts of the
-- flows ascend.
pub diff_responses-IsOrdered : (base head : Response) → IsOrdered (diff_responses base head).changes
unfolding diff_responses
diff_responses-IsOrdered base head =
    let r =
      fold (diff_key base.matrix head.matrix) (no_diff head) (flow_keys base.matrix head.matrix) in
    IsSorted-IsOrdered (sort_changes r.changes)
      (sort_changes-All HasPlace r.changes
        (fold-HasPlaces base head (flow_keys base.matrix head.matrix) (no_diff head) tt))
      (sort_changes-IsSorted r.changes)
