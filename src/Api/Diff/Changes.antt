-- ===== src/Api/Diff/Changes.antt =====
-- api/diff.go: `DiffResponses` reports exactly the flows whose verdicts change.
use telepathy.Prelude.{
  ◌≡◌, sym, ◌≢◌, ◌↔◌, ◌⊎◌, inl, inr, Bool, true, Option, none, some, List, [], ◌∷◌, map, arith,
  Bool-cases, Option-cases, ℕ_eq, Text, text_beq_iff, text_eq, fold, Member, Member-append,
  insert_sorted, sort_texts, Map, get, put, int_eq,
}
use mathlib.Core.Path.{subst}
use telepathy.Api.Types.{Response, allow, deny}
use telepathy.Api.Diff.{
  FlowChange, DiffReport, flow_opened, flow_closed, flow_added, flow_removed, flow_change,
  add_flow_keys, flow_keys, diff_both, diff_verdicts, diff_key, change_less, insert_change,
  sort_changes, diff_responses, no_diff,
}

-- What a key with the given verdicts changes; a verdict that is missing on one side only counts
-- if the other is "allow".
abbrev pub ChangeOf : Text → Option Text → Option Text → FlowChange → Type 0
ChangeOf k none none c = ⊥
ChangeOf k none (some h) c = (h ≡ allow) × (flow_change k [] allow flow_added ≡ c)
ChangeOf k (some b) none c = (b ≡ allow) × (flow_change k allow [] flow_removed ≡ c)
ChangeOf k (some b) (some h) c =
    ((b ≡ deny) × (h ≡ allow) × (flow_change k deny allow flow_opened ≡ c))
    ⊎ (b ≢ h × ¬ ((b ≡ deny) × (h ≡ allow)) × (flow_change k b h flow_closed ≡ c))

Member-insert_change :
    (c d : FlowChange) (ds : List FlowChange)
    → Member c (insert_change d ds) ↔ ((d ≡ c) ⊎ Member c ds)
unfolding insert_change
Member-insert_change c d [] = ground arith
Member-insert_change c d (e ∷ ds) = elim (Bool-cases (change_less e d)) [
  | inl h ↦ rw h (ground (arith, Member-insert_change c d ds))
  | inr h ↦ rw h (ground arith)
]

Member-sort_changes :
    (c : FlowChange) (cs : List FlowChange) → Member c (sort_changes cs) ↔ Member c cs
unfolding sort_changes
Member-sort_changes c [] = ground arith
Member-sort_changes c (d ∷ cs) =
    ground (arith, Member-sort_changes c cs, Member-insert_change c d (sort_changes cs))

diff_both-changes :
    (r : DiffReport) (k b h : Text) (c : FlowChange)
    → Member c (diff_both r k b h).changes ↔ (Member c r.changes ⊎ ChangeOf k (some b) (some h) c)
unfolding diff_both
diff_both-changes r k b h c = ground (
  arith,
  text_beq_iff b h,
  text_beq_iff b deny,
  text_beq_iff h allow,
  Member-append c r.changes (flow_change k b h flow_opened ∷ []),
  Member-append c r.changes (flow_change k b h flow_closed ∷ []),
)

diff_verdicts-changes :
    (r : DiffReport) (k : Text) (b h : Option Text) (c : FlowChange)
    → Member c (diff_verdicts r k b h).changes ↔ (Member c r.changes ⊎ ChangeOf k b h c)
unfolding diff_verdicts
diff_verdicts-changes r k none none c = ground arith
diff_verdicts-changes r k none (some h) c =
    ground
      (arith, text_beq_iff h allow, Member-append c r.changes (flow_change k [] h flow_added ∷ []))
diff_verdicts-changes r k (some b) none c =
    ground (
      arith,
      text_beq_iff b allow,
      Member-append c r.changes (flow_change k b [] flow_removed ∷ []),
    )
diff_verdicts-changes r k (some b) (some h) c = diff_both-changes r k b h c

-- Some key of a list changes.
SomeChange : Map Text Text → Map Text Text → List Text → FlowChange → Type 0
SomeChange base head [] c = ⊥
SomeChange base head (k ∷ ks) c = ChangeOf k (get k base) (get k head) c ⊎ SomeChange base head ks c

fold-changes :
    (base head : Map Text Text) (r : DiffReport) (ks : List Text) (c : FlowChange)
    → Member c (fold (diff_key base head) r ks).changes
      ↔ (Member c r.changes ⊎ SomeChange base head ks c)
unfolding fold SomeChange diff_key
fold-changes base head r [] c = ground arith
fold-changes base head r (k ∷ ks) c = ground (
  arith,
  fold-changes base head (diff_key base head r k) ks c,
  diff_verdicts-changes r k (get k base) (get k head) c,
)

SomeChange-key :
    (base head : Map Text Text) (ks : List Text) (c : FlowChange)
    → SomeChange base head ks c
    → (k : Text) × ChangeOf k (get k base) (get k head) c
unfolding SomeChange
SomeChange-key base head [] c h = elim h [ ]
SomeChange-key base head (k ∷ ks) c (inl h) = (k, h)
SomeChange-key base head (k ∷ ks) c (inr h) = SomeChange-key base head ks c h

key-SomeChange :
    (base head : Map Text Text) (ks : List Text) (c : FlowChange) (k : Text)
    → Member k ks
    → ChangeOf k (get k base) (get k head) c
    → SomeChange base head ks c
unfolding SomeChange
key-SomeChange base head [] c k m h = elim m [ ]
key-SomeChange base head (j ∷ ks) c k (inl e) h =
    inl (subst (λ i. ChangeOf i (get i base) (get i head) c) (sym e) h)
key-SomeChange base head (j ∷ ks) c k (inr m) h = inr (key-SomeChange base head ks c k m h)

-- Every key of the two matrices is visited.
abbrev keys_of : {V : Type 0} → Map Text V → List Text
keys_of m = map (λ e. e.0) m

Member-insert_sorted :
    (x k : Text) (ks : List Text) → Member x (insert_sorted k ks) ↔ ((k ≡ x) ⊎ Member x ks)
unfolding insert_sorted
Member-insert_sorted x k [] = ground arith
Member-insert_sorted x k (j ∷ ks) = ground (arith, Member-insert_sorted x k ks)

Member-sort_texts : (x : Text) (ks : List Text) → Member x (sort_texts ks) ↔ Member x ks
unfolding sort_texts
Member-sort_texts x [] = ground arith
Member-sort_texts x (k ∷ ks) =
    ground (arith, Member-sort_texts x ks, Member-insert_sorted x k (sort_texts ks))

Member-put :
    (x k : Text) (v : Bool) (m : Map Text Bool)
    → Member x (keys_of (put k v m)) ↔ ((k ≡ x) ⊎ Member x (keys_of m))
unfolding put
Member-put x k v [] = ground arith
Member-put x k v (old ∷ rest) = ground (arith, Member-put x k v rest, text_beq_iff old.0 k)

Member-add_flow_keys :
    (x : Text) (m : Map Text Text) (keys : Map Text Bool)
    → Member x (keys_of (add_flow_keys m keys)) ↔ (Member x (keys_of m) ⊎ Member x (keys_of keys))
unfolding add_flow_keys
Member-add_flow_keys x [] keys = ground arith
Member-add_flow_keys x ((k, v) ∷ rest) keys =
    ground (arith, Member-add_flow_keys x rest (put k true keys), Member-put x k true keys)

get-Member : (k : Text) (m : Map Text Text) (v : Text) → get k m ≡ some v → Member k (keys_of m)
unfolding get
get-Member k [] v h = cc
get-Member k ((j, w) ∷ m) v h = ground (arith, get-Member k m v, text_beq_iff j k)

Member-flow_keys :
    (k : Text) (base head : Map Text Text)
    → Member k (keys_of base) ⊎ Member k (keys_of head)
    → Member k (flow_keys base head)
unfolding flow_keys
Member-flow_keys k base head h = ground (
  arith,
  Member-sort_texts k (keys_of (add_flow_keys head (add_flow_keys base []))),
  Member-add_flow_keys k head (add_flow_keys base []),
  Member-add_flow_keys k base [],
)

ChangeOf-Member :
    (base head : Map Text Text) (k : Text) (c : FlowChange)
    → ChangeOf k (get k base) (get k head) c
    → Member k (keys_of base) ⊎ Member k (keys_of head)
ChangeOf-Member base head k c h = elim (Option-cases (get k base)) [
  | inr (v, e) ↦ inl (get-Member k base v e)
  | inl e ↦ elim (Option-cases (get k head)) [
    | inr (v, f) ↦ inr (get-Member k head v f)
    | inl f ↦ elim (rw (e, f) at h) [ ]
  ]
]

-- The changes that `DiffResponses` reports are exactly those of the keys of the two matrices: a
-- flow whose verdict goes from "deny" to "allow" is opened, one that differs otherwise is closed,
-- one that is "allow" and missing in the head is removed, one that is missing in the base and
-- "allow" is added, and nothing else is reported.
pub diff_responses-changes :
    (base head : Response) (c : FlowChange)
    → Member c (diff_responses base head).changes
      ↔ ((k : Text) × ChangeOf k (get k base.matrix) (get k head.matrix) c)
unfolding diff_responses
diff_responses-changes base head c =
    let ks = flow_keys base.matrix head.matrix in
    let folded = fold (diff_key base.matrix head.matrix) (no_diff head) ks in
    let sorted = Member-sort_changes c folded.changes in
    let found = fold-changes base.matrix head.matrix (no_diff head) ks c in
    (
      λ m. elim (found.0 (sorted.0 m)) [
        | inl none_yet ↦ elim none_yet [ ]
        | inr h ↦ SomeChange-key base.matrix head.matrix ks c h
      ],
      λ (k, h). sorted.1 (
          found.1 (
            inr (
              key-SomeChange base.matrix head.matrix ks c k
                (Member-flow_keys k base.matrix head.matrix
                  (ChangeOf-Member base.matrix head.matrix k c h))
                h))),
    )
