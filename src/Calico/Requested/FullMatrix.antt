-- ===== src/Calico/Requested/FullMatrix.antt =====
-- provider/calico/pairs.go: a requested pair has the verdict that it has in the full matrix.
use telepathy.Prelude.{
  ℕ, zero, suc, ◌≡◌, refl, sym, ◌∙◌, inl, inr, Bool, true, false, not, ◌&&◌, Option, none, some,
  List, [], ◌∷◌, map, arith, if◌then◌else◌, Bool-cases, Option-cases, ◌==◌, ==_refl, ℕ_eq, Text,
  text_beq_iff, text_eq, get_elem?, All, fold, contains, Map, get, put, get-put, get-put_self,
  int_eq,
}
use mathlib.Core.Path.{subst}
use telepathy.Net.{Net}
use telepathy.Api.Types.{MatrixPair, Request, flow_key}
use telepathy.Api.FlowKey.{IsArrowFree, flow_key-injective}
use telepathy.Api.Ids.{AreDistinct, All-get_elem?}
use telepathy.Api.Pairs.{pair_beq_iff, pair_eq}
use telepathy.Calico.Store.{PolicyStore, Checker}
use telepathy.Calico.Actors.{Actor, ActorBundle}
use telepathy.Calico.Matrix.{MatrixSink, is_kept}
use telepathy.Calico.Entries.{put_verdict-get, put_verdict-is_kept, fill_matrix-get}
use telepathy.Calico.Eval.{verdict_text, pair_allows, fill_matrix}
use telepathy.Calico.Requested.{actors_by_id, pair_between, by_id, services, fill_matrix_pairs}
use telepathy.Calico.Requested.Uncached.{
  decision_to, pair_decision, put_pair_decision, first_pairs, actors_by_id-id,
}
use telepathy.Calico.Requested.Decisions.{fill_matrix_pairs-first_pairs}

module _ {Ip : Type 0} where
  abbrev added : Map Text (Actor Ip) → List (Actor Ip) → Map Text (Actor Ip)
  added m list = fold (λ n a. put a.id a n) m list

  added-other :
      (list : List (Actor Ip)) (m : Map Text (Actor Ip)) (k : Text)
      → contains (map (λ (x : Actor Ip). x.id) list) k ≡ false
      → get k (added m list) ≡ get k m
  unfolding fold contains
  added-other [] m k h = refl
  added-other (x ∷ list) m k h =
      ground (arith, added-other list (put x.id x m) k, get-put x.id k x m)

  added-here :
      (list : List (Actor Ip)) (m : Map Text (Actor Ip)) (i : ℕ) (a : Actor Ip)
      → AreDistinct (map (λ (x : Actor Ip). x.id) list)
      → get_elem? list i ≡ some a
      → get a.id (added m list) ≡ some a
  unfolding fold
  added-here [] m i a d h = ground arith
  added-here (x ∷ list) m zero a d h =
      let same : x ≡ a = cc in
      let first : get x.id (added (put x.id x m) list) ≡ some x =
        added-other list (put x.id x m) x.id d.0 ∙ get-put_self x.id x m in
      subst (λ y. get y.id (added (put x.id x m) list) ≡ some y) same first
  added-here (x ∷ list) m (suc i) a d h = added-here list (put x.id x m) i a d.1 h

  added-All :
      (Q : Actor Ip → Type 0) (list : List (Actor Ip)) (m : Map Text (Actor Ip)) (k : Text)
      (a : Actor Ip)
      → All Q list
      → ((j : Text) (b : Actor Ip) → get j m ≡ some b → Q b)
      → get k (added m list) ≡ some a
      → Q a
  unfolding fold
  added-All Q [] m k a q h found = h k a found
  added-All Q (x ∷ list) m k a q h found =
      added-All Q list (put x.id x m) k a q.1
        (λ j b e. elim (Bool-cases (x.id == j)) [
          | inl y ↦ let same : x ≡ b = ground (arith, get-put x.id j x m) in subst Q same q.0
          | inr y ↦ h j b (ground (arith, get-put x.id j x m))
        ])
        found

contains-first_pairs :
    (p : MatrixPair) (ps done : List MatrixPair)
    → contains (first_pairs done ps) p ≡ (contains ps p && not (contains done p))
unfolding contains first_pairs
contains-first_pairs p [] done = refl
contains-first_pairs p (q ∷ ps) done = elim (Bool-cases (q == p)) [
  | inl e ↦
      let same = (pair_beq_iff q p).0 e in
      ground (arith, e, same, contains-first_pairs p ps done, contains-first_pairs p ps (q ∷ done))
  | inr e ↦ ground (arith, e, contains-first_pairs p ps done, contains-first_pairs p ps (q ∷ done))
]

module _ ⦃net : Net⦄ ⦃checker : Checker net.Ip⦄ (store : PolicyStore checker.Rule checker.IpSet)
    (req : Request) (actors : ActorBundle net.Ip) (p : MatrixPair) (v : Option Bool) where
  abbrev key : Text
  key = flow_key p.from p.to

  abbrev step : MatrixSink → MatrixPair → MatrixSink
  step = put_pair_decision store req actors

  -- The entry of the pair after its own decision.
  abbrev entry : MatrixSink → Option Text
  entry s = elim v [
    | none ↦ get key s.m
    | some x ↦ if is_kept s p.to then some (verdict_text x) else get key s.m
  ]

  -- No other pair that is decided has the key.
  abbrev IsOwn : Type 0
  IsOwn =
      (q : MatrixPair) (w : Bool)
      → pair_decision store req actors q ≡ some w
      → flow_key q.from q.to ≡ key
      → q ≡ p

  step-is_kept : (s : MatrixSink) (q : MatrixPair) (c : Text) → is_kept (step s q) c ≡ is_kept s c
  unfolding put_pair_decision
  step-is_kept s q c = elim (Option-cases (pair_decision store req actors q)) [
    | inl e ↦ ground (arith, e)
    | inr (w, e) ↦ ground (arith, e, put_verdict-is_kept s q.from q.to (verdict_text w) c)
  ]

  step-own :
      (s : MatrixSink) → pair_decision store req actors p ≡ v → get key (step s p).m ≡ entry s
  unfolding put_pair_decision
  step-own s decided = elim (Option-cases v) [
    | inl e ↦ ground (arith, e, decided)
    | inr (w, e) ↦
        ground (arith, e, decided, put_verdict-get s p.from p.to (verdict_text w) key, ==_refl key)
  ]

  step-other :
      (s : MatrixSink) (q : MatrixPair)
      → IsOwn
      → (q == p) ≡ false
      → get key (step s q).m ≡ get key s.m
  unfolding put_pair_decision
  step-other s q own ne = elim (Option-cases (pair_decision store req actors q)) [
    | inl e ↦ ground (arith, e)
    | inr (w, e) ↦
        let apart : (flow_key q.from q.to == key) ≡ false =
          elim (Bool-cases (flow_key q.from q.to == key)) [
            | inl k ↦
                let same = own q w e ((text_beq_iff (flow_key q.from q.to) key).0 k) in
                ground (arith, (pair_beq_iff q p).1 same)
            | inr k ↦ k
          ] in
        ground (arith, e, apart, put_verdict-get s q.from q.to (verdict_text w) key)
  ]

  entry-step :
      (s : MatrixSink) (q : MatrixPair)
      → IsOwn
      → pair_decision store req actors p ≡ v
      → entry (step s q) ≡ entry s
  entry-step s q own decided = elim (Bool-cases (q == p)) [
    | inl e ↦
        let same = (pair_beq_iff q p).0 e in
        rw same (elim (Option-cases v) [
          | inl n ↦ ground (arith, n, step-own s decided)
          | inr (w, n) ↦ ground (arith, n, step-own s decided, step-is_kept s p p.to)
        ])
    | inr e ↦ elim (Option-cases v) [
      | inl n ↦ ground (arith, n, step-other s q own e)
      | inr (w, n) ↦ ground (arith, n, step-other s q own e, step-is_kept s q p.to)
    ]
  ]

  entries-get :
      (ps : List MatrixPair) (s : MatrixSink)
      → IsOwn
      → pair_decision store req actors p ≡ v
      → get key (fold step s ps).m ≡ (if contains ps p then entry s else get key s.m)
  unfolding fold contains
  entries-get [] s own decided = refl
  entries-get (q ∷ ps) s own decided = elim (Bool-cases (q == p)) [
    | inl e ↦
        let same = (pair_beq_iff q p).0 e in
        let here = subst (λ x. get key (step s x).m ≡ entry s) (sym same) (step-own s decided) in
        ground (arith, e, entries-get ps (step s q) own decided, entry-step s q own decided, here)
    | inr e ↦ ground (
      arith,
      e,
      entries-get ps (step s q) own decided,
      entry-step s q own decided,
      step-other s q own e,
    )
  ]

module _ ⦃net : Net⦄ ⦃checker : Checker net.Ip⦄ (store : PolicyStore checker.Rule checker.IpSet)
    (req : Request) (actors : ActorBundle net.Ip) where
  decided-ends :
      (a b : Actor net.Ip)
      → get a.id (by_id store req actors) ≡ some a
      → get b.id (by_id store req actors) ≡ some b
      → get b.id (services store req actors) ≡ none
      → pair_decision store req actors (pair_between a b)
        ≡ (if a.id == b.id then none else some (pair_allows store req actors a b))
  unfolding pair_decision decision_to
  decided-ends a b ha hb hs = ground (arith, ha, hb, hs)

  decided-from :
      (q : MatrixPair) (w : Bool)
      → All (λ x. IsArrowFree x.id) actors.list
      → pair_decision store req actors q ≡ some w
      → IsArrowFree q.from
  unfolding pair_decision actors_by_id get
  decided-from q w free decided = elim (Option-cases (get q.from (by_id store req actors))) [
    | inl e ↦ ground (arith, e, decided)
    | inr (src, e) ↦
        subst IsArrowFree (actors_by_id-id actors.list q.from src e) (
          added-All (λ x. IsArrowFree x.id) actors.list [] q.from src free (λ j b n. ground arith)
            e)
  ]

  -- With distinct IDs that hold no "->", a requested pair of actors, the second of which is not
  -- named like a service, has after `fillMatrixPairs` the entry that it has after the loop over
  -- every pair, in any sink.
  pub fill_matrix_pairs-fill_matrix :
      (i j : ℕ) (a b : Actor net.Ip) (s : MatrixSink)
      → AreDistinct (map (λ (x : Actor net.Ip). x.id) actors.list)
      → All (λ x. IsArrowFree x.id) actors.list
      → get_elem? actors.list i ≡ some a
      → get_elem? actors.list j ≡ some b
      → get b.id (services store req actors) ≡ none
      → contains req.matrix_pairs (pair_between a b) ≡ true
      → get (flow_key a.id b.id) (fill_matrix_pairs store req actors s).m
        ≡ get (flow_key a.id b.id) (fill_matrix store req actors s).m
  unfolding contains actors_by_id
  fill_matrix_pairs-fill_matrix i j a b s distinct free hi hj hs wanted =
      let p = pair_between a b in
      let v : Option Bool =
        if a.id == b.id then none else some (pair_allows store req actors a b) in
      let decided =
        decided-ends a b (added-here actors.list [] i a distinct hi)
          (added-here actors.list [] j b distinct hj) hs in
      let from_a = All-get_elem? (λ x. IsArrowFree x.id) actors.list i a free hi in
      let own : IsOwn store req actors p v = λ q w h k.
        let (froms, tos) =
          flow_key-injective q.from q.to a.id b.id (decided-from q w free h) from_a k in
        cc in
      let met : contains (first_pairs [] req.matrix_pairs) p ≡ true =
        ground (arith, contains-first_pairs p req.matrix_pairs [], wanted) in
      let pairs =
        entries-get store req actors p v (first_pairs [] req.matrix_pairs) s own decided in
      let full = fill_matrix-get store req actors a b i j distinct free hi hj s in
      rw (fill_matrix_pairs-first_pairs store req actors s) (
        pairs
        ∙ (rw met (elim (Bool-cases (a.id == b.id)) [
          | inl e ↦ ground (arith, e, full)
          | inr e ↦ ground (arith, e, full)
        ])))
