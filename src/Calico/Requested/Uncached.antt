-- ===== src/Calico/Requested/Uncached.antt =====
-- provider/calico/pairs.go: no cache of `fillMatrixPairs` is ever observed.
use telepathy.Prelude.{
  ◌≡◌, refl, sym, ap, ◌∙◌, inl, inr, Bool, true, false, ◌||◌, Option, none, some, List, [], ◌∷◌,
  arith, if◌then◌else◌, Bool-cases, Option-cases, ◌==◌, ℕ_eq, Text, text_beq_iff, text_eq, any,
  fold, contains, ◌>>=◌, Map, get, put, get-put, int_eq,
}
use mathlib.Core.Path.{subst}
use telepathy.Net.{Net}
use telepathy.Api.Types.{MatrixPair, Request, ServiceInput}
use telepathy.Api.Pairs.{pair_beq_iff, pair_eq}
use telepathy.Calico.Store.{PolicyStore, Checker}
use telepathy.Calico.Actors.{Actor, ActorBundle}
use telepathy.Calico.Matrix.{MatrixSink, put_verdict}
use telepathy.Calico.Services.{ip_to_id, service_backend_ids}
use telepathy.Calico.Eval.{verdict_text, pair_allows}
use telepathy.Calico.Requested.{
  actors_by_id, pair_between, by_id, services, cached_allows, search_backends,
}

module _ ⦃net : Net⦄ ⦃checker : Checker net.Ip⦄ (store : PolicyStore checker.Rule checker.IpSet)
    (req : Request) (actors : ActorBundle net.Ip) where
  -- A source reaches an actor by its ID, which may be missing, or is that actor.
  unfoldable pub reaches_id : Actor net.Ip → Text → Bool
  reaches_id src id = id == src.id || elim (get id (by_id store req actors)) [
    | none ↦ false
    | some dst ↦ pair_allows store req actors src dst
  ]

  -- The verdict of a pair: `none` if the pair has no entry. A service is reached if a backend is.
  unfoldable pub decision_to :
      Actor net.Ip → Option ServiceInput → Option (Actor net.Ip) → Option Bool
  unfolding reaches_id
  decision_to src (some svc) dst =
      some (any (reaches_id src) (service_backend_ids svc req (ip_to_id req.endpoints [])))
  decision_to src none none = none
  decision_to src none (some dst) =
      if src.id == dst.id then none else some (pair_allows store req actors src dst)

  unfoldable pub pair_decision : MatrixPair → Option Bool
  pair_decision p = get p.from (by_id store req actors) >>= λ src.
      decision_to src (get p.to (services store req actors)) (get p.to (by_id store req actors))

  unfoldable pub put_pair_decision : MatrixSink → MatrixPair → MatrixSink
  put_pair_decision sink p = elim (pair_decision p) [
    | none ↦ sink
    | some allow ↦ put_verdict sink p.from p.to (verdict_text allow)
  ]

-- The pairs at their first occurrences, after those in a list.
unfoldable pub first_pairs : List MatrixPair → List MatrixPair → List MatrixPair
first_pairs done [] = []
first_pairs done (p ∷ ps) =
    if contains done p then first_pairs done ps else p ∷ first_pairs (p ∷ done) ps

put_all-id :
    {Ip : Type 0} (list : List (Actor Ip)) (m : Map Text (Actor Ip))
    → ((k : Text) (a : Actor Ip) → get k m ≡ some a → a.id ≡ k)
    → (k : Text) (a : Actor Ip) → get k (fold (λ n x. put x.id x n) m list) ≡ some a
    → a.id ≡ k
unfolding fold
put_all-id [] m h k a found = h k a found
put_all-id (x ∷ list) m h k a found =
    put_all-id list (put x.id x m)
      (λ j b e. elim (Bool-cases (x.id == j)) [
        | inl q ↦ ground (arith, get-put x.id j x m, text_beq_iff x.id j)
        | inr q ↦ h j b (ground (arith, get-put x.id j x m))
      ])
      k a found

pub actors_by_id-id :
    {Ip : Type 0} (list : List (Actor Ip)) (k : Text) (a : Actor Ip)
    → get k (actors_by_id list) ≡ some a
    → a.id ≡ k
unfolding actors_by_id get
actors_by_id-id list k a found = put_all-id list [] (λ j b e. cc) k a found

module _ ⦃net : Net⦄ ⦃checker : Checker net.Ip⦄ (store : PolicyStore checker.Rule checker.IpSet)
    (req : Request) (actors : ActorBundle net.Ip) where
  abbrev pub Known : Actor net.Ip → Type 0
  Known a = get a.id (by_id store req actors) ≡ some a

  pub found-Known :
      (k : Text) (a : Actor net.Ip) → get k (by_id store req actors) ≡ some a → Known a
  found-Known k a e =
      ap (λ j. get j (by_id store req actors)) (actors_by_id-id actors.list k a e) ∙ e

  -- What is in the cache is the verdict of the actors with those IDs.
  abbrev pub IsSound : Map MatrixPair Bool → Type 0
  IsSound cache =
      (src dst : Actor net.Ip) (v : Bool)
      → Known src
      → Known dst
      → get (pair_between src dst) cache ≡ some v
      → pair_allows store req actors src dst ≡ v

  put-IsSound :
      (src dst : Actor net.Ip) (cache : Map MatrixPair Bool)
      → Known src
      → Known dst
      → IsSound cache
      → IsSound (put (pair_between src dst) (pair_allows store req actors src dst) cache)
  put-IsSound src dst cache hs hd sound a b v ha hb found =
      let key = pair_between src dst in
      let allow = pair_allows store req actors src dst in
      elim (Bool-cases (key == pair_between a b)) [
        | inl e ↦
            let same : key ≡ pair_between a b = (pair_beq_iff key (pair_between a b)).0 e in
            let froms : src.id ≡ a.id = ap (λ (p : MatrixPair). p.from) same in
            let tos : dst.id ≡ b.id = ap (λ (p : MatrixPair). p.to) same in
            let src_a : src ≡ a = cc in
            let dst_b : dst ≡ b = cc in
            let stored : allow ≡ v = ground (arith, get-put key (pair_between a b) allow cache) in
            subst (λ x. pair_allows store req actors x b ≡ v) src_a
              (subst (λ x. pair_allows store req actors src x ≡ v) dst_b stored)
        | inr e ↦ sound a b v ha hb (ground (arith, get-put key (pair_between a b) allow cache))
      ]

  abbrev pub Answers : Bool → Bool × Map MatrixPair Bool → Type 0
  Answers v r = (r.0 ≡ v) × IsSound r.1

  pub cached_allows-Answers :
      (src dst : Actor net.Ip) (cache : Map MatrixPair Bool)
      → Known src
      → Known dst
      → IsSound cache
      → Answers
          (pair_allows store req actors src dst)
          (cached_allows store req actors src dst cache)
  unfolding cached_allows
  cached_allows-Answers src dst cache hs hd sound =
      let key = pair_between src dst in
      let allow = pair_allows store req actors src dst in
      elim (Option-cases (get key cache)) [
        | inl e ↦
            let miss : cached_allows store req actors src dst cache ≡ (allow, put key allow cache) =
              ground (arith, e) in
            subst (Answers allow) (sym miss) (refl, put-IsSound src dst cache hs hd sound)
        | inr (v, e) ↦
            let hit : cached_allows store req actors src dst cache ≡ (v, cache) =
              ground (arith, e) in
            subst (Answers allow) (sym hit) (sym (sound src dst v hs hd e), sound)
      ]

  pub search_backends-Answers :
      (src : Actor net.Ip) (ids : List Text) (cache : Map MatrixPair Bool)
      → Known src
      → IsSound cache
      → Answers
          (any (reaches_id store req actors src) ids)
          (search_backends store req actors src ids cache)
  unfolding search_backends any reaches_id
  search_backends-Answers src [] cache hs sound = (refl, sound)
  search_backends-Answers src (id ∷ ids) cache hs sound =
      let goal = any (reaches_id store req actors src) (id ∷ ids) in
      let search = search_backends store req actors src in
      elim (Bool-cases (id == src.id)) [
        | inl e ↦
            let own : search (id ∷ ids) cache ≡ (true, cache) = ground (arith, e) in
            let met : true ≡ goal = ground (arith, e) in subst (Answers goal) (sym own) (met, sound)
        | inr e ↦ elim (Option-cases (get id (by_id store req actors))) [
          | inl n ↦
              let skip : search (id ∷ ids) cache ≡ search ids cache = ground (arith, e, n) in
              let same : any (reaches_id store req actors src) ids ≡ goal = ground (arith, e, n) in
              subst (Answers goal) (sym skip) (
                subst (λ v. Answers v (search ids cache)) same
                  (search_backends-Answers src ids cache hs sound))
          | inr (dst, n) ↦
              let known = found-Known id dst n in
              let (answer, kept) = cached_allows-Answers src dst cache hs known sound in
              let r = cached_allows store req actors src dst cache in
              let allow = pair_allows store req actors src dst in
              elim (Bool-cases allow) [
                | inl y ↦
                    let found : search (id ∷ ids) cache ≡ (true, r.1) =
                      ground (arith, e, n, answer, y) in
                    let met : true ≡ goal = ground (arith, e, n, y) in
                    subst (Answers goal) (sym found) (met, kept)
                | inr y ↦
                    let later : search (id ∷ ids) cache ≡ search ids r.1 =
                      ground (arith, e, n, answer, y) in
                    let same : any (reaches_id store req actors src) ids ≡ goal =
                      ground (arith, e, n, y) in
                    subst (Answers goal) (sym later) (
                      subst (λ v. Answers v (search ids r.1)) same
                        (search_backends-Answers src ids r.1 hs kept))
              ]
        ]
      ]
