-- ===== src/Calico/Entries.antt =====
-- What the per-pair loop of provider/calico/eval.go's `Evaluate` leaves in the matrix.
use telepathy.Prelude.{
  ℕ, ◌≡◌, refl, ap, ◌∙◌, inl, inr, Bool, true, not, ◌&&◌, Option, none, some, List, [], ◌∷◌, map,
  arith, if◌then◌else◌, Bool-cases, ◌==◌, ==_refl, ℕ_eq, Text, text_beq_iff, text_eq, get_elem?,
  All, any, every, Map, get, get-put, int_eq,
}
use telepathy.Net.{Net}
use telepathy.Api.Types.{Request, flow_key}
use telepathy.Api.FlowKey.{IsArrowFree, flow_key-injective}
use telepathy.Api.Ids.{AreDistinct, index_of_id, All-get_elem?, get_elem?-All, any-get_elem?}
use telepathy.Calico.Store.{PolicyStore, Checker}
use telepathy.Calico.Actors.{Actor, ActorBundle}
use telepathy.Calico.Matrix.{MatrixSink, new_matrix_sink, is_kept, put_verdict}
use telepathy.Calico.Flow.{make_flow, staged_scope}
use telepathy.Calico.Hooks.{hooks, permits, eval_flow-hooks}
use telepathy.Calico.Eval.{verdict_text, pair_allows, pair_step, pair_row, pair_rows, fill_matrix}

-- Writing an entry changes neither the writer's presence nor the columns kept.
pub put_verdict-is_kept :
    (s : MatrixSink) (src dst v x : Text) → is_kept (put_verdict s src dst v) x ≡ is_kept s x
unfolding put_verdict
put_verdict-is_kept s src dst v x = ground arith

pub put_verdict-get :
    (s : MatrixSink) (src dst v k : Text)
    → get k (put_verdict s src dst v).m
      ≡ (if is_kept s dst && (flow_key src dst == k) then some v else get k s.m)
unfolding put_verdict
put_verdict-get s src dst v k = ground (arith, get-put (flow_key src dst) k v s.m)

module _ ⦃net : Net⦄ ⦃checker : Checker net.Ip⦄ (store : PolicyStore checker.Rule checker.IpSet)
    (req : Request) (actors : ActorBundle net.Ip) (a b : Actor net.Ip) where
  abbrev key : Text
  key = flow_key a.id b.id

  abbrev found : Text
  found = verdict_text (pair_allows store req actors a b)

  -- Only the two actors have their key.
  abbrev Owns : Actor net.Ip → Actor net.Ip → Type 0
  Owns src dst = flow_key src.id dst.id ≡ key → (src ≡ a) × (dst ≡ b)

  -- The entry after a loop that meets the pair or not.
  abbrev entry_after : Bool → MatrixSink → Option Text
  entry_after met s =
      if met && (not (a.id == b.id) && is_kept s b.id) then some found else get key s.m

  abbrev meets : Actor net.Ip → Actor net.Ip → Bool
  meets src dst = flow_key src.id dst.id == key

  pair_step-found :
      (s : MatrixSink) → get key (pair_step store req actors a b s).m ≡ entry_after true s
  pair_step-found s = ground (arith, put_verdict-get s a.id b.id found key, ==_refl key)

  pair_step-get :
      (src dst : Actor net.Ip) (s : MatrixSink)
      → Owns src dst
      → get key (pair_step store req actors src dst s).m ≡ entry_after (meets src dst) s
  pair_step-get src dst s own = elim (Bool-cases (meets src dst)) [
    | inl e ↦
        let (p, q) = own ((text_beq_iff (flow_key src.id dst.id) key).0 e) in
        rw (e, p, q) (pair_step-found s)
    | inr e ↦ ground (
      arith,
      put_verdict-get s src.id dst.id (verdict_text (pair_allows store req actors src dst)) key,
    )
  ]

  pair_step-is_kept :
      (src dst : Actor net.Ip) (s : MatrixSink) (x : Text)
      → is_kept (pair_step store req actors src dst s) x ≡ is_kept s x
  pair_step-is_kept src dst s x = elim (Bool-cases (src.id == dst.id)) [
    | inl e ↦ rw e refl
    | inr e ↦ rw e (
        put_verdict-is_kept s src.id dst.id (verdict_text (pair_allows store req actors src dst)) x)
  ]

  pair_row-get :
      (src : Actor net.Ip) (cols : List (Actor net.Ip)) (s : MatrixSink)
      → All (Owns src) cols
      → (get key (pair_row store req actors src cols s).m ≡ entry_after (any (meets src) cols) s)
        × (is_kept (pair_row store req actors src cols s) b.id ≡ is_kept s b.id)
  unfolding pair_row any
  pair_row-get src [] s own = (refl, refl)
  pair_row-get src (dst ∷ rest) s own =
      let next = pair_step store req actors src dst s in
      ground (
        arith,
        pair_row-get src rest next own.1,
        pair_step-get src dst s own.0,
        pair_step-is_kept src dst s b.id,
      )

  pair_rows-get :
      (rows cols : List (Actor net.Ip)) (s : MatrixSink)
      → All (λ src. All (Owns src) cols) rows
      → get key (pair_rows store req actors rows cols s).m
        ≡ entry_after (any (λ src. any (meets src) cols) rows) s
  unfolding pair_rows any
  pair_rows-get [] cols s own = refl
  pair_rows-get (src ∷ rest) cols s own =
      let next = pair_row store req actors src cols s in
      ground (arith, pair_rows-get rest cols next own.1, pair_row-get src cols s own.0)

  pub fill_matrix-get :
      (i j : ℕ)
      → AreDistinct (map (λ (x : Actor net.Ip). x.id) actors.list)
      → All (λ x. IsArrowFree x.id) actors.list
      → get_elem? actors.list i ≡ some a
      → get_elem? actors.list j ≡ some b
      → (s : MatrixSink) → get key (fill_matrix store req actors s).m ≡ entry_after true s
  unfolding fill_matrix
  fill_matrix-get i j distinct free hi hj s =
      let met =
        any-get_elem? (λ src. any (meets src) actors.list) actors.list i a hi
          (any-get_elem? (meets a) actors.list j b hj (==_refl key)) in
      rw met at (
        pair_rows-get actors.list actors.list s (
          get_elem?-All (λ src. All (Owns src) actors.list) actors.list
            (λ n src hn.
              get_elem?-All (Owns src) actors.list (λ m dst hm k. same n m src dst hn hm k))))
    where
      arrow_free : (n : ℕ) (x : Actor net.Ip) → get_elem? actors.list n ≡ some x → IsArrowFree x.id
      arrow_free n x = All-get_elem? (λ y. IsArrowFree y.id) actors.list n x free

      same :
          (n m : ℕ) (src dst : Actor net.Ip)
          → get_elem? actors.list n ≡ some src
          → get_elem? actors.list m ≡ some dst
          → Owns src dst
      same n m src dst hn hm k =
          let (es, ed) =
            flow_key-injective src.id dst.id a.id b.id (arrow_free n src hn) (arrow_free i a hi)
              k in
          let e = index_of_id (λ x. x.id) actors.list n i src a distinct hn hi es in
          let d = index_of_id (λ x. x.id) actors.list m j dst b distinct hm hj ed in (cc, cc)

module _ ⦃net : Net⦄ ⦃checker : Checker net.Ip⦄ (store : PolicyStore checker.Rule checker.IpSet)
    (req : Request) (actors : ActorBundle net.Ip) where
  -- The per-pair loop, over actors with distinct IDs that hold no "->" and into a new sink, leaves
  -- an entry for two actors exactly if they are two and the sink keeps the destination's column;
  -- the entry is "allow" exactly if every hook of the flow permits it.
  pub fill_matrix-entry :
      (i j : ℕ) (a b : Actor net.Ip) (streaming : Bool) (keep : Option (Map Text Bool))
      → AreDistinct (map (λ (x : Actor net.Ip). x.id) actors.list)
      → All (λ x. IsArrowFree x.id) actors.list
      → get_elem? actors.list i ≡ some a
      → get_elem? actors.list j ≡ some b
      → get (flow_key a.id b.id) (fill_matrix store req actors (new_matrix_sink streaming keep)).m
        ≡ (if not (a.id == b.id) && is_kept (new_matrix_sink streaming keep) b.id
            then some (
                verdict_text (
                  every (permits store (staged_scope req)) (
                    hooks a b
                      (make_flow req a.ip b.ip)
                      (make_flow req b.ip a.ip)
                      actors.heps_by_node)))
            else none)
  unfolding new_matrix_sink get pair_allows
  fill_matrix-entry i j a b streaming keep distinct free hi hj =
      let e =
        eval_flow-hooks store (staged_scope req) a b (make_flow req a.ip b.ip)
          (make_flow req b.ip a.ip) actors.heps_by_node in
      fill_matrix-get store req actors a b i j distinct free hi hj (new_matrix_sink streaming keep)
      ∙ ap
          (λ (p : Bool × Map Text Bool).
            if not (a.id == b.id) && is_kept (new_matrix_sink streaming keep) b.id
            then some (verdict_text p.0)
            else none)
          e
