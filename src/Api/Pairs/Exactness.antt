-- ===== src/Api/Pairs/Exactness.antt =====
-- api/pairs.go: `EndpointPairs` yields each wanted index pair once.
use telepathy.Prelude.{
  ℕ, ◌≡◌, refl, ap, ◌∙◌, Bool, true, false, not, ◌&&◌, Option, none, some, List, [], ◌∷◌, arith,
  ◌==◌, ℕ_eq, Text, text_beq_iff, text_eq, get_elem?, any, Map, or_zero, get, put, get-put, int_eq,
}
use telepathy.Api.Types.{Endpoint, MatrixPair}
use telepathy.Api.Pairs.{pair_eq, pair_beq, enumerate, index_ids, product, select, endpoint_pairs}
use telepathy.Api.Pairs.Visits.{
  one, times, occurs, differ, has_id, times-append, rows-times, product-times,
  enumerate-HasDistinctKeys, get-enumerate_zero, index_ids-lists,
}

-- Row and column of a requested pair, and whether it has two ends.
abbrev pub hits : Option Endpoint → Option Endpoint → MatrixPair → Bool
hits a b p = not (p.from == p.to) && (has_id p.from a && has_id p.to b)

hits-eq :
    (a b : Option Endpoint) (p q : MatrixPair)
    → hits a b p ≡ true
    → hits a b q ≡ true
    → (p == q) ≡ true
unfolding pair_beq
hits-eq none b p q h k = ground arith
hits-eq (some a) none p q h k = ground arith
hits-eq (some a) (some b) p q h k = ground (
  arith,
  text_beq_iff a.id p.from,
  text_beq_iff a.id q.from,
  text_beq_iff b.id p.to,
  text_beq_iff b.id q.to,
  text_beq_iff p.from q.from,
  text_beq_iff p.to q.to,
)

-- What is left to visit: a requested pair that hits (a, b) and was not seen before.
abbrev fresh : Option Endpoint → Option Endpoint → Map MatrixPair Bool → MatrixPair → Bool
fresh a b seen p = hits a b p && not (or_zero false (get p seen))

any-fresh-put :
    (a b : Option Endpoint) (p : MatrixPair) (seen : Map MatrixPair Bool) (ps : List MatrixPair)
    → any (fresh a b (put p true seen)) ps ≡ (not (hits a b p) && any (fresh a b seen) ps)
unfolding any
any-fresh-put a b p seen [] = ground arith
any-fresh-put a b p seen (q ∷ ps) = ground (
  arith,
  any-fresh-put a b p seen ps,
  get-put p q true seen,
  hits-eq a b p q,
  pair_eq.beq_iff p q,
)

select-times :
    (i j : ℕ) (a b : Option Endpoint) (indices : Map Text (List ℕ))
    (found_row : (k : Text) → occurs i (or_zero [] (get k indices)) ≡ one (has_id k a))
    (found_col : (k : Text) → occurs j (or_zero [] (get k indices)) ≡ one (has_id k b))
    (seen : Map MatrixPair Bool) (ps : List MatrixPair)
    → times i j (select indices seen ps) ≡ one (any (fresh a b seen) ps)
unfolding select any times
select-times i j a b indices hr hc seen [] = refl
select-times i j a b indices hr hc seen (p ∷ ps) = ground (
  arith,
  select-times i j a b indices hr hc seen ps,
  select-times i j a b indices hr hc (put p true seen) ps,
  any-fresh-put a b p seen ps,
  times-append i j (product (or_zero [] (get p.from indices)) (or_zero [] (get p.to indices)))
      (select indices (put p true seen) ps),
  product-times i j (or_zero [] (get p.from indices)) (or_zero [] (get p.to indices)),
  hr p.from,
  hc p.to,
)

any-fresh_nil :
    (a b : Option Endpoint) (ps : List MatrixPair) → any (fresh a b []) ps ≡ any (hits a b) ps
unfolding any get
any-fresh_nil a b [] = refl
any-fresh_nil a b (p ∷ ps) = ground (arith, any-fresh_nil a b ps)

-- Whether the flow between two endpoints belongs to the matrix: with no request every flow
-- between distinct IDs does, else every requested one.
abbrev pub wanted : List MatrixPair → Option Endpoint → Option Endpoint → Bool
wanted [] a b = differ a b
wanted (p ∷ ps) a b = any (hits a b) (p ∷ ps)

-- `EndpointPairs` yields the index pair (i, j) exactly once if both indices are in range, the two
-- IDs differ, and the pair of IDs is requested or nothing is; otherwise never. This holds for
-- repeated requests, repeated endpoint IDs and unknown IDs too.
pub endpoint_pairs-times :
    (endpoints : List Endpoint) (pairs : List MatrixPair) (i j : ℕ)
    → times i j (endpoint_pairs endpoints pairs)
      ≡ one (wanted pairs (get_elem? endpoints i) (get_elem? endpoints j))
unfolding endpoint_pairs
endpoint_pairs-times endpoints [] i j =
    let d = enumerate-HasDistinctKeys 0 endpoints in
    rw (← get-enumerate_zero i endpoints, ← get-enumerate_zero j endpoints)
      (rows-times i j (enumerate 0 endpoints) (enumerate 0 endpoints) d d)
endpoint_pairs-times endpoints (p ∷ ps) i j =
    select-times i j (get_elem? endpoints i) (get_elem? endpoints j)
      (index_ids [] (enumerate 0 endpoints)) (index_ids-lists endpoints i)
      (index_ids-lists endpoints j) [] (p ∷ ps)
    ∙ ap one (any-fresh_nil (get_elem? endpoints i) (get_elem? endpoints j) (p ∷ ps))
