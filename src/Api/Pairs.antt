-- ===== src/Api/Pairs.antt =====
-- api/pairs.go, `EndpointPairs`: the index pairs that the iterator yields, in order. Its callers
-- never stop it early, so the sequence is a list.
pub mod Visits
pub mod Exactness
use telepathy.Prelude.{
  ℕ, zero, suc, ◌+◌, ◌-◌, ◌*◌, ◌/◌, ◌%◌, ◌^◌, ◌≤◌, ◌<◌, ◌≡◌, refl, sym, ap, ◌∙◌, ◌≢◌, ◌↔◌, ◌⊎◌, inl,
  inr, Bool, true, false, not, ◌&&◌, ◌||◌, Option, none, some, List, [], ◌∷◌, ◌++◌, map,
  append_assoc, append-nil, arith, ltb, leb, nat_eq, nat_eq_iff, ltb→lt, lt→ltb, leb→le,
  if◌then◌else◌, Bool-cases, Option-cases, Eq, ◌==◌, ==_refl, ==_ne, ℕ_eq, bool_eq, or_assoc, Text,
  codes, text_beq, text_beq_iff, text_eq, is_empty, to_lower, equal_fold, cut_byte, length,
  get_elem?, length-append, All, All-append, any, any-append, get_elem?-map, fold, fold-append,
  contains, Map, or_zero, get, put, get-put, get-put_self, HasDistinctKeys, put-HasDistinctKeys, ℤ,
  pos, negsuc, int_beq, int_leb, int_beq_iff, int_eq,
}
use telepathy.Api.Types.{Endpoint, MatrixPair}

unfoldable pub pair_beq : MatrixPair → MatrixPair → Bool
pair_beq p q = p.from == q.from && p.to == q.to

pub pair_beq_iff : (p q : MatrixPair) → (pair_beq p q ≡ true) ↔ (p ≡ q)
unfolding pair_beq
pair_beq_iff p q = ground (arith, text_beq_iff p.from q.from, text_beq_iff p.to q.to)

instance abbrev pub pair_eq : Eq MatrixPair
pair_eq = record { beq = pair_beq; beq_iff = pair_beq_iff }

-- `for i, x := range xs`, from index `n`.
unfoldable pub enumerate {ℓ} : {A : Type ℓ} → ℕ → List A → List (ℕ × A)
enumerate n [] = []
enumerate n (x ∷ xs) = (n, x) ∷ enumerate (suc n) xs

-- The inner loop of the full matrix: row `i`.
row : ℕ → Endpoint → List (ℕ × Endpoint) → List (ℕ × ℕ)
row i src [] = []
row i src ((j, dst) ∷ rest) =
    let more = row i src rest in if src.id == dst.id then more else (i, j) ∷ more

pub rows : List (ℕ × Endpoint) → List (ℕ × Endpoint) → List (ℕ × ℕ)
unfolding row
rows [] cols = []
rows ((i, src) ∷ rest) cols = row i src cols ++ rows rest cols

-- The indices of each endpoint ID.
pub index_ids : Map Text (List ℕ) → List (ℕ × Endpoint) → Map Text (List ℕ)
index_ids indices [] = indices
index_ids indices ((i, ep) ∷ rest) =
    index_ids (put ep.id (or_zero [] (get ep.id indices) ++ (i ∷ [])) indices) rest

-- `for i in is, j in js: yield(i, j)`
cells : ℕ → List ℕ → List (ℕ × ℕ)
cells i [] = []
cells i (j ∷ js) = (i, j) ∷ cells i js

pub product : List ℕ → List ℕ → List (ℕ × ℕ)
unfolding cells
product [] js = []
product (i ∷ is) js = cells i js ++ product is js

-- The loop over the requested pairs, with the set of those already seen.
pub select : Map Text (List ℕ) → Map MatrixPair Bool → List MatrixPair → List (ℕ × ℕ)
unfolding product
select indices seen [] = []
select indices seen (p ∷ ps) = elim (p.from == p.to || or_zero false (get p seen)) [
  | true ↦ select indices seen ps
  | false ↦
      product (or_zero [] (get p.from indices)) (or_zero [] (get p.to indices))
      ++ select indices (put p true seen) ps
]

unfoldable pub endpoint_pairs : List Endpoint → List MatrixPair → List (ℕ × ℕ)
unfolding rows index_ids select enumerate
endpoint_pairs endpoints [] = rows (enumerate 0 endpoints) (enumerate 0 endpoints)
endpoint_pairs endpoints (p ∷ ps) = select (index_ids [] (enumerate 0 endpoints)) [] (p ∷ ps)
