-- ===== src/Api/Pairs/Visits.antt =====
-- api/pairs.go: how often `EndpointPairs` yields a given index pair.
use telepathy.Prelude.{
  ℕ, zero, suc, ◌+◌, ◌*◌, ◌<◌, ◌≡◌, refl, ap, ◌∙◌, Bool, true, false, not, ◌&&◌, Option, none, some,
  List, [], ◌∷◌, ◌++◌, arith, nat_eq, ◌==◌, ℕ_eq, Text, text_beq_iff, text_eq, get_elem?, Map,
  or_zero, get, put, get-put, HasDistinctKeys, int_eq,
}
use telepathy.Api.Types.{Endpoint}
use telepathy.Api.Pairs.{pair_eq, enumerate, row, rows, index_ids, cells, product}

abbrev pub one : Bool → ℕ
one true = 1
one false = 0

-- How often a list of pairs holds (i, j), and a list of indices holds i.
unfoldable pub times : ℕ → ℕ → List (ℕ × ℕ) → ℕ
times i j [] = 0
times i j ((a, b) ∷ ps) = one (nat_eq a i && nat_eq b j) + times i j ps

unfoldable pub occurs : ℕ → List ℕ → ℕ
occurs i [] = 0
occurs i (a ∷ is) = one (nat_eq a i) + occurs i is

pub times-append :
    (i j : ℕ) (ps qs : List (ℕ × ℕ)) → times i j (ps ++ qs) ≡ times i j ps + times i j qs
unfolding times
times-append i j [] qs = omega arith
times-append i j (p ∷ ps) qs = omega (arith, times-append i j ps qs)

occurs-append : (i : ℕ) (is js : List ℕ) → occurs i (is ++ js) ≡ occurs i is + occurs i js
unfolding occurs
occurs-append i [] js = omega arith
occurs-append i (a ∷ is) js = omega (arith, occurs-append i is js)

-- An endpoint and another one differ in their IDs; a missing one never does.
abbrev pub differ : Option Endpoint → Option Endpoint → Bool
differ (some a) (some b) = not (a.id == b.id)
differ _ _ = false

abbrev pub has_id : Text → Option Endpoint → Bool
has_id k none = false
has_id k (some e) = e.id == k

get-enumerate_below : {A : Type 0} (n i : ℕ) (xs : List A) → i < n → get i (enumerate n xs) ≡ none
unfolding get enumerate
get-enumerate_below n i [] h = refl
get-enumerate_below n i (x ∷ xs) h = ground (arith, get-enumerate_below (suc n) i xs)

pub enumerate-HasDistinctKeys :
    {A : Type 0} (n : ℕ) (xs : List A) → HasDistinctKeys (enumerate n xs)
unfolding enumerate
enumerate-HasDistinctKeys n [] = tt
enumerate-HasDistinctKeys n (x ∷ xs) =
    (get-enumerate_below (suc n) n xs (omega arith), enumerate-HasDistinctKeys (suc n) xs)

pub get-enumerate :
    {A : Type 0} (n i : ℕ) (xs : List A) → get (n + i) (enumerate n xs) ≡ get_elem? xs i
unfolding get enumerate
get-enumerate n i [] = refl
get-enumerate n zero (x ∷ xs) = ground arith
get-enumerate n (suc i) (x ∷ xs) =
    let e : n + suc i ≡ suc n + i = omega arith in
    let miss : nat_eq n (n + suc i) ≡ false = ground arith in
    rw miss (ap (λ k. get k (enumerate (suc n) xs)) e ∙ get-enumerate (suc n) i xs)

row-times :
    (i j a : ℕ) (src : Endpoint) (cols : List (ℕ × Endpoint))
    → HasDistinctKeys cols
    → times i j (row a src cols) ≡ one (nat_eq a i && differ (some src) (get j cols))
unfolding row times get
row-times i j a src [] h = ground arith
row-times i j a src ((b, dst) ∷ cols) h = ground (arith, row-times i j a src cols h.1)

pub rows-times :
    (i j : ℕ) (rs cols : List (ℕ × Endpoint))
    → HasDistinctKeys rs
    → HasDistinctKeys cols
    → times i j (rows rs cols) ≡ one (differ (get i rs) (get j cols))
unfolding rows times get
rows-times i j [] cols h k = refl
rows-times i j ((a, src) ∷ rs) cols h k = ground (
  arith,
  times-append i j (row a src cols) (rows rs cols),
  row-times i j a src cols k,
  rows-times i j rs cols h.1 k,
)

pub index_ids-occurs :
    (i : ℕ) (k : Text) (m : Map Text (List ℕ)) (es : List (ℕ × Endpoint))
    → HasDistinctKeys es
    → occurs i (or_zero [] (get k (index_ids m es)))
      ≡ occurs i (or_zero [] (get k m)) + one (has_id k (get i es))
unfolding index_ids occurs get
index_ids-occurs i k m [] h = omega arith
index_ids-occurs i k m ((a, ep) ∷ es) h =
    let old = or_zero [] (get ep.id m) in
    ground (
      arith,
      index_ids-occurs i k (put ep.id (old ++ (a ∷ [])) m) es h.1,
      get-put ep.id k (old ++ (a ∷ [])) m,
      text_beq_iff ep.id k,
      occurs-append i old (a ∷ []),
    )

cells-times : (i j a : ℕ) (js : List ℕ) → times i j (cells a js) ≡ one (nat_eq a i) * occurs j js
unfolding cells times occurs
cells-times i j a [] = omega arith
cells-times i j a (b ∷ js) = ground (arith, cells-times i j a js)

pub product-times :
    (i j : ℕ) (is js : List ℕ) → times i j (product is js) ≡ occurs i is * occurs j js
unfolding product times occurs
product-times i j [] js = omega arith
product-times i j (a ∷ is) js = omega (
  arith,
  times-append i j (cells a js) (product is js),
  cells-times i j a js,
  product-times i j is js,
)

pub get-enumerate_zero :
    {A : Type 0} (i : ℕ) (xs : List A) → get i (enumerate 0 xs) ≡ get_elem? xs i
get-enumerate_zero i xs = ap (λ k. get k (enumerate 0 xs)) (omega arith) ∙ get-enumerate 0 i xs

-- The index that `EndpointPairs` builds lists exactly the indices of an ID.
pub index_ids-lists :
    (endpoints : List Endpoint) (i : ℕ) (k : Text)
    → occurs i (or_zero [] (get k (index_ids [] (enumerate 0 endpoints))))
      ≡ one (has_id k (get_elem? endpoints i))
unfolding get occurs
index_ids-lists endpoints i k = rw (← get-enumerate_zero i endpoints) (
    omega (
      arith,
      index_ids-occurs i k [] (enumerate 0 endpoints) (enumerate-HasDistinctKeys 0 endpoints),
    ))
