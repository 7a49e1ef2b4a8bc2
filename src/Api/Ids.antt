-- ===== src/Api/Ids.antt =====
-- The IDs of the endpoints of a request: a matrix key names one pair if they are distinct and hold
-- no "->".
use telepathy.Prelude.{
  ℕ, zero, suc, ◌≡◌, refl, sym, ap, ◌∙◌, Bool, any, true, false, some, List, [], ◌∷◌, map, arith,
  ==_refl, ℕ_eq, Text, text_eq, get_elem?, get_elem?-map, All, contains, int_eq,
}
use mathlib.Core.Path.{subst}
use mathlib.Core.Option
use telepathy.Api.Types.{Endpoint}
use telepathy.Api.FlowKey.{IsArrowFree}

abbrev pub AreDistinct : List Text → Type 0
AreDistinct [] = Unit
AreDistinct (k ∷ ks) = (contains ks k ≡ false) × AreDistinct ks

abbrev pub ids : List Endpoint → List Text
ids = map (λ ep. ep.id)

abbrev pub HasDistinctIds : List Endpoint → Type 0
HasDistinctIds es = AreDistinct (ids es)

abbrev pub HasArrowFreeIds : List Endpoint → Type 0
HasArrowFreeIds = All (λ e. IsArrowFree e.id)

contains-get_elem? :
    (ks : List Text) (i : ℕ) (k : Text) → get_elem? ks i ≡ some k → contains ks k ≡ true
unfolding contains
contains-get_elem? [] i k h = cc
contains-get_elem? (f ∷ ks) zero k h = let same : f ≡ k = cc in rw (same, ==_refl k)
contains-get_elem? (f ∷ ks) (suc i) k h = ground (arith, contains-get_elem? ks i k h)

-- Distinct IDs tell the indices apart.
index_of_text :
    (ks : List Text) (i j : ℕ) (k : Text)
    → AreDistinct ks
    → get_elem? ks i ≡ some k
    → get_elem? ks j ≡ some k
    → i ≡ j
index_of_text [] i j k d hi hj = cc
index_of_text (f ∷ ks) zero zero k d hi hj = refl
index_of_text (f ∷ ks) zero (suc j) k d hi hj =
    let same : f ≡ k = cc in ground (arith, contains-get_elem? ks j k hj)
index_of_text (f ∷ ks) (suc i) zero k d hi hj =
    let same : f ≡ k = cc in ground (arith, contains-get_elem? ks i k hi)
index_of_text (f ∷ ks) (suc i) (suc j) k d hi hj = ap suc (index_of_text ks i j k d.1 hi hj)

pub index_of_id :
    {A : Type 0} (id_of : A → Text) (es : List A) (i j : ℕ) (a b : A)
    → AreDistinct (map id_of es)
    → get_elem? es i ≡ some a
    → get_elem? es j ≡ some b
    → id_of a ≡ id_of b
    → i ≡ j
index_of_id id_of es i j a b d hi hj q =
    index_of_text (map id_of es) i j (id_of a) d
      (get_elem?-map id_of es i ∙ ap (Option.map id_of) hi)
      (get_elem?-map id_of es j ∙ ap (Option.map id_of) hj ∙ ap some (sym q))

-- A property of every element holds of the one at an index.
pub All-get_elem? {κ} :
    {A : Type 0} (P : A → Type κ) (xs : List A) (i : ℕ) (x : A)
    → All P xs
    → get_elem? xs i ≡ some x
    → P x
All-get_elem? P [] i x h e = cc
All-get_elem? P (y ∷ xs) zero x h e = subst P (cc) h.0
All-get_elem? P (y ∷ xs) (suc i) x h e = All-get_elem? P xs i x h.1 e

pub get_elem?-All {κ} :
    {A : Type 0} (P : A → Type κ) (xs : List A)
    → ((i : ℕ) (x : A) → get_elem? xs i ≡ some x → P x)
    → All P xs
get_elem?-All P [] h = tt
get_elem?-All P (x ∷ xs) h = (h 0 x refl, get_elem?-All P xs (λ i y e. h (suc i) y e))

pub any-get_elem? :
    {A : Type 0} (p : A → Bool) (xs : List A) (i : ℕ) (x : A)
    → get_elem? xs i ≡ some x
    → p x ≡ true
    → any p xs ≡ true
unfolding any
any-get_elem? p [] i x h e = cc
any-get_elem? p (y ∷ xs) zero x h e = let same : y ≡ x = cc in ground arith
any-get_elem? p (y ∷ xs) (suc i) x h e = ground (arith, any-get_elem? p xs i x h e)
