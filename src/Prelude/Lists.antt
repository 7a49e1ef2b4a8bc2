-- ===== src/Prelude/Lists.antt =====
-- Lists measured and indexed by native numbers, and the loops over slices that the program uses.
use Prim.Native.Nat.{ℕ, zero, suc, ◌+◌}
use mathlib.Core.Bool.{Bool, true, false, ◌&&◌, ◌||◌}
use mathlib.Core.List.{List, [], ◌∷◌, ◌++◌, map}
use mathlib.Core.Option
use mathlib.Core.Option.{Option, none, some}
use mathlib.Core.Logic.{◌⊎◌, ◌↔◌, inl, inr}
use mathlib.Core.Path.{◌≡◌, refl, ap}
use native.Mathlib.Omega.{arith}
use telepathy.Prelude.Tests.{Eq, ◌==◌}

module _ {ℓ} {A : Type ℓ} where
  abbrev pub length : List A → ℕ
  length [] = 0
  length (x ∷ xs) = suc (length xs)

  abbrev pub get_elem? : List A → ℕ → Option A
  get_elem? [] i = none
  get_elem? (x ∷ xs) zero = some x
  get_elem? (x ∷ xs) (suc i) = get_elem? xs i

  pub length-append : (xs ys : List A) → length (xs ++ ys) ≡ length xs + length ys
  length-append [] ys = omega arith
  length-append (x ∷ xs) ys = omega (arith, length-append xs ys)

  -- A predicate of every element, by recursion.
  abbrev pub All {κ} : (A → Type κ) → List A → Type κ
  All Q [] = Unit
  All Q (y ∷ ys) = Q y × All Q ys

  pub All-append {κ} :
      (front back : List A) (Q : A → Type κ) → All Q front → All Q back → All Q (front ++ back)
  All-append [] back Q f b = b
  All-append (y ∷ front) back Q f b = (f.0, All-append front back Q f.1 b)

  pub All-append_parts {κ} :
      (front back : List A) (Q : A → Type κ) → All Q (front ++ back) → All Q front × All Q back
  All-append_parts [] back Q h = (tt, h)
  All-append_parts (y ∷ front) back Q h =
      let rest = All-append_parts front back Q h.1 in ((h.0, rest.0), rest.1)

  pub All-mono {κ} : (xs : List A) (Q R : A → Type κ) → ((a : A) → Q a → R a) → All Q xs → All R xs
  All-mono [] Q R f h = tt
  All-mono (x ∷ xs) Q R f h = (f x h.0, All-mono xs Q R f h.1)

  pub All-both {κ} :
      (xs : List A) (Q R S : A → Type κ)
      → ((a : A) → Q a → R a → S a)
      → All Q xs
      → All R xs
      → All S xs
  All-both [] Q R S f g h = tt
  All-both (x ∷ xs) Q R S f g h = (f x g.0 h.0, All-both xs Q R S f g.1 h.1)

  -- Whether some element passes a test.
  unfoldable pub any : (A → Bool) → List A → Bool
  any p [] = false
  any p (x ∷ xs) = p x || any p xs

  pub any-append : (p : A → Bool) (xs ys : List A) → any p (xs ++ ys) ≡ (any p xs || any p ys)
  unfolding any
  any-append p [] ys = refl
  any-append p (x ∷ xs) ys = ground (arith, any-append p xs ys)

module _ {ℓ} {A : Type ℓ} where
  unfoldable pub every : (A → Bool) → List A → Bool
  every p [] = true
  every p (x ∷ xs) = p x && every p xs

  pub every-append :
      (p : A → Bool) (xs ys : List A) → every p (xs ++ ys) ≡ (every p xs && every p ys)
  unfolding every
  every-append p [] ys = refl
  every-append p (x ∷ xs) ys = ground (arith, every-append p xs ys)

module _ {A : Type 0} where
  -- Where a value stands in a list, by recursion.
  abbrev pub Member : A → List A → Type 0
  Member a [] = ⊥
  Member a (x ∷ xs) = (x ≡ a) ⊎ Member a xs

  pub Member-append : (a : A) (xs ys : List A) → Member a (xs ++ ys) ↔ (Member a xs ⊎ Member a ys)
  Member-append a [] ys = ground arith
  Member-append a (x ∷ xs) ys = ground (arith, Member-append a xs ys)

module _ {ℓ κ} {A : Type ℓ} {B : Type κ} where
  pub get_elem?-map :
      (f : A → B) (xs : List A) (i : ℕ) → get_elem? (map f xs) i ≡ Option.map f (get_elem? xs i)
  get_elem?-map f [] i = refl
  get_elem?-map f (x ∷ xs) zero = refl
  get_elem?-map f (x ∷ xs) (suc i) = get_elem?-map f xs i

  pub length-map : (f : A → B) (xs : List A) → length (map f xs) ≡ length xs
  length-map f [] = refl
  length-map f (x ∷ xs) = omega (arith, length-map f xs)

  pub map_pointwise : (f g : A → B) (xs : List A) → ((a : A) → f a ≡ g a) → map f xs ≡ map g xs
  map_pointwise f g [] h = refl
  map_pointwise f g (x ∷ xs) h = cc (h x, map_pointwise f g xs h)

  -- The two blocks of code that a `range` loop with an accumulator runs through.
  unfoldable pub fold : (B → A → B) → B → List A → B
  fold f acc [] = acc
  fold f acc (x ∷ xs) = fold f (f acc x) xs

  pub fold-append :
      (f : B → A → B) (acc : B) (xs ys : List A) → fold f acc (xs ++ ys) ≡ fold f (fold f acc xs) ys
  unfolding fold
  fold-append f acc [] ys = refl
  fold-append f acc (x ∷ xs) ys = fold-append f (f acc x) xs ys

-- `slices.Contains` for values with an equality.
unfoldable pub contains {ℓ} : {A : Type ℓ} ⦃e : Eq A⦄ → List A → A → Bool
contains [] a = false
contains (x ∷ xs) a = x == a || contains xs a

-- A chain of steps that may fail.
infixl 5 ◌>>=◌
abbrev pub ◌>>=◌ {ℓ κ} : {A : Type ℓ} {B : Type κ} → Option A → (A → Option B) → Option B
none >>= f = none
some a >>= f = f a

-- `len(xs) == 0`
abbrev pub is_nil {ℓ} : {A : Type ℓ} → List A → Bool
is_nil [] = true
is_nil (x ∷ xs) = false

-- `xs[i] = a`, for an index in range.
unfoldable pub set_at {ℓ} : {A : Type ℓ} → List A → ℕ → A → List A
set_at [] i a = []
set_at (x ∷ xs) zero a = a ∷ xs
set_at (x ∷ xs) (suc i) a = x ∷ set_at xs i a

pub get_elem?-set_at_self {ℓ} :
    {A : Type ℓ} (xs : List A) (i : ℕ) (a b : A)
    → get_elem? xs i ≡ some b
    → get_elem? (set_at xs i a) i ≡ some a
unfolding set_at
get_elem?-set_at_self [] i a b h = cc
get_elem?-set_at_self (x ∷ xs) zero a b h = refl
get_elem?-set_at_self (x ∷ xs) (suc i) a b h = get_elem?-set_at_self xs i a b h

pub get_elem?-set_at_other {ℓ} :
    {A : Type ℓ} (xs : List A) (i j : ℕ) (a : A)
    → ¬ (i ≡ j)
    → get_elem? (set_at xs i a) j ≡ get_elem? xs j
unfolding set_at
get_elem?-set_at_other [] i j a h = refl
get_elem?-set_at_other (x ∷ xs) zero zero a h = elim (h refl) [ ]
get_elem?-set_at_other (x ∷ xs) zero (suc j) a h = refl
get_elem?-set_at_other (x ∷ xs) (suc i) zero a h = refl
get_elem?-set_at_other (x ∷ xs) (suc i) (suc j) a h =
    get_elem?-set_at_other xs i j a (λ e. h (ap suc e))

module _ {A : Type 0} where
  pub get_elem?-append_left :
      (xs ys : List A) (i : ℕ) (a : A) → get_elem? xs i ≡ some a → get_elem? (xs ++ ys) i ≡ some a
  get_elem?-append_left [] ys i a h = cc
  get_elem?-append_left (x ∷ xs) ys zero a h = h
  get_elem?-append_left (x ∷ xs) ys (suc i) a h = get_elem?-append_left xs ys i a h

  pub get_elem?-append_right :
      (xs ys : List A) (i j : ℕ) → j ≡ length xs + i → get_elem? (xs ++ ys) j ≡ get_elem? ys i
  get_elem?-append_right [] ys i j e = ap (get_elem? ys) (omega (arith, e))
  get_elem?-append_right (x ∷ xs) ys i zero e = ground arith
  get_elem?-append_right (x ∷ xs) ys i (suc j) e =
      get_elem?-append_right xs ys i j (omega (arith, e))

  pub get_elem?-append_end : (xs : List A) (a : A) → get_elem? (xs ++ (a ∷ [])) (length xs) ≡ some a
  get_elem?-append_end [] a = refl
  get_elem?-append_end (x ∷ xs) a = get_elem?-append_end xs a

  pub get_elem?-append_cases :
      (xs : List A) (a b : A) (i : ℕ)
      → get_elem? (xs ++ (a ∷ [])) i ≡ some b
      → (get_elem? xs i ≡ some b) ⊎ ((i ≡ length xs) × (a ≡ b))
  get_elem?-append_cases [] a b zero h = inr (refl, cc)
  get_elem?-append_cases [] a b (suc i) h = cc
  get_elem?-append_cases (x ∷ xs) a b zero h = inl h
  get_elem?-append_cases (x ∷ xs) a b (suc i) h = elim (get_elem?-append_cases xs a b i h) [
    | inl e ↦ inl e
    | inr (e, same) ↦ inr (ap suc e, same)
  ]

-- Two continuations that agree on what an option holds.
pub bind_agree :
    {A B : Type 0} (o : Option A) (f g : A → Option B)
    → ((a : A) → o ≡ some a → f a ≡ g a)
    → (o >>= f) ≡ (o >>= g)
bind_agree none f g h = refl
bind_agree (some a) f g h = h a refl
