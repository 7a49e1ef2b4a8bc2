-- ===== src/Calico/TierMatch/Once.antt =====
-- provider/calico/tiermatch.go: lists without repetition, and the maps that mark their elements.
use telepathy.Prelude.{
  ◌≡◌, refl, sym, inl, inr, Bool, true, false, ◌||◌, List, [], ◌∷◌, ◌++◌, arith, Bool-cases, Eq,
  ◌==◌, ℕ_eq, text_eq, contains, Map, or_zero, get, put, get-put, int_eq,
}

module _ {A : Type 0} ⦃e : Eq A⦄ where
  -- No element stands twice in a list.
  abbrev pub AreOnce : List A → Type 0
  AreOnce [] = Unit
  AreOnce (x ∷ xs) = (contains xs x ≡ false) × AreOnce xs

  pub contains-append :
      (xs ys : List A) (a : A) → contains (xs ++ ys) a ≡ (contains xs a || contains ys a)
  unfolding contains
  contains-append [] ys a = refl
  contains-append (x ∷ xs) ys a = ground (arith, contains-append xs ys a)

  pub contains-one : (a b : A) → contains (a ∷ []) b ≡ (a == b)
  unfolding contains
  contains-one a b = ground arith

  pub append-AreOnce :
      (xs : List A) (a : A) → contains xs a ≡ false → AreOnce xs → AreOnce (xs ++ (a ∷ []))
  unfolding contains
  append-AreOnce [] a new h = (refl, tt)
  append-AreOnce (x ∷ xs) a new h =
      let parts : ((x == a) ≡ false) × (contains xs a ≡ false) = ground arith in
      let apart : (a == x) ≡ false = elim (Bool-cases (a == x)) [
        | inl q ↦ let same = (e.beq_iff a x).0 q in ground (arith, (e.beq_iff x a).1 (sym same))
        | inr q ↦ q
      ] in
      (
        ground (arith, contains-append xs (a ∷ []) x, contains-one a x, h.0),
        append-AreOnce xs a parts.1 h.1,
      )

  -- A map that marks the elements of a list.
  abbrev pub Marks : Map A Bool → List A → Type 0
  Marks m xs = (a : A) → or_zero false (get a m) ≡ contains xs a

  pub put-Marks :
      (m : Map A Bool) (xs : List A) (a : A) → Marks m xs → Marks (put a true m) (xs ++ (a ∷ []))
  put-Marks m xs a h b =
      ground (arith, get-put a b true m, h b, contains-append xs (a ∷ []) b, contains-one a b)
