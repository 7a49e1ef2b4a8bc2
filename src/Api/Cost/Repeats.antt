-- ===== src/Api/Cost/Repeats.antt =====
-- api/cost.go: which rules are reported as repeated, and which as unreachable.
use telepathy.Prelude.{
  ℕ, suc, ◌+◌, ◌≡◌, refl, sym, ap, ◌∙◌, inl, inr, Option, none, some, List, [], ◌∷◌, ◌++◌, arith,
  if◌then◌else◌, Bool-cases, Option-cases, ◌==◌, ℕ_eq, Text, text_beq_iff, text_eq, length,
  length-append, ◌>>=◌, Map, get, put, get-put, int_eq,
}
use telepathy.Api.Documents.{Value, Codec}
use telepathy.Api.Smells.{Finding, duplicate_finding, find_duplicates, duplicate_rule_findings}

module _ ⦃codec : Codec⦄ where
  -- The number of the first rule, counted from `n`, whose JSON is a text.
  pub first_with : Text → ℕ → List Value → Option ℕ
  first_with b n [] = none
  first_with b n (r ∷ rs) = elim (codec.marshal r) [
    | none ↦ first_with b (suc n) rs
    | some c ↦ if c == b then some n else first_with b (suc n) rs
  ]

  -- The findings without a map: each rule is compared with those before it.
  pub repeats : Text → Text → List Value → List Value → List Finding
  repeats name dir before [] = []
  repeats name dir before (r ∷ rest) = elim (codec.marshal r >>= λ b. first_with b 1 before) [
    | none ↦ repeats name dir (before ++ (r ∷ [])) rest
    | some j ↦
        duplicate_finding name dir (suc (length before)) j
        ∷ repeats name dir (before ++ (r ∷ [])) rest
  ]

  -- One more rule after the others.
  first_with-silent :
      (b : Text) (n : ℕ) (rs : List Value) (r : Value)
      → codec.marshal r ≡ none
      → first_with b n (rs ++ (r ∷ [])) ≡ first_with b n rs
  unfolding first_with
  first_with-silent b n [] r e = ground (arith, e)
  first_with-silent b n (s ∷ rs) r e = ground (arith, first_with-silent b (suc n) rs r e)

  first_with-found :
      (b : Text) (n j : ℕ) (rs : List Value) (r : Value)
      → first_with b n rs ≡ some j
      → first_with b n (rs ++ (r ∷ [])) ≡ some j
  unfolding first_with
  first_with-found b n j [] r h = cc
  first_with-found b n j (s ∷ rs) r h = ground (arith, h, first_with-found b (suc n) j rs r)

  first_with-last :
      (b c : Text) (n : ℕ) (rs : List Value) (r : Value)
      → codec.marshal r ≡ some c
      → first_with b n rs ≡ none
      → first_with b n (rs ++ (r ∷ [])) ≡ (if c == b then some (n + length rs) else none)
  unfolding first_with
  first_with-last b c n [] r e h = ground (arith, e)
  first_with-last b c n (s ∷ rs) r e h = ground (arith, e, h, first_with-last b c (suc n) rs r e)

  -- The map `seen` holds the first rule of each JSON text.
  abbrev IsSeen : Map Text ℕ → List Value → Type 0
  IsSeen seen before = (b : Text) → get b seen ≡ first_with b 1 before

  put-IsSeen :
      (seen : Map Text ℕ) (before : List Value) (r : Value) (c : Text)
      → codec.marshal r ≡ some c
      → first_with c 1 before ≡ none
      → IsSeen seen before
      → IsSeen (put c (suc (length before)) seen) (before ++ (r ∷ []))
  put-IsSeen seen before r c e new h b =
      get-put c b (suc (length before)) seen ∙ (elim (Bool-cases (c == b)) [
        | inl q ↦
            let same = (text_beq_iff c b).0 q in
            let fresh : first_with b 1 before ≡ none =
              ap (λ x. first_with x 1 before) (sym same) ∙ new in
            ground (arith, q, first_with-last b c 1 before r e fresh)
        | inr q ↦ elim (Option-cases (first_with b 1 before)) [
          | inl n ↦ ground (arith, q, n, h b, first_with-last b c 1 before r e n)
          | inr (j, n) ↦ ground (arith, q, n, h b, first_with-found b 1 j before r n)
        ]
      ])

  old-IsSeen :
      (seen : Map Text ℕ) (before : List Value) (r : Value) (c : Text) (j : ℕ)
      → codec.marshal r ≡ some c
      → first_with c 1 before ≡ some j
      → IsSeen seen before
      → IsSeen seen (before ++ (r ∷ []))
  old-IsSeen seen before r c j e old h b = elim (Bool-cases (c == b)) [
    | inl q ↦
        let same = (text_beq_iff c b).0 q in
        let found : first_with b 1 before ≡ some j =
          ap (λ x. first_with x 1 before) (sym same) ∙ old in
        ground (arith, h b, found, first_with-found b 1 j before r found)
    | inr q ↦ elim (Option-cases (first_with b 1 before)) [
      | inl n ↦ ground (arith, q, n, h b, first_with-last b c 1 before r e n)
      | inr (k, n) ↦ ground (arith, n, h b, first_with-found b 1 k before r n)
    ]
  ]

  find_duplicates-repeats :
      (name dir : Text) (rest before : List Value) (seen : Map Text ℕ) (i : ℕ)
      → i ≡ suc (length before)
      → IsSeen seen before
      → find_duplicates name dir seen i rest ≡ repeats name dir before rest
  unfolding find_duplicates repeats
  find_duplicates-repeats name dir [] before seen i at_i h = refl
  find_duplicates-repeats name dir (r ∷ rest) before seen i at_i h =
      let next : suc i ≡ suc (length (before ++ (r ∷ []))) =
        omega (arith, at_i, length-append before (r ∷ [])) in
      elim (Option-cases (codec.marshal r)) [
        | inl e ↦
            let seen' : IsSeen seen (before ++ (r ∷ [])) =
              λ b. h b ∙ sym (first_with-silent b 1 before r e) in
            ground (
              arith,
              e,
              find_duplicates-repeats name dir rest (before ++ (r ∷ [])) seen (suc i) next seen',
            )
        | inr (c, e) ↦ elim (Option-cases (first_with c 1 before)) [
          | inl n ↦
              let later = put-IsSeen seen before r c e n h in
              rw at_i (
                ground (
                  arith,
                  e,
                  n,
                  h c,
                  find_duplicates-repeats name dir rest (before ++ (r ∷ []))
                      (put c (suc (length before)) seen) (suc (suc (length before)))
                      (rw at_i at next) later,
                ))
          | inr (j, n) ↦
              let later = old-IsSeen seen before r c j e n h in
              rw at_i (
                ground (
                  arith,
                  e,
                  n,
                  h c,
                  find_duplicates-repeats name dir rest (before ++ (r ∷ [])) seen
                      (suc (suc (length before))) (rw at_i at next) later,
                ))
        ]
      ]

  -- A rule is reported as a duplicate exactly if it has a JSON text that an earlier rule of the
  -- direction has, and the finding names the first such rule.
  pub duplicate_rule_findings-repeats :
      (name dir : Text) (rules : List Value)
      → duplicate_rule_findings name dir rules ≡ repeats name dir [] rules
  unfolding duplicate_rule_findings first_with get
  duplicate_rule_findings-repeats name dir rules =
      find_duplicates-repeats name dir rules [] [] 1 refl (λ b. refl)
