-- ===== src/Api/Assert/Groups.antt =====
-- api/assert.go: the first loop of `RunAssertions` groups the assertions by their probes.
use telepathy.Prelude.{
  ℕ, ◌≡◌, sym, ap, ◌∙◌, ◌↔◌, ◌⊎◌, inl, inr, none, some, List, [], ◌∷◌, ◌++◌, append_assoc,
  append-nil, arith, if◌then◌else◌, Option-cases, ◌==◌, ℕ_eq, text_eq, length, get_elem?,
  length-append, fold, get_elem?-append_left, get_elem?-append_end, get_elem?-append_cases, Member,
  Member-append, Map, or_zero, get, put, get-put, int_eq,
}
use mathlib.Core.Path.{subst}
use telepathy.Api.Types.{Request}
use telepathy.Api.Assert.{
  Assertion, AssertionResult, ProbeKey, probe_key_beq_iff, probe_key_eq, Group, probe_key, place,
  group_step, validate_assertion, no_result,
}

abbrev pub group_of : ProbeKey → Map ProbeKey Group → Group
group_of k m = or_zero [] (get k m)

module _ (req : Request) where
  -- The state of the loop after the assertions `done`: an index stands in a group exactly if its
  -- assertion is well formed and has the probe of the group; the others have their results.
  pub record IsGrouped (done : List Assertion) (s : List AssertionResult × Map ProbeKey Group)
      : Type 0 where
    pub lengths : length s.0 ≡ length done
    pub sound :
        (k : ProbeKey) (j : ℕ) (b : Assertion)
        → Member (j, b) (group_of k s.1)
        → (get_elem? done j ≡ some b) × (probe_key req b ≡ k) × (validate_assertion b ≡ none)
    pub complete :
        (i : ℕ) (a : Assertion)
        → get_elem? done i ≡ some a
        → validate_assertion a ≡ none
        → Member (i, a) (group_of (probe_key req a) s.1)
    pub refused :
        (i : ℕ) (a : Assertion) (res : AssertionResult)
        → get_elem? done i ≡ some a
        → validate_assertion a ≡ some res
        → get_elem? s.0 i ≡ some res

  place-IsGrouped_refused :
      (done : List Assertion) (s : List AssertionResult × Map ProbeKey Group) (a : Assertion)
      (res : AssertionResult)
      → validate_assertion a ≡ some res
      → IsGrouped done s
      → IsGrouped (done ++ (a ∷ [])) (place req s a (some res))
  unfolding place
  place-IsGrouped_refused done (results, m) a res e g = record {
    lengths =
        omega (arith, g.lengths, length-append results (res ∷ []), length-append done (a ∷ []));
    sound = λ k j b mem.
        let (at, key, valid) = g.sound k j b mem in
        (get_elem?-append_left done (a ∷ []) j b at, key, valid);
    complete = λ i b at valid. elim (get_elem?-append_cases done a b i at) [
      | inl before ↦ g.complete i b before valid
      | inr (last, same) ↦ cc
    ];
    refused = λ i b r at found. elim (get_elem?-append_cases done a b i at) [
      | inl before ↦ get_elem?-append_left results (res ∷ []) i r (g.refused i b r before found)
      | inr (last, same) ↦
          subst (λ n. get_elem? (results ++ (res ∷ [])) n ≡ some r) (sym (last ∙ sym g.lengths))
            (get_elem?-append_end results res ∙ sym e ∙ ap validate_assertion same ∙ found)
    ];
  }

  -- The groups with one more index.
  group_of-put :
      (k j : ProbeKey) (m : Map ProbeKey Group) (p : ℕ × Assertion)
      → group_of j (put k (group_of k m ++ (p ∷ [])) m)
        ≡ group_of j m ++ (if k == j then p ∷ [] else [])
  group_of-put k j m p = ground (
    arith,
    get-put k j (group_of k m ++ (p ∷ [])) m,
    probe_key_beq_iff k j,
    append-nil (group_of j m),
  )

  Member-group_of-put :
      (k j : ProbeKey) (m : Map ProbeKey Group) (p q : ℕ × Assertion)
      → Member q (group_of j (put k (group_of k m ++ (p ∷ [])) m))
        ↔ (Member q (group_of j m) ⊎ ((k ≡ j) × (p ≡ q)))
  Member-group_of-put k j m p q = rw (group_of-put k j m p) (
      ground (
        arith,
        probe_key_beq_iff k j,
        Member-append q (group_of j m) (if k == j then p ∷ [] else []),
      ))

  place-IsGrouped_valid :
      (done : List Assertion) (s : List AssertionResult × Map ProbeKey Group) (a : Assertion)
      → validate_assertion a ≡ none
      → IsGrouped done s
      → IsGrouped (done ++ (a ∷ [])) (place req s a none)
  unfolding place
  place-IsGrouped_valid done (results, m) a e g =
      let key = probe_key req a in
      let added =
        λ (j : ProbeKey) (q : ℕ × Assertion). Member-group_of-put key j m (length results, a) q in
      record {
        lengths =
            omega (
              arith,
              g.lengths,
              length-append results (no_result ∷ []),
              length-append done (a ∷ []),
            );
        sound = λ k j b mem. elim ((added k (j, b)).0 mem) [
          | inl before ↦
              let (at, owner, valid) = g.sound k j b before in
              (get_elem?-append_left done (a ∷ []) j b at, owner, valid)
          | inr (here, same) ↦ (
            subst (λ n. get_elem? (done ++ (a ∷ [])) n ≡ some b)
                (sym g.lengths ∙ ap (λ q. q.0) same)
                (get_elem?-append_end done a ∙ ap (λ q. some q.1) same),
            ap (λ q. probe_key req q.1) (sym same) ∙ here,
            ap (λ q. validate_assertion q.1) (sym same) ∙ e,
          )
        ];
        complete = λ i b at valid. elim (get_elem?-append_cases done a b i at) [
          | inl before ↦ (added (probe_key req b) (i, b)).1 (inl (g.complete i b before valid))
          | inr (last, same) ↦
              (added (probe_key req b) (i, b)).1 (inr (ap (probe_key req) same, cc))
        ];
        refused = λ i b r at found. elim (get_elem?-append_cases done a b i at) [
          | inl before ↦
              get_elem?-append_left results (no_result ∷ []) i r (g.refused i b r before found)
          | inr (last, same) ↦ cc
        ];
      }

  place-IsGrouped :
      (done : List Assertion) (s : List AssertionResult × Map ProbeKey Group) (a : Assertion)
      → IsGrouped done s
      → IsGrouped (done ++ (a ∷ [])) (group_step req s a)
  unfolding group_step
  place-IsGrouped done s a g = elim (Option-cases (validate_assertion a)) [
    | inl e ↦ rw e (place-IsGrouped_valid done s a e g)
    | inr (res, e) ↦ rw e (place-IsGrouped_refused done s a res e g)
  ]

  -- The loop keeps the state grouped.
  pub group_assertions-IsGrouped :
      (done : List Assertion) (s : List AssertionResult × Map ProbeKey Group)
      (rest : List Assertion)
      → IsGrouped done s
      → IsGrouped (done ++ rest) (fold (group_step req) s rest)
  unfolding fold
  group_assertions-IsGrouped done s [] g = subst (λ l. IsGrouped l s) (sym (append-nil done)) g
  group_assertions-IsGrouped done s (a ∷ rest) g =
      subst (λ l. IsGrouped l (fold (group_step req) s (a ∷ rest)))
        (append_assoc done (a ∷ []) rest)
        (group_assertions-IsGrouped (done ++ (a ∷ [])) (group_step req s a) rest
          (place-IsGrouped done s a g))
