-- ===== src/Calico/Inline/Taken.antt =====
-- provider/calico/resources.go: what `applyInlineResources` takes out of the policies of a request.
use telepathy.Prelude.{
  ◌≡◌, refl, ap, inl, inr, Bool, true, false, ◌&&◌, List, [], ◌∷◌, ◌++◌, append-nil, arith,
  Bool-cases, ℕ_eq, Text, codes, text_eq, is_nil, int_eq,
}
use mathlib.Core.Path.{subst}
use telepathy.Api.Types.{PolicyInput, Request}
use telepathy.Calico.Ports.{IntOrString}
use telepathy.Calico.Inline.{
  Decoded, failed, decoded, ResourceDecoder, Extracted, apply_inline_resources, CoreServiceAccount,
  CoreService,
}
use telepathy.Calico.Inline.Parts.{
  keep_if, collect, account_input, parse_error, service_input, is_account, is_service, stays,
  account, service, refused, one_or_none, joined, part, part_of, taken, taken-cons,
  extract_inline_resources-taken,
}

module _ ⦃k8s : IntOrString⦄ ⦃decoder : ResourceDecoder k8s.Target⦄ where
  -- Where nothing is taken out and nothing is refused, every policy stays.
  abbrev is_untouched : Extracted → Bool
  is_untouched x = is_nil x.service_accounts && (is_nil x.services && is_nil x.errs)

  is_nil-append : {A : Type 0} (xs ys : List A) → is_nil (xs ++ ys) ≡ (is_nil xs && is_nil ys)
  is_nil-append [] ys = refl
  is_nil-append (x ∷ xs) ys = refl

  joined_untouched :
      (x y : Extracted)
      → is_untouched (joined x y) ≡ true
      → (is_untouched x ≡ true) × (is_untouched y ≡ true)
  joined_untouched x y h = ground (
    arith,
    is_nil-append x.service_accounts y.service_accounts,
    is_nil-append x.services y.services,
    is_nil-append x.errs y.errs,
  )

  account_gives :
      (d : Decoded CoreServiceAccount) (prefix : Text)
      → (is_nil (one_or_none (account_input d)) && is_nil (one_or_none (parse_error prefix d)))
        ≡ false
  unfolding account_input parse_error one_or_none
  account_gives (failed e) prefix = refl
  account_gives (decoded sa) prefix = refl

  service_gives :
      (d : Decoded (CoreService k8s.Target)) (prefix : Text)
      → (is_nil (one_or_none (service_input d)) && is_nil (one_or_none (parse_error prefix d)))
        ≡ false
  unfolding service_input parse_error one_or_none
  service_gives (failed e) prefix = refl
  service_gives (decoded svc) prefix = refl

  part_untouched :
      (a s : Bool) (p : PolicyInput) → is_untouched (part a s p) ≡ true → (a ≡ false) × (s ≡ false)
  part_untouched true s p h = ground (
    arith,
    account_gives (decoder.decode_service_account p.yaml) (codes "parse ServiceAccount: "),
  )
  part_untouched false true p h =
      ground (arith, service_gives (decoder.decode_service p.yaml) (codes "parse Service: "))
  part_untouched false false p h = (refl, refl)

  taken_untouched : (ps : List PolicyInput) → is_untouched (taken ps) ≡ true → keep_if stays ps ≡ ps
  unfolding keep_if
  taken_untouched [] h = refl
  taken_untouched (p ∷ ps) h =
      let both =
        joined_untouched (part_of p) (taken ps)
          (subst (λ x. is_untouched x ≡ true) (taken-cons p ps) h) in
      let neither = part_untouched (is_account p) (is_service p) p both.0 in
      rw (neither.0, neither.1) (ap (◌∷◌ p) (taken_untouched ps both.1))

  -- The request with the service accounts and the services among its policies moved to their lists.
  abbrev pub without_inline : Request → Request
  without_inline req = record req {
    policies = keep_if stays req.policies;
    service_accounts = req.service_accounts ++ collect account req.policies;
    services = req.services ++ collect service req.policies;
  }

  is_nil_eq : {A : Type 0} (xs : List A) → is_nil xs ≡ true → xs ≡ []
  is_nil_eq [] h = refl
  is_nil_eq (x ∷ xs) h = cc

  both_true : (a b : Bool) → a && b ≡ true → (a ≡ true) × (b ≡ true)
  both_true a b h = ground arith

  -- `applyInlineResources` keeps, in order, exactly the policies whose kind is neither
  -- ServiceAccount nor Service or cannot be read; it appends to the request's lists, in order, the
  -- service accounts and services that decode, and returns an error for each that does not.
  pub apply_inline_resources_lem :
      (req : Request)
      → apply_inline_resources req ≡ (without_inline req, collect refused req.policies)
  unfolding apply_inline_resources
  apply_inline_resources_lem req =
      let ps = req.policies in
      let all = extract_inline_resources-taken ps in
      elim (Bool-cases (is_untouched (taken ps))) [
        | inl e ↦
            let nils = both_true (is_nil (collect account ps)) _ e in
            let rest = both_true (is_nil (collect service ps)) _ nils.1 in
            let no_accounts = is_nil_eq (collect account ps) nils.0 in
            let no_services = is_nil_eq (collect service ps) rest.0 in
            let no_errors = is_nil_eq (collect refused ps) rest.1 in
            let same : without_inline req ≡ req =
              rw
                (
                  taken_untouched ps e,
                  no_accounts,
                  no_services,
                  append-nil req.service_accounts,
                  append-nil req.services,
                )
                refl in
            rw (all, e) (cc (same, no_errors))
        | inr e ↦ rw (all, e) refl
      ]
