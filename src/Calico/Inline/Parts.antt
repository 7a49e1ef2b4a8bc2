-- ===== src/Calico/Inline/Parts.antt =====
-- provider/calico/resources.go: what one manifest, and a list of them, gives to
-- `extractInlineResources`.
use telepathy.Prelude.{
  ◌≡◌, refl, sym, ap, ◌∙◌, inl, inr, Bool, true, false, not, ◌&&◌, Option, none, some, List, [],
  ◌∷◌, ◌++◌, append_assoc, append-nil, if◌then◌else◌, Bool-cases, Option-cases, ◌==◌, ℕ_eq, Text,
  codes, text_beq, text_beq_iff, text_eq, fold, int_eq,
}
use telepathy.Api.Types.{PolicyInput, ServiceAccountInput, ServiceInput}
use telepathy.Calico.Ports.{IntOrString, from_core_service_ports}
use telepathy.Calico.Inline.{
  Decoded, failed, decoded, ResourceDecoder, Extracted, nothing_extracted, Route, to_policies,
  to_service_accounts, to_services, add_service_account, route_of, add_service, extract_routed,
  extract_step, extract_inline_resources, CoreServiceAccount, CoreService,
}

-- The elements that pass a test, and the results of those that have one, in order.
unfoldable pub keep_if : {A : Type 0} → (A → Bool) → List A → List A
keep_if p [] = []
keep_if p (x ∷ xs) = if p x then x ∷ keep_if p xs else keep_if p xs

unfoldable pub collect : {A B : Type 0} → (A → Option B) → List A → List B
collect f [] = []
collect f (x ∷ xs) = elim (f x) [ none ↦ collect f xs | some y ↦ y ∷ collect f xs ]

unfoldable pub kind_is : Text → Decoded Text → Bool
kind_is word (failed e) = false
kind_is word (decoded kind) = kind == word

-- The text of an error, after what was being parsed.
unfoldable pub parse_error : {A : Type 0} → Text → Decoded A → Option Text
parse_error prefix (failed e) = some (prefix ++ e)
parse_error prefix (decoded a) = none

unfoldable pub account_input : Decoded CoreServiceAccount → Option ServiceAccountInput
account_input (failed e) = none
account_input (decoded sa) =
    some (record { name = sa.name; namespace = sa.namespace; labels = sa.labels })

module _ ⦃k8s : IntOrString⦄ where
  unfoldable pub service_input : Decoded (CoreService k8s.Target) → Option ServiceInput
  service_input (failed e) = none
  service_input (decoded svc) = some (record {
    name = svc.name;
    namespace = svc.namespace;
    selector = svc.selector;
    ports = from_core_service_ports svc.ports;
    service_type = [];
  })

module _ ⦃k8s : IntOrString⦄ ⦃decoder : ResourceDecoder k8s.Target⦄ where
  -- A manifest of the kind of service accounts, or of services.
  abbrev pub is_account : PolicyInput → Bool
  is_account p = kind_is (codes "ServiceAccount") (decoder.decode_kind p.yaml)

  abbrev pub is_service : PolicyInput → Bool
  is_service p = kind_is (codes "Service") (decoder.decode_kind p.yaml)

  abbrev pub stays : PolicyInput → Bool
  stays p = not (is_account p) && not (is_service p)

  abbrev pub account : PolicyInput → Option ServiceAccountInput
  account p = if is_account p then account_input (decoder.decode_service_account p.yaml) else none

  abbrev pub service : PolicyInput → Option ServiceInput
  service p = if is_service p then service_input (decoder.decode_service p.yaml) else none

  abbrev pub refused : PolicyInput → Option Text
  refused p =
      if is_account p
      then parse_error (codes "parse ServiceAccount: ") (decoder.decode_service_account p.yaml)
      else if is_service p
      then parse_error (codes "parse Service: ") (decoder.decode_service p.yaml)
      else none

unfoldable pub one_or_none : {A : Type 0} → Option A → List A
one_or_none none = []
one_or_none (some a) = a ∷ []

keep_if-cons :
    {A : Type 0} (p : A → Bool) (x : A) (xs : List A)
    → keep_if p (x ∷ xs) ≡ (if p x then x ∷ [] else []) ++ keep_if p xs
unfolding keep_if
keep_if-cons p x xs = elim (Bool-cases (p x)) [ inl e ↦ rw e refl | inr e ↦ rw e refl ]

collect-cons :
    {A B : Type 0} (f : A → Option B) (x : A) (xs : List A)
    → collect f (x ∷ xs) ≡ one_or_none (f x) ++ collect f xs
unfolding collect one_or_none
collect-cons f x xs = elim (Option-cases (f x)) [
  | inl e ↦ rw (e, collect) refl
  | inr (y, e) ↦ rw (e, collect) refl
]

-- Two results of extraction, one after the other.
abbrev pub joined : Extracted → Extracted → Extracted
joined x y = record {
  remaining = x.remaining ++ y.remaining;
  service_accounts = x.service_accounts ++ y.service_accounts;
  services = x.services ++ y.services;
  errs = x.errs ++ y.errs;
}

joined_assoc : (x y z : Extracted) → joined (joined x y) z ≡ joined x (joined y z)
joined_assoc x y z = cc (
  append_assoc x.remaining y.remaining z.remaining,
  append_assoc x.service_accounts y.service_accounts z.service_accounts,
  append_assoc x.services y.services z.services,
  append_assoc x.errs y.errs z.errs,
)

module _ ⦃k8s : IntOrString⦄ ⦃decoder : ResourceDecoder k8s.Target⦄ where
  -- What one manifest gives, by whether it is of the one kind or of the other.
  abbrev pub part : Bool → Bool → PolicyInput → Extracted
  part a s p = record {
    remaining = if not a && not s then p ∷ [] else [];
    service_accounts =
        one_or_none (if a then account_input (decoder.decode_service_account p.yaml) else none);
    services = one_or_none (if s then service_input (decoder.decode_service p.yaml) else none);
    errs = one_or_none (
        if a
        then parse_error (codes "parse ServiceAccount: ") (decoder.decode_service_account p.yaml)
        else if s
        then parse_error (codes "parse Service: ") (decoder.decode_service p.yaml)
        else none);
  }

  abbrev pub part_of : PolicyInput → Extracted
  part_of p = part (is_account p) (is_service p) p

  abbrev pub taken : List PolicyInput → Extracted
  taken ps = record {
    remaining = keep_if stays ps;
    service_accounts = collect account ps;
    services = collect service ps;
    errs = collect refused ps;
  }

  pub taken-cons :
      (p : PolicyInput) (ps : List PolicyInput) → taken (p ∷ ps) ≡ joined (part_of p) (taken ps)
  taken-cons p ps = cc (
    keep_if-cons stays p ps,
    collect-cons account p ps,
    collect-cons service p ps,
    collect-cons refused p ps,
  )

  abbrev goes_to_accounts : Route → Bool
  goes_to_accounts to_service_accounts = true
  goes_to_accounts r = false

  abbrev goes_to_services : Route → Bool
  goes_to_services to_services = true
  goes_to_services r = false

  kind_is-route_of :
      (d : Decoded Text)
      → (kind_is (codes "ServiceAccount") d ≡ goes_to_accounts (route_of d))
        × (kind_is (codes "Service") d ≡ goes_to_services (route_of d))
  unfolding kind_is route_of text_beq
  kind_is-route_of (failed e) = (refl, refl)
  kind_is-route_of (decoded kind) = elim (Bool-cases (kind == codes "ServiceAccount")) [
    | inl a ↦ let e : kind ≡ codes "ServiceAccount" = (text_beq_iff kind _).0 a in rw e (refl, refl)
    | inr a ↦ elim (Bool-cases (kind == codes "Service")) [
      | inl s ↦ rw (a, s) (refl, refl)
      | inr s ↦ rw (a, s) (refl, refl)
    ]
  ]

  add_service_account-part :
      (d : Decoded CoreServiceAccount) (x : Extracted)
      → add_service_account d x
        ≡ joined x (record {
          remaining = [];
          service_accounts = one_or_none (account_input d);
          services = [];
          errs = one_or_none (parse_error (codes "parse ServiceAccount: ") d);
        })
  unfolding add_service_account account_input parse_error one_or_none
  add_service_account-part (failed e) x =
      cc (append-nil x.remaining, append-nil x.services, append-nil x.service_accounts)
  add_service_account-part (decoded sa) x =
      cc (append-nil x.remaining, append-nil x.services, append-nil x.errs)

  add_service-part :
      (d : Decoded (CoreService k8s.Target)) (x : Extracted)
      → add_service d x
        ≡ joined x (record {
          remaining = [];
          service_accounts = [];
          services = one_or_none (service_input d);
          errs = one_or_none (parse_error (codes "parse Service: ") d);
        })
  unfolding add_service service_input parse_error one_or_none
  add_service-part (failed e) x =
      cc (append-nil x.remaining, append-nil x.services, append-nil x.service_accounts)
  add_service-part (decoded svc) x =
      cc (append-nil x.remaining, append-nil x.service_accounts, append-nil x.errs)

  extract_routed-part :
      (r : Route) (p : PolicyInput) (x : Extracted)
      → extract_routed r p x ≡ joined x (part (goes_to_accounts r) (goes_to_services r) p)
  unfolding extract_routed one_or_none
  extract_routed-part to_policies p x =
      cc (append-nil x.services, append-nil x.service_accounts, append-nil x.errs)
  extract_routed-part to_service_accounts p x =
      add_service_account-part (decoder.decode_service_account p.yaml) x
  extract_routed-part to_services p x = add_service-part (decoder.decode_service p.yaml) x

  extract_step-part_of : (x : Extracted) (p : PolicyInput) → extract_step x p ≡ joined x (part_of p)
  unfolding extract_step
  extract_step-part_of x p =
      let at = kind_is-route_of (decoder.decode_kind p.yaml) in
      extract_routed-part (route_of (decoder.decode_kind p.yaml)) p x
      ∙ ap (λ a. joined x (part a (goes_to_services (route_of (decoder.decode_kind p.yaml))) p))
          (sym at.0)
      ∙ ap (λ s. joined x (part (is_account p) s p)) (sym at.1)

  fold-taken :
      (ps : List PolicyInput) (x : Extracted) → fold extract_step x ps ≡ joined x (taken ps)
  unfolding fold
  fold-taken [] x =
      unfold keep_if collect in
      cc (
        append-nil x.remaining,
        append-nil x.services,
        append-nil x.service_accounts,
        append-nil x.errs,
      )
  fold-taken (p ∷ ps) x =
      fold-taken ps (extract_step x p)
      ∙ ap (λ y. joined y (taken ps)) (extract_step-part_of x p)
      ∙ joined_assoc x (part_of p) (taken ps)
      ∙ ap (joined x) (sym (taken-cons p ps))

  pub extract_inline_resources-taken :
      (ps : List PolicyInput) → extract_inline_resources ps ≡ taken ps
  unfolding extract_inline_resources
  extract_inline_resources-taken ps = fold-taken ps nothing_extracted
