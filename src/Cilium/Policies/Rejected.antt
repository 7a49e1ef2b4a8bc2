-- ===== src/Cilium/Policies/Rejected.antt =====
-- engines/cilium/eval.go: one bad policy is an error, and the other policies load as without it.
use telepathy.Prelude.{
  ℕ, ◌+◌, ◌≡◌, refl, sym, ap, ◌∙◌, inl, inr, Option, none, some, List, [], ◌∷◌, ◌++◌, append_assoc,
  append-nil, arith, Option-cases, ℕ_eq, Text, codes, text_eq, length, length-append, ◌>>=◌, int_eq,
}
use mathlib.Core.Path.{subst}
use telepathy.Api.Types.{PolicyInput}
use telepathy.Cilium.Repository.{Outcome, ResourceId, CiliumLib}
use telepathy.Cilium.Policies.{
  kcnp_kind, recovered, manifest_head, parse_cilium_crd, network_policy_entries,
  cluster_network_policy_entries, load_entries, load_k8s_network_policy,
  load_k8s_cluster_network_policy, Loader, cilium_crd, k8s_network_policy,
  k8s_cluster_network_policy, no_loader, loader_of, after_crd, load_as, load_head, Loading,
  after_load, load_policy, load_policies,
}

-- The error of a call, when it has one that the loop reports.
error_of : {A : Type 0} → Outcome A → Option Text
error_of (Outcome.done a) = none
error_of (Outcome.failed e) = some e
error_of (Outcome.panicked r) = none

-- The same where a deferred function turns a panic into an error.
contained_error_of : {A : Type 0} → Text → Outcome A → Option Text
contained_error_of kind (Outcome.done a) = none
contained_error_of kind (Outcome.failed e) = some e
contained_error_of kind (Outcome.panicked r) = some (recovered kind r)

module _ ⦃lib : CiliumLib⦄ where
  -- The error of a policy of one kind that does not decode, or that its parser refuses.
  unfoldable pub rejection_as : Loader → PolicyInput → Text → Option Text
  unfolding error_of contained_error_of
  rejection_as cilium_crd p kind = error_of (parse_cilium_crd kind p.yaml)
  rejection_as k8s_network_policy p kind =
      contained_error_of (codes "NetworkPolicy") (network_policy_entries p.yaml)
  rejection_as k8s_cluster_network_policy p kind =
      contained_error_of kcnp_kind (cluster_network_policy_entries p.yaml)
  rejection_as no_loader p kind = none

  unfoldable pub rejection_at : PolicyInput → Outcome (Text × Text) → Option Text
  unfolding rejection_as
  rejection_at p (Outcome.done (kind, api_version)) =
      rejection_as (loader_of kind api_version p.flavor) p kind
  rejection_at p (Outcome.failed e) = some e
  rejection_at p (Outcome.panicked r) = none

  -- The error of a policy that is refused before it reaches the repository.
  unfoldable pub rejection : PolicyInput → Option Text
  unfolding rejection_at
  rejection p = rejection_at p (manifest_head p.yaml)

  abbrev with_error : Text → Loading lib.Repository lib.Rule → Loading lib.Repository lib.Rule
  with_error e s = record s { errors = s.errors ++ (e ∷ []) }

  load_entries-contained :
      (kind : Text) (o : Outcome (lib.Entries × ResourceId)) (repo : lib.Repository) (e : Text)
      → contained_error_of kind o ≡ some e
      → load_entries kind repo o ≡ (repo, some e)
  unfolding contained_error_of load_entries
  load_entries-contained kind (Outcome.done a) repo e h = cc
  load_entries-contained kind (Outcome.failed x) repo e h = cc
  load_entries-contained kind (Outcome.panicked r) repo e h = cc

  after_crd-error_of :
      (s : Loading lib.Repository lib.Rule) (o : Outcome (List lib.Rule)) (e : Text)
      → error_of o ≡ some e
      → after_crd s o ≡ some (with_error e s)
  unfolding error_of after_crd
  after_crd-error_of s (Outcome.done rs) e h = cc
  after_crd-error_of s (Outcome.failed x) e h = cc
  after_crd-error_of s (Outcome.panicked r) e h = cc

  load_as-rejected :
      (l : Loader) (p : PolicyInput) (kind : Text) (s : Loading lib.Repository lib.Rule) (e : Text)
      → rejection_as l p kind ≡ some e
      → load_as l p kind s ≡ some (with_error e s)
  unfolding rejection_as load_as load_k8s_network_policy load_k8s_cluster_network_policy
  load_as-rejected cilium_crd p kind s e h = after_crd-error_of s (parse_cilium_crd kind p.yaml) e h
  load_as-rejected k8s_network_policy p kind s e h =
      rw (load_entries-contained (codes "NetworkPolicy") (network_policy_entries p.yaml) s.repo e h)
        refl
  load_as-rejected k8s_cluster_network_policy p kind s e h =
      rw (load_entries-contained kcnp_kind (cluster_network_policy_entries p.yaml) s.repo e h) refl
  load_as-rejected no_loader p kind s e h = cc

  load_head-rejected :
      (p : PolicyInput) (s : Loading lib.Repository lib.Rule) (o : Outcome (Text × Text)) (e : Text)
      → rejection_at p o ≡ some e
      → load_head p s o ≡ some (with_error e s)
  unfolding rejection_at load_head
  load_head-rejected p s (Outcome.done (kind, api_version)) e h =
      load_as-rejected (loader_of kind api_version p.flavor) p kind s e h
  load_head-rejected p s (Outcome.failed x) e h = cc
  load_head-rejected p s (Outcome.panicked r) e h = cc

  -- The same loading after errors of other policies.
  abbrev after_errors :
      List Text → Loading lib.Repository lib.Rule → Loading lib.Repository lib.Rule
  after_errors es s = record s { errors = es ++ s.errors }

  abbrev shifted :
      List Text
      → Option (Loading lib.Repository lib.Rule)
      → Option (Loading lib.Repository lib.Rule)
  shifted es none = none
  shifted es (some s) = some (after_errors es s)

  after_load-after_errors :
      (es : List Text) (s : Loading lib.Repository lib.Rule) (r : lib.Repository × Option Text)
      → after_load (after_errors es s) r ≡ after_errors es (after_load s r)
  unfolding after_load
  after_load-after_errors es s (repo, none) = refl
  after_load-after_errors es s (repo, some e) = cc (append_assoc es s.errors (e ∷ []))

  after_crd-after_errors :
      (es : List Text) (s : Loading lib.Repository lib.Rule) (o : Outcome (List lib.Rule))
      → after_crd (after_errors es s) o ≡ shifted es (after_crd s o)
  unfolding after_crd
  after_crd-after_errors es s (Outcome.done rs) = refl
  after_crd-after_errors es s (Outcome.failed e) = cc (append_assoc es s.errors (e ∷ []))
  after_crd-after_errors es s (Outcome.panicked r) = refl

  load_as-after_errors :
      (l : Loader) (p : PolicyInput) (kind : Text) (es : List Text)
      (s : Loading lib.Repository lib.Rule)
      → load_as l p kind (after_errors es s) ≡ shifted es (load_as l p kind s)
  unfolding load_as
  load_as-after_errors cilium_crd p kind es s =
      after_crd-after_errors es s (parse_cilium_crd kind p.yaml)
  load_as-after_errors k8s_network_policy p kind es s =
      ap some (after_load-after_errors es s (load_k8s_network_policy s.repo p.yaml))
  load_as-after_errors k8s_cluster_network_policy p kind es s =
      ap some (after_load-after_errors es s (load_k8s_cluster_network_policy s.repo p.yaml))
  load_as-after_errors no_loader p kind es s = refl

  load_head-after_errors :
      (p : PolicyInput) (es : List Text) (s : Loading lib.Repository lib.Rule)
      (o : Outcome (Text × Text))
      → load_head p (after_errors es s) o ≡ shifted es (load_head p s o)
  unfolding load_head
  load_head-after_errors p es s (Outcome.done (kind, api_version)) =
      load_as-after_errors (loader_of kind api_version p.flavor) p kind es s
  load_head-after_errors p es s (Outcome.failed e) = cc (append_assoc es s.errors (e ∷ []))
  load_head-after_errors p es s (Outcome.panicked r) = refl

  shifted_bind :
      (f : Loading lib.Repository lib.Rule → Option (Loading lib.Repository lib.Rule))
      (es : List Text) (o : Option (Loading lib.Repository lib.Rule))
      → ((s : Loading lib.Repository lib.Rule) → f (after_errors es s) ≡ shifted es (f s))
      → (shifted es o >>= f) ≡ shifted es (o >>= f)
  shifted_bind f es none h = refl
  shifted_bind f es (some s) h = h s

  load_policies-after_errors :
      (ps : List PolicyInput) (es : List Text) (s : Loading lib.Repository lib.Rule)
      → load_policies ps (after_errors es s) ≡ shifted es (load_policies ps s)
  unfolding load_policies load_policy
  load_policies-after_errors [] es s = refl
  load_policies-after_errors (p ∷ ps) es s =
      rw (load_head-after_errors p es s (manifest_head p.yaml)) (
        shifted_bind (load_policies ps) es (load_head p s (manifest_head p.yaml))
          (load_policies-after_errors ps es))

  -- What a loading holds, with the number of its errors and `n` more in place of their texts.
  abbrev pub summary :
      ℕ
      → Option (Loading lib.Repository lib.Rule)
      → Option (lib.Repository × List lib.Rule × List Text × ℕ)
  summary n none = none
  summary n (some s) = some (s.repo, s.cnp_rules, s.warnings, length s.errors + n)

  summary-shifted :
      (n : ℕ) (es : List Text) (o : Option (Loading lib.Repository lib.Rule))
      → summary n (shifted es o) ≡ summary (length es + n) o
  summary-shifted n es none = refl
  summary-shifted n es (some s) =
      let count : length (es ++ s.errors) + n ≡ length s.errors + (length es + n) =
        omega (arith, length-append es s.errors) in
      rw count refl

  -- A loading, from the same one without errors.
  load_policies-summary :
      (ps : List PolicyInput) (n : ℕ) (es : List Text) (s : Loading lib.Repository lib.Rule)
      → summary n (load_policies ps (record s { errors = es }))
        ≡ summary (length es + n) (load_policies ps (record s { errors = [] }))
  load_policies-summary ps n es s =
      let clean = record s { errors = [] } in
      subst
        (λ xs.
          summary n (load_policies ps (record s { errors = xs }))
          ≡ summary (length es + n) (load_policies ps clean))
        (append-nil es)
        (ap (summary n) (load_policies-after_errors ps es clean)
          ∙ summary-shifted n es (load_policies ps clean))

  -- Wherever a policy stands that does not decode, that its parser refuses, or whose Kubernetes
  -- parser panics, the loop over the policies ends with the repository, the rules and the warnings
  -- that it would have without that policy, and with one error more.
  pub load_policies-rejected :
      (before after : List PolicyInput) (p : PolicyInput) (e : Text)
      (s : Loading lib.Repository lib.Rule)
      → rejection p ≡ some e
      → summary 0 (load_policies (before ++ p ∷ after) s)
        ≡ summary 1 (load_policies (before ++ after) s)
  unfolding load_policies load_policy rejection
  load_policies-rejected [] after p e s h =
      let count : length (s.errors ++ (e ∷ [])) + 0 ≡ length s.errors + 1 =
        omega (arith, length-append s.errors (e ∷ [])) in
      rw (load_head-rejected p s (manifest_head p.yaml) e h) (
        load_policies-summary after 0 (s.errors ++ (e ∷ [])) s
        ∙ ap (λ n. summary n (load_policies after (record s { errors = [] }))) count
        ∙ sym (load_policies-summary after 1 s.errors s))
  load_policies-rejected (q ∷ before) after p e s h = elim (Option-cases (load_policy q s)) [
    | inl none_left ↦ rw none_left refl
    | inr (next, eq) ↦ rw eq (load_policies-rejected before after p e next h)
  ]
