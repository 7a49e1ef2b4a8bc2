-- ===== src/Cilium/Policies/Flavors.antt =====
-- api/load.go and engines/cilium/eval.go: the flavor that is detected for a document of a file
-- says nothing that the Cilium engine does not read in the document itself.
use telepathy.Prelude.{
  ◌≡◌, refl, ap, ◌∙◌, inl, inr, Bool, true, false, ◌&&◌, ◌||◌, some, List, [], ◌∷◌, map,
  if◌then◌else◌, Bool-cases, ◌==◌, ℕ_eq, Text, codes, text_beq, text_eq, has_prefix, bind_agree,
  int_eq,
}
use telepathy.Api.Types.{PolicyInput}
use telepathy.Api.Load.{
  Files, is_blank_doc, flavor_of, detect_flavor, keep_documents, parse_policy_manifests,
}
use telepathy.Cilium.Repository.{Outcome, CiliumLib}
use telepathy.Cilium.Policies.{
  is_k8s_network_policy, loader_of, manifest_head, load_kind, load_head, load_policy, load_policies,
  Loading, Loader, cilium_crd, k8s_network_policy, k8s_cluster_network_policy, no_loader, load_as,
  then_call,
}

-- The policy without its flavor.
abbrev pub unflavored : PolicyInput → PolicyInput
unflavored p = record p { flavor = [] }

implied_flavor :
    (is_np in_group : Bool)
    → (is_np && ((if is_np && in_group then codes "k8s" else []) == codes "k8s" || in_group))
      ≡ (is_np && ([] == codes "k8s" || in_group))
unfolding text_beq
implied_flavor false in_group = refl
implied_flavor true false = refl
implied_flavor true true = refl

module _ ⦃files : Files⦄ ⦃lib : CiliumLib⦄ where
  -- Both packages decode the head of a manifest with the same library.
  abbrev pub HasSameHeads : Type 0
  HasSameHeads =
      (doc kind api_version : Text)
      → lib.unmarshal_head doc ≡ Outcome.done (kind, api_version)
      → files.unmarshal_type doc ≡ some (kind, api_version)

  flavor_of-is_k8s_network_policy :
      (kind api_version : Text)
      → is_k8s_network_policy kind api_version (flavor_of (some (kind, api_version)))
        ≡ is_k8s_network_policy kind api_version []
  unfolding is_k8s_network_policy flavor_of
  flavor_of-is_k8s_network_policy kind api_version =
      implied_flavor (kind == codes "NetworkPolicy")
        (has_prefix api_version (codes "networking.k8s.io/"))

  -- Past the choice of the loader, nothing reads the flavor.
  load_as-unflavored :
      (l : Loader) (p : PolicyInput) (kind : Text) (s : Loading lib.Repository lib.Rule)
      → load_as l p kind s ≡ load_as l (unflavored p) kind s
  unfolding load_as
  load_as-unflavored cilium_crd p kind s = refl
  load_as-unflavored k8s_network_policy p kind s = refl
  load_as-unflavored k8s_cluster_network_policy p kind s = refl
  load_as-unflavored no_loader p kind s = refl

  loader_of-flavor_of :
      (kind api_version : Text)
      → loader_of kind api_version (flavor_of (some (kind, api_version)))
        ≡ loader_of kind api_version []
  unfolding loader_of
  loader_of-flavor_of kind api_version = rw (flavor_of-is_k8s_network_policy kind api_version) refl

  load_head-detect_flavor :
      (doc : Text) (s : Loading lib.Repository lib.Rule) (o : Outcome (Text × Text))
      → lib.unmarshal_head doc ≡ o
      → HasSameHeads
      → load_head (record { flavor = detect_flavor doc; yaml = doc }) s (manifest_head doc)
        ≡ load_head (record { flavor = []; yaml = doc }) s (manifest_head doc)
  unfolding load_head load_kind manifest_head detect_flavor
  load_head-detect_flavor doc s (Outcome.done (kind, api_version)) e same =
      rw (e, then_call)
        (ap
            (λ f.
              load_as (loader_of kind api_version (flavor_of f))
                (record { flavor = detect_flavor doc; yaml = doc }) kind s)
            (same doc kind api_version e)
          ∙ ap (λ l. load_as l (record { flavor = detect_flavor doc; yaml = doc }) kind s)
              (loader_of-flavor_of kind api_version)
          ∙ load_as-unflavored (loader_of kind api_version [])
              (record { flavor = detect_flavor doc; yaml = doc }) kind s)
  load_head-detect_flavor doc s (Outcome.failed x) e same = rw (e, then_call) refl
  load_head-detect_flavor doc s (Outcome.panicked x) e same = rw (e, then_call) refl

  keep_documents-unflavored :
      (docs : List Text) (s : Loading lib.Repository lib.Rule)
      → HasSameHeads
      → load_policies (keep_documents docs) s
        ≡ load_policies (map unflavored (keep_documents docs)) s
  unfolding keep_documents load_policies load_policy
  keep_documents-unflavored [] s same = refl
  keep_documents-unflavored (doc ∷ docs) s same = elim (Bool-cases (is_blank_doc doc)) [
    | inl blank ↦ rw blank (keep_documents-unflavored docs s same)
    | inr full ↦ rw full (
        rw (load_head-detect_flavor doc s (lib.unmarshal_head doc) refl same) (
          bind_agree (load_head (record { flavor = []; yaml = doc }) s (manifest_head doc))
            (load_policies (keep_documents docs))
            (load_policies (map unflavored (keep_documents docs)))
            (λ next h. keep_documents-unflavored docs next same)))
  ]

  -- When both packages decode the head of a manifest alike, the Cilium engine loads the documents
  -- of a policy file, as ParsePolicyManifests reads them, as it loads them with every flavor left
  -- empty.
  pub parse_policy_manifests-unflavored :
      (data_bytes : Text) (s : Loading lib.Repository lib.Rule)
      → HasSameHeads
      → load_policies (parse_policy_manifests data_bytes) s
        ≡ load_policies (map unflavored (parse_policy_manifests data_bytes)) s
  unfolding parse_policy_manifests
  parse_policy_manifests-unflavored data_bytes s same =
      keep_documents-unflavored (files.split_documents data_bytes) s same
