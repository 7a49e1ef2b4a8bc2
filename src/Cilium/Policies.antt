-- ===== src/Cilium/Policies.antt =====
-- engines/cilium/eval.go: each manifest goes to the loader of its kind. A loader that decodes and
-- parses before it touches the repository leaves the repository alone when that fails.
pub mod Rejected
pub mod Flavors
use telepathy.Prelude.{
  ℕ, zero, suc, ◌+◌, ◌-◌, ◌*◌, ◌/◌, ◌%◌, ◌^◌, ◌≤◌, ◌<◌, ◌≡◌, refl, sym, ap, ◌∙◌, ◌≢◌, ◌↔◌, ◌⊎◌, inl,
  inr, Bool, true, false, not, ◌&&◌, ◌||◌, Option, none, some, List, [], ◌∷◌, ◌++◌, map,
  append_assoc, append-nil, arith, ltb, leb, nat_eq, nat_eq_iff, ltb→lt, lt→ltb, leb→le,
  if◌then◌else◌, Bool-cases, Option-cases, Eq, ◌==◌, ==_refl, ==_ne, ℕ_eq, bool_eq, or_assoc, Text,
  codes, text_beq, text_beq_iff, text_eq, is_empty, to_lower, trim_space, equal_fold, has_prefix,
  has_text, split_byte, cut_byte, length, get_elem?, length-append, All, All-append,
  All-append_parts, All-mono, All-both, any, any-append, get_elem?-map, length-map, map_pointwise,
  fold, fold-append, set_at, get_elem?-set_at_self, get_elem?-set_at_other, get_elem?-append_left,
  get_elem?-append_right, get_elem?-append_end, get_elem?-append_cases, every, Member,
  Member-append, every-append, contains, is_nil, ◌>>=◌, itoa, quote, text_leb, insert_sorted,
  sort_texts, join, int_itoa, Map, or_zero, get, put, get-put, get-put_self, HasDistinctKeys,
  put-HasDistinctKeys, ℤ, pos, negsuc, int_beq, int_leb, int_beq_iff, int_eq,
}
use telepathy.Api.Types.{PolicyInput, Request}
use telepathy.Cilium.Repository.{
  Outcome, Manifest, ResourceKind, netpol, kcnp, ResourceId, CiliumLib,
}

unfoldable pub is_k8s_network_policy : Text → Text → Text → Bool
is_k8s_network_policy kind api_version flavor =
    kind == codes "NetworkPolicy"
    && (flavor == codes "k8s" || has_prefix api_version (codes "networking.k8s.io/"))

-- The two kinds of `CiliumNetworkPolicy`, and the two that Kubernetes has.
abbrev pub cnp_kind : Text
cnp_kind = codes "CiliumNetworkPolicy"

abbrev pub ccnp_kind : Text
ccnp_kind = codes "CiliumClusterwideNetworkPolicy"

abbrev pub kcnp_kind : Text
kcnp_kind = codes "ClusterNetworkPolicy"

-- The case of the `switch` that a manifest takes.
pub data Loader : Type 0 where
  cilium_crd : Loader
  k8s_network_policy : Loader
  k8s_cluster_network_policy : Loader
  no_loader : Loader

unfoldable pub loader_of : Text → Text → Text → Loader
unfolding is_k8s_network_policy
loader_of kind api_version flavor =
    if kind == cnp_kind || kind == ccnp_kind
    then cilium_crd
    else if is_k8s_network_policy kind api_version flavor
    then k8s_network_policy
    else if kind == kcnp_kind
    then k8s_cluster_network_policy
    else no_loader

-- `fmt.Errorf("cilium provider: cannot decode %s: %v")` and `fmt.Errorf("... invalid %s %q: %v")`
abbrev cannot_decode : Text → Text → Text
cannot_decode kind e = codes "cilium provider: cannot decode " ++ kind ++ codes ": " ++ e

abbrev invalid : Text → Text → Text → Text
invalid kind name e =
    codes "cilium provider: invalid " ++ kind ++ codes " " ++ quote name ++ codes ": " ++ e

abbrev pub recovered : Text → Text → Text
recovered kind r = codes "cilium provider: load k8s " ++ kind ++ codes ": " ++ r

-- `if ns == "" { ns = "default" }`
abbrev or_default : Text → Text
or_default ns = if is_empty ns then codes "default" else ns

-- A call that may fail or panic, under another one; a panic passes through.
unfoldable pub then_call : {A B : Type 0} → (Text → Text) → (A → Outcome B) → Outcome A → Outcome B
then_call wrap f (Outcome.done a) = f a
then_call wrap f (Outcome.failed e) = Outcome.failed (wrap e)
then_call wrap f (Outcome.panicked r) = Outcome.panicked r

module _ ⦃lib : CiliumLib⦄ where
  unfoldable pub manifest_head : Text → Outcome (Text × Text)
  unfolding then_call
  manifest_head yaml_text =
      then_call (λ e. codes "cilium provider: cannot parse manifest: " ++ e) Outcome.done
        (lib.unmarshal_head yaml_text)

  unfoldable pub parse_cilium_crd : Text → Text → Outcome (List lib.Rule)
  unfolding then_call
  parse_cilium_crd kind yaml_text =
      if kind == cnp_kind
      then then_call (cannot_decode cnp_kind)
          (λ cnp.
            let named = record cnp { namespace = or_default cnp.namespace } in
            then_call (invalid cnp_kind cnp.name) Outcome.done (lib.parse_cnp named))
          (lib.unmarshal_cnp yaml_text)
      else then_call (cannot_decode ccnp_kind)
          (λ ccnp. then_call (invalid ccnp_kind ccnp.name) Outcome.done (lib.parse_ccnp ccnp))
          (lib.unmarshal_ccnp yaml_text)

  -- What the deferred function makes of the end of a loader: the repository and the error.
  unfoldable pub load_entries :
      Text → lib.Repository → Outcome (lib.Entries × ResourceId) → lib.Repository × Option Text
  load_entries kind repo (Outcome.failed e) = (repo, some e)
  load_entries kind repo (Outcome.panicked r) = (repo, some (recovered kind r))
  load_entries kind repo (Outcome.done (entries, id)) =
      let replaced = lib.replace_by_resource entries id repo in
      (replaced.0, elim replaced.1 [ none ↦ none | some r ↦ some (recovered kind r) ])

  -- The entries of a NetworkPolicy and their resource id, up to `ReplaceByResource`.
  unfoldable pub network_policy_entries : Text → Outcome (lib.Entries × ResourceId)
  unfolding then_call
  network_policy_entries yaml_text =
      then_call (cannot_decode (codes "NetworkPolicy"))
        (λ np.
          then_call (invalid (codes "NetworkPolicy") np.name)
            (λ entries. Outcome.done (
              entries,
              record { kind = netpol; namespace = or_default np.namespace; name = np.name },
            ))
            (lib.parse_network_policy np))
        (lib.unmarshal_np yaml_text)

  unfoldable pub load_k8s_network_policy : lib.Repository → Text → lib.Repository × Option Text
  unfolding network_policy_entries load_entries
  load_k8s_network_policy repo yaml_text =
      load_entries (codes "NetworkPolicy") repo (network_policy_entries yaml_text)

  -- The same of a ClusterNetworkPolicy, whose resource id has no namespace.
  unfoldable pub cluster_network_policy_entries : Text → Outcome (lib.Entries × ResourceId)
  unfolding then_call
  cluster_network_policy_entries yaml_text =
      then_call (cannot_decode kcnp_kind)
        (λ cnp.
          then_call (invalid kcnp_kind cnp.name)
            (λ entries.
              Outcome.done (entries, record { kind = kcnp; namespace = []; name = cnp.name }))
            (lib.parse_cluster_network_policy cnp))
        (lib.unmarshal_kcnp yaml_text)

  unfoldable pub load_k8s_cluster_network_policy :
      lib.Repository → Text → lib.Repository × Option Text
  unfolding cluster_network_policy_entries load_entries
  load_k8s_cluster_network_policy repo yaml_text =
      load_entries kcnp_kind repo (cluster_network_policy_entries yaml_text)

-- What the loop over the policies changes.
pub record Loading (Repository Rule : Type 0) : Type 0 where
  pub repo : Repository
  pub cnp_rules : List Rule
  pub errors : List Text
  pub warnings : List Text

abbrev pub skipped_kind : Text → Text
skipped_kind kind =
    codes "cilium provider: skipping manifest kind "
    ++ quote kind
    ++ codes " (evaluated kinds: CiliumNetworkPolicy, CiliumClusterwideNetworkPolicy, "
    ++ codes "k8s NetworkPolicy, ClusterNetworkPolicy)"

module _ ⦃lib : CiliumLib⦄ where
  -- `if err != nil { resp.Errors = append(resp.Errors, err.Error()) }`
  unfoldable pub after_load :
      Loading lib.Repository lib.Rule
      → lib.Repository × Option Text
      → Loading lib.Repository lib.Rule
  after_load s (repo, none) = record s { repo = repo }
  after_load s (repo, some e) = record s { repo = repo; errors = s.errors ++ (e ∷ []) }

  -- The case of the two kinds of Cilium.
  unfoldable pub after_crd :
      Loading lib.Repository lib.Rule
      → Outcome (List lib.Rule)
      → Option (Loading lib.Repository lib.Rule)
  after_crd s (Outcome.done rs) = some (record s { cnp_rules = s.cnp_rules ++ rs })
  after_crd s (Outcome.failed e) = some (record s { errors = s.errors ++ (e ∷ []) })
  after_crd s (Outcome.panicked r) = none

  -- The cases of the `switch`.
  unfoldable pub load_as :
      Loader
      → PolicyInput
      → Text
      → Loading lib.Repository lib.Rule
      → Option (Loading lib.Repository lib.Rule)
  unfolding after_load after_crd
  load_as cilium_crd p kind s = after_crd s (parse_cilium_crd kind p.yaml)
  load_as k8s_network_policy p kind s = some (after_load s (load_k8s_network_policy s.repo p.yaml))
  load_as k8s_cluster_network_policy p kind s =
      some (after_load s (load_k8s_cluster_network_policy s.repo p.yaml))
  load_as no_loader p kind s = some (record s { warnings = s.warnings ++ (skipped_kind kind ∷ []) })

  -- The body of the loop once the head is known.
  unfoldable pub load_kind :
      PolicyInput
      → Text × Text
      → Loading lib.Repository lib.Rule
      → Option (Loading lib.Repository lib.Rule)
  unfolding load_as
  load_kind p (kind, api_version) s = load_as (loader_of kind api_version p.flavor) p kind s

  -- What follows the head of a manifest. A panic that nothing contains ends the program: `none`.
  unfoldable pub load_head :
      PolicyInput
      → Loading lib.Repository lib.Rule
      → Outcome (Text × Text)
      → Option (Loading lib.Repository lib.Rule)
  unfolding load_kind
  load_head p s (Outcome.done head) = load_kind p head s
  load_head p s (Outcome.failed e) = some (record s { errors = s.errors ++ (e ∷ []) })
  load_head p s (Outcome.panicked r) = none

  unfoldable pub load_policy :
      PolicyInput → Loading lib.Repository lib.Rule → Option (Loading lib.Repository lib.Rule)
  unfolding load_head
  load_policy p s = load_head p s (manifest_head p.yaml)

  unfoldable pub load_policies :
      List PolicyInput → Loading lib.Repository lib.Rule → Option (Loading lib.Repository lib.Rule)
  unfolding load_policy
  load_policies [] s = some s
  load_policies (p ∷ ps) s = do next ← load_policy p s; load_policies ps next

  -- `MustAddList` when there are rules, with its panic contained.
  unfoldable pub add_rules : Loading lib.Repository lib.Rule → Loading lib.Repository lib.Rule
  unfolding after_load
  add_rules s =
      let added = lib.must_add_list s.cnp_rules s.repo in
      if is_nil s.cnp_rules
      then s
      else after_load s (
        added.0,
        elim added.1 [ none ↦ none | some r ↦ some (codes "cilium provider: load rules: " ++ r) ],
      )
