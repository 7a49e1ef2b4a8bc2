-- ===== src/Cilium/Total.antt =====
-- engines/cilium/eval.go: no index of `evaluate` is out of range, so it returns a response unless
-- Cilium panics where nothing recovers.
use telepathy.Prelude.{
  ℕ, zero, suc, ◌+◌, ◌≡◌, refl, ap, ◌∙◌, inl, inr, Bool, true, false, not, ◌&&◌, Option, none, some,
  List, [], ◌∷◌, ◌++◌, arith, nat_eq, if◌then◌else◌, Bool-cases, ◌==◌, ℕ_eq, Text, text_eq,
  get_elem?, All, get_elem?-map, ◌>>=◌, Map, put, int_eq,
}
use mathlib.Core.Option
use telepathy.Api.Types.{Endpoint, PolicyInput, Request, Response, flow_key}
use telepathy.Api.Pairs.{enumerate, endpoint_pairs}
use telepathy.Antrea.WellFormed.{InRange, endpoint_pairs-InRange}
use telepathy.Cilium.Repository.{Outcome, Manifest, Flow, CiliumLib}
use telepathy.Cilium.Defaults.{EndpointDirections, affected_directions}
use telepathy.Cilium.Identities.{uint16, identity_of, ns_labels_of}
use telepathy.Cilium.Policies.{
  cnp_kind, then_call, manifest_head, parse_cilium_crd, Loader, cilium_crd, k8s_network_policy,
  k8s_cluster_network_policy, no_loader, loader_of, Loading, after_crd, load_as, load_kind,
  load_head, load_policy, load_policies,
}
use telepathy.Cilium.Unrestricted.{slot, affected_directions-exact}
use telepathy.Cilium.Evaluate.{
  flow_of, unaffected, may_skip, looked_up, flow_verdict, fill, identities, load, probe_proto,
  probe_port, evaluate_with_defaults,
}

-- An option that holds something.
abbrev pub Returns {ℓ} : {A : Type ℓ} → Option A → Type ℓ
Returns {A = A} o = (a : A) × (o ≡ some a)

-- The call did not panic.
unfoldable pub is_calm : {A : Type 0} → Outcome A → Bool
is_calm (Outcome.done a) = true
is_calm (Outcome.failed e) = true
is_calm (Outcome.panicked r) = false

then_call-is_calm :
    {A B : Type 0} (wrap : Text → Text) (f : A → Outcome B) (o : Outcome A)
    → is_calm o ≡ true
    → ((a : A) → is_calm (f a) ≡ true)
    → is_calm (then_call wrap f o) ≡ true
unfolding then_call is_calm
then_call-is_calm wrap f (Outcome.done a) h k = k a
then_call-is_calm wrap f (Outcome.failed e) h k = refl
then_call-is_calm wrap f (Outcome.panicked r) h k = h

bind-Returns :
    {A B : Type 0} (o : Option A) (f : A → Option B)
    → Returns o
    → ((a : A) → o ≡ some a → Returns (f a))
    → Returns (o >>= f)
bind-Returns none f (a, e) k = cc e
bind-Returns (some b) f h k = k b refl

if_Returns :
    {A : Type 0} (b : Bool) (x y : Option A) → Returns x → Returns y → Returns (if b then x else y)
if_Returns true x y h k = h
if_Returns false x y h k = k

get_elem?-enumerate :
    {A : Type 0} (n i : ℕ) (xs : List A) (x : A)
    → get_elem? xs i ≡ some x
    → get_elem? (enumerate n xs) i ≡ some (n + i, x)
unfolding enumerate
get_elem?-enumerate n i [] x h = cc h
get_elem?-enumerate n zero (y ∷ ys) x h = let e : n ≡ n + 0 = omega arith in cc (h, e)
get_elem?-enumerate n (suc i) (y ∷ ys) x h =
    let e : suc n + i ≡ n + suc i = omega arith in
    get_elem?-enumerate (suc n) i ys x h ∙ ap (λ k. some (k, x)) e

module _ ⦃lib : CiliumLib⦄ where
  -- The calls of Cilium that no deferred function covers return or report an error.
  pub record NeverPanics : Type 0 where
    pub calm_head : (doc : Text) → is_calm (lib.unmarshal_head doc) ≡ true
    pub calm_cnp : (doc : Text) → is_calm (lib.unmarshal_cnp doc) ≡ true
    pub calm_ccnp : (doc : Text) → is_calm (lib.unmarshal_ccnp doc) ≡ true
    pub calm_parse_cnp : (m : Manifest lib.CnpSpec) → is_calm (lib.parse_cnp m) ≡ true
    pub calm_parse_ccnp : (m : Manifest lib.CcnpSpec) → is_calm (lib.parse_ccnp m) ≡ true
    pub calm_lookup :
        (repo : lib.Repository) (flow : Flow lib.Label lib.LabelArray)
        → is_calm (lib.lookup_flow repo flow) ≡ true

  module _ (never : NeverPanics) where
    parse_cilium_crd-is_calm : (kind doc : Text) → is_calm (parse_cilium_crd kind doc) ≡ true
    unfolding parse_cilium_crd is_calm
    parse_cilium_crd-is_calm kind doc = elim (Bool-cases (kind == cnp_kind)) [
      | inl hk ↦ rw hk (
          then_call-is_calm _ _ (lib.unmarshal_cnp doc) (never.calm_cnp doc)
            (λ m. then_call-is_calm _ _ _ (never.calm_parse_cnp _) (λ rs. refl)))
      | inr hk ↦ rw hk (
          then_call-is_calm _ _ (lib.unmarshal_ccnp doc) (never.calm_ccnp doc)
            (λ m. then_call-is_calm _ _ _ (never.calm_parse_ccnp _) (λ rs. refl)))
    ]

    after_crd-Returns :
        (s : Loading lib.Repository lib.Rule) (o : Outcome (List lib.Rule))
        → is_calm o ≡ true
        → Returns (after_crd s o)
    unfolding after_crd is_calm
    after_crd-Returns s (Outcome.done rs) h = (_, refl)
    after_crd-Returns s (Outcome.failed e) h = (_, refl)
    after_crd-Returns s (Outcome.panicked r) h = cc h

    load_as-Returns :
        (l : Loader) (p : PolicyInput) (kind : Text) (s : Loading lib.Repository lib.Rule)
        → Returns (load_as l p kind s)
    unfolding load_as
    load_as-Returns cilium_crd p kind s =
        after_crd-Returns s _ (parse_cilium_crd-is_calm kind p.yaml)
    load_as-Returns k8s_network_policy p kind s = (_, refl)
    load_as-Returns k8s_cluster_network_policy p kind s = (_, refl)
    load_as-Returns no_loader p kind s = (_, refl)

    load_head-Returns :
        (p : PolicyInput) (s : Loading lib.Repository lib.Rule) (o : Outcome (Text × Text))
        → is_calm o ≡ true
        → Returns (load_head p s o)
    unfolding load_head load_kind is_calm
    load_head-Returns p s (Outcome.done (kind, api_version)) h =
        load_as-Returns (loader_of kind api_version p.flavor) p kind s
    load_head-Returns p s (Outcome.failed e) h = (_, refl)
    load_head-Returns p s (Outcome.panicked r) h = cc h

    load_policies-Returns :
        (ps : List PolicyInput) (s : Loading lib.Repository lib.Rule) → Returns (load_policies ps s)
    unfolding load_policies load_policy manifest_head is_calm
    load_policies-Returns [] s = (s, refl)
    load_policies-Returns (p ∷ ps) s =
        bind-Returns _ _
          (load_head-Returns p s _ (then_call-is_calm _ _ _ (never.calm_head p.yaml) (λ h. refl)))
          (λ next e. load_policies-Returns ps next)

    looked_up-Returns :
        (src dst : Text) (o : Outcome Bool) → is_calm o ≡ true → Returns (looked_up src dst o)
    unfolding looked_up is_calm
    looked_up-Returns src dst (Outcome.done true) h = (_, refl)
    looked_up-Returns src dst (Outcome.done false) h = (_, refl)
    looked_up-Returns src dst (Outcome.failed e) h = (_, refl)
    looked_up-Returns src dst (Outcome.panicked r) h = cc h

    -- One pair in range.
    module _ (req : Request) (repo : lib.Repository) (optimize : Bool) where
      abbrev directions : List EndpointDirections
      directions = if optimize then affected_directions repo (identities req) else []

      identities-some :
          (i : ℕ) (ep : Endpoint)
          → get_elem? req.endpoints i ≡ some ep
          → Returns (get_elem? (identities req) i)
      unfolding identities
      identities-some i ep h =
          let identify = identity_of (ns_labels_of req.namespaces []) in
          (
            identify (0 + i, ep),
            get_elem?-map identify (enumerate 0 req.endpoints) i
                ∙ ap (Option.map identify) (get_elem?-enumerate 0 i req.endpoints ep h),
          )

      pub flow_of-Returns :
          (proto dport : ℕ) (i j : ℕ)
          → InRange req.endpoints (i, j)
          → Returns (flow_of req.endpoints (identities req) proto dport (i, j))
      unfolding flow_of
      flow_of-Returns proto dport i j (src, dst, hi, hj) =
          bind-Returns _ _ (dst, hj)
            (λ d ed.
              bind-Returns _ _ (identities-some i src hi)
                (λ from ef. bind-Returns _ _ (identities-some j dst hj) (λ to et. (_, refl))))

      affected_directions-some :
          (i : ℕ) (ep : Endpoint)
          → get_elem? req.endpoints i ≡ some ep
          → Returns (get_elem? (affected_directions repo (identities req)) i)
      affected_directions-some i ep h =
          let id = identities-some i ep h in
          (
            slot repo id.0,
            ap (λ xs. get_elem? xs i) (affected_directions-exact repo (identities req))
                ∙ get_elem?-map (slot repo) (identities req) i
                ∙ ap (Option.map (slot repo)) id.1,
          )

      may_skip-Returns :
          (proto dport : ℕ) (i j : ℕ)
          → InRange req.endpoints (i, j)
          → Returns (may_skip optimize directions proto dport (i, j))
      unfolding may_skip unaffected
      may_skip-Returns proto dport i j (src, dst, hi, hj) =
          elim optimize
            as (λ o. Returns (
              may_skip o (if o then affected_directions repo (identities req) else []) proto dport
                (i, j))) [
                  | false ↦ (false, refl)
                  | true ↦
                      if_Returns (not (nat_eq dport 0) && not (nat_eq proto 0)) _ _
                        (bind-Returns _ _ (affected_directions-some i src hi) (λ at_src es.
                          bind-Returns _ _ (affected_directions-some j dst hj)
                            (λ at_dst ed. (_, refl))))
                        (false, refl)
                ]

      flow_verdict-Returns :
          (skip : Bool) (src dst : Text) (flow : Flow lib.Label lib.LabelArray)
          → Returns (flow_verdict repo skip src dst flow)
      unfolding flow_verdict
      flow_verdict-Returns skip src dst flow =
          if_Returns skip _ _ (_, refl) (looked_up-Returns src dst _ (never.calm_lookup repo flow))

      fill-Returns :
          (proto dport : ℕ) (pairs : List (ℕ × ℕ)) (acc : Map Text Text × List Text)
          → All (InRange req.endpoints) pairs
          → Returns
              (fill repo optimize directions req.endpoints (identities req) proto dport pairs acc)
      unfolding fill
      fill-Returns proto dport [] acc h = (acc, refl)
      fill-Returns proto dport ((i, j) ∷ pairs) (matrix, warnings) h =
          bind-Returns _ _ (h.0.0, h.0.2)
            (λ src es.
              bind-Returns _ _ (h.0.1, h.0.3)
                (λ dst ed. bind-Returns _ _ (flow_of-Returns proto dport i j h.0) (λ flow ef.
                  bind-Returns _ _ (may_skip-Returns proto dport i j h.0) (λ skip ek.
                    bind-Returns _ _ (flow_verdict-Returns skip src.id dst.id flow) (λ verdict ev.
                      fill-Returns proto dport pairs
                        (put (flow_key src.id dst.id) verdict.0 matrix, warnings ++ verdict.1)
                        h.1)))))

  -- When the calls of Cilium that nothing covers never panic, evaluateWithDefaults returns a
  -- response for every request, with the index or without it.
  pub evaluate_with_defaults-Returns :
      NeverPanics
      → (req : Request) (optimize : Bool)
      → (resp : Response) × (evaluate_with_defaults req optimize ≡ some resp)
  unfolding evaluate_with_defaults load
  evaluate_with_defaults-Returns never req optimize =
      bind-Returns _ _
        (bind-Returns _ _ (load_policies-Returns never req.policies _) (λ s es. (_, refl)))
        (λ loaded el.
          bind-Returns _ _
            (fill-Returns never req loaded.repo optimize (probe_proto req.protocol)
              (uint16 (probe_port req.port)) (endpoint_pairs req.endpoints req.matrix_pairs) _
              (endpoint_pairs-InRange req.endpoints req.matrix_pairs))
            (λ filled ef. (_, refl)))
