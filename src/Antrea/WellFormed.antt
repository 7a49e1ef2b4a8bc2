-- ===== src/Antrea/WellFormed.antt =====
-- engines/antrea: what `build` makes is well formed, and every pair that is visited is in range.
use telepathy.Prelude.{
  ℕ, ◌<◌, ◌≡◌, refl, Bool, true, false, Option, none, some, List, [], ◌∷◌, ◌++◌, arith, ℕ_eq, Text,
  codes, text_eq, get_elem?, All, All-append, any, itoa, Map, put, HasDistinctKeys,
  put-HasDistinctKeys, int_eq,
}
use telepathy.Api.Types.{Endpoint, PolicyInput, Request}
use telepathy.Api.Pairs.{endpoint_pairs}
use telepathy.Api.Pairs.Visits.{times}
use telepathy.Api.Pairs.Exactness.{wanted, hits, endpoint_pairs-times}
use telepathy.Api.Types.{MatrixPair}
use telepathy.Net.{Net}
use telepathy.Antrea.Types.{Model}
use telepathy.Antrea.Manifests.{Decoded, ok, err, NetworkPolicy, Grouping}
use telepathy.Antrea.Build.{
  Builder, name_set, resolve, resolve_policy, parse_k8s_network_policy, build_step, build_loop,
  build,
}
use telepathy.Antrea.Equivalence.{IsWellFormed}

name_set-HasDistinctKeys :
    (ps : List (Text × Text)) (out : Map Text Bool)
    → HasDistinctKeys out
    → HasDistinctKeys (name_set ps out)
unfolding name_set
name_set-HasDistinctKeys [] out h = h
name_set-HasDistinctKeys ((ns, name) ∷ rest) out h =
    name_set-HasDistinctKeys rest (put (ns ++ codes "/" ++ name) true out)
      (put-HasDistinctKeys (ns ++ codes "/" ++ name) true out h)

module _ ⦃net : Net⦄ ⦃group : Grouping⦄ where
  applied_to-HasDistinctKeys :
      (b : Builder) (np : NetworkPolicy group.Selector)
      → HasDistinctKeys (resolve_policy b np).0.applied_to
  unfolding resolve_policy resolve
  applied_to-HasDistinctKeys b np =
      let name = codes "g" ++ itoa b.1 in
      name_set-HasDistinctKeys
        (group.get_entities name
          (group.add_group name np.namespace (some np.pod_selector) none b.0))
        [] tt

  build_step-IsWellFormed :
      (b : Builder) (r : Decoded (Option (NetworkPolicy group.Selector) × Text))
      (m : Model net.Cidr)
      → IsWellFormed m.policies
      → IsWellFormed (build_step b r m).0.policies
  unfolding build_step
  build_step-IsWellFormed b (err e) m h = h
  build_step-IsWellFormed b (ok (none, kind)) m h = h
  build_step-IsWellFormed b (ok (some np, kind)) m h =
      All-append m.policies ((resolve_policy b np).0 ∷ []) (λ q. HasDistinctKeys q.applied_to) h
        (applied_to-HasDistinctKeys b np, tt)

  build_loop-IsWellFormed :
      (b : Builder) (ps : List PolicyInput) (m : Model net.Cidr)
      → IsWellFormed m.policies
      → IsWellFormed (build_loop b ps m).policies
  unfolding build_loop
  build_loop-IsWellFormed b [] m h = h
  build_loop-IsWellFormed b (p ∷ ps) m h =
      let r = parse_k8s_network_policy p in
      build_loop-IsWellFormed (build_step b r m).1 ps (build_step b r m).0
        (build_step-IsWellFormed b r m h)

  -- Every model that `build` makes has Go maps for its sets of selected pods.
  pub build-IsWellFormed : (req : Request) → IsWellFormed (build req).policies
  unfolding build
  build-IsWellFormed req = build_loop-IsWellFormed _ req.policies _ tt

-- A pair of indices, with the endpoints there.
abbrev pub InRange : List Endpoint → ℕ × ℕ → Type 0
InRange endpoints p =
    (src : Endpoint) × (dst : Endpoint) × (get_elem? endpoints p.0 ≡ some src)
    × (get_elem? endpoints p.1 ≡ some dst)

any-hits_row : (b : Option Endpoint) (ps : List MatrixPair) → any (hits none b) ps ≡ false
unfolding any
any-hits_row b [] = refl
any-hits_row b (p ∷ ps) = ground (arith, any-hits_row b ps)

any-hits_col : (a : Option Endpoint) (ps : List MatrixPair) → any (hits a none) ps ≡ false
unfolding any
any-hits_col a [] = refl
any-hits_col a (p ∷ ps) = ground (arith, any-hits_col a ps)

-- Only endpoints that exist are wanted.
wanted-some :
    (pairs : List MatrixPair) (a b : Option Endpoint)
    → wanted pairs a b ≡ true
    → (src : Endpoint) × (dst : Endpoint) × (a ≡ some src) × (b ≡ some dst)
wanted-some pairs (some a) (some b) h = (a, b, refl, refl)
wanted-some [] none b h = cc
wanted-some [] (some a) none h = cc
wanted-some (p ∷ ps) none b h = cc (any-hits_row b (p ∷ ps))
wanted-some (p ∷ ps) (some a) none h = cc (any-hits_col (some a) (p ∷ ps))

times-All :
    (P : ℕ × ℕ → Type 0) (ps : List (ℕ × ℕ)) → ((i j : ℕ) → 0 < times i j ps → P (i, j)) → All P ps
unfolding times
times-All P [] h = tt
times-All P ((a, b) ∷ ps) h = (h a b (ground arith), times-All P ps (λ i j k. h i j (omega arith)))

-- No pair that `EndpointPairs` yields is out of range.
pub endpoint_pairs-InRange :
    (endpoints : List Endpoint) (pairs : List MatrixPair)
    → All (InRange endpoints) (endpoint_pairs endpoints pairs)
endpoint_pairs-InRange endpoints pairs =
    times-All (InRange endpoints) (endpoint_pairs endpoints pairs) (λ i j h.
      wanted-some pairs (get_elem? endpoints i) (get_elem? endpoints j)
        (ground (arith, endpoint_pairs-times endpoints pairs i j)))
