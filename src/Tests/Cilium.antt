-- ===== src/Tests/Cilium.antt =====
-- engines/cilium on a small cluster: a backend that only the frontend may reach, by one
-- CiliumNetworkPolicy, beside a manifest that does not decode.
use telepathy.Prelude.{
  ◌≡◌, refl, Bool, true, false, not, ◌&&◌, ◌||◌, Option, none, some, List, [], ◌∷◌, ◌++◌, map,
  if◌then◌else◌, ◌==◌, ℕ_eq, Text, codes, text_beq, text_eq, is_empty, split_byte, cut_byte, any,
  contains, Map, or_zero, get, put, int_eq,
}
use telepathy.Api.Types.{
  Endpoint, no_endpoint, PolicyInput, Request, no_request, Response, allow, deny,
}
use telepathy.Cilium.Repository.{Outcome, Manifest, PolicyEntry, CiliumLib}
use telepathy.Api.Types.{flow_key}
use telepathy.Api.Pairs.{enumerate, endpoint_pairs, pair_beq}
use telepathy.Api.Load.{Files, failed, parse_policy_manifests}
use telepathy.Cilium.Policies.Flavors.{HasSameHeads, unflavored, parse_policy_manifests-unflavored}
use telepathy.Api.FlowKey.{find_arrow}
use telepathy.Api.Pairs.Exactness.{wanted}
use telepathy.Cilium.Repository.{Flow}
use telepathy.Cilium.Entries.{lookup_text, evaluate-lookup}
use telepathy.Cilium.Total.{is_calm, NeverPanics, evaluate_with_defaults-Returns}
use telepathy.Cilium.Defaults.{
  applies, affect, affect_all, affect_rules, init_directions, affected_directions,
}
use telepathy.Cilium.Policies.{
  Loading, load_policies, manifest_head, loader_of, parse_cilium_crd, add_rules,
}
use telepathy.Cilium.Identities.{named_port_map, identity_of, uint16, ns_labels_of}
use telepathy.Cilium.Policies.Rejected.{rejection, summary, load_policies-rejected}
use telepathy.Cilium.Evaluate.{
  flow_record, probe_port, probe_proto, identities, evaluate, evaluate_with_defaults,
}
use telepathy.Cilium.Unrestricted.{
  AllowsUnaffected, slot, affected_directions-exact, evaluate_with_defaults-unaffected,
}

-- A rule: its entry, and the value of the label "app" of the peer that it allows.
abbrev Rule : Type 0
Rule = PolicyEntry Text × Text

abbrev app_of : Map Text Text → Text
app_of labels = or_zero [] (get (codes "app") labels)

abbrev restricts : Bool → Map Text Text → PolicyEntry Text → Bool
restricts direction labels rule =
    elim rule.subject [ none ↦ true | some s ↦ app_of labels == s ]
    && (if direction then rule.ingress else not rule.ingress)

abbrev side_allows : Bool → Map Text Text → Map Text Text → List Rule → Bool
side_allows direction own peer rules =
    not (any (restricts direction own) (map (λ (r : Rule). r.0) rules))
    || any (λ (r : Rule). restricts direction own r.0 && app_of peer == r.1) rules

abbrev frontend_only : Rule
frontend_only = (record { subject = some (codes "backend"); ingress = true }, codes "frontend")

abbrev manifest : Manifest Unit
manifest = record { name = codes "web"; namespace = []; spec = tt }

instance abbrev test_lib : CiliumLib
test_lib = record {
  Label = Text;
  LabelArray = Map Text Text;
  pod_namespace_label = codes "io.kubernetes.pod.namespace";
  pod_namespace_meta_labels = codes "io.cilium.k8s.namespace.labels";
  label_metadata_name = codes "kubernetes.io/metadata.name";
  join_path = λ a b. a ++ codes "." ++ b;
  map_to_labels = λ m. m;
  Addr = Text;
  parse_addr = λ s. none;
  cidr_labels = λ a. [];
  label_array = λ m. m;
  has_init = λ m. app_of m == codes "init";
  Selector = Text;
  selects = λ s m. app_of m == s;
  NamedPortMap = List Text;
  NamedPortMultiMap = List (List Text);
  no_named_ports = [];
  no_multi_map = [];
  add_port = λ name port protocol ports. (name ∷ ports, none);
  update = λ id ports all. ports ∷ all;
  parse_protocol = λ s. if s == codes "TCP" then some 6 else none;
  CnpSpec = Unit;
  CcnpSpec = Unit;
  NpSpec = Unit;
  KcnpSpec = Unit;
  unmarshal_head = λ s.
      if is_empty s
      then Outcome.failed (codes "EOF")
      else Outcome.done (s, codes "networking.k8s.io/v1");
  unmarshal_cnp = λ s. Outcome.done manifest;
  unmarshal_ccnp = λ s. Outcome.done manifest;
  unmarshal_np = λ s. Outcome.done manifest;
  unmarshal_kcnp = λ s. Outcome.done manifest;
  Rule = Rule;
  Entries = List Rule;
  parse_cnp = λ m. Outcome.done (frontend_only ∷ []);
  parse_ccnp = λ m. Outcome.done (frontend_only ∷ []);
  parse_network_policy = λ m. Outcome.done (frontend_only ∷ []);
  parse_cluster_network_policy = λ m. Outcome.done (frontend_only ∷ []);
  Repository = List Rule;
  new_repository = [];
  set_named_ports = λ ports repo. repo;
  update_identities = λ ids repo. repo;
  replace_by_resource = λ entries id repo. (repo ++ entries, none);
  must_add_list = λ rules repo. (repo ++ rules, none);
  iterate = λ repo. map (λ (r : Rule). r.0) repo;
  lookup_flow = λ repo flow. Outcome.done (
      side_allows false flow.from.label_array flow.to.label_array repo
      && side_allows true flow.to.label_array flow.from.label_array repo);
}

test_lib-AllowsUnaffected : AllowsUnaffected
unfolding any applies
test_lib-AllowsUnaffected repo flow hp hd hf ht he hi = rw (he, hi) refl

abbrev pod : Text → Text → Endpoint
pod id app = record no_endpoint { id = id; labels = (codes "app", app) ∷ [] }

abbrev cluster : Request
cluster = record no_request {
  endpoints =
      pod (codes "demo/f") (codes "frontend")
      ∷ pod (codes "demo/b") (codes "backend")
      ∷ pod (codes "demo/a") (codes "attacker")
      ∷ [];
  policies =
      record { flavor = []; yaml = [] }
      ∷ record { flavor = []; yaml = codes "CiliumNetworkPolicy" }
      ∷ [];
  matrix_pairs =
      record { from = codes "demo/f"; to = codes "demo/b" }
      ∷ record { from = codes "demo/a"; to = codes "demo/b" }
      ∷ record { from = codes "demo/b"; to = codes "demo/a" }
      ∷ [];
}

matrix_of : Option Response → Map Text Text
matrix_of none = []
matrix_of (some r) = r.matrix

errors_of : Option Response → List Text
errors_of none = []
errors_of (some r) = r.errors

program : Unit {0}
unfolding evaluate evaluate_with_defaults get put any applies affected_directions affect affect_all
    affect_rules init_directions endpoint_pairs enumerate flow_key is_empty text_beq cut_byte
    load_policies manifest_head loader_of parse_cilium_crd uint16 probe_port probe_proto add_rules
    ns_labels_of pair_beq
program = tt

cluster_matrix :
    matrix_of (evaluate cluster)
    ≡ (codes "demo/f->demo/b", allow)
      ∷ (codes "demo/a->demo/b", deny)
      ∷ (codes "demo/b->demo/a", allow)
      ∷ []
unfolding program matrix_of
cluster_matrix = refl

cluster_errors :
    errors_of (evaluate cluster) ≡ codes "cilium provider: cannot parse manifest: EOF" ∷ []
unfolding program errors_of
cluster_errors = refl

evaluate_with_defaults-unaffected_example :
    evaluate_with_defaults cluster true ≡ evaluate_with_defaults cluster false
evaluate_with_defaults-unaffected_example =
    evaluate_with_defaults-unaffected test_lib-AllowsUnaffected cluster

affected_directions-exact_example :
    affected_directions (frontend_only ∷ []) (identities cluster)
    ≡ map (slot (frontend_only ∷ [])) (identities cluster)
affected_directions-exact_example =
    affected_directions-exact (frontend_only ∷ []) (identities cluster)

abbrev start : Loading (List Rule) Rule
start = record { repo = []; cnp_rules = []; errors = []; warnings = [] }

abbrev bad_policy : PolicyInput
bad_policy = record { flavor = []; yaml = [] }

abbrev cnp_policy : PolicyInput
cnp_policy = record { flavor = []; yaml = codes "CiliumNetworkPolicy" }

load_policies-rejected_example :
    summary 0 (load_policies (cnp_policy ∷ bad_policy ∷ cnp_policy ∷ []) start)
    ≡ summary 1 (load_policies (cnp_policy ∷ cnp_policy ∷ []) start)
unfolding rejection manifest_head is_empty
load_policies-rejected_example =
    load_policies-rejected (cnp_policy ∷ []) (cnp_policy ∷ []) bad_policy
      (codes "cilium provider: cannot parse manifest: EOF") start refl

-- Documents between bars, of which each is its kind.
instance abbrev test_files : Files
test_files = record {
  unmarshal_request = λ s. failed s;
  unmarshal_response = λ s. failed s;
  unmarshal_type = λ s. if is_empty s then none else some (s, codes "networking.k8s.io/v1");
  split_documents = split_byte b'|';
}

test_files-HasSameHeads : HasSameHeads
unfolding is_empty
test_files-HasSameHeads [] kind api_version h = cc
test_files-HasSameHeads (c ∷ doc) kind api_version h = cc h

abbrev two_documents : Text
two_documents = codes "NetworkPolicy|CiliumNetworkPolicy"

parse_policy_manifests-unflavored_example :
    load_policies (parse_policy_manifests two_documents) start
    ≡ load_policies (map unflavored (parse_policy_manifests two_documents)) start
parse_policy_manifests-unflavored_example =
    parse_policy_manifests-unflavored two_documents start test_files-HasSameHeads

calm_test_head : (doc : Text) → is_calm (test_lib.unmarshal_head doc) ≡ true
unfolding is_calm is_empty
calm_test_head [] = refl
calm_test_head (c ∷ doc) = refl

test_lib-NeverPanics : NeverPanics
unfolding is_calm
test_lib-NeverPanics = record {
  calm_head = calm_test_head;
  calm_cnp = λ doc. refl;
  calm_ccnp = λ doc. refl;
  calm_parse_cnp = λ m. refl;
  calm_parse_ccnp = λ m. refl;
  calm_lookup = λ repo flow. refl;
}

evaluate_with_defaults-Returns_example :
    (resp : Response) × (evaluate_with_defaults cluster true ≡ some resp)
evaluate_with_defaults-Returns_example =
    evaluate_with_defaults-Returns test_lib-NeverPanics cluster true

abbrev cluster_loaded : Loading (List Rule) Rule
cluster_loaded = record {
  repo = frontend_only ∷ [];
  cnp_rules = frontend_only ∷ [];
  errors = codes "cilium provider: cannot parse manifest: EOF" ∷ [];
  warnings = [];
}

abbrev frontend : Endpoint
frontend = pod (codes "demo/f") (codes "frontend")

abbrev backend : Endpoint
backend = pod (codes "demo/b") (codes "backend")

abbrev frontend_flow : Flow Text (Map Text Text)
frontend_flow =
    flow_record backend (identity_of [] (0, frontend)) (identity_of [] (1, backend)) 6 8080

evaluate-lookup_example :
    (resp : Response) × (evaluate cluster ≡ some resp)
    × (get (flow_key frontend.id backend.id) resp.matrix ≡ (
        if wanted cluster.matrix_pairs (some frontend) (some backend)
        then some (lookup_text (test_lib.lookup_flow (frontend_only ∷ []) frontend_flow))
        else none))
unfolding program find_arrow contains named_port_map
evaluate-lookup_example =
    evaluate-lookup test_lib-AllowsUnaffected test_lib-NeverPanics cluster cluster_loaded
      frontend_flow 0 1 frontend backend (refl, (refl, (refl, tt))) (refl, (refl, (refl, tt))) refl
      refl refl refl
