-- ===== src/Tests/Antrea.antt =====
-- engines/antrea on a small cluster: a backend that only the frontend may reach, on its port http.
use telepathy.Prelude.{
  has_prefix, ◌≡◌, refl, Bool, true, false, ◌&&◌, ◌||◌, Option, none, some, List, [], ◌∷◌,
  if◌then◌else◌, ◌==◌, ℕ_eq, Text, codes, text_beq, text_eq, is_empty, contains, itoa, quote, Map,
  or_zero, get, put, pos, int_eq,
}
use telepathy.Api.Types.{
  Endpoint, no_endpoint, Request, no_request, Response, allow, deny, flow_key,
}
use telepathy.Api.FlowKey.{find_arrow, split_flow_key, split_flow_key-flow_key}
use telepathy.Api.Pairs.{pair_beq, endpoint_pairs}
use telepathy.Api.Pairs.Visits.{times, one}
use telepathy.Api.Pairs.Exactness.{wanted, endpoint_pairs-times}
use telepathy.Tests.Nets.{text_net}
use telepathy.Antrea.Rules.{ingress_allows, egress_allows}
use telepathy.Antrea.Defaults.{allows, index_endpoint_policies}
use telepathy.Antrea.Manifests.{ok, IntOrString, NetworkPolicy, Pod, Grouping}
use telepathy.Antrea.Build.{build}
use telepathy.Antrea.Evaluate.{
  pair_allows, fill, actor_of, verdict_text, evaluate_with_defaults, evaluate,
}
use telepathy.Antrea.Verdicts.{
  two_sided, probe_proto, probe_port, evaluate_with_defaults-optimize, evaluate-entry,
}

-- A selector is the value of the label "app"; the index keeps its pods and groups.
abbrev Groups : Type 0
Groups = List Pod × Map Text (List (Text × Text))

abbrev selects : Text → Option Text → Option Text → Pod → Bool
selects ns sel ns_sel pod =
    (is_empty ns || pod.namespace == ns)
    && elim sel [ none ↦ true | some app ↦ or_zero [] (get (codes "app") pod.labels) == app ]

members : Text → Option Text → Option Text → List Pod → List (Text × Text)
members ns sel ns_sel [] = []
members ns sel ns_sel (pod ∷ rest) =
    let more = members ns sel ns_sel rest in
    if selects ns sel ns_sel pod then (pod.namespace, pod.name) ∷ more else more

abbrev http_only : NetworkPolicy Text
http_only = record {
  name = codes "web";
  namespace = codes "demo";
  pod_selector = codes "backend";
  ingress =
      record {
        ports =
            record {
              protocol = none;
              port = some (IntOrString.str (codes "http"));
              end_port = none;
            }
            ∷ [];
        peers =
            record {
              pod_selector = some (codes "frontend");
              namespace_selector = none;
              ip_block = none;
            }
            ∷ [];
      }
      ∷ [];
  egress = [];
  policy_types = [];
}

instance abbrev text_grouping : Grouping
text_grouping = record {
  Selector = Text;
  Index = Groups;
  new_index = ([], []);
  add_namespace = λ name labels idx. idx;
  add_pod = λ pod idx. (pod ∷ idx.0, idx.1);
  add_group = λ name ns sel ns_sel idx. (idx.0, put name (members ns sel ns_sel idx.0) idx.1);
  get_entities = λ name idx. or_zero [] (get name idx.1);
  unmarshal_head = λ s. ok (codes "NetworkPolicy", codes "networking.k8s.io/v1");
  unmarshal_policy = λ s. ok http_only;
}

abbrev pod : Text → Text → Endpoint
pod id app = record no_endpoint {
  id = id;
  labels = (codes "app", app) ∷ [];
  ports = record { name = codes "http"; port = pos 8080; protocol = [] } ∷ [];
}

abbrev frontend : Endpoint
frontend = pod (codes "demo/f") (codes "frontend")

abbrev backend : Endpoint
backend = pod (codes "demo/b") (codes "backend")

abbrev attacker : Endpoint
attacker = pod (codes "demo/a") (codes "attacker")

abbrev cluster : Request
cluster = record no_request {
  endpoints = frontend ∷ backend ∷ attacker ∷ [];
  policies = record { flavor = codes "k8s"; yaml = [] } ∷ [];
  matrix_pairs =
      record { from = codes "demo/f"; to = codes "demo/b" }
      ∷ record { from = codes "demo/a"; to = codes "demo/b" }
      ∷ record { from = codes "demo/f"; to = codes "demo/b" }
      ∷ record { from = codes "demo/b"; to = codes "nobody" }
      ∷ [];
}

program : Unit {0}
unfolding members get put evaluate evaluate_with_defaults build fill pair_allows
    index_endpoint_policies endpoint_pairs actor_of flow_key ingress_allows egress_allows has_prefix
    is_empty text_beq quote itoa find_arrow split_flow_key contains pair_beq allows
program = tt

matrix_of : Option Response → Map Text Text
matrix_of none = []
matrix_of (some r) = r.matrix

cluster_matrix :
    matrix_of (evaluate cluster)
    ≡ (codes "demo/f->demo/b", allow) ∷ (codes "demo/a->demo/b", deny) ∷ []
unfolding program matrix_of
cluster_matrix = refl

-- On another port the named port does not match, and the index eliminates the rule.
cluster_other_port :
    matrix_of (evaluate (record cluster { port = pos 443 }))
    ≡ (codes "demo/f->demo/b", deny) ∷ (codes "demo/a->demo/b", deny) ∷ []
unfolding program matrix_of
cluster_other_port = refl

endpoint_pairs-times_example :
    times 0 1 (endpoint_pairs cluster.endpoints cluster.matrix_pairs)
    ≡ one (wanted cluster.matrix_pairs (some frontend) (some backend))
endpoint_pairs-times_example = endpoint_pairs-times cluster.endpoints cluster.matrix_pairs 0 1

split_flow_key-flow_key_example :
    split_flow_key (flow_key (codes "demo/f") (codes "demo/b")) ≡ (codes "demo/f", codes "demo/b")
unfolding find_arrow
split_flow_key-flow_key_example = split_flow_key-flow_key (codes "demo/f") (codes "demo/b") refl

evaluate_with_defaults-optimize_example :
    evaluate_with_defaults cluster true ≡ evaluate_with_defaults cluster false
evaluate_with_defaults-optimize_example = evaluate_with_defaults-optimize cluster

evaluate-entry_example :
    (resp : Response) × (evaluate cluster ≡ some resp)
    × (get (flow_key frontend.id backend.id) resp.matrix ≡ (
        if wanted cluster.matrix_pairs (some frontend) (some backend)
        then some (
            verdict_text (
              two_sided
                (build cluster)
                (probe_proto cluster)
                (probe_port cluster)
                frontend
                backend))
        else none))
unfolding find_arrow contains text_beq
evaluate-entry_example =
    evaluate-entry cluster 0 1 frontend backend (refl, (refl, (refl, tt)))
      (refl, (refl, (refl, tt))) refl refl
