-- ===== src/Tests/Calico.antt =====
-- provider/calico with a small checker, on a node with a host endpoint.
use telepathy.Prelude.{
  ◌≡◌, refl, Bool, true, false, ◌||◌, Option, none, some, List, [], ◌∷◌, ◌++◌, if◌then◌else◌, ℕ_eq,
  Text, codes, text_beq, text_eq, is_empty, trim_space, any, fold, every, contains, is_nil, or_zero,
  get, put, int_eq,
}
use telepathy.Api.Types.{Request, no_endpoint, no_request, flow_key, allow, deny}
use telepathy.Api.FlowKey.{find_arrow}
use telepathy.Tests.Nets.{text_net}
use telepathy.Calico.Store.{
  PolicyId, policy_id_beq, TierInfo, action_allow, action_deny, PolicyStore, Checker, tiers_of,
  profile_ids_of,
}
use telepathy.Calico.Actors.{
  Actor, actor_wep, actor_hep, ActorBundle, forward_tier_has, hep_as_wep, normal_wep, forward_wep,
  untracked_wep,
}
use telepathy.Calico.Flow.{verdict, make_flow, protocol_number, staged_scope}
use telepathy.Calico.Matrix.{MatrixSink, new_matrix_sink, put_verdict}
use telepathy.Calico.Collapse.{ip_text}
use telepathy.Calico.Expansion.{fill_matrix_collapsed-some}
use telepathy.Calico.Classes.{fill_matrix_collapsed, tier_rules, rules_of, rules_in}
use telepathy.Calico.Eval.{
  harvest, walk, overlay, untracked, terminate, eval_flow, pair_allows, pair_row, pair_rows,
  fill_matrix, verdict_text,
}
use telepathy.Calico.Hooks.{hooks, trace, permits, eval_flow-hooks}
use telepathy.Calico.Services.{
  labels_match, auto_addresses, slice_addresses, ip_to_id, backend_ids, service_backend_ids,
  externals, build_actor_report, keep_ids, keep_services, matrix_keep_set,
}
use telepathy.Calico.KeepSet.{filled, matrix_keep_set-enough}
use telepathy.Calico.Entries.{fill_matrix-entry}

-- A rule allows the sources in an IP set; a tier denies what no rule of it allows.
abbrev pub any_source : PolicyStore Text (List Text) → Text → List Text → Bool
any_source store ip rules = any (λ r. contains (or_zero [] (get r store.ip_set_by_id)) ip) rules

abbrev pub address : Option Text → Text
address none = codes "<nil>"
address (some ip) = ip

instance abbrev pub set_checker : Checker Text
set_checker = record {
  Rule = Text;
  src_ip_set_ids = λ r. r ∷ [];
  not_src_ip_set_ids = λ r. [];
  dst_ip_set_ids = λ r. [];
  not_dst_ip_set_ids = λ r. [];
  dst_ip_port_set_ids = λ r. [];
  dst_named_port_ip_set_ids = λ r. [];
  not_dst_named_port_ip_set_ids = λ r. [];
  src_named_port_ip_set_ids = λ r. [];
  not_src_named_port_ip_set_ids = λ r. [];
  src_net = λ r. [];
  not_src_net = λ r. [];
  dst_net = λ r. [];
  not_dst_net = λ r. [];
  IpSet = List Text;
  ip_set_contains = λ s v. contains s v;
  evaluate = λ scope dir store ep f.
      if is_nil (tiers_of ep)
        || any_source store (address f.src_ip) (
            tier_rules dir store.policy_by_id (tiers_of ep)
            ++ rules_of dir store.profile_by_id (profile_ids_of ep))
      then record {
        action = action_allow;
        kind = codes "GlobalNetworkPolicy";
        tier = codes "default";
        is_tier_default_action = false;
      }
        ∷ []
      else record {
        action = action_deny;
        kind = codes "GlobalNetworkPolicy";
        tier = codes "default";
        is_tier_default_action = true;
      }
        ∷ [];
}

abbrev pub web_policy : PolicyId
web_policy = record { kind = codes "NP"; namespace = codes "demo"; name = codes "web" }

abbrev node_policy : PolicyId
node_policy = record { kind = codes "GNP"; namespace = []; name = codes "node" }

abbrev pub set_store : PolicyStore Text (List Text)
set_store = record {
  policy_by_id =
      (web_policy, record { inbound = codes "s:f" ∷ []; outbound = [] })
      ∷ (node_policy, record { inbound = codes "s:all" ∷ []; outbound = codes "s:f" ∷ [] })
      ∷ [];
  profile_by_id = [];
  ip_set_by_id =
      (codes "s:f", codes "10.0.0.1" ∷ [])
      ∷ (codes "s:all", codes "10.0.0.1" ∷ codes "10.0.0.2" ∷ codes "10.0.0.3" ∷ [])
      ∷ [];
}

abbrev tier : List PolicyId → List PolicyId → TierInfo
tier ingress egress = record {
  name = codes "default";
  default_action = codes "Deny";
  ingress_policies = ingress;
  egress_policies = egress;
}

abbrev wep : Text → Text → Text → List TierInfo → Actor Text
wep id ip node tiers = record {
  id = id;
  kind = actor_wep;
  ip = some ip;
  node = node;
  wep = some (record { name = id; tiers = tiers; profile_ids = [] });
  hep = none;
  unpoliced = false;
  role = [];
}

abbrev pub client : Actor Text
client = wep (codes "demo/f") (codes "10.0.0.1") (codes "n1") []

abbrev pub other : Actor Text
other = wep (codes "demo/a") (codes "10.0.0.2") (codes "n1") []

abbrev pub server : Actor Text
server = wep (codes "demo/b") (codes "10.0.0.3") (codes "n2") (tier (web_policy ∷ []) [] ∷ [])

-- Its forward policy lets only the client leave the node n1.
abbrev pub node : Actor Text
node = record {
  id = codes "host/n1";
  kind = actor_hep;
  ip = some (codes "10.1.0.1");
  node = codes "n1";
  wep = none;
  hep = some (record {
    name = codes "n1";
    tiers = [];
    untracked_tiers = [];
    pre_dnat_tiers = [];
    forward_tiers = tier [] (node_policy ∷ []) ∷ [];
    profile_ids = [];
  });
  unpoliced = false;
  role = [];
}

abbrev topology : ActorBundle Text
topology = record {
  list = client ∷ other ∷ server ∷ node ∷ [];
  heps_by_node = (codes "n1", node ∷ []) ∷ [];
  warnings = [];
}

calico : Unit {0}
unfolding text_beq policy_id_beq get put any contains fold every verdict harvest make_flow
    protocol_number staged_scope trim_space forward_tier_has hep_as_wep normal_wep forward_wep
    untracked_wep put_verdict new_matrix_sink tier_rules rules_of rules_in ip_text walk overlay
    untracked terminate eval_flow pair_allows pair_row pair_rows fill_matrix flow_key
calico = tt

matrix_entry : Actor Text → Actor Text → Option Text
matrix_entry src dst =
    get (flow_key src.id dst.id)
      (fill_matrix set_store no_request topology (new_matrix_sink false none)).m

other_to_client : matrix_entry other client ≡ some deny
unfolding calico matrix_entry
other_to_client = refl

client_to_other : matrix_entry client other ≡ some allow
unfolding calico matrix_entry
client_to_other = refl

other_to_server : matrix_entry other server ≡ some deny
unfolding calico matrix_entry
other_to_server = refl

client_to_server : matrix_entry client server ≡ some allow
unfolding calico matrix_entry
client_to_server = refl

eval_flow-hooks_example :
    let f = make_flow no_request other.ip server.ip in
    let rev = make_flow no_request server.ip other.ip in
    let hs = hooks other server f rev topology.heps_by_node in
    eval_flow set_store (staged_scope no_request) other server f rev topology.heps_by_node ≡ (
      every (permits set_store (staged_scope no_request)) hs,
      fold (λ eot h. harvest (trace set_store (staged_scope no_request) h) eot) [] hs,
    )
eval_flow-hooks_example =
    eval_flow-hooks set_store (staged_scope no_request) other server
      (make_flow no_request other.ip server.ip) (make_flow no_request server.ip other.ip)
      topology.heps_by_node

fill_matrix-entry_example :
    get
      (flow_key other.id server.id)
      (fill_matrix set_store no_request topology (new_matrix_sink false none)).m
    ≡ some (
        verdict_text (
          every (permits set_store (staged_scope no_request)) (
            hooks other server
              (make_flow no_request other.ip server.ip)
              (make_flow no_request server.ip other.ip)
              topology.heps_by_node)))
unfolding find_arrow contains text_beq new_matrix_sink
fill_matrix-entry_example =
    fill_matrix-entry set_store no_request topology 1 2 other server false none
      (refl, (refl, (refl, (refl, tt)))) (refl, (refl, (refl, (refl, tt)))) refl refl

-- The server backs a service, and the internet is an external actor.
abbrev pub internet : Actor Text
internet = record (wep (codes "internet") (codes "8.8.8.8") (codes "") []) {
  role = codes "external";
}

abbrev web : Request
web = record no_request {
  endpoints =
      record no_endpoint {
        id = server.id;
        namespace = codes "demo";
        ip = codes "10.0.0.3";
        labels = (codes "app", codes "web") ∷ [];
      }
      ∷ [];
  services =
      record {
        name = codes "web";
        namespace = codes "demo";
        selector = (codes "app", codes "web") ∷ [];
        ports = [];
        service_type = [];
      }
      ∷ [];
}

abbrev pub with_internet : ActorBundle Text
with_internet = record { list = client ∷ server ∷ internet ∷ []; heps_by_node = []; warnings = [] }

kept_columns :
    matrix_keep_set web with_internet.list ≡ (codes "internet", true) ∷ (codes "demo/b", true) ∷ []
unfolding matrix_keep_set keep_ids keep_services externals service_backend_ids slice_addresses
    auto_addresses labels_match backend_ids ip_to_id get put contains text_beq is_empty
kept_columns = refl

matrix_keep_set-enough_example :
    (build_actor_report
        (filled set_store web with_internet true (some (matrix_keep_set web with_internet.list)))
        with_internet.list
        true
      ≡ build_actor_report (filled set_store web with_internet false none) with_internet.list true)
    × ((filled set_store web with_internet true (some (matrix_keep_set web with_internet.list))).w
        ≡ (filled set_store web with_internet true none).w)
unfolding find_arrow
matrix_keep_set-enough_example =
    matrix_keep_set-enough set_store web with_internet true (refl, (refl, (refl, tt)))

fill_matrix_collapsed-some_example :
    (out : MatrixSink) × (fill_matrix_collapsed set_store no_request with_internet
        (new_matrix_sink false none)
      ≡ some out)
fill_matrix_collapsed-some_example =
    fill_matrix_collapsed-some set_store no_request with_internet (new_matrix_sink false none)
