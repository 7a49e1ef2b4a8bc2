-- ===== src/Api/Types.antt =====
-- api/types.go: a request, and the connectivity matrix that answers it. The YAML tags are left
-- out; a Go pointer that may be nil is an `Option`, and `MatrixSink`, a writer, is whether one is
-- set. `Response.Cost` is left out, since no other field depends on it.
use telepathy.Prelude.{
  Bool, false, Option, none, List, [], ◌++◌, ℕ_eq, Text, codes, text_eq, Map, ℤ, pos, int_eq,
}

pub record EndpointPort : Type 0 where
  pub name : Text
  pub port : ℤ
  pub protocol : Text

pub record Endpoint : Type 0 where
  pub id : Text
  pub namespace : Text
  pub name : Text
  pub ip : Text
  pub labels : Map Text Text
  pub ports : List EndpointPort
  pub service_account_name : Text
  pub node : Text
  pub node_selector : Map Text Text
  pub unpoliced : Bool
  pub role : Text

-- The zero value `Endpoint{}`.
abbrev pub no_endpoint : Endpoint
no_endpoint = record {
  id = [];
  namespace = [];
  name = [];
  ip = [];
  labels = [];
  ports = [];
  service_account_name = [];
  node = [];
  node_selector = [];
  unpoliced = false;
  role = [];
}

pub record NamespaceInput : Type 0 where
  pub name : Text
  pub labels : Map Text Text

pub record ServiceAccountInput : Type 0 where
  pub name : Text
  pub namespace : Text
  pub labels : Map Text Text

pub record HostEndpointInput : Type 0 where
  pub id : Text
  pub name : Text
  pub node : Text
  pub interface_name : Text
  pub expected_ips : List Text
  pub labels : Map Text Text

pub record NetworkSetInput : Type 0 where
  pub name : Text
  pub namespace : Text
  pub nets : List Text
  pub labels : Map Text Text

pub record GlobalNetworkSetInput : Type 0 where
  pub name : Text
  pub nets : List Text
  pub labels : Map Text Text

pub record ServicePort : Type 0 where
  pub name : Text
  pub port : ℤ
  pub protocol : Text
  pub target_port : Text
  pub node_port : ℤ

pub record ServiceInput : Type 0 where
  pub name : Text
  pub namespace : Text
  pub selector : Map Text Text
  pub ports : List ServicePort
  pub service_type : Text

pub record EndpointSliceInput : Type 0 where
  pub name : Text
  pub namespace : Text
  pub service_name : Text
  pub addresses : List Text

pub record PolicyInput : Type 0 where
  pub flavor : Text
  pub yaml : Text

-- api/pairs.go: an ordered flow to include in a partial matrix.
pub record MatrixPair : Type 0 where
  pub from : Text
  pub to : Text

pub record Request : Type 0 where
  pub endpoints : List Endpoint
  pub namespaces : List NamespaceInput
  pub policies : List PolicyInput
  pub port : ℤ
  pub protocol : Text
  pub src_port : ℤ
  pub http_method : Text
  pub http_path : Text
  pub icmp_type : Option ℤ
  pub icmp_code : Option ℤ
  pub service_accounts : List ServiceAccountInput
  pub host_endpoints : List HostEndpointInput
  pub network_sets : List NetworkSetInput
  pub global_network_sets : List GlobalNetworkSetInput
  pub services : List ServiceInput
  pub endpoint_slices : List EndpointSliceInput
  pub dns : Map Text (List Text)
  pub evaluate_staged : Bool
  pub strict_lint : Bool
  pub cost : Bool
  pub cost_dataplane : Text
  pub matrix_pairs : List MatrixPair
  pub matrix_sink : Bool

-- The zero value `Request{}`.
abbrev pub no_request : Request
no_request = record {
  endpoints = [];
  namespaces = [];
  policies = [];
  port = pos 0;
  protocol = [];
  src_port = pos 0;
  http_method = [];
  http_path = [];
  icmp_type = none;
  icmp_code = none;
  service_accounts = [];
  host_endpoints = [];
  network_sets = [];
  global_network_sets = [];
  services = [];
  endpoint_slices = [];
  dns = [];
  evaluate_staged = false;
  strict_lint = false;
  cost = false;
  cost_dataplane = [];
  matrix_pairs = [];
  matrix_sink = false;
}

pub record Actor : Type 0 where
  pub id : Text
  pub kind : Text
  pub node : Text
  pub internet : Text

pub record Response : Type 0 where
  pub matrix : Map Text Text
  pub errors : List Text
  pub warnings : List Text
  pub actors : List Actor

abbrev pub allow : Text
allow = codes "allow"

abbrev pub deny : Text
deny = codes "deny"

-- The key of a flow, `src + "->" + dst`.
unfoldable pub flow_key : Text → Text → Text
flow_key src dst = src ++ codes "->" ++ dst
