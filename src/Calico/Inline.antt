-- ===== src/Calico/Inline.antt =====
-- provider/calico/resources.go: service accounts and services among the manifests of a request.
pub mod Parts
pub mod Taken
use telepathy.Prelude.{
  ◌&&◌, List, [], ◌∷◌, ◌++◌, if◌then◌else◌, ◌==◌, ℕ_eq, Text, codes, text_eq, fold, is_nil, Map,
  int_eq,
}
use telepathy.Api.Types.{PolicyInput, ServiceAccountInput, ServiceInput, Request}
use telepathy.Calico.Ports.{IntOrString, CoreServicePort, from_core_service_ports}

-- The result of yaml.Unmarshal, with the text of its error.
pub data Decoded (A : Type 0) : Type 0 where
  failed : Text → Decoded A
  decoded : A → Decoded A

-- corev1.ServiceAccount and corev1.Service, as far as they are read.
pub record CoreServiceAccount : Type 0 where
  pub name : Text
  pub namespace : Text
  pub labels : Map Text Text

pub record CoreService (Target : Type 0) : Type 0 where
  pub name : Text
  pub namespace : Text
  pub selector : Map Text Text
  pub ports : List (CoreServicePort Target)

pub record ResourceDecoder (Target : Type 0) : Type 0 where
  pub decode_kind : Text → Decoded Text
  pub decode_service_account : Text → Decoded CoreServiceAccount
  pub decode_service : Text → Decoded (CoreService Target)

pub record Extracted : Type 0 where
  pub remaining : List PolicyInput
  pub service_accounts : List ServiceAccountInput
  pub services : List ServiceInput
  pub errs : List Text

abbrev pub nothing_extracted : Extracted
nothing_extracted = record { remaining = []; service_accounts = []; services = []; errs = [] }

abbrev pub keep_manifest : PolicyInput → Extracted → Extracted
keep_manifest p x = record x { remaining = x.remaining ++ (p ∷ []) }

unfoldable pub add_service_account : Decoded CoreServiceAccount → Extracted → Extracted
add_service_account (failed e) x = record x {
  errs = x.errs ++ ((codes "parse ServiceAccount: " ++ e) ∷ []);
}
add_service_account (decoded sa) x = record x {
  service_accounts =
      x.service_accounts
      ++ (record { name = sa.name; namespace = sa.namespace; labels = sa.labels } ∷ []);
}

-- Where a manifest goes, by its kind.
pub data Route : Type 0 where
  to_policies to_service_accounts to_services : Route

unfoldable pub route_of : Decoded Text → Route
route_of (failed e) = to_policies
route_of (decoded kind) =
    if kind == codes "ServiceAccount"
    then to_service_accounts
    else if kind == codes "Service"
    then to_services
    else to_policies

module _ ⦃k8s : IntOrString⦄ ⦃decoder : ResourceDecoder k8s.Target⦄ where
  unfoldable pub add_service : Decoded (CoreService k8s.Target) → Extracted → Extracted
  unfolding from_core_service_ports
  add_service (failed e) x = record x { errs = x.errs ++ ((codes "parse Service: " ++ e) ∷ []) }
  add_service (decoded svc) x = record x {
    services =
        x.services
        ++ (record {
          name = svc.name;
          namespace = svc.namespace;
          selector = svc.selector;
          ports = from_core_service_ports svc.ports;
          service_type = [];
        }
            ∷ []);
  }

  abbrev pub route : PolicyInput → Route
  route p = route_of (decoder.decode_kind p.yaml)

  -- The body of the loop, for a manifest with its route.
  unfoldable pub extract_routed : Route → PolicyInput → Extracted → Extracted
  unfolding add_service add_service_account
  extract_routed to_policies p x = keep_manifest p x
  extract_routed to_service_accounts p x =
      add_service_account (decoder.decode_service_account p.yaml) x
  extract_routed to_services p x = add_service (decoder.decode_service p.yaml) x

  unfoldable pub extract_step : Extracted → PolicyInput → Extracted
  unfolding extract_routed route_of
  extract_step x p = extract_routed (route p) p x

  unfoldable pub extract_inline_resources : List PolicyInput → Extracted
  unfolding extract_step fold
  extract_inline_resources ps = fold extract_step nothing_extracted ps

  -- The request without its inline resources, and the errors.
  unfoldable pub apply_inline_resources : Request → Request × List Text
  unfolding extract_inline_resources
  apply_inline_resources req =
      let x = extract_inline_resources req.policies in
      if is_nil x.service_accounts && (is_nil x.services && is_nil x.errs) then (req, []) else (
        record req {
          policies = x.remaining;
          service_accounts = req.service_accounts ++ x.service_accounts;
          services = req.services ++ x.services;
        },
        x.errs,
      )
