-- ===== src/Tests/ByClass.antt =====
-- provider/calico/collapse.go on a small store, whose checker reads addresses only through sets.
use telepathy.Prelude.{
  ℕ, ◌≡◌, refl, sym, ◌∙◌, inl, inr, true, false, not, Option, none, some, List, [], ◌∷◌, arith,
  nat_eq, nat_eq_iff, Option-cases, ℕ_eq, Text, codes, text_eq, All, any, every, contains, or_zero,
  get, int_eq,
}
use telepathy.Api.Types.{no_request}
use telepathy.Tests.Nets.{text_net}
use telepathy.Tests.Calico.{
  any_source, address, set_checker, set_store, web_policy, client, server, internet, with_internet,
}
use telepathy.Calico.Store.{policy_id_eq, Flow, WorkloadEndpoint, tiers_of}
use telepathy.Calico.Actors.{Actor, actor_wep, normal_wep}
use telepathy.Calico.Matrix.{new_matrix_sink}
use telepathy.Calico.Flow.{verdict}
use telepathy.Calico.Eval.{fill_matrix}
use telepathy.Calico.Collapse.{ip_text, set_has}
use telepathy.Calico.Classes.{relevant_rules, fill_matrix_collapsed}
use telepathy.Calico.Locality.{RuleAgrees, IsLocal}
use telepathy.Calico.ByClass.Fingerprints.{IsFree, IsPlainId}
use telepathy.Calico.ByClass.Cells.{IsPod}
use telepathy.Calico.ByClass.Equivalence.{fill_matrix_collapsed-fill_matrix}

ip_text-address : (ip : Option Text) → ip_text ip ≡ address ip
unfolding ip_text
ip_text-address none = refl
ip_text-address (some ip) = refl

set_has-contains :
    (ip : Option Text) (r : Text)
    → set_has set_store (ip_text ip) r
      ≡ contains (or_zero [] (get r set_store.ip_set_by_id)) (address ip)
unfolding set_has contains
set_has-contains ip r = elim (Option-cases (get r set_store.ip_set_by_id)) [
  | inl e ↦ ground (arith, e)
  | inr (s, e) ↦ ground (arith, e, ip_text-address ip)
]

any_source-agrees :
    (f g : Flow Text) (rs : List Text)
    → All (RuleAgrees set_store f g) rs
    → any_source set_store (address f.src_ip) rs ≡ any_source set_store (address g.src_ip) rs
unfolding any
any_source-agrees f g [] h = refl
any_source-agrees f g (r ∷ rs) h =
    let same = sym (set_has-contains f.src_ip r) ∙ (h.0.src_sets.0 ∙ set_has-contains g.src_ip r) in
    rw (same, any_source-agrees f g rs h.1) refl

set_store-IsLocal : IsLocal set_store
unfolding relevant_rules verdict
set_store-IsLocal scope dir a b f g tiers profiles same rules =
    rw
      (sym tiers, sym profiles, any_source-agrees f g (relevant_rules set_store (some a) dir) rules)
      refl

free : (c : ℕ) (u : Text) → every (λ b. not (nat_eq b c)) u ≡ true → IsFree c u
unfolding every
free c [] e = tt
free c (b ∷ u) e = (ground (arith, nat_eq_iff b c), free c u (ground arith))

web_policy-IsPlainId : IsPlainId web_policy
unfolding every
web_policy-IsPlainId = record {
  kind_slash = free b'/' web_policy.kind refl;
  kind_bar = free b'|' web_policy.kind refl;
  kind_semicolon = free b';' web_policy.kind refl;
  namespace_slash = free b'/' web_policy.namespace refl;
  name_comma = free b',' web_policy.name refl;
}

server-IsPod : IsPod server
unfolding every normal_wep
server-IsPod = record {
  kind = refl;
  plain = record {
    tiers = (
      record {
        name_bar = free b'|' (codes "default") refl;
        name_hash = free b'#' (codes "default") refl;
        default_bar = free b'|' (codes "Deny") refl;
        ingress = (web_policy-IsPlainId, tt);
        egress = tt;
      },
      tt,
    );
    profiles = tt;
  };
  endpoint = inr (record { name = server.id; tiers = tiers_of server.wep; profile_ids = [] }, refl);
}

wep-IsPod :
    (a : Actor Text) (w : WorkloadEndpoint)
    → a.kind ≡ actor_wep
    → a.wep ≡ some w
    → w.tiers ≡ []
    → w.profile_ids ≡ []
    → IsPod a
unfolding normal_wep
wep-IsPod a w kind wep tiers profiles = record {
  kind = kind;
  plain = record { tiers = rw (kind, wep, tiers) tt; profiles = rw (kind, wep, profiles) tt };
  endpoint = inr (w, rw kind wep);
}

fill_matrix_collapsed-fill_matrix_example :
    fill_matrix_collapsed set_store no_request with_internet (new_matrix_sink false none)
    ≡ some (fill_matrix set_store no_request with_internet (new_matrix_sink false none))
fill_matrix_collapsed-fill_matrix_example =
    fill_matrix_collapsed-fill_matrix set_store no_request with_internet
      (new_matrix_sink false none) set_store-IsLocal refl
      (
        wep-IsPod client _ refl refl refl refl,
        (server-IsPod, (wep-IsPod internet _ refl refl refl refl, tt)),
      )
