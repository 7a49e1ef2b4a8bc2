-- ===== src/Api/Scopes.antt =====
-- api/cost.go: the findings on the selectors and the literals of a policy.
use telepathy.Prelude.{
  ℕ, Bool, false, not, ◌||◌, none, some, List, [], ◌∷◌, ◌++◌, leb, if◌then◌else◌, ◌==◌, ℕ_eq, Text,
  codes, text_eq, is_empty, trim_space, equal_fold, any, itoa, quote, int_eq,
}
use telepathy.Api.Documents.{
  Value, Members, json_object, no_members, member, as_object, as_string, array_or_empty,
  has_constraint_key,
}
use telepathy.Api.Smells.{
  Finding, dash, action_of, penalty_broad_selector, penalty_inline_net_set, cidrs_inline_threshold,
  ports_inline_threshold,
}

abbrev pub peer_keys : List Text
peer_keys = codes "source" ∷ codes "destination" ∷ codes "from" ∷ codes "to" ∷ []

-- The body of the inner loop of `hasSpecificAllow`.
unfoldable pub allows_specific_peer : Value → Bool
unfolding member equal_fold any has_constraint_key
allows_specific_peer v = elim (as_object v) [
  | none ↦ false
  | some rule ↦
      if elim (action_of rule) [ none ↦ false | some act ↦ not (equal_fold act (codes "Allow")) ]
      then false
      else any (λ k. has_constraint_key (member k rule)) peer_keys
]

unfoldable pub has_specific_allow : Members → Bool
unfolding allows_specific_peer any
has_specific_allow spec =
    any allows_specific_peer (array_or_empty (member (codes "ingress") spec))
    || any allows_specific_peer (array_or_empty (member (codes "egress") spec))

-- The scope of the policy if it is broad, else the empty text.
unfoldable pub pod_scope : Value → Text
pod_scope (json_object no_members) = codes "empty podSelector applies to every pod in the namespace"
pod_scope v = []

unfoldable pub broad_scope : Members → Text
unfolding pod_scope member trim_space quote
broad_scope spec = elim (as_string (member (codes "selector") spec)) [
  | none ↦ pod_scope (member (codes "podSelector") spec)
  | some sel ↦
      if is_empty (trim_space sel) || trim_space sel == codes "all()"
      then codes "selector " ++ quote sel ++ codes " applies to every endpoint in scope"
      else pod_scope (member (codes "podSelector") spec)
]

unfoldable pub broad_selector_finding : Text → Members → List Finding
unfolding broad_scope has_specific_allow
broad_selector_finding name spec =
    if is_empty (broad_scope spec) || not (has_specific_allow spec)
    then []
    else record {
      policy = name;
      rule = 0;
      code = codes "broad-selector";
      detail =
          broad_scope spec
          ++ codes ", yet it only allows specific peers "
          ++ dash
          ++ codes " scope the applied selector to the workloads that need the rule";
      penalty = penalty_broad_selector;
    }
      ∷ []

unfoldable pub network_set_findings : Text → ℕ → Bool → List Finding
unfolding itoa
network_set_findings name cidrs has_domains =
    (if has_domains
      then record {
        policy = name;
        rule = 0;
        code = codes "inline-domains";
        detail =
            codes "rules embed domains: " ++ dash ++ codes " move them into a (Global)NetworkSet";
        penalty = penalty_inline_net_set;
      }
        ∷ []
      else [])
    ++ (if leb cidrs_inline_threshold cidrs
        then record {
          policy = name;
          rule = 0;
          code = codes "inline-cidrs";
          detail =
              itoa cidrs
              ++ codes " inline CIDRs "
              ++ dash
              ++ codes " move them into a (Global)NetworkSet rather than policy rules";
          penalty = penalty_inline_net_set;
        }
          ∷ []
        else [])

unfoldable pub inline_ports_findings : Text → ℕ → List Finding
unfolding itoa
inline_ports_findings name ports =
    if leb ports_inline_threshold ports
    then record {
      policy = name;
      rule = 0;
      code = codes "inline-ports";
      detail =
          itoa ports
          ++ codes " port entries "
          ++ dash
          ++ codes " large port lists expand the match; use ranges or split the rule by need";
      penalty = penalty_inline_net_set;
    }
      ∷ []
    else []
