-- ===== src/Antrea/Rules.antt =====
-- engines/antrea/eval.go: rule matching and the two verdict loops.
use telepathy.Prelude.{
  Bool, true, false, not, ◌&&◌, ◌||◌, Option, none, some, List, [], ◌∷◌, ◌++◌, if◌then◌else◌, ◌==◌,
  ℕ_eq, Text, codes, text_eq, is_empty, to_lower, equal_fold, cut_byte, or_zero, get, ℤ, int_leb,
  int_eq,
}
use telepathy.Api.Types.{Endpoint, EndpointPort}
use telepathy.Net.{Net}
use telepathy.Antrea.Types.{
  ResolvedIpBlock, PortSpec, ResolvedRule, ResolvedPolicy, Model, minus_one,
}

unfoldable pub endpoint_namespace : Endpoint → Text
endpoint_namespace ep =
    if not (is_empty ep.namespace)
    then ep.namespace
    else elim (cut_byte b'/' ep.id) [ none ↦ [] | some (l, r) ↦ l ]

unfoldable pub endpoint_name : Endpoint → Text
endpoint_name ep =
    if not (is_empty ep.name)
    then ep.name
    else elim (cut_byte b'/' ep.id) [ none ↦ ep.id | some (l, r) ↦ r ]

unfoldable pub pod_key : Endpoint → Text
unfolding endpoint_namespace endpoint_name is_empty cut_byte
pod_key ep = endpoint_namespace ep ++ codes "/" ++ endpoint_name ep

-- `p.Protocol`, or "tcp" where it is unset.
abbrev pub default_tcp : Text → Text
default_tcp s = if is_empty s then codes "tcp" else s

-- The loop of `resolveNamed`.
find_port : List EndpointPort → Text → Text → ℤ
find_port [] name proto = minus_one
find_port (p ∷ ps) name proto =
    if p.name == name && equal_fold (default_tcp p.protocol) proto
    then p.port
    else find_port ps name proto

unfoldable pub resolve_named : Endpoint → Text → Text → ℤ
unfolding find_port equal_fold is_empty
resolve_named ep name proto = find_port ep.ports name proto

-- The body of the loop of `portMatches`.
unfoldable pub port_spec_matches : PortSpec → Text → ℤ → Endpoint → Bool
unfolding resolve_named to_lower
port_spec_matches ps proto port owner =
    if not (ps.proto == to_lower proto)
    then false
    else if not (is_empty ps.named)
    then resolve_named owner ps.named proto == port
    else if ps.port == minus_one
    then true
    else int_leb ps.port port && int_leb port ps.end_port

unfoldable pub any_port_matches : List PortSpec → Text → ℤ → Endpoint → Bool
unfolding port_spec_matches
any_port_matches [] proto port owner = false
any_port_matches (p ∷ ps) proto port owner =
    if port_spec_matches p proto port owner then true else any_port_matches ps proto port owner

unfoldable pub ports_match : List PortSpec → Text → ℤ → Endpoint → Bool
unfolding any_port_matches
ports_match [] proto port owner = true
ports_match (p ∷ ps) proto port owner = any_port_matches (p ∷ ps) proto port owner

module _ ⦃net : Net⦄ where
  any_contains : List net.Cidr → net.Ip → Bool
  any_contains [] ip = false
  any_contains (ex ∷ exs) ip = if net.cidr_contains ex ip then true else any_contains exs ip

  block_contains : ResolvedIpBlock net.Cidr → Option net.Ip → Bool
  unfolding any_contains
  block_contains b ip = elim ip [
    | none ↦ false
    | some i ↦ elim b.cidr [
      | none ↦ false
      | some c ↦ if not (net.cidr_contains c i) then false else not (any_contains b.except i)
    ]
  ]

  any_block_contains : List (ResolvedIpBlock net.Cidr) → Option net.Ip → Bool
  unfolding block_contains
  any_block_contains [] ip = false
  any_block_contains (b ∷ bs) ip = if block_contains b ip then true else any_block_contains bs ip

  unfoldable pub peer_matches : ResolvedRule net.Cidr → Endpoint → Bool
  unfolding any_block_contains get pod_key
  peer_matches r peer =
      if r.match_all_peers
      then true
      else if or_zero false (get (pod_key peer) r.peer_pods)
      then true
      else if not (is_empty peer.ip)
      then any_block_contains r.ip_blocks (net.parse_ip peer.ip)
      else false

  unfoldable pub port_matches : ResolvedRule net.Cidr → Text → ℤ → Endpoint → Bool
  unfolding ports_match
  port_matches r proto port owner = ports_match r.ports proto port owner

  unfoldable pub matches : ResolvedRule net.Cidr → Endpoint → Text → ℤ → Endpoint → Bool
  unfolding peer_matches port_matches
  matches r peer proto port owner = peer_matches r peer && port_matches r proto port owner

  -- The inner loop of both verdicts: `matched` is set by every rule that matches.
  unfoldable pub match_rules :
      List (ResolvedRule net.Cidr) → Endpoint → Text → ℤ → Endpoint → Bool → Bool
  match_rules [] peer proto port owner matched = matched
  match_rules (r ∷ rs) peer proto port owner matched =
      match_rules rs peer proto port owner
        (if matches r peer proto port owner then true else matched)

  -- The outer loops, over the policies, with `isolated` and `matched`.
  unfoldable pub ingress_loop :
      List (ResolvedPolicy net.Cidr) → Endpoint → Endpoint → Text → ℤ → Bool → Bool → Bool
  unfolding match_rules matches
  ingress_loop [] dst src proto port isolated matched = not isolated || matched
  ingress_loop (p ∷ ps) dst src proto port isolated matched =
      let skip = not p.ingress_isolate || not (or_zero false (get (pod_key dst) p.applied_to)) in
      ingress_loop ps dst src proto port (if skip then isolated else true)
        (if skip then matched else match_rules p.ingress src proto port dst matched)

  unfoldable pub egress_loop :
      List (ResolvedPolicy net.Cidr) → Endpoint → Endpoint → Text → ℤ → Bool → Bool → Bool
  unfolding match_rules matches
  egress_loop [] src dst proto port isolated matched = not isolated || matched
  egress_loop (p ∷ ps) src dst proto port isolated matched =
      let skip = not p.egress_isolate || not (or_zero false (get (pod_key src) p.applied_to)) in
      egress_loop ps src dst proto port (if skip then isolated else true)
        (if skip then matched else match_rules p.egress dst proto port dst matched)

  unfoldable pub ingress_allows : Model net.Cidr → Endpoint → Endpoint → Text → ℤ → Bool
  unfolding ingress_loop
  ingress_allows m dst src proto port = ingress_loop m.policies dst src proto port false false

  unfoldable pub egress_allows : Model net.Cidr → Endpoint → Endpoint → Text → ℤ → Bool
  unfolding egress_loop
  egress_allows m src dst proto port = egress_loop m.policies src dst proto port false false
