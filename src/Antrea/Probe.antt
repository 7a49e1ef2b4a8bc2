-- ===== src/Antrea/Probe.antt =====
-- engines/antrea/defaults.go: `forProbe` keeps every verdict.
use telepathy.Prelude.{
  ◌≡◌, refl, ap, ◌∙◌, inl, inr, Bool, true, false, not, ◌||◌, Option, none, some, List, [], ◌∷◌,
  ◌++◌, arith, if◌then◌else◌, Bool-cases, ℕ_eq, Text, text_eq, ℤ, int_eq,
}
use telepathy.Api.Types.{Endpoint, no_endpoint}
use telepathy.Net.{Net}
use telepathy.Antrea.Types.{PortSpec, ResolvedRule}
use telepathy.Antrea.Rules.{
  peer_matches, port_spec_matches, any_port_matches, ports_match, port_matches, matches,
}
use telepathy.Antrea.Defaults.{
  DirectionRules, no_rules, has_named, allows_loop, allows, probe_loop, for_probe,
}

-- A specification without a name reads nothing of the port's owner.
any_port_matches_owner :
    (ps : List PortSpec) (proto : Text) (port : ℤ) (a b : Endpoint)
    → has_named ps ≡ false
    → any_port_matches ps proto port a ≡ any_port_matches ps proto port b
unfolding any_port_matches port_spec_matches has_named
any_port_matches_owner [] proto port a b h = refl
any_port_matches_owner (p ∷ ps) proto port a b h =
    ground (arith, any_port_matches_owner ps proto port a b)

ports_match_owner :
    (ps : List PortSpec) (proto : Text) (port : ℤ) (a b : Endpoint)
    → has_named ps ≡ false
    → ports_match ps proto port a ≡ ports_match ps proto port b
unfolding ports_match
ports_match_owner [] proto port a b h = refl
ports_match_owner (p ∷ ps) proto port a b h = any_port_matches_owner (p ∷ ps) proto port a b h

-- What the reduction for a probe may assume of the endpoint that owns the port: it is the given
-- one, if one is given.
abbrev pub Owns : Option Endpoint → Endpoint → Type 0
Owns none real = Unit
Owns (some ep) real = ep ≡ real

module _ ⦃net : Net⦄ where
  pub allows_loop-append :
      (rs qs : List (ResolvedRule net.Cidr)) (peer : Endpoint) (proto : Text) (port : ℤ)
      (owner : Endpoint)
      → allows_loop (rs ++ qs) peer proto port owner
        ≡ (allows_loop rs peer proto port owner || allows_loop qs peer proto port owner)
  unfolding allows_loop
  allows_loop-append [] qs peer proto port owner = refl
  allows_loop-append (r ∷ rs) qs peer proto port owner =
      ground (arith, allows_loop-append rs qs peer proto port owner)

  -- A rule whose ports were already matched.
  abbrev free_ports : ResolvedRule net.Cidr → ResolvedRule net.Cidr
  free_ports r = record r { ports = [] }

  peer_matches-free_ports :
      (r : ResolvedRule net.Cidr) (peer : Endpoint)
      → peer_matches (free_ports r) peer ≡ peer_matches r peer
  unfolding peer_matches
  peer_matches-free_ports r peer = refl

  peer_matches_all :
      (r : ResolvedRule net.Cidr) (peer : Endpoint)
      → r.match_all_peers ≡ true
      → peer_matches r peer ≡ true
  unfolding peer_matches
  peer_matches_all r peer h = rw h

  free_ports_match :
      (r : ResolvedRule net.Cidr) (proto : Text) (port : ℤ) (owner : Endpoint)
      → port_matches (free_ports r) proto port owner ≡ true
  unfolding port_matches
  free_ports_match r proto port owner = refl

  kept_append :
      (kept : List (ResolvedRule net.Cidr)) (r : ResolvedRule net.Cidr) (peer : Endpoint)
      (proto : Text) (port : ℤ) (real : Endpoint)
      → allows_loop (kept ++ (r ∷ [])) peer proto port real
        ≡ (allows_loop kept peer proto port real || matches r peer proto port real)
  unfolding allows_loop
  kept_append kept r peer proto port real =
      ground (arith, allows_loop-append kept (r ∷ []) peer proto port real)

  port_matches_owner :
      (r : ResolvedRule net.Cidr) (proto : Text) (port : ℤ) (a b : Endpoint)
      → has_named r.ports ≡ false
      → port_matches r proto port a ≡ port_matches r proto port b
  unfolding port_matches
  port_matches_owner r proto port a b h = ports_match_owner r.ports proto port a b h

  -- A rule whose ports do, or do not, match the probe, whoever owns the port.
  module _ (r : ResolvedRule net.Cidr) (peer : Endpoint) (proto : Text) (port : ℤ)
      (ep real : Endpoint)
      (same : port_matches r proto port ep ≡ port_matches r proto port real) where
    matches_never : port_matches r proto port ep ≡ false → matches r peer proto port real ≡ false
    unfolding matches
    matches_never h = ground arith

    matches_always :
        port_matches r proto port ep ≡ true
        → r.match_all_peers ≡ true
        → matches r peer proto port real ≡ true
    unfolding matches
    matches_always h m = ground (arith, peer_matches_all r peer)

    matches_free :
        port_matches r proto port ep ≡ true
        → matches (free_ports r) peer proto port real ≡ matches r peer proto port real
    unfolding matches
    matches_free h =
        ground (arith, peer_matches-free_ports r peer, free_ports_match r proto port real)

  -- The verdict of the kept rules and the rest, as the loop goes on.
  abbrev pending :
      Bool
      → List (ResolvedRule net.Cidr)
      → List (ResolvedRule net.Cidr)
      → Endpoint
      → Text
      → ℤ
      → Endpoint
      → Bool
  pending isolated kept rs peer proto port real =
      not isolated || (allows_loop kept peer proto port real || allows_loop rs peer proto port real)

  pending_keep :
      (isolated : Bool) (kept rs : List (ResolvedRule net.Cidr)) (r q : ResolvedRule net.Cidr)
      (peer : Endpoint) (proto : Text) (port : ℤ) (real : Endpoint)
      → matches q peer proto port real ≡ matches r peer proto port real
      → pending isolated (kept ++ (q ∷ [])) rs peer proto port real
        ≡ pending isolated kept (r ∷ rs) peer proto port real
  unfolding allows_loop
  pending_keep isolated kept rs r q peer proto port real h =
      ground (arith, kept_append kept q peer proto port real)

  pending_skip :
      (isolated : Bool) (kept rs : List (ResolvedRule net.Cidr)) (r : ResolvedRule net.Cidr)
      (peer : Endpoint) (proto : Text) (port : ℤ) (real : Endpoint)
      → matches r peer proto port real ≡ false
      → pending isolated kept rs peer proto port real
        ≡ pending isolated kept (r ∷ rs) peer proto port real
  unfolding allows_loop
  pending_skip isolated kept rs r peer proto port real h = ground arith

  pending_stop :
      (isolated : Bool) (kept rs : List (ResolvedRule net.Cidr)) (r : ResolvedRule net.Cidr)
      (peer : Endpoint) (proto : Text) (port : ℤ) (real : Endpoint)
      → matches r peer proto port real ≡ true
      → true ≡ pending isolated kept (r ∷ rs) peer proto port real
  unfolding allows_loop
  pending_stop isolated kept rs r peer proto port real h = ground arith

  -- A rule that is decided for the probe is dropped, ends the loop, or is kept without ports.
  decided :
      (isolated : Bool) (kept rs : List (ResolvedRule net.Cidr)) (r : ResolvedRule net.Cidr)
      (peer : Endpoint) (proto : Text) (port : ℤ) (ep real : Endpoint)
      (skip free : DirectionRules net.Cidr)
      → port_matches r proto port ep ≡ port_matches r proto port real
      → allows skip peer proto port real ≡ pending isolated kept rs peer proto port real
      → allows free peer proto port real
        ≡ pending isolated (kept ++ (free_ports r ∷ [])) rs peer proto port real
      → allows
          (if not (port_matches r proto port ep)
            then skip
            else if r.match_all_peers
            then no_rules
            else free)
          peer
          proto
          port
          real
        ≡ pending isolated kept (r ∷ rs) peer proto port real
  decided isolated kept rs r peer proto port ep real skip free same hs hf =
      elim (Bool-cases (port_matches r proto port ep)) [
        | inr miss ↦ rw miss (
            hs
            ∙ pending_skip isolated kept rs r peer proto port real
                (matches_never r peer proto port ep real same miss))
        | inl hit ↦ rw hit (elim (Bool-cases r.match_all_peers) [
          | inl every ↦ simp every (
              unfold allows in
              pending_stop isolated kept rs r peer proto port real
                (matches_always r peer proto port ep real same hit every))
          | inr some_peers ↦ simp some_peers (
              hf
              ∙ pending_keep isolated kept rs r (free_ports r) peer proto port real
                  (matches_free r peer proto port ep real same hit))
        ])
      ]

  -- The loop of `forProbe` keeps the verdict that the kept rules and the rest would give.
  probe_loop-allows :
      (isolated : Bool) (rs kept : List (ResolvedRule net.Cidr)) (proto : Text) (port : ℤ)
      (owner : Option Endpoint) (peer real : Endpoint)
      → Owns owner real
      → allows (probe_loop isolated rs proto port owner kept) peer proto port real
        ≡ pending isolated kept rs peer proto port real
  unfolding probe_loop
  probe_loop-allows isolated [] kept proto port owner peer real h =
      unfold allows allows_loop in ground arith
  probe_loop-allows isolated (r ∷ rs) kept proto port none peer real h =
      let free = probe_loop isolated rs proto port none (kept ++ (free_ports r ∷ [])) in
      let skip = probe_loop isolated rs proto port none kept in
      elim (Bool-cases (has_named r.ports)) [
        | inl dynamic ↦ rw dynamic (
            probe_loop-allows isolated rs (kept ++ (r ∷ [])) proto port none peer real h
            ∙ pending_keep isolated kept rs r r peer proto port real refl)
        | inr static ↦ rw static (
            decided isolated kept rs r peer proto port no_endpoint real skip free
              (port_matches_owner r proto port no_endpoint real static)
              (probe_loop-allows isolated rs kept proto port none peer real h)
              (probe_loop-allows isolated rs (kept ++ (free_ports r ∷ [])) proto port none peer real
                h))
      ]
  probe_loop-allows isolated (r ∷ rs) kept proto port (some ep) peer real h =
      let free = probe_loop isolated rs proto port (some ep) (kept ++ (free_ports r ∷ [])) in
      let skip = probe_loop isolated rs proto port (some ep) kept in
      decided isolated kept rs r peer proto port ep real skip free
        (ap (port_matches r proto port) h)
        (probe_loop-allows isolated rs kept proto port (some ep) peer real h)
        (probe_loop-allows isolated rs (kept ++ (free_ports r ∷ [])) proto port (some ep) peer real
          h)

  -- The reduction for a probe keeps every verdict, at the owner that it was given, or at any
  -- owner if it was given none.
  pub allows-for_probe :
      (d : DirectionRules net.Cidr) (proto : Text) (port : ℤ) (owner : Option Endpoint)
      (peer real : Endpoint)
      → Owns owner real
      → allows (for_probe d proto port owner) peer proto port real ≡ allows d peer proto port real
  unfolding for_probe
  allows-for_probe d proto port owner peer real h =
      probe_loop-allows d.isolated d.rules [] proto port owner peer real h
      ∙ (unfold allows allows_loop in ground arith)
