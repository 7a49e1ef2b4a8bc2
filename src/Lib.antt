-- ===== src/Lib.antt =====
-- telepathy evaluates Kubernetes network policies without a cluster: a request holds endpoints,
-- namespaces, policies and one probe, and an engine answers with a connectivity matrix from
-- "source->destination" to "allow" or "deny". This library models the shared types and the pair
-- selection, the assertions, the diff and the portable cost of api, the Antrea and the Cilium
-- engine, and the core of the Calico provider.
--
-- The parts, and the files that model them:
--   api/types.go                   Api/Types: the structs of a request and a response, the flow key
--   api/load.go                    Api/Load: DecodeRequest, DecodeResponse, ParsePolicyManifests
--   api/pairs.go                   Api/Pairs: EndpointPairs as the list that the iterator yields
--   api/assert.go                  Api/Assert: RunAssertions over any evaluator
--   api/diff.go                    Api/Diff: DiffResponses and its report; Api/FlowKey: splitFlowKey
--   api/cost.go                    Api/Documents (decoded manifests and what is counted in them),
--                                  Api/Smells (the findings), Api/Scopes (the two about scope),
--                                  Api/Cost (ComputeCost)
--   engines/antrea/harness.go      Antrea/Types, Antrea/Manifests (the Kubernetes objects that are
--                                  read and made), Antrea/Build (resolution of the policies)
--   engines/antrea/defaults.go     Antrea/Defaults: the index of the policies by endpoint and probe
--   engines/antrea/eval.go         Antrea/Rules (ingressAllows, egressAllows and below),
--                                  Antrea/Evaluate (evaluate, evaluateWithDefaults)
--   engines/cilium/eval.go         Cilium/Identities (labels and named ports), Cilium/Policies (the
--                                  loaders), Cilium/Evaluate (evaluate, evaluateWithDefaults)
--   engines/cilium/defaults.go     Cilium/Defaults: the directions that some rule affects
--   provider/calico/flow.go        Calico/Flow
--   provider/calico/eval.go        Calico/Actors (buildActors), Calico/Eval (evalFlow and the loop
--                                  over all pairs)
--                                  Calico/Services: service columns, actor report, and, of
--                                  matrix.go, the columns that a stream keeps
--   provider/calico/icmp.go        Calico/Icmp: the filter of rules by an ICMP probe
--   provider/calico/matrix.go      Calico/Matrix: the sink, in memory and streamed
--   provider/calico/collapse.go    Calico/Collapse (probes, signatures, fingerprints),
--                                  Calico/Classes (classes, memos and the expansion)
--   provider/calico/pairs.go       Calico/Requested: fillMatrixPairs
--   provider/calico/tiermatch.go   Calico/TierMatch: ResolveTierMatches
--   provider/calico/lint.go        Calico/Lint: lintPolicies
--   provider/calico/resources.go   Calico/Ports (the conversions of service ports), Calico/Inline
--                                  (applyInlineResources)
-- The other files hold proofs: Api/Ids, Api/Pairs/Visits and Api/Pairs/Exactness on the pairs,
-- Api/Assert/Tally, Api/Assert/Groups and Api/Assert/Results on the assertions, Api/Diff/Changes,
-- Api/Diff/Report and Api/Diff/Order on the diff, Antrea/Probe, Antrea/Equivalence,
-- Antrea/WellFormed and Antrea/Verdicts on the Antrea engine, Calico/Hooks and Calico/Entries on
-- the Calico evaluator, Calico/Streaming and Calico/KeepSet on streamed matrices, Calico/Bounds,
-- Calico/Expansion and the children of Calico/ByClass on the classes, the children of
-- Calico/Requested on the requested pairs, those of Api/Cost on the cost, those of
-- Calico/TierMatch on the tier matches, Calico/Icmp/Filtered, Calico/Lint/Egress, Calico/Ports/RoundTrip and
-- the children of Calico/Inline on those parts, Cilium/Unrestricted, Cilium/Total, Cilium/Entries and the children of
-- Cilium/Policies on the Cilium engine. Calico/Locality words what collapse.go relies on. Prelude
-- and its children hold the shared names and lemmas, Tests the runs on small inputs. A Go
-- function keeps its name in snake case; the loops of a function are definitions of their own
-- beside it.
--
-- How the engines work together: all providers take a Request and fill a Matrix of the same keys.
-- The Antrea engine asks EndpointPairs for the pairs of a request, and decides each by the
-- resolved policies or by the index. The Cilium engine asks it too, and decides a pair by the
-- lookup of Cilium's repository unless no rule affects the pair. The Calico provider turns
-- endpoints and host endpoints into actors, walks the policy checker at each hook of a flow, and
-- puts the verdicts into a sink.
--
-- What is not in the repository is a parameter. Net (Net.antt) is Go's net package: parsing and
-- printing of addresses, and blocks that contain them. Grouping (Antrea/Manifests) is Antrea's
-- grouping index and the YAML decoder. Checker (Calico/Store) is Calico's policy checker with the
-- rules and IP sets that it reads. CiliumLib (Cilium/Repository) is what the Cilium engine calls
-- of Cilium. Files (Api/Load) is yaml.Unmarshal and the regular expression that splits a file.
-- Codec (Api/Documents) decodes manifests for the cost and encodes rules. HeadDecoder
-- (Calico/Lint), ResourceDecoder (Calico/Inline) and IntOrString (Calico/Ports) are the decoders
-- and the type of Kubernetes that those parts use. GraphResult (Calico/TierMatch) holds what
-- Felix's calculation leaves for a request. Nothing is assumed of them, except where a hypothesis
-- is named.
--
-- Conventions. A string is the list of its bytes, and case folding and trimming are those of
-- ASCII. An int is an integer without bounds: the code does no arithmetic on ports that could
-- overflow, and its conversions to uint16 and int32 are written out. A map is an association list
-- that keeps the place of a key: where Go ranges over a map, the model takes the order of the
-- list, and a proof holds for every list. A nil pointer is none; an index out of range, which
-- panics in Go, makes the result none. The loops follow lists; only the digits of strconv.Itoa
-- run on fuel, one more than the number, which has fewer digits.
--
-- Not modelled: Response.Cost; the feeding of Felix's calculation graph and the top of Evaluate
-- that drives it; the table of Capabilities, constant data; HNS, BPF and iptables rendering and
-- their cost, which count what packages of Felix return, and the flattener of tiers in
-- provider/calico/hns.go, a copy of Felix's code; the commands, the proxy and the output of a
-- matrix as text; and the end-to-end harness, which drives clusters. buildActors changes a host
-- endpoint in place; the model changes the copy of its actor, so two inputs of one name do not
-- share it.
pub mod Prelude
pub mod Net
pub mod Api
pub mod Antrea
pub mod Calico
pub mod Cilium
mod Tests
