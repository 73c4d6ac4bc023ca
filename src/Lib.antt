-- ===== src/Lib.antt =====
-- A model of the egress gateway's own logic: what it believes of its environment, what it leaves
-- on its volumes, and the certificates that it hands to the proxy.
--
-- The parts and their files. A name of the source is spelled here in lower case with underscores.
--   * config/config.go: Config (Names, Validate, Load, Laws). Load reads the environment, a function
--     from names to values, and ends in Validate. filepath is in GoLib/FilePath.
--   * config/tracing.go: Config/Tracing. LoadTracing is a chain of stages, each a function on the
--     settings so far: Endpoint, Attributes, Sampling, joined in Load. validHeaders is in Headers.
--   * internal/inspection/ca.go: Inspection/Ca. Open, generate and publishCertificate are in Open and
--     Write, Bundle in Bundle, Directory and readPrivate in Directory, writeAtomic in Write. Safety and
--     Usable say what a directory, a written or published file and an authority's certificate must be.
--   * internal/inspection/leaf.go: Inspection/Names (canonicalName) and Inspection/Leaf (issue).
--   * internal/inspection/sds.go: Inspection/Server. State has the cache and its order of use, Update
--     has updateLocked, Watches has process and the goroutines of a stream. The daemon gives Open's
--     authority to a new server; streams share the server, and each has a watch in it.
--   * internal/daemon/daemon.go: Daemon. Setup is Run up to the start of OPA (with Directory, the writes
--     of both guards, Open, NewSecretServer, prepareOPA and configurePolicyHost; Written and Start have
--     its laws), Services what follows, with the deferred calls, Supervision its two loops, Probes has
--     Ready and its checks. opa.go is in Daemon/Policy.
--   * internal/daemon/envoy.go and tracing.go: Daemon/Envoy and Daemon/Opa, on the JSON values of
--     Daemon/Json, where the loops that change a document in place are functions (visit_array,
--     visit_object). internal/request/filter.go is in Daemon/Request.
--   * enrollment/compose.go: Enrollment. Pod has the fields of a Pod that the code reads or writes,
--     Managed the containers of managed.json, Protect protectBusiness, Proxy proxyEnv and the settings
--     of the proxy's container, Compose the loops of ComposePod and ComposePod itself (its Startup,
--     ProxyPart, Annotations and Mounts say what each part of the Pod must be).
--   * cmd/gateway-daemon/main.go: Command, with what run ends in as a value.
--   * cmd/gateway-e2e-compose: Enrollment/Fixture has compose and attachShared.
--   * Prelude has lists, maps as association lists, texts as lists of code points; GoLib has what the
--     sources call of Go's packages strings, path/filepath, strconv and net/netip. Tests has runs.
--
-- Parameters. Cryptography and encodings (crypto/ecdsa, crypto/x509, encoding/pem, Envoy's messages)
-- are a record Crypto, JSON and key pairs a record Codec, pem.Decode and bytes.TrimSpace a record Pem,
-- url.Parse, url.PathUnescape and floats a record Platform. The networking module, which expands a Pod
-- and its policy, is a record Networking. The texts of YAML and JSON documents are records Documents
-- and Formats. unicode.ToLower beyond ASCII and netip's reader of IPv6 texts are arguments. What the
-- operating system answers to a call is an oracle.
--
-- Bounds. Times count nanoseconds in the natural numbers; a time before the epoch is 0. The version
-- and the nonce of the secret server wrap at 2 ^ 64. Loops recur on the list that they walk; the loop
-- of Bundle, which recurs on what pem.Decode leaves, has fuel above the length of its input: each
-- block shortens what remains. A select of Go is a step, or an element of a list of events, for each
-- of its cases.
--
-- Not modelled: the policy of the test fixture (sharedArtifacts), the other commands, and the Lua
-- guard. The gRPC server, the sockets and the processes belong to libraries and the operating system.
pub mod Prelude
pub mod GoLib
pub mod Config
pub mod Inspection
pub mod Enrollment
pub mod Command
pub mod Daemon
mod Tests
