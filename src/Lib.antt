-- ===== src/Lib.antt =====
-- The instance metadata service for Proxmox guests and its enrolment of device identities: what the
-- parts of the program do, and proofs that they do it.
--
-- The program. The service answers guests that it knows by the MAC address of the caller. A guest gets a
-- session token from the token store (imds/token.go), which a throttle in front of all handlers
-- (internal/server/limit.go) protects. It enrols a key of its virtual TPM (internal/devid): it is
-- authenticated by its place in the inventory and the certificate of its endorsement key (EK), gets a
-- challenge that only the TPM with that key can answer, and then a certificate for its VM ID. The pins
-- (internal/devid/pin.go, clusterpin.go) hold a VM to one EK and keep an EK from a second VM. A reconciler
-- (internal/reconcile) keeps the entries of a SPIRE server in step with the guests of a cluster. The
-- metadata handlers (imds/handlers.go) answer from the record that the connection of a caller is bound to
-- and from the topology of the host. The server (internal/server/server.go, reload.go) binds a connection
-- through the ARP table and the inventory, which it loads again when its source changes.
--
-- The files.
-- Prelude, Dict: shared names, texts as lists of code points with the functions of the Go package
--   strings that the program calls, and Go maps with string keys as association lists.
-- Tokens: imds/token.go. Token, TokenStore, generateTokenAt, prunePeerExpiredLocked,
--   evictOldestOfPeerLocked, discardExpiredLocked, ValidateToken, cleanupExpired and the counts, under
--   the same names in snake case. Split, Invariant, Mint, Insert, Generate, Outcome, Sweep, Later and
--   History hold the proofs.
-- Limiter: internal/server/limit.go. The budgets, scrubIdlePeers, trackConnState and
--   guestLimitMiddleware. Admission compares the budgets with an ideal sliding window, Open the count of
--   a peer with its open connections.
-- Devid/Sessions: internal/devid/session.go.
-- Devid/Files: the directories that the pins are read from, and the guest configurations.
-- Devid/Pins: internal/devid/pin.go and clusterpin.go. Scan has the scans and ensurePinBeforeIssue, which
--   holds a lock throughout and is one step here, and enforceOwnPin of auth.go.
-- Devid/Verify: verify.go, SigningRequest of csr.go and IssueDevID of ca.go. Devid/Csr: the encoding of a
--   signing request in csr.go.
-- Devid/Enroll: AuthenticateEnrollCaller of auth.go, Start and Finish of enroll.go; Http has the handlers
--   of http.go, Sound all sequences of requests to them.
-- Reconcile/Diff: Diff of internal/reconcile/diff.go. Reconcile/Bans: BanTracker of the same file.
-- Reconcile/Pass: Pass of internal/reconcile/run.go. A target carries what its reader answers, and the
--   SPIRE server is what it lists and which calls it carries out. Doubtful has the clusters that cannot
--   be read, Order and Writes the order of the calls.
-- Reconcile/Config: LoadConfig of internal/reconcile/config.go. Owners follows the owners of the
--   fingerprints.
-- Reconcile/Wanted: Wanted of internal/reconcile/wanted.go, whose aliases Diff compares.
-- Inventory: LoadYAML and GetVMIDByMAC of internal/inventory/inventory.go, and tags.go. It starts from
--   the decoded YAML.
-- Proxmox: internal/proxmox/vmconfig.go, with placement.go of internal/inventory in Proxmox/Topology, and
--   nics.go in Proxmox/Nics. Each pattern of the source is a function on texts.
-- Bridgebind: internal/bridgebind/render.go and binder.go. A binder's tick takes what it reads and the
--   table of the kernel as arguments. Ports gives the rules their meaning, Ticks has the histories.
-- Metadata: the predicates and answers of imds/handlers.go, tags.go and placement.go; Metadata/Routes has
--   the handlers, one clause of `handler` each, and their registration in New of server.go. Access,
--   Identity, Listing and Opening hold the proofs.
-- Config: Load of internal/config/config.go.
-- Server: reloads, polls, readiness and health of internal/server. Server/Identify is the binding of a
--   connection, Server/Enrolling the start of the enroller.
-- Tests: small inputs, and the theorems applied to them.
--
-- State and time. Code that changes an object takes the object's value and gives the new one. What runs
-- under a lock is one step, and histories are sequences of such steps in any order. The clock, random
-- values, the answers of the file system and parsed addresses are arguments. A time is a number of
-- nanoseconds, so times before the epoch and negative lifetimes are not modelled; nothing overflows,
-- since 64 bits of nanoseconds last for centuries. Times need not rise except where a theorem says so.
-- One call reads the clock once. An error that wraps an error of a library has its own part of the
-- message only. Letters are lowered and compared as Go does where the result is ASCII; other letters are kept.
--
-- Bounds. All loops follow lists, so no fuel is needed. The order of a map is that of its list, and
-- where Go sorts, the model sorts.
--
-- Not under this repository, and therefore parameters: crypto, x509 and go-tpm (the records Tpm and
-- Codec), JSON and base64 (bodies come decoded), the YAML decoder, net.ParseIP,
-- url.PathUnescape, nft. Not modelled: the TPM and SPIRE clients, the Proxmox API, flags,
-- listeners, the choice of a pattern by http.ServeMux, logging, and the parts of the service that
-- the files above do not name.
pub mod Prelude
pub mod Dict
pub mod Tokens
pub mod Limiter
pub mod Inventory
pub mod Metadata
pub mod Config
pub mod Devid
pub mod Reconcile
pub mod Proxmox
pub mod Bridgebind
pub mod Server
pub mod Tests
