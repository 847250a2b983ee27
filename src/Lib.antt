-- ===== src/Lib.antt =====
-- A model of the identity hub: a Credential Service and an Issuer Service of the Decentralized
-- Claims Protocol, with an OID4VCI issuer and an OID4VCI wallet. The code is in crates/identity-hub-core/src (protocol
-- messages, tokens, scopes, the Secure Token Service) and crates/identity-hub-http/src (the state
-- and the HTTP handlers).
--
-- How the parts work together: every guarded handler first verifies its caller's bearer token
-- (Auth), which asks the outbound policy (Outbound) before any DID is resolved and records the
-- token's jti in the replay cache (State.SeenJti). A Credential Service answers presentation
-- queries (Hub.Presentation) and accepts deliveries and offers (Hub.Storage, with the checks of
-- Validation). An Issuer Service takes credential requests (Hub.Issuance), which look up the
-- definitions (Issuer.Definitions) and the holder (Issuer.Holders) and put a process into the
-- bounded table (State.Requests); the operator decides on holders and definitions (Hub.Admin);
-- deliveries run later (Hub.Delivery) and write the issued-credential records and the revocation
-- list (Issuer.Issued, Issuer.StatusList). The OID4VCI issuer (Hub.Offers, over the expiring tables
-- of Oid4vci.Table) issues the same credentials against pre-authorized codes, and the wallet
-- (Wallet) redeems the offers of any issuer into the store of the Credential Service. Whether an
-- issuer is trusted is decided by a static list or by a signed snapshot (RegistryTrust). The
-- operator reaches Hub.Admin through the gates of Hub.Admin.Gate, and pages through the records
-- with the query language of Issuer.Query.
--
-- Which file models which code:
--   State/SeenJti, State/Requests, State/Evict: SeenJtiCache, RequestTable and the eviction loop
--     (identity-hub-http/src/state.rs, identity-hub-http/src/oid4vci.rs).
--   Issuer/*: the catalog, the registry, processes, records, the status list and QuerySpec
--     (identity-hub-http/src/issuer.rs).
--   Messages, Identity, Scope, Sts: the modules of these names of identity-hub-core/src.
--   Outbound and Hub/Hosts: the outbound policy with its construction, and the redirect policy
--     (identity-hub-http/src/outbound.rs, identity-hub-http/src/state.rs).
--   Auth, Validation: the modules of these names of identity-hub-http/src.
--   RegistryTrust: identity-hub-http/src/registry_trust.rs.
--   Oid4vci, Oid4vci/Table, Oid4vci/Proof, Oid4vci/Metadata, Oid4vci/Signing: oid4vci.rs of both
--     crates.
--   Wallet/*: the wallet of identity-hub-http/src/oid4vci.rs. Network has the requests, the answers
--     and the calls; Checks the checks without a request; Client the requests; Redeem the flow;
--     Rules the reasoning on calls.
--   Hub: AppState and what its handlers share; its children model handlers.rs, admin.rs and
--     oid4vci.rs of identity-hub-http/src.
--   Common/*: lists, maps, JSON values, texts and results that the parts share.
--   Tests/*: one example of each result at concrete inputs.
--
-- How the code is rendered: a handler is a function from the state (and the request, the clock and
-- the random identifiers it draws) to the new state and the answer. The clock is read once per
-- handler, outside the wallet, whose calls read it from the network's state, and the registry's
-- client, which takes both readings. A mutex that the code holds for part of a handler is held for all of it in the model,
-- except in a delivery, whose three steps (claim, attempt, finish) are functions of their own, as
-- the code holds no lock between them. A hash map is an association list without repeated keys. A
-- panic is `none` where a result reaches it. HTTP answers keep their status and text; headers other
-- than Location, and logging, are left out. Numbers are natural numbers: the sums of a time and a
-- duration are below 2^64 for every clock, except for a validity near the end of the i64 range.
--
-- Bounds and fuel: `make_room` of State.Requests runs on fuel that starts at the length of the
-- queue, and each of its rounds takes one id off the queue, so the fuel is enough. The wallet's two
-- loops over attempts run on the bound 2 of the code. Every other loop is structural recursion. The capacities are those of the constants of the code.
--
-- External code, a value of the record External: dcp_core (JWS, DID documents, keys), the HTTP
-- client, URL parsing, the scope pattern, base64, chrono's rendering of dates and the Unicode
-- lower-case table. The wallet's own requests go through its Network; the DID resolutions and registry
-- fetches made while it accepts a credential are answers of External, not requests of that Network.
-- The answer of the credential graph is an argument of the presentation query;
-- what the other handlers write to the graph is kept in order. The trusted issuers registry is a
-- function for the handlers, the answer of RegistryTrust at that moment.
--
-- Not modelled: the RDF graph and its connector (an external store), the rest of the
-- construction of the application's state (fresh keys, empty tables, the HTTP client), the command line and the server, the benchmark tool.
pub mod Auth
pub mod Common
pub mod External
pub mod Http
pub mod Hub
pub mod Identity
pub mod Issuer
pub mod Messages
pub mod Oid4vci
pub mod Outbound
pub mod RegistryTrust
pub mod Scope
pub mod State
pub mod Sts
pub mod Tests
pub mod Validation
pub mod Wallet
