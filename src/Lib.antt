-- ===== src/Lib.antt =====
-- accesscore: the access-control core of the API, modelled from its sources.
--
-- The authorization domain (apps/api/src/authz/domain) decides a query over a snapshot of an
-- organization: `NamespaceRegistry` gives the rewrite of a relation, `TupleIndex` the subjects of a
-- node, `IndexedMemberships` what is known of a flattened group, and `evaluate` walks them.
--   Refs         identifiers, references, subjects, actions, tuples (entity-ref.ts, subject-ref.ts,
--                identifier.ts, action.ts, relation-tuple.ts), with the string keys of the maps
--   Usersets     rewrite trees (userset.ts)
--   Tuples       `TupleIndex` and `IndexedMemberships`
--   Namespaces   `NamespaceConfig.create` (checks, search for cycles), definitions, the registry
--   Decisions    decisions, reasons, the query (decision.ts, authorization-query.ts)
--   Evaluate     `evaluate` with `derive`, `deriveRewrite`, `deriveThis` (evaluate.ts)
--   Flatten      `flattenSet`, `flatten`, `expand` of the same file
--   Addresses    address blocks: `isValidCidr`, `parseIp`, `containedIn` (policy/condition.ts,
--                policy/evaluate-condition.ts)
--   Conditions   conditions and `parseCondition` (policy/condition.ts)
--   Verdicts     `evalCondition` (policy/evaluate-condition.ts)
--   Policies     `decide` and `applyBounds` (policy/decide.ts, policy/boundary.ts)
--   Audit        the hash chain of the security log (apps/api/src/security)
--   Sessions     sessions, token families, refresh tokens, their tables and the ending of sessions
--                (apps/api/src/authn: domain, infrastructure/persistence, session-terminator.ts)
--   Refresh      the exchange of a refresh token (authn/application/refresh.ts)
--   Login        the login and its lockout counters (authn/application/login.ts,
--                authn/infrastructure/revocation/redis-lockout-store.ts)
--   StepUp       raising a session's assurance (authn/application/step-up.ts), alone and with the
--                second factor of Identity
--   Identity     users, one-time tokens, password resets, MFA credentials, recovery codes and the
--                second factor (apps/api/src/identity, authn/infrastructure/credentials)
--   Closure      the gathering of a snapshot (authz/application/pdp-service.ts: `loadClosure`,
--                `cachedNamespace`, `indexedMemberships`)
--   Pdp          the decision over what a transaction reads, simulations, and the service around it:
--                `check` with its cache and log, batches and expansions (the same file)
--   DecisionCache the cache of decisions (authz/infrastructure/cache/redis-decision-cache.ts)
--   DecisionLog  the buffered log of decisions (authz/infrastructure/persistence/
--                buffered-decision-log.ts)
--   Prelude      Boolean tests, texts, lists, splitting, maps
--
-- Strings are lists of UTF-16 code units, a `Map` or `Record` is an association list in the order
-- of insertion, a mutable set or flag is passed on as a state, a thrown error is `none` and a
-- `Result` a data type of the model. Numbers are natural: the literals of conditions too, and the
-- times, so that a date before 1970 is not a timestamp of the model.
--
-- `Host` stands for what the language's library computes of texts, `Date.parse` and `Number`; the
-- theorems that need it assume that `Number` reads one to three digits as a decimal.
--
-- The authentication handlers act on one store of tables. What a random id, the token generator or
-- the issuer yields is an argument. Where a handler reads and then writes, and other requests may
-- run in between, the stores at these times are separate arguments (`exchange`); `execute` is the
-- run that nothing interrupts. So do `reset_password`, `redeem` and `verify_factor` of the identity
-- module. An entry of a cache that expires is one that is no longer there; the counters of failed
-- logins keep the time they have left, which `elapse` takes from them. One time stands for the
-- clock of a request, also where `stepUp` reads it twice. Codes are compared as texts: `equals` of
-- rfc6238-totp.ts throws on a code outside ASCII of the right length, where the model answers false.
--
-- The membership index is rewritten without a new revision, so what a request reads at a revision
-- is a relation (`IsWorld`), and the cache answers what an evaluation at some earlier time would.
--
-- `derive` and `collect_members` recurse on fuel, as their recursion runs over tuples that may be
-- cyclic: the depth bound (10) stops the steps over tuples, and the acyclic computed usersets of an
-- accepted configuration those within a node, so `enough_fuel` is 12 times one more than the height
-- of the computed usersets; `load_closure` walks with the same fuel. The search for cycles has as
-- much fuel as there are edges and two more, `close` of the decision log fuel for each entry of the
-- buffer and three more. The sink may answer the direct writes of the log in any order.
--
-- Not modelled: the writers of tuples, policies and namespaces with the stream of changes and the
-- membership indexer, the demo account, signing and verification of tokens (cryptographic
-- libraries), SQL and Redis themselves, the HTTP interface, the console and the SDK.
pub mod Prelude
pub mod Refs
pub mod Usersets
pub mod Tuples
pub mod Namespaces
pub mod DecisionCache
pub mod DecisionLog
pub mod Decisions
pub mod Addresses
pub mod Closure
pub mod Conditions
pub mod Verdicts
pub mod Policies
pub mod Audit
pub mod Sessions
pub mod Refresh
pub mod Identity
pub mod Login
pub mod StepUp
pub mod Pdp
pub mod Evaluate
pub mod Flatten
