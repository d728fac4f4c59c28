-- ===== src/Lib.antt =====
-- Skrun: a registry and runner of agents. What is modelled here is the core of its API server
-- (packages/api), of its runtime (packages/runtime) and of the schema that both use (packages/schema).
--
-- A caller is let in by the authentication middleware, by a session cookie, an API key or the developer
-- token; the sessions and keys are rows of the database. A command-line client gets its key by the
-- device login. What a caller may then do is decided by the gates on the agent and on the key's scope:
-- a route passes through them and then calls the registry, which keeps the agents and versions in the
-- database and the bundles in a store, or the service of the creators' keys. A run takes a machine of
-- the runner pool and calls a model in a loop with tools, and the server's caches and its rate limiter
-- bound what it keeps.
--
-- Which file is about which code:
--   Schema      packages/api/src/db/schema.ts, types.ts: the rows and the caller's context.
--   Registry    packages/api/src/services/registry.ts: `RegistryError` (code that throws it is a value of
--               `Outcome`) and `RegistryService`, with its state and its reads (Service), `push` and
--               `pull` (Push) and the methods that remove and mark (Remove).
--   Routes      packages/api/src/routes/registry.ts with _helpers.ts: the handlers that read (Read), push
--               and verify (Publish), and the visibility and the deletions (Manage); and of
--               routes/agent-llm-keys.ts (LlmKeys).
--   Secrets     packages/api/src/services/creator-llm-key.ts and secrets/key-provider.ts, `buildAad`
--               (Aad), and what it binds a stored key to (Binding).
--   Storage     packages/api/src/storage/memory.ts, `MemoryStorage`.
--   Migrations  packages/api/src/db/migrations-runner.ts, `runMigrations`.
--   Db          packages/api/src/db/memory.ts, `MemoryDb`: the record of its tables. Db/Agents,
--               Db/ApiKeys, Db/DeviceCodes, Db/LlmKeys, Db/Listing and Db/Runs have an operation for
--               each method, with the method's name, on the whole state.
--   Access      packages/api/src/services: key-scope.ts (KeyScope, with Delegation and Master),
--               access.ts (Visibility), verification-policy.ts (Verification).
--   Auth        packages/api/src/auth/session.ts (Session), the device grant of
--               packages/api/src/routes/auth.ts with pkce.ts, device-code.ts, api-key.ts and
--               services/key-expiry.ts (DeviceLogin), and packages/api/src/middleware/auth.ts
--               (Middleware), behind middleware/csrf.ts (Csrf), in the order of packages/api/src/index.ts:
--               a handler is a function from the tables to the tables and an answer.
--   RateLimit   packages/api/src/ratelimit/memory.ts, `MemoryRateLimiter`, and middleware/rate-limit.ts
--               (Middleware).
--   Cache       packages/runtime/src/cache/ttl-cache.ts, `TTLCache`.
--   Pool        packages/runtime/src/adapter/flyio/pool.ts, `RunnerPool`: the registry of machines;
--               Pool/Upkeep has the fill, the drain and the reconciliation.
--   Llm         packages/runtime/src/llm/router.ts, `callWithToolLoop` with security/cost-checker.ts
--               (ToolLoop), `resolveProvider` (Keys), `assertModelBaseUrlAllowed` (Endpoint) and `call`
--               (Call), and llm/cost.ts (Cost).
--   Network     packages/runtime/src/security/network.ts: the hosts that an agent may reach.
--   Bundle      packages/schema/src/bundle-tar.ts, the rules on names, and
--               packages/api/src/utils/bundle.ts, the two readers of a bundle (Paths, Inside).
--   Capability  packages/schema/src/capability.ts: the lookup (Longest) and the validation (Validation).
--   JsMap, Base JavaScript's `Map` as a list of entries in insertion order, and the shared helpers,
--               with the names that every object inherits.
--   Examples    concrete runs.
--
-- Conventions. The state is passed explicitly. An instant is a number of milliseconds, and
-- `Date.now()` and `randomUUID()` are arguments. SHA-256 is the record `Crypto` of two functions of
-- which nothing is assumed, or `Digest`, which reads a digest back from its text; where a collision
-- would matter the theorem says that the hashes differ. A lookup `object[name]` in an object literal
-- finds its own keys and then the members of `Object.prototype`; the arithmetic on those gives
-- `NaN`, a case of its own. A number of the source is a natural number: every count here is far from
-- the 2^53 where it would stop being exact. A loop over a `Map` or a list is structural recursion,
-- and the loop of `fill` is recursion on the list of the platform's answers, so no fuel is needed;
-- Pool/Target says how many answers are enough. The tool loop recurs on the iterations that are
-- left, from the source's 10. A handler runs as one step: the requests that its `await`s would let
-- in between are not interleaved with it.
--
-- Not modelled: the session cookie's header and the environment variables, which are given parsed;
-- the statistics of the database; the SQL adapters; the OAuth exchange; the timers; the HTTP calls
-- to the platform and to the LLM providers, which are functions that the loop takes; the file
-- system, but for the writes of an extraction and how they fail; the command line, the SDK and the
-- dashboard. Arguments of the definitions that use them: the archive's entries, the parsed JSON
-- body, `decodeURIComponent`, `toLowerCase`, the UTF-8 bytes of a text, AES, the check of hono
-- against forged forms, the URL parser, and the table of model capabilities.
pub mod Base
pub mod JsMap
pub mod Cache
pub mod Schema
pub mod Storage
pub mod Registry
pub mod Routes
pub mod Access
pub mod Db
pub mod Migrations
pub mod Auth
pub mod RateLimit
pub mod Pool
pub mod Llm
pub mod Network
pub mod Bundle
pub mod Secrets
pub mod Capability
pub mod Examples
