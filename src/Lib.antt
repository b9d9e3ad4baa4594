-- ===== src/Lib.antt =====
-- xqua-go: the in-process message bus, the migrations, the runtime, the canonical errors, and the
-- registration, the security and the validation of HTTP routes and their OpenAPI documents.
--
-- The parts, and how they interact:
--
-- `Bus` is pkg/bus/local.go with the interface of pkg/bus/bus.go. A publisher collects the targets
-- of a subject from the registry of patterns, puts a delivery into the mailbox of each, and the
-- worker of the subscription dispatches it to a handler. A requester takes a waiter from the pool
-- and waits on its channel, and whoever replies claims the waiter by its generation.
--   * Bus/Subject: `isWildcard`, the split of a subject and `matchPattern`;
--   * Bus/Snapshot: `subState`, `queueGroup`, `cloneAdd`, `cloneRemove`, `appendRefs`;
--   * Bus/Registry: `register`, `deregister`, `addWild`, `removeWild`, `collect`; `view` gives the
--     abstract registry, the subscribers of each pattern and queue;
--   * Bus/Message, Bus/Waiter: messages and `getWaiter`, `deliver`, `finishReq`, `nextInbox`. The
--     protocol of a waiter is a step relation on all interleavings of a requester and responders;
--   * Bus/Local: `Local`, `subscription`, `addSub`, `unsubscribe`, `Close`, `Drain`; in Worker
--     `runWorker`, `drainProcess`, `dispatch`; in Publish `Publish`, `enqueue`, `Request`.
-- `Migrate` is pkg/migrate. The gate takes an advisory lock, brings the bookkeeping up to date,
-- discovers the migrations, and applies those that the database does not record.
--   * Migrate/Run: results and errors, and runs that thread the database;
--   * Migrate/Discover: `DiscoverFS`;
--   * Migrate/Database: the configuration, `Postgres`, `Source`, `isMissingObject`, and the record
--     `Database` that stands for pgx and Postgres;
--   * Migrate/Gate: `ensureMeta`, `appliedVersions`, `applyUp`, `applyDown`, `runLeader`,
--     `attemptGate`; Migrate/Commands: `RunStartupGate`, `Status`, `Down`.
-- `Runtime` is pkg/runtime: hooks, units, `RunWithShutdownTimeout`, `startUnits`, `shutdown`.
-- `Security` is pkg/http/openapi/internal/security: `Guard`, `ResolveAuthStatus`, `ValidateRoute`.
-- `Errors` is pkg/errors: errors as trees, `Is`, `IsKind`, `Wrap`, `Map`, `Or`, `MapOr`, `Pair`.
--   * Errors/Catalog: `NewCatalog`, `Define`, `Lookup`, `Entries`, `Contains` over a store of entries.
-- `OpenApi` is pkg/http/openapi. The registration of a route compiles it, checks its security and
-- hands both to the guard and the adapter; the document of all routes is validated.
--   * OpenApi/Reflect, OpenApi/Compile: internal/compile/compile.go, `Build` and its checks;
--   * OpenApi/Policy: security.go and security_wire.go, which security a route has and what its
--     registration checks; OpenApi/Schemes: the extractors of credentials;
--   * OpenApi/Adapter: internal/adapter/adapter.go, which response a request gets;
--   * OpenApi/Spec: the objects of a document, spec/*.go;
--   * OpenApi/Validate: internal/validate. `ValidateDocument` is in Document; it goes through the
--     paths (Operations, Parameters, PathParams, Templates, Bodies, Media), schemas (Schema, Keywords),
--     components (Components, Objects), servers and information (Servers), and tags (Tags). Report is
--     validation.go, which says which problems are errors; Pointer has JSON pointers.
--   * OpenApi/Builder: `ensurePathParameters` and `SetOperation` of internal/builder.
-- `Prelude` has what the parts share: lists, texts, and maps with texts as keys.
--
-- A struct is a record and an enumeration a data type. A Go string is the list of its bytes. A
-- counter of w bits wraps at 2 ^ w. Pointers to subscriptions, entries and waiters are addresses in
-- a heap. The registry's operations run one at a time, as its locks make them; where the bus reads
-- shared state twice or waits, what others do meanwhile is an argument. An error of a library is a
-- parameter, and an error that the code formats is a constructor with what it formats.
--
-- Bounds and fuel: a uint64 has at most twenty decimal digits, for which the printing of an inbox
-- has fuel twenty. `Request` makes four rounds, as the source does. `register` needs no fuel,
-- since an entry found in the index of a consistent registry is alive. The protocol of a waiter
-- takes it out again only below the generation 2 ^ 62, so that the word of generation and state
-- does not wrap. The loop of the startup gate takes the list of its waits. The loop over the
-- parents of a tag has fuel for every tag and one round more, and the traversal of schemas a depth
-- above all addresses of schemas. All other loops go over lists.
--
-- Not modelled: the handlers' own code, contexts beyond their handle and their expiry, the order
-- in which Go walks a map, pools that drop what they hold, deliveries that blocked publishers add
-- to a mailbox while its worker drains it, the text of error messages, the packages pkg/env and
-- pkg/logger, and of pkg/http the server, the binder, the generation of documents and the writing
-- of JSON. Of the validation the references of a document are a parameter, since their check walks
-- it by reflection, as are fiber's requests, `url.Parse` and the tests of `reflect`. Texts of a
-- document are changed in case and trimmed as texts of ASCII. The guard and the adapter read
-- errors only through `AsErrors` and `Is`. In `Errors` an entry, a cause and a mapper that would
-- be nil have no counterpart where the text above them says so, and the target of `Is` is a
-- catalog entry. In `Migrate` a negative version, step count or poll interval has no counterpart,
-- and white space is that of ASCII; so are the names of security schemes.
mod Prelude
pub mod Bus
pub mod Migrate
pub mod Runtime
pub mod Security
pub mod Errors
pub mod OpenApi
