-- ===== src/Lib.antt =====
-- scim-bridge: the core of the bridge between an identity provider's SCIM client, a native SCIM app
-- and WorkOS (workers/shared), and the listener for WorkOS' Directory Sync events (workers/native).
--
-- The bridge keeps, in one database, the directories it serves, a table of id mappings (which native
-- id a WorkOS id belongs to), a ledger of the resources whose writes reached WorkOS but not the native
-- app, and claims that keep creates and reconcile runs single-flight. Every write to WorkOS goes
-- through the mirror, which reads and writes the mappings, takes a create claim for its recovery, and
-- calls the SCIM HTTP client. Requests and responses have their ids translated by maps that are loaded
-- from the mappings, and whether two directories address one native app is decided by a canonical key
-- of their URLs.
--
-- After the cutover a directory's changes reach the native app as Directory Sync events. The listener
-- takes them from a webhook or from the poller of the Events API, asks the bridge whether to apply them,
-- orders them by a ledger of times per scope, resolves the identity of their resource by event links,
-- mappings and WorkOS itself, changes the native tables, and logs what it did.
--
-- Which file models which part:
--   Types       the rows and unions of workers/shared/types.ts.
--   Mappings    id_mappings in workers/shared/db.ts: getMapping, getMappingByWorkosId, upsertMapping,
--               upsertMappings, deleteMapping. A table is the list of its rows in insertion order.
--   Divergence  native_write_failures in workers/shared/db.ts: recordNativeWriteFailure,
--               clearNativeWriteFailure, clearReplayedDivergenceForResource,
--               clearReplayedDivergences, markDivergencesForSweep, countNativeWriteFailures.
--   Claims      claimWorkosPrimaryCreate, releaseWorkosPrimaryCreate, claimReconcileRun and
--               releaseReconcileRun of workers/shared/db.ts. Times are seconds, the resolution of the
--               stored texts.
--   EventLinks  dsync_event_links in workers/shared/event-links.ts: getEventLink,
--               getEventLinkByNativeId, bindEventLink, under the unique constraints of
--               migrations/0015_dsync_event_links.sql.
--   Json        JSON values, isRecord and parseJson; Json/Strip: stripNulls; Json/Translate:
--               translateResourceIds and translateListResponse (workers/shared/scim.ts).
--   Scim        Scim/Path: authorizationToken, parseScimPath and the header allowlists; Scim/IdMaps:
--               loadIdMaps, CheckedIdMap and makeTranslator, with Scim/IdMaps/Translation on the
--               translations by them; Scim/Namespace: nativeNamespaceKey,
--               tokenPartitionSplits, sharesNativeNamespace, nativeNamespaceIsShared; Scim/Http:
--               scimFetch, joinScimUrl, scimErrorDetail (workers/shared/scim.ts).
--   Namespace   findNativeNamespaceConflict and checkNativeNamespace of
--               workers/shared/native-namespace.ts.
--   Mirror      mirrorUpsert, recoverMappedResource, createViaPost, resolveCreateRace and their
--               helpers (workers/shared/scim.ts), as functions on a store: the mappings, the create
--               claims, the queue of a batching caller, the elapsed milliseconds and the outside world.
--               Mirror/Effects is the monad, Mirror/Create and Mirror/Upsert the code, Mirror/Outcome
--               and Mirror/Guarantees its theorems. An exception is a value of the result; the part of
--               mirrorUpsert behind its try block is the constructor `creates` of Exit.
--   Native      the class ScimStore of workers/native/store.ts on the native tables. A statement that
--               violates the unique user name has no result. Native/Stable says what a
--               property of the tables must stand for the handlers to keep it, Native/Members what
--               the statements leave of the memberships.
--   Listener    workers/native/listener.ts and workers/shared/event-mapping.ts. Bridge is the database
--               with the world outside: the rows that handlers only read (Rows), the mappings and
--               event links that resolving an event may extend (Ids), the native tables and the log. A
--               Handler is code that changes the native tables, the Ids and the world and reads the
--               rows. Listener/Reading: asString, asObject, primaryEmail, userNameFromEvent,
--               groupKeyFromEvent, eventName; Listener/Resources: userResourceFromEvent,
--               groupResourceFromEvent, emailsFromEvent; Listener/Mapping: matchesEventIdentity,
--               idForNewEventResource and the candidates of nativeIdForEvent; Listener/Verify:
--               verifiedWorkosEventMapping; Listener/Config: getConfig, and clientTokenFor of
--               workers/shared/client-tokens.ts; Listener/Answer and Listener/Learn:
--               fetchEventNativeId, and Listener/Status: fetchDirectoryStatus, both of
--               workers/native/status-client.ts; Listener/Resolve: nativeIdForEvent,
--               resolveNativeEventId, findUser, findGroup; Listener/Versions: isNewestEvent,
--               isNewestAcross, recordEventVersion; Listener/Scopes: scopeFor, eventScopes;
--               Listener/Handlers: the events of users and groups; Listener/Memberships:
--               changeMembership, one function for each of its two operations; Listener/Instruction:
--               dsyncInstructionForEvent; Listener/Apply: applyEvent; Listener/Log: isDuplicate,
--               recordEvent; Listener/Process: processDsyncEvent, dispatch; Listener/Webhook:
--               handleDsyncWebhook, verifySignature; Listener/Signature: the pattern of its header.
--               Times of events are texts, in the order of Base/TextOrder.
--   Poller      workers/native/events-poller.ts: Poller has the cursor, the retry state and what follows
--               one event; Poller/Pages the loops over a page and over pages.
--   Base        Boolean tests with an equality interface, lists, keyed tables, results that throw,
--               code that passes a state and throws, and the string methods of JavaScript.
--   Examples    runs on small tables, against a small WorkOS and a small bridge.
--
-- Only poll_pages runs on fuel, one unit for each request: the Events API decides how many pages there
-- are, so no bound on them is the program's. It answers `none` where the requests are used up. Every other
-- loop of the source is over a finite list or text.
--
-- Parameters, because their code is not the repository's: the network, JSON.parse, JSON.stringify,
-- encodeURIComponent, decodeURIComponent, the URL class, Headers.get and crypto.randomUUID. They are
-- fields of Upstream over an arbitrary type of states of the outside world, or arguments. So are, in
-- Outside, the clock, SQL's lower, the length and slice of texts, the text of a number and of any value,
-- the text of URL parameters, the error on a body that is no JSON and the HMAC, and, as an interface, the read of a directory's status, whose code is Listener/Status on a state of its own
-- (the cache and the back-off); and the client tokens that the process remembers from its start.
--
-- Not modelled: failures and retries of the datastore (withDatastoreRetry), so a statement of the
-- database here fails only where it violates a constraint; the writing and encryption of directory rows
-- and of configuration but for the rows of the listener and poller; time columns, and the listings that
-- order and page rows by them; translatePatchIds; the wording of the namespace refusals and the notices
-- on duplicates; verifyDsyncEventIdentity; the interval timer of the poller; the proxy's modes, the
-- backfill, the native app's SCIM server, the simulator of an identity provider, the server, the control
-- panel, and the deployment.
pub mod Base
pub mod Types
pub mod Mappings
pub mod Divergence
pub mod Claims
pub mod Json
pub mod Scim
pub mod Namespace
pub mod Mirror
pub mod Poller
pub mod EventLinks
pub mod Native
pub mod Listener
pub mod Examples
