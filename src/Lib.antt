-- ===== src/Lib.antt =====
-- A verification of vcv-rack-mcp, an MCP server that inspects and edits a running VCV Rack. The
-- server speaks to a client over stdio and to a bridge plugin inside Rack over a local socket. A
-- tool call goes through the connection manager to an authenticated bridge session; an edit is
-- previewed by the plugin, cached and confirmed in the transaction manager, and committed under a
-- writer lease and a rate limit.
--
-- The parts and their files:
--
-- - packages/protocol/src/framing.ts is Framing: `encodeFrame` is encode_frame, and the class
--   FrameDecoder is the record of that name with push and next. Framing.Stream and Framing.Bounds
--   hold the proofs.
-- - packages/protocol/src/client.ts is Client: the fields of BridgeClient are a record, and each
--   handler returns the client afterwards with the list of its effects (frames written, promises
--   settled, hooks fired). Client.Handshake has the hello and authentication exchanges,
--   Client.Events the event loop's steps.
-- - packages/schemas/src/errors.ts and apps/mcp-server/src/errors.ts are Errors: the codes, what
--   is thrown, and `toErrorPayload`. Result is a value or what is thrown.
-- - packages/schemas/src/operations.ts and refs.ts are Operations.
-- - packages/recipes/src/index.ts is Recipes: `resolveRecipe` and `expandRecipeOperations`.
-- - packages/adapters/src/index.ts is Adapters: the index of the adapter documents and the
--   lookups.
-- - apps/mcp-server/src/connection.ts is Connection: the fields of ConnectionManager are a
--   record, and each operation takes what its surroundings answer. A request takes an Exchange:
--   what a connect finds, the steps (Operation) that other calls and the client's hooks take
--   while it waits, and the reply. The renewal and the acquisition of the lease go on only after
--   those steps.
-- - apps/mcp-server/src/ratelimit.ts is RateLimiter.
-- - apps/mcp-server/src/transactions.ts is Transactions: the manager's maps are association
--   lists; Transactions.Preview, Transactions.Commit and Transactions.LoadTokens have its
--   operations, the other modules there the proofs.
-- - apps/mcp-server/src/paths.ts is Paths: Paths.Canonical has `canonicalAllowingMissing`,
--   Paths.Policy `within` and `resolvePatchPath`, Paths.Checkpoints the names of checkpoints and
--   their reservation.
-- - apps/mcp-server/src/patchfiles.ts is PatchFiles: checkpoints and previews; PatchFiles.Replace
--   is `commitLoadOrClear`, through which `commitLoadPatch` and `commitClearPatch` go with their
--   kind, and PatchFiles.Restore is `restoreCheckpoint`. The requests sent are a list with the
--   last one first.
-- - apps/mcp-server/src/resources.ts is Catalog, for the scan of the installed models.
-- - apps/mcp-server/src/tools.ts is Tools: Tools.Build is `previewAndMaybeCommit`, `buildPatch`
--   and `buildRecipe`, over Transactions, Recipes and Catalog.
-- - apps/mcp-server/src/analysis.ts is Analysis: the map of the cables into each module and the
--   search over it; Analysis.Structure, Analysis.Advice and Analysis.Validation are
--   `validatePatch`, whose findings are those of packages/schemas/src/validation.ts without
--   evidence and texts, and which has the modules in feedback cycles as an argument.
-- - apps/mcp-server/src/audit.ts is Audit: the two files of the log are lists of lines in its
--   state.
-- - apps/mcp-server/src/telemetry.ts is Telemetry, with Telemetry.Attach and Telemetry.Detach for
--   the handlers that change the patch.
-- - Prelude has the names that all share: maps by text keys, lists over the native numbers and
--   the Boolean tests.
--
-- How the code is modelled. A method takes the state and returns it afterwards, together with its
-- result, also where it throws. Readings of the clock, random ids, the bridge's replies and the
-- outcome of a connection are arguments, and a method that reads the clock more than once has an
-- argument for each reading. A promise of the bridge client is a number. Within one tool call no
-- other call interleaves, but in Connection; the bridge client's handlers are the steps of a run
-- in any order. A JSON value that is only handed on is a text. An error has no message text where
-- it is thrown, and no free-form details; the handlers that bound a message take it as an
-- argument.
--
-- What is outside is a parameter: the UTF-8 coder (Utf8), the HMAC with the JSON and base64url
-- coders of the transaction tokens (Signer), the JSON coder of bridge frames (Wire), JSON's
-- numbers with their comparisons (Numbers), and Node's file system and path functions
-- (FileSystem, which says of them that the parent of a path that is not a root is nearer to the
-- root). Their records state what is relied on: a well-formed text survives its coding, a token's
-- body has no dot and survives its JSON, and a body that is no JSON does not decode.
--
-- Bounds and fuel. The decoder's loop has as fuel one more than the number of bytes buffered,
-- which is enough since each frame takes at least its four bytes of header; the theorems on
-- streams show that nothing is left. The way up from a path has as fuel one more than its depth,
-- and links are followed at most 32 times, as in the code. The search over the cables has as fuel
-- the number of starts and of cables, since each is taken from the stack at most once. Theorems
-- show that both end. The limits are those of packages/schemas/src/limits.ts, or arguments.
--
-- What is assumed of the outside besides: the scan of the catalog gets the same reply whenever it
-- asks with the same cursor; an append to the audit log that fails has written nothing.
--
-- Not modelled: the socket and the timers themselves, discovery of instances, the reading of the
-- audit log, the cable paths and feedback cycles of patch analysis, the listing of patch files,
-- the bodies of previews, resources and prompts but for the scan, the wiring of tools to the MCP
-- library, the schema declarations that a validation library interprets, and the plugin inside
-- Rack.
pub mod Prelude
pub mod Errors
pub mod Operations
pub mod RateLimiter
pub mod Framing
pub mod Client
pub mod Adapters
pub mod Recipes
pub mod Connection
pub mod Transactions
pub mod Telemetry
pub mod Paths
pub mod PatchFiles
pub mod Catalog
pub mod Tools
pub mod Analysis
pub mod Audit
