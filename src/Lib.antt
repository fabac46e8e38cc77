-- ===== src/Lib.antt =====
-- graphql-prisma-postgres boilerplate: the verification library.
--
-- The program is a GraphQL API over several Postgres shards. A control-plane table,
-- `GlobalEmailReservation`, is the directory of email addresses: it says which user, workspace and
-- shard an address belongs to, since no database constraint spans the shards. User management writes
-- the directory and a shard in turn, with no transaction around both; the operations that repair what
-- an interrupted request leaves behind read the directory again. Guards and policies decide who may
-- call what.
--
-- Files and the code they model (paths from the repository's root):
-- - Prelude: lists, tables as association lists, texts as code units.
-- - Data: the rows, prisma/schema/*.prisma and src/modules/auth/types/db.types.ts.
-- - Effects: src/errors/index.ts (Errors), the state and the environment (State), asynchronous
--   functions as functions from an environment and a state to a result and a state (Monad).
-- - Identity: src/identity/email-reservation.service.ts (Reservation, Release) and
--   src/identity/resolve-user-by-email.ts (Resolve). Coverage and its children are the proofs of the
--   invariant, Batch those on reconcileAllReleasePending, Resolve/* those on resolveUserByEmail.
-- - Access: src/authorization (Permissions), src/guards/index.ts (Guards),
--   src/modules/user-management/policies (Grants).
-- - Users: src/modules/user-management/services/user-management.service.ts (Input, Members, Changes);
--   Creation, Deletion, Requests, History and Marker are proofs.
-- - Workspaces: src/modules/workspace/services/workspace.service.ts; Ownership and Takeover are proofs
--   on transferOwnership. Roles: src/modules/role. Sessions:
--   src/cache/refreshToken.cache.ts. Users/Profile: src/modules/user/services/user.service.ts.
-- - Auth: src/config/tokens.ts (Tokens), src/modules/auth/services/auth.service.ts (Login, Challenge,
--   Recovery, Signup, Google), src/modules/auth/services/mfa.service.ts (Enrollment) and
--   src/middleware/auth.middleware.ts with src/cache/user.cache.ts (Session). Coverage and Requests are
--   the proofs that these keep the directory's invariant.
-- - Workspaces/Slug: src/utils/slug.util.ts. Query: src/utils/query.util.ts.
-- - Storage, in services/storage/src: services/share-link.service.ts with the guards of
--   routes/share.routes.ts (ShareLinks, and Shared below it for a file of a shared folder),
--   utils/file-content-access.ts (Content), utils/path.util.ts (Paths), services/folder.service.ts
--   (Folders), services/file.service.ts (Files), services/upload.service.ts (Uploads) and
--   middleware/auth.middleware.ts with the content route of routes/file.routes.ts (Middleware).
--   Folders/Tree and its children are the proofs that the folders are a tree, Files/Lifecycle and
--   its children those on the status of a file, Middleware/Entitled and Middleware/Served those on
--   the content route, ShareLinks/Views and ShareLinks/Granted those on the limit of views.
--   Folders/Relocation has renameFolder and moveFolder, Uploads/Settling what ends an upload.
--   Reading and Rows have the lemmas for what an operation reads before it writes, and for tables
--   by their rows.
-- - Examples and Tests: concrete databases, and runs on them.
--
-- The state `World` has the control plane's rows by email, the users, workspaces and roles of all
-- shards, each row with its shard, the cache, the refresh tokens, a clock and a counter of calls.
-- Every call of a database picks its `Fate` from the environment by that counter: it is done, it is
-- refused with nothing written, or it is done and its answer is lost. A statement or a transaction
-- of Prisma is one step on the tables, with the unique keys and foreign keys that prisma/schema
-- declares, and the index on the owners of workspaces that prisma/migrations adds. The sharding
-- package, Redis, bcrypt, crypto.randomUUID and String.prototype.toLowerCase are fields of the
-- environment, and so are jsonwebtoken, authlite and the rest of crypto (AuthLibrary); a theorem
-- that needs one of their laws names it as a hypothesis. A request is one function; requests follow
-- one another, so what two requests do to each other between two calls is not modelled.
--
-- `resolveUserByEmail` calls itself; the model has fuel 2 for it. The digits of a number in base 36 are
-- computed on the number itself as fuel: a number has fewer digits than its value plus one. Texts that
-- are only compared are numbers, 0 being the empty text. Log lines and messages of errors are left out.
--
-- The storage service has a database of its own, `Store`, with calls that end as above. The
-- provider of the objects is a field of its environment and answers, or throws, by the number of
-- calls made so far. A folder's owner, parent and path are columns of its row; the folders are a
-- tree when the path of each is that of the folder it is in, a slash and its name, with the same
-- owner. `startsWith` of a query is the pattern of SQL's LIKE, so a rename or a move also finds
-- folders that are like the path: an underscore is any character. The theorems on these two exclude
-- such folders. `path.extname`, `path.basename`, `uuidv4` and `cuid` are operations of the
-- environment, and `jwt.verify` is an argument of the middleware.
--
-- Not modelled: the queries of listings, the providers of the storage service, and everything that
-- only starts, configures or forwards.
pub mod Access
pub mod Auth
pub mod Data
pub mod Effects
pub mod Examples
pub mod Identity
pub mod Prelude
pub mod Query
pub mod Roles
pub mod Sessions
pub mod Storage
pub mod Tests
pub mod Users
pub mod Workspaces
