-- ===== src/Lib.antt =====
-- Verification library of the swim-flow API, a NestJS service in TypeScript over PostgreSQL
-- (through the Prisma client) for a swimming school: accounts and sessions, classes, attendance,
-- results, and the private images of students, teachers, parents and profiles.
--
-- The parts that are modelled, and how they interact. A request of the public authentication
-- routes passes PublicAuthRateLimitGuard; ApiAuthService then signs in, refreshes, logs out or
-- resets a password, and keeps the sessions through PrismaAuthSessionsRepository.
-- LocalAuthActionTokensService issues and redeems the one-time links of invitations and password
-- resets, and a redemption revokes the sessions of its user. RolesGuard and PermissionsGuard admit
-- the requests of the other routes. PrismaPrivateMediaObjectsRepository keeps the rows of the
-- uploaded images, their lifecycle and the active image of each resource.
-- ReconcileClaimedPrivateBlobImageUseCase and CleanupPrivateMediaUploadsUseCase remove the bytes
-- of images that were claimed, rejected or never confirmed, and record it there.
-- PrismaStudentsRepository and PrismaClassesRepository write students, guardians and the links of
-- students and teachers to classes, SaveAttendanceBatchUseCase the attendance of a class. The
-- policies are pure rules that these call before they write, and ResultRankingPolicy ranks
-- competition results. MemoryCacheRepository keeps the answers of list queries.
--
-- Files and the code they model:
-- - Prelude and Prelude/*: shared names and lemmas: Boolean tests on the native numbers, lists and
--   predicates on them, keyed rows, JavaScript's Map as a list of entries, text as code points,
--   the lower-case form in which PostgreSQL keeps a UUID (uuid_of), calls that return or throw and
--   their sequence (then_run).
-- - Database, Database/Reference, Database/Conflicts: the Prisma client as an interface. `Table`
--   has the calls that the repositories make (findFirst and findUnique as find_first, create,
--   updateMany as update_many, updateMany on a key as update_keys, update, deleteMany) with the
--   documented behaviour of each as a law; `Listing` has findMany as far as its predicate and its
--   number of rows go, and leaves open which of the rows its order selects; and `Transactions` the
--   rollback of an interactive transaction that throws. list_table and plain_transactions meet the
--   laws, and the tests run with them.
-- - Auth/Store: the rows of prisma/schema.prisma for accounts, sessions and one-time tokens.
-- - Auth/Sessions: src/infra/database/prisma/repositories/prisma-auth-sessions-repository.ts. One
--   function per method (create, rotate_refresh_session, find_active_by_id,
--   find_by_refresh_token_hash, find_active_by_refresh_token_hash, revoke, revoke_all_for_user).
--   Sessions/Spent, Rotation, SingleUse and Trace hold what the methods do to revoked sessions,
--   and every history of them.
-- - Auth/Api: src/infra/auth/api-auth.service.ts (login, login_with_access_token, refresh, logout,
--   confirm_password_reset); the directory, the token hash and the JWT are parameters, and each
--   reading of the clock is an argument of its own. Api/Revocation and Api/Refresh hold the
--   proofs.
-- - Auth/ActionTokens: src/infra/auth/local-auth-action-tokens.service.ts and the password check
--   of local-password-identity.service.ts.
-- - Auth/RateLimit: src/infra/auth/public-auth-rate-limit.guard.ts.
-- - Auth/Permissions: src/infra/auth/role-permissions.ts, permissions.guard.ts and roles.guard.ts.
-- - Media/Store, Media/Keys and Media/Statements: the tables of prisma/migrations for private
--   media, with the CHECKs of an object, unique indexes and foreign key, and the statements that
--   those refuse. Media/Objects and Media/Bindings: src/infra/database/prisma/repositories/prisma-
--   private-media-objects-repository.ts. Media/Changes is the abstract lifecycle that Media/Trace
--   shows the repository to follow; Media/Columns states by the columns which objects a transition
--   concerns; Cleanup, Decided, Exact, Reclaim, Slots and Commit hold the results, Ids the form of
--   ids.
-- - Policies/ClassTeacher: src/domain/classes/application/services/class-teacher-policy.ts, and
--   updateTeacherRole and removeTeacher of src/infra/database/prisma/repositories/prisma-classes-
--   repository.ts on the teachers of one class. Policies/HeadCoach and Policies/Removal hold the
--   results.
-- - Students/Store, Students/Repository: create and update of
--   src/infra/database/prisma/repositories/prisma-students-repository.ts, with
--   assertLegacyPhotoWriteAllowed of legacy-photo-write-guard.ts beside it, over the tables of
--   students, guardians, season categories, class links and the active images. An upsert changes
--   the row of its key or creates it. Students/Links, Guardians, Steps, Update and Locked hold the
--   results.
-- - Classes/Teachers and Classes/Enrolments: addTeacher, transferTeacher and transferStudent of
--   src/infra/database/prisma/repositories/prisma-classes-repository.ts. Classes/Coaches, Moves
--   and Secondary hold the results.
-- - Uploads/Storage: the port of the object storage, whose state includes what the network will
--   do. Uploads/Reconcile: src/domain/uploads/application/use-cases/reconcile-claimed-private-
--   blob-image.ts on the media repository and that port. Uploads/Absence, Completion and Answering
--   hold the results. Uploads/Cleanup: cleanup-private-media-uploads.ts beside it, with
--   listCleanupCandidates and private-media-settlement-policy.ts; Progress and Accounting hold the
--   result.
-- - Cache/Memory: src/infra/cache/memory/memory-cache-repository.ts; Cache/Latest holds histories
--   of its calls and what they leave to be read.
-- - Results/Ranking: src/domain/results/application/services/result-ranking-policy.ts; Order, Best
--   and Ranks hold the lemmas on the sort, on the first result of each key and on the ranks.
-- - Attendance/Repository: getBatchContext and saveBatch of
--   src/infra/database/prisma/repositories/prisma-attendance-repository.ts and the use case save-
--   attendance-batch.ts; Attendance/Batch holds the result.
-- - Policies/StudentClass: src/domain/students/application/services/student-class-assignment-
--   policy.ts.
-- - Policies/Attendance: src/domain/attendance/application/services/attendance-batch-policy.ts,
--   with Policies/Sets for JavaScript's Set, and Policies/BatchValidity and BatchKeys for the
--   result. The errors carry ids in place of the message.
--
-- Conventions. A method that changes rows takes the tables and returns the new ones with an
-- Outcome: ok or the error that the code throws. Times are milliseconds since the epoch as natural
-- numbers. A call of a repository is one step; concurrent calls are the histories of such steps,
-- in any order. The media methods that test an id against the pattern of a UUID compare it in
-- lower case, as PostgreSQL does; the other ids are arguments in the form in which their column
-- keeps them. Dates that `new Date` reads from a text are an argument of the model (read_date,
-- day). Definitions are by structural recursion, so no fuel is needed.
--
-- Not modelled: controllers, presenters, pipes and modules (glue over the use cases); the object
-- storage, mail and Supabase adapters (network calls of third-party clients); the environment's
-- schema; the blob broker, a separate deployment in JavaScript; scripts and specs. The column of
-- an uploader's profile and the CHECK on it (private_media_uploader_snapshot_chk) are left out.
-- Row locks (SELECT ... FOR UPDATE) order concurrent transactions and have no effect on a single
-- one. The cascades of a deleted profile are not steps, and of the foreign keys only those of the
-- private images are part of the model.
pub mod Prelude
pub mod Database
pub mod Auth
pub mod Media
pub mod Policies
pub mod Classes
pub mod Students
pub mod Uploads
pub mod Results
pub mod Attendance
pub mod Cache
