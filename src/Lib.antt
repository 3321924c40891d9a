-- ===== src/Lib.antt =====
-- Verification library of the collaborative editor.
--
-- The program is a server (api/) and a web client (web/). A document is a Yjs document. The client's
-- provider collects the edits and sends them, over a websocket or over HTTP. The gateway checks each
-- message of a socket, puts its update into the batch of the document, and hands a batch to the
-- document service when its timer fires. The service applies the update to the stored content, under a
-- lock, and appends it to a log from which a job can rebuild the content. Guards decide who may do so,
-- behind a middleware that limits requests. Users sign in with a password, and guests come with the
-- token of a link; comments are kept beside the document.
--
-- The files, and what they model:
-- Base: the shared helpers; lists, maps, sets and results, and the tests on numbers and texts.
-- Redis, Platform: what the program uses from outside, as interfaces. Redis has keys with an expiry,
--   sets, lists and counters; Platform has Yjs with the encodings of updates, and the collections of the
--   database. Their laws are the documented behaviour of these. Memory beside each gives values in
--   memory that meet the laws, on which the tests run.
-- Auth: api/src/auth/auth.service.ts, and (Login) the routes of api/src/auth/auth.controller.ts that
--   sign in and out, end sessions and set passwords, with api/src/common/captcha.ts.
-- Sharing: api/src/sharing/sharing.controller.ts, with api/src/auth/auth.guard.ts, which admits its
--   guests.
-- Limits: api/src/common/rate-limit.middleware.ts with api/src/common/profanity.ts; a check (Checks) is
--   a step that answers or lets the next one run.
-- Comments: api/src/comments/comments.controller.ts: the data, the changes of a comment (Changes), new
--   comments and replies with whom they notify (Threads), and the scores of a text (Score).
-- Access: api/src/documents/document.guard.ts, api/src/workspaces/workspace.guard.ts, `hasDocAccess`
--   of the gateway and `canAccessDoc` of api/src/comments/comments.controller.ts. The queries are the
--   fields of `Directory`; an answer is the entries of the audit log and a result.
-- Cache: api/src/common/memory-cache.service.ts. `store` is a map in the order of insertion, and the
--   loop of `evict` recurses on `order`.
-- Lock: api/src/common/lock.service.ts, over a store of keys with an expiry.
-- Documents: `applyYUpdate` (Apply), `getYState` (Read), and `processSnapshot` of
--   api/src/jobs/document-jobs.service.ts with `validateAndRepair` (Rebuild), over the repositories.
--   Snapshots has `rollbackToSnapshot`, `diffSnapshots` and the job `processCompact`; Library has the
--   records of the documents, their lists and their permissions.
--   `applyYUpdate` is `prepare`, all that comes before the lock, and `commit`, all that comes after.
-- Gateway: `subscribeDocChannel`, `unsubscribeDocChannel` and `onLeave` (Channels), `enqueueUpdate`,
--   `flushDoc` and `pruneIdle` (Batches), `onYUpdate` with api/src/common/ws-rate.ts (Updates), and
--   `onPresence` (Presence), the queue for absent users (Offline), the claims of sections (Claims),
--   `onJoin`, `onYSync` and `handleDisconnect` (Sessions), the events between instances (Fanout)
--   and `handleConnection` (Connection), of api/src/ws/ws.gateway.ts.
-- Jobs: the in-process runner of api/src/jobs/job-queue.service.ts; the fuel is one unit for each try.
-- Provider: the queue, the backoff and the presence throttle of web/src/lib/yjsProvider.ts.
-- Keys: api/src/security/jwt-keys.service.ts.
-- Retention: `enforceRetention` of api/src/database/repositories/document-snapshot.repo.ts and
--   `snapshotRetention` of api/src/jobs/maintenance.service.ts.
-- A Laws file, or one with the name of what it shows, has the theorems of the file above it; a Tests
-- file runs them on values.
--
-- Numbers are natural numbers; the clock and what is drawn at random are arguments. An exception is a
-- value of the handler's result. An asynchronous handler runs as one step, except where a theorem is
-- about what comes between: `prepare` and `commit` are steps of their own, and so are the two halves
-- of the provider's request. The loop of a rebuild runs on fuel, one unit for each batch of 1000 rows;
-- as many units as the log has rows and one more are enough where every row can be replayed, and where
-- a full batch cannot be replayed at all the program does not end either.
--
-- Not modelled: metrics, the audit entries of the gateway and status events, which nothing reads back;
-- the steps of the broadcast after the write of a batch, the registration of instances of the gateway; manual snapshots; the listing and the analytics of comments;
-- the websocket path of the provider; workspaces, feature flags, search and the web pages. What a
-- regular expression finds is written out as a function on texts.
pub mod Base
pub mod Access
pub mod Auth
pub mod Cache
pub mod Comments
pub mod Documents
pub mod Platform
pub mod Gateway
pub mod Redis
pub mod Lock
pub mod Provider
pub mod Jobs
pub mod Keys
pub mod Limits
pub mod Retention
pub mod Sharing
