-- ===== src/Lib.antt =====
-- RedMan backs up directories, photos and remote storage from one host, shows what it did, and
-- talks to peers that do the same. Its backend is a Node program: routes receive requests,
-- services hold the state, and a scheduler starts the jobs of each feature.
--
-- The development models the services that decide what happens to data:
--
-- Common: what the models share. Common.Tests has Boolean tests and equality as an interface,
-- Common.Lists and Common.Updates lists measured by native numbers and updates of rows,
-- Common.Text the characters of texts, Common.Results code that throws, Common.Dict JavaScript's
-- Map and Set as lists of pairs with the laws of their operations.
--
-- Scheduler: app/backend/src/services/scheduler.js and the field count of schedulePolicy.js.
-- Scheduler.Retry is executeWithRetry as a loop over the outcomes of the calls. Scheduler.Jobs is
-- the job table as a record with the maps of the module (activeJobs, executors, runningJobs,
-- skipCounts) and the runs in flight; the cron callback is cut at its awaits into tick, settle and
-- wake, and Scheduler.Jobs.Reach gives the steps that interleave them.
--
-- Versions: app/backend/src/services/deltaVersion.js and versionBrowser.js. Versions.Store is a
-- backup destination: the current files, and for each snapshot its manifest, its full files and
-- its deltas. Versions.Reconstruct is reconstructFile, Versions.Rebase rebaseDeltasWithTimestamp,
-- Versions.Deltaify deltaifySnapshot, Versions.Prune promoteDeltaToFull, promoteDependent and the
-- deleting loop of pruneVersions, Versions.Retention its tiers. Versions.Reconstruct.Denotes says
-- without a walk what a file of a snapshot stands for and is what the operations are compared
-- with. Versions.BackupRun is the stage of rsync.js that calls rebase and then deltaify behind a
-- run, and pruneVersions runs under the same lock.
--
-- Runs: app/backend/src/services/runClaim.js and runLifecycle.js. Runs has the table backup_runs
-- as a list of rows with the next id, and each SQL statement or transaction of the code as one
-- function; Runs.Interleaving has the steps that features take on it in any order, Runs.Pages the
-- pages of a list of runs. The executors are parameters: what they write in the end is finish_run.
-- Imports of media insert their runs without a claim, and are steps of their own.
--
-- Auth: app/backend/src/services/routePermissions.js and authService.js. Auth.Permissions has the
-- table of routes, with each regular expression as the pieces of a path, and the answer to a
-- request. Auth.Store has the tables of accounts as a record, and what reads and changes their
-- rows; Auth.Accounts, Auth.Login, Auth.Sessions and Auth.Recovery have the operations on them. A
-- login, a recovery and a change of a password await argon2 and are cut there: what was read
-- before is an argument of the second part. Auth.Steps has all operations as steps that may come
-- in any order. Hashes, normal forms of texts and the check of a password are fields of
-- Auth.Store.Host.
--
-- Addresses: app/backend/src/middleware/auth.js with safeIp of app/backend/src/utils/logRedact.js.
-- Addresses reads addresses to their bytes, compares them with the networks of trusted proxies and
-- finds the address of a client behind them; Addresses.Prefix and Addresses.Networks have what the
-- comparison of bytes means, Addresses.Forwarded what a client can forge. Texts are lists of
-- character codes, and parseInt is a parameter.
--
-- Pairing: app/backend/src/services/pairing.js with pairingIngress.js, pairingState.js,
-- peerBinding.js, peerAccessPolicy.js and the files of authorized keys in sshManager.js beside it.
-- Pairing.Store has the tables of requests and peers and the two files as a record,
-- Pairing.Requests the requests that arrive, are sent, declined and run out, Pairing.Peers and
-- Pairing.Keys the writing of a peer and its SSH key, Pairing.Accept and Pairing.Callback the two
-- sides of an acceptance. acceptPairing is cut at its awaits into begin_acceptance,
-- authorize_acceptance and end_acceptance, initiatePairing into begin_pairing and end_pairing, and
-- Pairing.Steps has all calls as steps at times that do not go back. What each step does to the
-- rows of requests is one of a few changes (Pairing.Changes, Pairing.Answers, Pairing.Evolution).
--
-- Telemetry: app/backend/src/services/databaseRetention.js. Telemetry has the tables and which of
-- their rows are old, Telemetry.Prune each statement of a batch, Telemetry.Loop the loop over
-- batches. Which rows a LIMIT takes is not said by SQL; the model takes the first. Times that were
-- written by toISOString are compared as the texts they are. The database stands still while the
-- loop pauses.
--
-- Quota: app/backend/src/services/quotaUsage.js. Quota has the sizes that are known and the scans
-- under way as a record, with a scan cut at its end; Quota.Remembered has the history of what
-- happened to it, which is the abstract view.
--
-- External: app/backend/src/services/externalJobs.js and ntfyRelay.js. External has the tables of
-- jobs and runs and the changes of jobs, External.Heartbeats the reports and the deletion of old
-- ones, External.Reports the health of a job, External.Relay the lines of the broker and the loop
-- of a poll over its messages; a slug comes in its normal form. SHA-256, HMAC, the reading of
-- numbers and the next time of a schedule are parameters; External.Changes has what may come
-- between two deliveries of one message.
--
-- Health: app/backend/src/services/destinationHealth.js. Health has the module's variables as a
-- record, with the refreshes on their way, and cuts a refresh at its await; Health.Current has the
-- steps in any order.
--
-- Contents and deltas are types of the section, and rdiff is a parameter that may fail; where a
-- theorem relies on it, the hypothesis is that patching with a delta of two files gives back the
-- second. A snapshot's name is the number of seconds it stands for.
--
-- A delta lies beside its file under a name that a file may have itself. Versions.Deltaify, which
-- writes and removes these names, has what is lost then; its theorems ask for a snapshot with no
-- such pair, and the other modules of Versions stand for such snapshots. What a run of rsync
-- deletes is not among the changed files that the rebase gets: the theorems on the rebase leave
-- the deleted files out.
--
-- The walk over a chain of deltas runs on fuel, one more than there are snapshots. That is enough
-- where deltas rest on later snapshots, since each step then leaves fewer later ones
-- (Versions.Reconstruct.Ends). The retry loop has its own bound in the code. All other loops are
-- recursions over lists.
--
-- Not modelled: the frontend, the database schema and its migrations, and the routes; the
-- processes that are started (rsync, rclone, rdiff, immich-go, docker); temporary files,
-- statistics and log lines; the bearer tokens and cookies in front of the routes; media import,
-- discovery, the routes that edit peers and the requests that peers send, and the timer and the
-- requests of the relay.
pub mod Addresses
pub mod Auth
pub mod External
pub mod Common
pub mod Health
pub mod Pairing
pub mod Quota
pub mod Runs
pub mod Scheduler
pub mod Telemetry
pub mod Versions
