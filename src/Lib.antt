-- ===== src/Lib.antt =====
-- wa-gateway: a WhatsApp gateway with an HTTP API. Its core is modelled here: the managed API keys
-- and the gate of the HTTP API that asks them, the sessions and their manager, the bulk send jobs, the
-- groups, the stored messages with their delivery status and receipts, the chats that are archived,
-- the webhook, the access log, and the phone numbers of recipients.
--
-- Base: what the components share. Base/Tests, Base/Lists and Base/Int give Boolean tests, lists and
-- integers over the native numbers; Base/Results the result type; Base/Maps Go's maps as association
-- lists without a repeated key; Base/Text and Base/Comma what is used of Go's `strings`; Base/Paging
-- the pages of a listing.
-- WhatsApp: the interface of go.mau.fi/whatsmeow/types, which is not part of the repository, with an
-- instance in WhatsApp/Pairs.
-- Phone (internal/gateway/session.go: NormalizePhone, parseJID; internal/gateway/group.go:
-- parseGroupJID). Phone/International and Phone/Recipient hold what is proved.
-- Keys (internal/gateway/apikey.go). Keys has a key's data and `admit`, the part of Authenticate that
-- follows the lookup; Keys/Scopes splitScopes and joinScopes; Keys/Store the table, the cache, reload,
-- Get and List; Keys/Manage Create, Rotate, Update and Delete; Keys/Auth Authenticate, the manager's
-- Authenticate and AuthRequired (internal/gateway/manager.go), and flush. Keys/Window, Keys/Secrets
-- and Keys/Revoked hold what is proved, Keys/Reloaded the lemmas on reload.
-- Bulk (internal/gateway/bulk.go). Bulk/Store is bulkStore's writes, Bulk/Load its reads, Bulk/Submit
-- submit, Bulk/Template renderTemplate, Bulk/Runner the goroutine of one job, Bulk/Recover what a
-- restart does and the list of jobs. What is proved is in Bulk/Rendered, Bulk/Delay, Bulk/Counts,
-- Bulk/Completion, Bulk/Submitted, Bulk/Restarts and Bulk/Started; Bulk/Fuel and Bulk/Matched have the
-- lemmas on placeholders, Bulk/Resume those on a job that submit saved; Bulk/Rows and Bulk/Crash
-- have the lemmas on the rows that a run leaves.
-- Messages (internal/gateway/store.go, and receiptStatus of internal/gateway/webhook.go), with
-- Messages/Query for query and messageByID, and Messages/Advance and Messages/Lookup for what is
-- proved. Retention has what removes messages: purge and deleteSession.
-- Api (internal/api/server.go: auth, extractSecret, clientIP), with Api/Auth for what is proved. It
-- calls Keys/Auth; the handler that it wraps is a parameter.
-- Api/Sessions has the handlers that create and delete a session, with Api/Limit for what is proved of
-- them in a row; Api/Params reads the numbers of a query, Api/Messages has the handlers of messages,
-- media and access logs, Api/Keys those of the managed keys, Api/Sends those of sends and numbers;
-- Api/Groups (internal/api/group.go) those of groups, Api/Archived those of a group's archive.
-- Archive (internal/gateway/archive.go), with Archive/Loaded for what is proved; Archive/Filter
-- (internal/gateway/storefilter.go) with Archive/Allowed; Archive/Receipts, saveReceipts and
-- receiptsFor, with Archive/Receipts/Highest.
-- Manager (internal/gateway/manager.go): the table of the sessions and the map of the live ones.
-- Manager/Steps is how its calls interleave, Manager/Interleaved what is proved of it, and
-- Manager/Alone the calls without interleaving as runs of those steps. Remove calls Retention.
-- Sessions (internal/gateway/session.go): the state and the status; Sessions/Events what an event
-- does, through Archive/Filter, Messages, Archive/Receipts and Webhook/Queue; Sessions/Send the sends;
-- Sessions/Phones what is asked of WhatsApp; Sessions/Stored what is proved, with the lemmas of
-- Sessions/Rows.
-- Groups (internal/gateway/group.go). Groups/Status is the map of the participants' statuses,
-- Groups/Participants resolving and the replies, Groups/Paced the batches, Groups/Create CreateGroup,
-- Groups/Cooldown checkGroupCooldown, Groups/Settings the settings, Groups/Requests the requests to
-- join. Groups/Decided, Groups/Batches and Groups/Spaced hold what is proved; Groups/Asked, Groups/Covered,
-- Groups/Listed and Groups/Resolved have lemmas.
-- Webhook (internal/gateway/webhook.go): the payloads, Webhook/Content what is read off a message,
-- Webhook/Queue the channel, Webhook/Deliver deliver and post; Webhook/Order and Webhook/Retries hold
-- what is proved.
-- AccessLog (internal/gateway/accesslog.go), with AccessLog/Refine for what is proved of calls that
-- follow each other, and AccessLog/Steps for calls that overlap.
-- Media (internal/gateway/mediastore.go: the keys of the objects) with Media/Keys, and Database
-- (internal/gateway/db.go: rebind) with Database/Numbered.
-- Config (internal/config/config.go) is Load; the operations take the settings they read as arguments.
-- The modules named Examples run the theorems at concrete inputs.
--
-- State is passed explicitly: an operation takes the state and returns the new one with its
-- result. A table of the database is a list of rows; whether a statement goes through is an
-- argument, as are the time, the random source, SHA-256 and what WhatsApp answers. Go's maps are
-- read in the order of their entries, where the code reads them in any order. An operation is one
-- step, and the operations on one store are taken to follow each other: this is an assumption,
-- since the locks of the code guard its maps and buffers but not the SQL before or after, and the
-- stores of messages and bulk jobs have none. Manager/Steps and AccessLog/Steps do without it:
-- they have the steps between which the lock of the manager, or that of the access log, is free.
-- Go's `int` and `int64` are numbers without a bound: settings, counters and times stay far below
-- 2^63; the pauses of a delivery, which double, wrap round as they do in the code. Texts are
-- lists of characters, taken to be valid UTF-8; JSON and base64 are left to the libraries. A run
-- of a bulk job stops where the code reads the quit channel; a process that dies between a send
-- and its UPDATE is not modelled. The loops are structural but for three: replace_all of
-- Bulk/Template, whose fuel is the length of the text, since each step takes at least one
-- character off it; add_batches of Groups/Paced, whose fuel is the number of addresses, since
-- each batch takes at least one; and put_decimal of Database, which divides by ten and has the
-- number itself as fuel.
--
-- Not modelled: the disk store of media, whose paths are the library's; handleLogout, handleGroupRaw
-- and the handlers that only list; the client wagctl and the start of the process.
pub mod Base
pub mod WhatsApp
pub mod Phone
pub mod Keys
pub mod Bulk
pub mod Messages
pub mod Api
pub mod Archive
pub mod AccessLog
pub mod Database
pub mod Media
pub mod Config
pub mod Webhook
pub mod Groups
pub mod Retention
pub mod Manager
pub mod Sessions
