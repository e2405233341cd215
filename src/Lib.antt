-- ===== src/Lib.antt =====
-- A verification library of far-mail, a private temporary mail service: a Go process takes mail
-- over LMTP from Postfix, files it in PostgreSQL for the addresses of the active domains, and
-- serves an HTTP API to the owner and to automation clients, who authenticate with tokens. The
-- public can donate domains and earns rewards on such tokens. The library models the parts of the
-- Go code below api/ that decide something: which mail is accepted and where it goes, which
-- credentials pass, what a request may use up, and what a donation earns.
--
-- How the parts interact. Postfix opens a session with the ingress (api/ingress/server.go); the
-- session resolves each recipient against a snapshot of the active domains, reads the message, and
-- hands it to a bounded queue whose workers file it: one statement adds the message, with the code
-- and the link that are found in it, and brings the projection of its mailbox up to date. A request
-- of a client passes `APIAuth` (api/middleware/auth.go), which finds the token through a cache
-- (api/store/tokens.go), counts the request in Redis (api/middleware/redis_counter.go) and in the
-- token's row. The row of a reward token gets its limits from the donations
-- (api/store/donations.go), whose transactions invalidate the cache.
--
-- The files, with the code they model.
--   Base, with its children: lists, tests, signed integers, tables and maps that the rest shares.
--   Text, Text/Trim, Text/Search: the functions of Go's `strings` that the code calls, written for
--     bytes, with their laws.
--   Ingress/Address: splitCommand, extractPathArg and splitAddress of api/ingress/server.go.
--   Ingress/Snapshot: refreshSnapshot and resolveRecipient. A map is an association list.
--   Ingress/Data: readData, the lines of a message up to the dot.
--   Ingress/Message: parseMessage of api/ingress/mime.go.
--   Ingress/Events: the subscriptions to new mail in api/ingress/events.go.
--   Ingress/Server: NewServer, the slots, the queue, the workers and the shutdown's drain.
--   Ingress/Transaction, Ingress/Delivery, Ingress/Session: handleMAIL, handleRCPT, handleDATA and
--     run. The connection is the list of lines that the client sends; what a call may run into (a
--     deadline, a full queue, the store's answer) is in a record of conditions.
--   Tokens/Format: how secrets are generated and told apart in api/store/tokens.go.
--   Tokens/Console: the owner's operations on tokens in api/store/tokens.go.
--   Store: the row of a token and the cache of authenticated tokens in api/store/tokens.go.
--   Donations, Donations/Transactions, Donations/Create: the rows and the transactions of
--     api/store/donations.go that concern one donation or token; Donations/Policy:
--     ApplyDonationPolicyToExisting. The other children hold proofs.
--     Donations/Records: CheckDonationRecords of api/store/donation_dns.go.
--   Domains: the statements on domains and the choice of a new mailbox's domain in
--     api/store/postgres.go; Domains/Cache: the cached list of active domains in
--     api/store/domains_cache.go. The other children hold proofs.
--   Mailboxes, Mailboxes/Deletion, Mailboxes/Retention: the statements on mailboxes, messages and
--     their projection in api/store/ingress.go and api/store/postgres.go. The other children hold
--     proofs.
--   Extraction: ExtractCode and ExtractLink of api/store/postgres.go. The children hold proofs.
--   Usage: the recorder of API usage in api/middleware/observability.go; Usage/Deferred: the bulk
--     count
--     of deferred uses in api/store/observability.go. The other children hold proofs.
--   Quota: the script of api/middleware/redis_counter.go, IncrementTokenUsageIfAllowed and APIAuth.
--   Envelope: the capture and the envelope of error answers in
--     api/middleware/error_envelope.go, without
--     the headers. The child holds proofs.
--   RequestId: the request ids of api/middleware/requestid.go.
--   RateLimit: the fixed windows of api/middleware/ratelimit.go.
--   Access: AdminAuth, DonationAuth, AdminOnly and RequireAnyScope of api/middleware/auth.go.
--   Tests: runs on concrete inputs.
--
-- Conventions. Text is bytes, and is ASCII where a function of `strings` looks at letters or white
-- space. A UUID is a number and uuid.Nil is 0; times and durations count nanoseconds; counters do
-- not wrap. What the code takes from elsewhere is an argument: the source of random bytes, the hash
-- of a secret, the ids that the database assigns, the settings, the answers of Redis, of the
-- resolver and of the store, the unescaping of HTML, the regular expressions, and the readers of
-- mail and MIME. A table is the list of its rows, and its key names the first row that has it. A
-- transaction is a function of the tables whose error leaves no tables, since a rollback leaves the
-- old ones. A limit that its 32-bit column cannot hold is refused; sums in 64 bits are taken to be
-- exact.
--
-- Bounds. A session has one round for each line that it was sent, since each round takes a line,
-- and the walk over the labels of a domain one for each byte of its name and one more, since each
-- round drops a label. The search for a code has one round for each byte, since each round passes a
-- byte at least, and so has the loop over the hints, none of which is empty. The recursion over the
-- parts of a message has one round more than the body has bytes, since a part is shorter than what
-- holds it. The other loops recurse on lists.
--
-- Not modelled: what only moves data (the handlers, the SQL behind the lists and reports, the HTTP
-- glue, the logs and the metrics, the Cloudflare and notification clients), the fingerprint of a
-- snapshot that decides whether a change is logged, the schema, and the Vue frontend.
pub mod Base
pub mod Text
pub mod Tokens
pub mod Store
pub mod Donations
pub mod Quota
pub mod Access
pub mod Extraction
pub mod Usage
pub mod Envelope
pub mod RequestId
pub mod RateLimit
pub mod Mailboxes
pub mod Domains
pub mod Ingress
mod Tests
