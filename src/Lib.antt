-- ===== src/Lib.antt =====
-- xMailman, a mailing list manager: what its mail handlers, its store and its workers do, as functions,
-- and what holds of them.
--
-- A message comes in by LMTP. internal/mail/address.go reads from the recipient which function of which
-- list is meant, and a handler of internal/mail/lmtp.go or commands.go does it: it posts, subscribes,
-- confirms, records a bounce, moderates, or runs the commands in the body. The handlers work on the
-- database through internal/store, by the methods of internal/mail/pipeline.go, which decide what
-- happens to a post, archive it, queue a copy for each subscriber under an envelope sender of its own
-- (internal/mail/verp.go), and write the audit trail. internal/queue sends what is queued and compiles
-- digests.
--
-- Which file models what:
--   Strings, Result, Prelude: texts as lists of bytes with the searches of Go's package strings, errors
--     as values, and the lemmas that the other modules share.
--   Model: the entities of internal/model, field by field.
--   Effects: an action of the program, from the world to a result and the next world. The world is the
--     database, the clock, the source of tokens and the coming faults. Effects/Tables is the database,
--     a table for each entity; Effects/Keeps has the rules by which a relation between the databases
--     before and after is carried through an action.
--   Store: internal/store/sqlite/sqlite.go, a method by a method of the same name.
--   Address, Verp, Policy, Headers: address.go, verp.go, policy.go, and the header scan of pipeline.go,
--     in internal/mail.
--   Env: what the handlers are given and is not modelled, as one record of functions.
--   Pipeline: internal/mail/pipeline.go, one module for a group of methods.
--   Admin: internal/mail/admin.go and import.go; Admin/Csv is internal/members/members.go.
--   Lmtp: the handlers of internal/mail/lmtp.go and commands.go; Lmtp/Connection is a connection of
--     lmtp.go, the lines it reads and the replies it writes.
--   Server: internal/server. Http has requests and responses, Limiter is ratelimit.go, Access and Login
--     are the gates, magic links and sessions of server.go, Self its handlers for subscribers, Public
--     its pages about lists, Archives the archive, Console is console.go with bounces.go, Admin is
--     admin.go, and Audit is audit.go.
--   Queue: internal/queue/worker.go and digest.go.
--   Handlers: what holds of every handler. Handlers/Rules lists what the store's methods must keep,
--     Handlers/Posts, Requests and Inbound carry it to every handler, and Handlers/Frames gets it for
--     a method from the table that the method writes. The other modules there are relations.
--   Tests: runs on a small database.
--
-- How the code is written here:
--   A statement of the database either runs or is refused, as the world's list of faults says; what was
--   written before a refusal stays written, since the handlers open no transactions. A method of the
--   store that is one transaction is one statement. Rows stand in the order of their keys. An update
--   names the rows by a test, as the code's WHERE does, and a unique index is a test at insertion.
--   Where Go drops an error, or looks at it, the call is under `attempt`.
--   A request that the web server handles is an action that returns a response. What a handler does
--   behind a gate is an argument of the gate. The loop of a connection runs on fuel, one more than there
--   are lines. The map of the rate limiter is a list of entries.
--   A handler runs at one instant, the world's clock. Times are numbers of nanoseconds. Integers are
--   natural numbers without a bound: the code counts rows, retries and bounces, and does not wrap.
--   The loop of the queue worker runs on fuel, twice the messages in the queue and one. The other loops
--   are over lists.
--   `other` in an enumeration is any string that is not one of the source's constants, where the source
--   has a default branch for it. A loop with a map `seen` keeps the map's keys in a list.
--   The texts of errors are kept where they are fixed.
--
-- Not modelled: the configuration and the command line (cmd, internal/config); of the web server
-- (internal/server) the settings form, the detail of held messages, the routing of net/http, and
-- the pages (web); the listeners, a failing write to a connection, the SMTP client and the socket
-- (internal/mail/smtp.go, socket.go); and the migrations of the store. The parsing and rewriting of
-- MIME messages (internal/mailparse, internal/mail/modify.go), net/mail, mime/multipart,
-- encoding/json, encoding/csv, the rate limiter of golang.org/x/time/rate, the full-text index and
-- the mail server are parameters: nothing is supposed of them but what a theorem says among its
-- conditions.
pub mod Prelude
pub mod Strings
pub mod Result
pub mod Model
pub mod Effects
pub mod Store
pub mod Env
pub mod Policy
pub mod Headers
pub mod Pipeline
pub mod Admin
pub mod Queue
pub mod Server
pub mod Lmtp
pub mod Handlers
pub mod Address
pub mod Verp
pub mod Tests
