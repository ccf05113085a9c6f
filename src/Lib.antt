-- ===== src/Lib.antt =====
-- kanyigo: the mail log dashboard's back end, which reads a mail log and an Nginx access log into
-- PostgreSQL, correlates mail lines by queue id, detects brute force, and blocks addresses through
-- a firewall agent.
--
-- The parts, the code that they model, and how they fit together:
--   Tail            stream.go: followMailLog, openMailLog, reopenMailLog and validateStreamConfig. It
--                   sends the lines of a log file, with the offset to start again from.
--   Parser          parser.go: ParseLine and inferLegacyTimestamp, with reKV and reQueue.
--   Stitcher        stream.go: the type TransactionStitcher, with Apply and EvictExpired.
--   Schema          db.go: the tables that EnsureSchema creates, one record for each row.
--   Sql             how the program uses database/sql: statements and transactions that may fail.
--   Checkpoint      ingest.go and continuous_ingest.go: getIngestState and setIngestStateTx.
--   MailStore       continuous_ingest.go: persistMailLogRecord, insertRawEntry, mergeMailTransaction and
--                   evictExpiredTransactions.
--   Ingest          continuous_ingest.go: the loop of RunMailLogIngestor over the records that its workers
--                   parse, processParsedRecord, and the tick that evicts. It calls MailStore, then Stitcher.
--   Pipeline        continuous_ingest.go: parseMailLogRecords, and RunMailLogIngestor from the file to the
--                   tables. It puts Tail, a parser, Ingest and Checkpoint together, and takes
--                   parsed records and ticks in any order.
--   NginxLine       nginx_security.go: ParseNginxLine, with newNginxEvent, forwardedClientIP and
--                   parseCIDRs.
--   NginxDetection  nginx_security.go: persistNginxEvent, updateNginxDetection and flagSecurityOffender.
--   NginxIngest     nginx_security.go: RunNginxSecurityIngestor. It puts Tail, NginxLine, NginxDetection and
--                   Checkpoint together.
--   Net             what the program uses of the package net.
--   Agent           cmd/firewall-agent/main.go: handle, with block, unblock and ensureFirewall.
--   FirewallClient  firewall_client.go: the calls of the agent over its socket.
--   Logs            server.go: handleLogs, with parseIntDefault and normalizeTime.
--   Security        security.go: handleSecurityBlock and handleSecurityDismiss, with clientIP of server.go.
--                   It calls FirewallClient, and through it Agent, and then records the result. The
--                   child Dismiss has handleSecurityDismiss.
--   Auth            auth.go: EnsureBootstrapAdmin, createUser, handleLogin, handleLogout and
--                   authenticateRequest, with envOrDefault and isProduction of config.go. The child
--                   Admin has EnsureBootstrapAdmin.
--   Config          main.go: nginxSecurityConfig and streamConfig, with envInt of db.go and
--                   parseAllowedOrigins of server.go. The child Programs has NewServer of server.go,
--                   NewFirewallClient of firewall_client.go, and the settings of
--                   cmd/firewall-agent/main.go with its parseNetworks.
--   Overview        security.go: handleSecurity.
--   Users           auth.go: handleMe and handleUsers, with listUsers and the method createUser.
--   Web             server.go: the routes of ListenAndServe, withCORS and withSecurityHeaders, with
--                   requireAuth of auth.go. It calls Auth before the handlers of Users, Logs, Security and
--                   Overview.
--   LogEntry        parser.go: the record LogEntry. Base holds what all parts share.
--
-- How the code becomes definitions: a struct is a record with the same fields in this language's
-- spelling, a nil pointer or NULL is an Option, a Go map is an association list or a list of its
-- keys, and a method on a pointer takes the state and returns it. A statement of SQL is a function
-- on the record of all tables, translated from its text; that of handleLogs, which the code builds
-- while it runs, is built here too, with its placeholders. Each call that reaches the server takes
-- its outcome from a list: done, refused, or lost, where the server did the work and the answer did
-- not arrive. The list is an argument: a statement takes any list, for failures at any time, or the
-- empty one, for none. A connection to the agent has such an outcome too. A file is its bytes, one
-- character for each, and a round of followMailLog takes the answers of the system in that round
-- as its data. The workers' order is the order in which parsed records arrive. What ipset,
-- iptables and the kernel do is a parameter, as are the reading and the writing of addresses and
-- times, the decoder of JSON, the groups that the regular expressions other than reKV and reQueue
-- match, bcrypt, the hashes, what PostgreSQL compares, and the parser of mail addresses.
--
-- Numbers and bounds: a time is a number of nanoseconds since year 1, and a duration a signed
-- integer; a comparison of a difference has its terms on the side where they are positive, and a
-- difference of times does not saturate. The INTEGER columns for the size of a message and for a
-- status have their range of 32 bits; the counters in the tables are unbounded. A float64 is
-- carried by its bits; what PostgreSQL makes of one in a REAL column, and its range, is part of the
-- Database record, as a parameter. A timestamp keeps its nanoseconds where PostgreSQL keeps
-- microseconds. Lower case is that of the ASCII letters, and space is Unicode's white space. The loop over
-- pending records runs on fuel, the number of pending records, which is enough because each round
-- deletes one. The loop of followMailLog runs over a list of rounds, which may have any length, and
-- that of RunNginxSecurityIngestor takes as many records as its argument says.
--
-- Not modelled: the attributes of the cookie, migrations and indexes for speed, what bufio.Reader
-- has read ahead, main with its flags and its retry loops, the listeners, logging, and the frontend.
-- A request is given with its decoded body.
pub mod Base
pub mod LogEntry
pub mod Stitcher
pub mod Sql
pub mod Schema
pub mod Checkpoint
pub mod MailStore
pub mod Ingest
pub mod Tail
pub mod Parser
pub mod Pipeline
pub mod NginxLine
pub mod NginxDetection
pub mod Net
pub mod Agent
pub mod FirewallClient
pub mod Logs
pub mod Security
pub mod Auth
pub mod Config
pub mod NginxIngest
pub mod Users
pub mod Overview
pub mod Web
