-- ===== src/Lib.antt =====
-- Apex leaderboard: players, boards and scores over a Redis server.
--
-- A score write is one Lua script (storage/scripts/apply_score_event.lua): it checks an idempotency
-- key, the player, the board and the range of the resulting score, writes the projection of the board
-- (a ZSET), appends an event to the ledger (a stream) and records the key. Everything else is derived
-- from the ledger: the live leaderboard, a past leaderboard, the rebuild and the check of a
-- projection, and the views that the consumers maintain.
--
-- Files:
--   Prelude and its children: names of the libraries, Boolean tests, lists and integers over the
--   native numbers, bytes, and Exec, the state passing of code that may fail. A failure keeps the
--   state that it left, so partial writes show.
--   Decimal: strconv.FormatInt, ParseInt and ParseUint.
--   Platform: what the program calls and does not contain, as a record: doubles, the commands of
--   Redis on one value, UUIDs, strvalid, dates. Platform.Laws states what is relied on of it, as
--   documented; Platform.Demo is a small instance on which every law holds.
--   Redis: the keyspace and the run of a script; a command on a key of another type fails.
--   Score, Ledger, Board, Player, ApexTime: score/score.go, ledger/event.go, board/board.go,
--   player/player.go and the stream ids of apextime/apextime.go.
--   Storage.Client: errors of storage/storage.go, and round trips. A world holds the server and a
--   list of turns: before each request others may change the server, and a request or its reply may
--   be lost. With an empty list every request is delivered. A pipeline is one request: its commands
--   run without others in between, which Redis does not promise.
--   Storage.Keys: storage/keys.go. Storage.Entry: the decoding of entries in storage/storage.go.
--   Storage.Apply: SetScore and IncrementScore of storage/score_repo.go, with the script in
--   Storage.Apply.Script. Steps, Effect, Retry and Partial hold the lemmas on its early returns, its
--   writes, its idempotency record, and a write that fails halfway.
--   Storage.Standings and Storage.AsOf: the reads of storage/score_repo.go. Standings.Exact holds the
--   read of one player to the ledger, Rows and Page a page to the reads of its players; Agreement,
--   Rows, Pages and Listing hold a past leaderboard to the ledger.
--   Storage.Boards and Storage.Profiles: storage/board_repo.go and storage/profile_repo.go with their
--   scripts.
--   Storage.Admin: storage/projection_admin.go. Storage.Events: storage/event_repo.go and
--   storage/activity_repo.go. Storage.Views: storage/activity_store.go,
--   storage/player_history_store.go and storage/ledger_consumer.go.
--   Storage.Replay: the meaning of a ledger as scores, and the servers on which the projections show
--   it. No code is translated there; Write, Apply and Outcome hold the write path to it, and Frame,
--   Reads, Others, Background, Projections and Operations the rest of the storage,
--   and Standing a write to the read that follows it. Storage.Keeps has the rules for an invariant of the server under requests that may be lost.
--   Storage.Admin.Rebuild, Repair and Verify: the rebuild and the check of a projection.
--   Storage.Interface: storage/interface.go, the operations as one type.
--   Consumer: processOnce and Run of consumer/consumer.go; Consumer.Views has the two consumers.
--   Drain has the lemmas on a consumer that works through the ledger, Counts, Activity and History
--   those on the two views. Storage.Views.Batches: the ledger as batches.
--   System: the operations and the rounds of the consumers as steps on one server, which is how
--   main.go puts them together.
--   Handlers: handlers/handler.go and the handlers, from path values, query parameters and a decoded
--   body to a status or a response value. Handlers.Scores.Answers says which requests a score write
--   accepts.
--   Handlers.Health: handlers/health_handler.go.
--   Server: server/ratelimit.go, server/middleware.go and the options of server/server.go.
--   Server.Chain: the handler that Start of server/server.go serves, from the request id to the mux,
--   which is an argument. Server.RequestIds: requestid.
--   Server.Routes: server/routes.go, with the choice of ServeMux among patterns; Exclusive and Paths
--   hold the table and the paths of the scripts to it.
--   Server.Startup: the environment of main.go. Program: main of main.go and the end of Start.
--   ClientStartup: the ping of apexredis/client.go. ClientLog: apexredis/hook.go, what is logged of a
--   command, and apexredis/config.go.
--   Fanout: the loops of apiscripts/fanout over pages and chunks. Their counts of rounds are bounds that
--   the theorems show to be enough.
--   Fanout.Ranking: the players, the writes and the check of the ranking of the same script.
--   ApiScripts.Flags: the flags of those scripts and their checks.
--   ApiScripts.Walk: apiscripts/apiwalk/main.go, with what it prints.
--   ToolRunner: apiscripts/toolrunner/main.go; Slot has the interleaving of its requests, Output its
--   limits.
--   RandomHistory: verifyHistory of apiscripts/randomhistory/randomhistory.go.
--   ApiScripts: apiscripts/apexhttp/apexhttp.go over a service that is a parameter, and in its children
--   the loops of apiscripts/dailyactivity, randomhistory and loadscore. Concurrent increments are any
--   order of steps of the service.
--   Examples: the theorems at concrete inputs.
--
-- Bounds: the time of a board, a player or an event is the nanoseconds since 1970. An amount and a score lie within 10^13, so they and their sums are whole numbers that a
-- double holds. Sums that the Go code makes on int64 wrap around at 2^63. Loops are recursion on the
-- list that they run over; the endless loop of a consumer is modelled for any number of rounds. A
-- loop that waits until a deadline takes a number of rounds, and its theorem says how many are enough:
-- each round of a wait lasts at least its pause, so the deadline ends it.
--
-- Not modelled: the signals and the setup of the log in main.go, the options of the Redis connection,
-- apispec, how ServeMux cleans and decodes a path, the serving of net/http, JSON, log lines but for
-- those of requests and commands, how package flag reads a command line, the output of the scripts but for
-- apiwalk, and the web client.
pub mod Prelude
pub mod Decimal
pub mod Platform
pub mod RandomHistory
pub mod Redis
pub mod Score
pub mod Ledger
pub mod ApexTime
pub mod Board
pub mod Player
pub mod Storage
pub mod Consumer
pub mod Handlers
pub mod Server
pub mod System
pub mod ToolRunner
pub mod ClientLog
pub mod ClientStartup
pub mod ApiScripts
pub mod Program
pub mod Fanout
pub mod Examples
