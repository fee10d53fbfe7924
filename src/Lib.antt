-- ===== src/Lib.antt =====
-- xkk is a game server of five services: Auth hands out tokens, Gate holds the connections and the
-- streams of the clients, Logic owns the players and their items, Public owns the mails, Query
-- reads players. Gate forwards a client's requests to the Logic and the Public server of the
-- player; what a login leaves for the other services is the online state in Redis.
--
-- The modules, and the code that each is about:
--   Common: Booleans, lists, results, signed integers over the native numbers with the wrap of an
--     i64, maps as lists of entries with distinct keys, and the ids of a request.
--   Protocol.Message, Protocol.Code, Protocol.Status: protocol/src/message.rs, protocol/src/status.rs,
--     and the message ids of protocol/generated/xkk.v1.rs.
--   Cache.Online: cache/src/online.rs. The Redis hash of a player is a record of optional fields.
--   Cache.ServiceOnline: cache/src/service_online.rs, the counts that instances publish, with their life time.
--   Gate.Session: `ClientSession` of service/gate/src/session.rs, function by function. The children
--     are its sequence numbers (Sequence), the request limiter (Rate and below), the resumes
--     (Reconnects), the outbox (Outbox and below) and a whole session (Replay).
--   Gate.Sessions: `ClientSessions` of the same file, the map of the sessions by player; Counts and
--     Steady are what each function does to the number of connected players.
--   Gate.Gateway: `GatewayState` of service/gate/src/gateway.rs. Login, Reconnect and Forward are
--     `handle_login`, `handle_reconnect`, and `forward` with `handle_packet`. A handler is cut at its
--     calls of other services, since other handlers run between these: each part is a function, and
--     Runs puts the parts together in any order, where a part ends before the next one begins. Drift
--     interleaves the critical sections themselves, for the number of connected players and the counter.
--   Auth: service/auth/src/api.rs, with the queue of cache/src/login_queue.rs (Queue). The login and
--     its accounts are in Auth, the use of a role in UseRole; Tokens, Accounts and Admissions are about
--     them. A request is one step, and what other systems answer to it is given.
--   Logic.Player: `PlayerState` of service/logic/src/player.rs. Logic.Handlers: the handlers of the same
--     file around it, given what the runtime makes of each call; Counter takes logins and disconnects apart
--     into their calls and their changes of the counter of players online, which come in any order.
--   Logic.Runtime: service/logic/src/runtime.rs. Admission is the admission of calls by two atomic
--     words, whose single changes Words interleaves; Mailbox has the mailbox and the runner of each player, where a runner stops between its
--     critical sections, and its children put the steps of all runners, the calls that come in and the
--     shutdown together in any order; Cell has the players with their dirty slots, where a step ends
--     when the save gate may change hands.
--   Public.Mail: service/public/src/mail.rs; Handlers are the handlers around its
--     operations, and Spent is about the box of a player over any of its changes.
--   Public.Players: persist/src/public_players.rs and persist/src/public_player.rs, the players in memory;
--     Flush is about the write-back of those that changed, Steps has the critical sections in any order.
--   Query: service/query/src/query.rs.
--
-- A function that mutates its receiver returns the new one. An `Instant` is a count of nanoseconds.
-- Sequence numbers are u32 and wrap; item counts are i64 and wrap where the code does not check, as
-- in a release build. The order in which a `HashMap` is iterated is a parameter. The loops of
-- the code are recursions over a list; a runner of Logic, which loops as long as calls come, is a
-- step at a time, and `drive` makes as many steps as `work` counts, which are shown to be enough.
--
-- Parameters: the token coder, the digest of credentials and the order of equal members in the login
-- queue; the session id of a connection, the encoding of packets and the first message id above
-- the system's (the crates xnet and xproto), the answer of a connection that is handed a packet, the
-- answers of other services, and the name `Player{gid}` of a new player.
--
-- Not modelled: the generated protocol code beside the message ids, the start and stop of the
-- services, metrics, configuration, the robot and the scripts; of the runtime of Logic the shards of
-- its directory, the flush at the end of its shutdown, high-water marks and latencies; of the cache
-- of Public its capacity and life times, and what comes between the steps of an eviction; and the stores.
pub mod Common
pub mod Protocol
pub mod Cache
pub mod Auth
pub mod Gate
pub mod Logic
pub mod Public
pub mod Query
