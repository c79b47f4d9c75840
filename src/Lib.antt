-- ===== src/Lib.antt =====
-- WP Open Aurora is a gateway to WhatsApp: an HTTP and WebSocket server (src/) that keeps sessions
-- with WhatsApp engines, stores and retries messages, and reports events to webhooks and plugins. Its
-- callers show an API key or the token of a panel account.
--
-- The parts that are modelled, each by the module of its name, with the names of the code in snake
-- case:
--   Ip        src/common/utils/ip.ts: the client's address behind proxies, and address ranges.
--   Auth      src/modules/auth: Keys and Cidr are auth.service.ts (keys, whitelist, usage counts),
--             Guard is guards/api-key.guard.ts. The guard asks Ip for the client's address, Keys for a
--             key, and Omega for a token.
--   Omega     src/modules/omega: Users is omega-auth.service.ts, Guard the two guards of the panel,
--             Admin the sessions and limits and Admin.Accounts the
--             roles and users of omega-admin.service.ts, Usage is
--             omega-usage.service.ts.
--   Hooks     src/core/hooks/hook-manager.service.ts: the handlers of plugins.
--   Plugins   src/core/plugins/plugin-loader.service.ts: Loading and Unloading are the operations,
--             Scope the facade, Calls a sequence of operations. Plugins register handlers with Hooks,
--             and the loader keeps their states in PluginStorage.
--   PluginStorage
--             src/core/plugins/plugin-storage.service.ts: the registry and its file.
--   Translation
--             src/plugins/extensions/translation/core: Parser, Replies, Groups (the languages and ids
--             of a group), Commands and Coordinator (the handlers).
--   Messages  Status is src/modules/message/message-status.util.ts with the receipts of
--             src/modules/session/session.service.ts; Retry is message-retry.service.ts
--             (Scan and Table are processDueMessages); Bulk is bulk-message.service.ts; Sending
--             and Address are message.service.ts. A failed send of Sending is a row of Retry.
--   History   the messages, chat summaries and phone numbers that src/modules/session/session.service.ts
--             stores.
--   Engine    src/engine/adapters: Json, Ids, Parts, Mapper and Sync are
--             evolution-go-message-mapper.ts, whose messages History stores; BaileysStore is
--             baileys-session-store.ts.
--   Events    src/modules/events/events.gateway.ts: subscriptions, with the keys of Auth, and delivery.
--   Sessions  the life cycle in src/modules/session/session.service.ts: start, stop, delete, the
--             reconnects and the callbacks of an engine (Steps).
--   Ssrf      src/common/security/ssrf-guard.ts: the addresses that an outbound request may reach.
--   Webhooks  src/modules/webhook/webhook.service.ts: matching, headers and direct delivery. Queue is
--             its branch with a queue and src/modules/queue/processors/webhook.processor.ts.
--   Prelude   shared names: lists over the native numbers, maps, texts, 32-bit masks and results.
--   Tests     concrete inputs at which the theorems apply.
--
-- A table is the list of its rows, a Map an association list, an exception a value of Result. A call
-- of a service is one step, but for Sessions, where an await in flight is a task and every
-- interleaving of calls, timers, callbacks and awaits is a list of events, and for a batch of
-- messages, during which a cancellation may come at any check. All loops are structural recursions
-- over a list or over a number of retries left. Only the test of an IPv4-mapped address calls itself: one
-- level is enough, since the inner text is dotted and is no IPv6 address.
--
-- Parameters: digests, random bytes, clocks, case mappings, JSON and dates, the engine's answers, URL
-- parsing and name lookup. Numbers are naturals; a 32-bit value of the code keeps its wrap-around.
--
-- What a plugin's own code does is a function of what it finds: the calls of the hook manager that it
-- makes, in order, and what it throws. Storing and sending by the translation bot succeed.
--
-- Not modelled: the panel's clients, teams, campaigns and analytics, the data files of plugins, the
-- echoes of sends, the chat cache, the media archive, the adapters that call engines, the rendering of
-- templates, the controllers, logging, the dashboard and the client libraries. They are mostly database queries and
-- calls of libraries.
pub mod Engine
pub mod Events
pub mod History
pub mod PluginStorage
pub mod Plugins
pub mod Prelude
pub mod Ip
pub mod Omega
pub mod Auth
pub mod Hooks
pub mod Messages
pub mod Sessions
pub mod Ssrf
pub mod Translation
pub mod Webhooks
pub mod Tests
