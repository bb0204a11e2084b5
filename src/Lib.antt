-- ===== src/Lib.antt =====
-- mcp-debugger: a debug server that drives Debug Adapter Protocol adapters for a tool client.
--
-- The server (src/) keeps debug sessions (src/session). Each session runs a proxy process
-- (src/proxy) that speaks the adapter protocol; the server's proxy manager exchanges messages with
-- it and hands each of them to a functional core (src/dap-core), which answers with commands and a
-- new state. Frames on the wire are cut and joined by the codec of src/proxy/dap-framing.ts.
--
-- Files, with the code that each models:
--   Base, Base/*: shared names and lemmas. Base/Dict is JavaScript's Map, Base/Json a JSON value,
--     Base/Number and Base/Text what the code uses of numbers and texts (parseInt, trim, indexOf);
--     Base/Reads has lemmas on Boolean tests.
--   DapCore/State, DapCore/Handlers: src/dap-core/state.ts, handlers.ts and types.ts, one function
--     each (createInitialState is create_initial_state, and so on). DapCore/Session is how
--     src/proxy/proxy-manager.ts drives them: every message, request, time-out and clean-up is an
--     Action, and run takes a list of them. Pending and Lifecycle hold the theorems.
--   Proxy/Framing: src/proxy/dap-framing.ts. encode_dap_message is encodeDapMessage, DapFrameDecoder
--     the decoder's fields and push its method; round is one turn of its while loop, body_round and
--     header_round its two phases. Rounds, Sound, Pushes, Header, Ready, Deliver, Stream: theorems.
--   Proxy/RequestTracker: src/proxy/dap-proxy-request-tracker.ts, with the event loop's timers as
--     part of the state. Linked and Timeouts hold the theorems.
--   Proxy/Manager: src/proxy/proxy-manager.ts, with the promises of requests, the event loop's timers
--     and the calls of launch barriers as part of the state. Messages has the handlers of the
--     process's messages, Lifecycle its start, stop and end; what can happen is an Action, in any
--     order, and run takes a list of them. Totals, Books, Replies, Requests and Settled follow the
--     promises, Slots and Linked the timers, Waits the requests that wait for a barrier; Histories,
--     Ended and Mirror hold the other theorems, with lemmas in Mirror/Barriers and Mirror/Responses.
--     InitRetry is its loop sendInitWithRetry, over what comes of each attempt, with its theorem in
--     Tries.
--   Proxy/MessageParser: src/proxy/dap-proxy-message-parser.ts, one function for each of its methods,
--     with each row of checks as a list (guarded). Shapes has, as data, what is checked of the payload
--     types of dap-proxy-interfaces.ts; Typed, Exact and Layers hold the theorems.
--   Session/OutputBuffer: src/session/output-buffer.ts. Window and Paging hold the theorems.
--   DidYouMean: src/utils/did-you-mean.ts. Distance and Closest hold the theorems.
--   Session/States, Session/Store: the states of packages/shared/src/models/index.ts and the store of
--     src/session/session-store.ts, with _updateSessionState of session-manager-core.ts.
--     Session/Events: the proxy event handlers of session-manager-core.ts. Session/Close: its
--     closeSession and stopProxyPreservingSession. Store/Laws, Events/Consistent, Settled and Stops,
--     and Close/Outcome hold the theorems.
--   Breakpoints: src/utils/breakpoint-resolver.ts. Matches, Resolve, Content and Comments hold the
--     theorems.
--   LaunchBarrier: packages/adapter-javascript/src/utils/js-debug-launch-barrier.ts, with the event
--     loop's timers as part of the state. Settled holds the theorems.
--   Session/VariableCaps: src/session/variable-caps.ts, its advisory in Notice. Prefix and Merge hold
--     the theorems.
--
-- Bounds and fuel. The decoder's loop runs on fuel, one more than the bytes that the decoder and its
-- input hold: every round that goes on takes at least one of them. The message parser, which parses
-- texts in texts, runs on more fuel than its message has characters: each parse takes the quotes off.
-- All other loops are structural.
-- Numbers are exact, and whole in JSON values; the code's are doubles, exact below 2^53, and
-- parseInt's step to Infinity is kept. Clocks and environment settings are arguments.
--
-- Parameters. UTF-8, JSON.stringify and JSON.parse are the record Codec; what the round trip assumes
-- of them is IsCodec: ASCII is carried as it is, and a message's text is carried and parsed back.
-- The message parser takes JSON.parse and Number as the record Builtins; its termination assumes that
-- a text is shorter than its JSON (IsQuoted).
--
-- Not modelled: of the proxy manager, the texts of errors, captured stderr, the disposal of the
-- adapter, the kill of a process, and listeners that call back into it while they are run; its
-- start, like the close of a session, is one step, without what other calls do while it waits.
-- Process and socket I/O, file access and toolchain discovery (the language adapters, the command
-- line), the operations of the session manager (a stop that is passed over only records that
-- continuing was started), the proxy worker, the child sessions, the mirror
-- server, the tool schemas of the server, redaction by regular expressions, logging, and the texts
-- of errors.
pub mod Base
pub mod Breakpoints
pub mod DapCore
pub mod DidYouMean
pub mod LaunchBarrier
pub mod Proxy
pub mod Session
