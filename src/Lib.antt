-- ===== src/Lib.antt =====
-- Verification of tokenomics, a proxy in front of providers of language models: it maps wrapper tokens
-- to policies, limits what a token may spend and how fast it may ask, inspects what is sent, and
-- keeps a ledger. A request finds its policy in the token store (Store). The chat handler (Chat) resolves it
-- for the model; the rate limiter admits the request (RateLimit), the policy checks and masks it (Policy), the
-- budget reserves its input tokens in the session store (Budget over Session), the attempt loop sends it to
-- providers, and the answer is passed on, counted (Stats) and put into the ledger (Ledger).
--
-- The parts and their files:
--   Base: shared names, lists, maps as association lists, int64 as bit patterns with the wrap-around
--     written out, and reachability.
--   Session: internal/session/session.go is the record `SessionStore` with its `Laws`, and
--     internal/session/memory.go (`MemoryStore`: GetUsage, AddUsage, Reset) fills it.
--   Budget: `reserveInputBudget` and `releaseReservedInputBudget` of internal/proxy/handler_chat.go, over
--     any session store. Each runs under one mutex and is one step of `Budget.Account`.
--   RateLimit: internal/proxy/ratelimit.go. Clock has Go's times and durations, Window the
--     `windowCounter` and its methods, Limiter the `RateLimiter` (Allow, RecordTokens, Acquire,
--     Release, getBucket, gcStaleBucketsLocked), Calls any sequence of calls.
--   Policy: internal/policy. Pii is pii.go, Rule the rules of policy.go, Resolve and Parse its policies
--     with Validate, ResolveForModel and mergeProvider, Engine is engine.go (CheckModel, CheckRules,
--     MaskContent, InjectPrompts).
--   Ledger: internal/ledger/ledger.go, the records, RecordRequest, and in Summary `buildSummary` with
--     `addToRollup`; Analytics is internal/ledger/openclaw_analytics.go.
--   Stats: internal/proxy/stats.go, `Record` and the totals of `StatsHandler`.
--   Store: internal/store. Crypto is crypto.go, Bolt the operations of bolt.go (Create, Get, Update,
--     Delete, List, Reload), Cache its Lookup.
--   Memory: internal/session/memory_writer.go. Rotating is `RotatingDirMemoryWriter` with
--     its rotate and compressFile in Archive, Plain the other writers,
--     Sanitize is `sanitizeMemoryContent`, Files what they ask of the file system.
--   Events: the event of internal/events/events.go; Webhook is internal/events/webhook.go, its channel a list
--     of at most 256 events, its goroutines steps in any order, its three attempts a recursion on their number.
--   Remote: the token server and `SyncTo` of internal/remote/remote.go, over the interface `TokenStore`, which
--     Bolt fills with the bolt store; Registry is internal/remote/client_registry.go, whose
--     write of the bucket and change of the emitters under the lock are two steps, Clients its handlers in remote.go,
--     Receiver is internal/remote/webhook_receiver.go, its HMAC the parameter `Signing`.
--   Chat: internal/proxy/handler_chat.go and what it uses. Serve is `ServeHTTP` of handler.go, which finds the
--     policy of the request's token; Handler is `handleChatCompletions` up to its attempt
--     loop with the deferred calls, over the state `Proxy`; Inspect its loop over the messages, Request the
--     request to a provider (with `CompressRequestBody` of compressor.go), Retry the attempt loop with
--     `shouldRetry`, Answer what follows it; Stream is `handleStreamingResponse`, Tokens is
--     internal/tokencount/counter.go and token_usage.go, Meta is provider_meta.go, Headers http.Header.
--     Passthrough is handler_passthrough.go over the reverse proxy, with Director the request that is handed to it
--     and Relayed what is recorded of the answer, Capture the response writers of logging.go,
--     whose input is a list of writes, Recorded is ledger_events.go and `formatRawForMemory`.
--
-- State is passed explicitly: an operation returns the state that it leaves beside its result, and a
-- Go error is a value of a `Result` or an `Option`. A Go map is an association list; where the code
-- ranges over one, its order is the order of that visit. Every loop is a recursion on its list or, for the
-- attempts at a model, on the number of attempts left, but for the two loops of `sanitizeMemoryContent` over runes:
-- those run on fuel, the length of the text, since a rune takes at least a byte. What runs under a lock is one step.
--
-- Parameters, with what they are relied on for as named hypotheses: package regexp and ToLower (`Regex`,
-- `RegexLaws`), time.ParseDuration, AES-GCM, base64 and SHA-256 (`Crypto`, `CryptoLaws`), bbolt, JSON and
-- time.Parse (`Services`, `ServiceLaws`; for the client registry `Bucket`, `BucketLaws`), the format of
-- times (`Times`), the tokenizer and float64 (`Tokenizer`, `Floats`), URLs, JSON and compressors
-- (`Platform`), and the providers, which answer a call in a world that the call changes (`Deps`),
-- the reverse proxy (`Relay`) and operations on bytes (`Texts`), and for the memory writers the file system
-- (`Files`, `WriteLaws`, `AreSmall`, `MissingLaws`), names of files (`Names`) and unicode/utf8 (`Utf8`,
-- `Utf8Laws`), and for the analytics the directory of sessions (`SessionsDir`), sort and the times of a filter.
--
-- Not modelled: of the chat handler, the calls that write memory and communication events, its debug
-- log and its timeouts; the commands,
-- configuration and certificates, which are input and output or calls of libraries; the periodic sync
-- and the HTTP calls of the remote client, and the Redis client; of the other modelled files, logs,
-- the watch of the database file, and the writing of the ledger's files.
pub mod Base
pub mod Session
pub mod Budget
pub mod RateLimit
pub mod Policy
pub mod Ledger
pub mod Stats
pub mod Store
pub mod Memory
pub mod Events
pub mod Remote
pub mod Chat
