-- ===== src/Lib.antt =====
-- The outbound engine of the platform: the services that take leads in and decide when a lead is
-- called or written to.
--
-- The services keep their state in a key-value table in Postgres (libs/go/pgkv) and tell each other
-- of events over NATS and HTTP. The scheduler's dispatcher (services/scheduler/internal/dispatcher)
-- seeds a queue of dial rows when a campaign is launched, dials the rows that are due in a tick that
-- runs again and again, and moves the rows on when outcomes of calls come in. Every request for a
-- call goes to the telephony adapter (services/telephony-adapter).
--
-- Pgkv.antt models libs/go/pgkv/pgkv.go: a collection is an association list, and a list of faults
-- says which of the next statements fail, so that each error path of its clients runs. `put`,
-- `insert_new`, `delete`, `get` and `list` are `Put`, `Insert`, `Delete`, `Get` and `List`. Pgkv/Post
-- has the conditions on the answer and the state after an action.
--
-- Dispatcher.antt and the folder Dispatcher model the scheduler's dispatcher:
--   Row          the dial row and its JSON context (dispatcher.go)
--   Window       the calling window and its next opening (compliance.go)
--   Retry        the retry policy (compliance.go)
--   RateLimit    both limiters behind the interface `RateLimiter` (ratelimit.go)
--   Queue        the interface `DialQueueStore` and its durable store (store_pgkv.go)
--   Suppression  the do-not-disturb list (dispatcher.go, store_pgkv.go)
--   Call         `placeCall` (dispatcher.go)
--   Tick         `tickAt` and `dispatchCampaignAt` (dispatcher.go)
--   Outcome      `onCallOutcome` (outcome_consumer.go)
--   Launch       `onCampaignLaunched`, its requests and `resumeActive` (dispatcher.go)
--   Tests        runs at concrete inputs
-- A `Deps` holds what a `Dispatcher` was created with; a `World` holds the state of its stores, the
-- replies still to come and the requests made. Rounds are written over the interfaces of the queue
-- and of the limiter, which the durable store and both limiters fill. The in-memory queue, whose rows
-- share the context map of their launch, is left out.
--
-- Picker.antt and the folder Picker model the claiming of leads by workers, which stands beside the
-- dispatcher (services/scheduler/internal/{model,picker,store}):
--   Store        leads, `PickNext` and the in-memory store, whose mutex makes each operation one step
--                (picker/picker.go, store/fake.go)
--   Durable      the store over the key-value table, one statement at a time (store/postgres.go)
--   Claims, Order, Refinement and Races prove what claims give to the workers; Tests holds runs.
--
-- Telephony.antt and the folder Telephony model the telephony adapter:
--   Limiter      `redisLimiter` (internal/concurrency/limiter.go): calls step by step over the
--                counter of one tenant in Redis; a run is a list of events that says which call sends
--                its next command, which command is lost and when the key expires
--   FakeLimiter  the interface `Limiter` and the in-memory limiter (the same file)
--   Store        what the router asks of its store, and the in-memory store (internal/store/fake.go)
--   Router       `Select`, `SelectForCall`, `PlaceCall` and `DecrConcurrencyForCall`
--                (internal/routing/routing.go)
--   Tests        runs at concrete inputs
-- A request of the dispatcher reaches `PlaceCall` through an HTTP handler, which is not modelled; a
-- `503` of that handler is what `on_reply` of the dispatcher reads as no free slot.
--
-- Campaign.antt and the folder Campaign model services/campaign over its in-memory store:
--   Store        campaigns and what is known of them (internal/model/model.go,
--                internal/store/fake.go)
--   Preflight    `Checker.Run` (internal/preflight/preflight.go)
--   Service      the operations (internal/campaign/service.go) and `EvaluateAndPause`
--                (internal/autopause/autopause.go)
--   Launching, Autopausing and Vetting prove what these make of a campaign; Tests holds runs.
-- A launched campaign is told to the dispatcher by the event `campaign.launched`; its limits reach
-- `on_campaign_launched` as the service answers them.
--
-- Consent.antt and the folder Consent model services/consent-compliance:
--   Store        the interface of the checks and the in-memory store (internal/store/fake.go)
--   Durable      the store over the key-value table, with faults (internal/store/postgres.go)
--   Gates        `CheckOutreachAllowed` and its six gates (internal/compliance/compliance.go), and the
--                HTTP request that runs it (`handleCheckOutreach`, internal/handler/handler.go)
--   Verdict, Withdrawal and Faults prove what the checks answer; Tests holds runs.
-- The ids that `uuid` makes are arguments. The dispatcher does
-- not ask for the check, and has its own do-not-disturb list; the whatsapp adapter has a client that
-- would ask over HTTP, but its server is wired with a checker that allows everything.
--
-- Billing.antt and the folder Billing model services/billing-meter:
--   Pricing      the prices (internal/pricing/pricing.go)
--   Store        usage, costs, caps and signals, and the in-memory store (internal/store/fake.go)
--   Durable      the store over the key-value table, with faults (internal/store/postgres.go)
--   Service      `RecordUsage` over either store (internal/service/service.go), and the handler of
--                `call.completed` and WhatsApp events (cmd/server/consumer.go)
--   Ledger and Redelivery prove what is summed and what is billed twice; Tests holds runs.
-- An amount there is a whole number of hundred-thousandths of a rupee, in which every price is whole,
-- where the code has floats that are rounded; the ids that `fmt.Sprintf` and `uuid` make are functions
-- of a prefix and a counter. `call.completed` is sent by services that are not modelled.
--
-- Handoff.antt and the folder Handoff model services/handoff over its in-memory store:
--   Store        salespeople, handoffs, tasks and events (internal/model/model.go,
--                internal/store/fake.go)
--   Assignment   `Select` (internal/assignment/assignment.go)
--   Service      the operations (internal/service/service.go)
--   Once, Alarms, Chosen and Reassigned prove what runs of these make; Tests holds runs.
-- A performance score is a whole number of hundredths. The order in which `EvaluateSLAs` walks the
-- handoffs is that in which they were written.
--
-- Identity.antt and the folder Identity model services/lead-identity over the key-value table:
--   Phone        `Normalize` (internal/phone/phone.go); the package phonenumbers is a parameter
--   Durable      the contacts and their index by phone (internal/store/postgres.go)
--   Service      the three requests (internal/service/service.go)
--   Merged proves whom a phone names; Tests holds runs.
--
-- Import.antt and the folder Import model services/lead-import over the key-value table:
--   Store        contacts, leads, jobs and filters (internal/model/model.go, internal/store/store.go)
--   Durable      the store, with faults (internal/store/postgres.go)
--   Parser       the rows of both kinds of files (internal/parser/csv.go, internal/parser/xlsx.go)
--   Service      the requests (internal/service/service.go)
--   Webhooks     the webhooks of Facebook and Google (the same file)
--   Linked, Counts, Redelivered and Durable/Pages prove what these keep; Tests holds runs.
-- What `encoding/csv` and `excelize` read of a file is an argument, a row or that it cannot be read;
-- the ids that `pgkv.NewID` makes are arguments, or a function of the place of a row.
--
-- Whatsapp.antt and the folder Whatsapp model services/whatsapp-adapter over the key-value table:
--   Model        the types, the service window, the costs and the templates (internal/model/model.go,
--                internal/window/window.go, internal/cost/cost.go, internal/templates/templates.go)
--   Durable      the store, with faults (internal/store/postgres.go)
--   Webhook      `Normalize` (internal/webhook/webhook.go)
--   Service      the templates and the checks of what is sent (internal/service/service.go)
--   Sending      `SendTemplate`, `SendMessage` and `SendFlow` (the same file)
--   Inbound      `ProcessWebhook` and what an event changes (the same file)
--   Stopped, Closed and Redelivered prove who is written to; Tests holds runs.
-- The consent checker, claim control and Meta are the parameter `Services`, a function from what is
-- asked to an answer or an error, for each request anew; a log in `Tables` holds the calls that Meta
-- accepted. `strings`, `time` and `crypto/sha256` are the parameter `Texts`; costs are in paise. The
-- demo inbox (`SeedDemoInbox`), the HTTP clients and handlers and the in-memory store are left out.
--
-- Prelude.antt passes on the shared types, tests, list and map lemmas of the folder Prelude.
--
-- An instant is a number of seconds. A float of the JSON context is a whole number of hundredths,
-- which is the precision of the paise amounts that are compared. Attempts and counts are natural
-- numbers and Go's 64-bit int does not wrap at the sizes that they reach. A JSON value that is
-- neither a number nor a text is one constructor, since the code asks only whether it is one of
-- those. No function here runs on fuel: every loop of the code goes over a list.
--
-- Go's package `time` is the parameter `Calendar`, with `IsSteady` for what its documentation says of
-- a location whose clock is never put forward or back. Redis counters are the parameter
-- `CounterStore`, and the HTTP services are the arguments `Services` and `replies`. Goroutines
-- other than the ones modelled, logging, wiring, encodings on the wire and the other services are
-- left out. Two handlers that run at the same time are not interleaved in the dispatcher: each
-- handler runs as one step. A failure rate is an exact quotient where the code has a float,
-- `sort.Slice` keeps the order of rules of one priority, and the order in which Go walks a map is
-- the order in which its keys were written.
pub mod Billing
pub mod Campaign
pub mod Consent
pub mod Dispatcher
pub mod Handoff
pub mod Identity
pub mod Import
pub mod Pgkv
pub mod Picker
pub mod Prelude
pub mod Telephony
pub mod Whatsapp
