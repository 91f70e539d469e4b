-- ===== src/Lib.antt =====
-- Gocourier, a notification pipeline: its server, in Go under cmd, internal and pkg, and its dashboard, the
-- TypeScript application under web/src.
--
-- The server takes requests for notifications, stores each once for its key, publishes it to a message
-- broker, and sends it through a provider, with retries and a dead letter queue. Its parts, and the
-- modules that model them:
--
--   internal/domain                  Server/Schema.antt (requests, channels, priorities), Server/Delivery.antt
--                                    (the delivery and its statuses), Server/Routing.antt (subjects),
--                                    Server/Words.antt (texts of Go)
--   internal/ports                   Server/Ports.antt: the calls of the use cases, and programs over them
--   internal/application             Server/Dispatch.antt, Server/Ingest.antt, Server/Outbox.antt,
--                                    Server/Scheduler.antt: one program for each use case
--   internal/adapters/postgres       Server/Postgres.antt (deliveries, keys, attempts),
--                                    Server/Postgres/Queues.antt (outbox, schedule, audit, transaction)
--   internal/adapters/http/server.go Server/Http.antt: `auth`, `handleIngest`, `handleReplay`
--   internal/adapters/providers/mock Server/Mock.antt
--   pkg                              Server/Failures.antt, Server/Breaker.antt, Server/Retry.antt
--   cmd/worker, cmd/api              Server/Workers.antt: programs that run side by side
--
-- The dashboard shows the state of the pipeline and sends notifications to its API, one at a time or as
-- load tests:
--
--   web/src/api/types.ts             Api/Types.antt: unions as enumerations, interfaces as records
--   web/src/api/client.ts            Api/Client.antt (requests and normalizers), Api/Client/Endpoints.antt
--                                    (one function for each endpoint), Api/Result.antt (errors)
--   web/src/lib/loadTest.ts          LoadTest/Config.antt (constants and types), LoadTest/Request.antt
--                                    (`buildRequest`, `buildScenarioRequest`), LoadTest/Run.antt
--                                    (`sendOne`, `runParallel`, `runSequential`), LoadTest/Summary.antt
--   web/src/stores/appStore.ts       Store.antt
--   web/src/hooks/useDashboard.ts    Hooks.antt: the options of the queries, and what a mutation does
--   web/src/components/ops           Ops.antt: a module for each component; Ops/LoadTestPanel and
--                                    Ops/DeliveryDetail have one module for the state and its handlers
--                                    (State), one for the course of a run (Launch), and one for each
--                                    part of the view
--
-- Common.antt has the lists, texts and tests that the modules share, World.antt the browser's random
-- numbers and clock, passed from call to call, Json.antt the values of `JSON.parse` and their printing,
-- Dates.antt what is used of `Date`, Html.antt the elements that a component returns, and Ops/TimeSort.antt
-- the sort by time. Tests.antt has runs of the model at concrete inputs.
--
-- How the server's parts interact. A use case is a program: it has ended, or it makes a call of a port and
-- goes on with the answer. `perform` of Server/Run.antt answers a call from the tables, the broker, the
-- breakers and the providers, and `exec` runs a program alone. `Env` says what the world does at each
-- moment: the clock, the new ids, the provider's reply, and the fault of a call over the network, which is
-- done, or not done, or done with its answer lost. In Server/Workers.antt programs run side by side: a step
-- starts a program for a message, a request or a tick of the publisher, or makes the next call of one, or
-- ends one with its process. A request is stored with its key and its outbox row in one transaction; the
-- publisher hands the row to the broker; a worker claims the delivery by a compare and set of its status,
-- sends it, and writes down what came of it. The broker may deliver a message any number of times, since
-- `consume` starts a program for any message at any time.
--
-- How the dashboard's parts interact. A component is a state, a type of messages with the function that
-- handles them, and a view that names the message of each event. The panel of load tests builds requests
-- with `buildScenarioRequest` and hands them to a runner, whose requests go through the mutation of
-- `useSendNotification` to `sendNotification`; on success that mutation invalidates the summary and
-- selects the delivery in the store. The selected id is the query of the detail panel, and its status is
-- what the pipeline shows. The tables and feeds show the summary.
--
-- `runParallel` is a step relation, `Reach`: its workers claim indices, build, send and await; a step is
-- the arrival of one reply that is awaited, so that every order of the replies is a sequence of steps.
-- `reply i` is the reply to the request of index `i`, and `none` is a rejection. JavaScript runs a worker
-- without interruption from one `await` to the next, and so a step is all that a worker does between two
-- of them. The specification of a run, `Completed`, mentions no order. Between two replies the caller may
-- also read the clock; `timer n` is its n-th reading, in microseconds.
--
-- Bounds and fuel. Numbers are natural numbers: counts, retries and times are whole and not negative, and
-- small enough to be exact in the source's doubles and 64-bit integers; the product in the delay of a
-- retry, which may overflow, wraps around. `Math.random()` is a numerator below 2^53 over 2^53, and
-- `Math.floor(Math.random() * n)` is exact. Printing a number in a radix has fuel: one more than the
-- number, and a number has no more digits than that. Everything else is structural recursion.
--
-- What stands outside. `fetch`, `JSON.parse` and the address of the API are arguments; zustand is a record
-- with its documented merge as law; TanStack Query runs the queries with the options that the model gives,
-- and sonner shows the messages that it gives. The text of a random number in radix 36 is the engine's
-- choice, and the browser's state holds it. Texts are sequences of code points, where the source counts
-- UTF-16 units, which is the same below U+10000. The wording of the engine's own errors is left out, and
-- dates are read in the format of the API (RFC 3339) only. Number inputs give whole numbers,
-- with a sign or without, or nothing.
-- Attributes, texts and classes of elements are kept as they are written; React, Tailwind, the icons and
-- the components that were copied to web/src/components/ui are names in them.
--
-- On the server, PostgreSQL's statements are functions on lists of rows, and one statement, or one
-- transaction, is one step; row locks are left out. JSON that the server prints for itself is a list of
-- fields, and raw JSON in a request is its text. The replies of providers are the world's; the mock is one
-- of them.
--
-- Not modelled: web/src/components/ui and its hook web/src/hooks/use-mobile.tsx, mounting
-- (web/src/main.tsx, web/src/App.tsx) and web/src/lib/utils.ts, which are copied or have no logic; of the
-- server, the reader and routes of the dashboard, connections, configuration, migrations, logs, metrics
-- and traces, and the repositories' operations that no use case calls.
pub mod Common
pub mod World
pub mod Json
pub mod Api
pub mod LoadTest
pub mod Server
pub mod Store
pub mod Hooks
pub mod Dates
pub mod Html
pub mod Ops
pub mod Tests
