-- ===== src/Lib.antt =====
-- The provisioning services of the repository: a subscriber registers for realms and topics, and
-- gets the changes of UDM objects as messages, after a prefill with the objects that are there
-- already.
--
-- The parts, and the files that model them:
-- Base: Python's tests, and coroutines as functions `S → Result A × S` of the world outside, which
--   comes back beside an exception, too (Base/Exec); what a coroutine may do as a relation of
--   worlds (Base/Steps).
-- Models: the pydantic models of src/univention/provisioning/models. Json has the values of
--   `json`; Pydantic has the conversions of pydantic that the models rely on. A datetime is kept
--   by its ISO text.
-- Nats: the calls on the NATS server and its documented behaviour, as parameters: `KeyValue` and
--   `JetStream` are the calls, `IsKeyValue`, `IsJetStream` and `IsJournal` what is documented of
--   them. The server of `IsJournal` may fail at any call.
-- Adapter: src/server/adapters. Kv has `NatsKVAdapter`, Mq `NatsMQAdapter`, Rest `UDMAdapter` and
--   `InternalAPIAdapter` over the calls of an HTTP session. Kv/Watch has the watch on the
--   subscriptions, Mq/Push the messages that the server pushes, and both the connections.
-- Ports: the ports of the services, src/server/services/port.py,
--   src/server/core/dispatcher/port.py, src/server/core/prefill/port.py,
--   src/udm_transformer/port.py and provisioning-listener/provisioning_listener/port.py: their
--   connections, and the calls that they pass on. The services call the adapters directly.
-- Services: src/server/services. Subscriptions and Auth have `SubscriptionService`, Messages has
--   `MessageService`; `Backend` gathers what they assume of the servers. The flags of finished
--   prefills are state of the process, beside the world outside (`Process`). Registry has the map
--   of names to subscriptions and passwords that `SubscriptionService` stands for, as an abstract
--   specification.
-- Dispatcher: `DispatcherService` of src/server/core/dispatcher; a set of subscriptions is a list
--   without repetition. Loop has `dispatch_events`: the pushed messages, the updates of the watch,
--   the rounds of the loop and what other processes do are a sequence of happenings in any order,
--   over the world, the message queue and the mapping of the process.
-- AckManager: src/server/utils. The handler and the extension of the acknowledgement are two
--   tasks; a schedule says how they interleave. For the dispatcher the handler is the list of its
--   parts, and Parts has what it does by them. For the prefill service and the transformer
--   (Interleaved) the schedule goes along with the world, and extensions come before any call of a
--   server that the handler waits for. One that raises cancels the handler in front of that call.
-- Prefill: `UDMPreFill` of src/server/core/prefill.
-- Api: the handlers of the routes in src/server/core/app. They call the services.
-- Transformer: src/udm_transformer, the controller and the service; UDM itself is a parameter.
-- Listener: the handlers of provisioning-listener/provisioning_listener.
-- Consumer: `MessageHandler` of src/univention/provisioning/consumer/api.py and the requests that
--   it makes; Client has the other requests, Example the example client of
--   consumer/example_client/main.py.
-- Journey: the way of a message through the API's service, the incoming queue, the dispatcher and
--   the queue of a subscription.
-- Memory and Examples: servers in memory that meet what is assumed, and the theorems at concrete
--   data.
--
-- A change goes from the listener to the transformer, and from there to the API, which publishes
-- it to the incoming queue; the dispatcher copies it to the queue of each subscription; a
-- subscriber takes it from there by the API. A new subscription that asks for a prefill sends a
-- request to the prefill service, which fills a second queue and reports its status by the API;
-- the messages of that queue are given out first.
--
-- Loops: those over lists are structural. The loop of the dispatcher goes as far as its
-- happenings. `check_subscription_status` has fuel for two rounds more than the seconds of its
-- timeout, which is enough since each round sleeps for a second. `run` of the consumer takes the
-- number of its polls, and as many as the limit are enough where each gives a message. The loops
-- of the prefill service and of the transformer (`serve_requests`, `serve_changes`) go as many
-- rounds as there are schedules of their extensions.
--
-- Not modelled: logging, but for what the example client shows; settings from the environment, the
-- start of the processes, FastAPI's routing and validation, the abstract adapters and the
-- listener's own copy of the NATS adapter, which have nothing to run or nothing new; the images
-- and the charts. A call that is cut off by the server, and an update of the mapping between two
-- parts of a message, are taken as before or behind the whole: the handler reads the mapping once,
-- before it sends. passlib, cachetools, `re`, aiohttp, argparse, difflib and UDM are parameters.
pub mod Base
pub mod Models
pub mod Nats
pub mod Adapter
pub mod Services
pub mod Memory
pub mod Examples
pub mod Dispatcher
pub mod AckManager
pub mod Prefill
pub mod Api
pub mod Transformer
pub mod Consumer
pub mod Journey
pub mod Listener
pub mod Ports
