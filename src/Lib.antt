-- ===== src/Lib.antt =====
-- flowgo-server: the core of the server for flow graphs, modelled from its Go sources.
--
-- The program keeps flows (graphs of nodes) and their groups in CloverDB (internal/store), serves
-- the HTTP and MQTT entry points of the published ones, and lets tools in by OAuth (internal/oauth).
-- internal/store holds the state of a flow: its draft, the live version, the history, the lock and
-- the group. internal/oauth holds clients, authorization codes and refresh tokens in memory, and
-- reads the users of the store. internal/endpoint holds which flow answers at which address and
-- pattern, from the live versions of the store. internal/mqttendpoint holds the MQTT
-- clients of the published flows and of the drafts that an editor has open.
--
-- Files and sources:
--   Prelude, Types, Clover     shared notation; the engine's graph type; a collection of CloverDB,
--                              which is a parameter with laws (Clover.Collection), met by a list
--                              (Clover.Memory)
--   Store.Docs, Store.Backend  the documents and errors; what the store calls outside the repository
--   Store.Exec                 a method as a function of the database to a database and a result
--   Store.Records, Store.Flow  internal/store/flow.go: FlowRecord, flowFromDoc, GetFlow, SaveFlow, ...
--   Store.Publish              internal/store/flow_publish.go: PublishFlow, RollbackPublish, ...
--   Store.Online, Store.Trash  internal/store/flow_online.go and flow_trash.go
--   Store.Group, Store.User    internal/store/group.go and user.go, and ensureAdmin of store.go
--   Store.Ops                  the calls as data, to speak of every history of them
--   Store.GroupOrder           the order of a listing of the groups
--   Store.Usernames, Store.UserCalls   the calls on users as data, and the uniqueness of names
--   Store.WellFormed, Store.Preservation, Store.Spec   invariants and what calls do
--   OAuth.Memory, OAuth.Server, OAuth.Register, OAuth.Authorize, OAuth.Token   internal/oauth
--   OAuth.Calls, OAuth.Keeps   the requests as data, and what each keeps
--   OAuth.SingleUse, OAuth.Pkce, OAuth.Grants, OAuth.Granted, OAuth.Exchange, OAuth.Registration
--                              what they give
--   Endpoint.Config, Endpoint.Manager, Endpoint.Check   internal/endpoint/manager.go and
--                              route_check.go: the tables of servers and routes, and their test
--   Endpoint.Checking          the routes of a graph that passes the check
--   Endpoint.Composite         internal/endpoint/composite.go: HTTP and MQTT together
--   Endpoint.Keeps, Endpoint.Answers, Endpoint.Serving   what SyncFlow keeps, which graph answers
--                              for a flow, and at which routes
--   Endpoint.Routes, Endpoint.Removal, Endpoint.Tracking, Endpoint.Adding, Endpoint.Histories
--                              what removing and adding do to the tables
--   Mqtt.Config, Mqtt.Helpers, Mqtt.Connections, Mqtt.Adding, Mqtt.Sync, Mqtt.Sessions,
--   Mqtt.Manager, Mqtt.Dispatch   internal/mqttendpoint: helpers.go; manager.go, the tables behind
--                              `mu`, addIn and addOut, SyncFlow and SyncDraft; draft_session.go, the
--                              tables behind `sessionMu` and the calls; dispatch.go
--   Mqtt.Calls, Mqtt.Keeps     the calls as data, and what SyncFlow and SyncDraft keep
--   Mqtt.Counting, Mqtt.Keys, Mqtt.Drafts, Mqtt.Closing, Mqtt.Open   counts, and drafts mounted
--   Mqtt.Clients, Mqtt.Unmounting, Mqtt.Registering, Mqtt.Mounting, Mqtt.Live   connected clients
--   Api.Sync, Api.World, Api.Publishing, Api.Flows, Api.Groups, Api.Users
--                              internal/api: the interface
--                              EndpointSync, what a handler works on, flow_publish.go, the first half
--                              of flow_handlers.go, group_handlers.go, user_handlers.go
--   Api.Requests, Api.Access, Api.Serving, Api.Refusals   the requests as data, and what they do
--   Store.Tests, OAuth.Tests, Endpoint.Tests, Mqtt.Tests, Api.Tests   runs on concrete data
--
-- Versions are natural numbers where Go has int, and a login reads its clock once, in whole seconds.
-- A text field that a document lacks reads as the empty text. Calls of the clock, of the random
-- generator and of libraries are arguments. A call of the database may fail at any place, and what
-- was written before it stays written, as in the code. No model needs fuel: the loops are over lists.
--
-- The handlers of internal/api drive the store and the entry points together: they take the entry
-- points as an interface (Api.Sync), whose calls return. A ServeMux panics on a pattern that it
-- cannot take: Endpoint.Manager has that as the end of a call, and net/http ends the request.
--
-- Not modelled: requests and answers as texts, pages and wire formats, what an MQTT broker
-- does, the WebSocket hub, the plugin host, the MCP protocol, and the other collections of the database.
pub mod Prelude
pub mod Types
pub mod Clover
pub mod Store
pub mod OAuth
pub mod Endpoint
pub mod Mqtt
pub mod Api
