-- ===== src/Lib.antt =====
-- A model of EmbedIQ Cloud, the control plane for devices that speak MQTT, and of what makes it
-- correct. The program is a FastAPI application in Python (app/). It has a registry of devices and
-- groups in SQLite, a shadow of desired and reported state for each device, a bridge that consumes
-- the devices' messages, a proxy of the Hawkbit update server, and the endpoints by which the broker
-- authenticates devices.
--
-- How the parts interact. The endpoints and the bridge meet in the database file: each opens a
-- connection, runs one transaction and closes it. The shadow's PATCH and the command endpoints
-- publish to the broker; the bridge sends reports of updates to Hawkbit; the broker asks for the
-- verdict on each login.
--
-- Which file models which part:
--   Db            app/db.py: the tables as lists of rows, `init_db`. Db/Connection is a transaction:
--                 a state monad over the committed file and the work in progress, with exceptions,
--                 in which INSERT checks the primary and the foreign keys. Db/Connection/Keeps says
--                 what a transaction keeps, and Db/Invariant when a file is valid. Db/Threads is the
--                 view of several connections: a thread of single reads, whole transactions and
--                 messages, and the interleavings of any number of threads. Threads in Registry/Devices,
--                 Registry/Groups, Shadow, Ota and Auth/DeviceAuth are the endpoints as threads.
--   Registry      app/registry.py: `Devices` (post_device, get_device, list_devices, patch_device,
--                 delete_device) and `Groups` (list_groups, post_group, delete_group),
--                 `Maintenance` (system_health, system_certs, rotate_certs). Listing is about both
--                 lists.
--   Shadow        app/shadow.py: compute_delta, load_shadow, get_shadow, patch_desired.
--   Bridge        app/bridge.py: route_message and its four handlers, and `_on_message`.
--                 Bridge/Lifecycle is `_on_connect`, start_bridge and stop_bridge, Bridge/Backends
--                 the two backends.
--   Hawkbit, Ota  app/hawkbit.py and app/ota.py: the client of the update server, the proxy's five
--                 endpoints, `device_cmd` and `hawkbit_callback`.
--   Auth          app/auth.py: `RateLimit` (the sliding window), `InternalKey` (the guard of the
--                 internal endpoints), `DeviceAuth` (internal_auth, internal_acl), `Admin`
--                 (login and require_admin).
--   Password, Mqtt, Envelope   the password functions of app/auth.py, app/mqtt_pub.py (with
--                 the client that it keeps in Mqtt/Client), and app/envelope.py with the handler of
--                 HTTPException of app/main.py.
--   Json, Outcome, Prelude     the values of Python's json with dict operations and `==`, the
--                 exceptions, and shared helpers. A SQL table is Prelude/Table.
--   Config        app/config.py: get_settings and its cache, and what is read of the environment.
--                 Config/Classes is the three classes of settings, and `db_path` of app/db.py.
--   Api           app/main.py and the routers: every endpoint behind the guard of its router, with its
--                 status of success. Guarded, Envelopes, Sound and Answered are about all of them.
--   Routes        the decorators of the endpoints, the prefixes of their routers and `include_router`:
--                 a list of methods, patterns and functions. Routes/Patterns is about patterns.
--   Ui            app/ui.py: the template and the context of each page, or its redirect.
--   Lifespan      `lifespan` of app/main.py, from the check of the key to the stop of the bridge.
--   System        the application as a step relation (System/Run): a request that is served, a message
--                 that is consumed, a restart of the process, in any order. System/Invariant is what
--                 holds of every state that is reached from a new file, and System/Answers which
--                 requests are answered there. System/Threads is the messages as threads, and the
--                 requests that work on the file; its child Handlers compares threads with the
--                 functions of their endpoints.
--   Fleet         what the file means to a client: the devices by their ids, without rows or stored
--                 text. Fleet/Refinement is about how endpoints and reports implement it.
--   Scripts       scripts/check_headers.py (Scripts/Headers) and scripts/check_doc_sections.py
--                 (Scripts/Sections), each with what it accepts in its child Sound.
--   Tests         a small file and stand-ins for the libraries, and the theorems run on them.
--
-- How state corresponds. A handler is a function of what it reads (the clock, the salt, the
-- file, the failures of the window) to its answer and what it leaves; the names are the
-- source's. An answer is `returned` or `raised`. In System/Run each call runs whole before the
-- next; in Db/Threads the statements of calls interleave. There a SELECT is one action, since
-- sqlite3 opens no transaction for it, and what runs from the first INSERT, UPDATE or DELETE to
-- the commit is one action, since SQLite lets one connection write at a time; the wait for the
-- lock is taken to be shorter than its timeout. The failures of the window and the cache of the
-- settings are not shared between the threads of that model. Every loop is structural recursion,
-- so no fuel is needed. A time is a natural number: of seconds in the file, as in the source,
-- and of microseconds in the sliding window, where the source has floats.
--
-- What is a parameter. The JSON library is the record `Json.Codec`, bcrypt is `Password.Bcrypt`,
-- PyJWT is `Auth.Admin.Jwt`, the point of influxdb_client is `Bridge.Backends.Points`, the
-- expiry of a certificate is `Registry.Maintenance.Expiry`, how pydantic reads a field of the
-- settings is `Config.Classes.Pydantic`, and how the framework matches a path with a pattern is
-- `Routes.Router`, and which characters outside ASCII are alphanumeric is one of
-- Scripts.Sections; the requests of Api are those that the framework has routed. The Hawkbit
-- server is a function of the calls so far. A call on paho's client is recorded, and a
-- parameter says whether it raises; for the endpoints, it is whether the client takes a message.
-- `Bridge.Ready` is whether the backends can be made. `Api.Host` holds these together, and
-- `Api.Moment` what a request meets of the environment and the clocks.
--
-- What is not modelled: the HTTP framework, with the validation of request bodies, its answers
-- where no route matches, and the static files; the templates and the JavaScript of the admin
-- pages; the shell scripts; the address under which Hawkbit is called; the exceptions of httpx
-- that are neither an HTTPError nor an InvalidURL; and the threads inside paho. Of JSON, NaN,
-- the infinities, lone surrogates and nesting beyond Python's recursion limit are left out, of
-- CERT_WARN_DAYS digits outside ASCII, and certificates that expire before 1970. Of SQLite, the
-- errors of the file system and of locks are left out.
pub mod Prelude
pub mod Json
pub mod Outcome
pub mod Db
pub mod Envelope
pub mod Password
pub mod Registry
pub mod Mqtt
pub mod Shadow
pub mod Hawkbit
pub mod Bridge
pub mod Auth
pub mod Ota
pub mod System
pub mod Routes
pub mod Ui
pub mod Scripts
pub mod Config
pub mod Api
pub mod Fleet
pub mod Lifespan
pub mod Tests
