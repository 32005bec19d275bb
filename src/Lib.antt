-- ===== src/Lib.antt =====
-- ComputeConnect, a service that places inference requests on compute providers under a privacy
-- tier: a model of its core (Python, src/computeconnect) and the theorems about it.
--
-- The parts. A request carries privacy signals; privacy.py resolves them to one tier. The provider
-- registry (providers.py) keeps a cached snapshot of each provider's health and models, and publishes
-- a change of health to the event bus (buspublish.py). Placement (placement.py) removes the providers
-- that the tier forbids, judges the rest against the workload, ranks those that fit and takes the
-- first. The run registry (runs.py) records a run at the chosen provider, in memory and in an
-- optional journal. The application (app.py) puts these together in its handlers, behind a bearer
-- middleware: a handler decides where a request runs, reads the engine's stream through a queue of one
-- place, sends what it reads, and finishes the run. A configuration file (config.py) declares the
-- providers, and the command line (cli.py) builds the application from it.
--
-- The files and the source:
--   Prelude, Prelude/*       names that the files share: tests, integers, texts, lists, sorting
--   Json, Number             Python values and exceptions; int(v) and float(v)
--   Dict                     a dict in insertion order, as an association list
--   Privacy, Privacy/*       src/computeconnect/privacy.py
--   Engine, Engine/*         src/computeconnect/engines.py: Probing.antt has health and list_models of
--                            LlamaCppEngine, Stream.antt its stream_chat, Conforming.antt what a
--                            conforming server sends, Simulated.antt the other engine
--   Provider, Provider/*     src/computeconnect/providers.py: Registry.antt has the cache entry and
--                            _refresh, Snapshot.antt the registry and its methods
--   Placement/*              src/computeconnect/placement.py: Types.antt its records, Filter.antt
--                            filter_candidates, Judge.antt the loop of select_placement, Rank.antt
--                            and Order.antt the sort keys, Select.antt what follows the loop
--   Runs, Runs/*             src/computeconnect/runs.py: Run.antt, Journal.antt (RunJournal) and
--                            Registry.antt (RunRegistry); Restart.antt has the steps that handlers
--                            make as a relation, and what survives a crash
--   Bus, Bus/*               src/computeconnect/buspublish.py: truncate_reason and publish
--   App, App/*               src/computeconnect/app.py: AppConfig, build_default_config, _int_field,
--                            _BearerAuthMiddleware (Auth.antt), create_app with what the
--                            construction of ComputeConnectAPI raises
--   Wire, Wire/*             the library's json.dumps, for the calls in src/computeconnect/app.py,
--                            and a reader of JSON texts
--   Upstream, Upstream/*     src/computeconnect/app.py: UpstreamStream
--   Control, Control/*       src/computeconnect/app.py: the handlers generate and route_estimate, up
--                            to the response; Queries.antt and RunQueries.antt have health, models,
--                            models_loaded, v1_models, cancel_run and run_metadata
--   Session, Session/*       src/computeconnect/app.py: _emit_generation_placed, _generate_stream
--                            (Generate.antt) and _openai_sse (Sse.antt); Streamed.antt joins the
--                            engine's stream, the queue and the response
--   Chat, Chat/*             src/computeconnect/app.py: v1_chat_completions, its request in Chat.antt,
--                            its completion in Complete.antt
--   Config, Config/*         src/computeconnect/config.py: the providers in Config.antt, the rest in
--                            Load.antt
--   Cli, Cli/*               src/computeconnect/cli.py
--
-- How the code is rendered. An object is a record, a method a function from the record to the new
-- one; where an object is shared, as the bus and the run registry are, it is passed along in the
-- order of the calls. What comes from outside is an argument: clock readings, the ids of uuid4, what
-- an engine answers to a probe, what CPython's int and float read in a text, and str(v) of a value
-- that is no text. Times, quality and speed are floats in the source and whole numbers of
-- ten-thousandths here, so their rounding is not modelled; the numbers of a request may also be
-- infinite or nan. A message that the source formats is a constructor with the values in it, except
-- in the health cache, where the text is built. str.lower() is modelled on A to Z, as far as
-- the texts that the program compares with can tell. Python's sort is a stable insertion sort. The
-- SQLite table is a list of rows with distinct keys. No definition runs on fuel: each loop is
-- structural recursion on the list that the source iterates.
--
-- A handler up to its response is one step: its awaits are the probes of a snapshot, and what other
-- requests do during them is not modelled. What a generating handler meets while it reads its stream is
-- a list of happenings: what the stream's next returns, and that the client goes away or the handler is
-- cancelled. The stream itself is a step relation, whose steps the event loop may take in any order. The
-- operations of the run registry have no await, and interleave in any order.
--
-- More arguments: what httpx answers, how CPython writes a number, the wire form of a rationale, what
-- the engine has put into the sinks for usage and reasoning when the loop has ended, what the file
-- system, json.loads, PyYAML and the environment answer, what sqlite3 raises when the journal is
-- opened, and what argparse makes of the command line.
--
-- A piece of an engine's stream is a JSON value up to the queue, since stream_chat yields what the
-- server sends; the handlers are modelled for pieces that are texts, and Streamed.antt gives a handler
-- nothing to read where a piece is none. A conforming server (Conforming.antt) may send chunks with any
-- other key, without choices, with an empty or missing delta, and with null for any text.
--
-- Not modelled: httpx and what is behind it (the sending of events included), the SQLite connection,
-- locks, the delay between the tokens of the simulated cloud, the forms of to_dict other than a run's,
-- and the routes' dispatch, all of which are libraries, input and output, or plain copies of fields.
pub mod Prelude
pub mod Json
pub mod Privacy
pub mod Engine
pub mod Provider
pub mod Placement
pub mod Dict
pub mod Runs
pub mod Bus
pub mod Number
pub mod App
pub mod Wire
pub mod Upstream
pub mod Control
pub mod Session
pub mod Chat
pub mod Config
pub mod Cli
