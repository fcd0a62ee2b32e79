-- ===== src/Lib.antt =====
-- BunkerWeb MCP server (src/bunkerweb_mcp/): a server that lets MCP clients call tools on the HTTP
-- API of a BunkerWeb control plane. This library models its own logic in Python and proves what
-- makes the parts correct.
--
-- The parts and how they interact:
-- * A request names a tool and gives it arguments. src/bunkerweb_mcp/tools/ runs it against the
--   control plane and src/bunkerweb_mcp/redaction.py masks secrets in what it returns, and refuses
--   calls that would send a placeholder back. Redaction.antt has the policy and the masking,
--   Redaction/Pattern.antt the default expression, Redaction/Cache.antt the cache files,
--   Redaction/Placeholder.antt the scan for placeholders, Redaction/Calls.antt the checks on calls
--   and results. A policy's pattern is what `pattern.search` answers, so that the theorems hold for
--   every expression that the environment may set.
-- * src/bunkerweb_mcp/upstream.py (Upstream.antt, Upstream/Facts.antt) knows the version of the
--   control plane and its settings, and keeps both for a time. The two module dicts and the
--   generation counter are one record `Facts`, passed along; the clock is a number of ticks given
--   to each step, and requests in flight are two steps, the start and the end, so that any
--   interleaving of tasks is a list of steps.
-- * src/bunkerweb_mcp/tools/service_writes.py (ServiceWrites.antt, ServiceWrites/Preflight.antt,
--   ServiceWrites/Receipt.antt) sorts what `update_service` was asked to change into what is sent
--   and what is skipped, and compares the stored service with it afterwards. What the control plane
--   answers is an argument of these definitions.
-- * src/bunkerweb_mcp/rate_limiter.py (RateLimiter.antt) bounds the messages of each connection.
-- * src/bunkerweb_mcp/cache.py (Cache.antt) keeps answers for a time; the in-memory backend of
--   aiocache is an interface with laws.
-- * src/bunkerweb_mcp/main.py takes the requests: Server.antt has the token check and the readiness
--   probe, Server/Rpc.antt the endpoint /rpc, Server/Socket.antt a WebSocket connection as the list
--   of its messages, each with the time at which it is read. The registry's `get_tool` is a field of
--   the record `App`, as are the tools of the FastMCP server.
-- * src/bunkerweb_mcp/client.py sends the requests. Client.antt has requests, answers and the retry
--   loop of `_request`, Client/Segment.antt the path segments, Client/Nodes.antt, Client/Bans.antt
--   and Client/Resources.antt the endpoints. What each attempt at a request gets, and what pydantic
--   makes of a payload, are fields of the record `Client`.
-- * src/bunkerweb_mcp/tools/registry.py decides which tools are offered, wraps their handlers with
--   redaction and maps their exceptions: Registry.antt, with its tables in Registry/Effects.antt and
--   Registry/Descriptions.antt. The handlers are an argument, at the state of one call.
-- * The other handlers of src/bunkerweb_mcp/tools/ join these parts. Handlers.antt has what they share:
--   the record `Env` (the client, pydantic, the setting CACHE_ENABLED and the times of a call), the
--   record `State` (the response cache and the fact caches of upstream.py), reads through the cache
--   and mutations. Handlers/Params.antt has tools/params.py, and Handlers/Services.antt,
--   Handlers/Instances.antt, Handlers/Bans.antt, Handlers/Configs.antt, Handlers/Files.antt (the
--   control plane's cache files), Handlers/Plugins.antt and Handlers/Jobs.antt (with the core tools)
--   the handlers. Handlers/Keys.antt has the cached reads with their keys, Handlers/Calls.antt
--   sequences of calls. Within a call no other task runs.
-- * src/bunkerweb_mcp/tools/diagnose_handlers.py checks the control plane: Diagnosis.antt.
-- * src/bunkerweb_mcp/tools/log_handlers.py reads local log files: Logs.antt has the files that may
--   be read and the listing, Logs/Encoding.antt bytes and UTF-8, Logs/Window.antt the window of bytes
--   before a cursor, Logs/Select.antt the lines that match and those that fit, Logs/Pages.antt the
--   page. What the file system answers is a record, and `str.casefold` is an argument.
-- * src/bunkerweb_mcp/mcp_adapter.py gives these tools to the MCP server of the SDK, with prompts and
--   resources: Adapter.antt, where a server is the list of what was added to it.
-- * src/bunkerweb_mcp/skill_catalog.py reads the skills that are served as resources: Skills.antt,
--   over a list of directories.
-- * src/bunkerweb_mcp/exceptions.py is Errors.antt: code that may raise returns a `Result`, and
--   other exceptions are `other_error` with their text. A `BaseException` that is no `Exception`,
--   such as the CancelledError of a task that is stopped, is none of them.
-- Json.antt has the values that pydantic and json produce: dicts are lists of entries in insertion
-- order, floats are kept by their repr. Base64.antt has the codec of the standard library that the
-- sources call. Prelude.antt and its children have the shared names, list and text lemmas.
--
-- Bounds and fuel: Python integers are unbounded, as ℕ and ℤ are here, so nothing wraps. Decimal
-- printing has fuel, n + 1 steps for the number n, which has at most n + 1 digits, and so has the
-- reader that follows the cursors of a log file, of which one read more than the file has bytes is
-- enough where lines are short. The retry loop counts the attempts that are left, as
-- `stop_after_attempt` does. Every other recursion is structural.
--
-- Not modelled: the construction of the ASGI application, logging, metrics and tracing, the
-- embedded documentation and the prompts, which are input and output around these parts; the
-- waits between attempts; the settings and the bounds on parameters that pydantic checks from
-- declarations; the cancellation of a call; the limit of 4300 digits that `int` has.
pub mod Prelude
pub mod Json
pub mod Base64
pub mod Errors
pub mod Upstream
pub mod Redaction
pub mod ServiceWrites
pub mod RateLimiter
pub mod Client
pub mod Registry
pub mod Server
pub mod Cache
pub mod Logs
pub mod Handlers
pub mod Diagnosis
pub mod Skills
pub mod Adapter
