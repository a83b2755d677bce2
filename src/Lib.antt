-- ===== src/Lib.antt =====
-- LLM Middleman is a Home Assistant integration that forwards conversation turns to a backend (the
-- custom converse API, OpenAI-compatible servers and others) and streams the reply back. A turn goes
-- from the conversation entity through the adapter of the connection to the backend; the adapter
-- frames the bytes of the reply into events and yields delta dicts; the entity's guard passes them on
-- to Home Assistant's chat log and adds the fallback text where there is no reply.
--
-- Paths are below custom_components/llm_middleman/.
--   Base            Python's texts, bytes, dicts and integers; shared lemmas
--   Json, Error     backends/base.py: JSON values and their narrowing; the exceptions by class
--   Fallible        code that may raise: a result, or an exception
--   Registry        backends/__init__.py: the backends and what each supports
--   Forms           config_flow.py: the fields of a form; Forms/Connection, Forms/Agent: the schemas;
--                   Forms/Accepts: what Home Assistant lets through (`Selectors`); Forms/Types: the
--                   saved values keep their types; Forms/Submitted: what a saved form makes of a
--                   request (Forms/Requests)
--   Stream          generators of deltas, and the loop of an adapter over its events
--   Sse             backends/_sse.py: async_iter_sse; Sse/Ndjson: async_iter_lines; Sse/Utf8: the
--                   decoding of a line; Sse/Reference: the framers' specification on whole streams;
--                   Sse/Wire: how a server writes events
--   History         backends/_history.py: trim_history
--   Replay          backends/_tools.py: replayable_content
--   Reachability    helpers.py: the failure count of a connection, its repair issue, the signals; a
--                   connection is a record, and a history of round-trips and reloads a list
--   ToolLoop        helpers.py: async_run_tool_loop
--   Conversation    conversation.py: _guarded, _turn_context, _async_run_turn, _async_handle_message
--   Backend         backends/base.py: _post_checked, probe_json; backends/_compat.py: the tool deltas
--   Converse        backends/converse.py: the turn of the converse adapter; Converse/Request: its
--                   request
--   OpenAi          backends/openai_compat.py: the turn of the OpenAI-compatible adapter;
--                   OpenAi/Calls: its tool calls; OpenAi/Request: the retries of a refused
--                   request; OpenAi/Turn: a whole turn
--   Ollama          backends/ollama.py: the turn of the Ollama adapter; Ollama/Calls: its tool calls;
--                   Ollama/Turn: a whole turn
--   N8n             backends/n8n.py: the turn of the n8n adapter; N8n/Body: what it says of a JSON
--                   body; N8n/Sniff: how the reply is told apart; N8n/Lines: what a line
--                   of it is to the turn; N8n/Request: its request, the connection probe
--   AiTask          ai_task.py: _async_generate_data
--   Dify            backends/dify.py: the session map and the filter of <think> blocks; Dify/Run and
--                   Dify/Turn: the stream of a turn and its retry; Dify/Tools: the tool activity;
--                   Dify/Request: the inputs, the request body, the connection probe
--   LangGraph       backends/langgraph.py: the stream of a run; LangGraph/Frames: its frames;
--                   LangGraph/Marks: the threads that wait for an answer, the thread map;
--                   LangGraph/Turns: a turn; LangGraph/Request, LangGraph/Probe: its request, the
--                   connection probe
--   Url             the methods of Python's str that the URLs go through
--   ConfigFlow      config_flow.py: the connection step, the re-authentication, an agent's options;
--                   ConfigFlow/Flow: the flow of a connection over its forms
--   Setup           __init__.py: the meaning of a probe for the setup, the migration of an entry;
--                   Setup/Stores: its removal, and the files of its adapter
--   Diagnostics     diagnostics.py: what the diagnostics of an entry say; Diagnostics/Secrets,
--                   Diagnostics/Alike, Diagnostics/Hides: what they must not show
--   Models          the connection probes and model lists of three adapters
--   Messages        _convert_content of both adapters and the messages that they build;
--                   Messages/Images: the images of the log; Messages/Body: the request bodies
--
-- A generator is the list of what it yields and its ending, `finished` or `failed` with an exception;
-- the interleaving of a consumer with the generator is not modelled, since neither reads the other's
-- state in between. A byte stream is the list of its chunks. An exception is its class and what it
-- was raised from; messages and logging are left out. Loops over a list are structural recursion; the
-- tool loop runs on its own cap of ten rounds. The retries of a request run on fuel 4, for
-- three fields can be refused, each once. The filter of <think> blocks runs on one more than the
-- length of its buffer, for each tag shortens it.
--
-- Parameters: Python's `json.loads`, `json.dumps`, `str`, `int` and `float`, `uuid.uuid5` and
-- `uuid.UUID`, `urlparse`, `aiohttp.encode_basic_auth`, the reading of a file, Home Assistant's
-- chat log (`ChatLogApi`, whose rules are `KeepsRoles`) and its registries (`Registries`,
-- with `Documented`), the id of a new subentry, `slugify`, the area of a device, and the reply of
-- aiohttp (`Reply`, `response.json()`). A time of the Dify form cache is in milliseconds. Home
-- Assistant's store of an adapter is what it last saved. aiohttp is taken not to raise an exception
-- class of an adapter's own (`FailsOutside`).
--
-- Home Assistant's form selectors are an interface (`Selectors`) that says which values each one
-- lets through; `async_redact_data` is a parameter (`Redacts`), as are the default prompt and the ids
-- of the registered LLM APIs.
--
-- Not modelled: the registration of entities, which is calls of Home Assistant, and what Home
-- Assistant does with a schema beyond `Selectors`; the background tasks that stop a run which was
-- abandoned, whose outcome nothing reads; a generator that is closed at a yield (`GeneratorExit`); the
-- locks of the stores, since the model runs one operation at a time.
pub mod Base
pub mod Sse
pub mod Json
pub mod Url
pub mod Error
pub mod Fallible
pub mod Registry
pub mod Forms
pub mod Stream
pub mod History
pub mod Replay
pub mod Reachability
pub mod ToolLoop
pub mod Conversation
pub mod Backend
pub mod Converse
pub mod OpenAi
pub mod Ollama
pub mod Messages
pub mod AiTask
pub mod Dify
pub mod LangGraph
pub mod ConfigFlow
pub mod Setup
pub mod Diagnostics
pub mod Models
pub mod N8n
mod Tests
