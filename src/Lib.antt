-- ===== src/Lib.antt =====
-- SoloRT, a serving runtime for one local user: a model of its program, and what is proved of it.
--
-- The program. `core/runtime.py` holds `RuntimeCore`. A request enters by `add_request`: its
-- messages join a session (`core/session.py`), the prompt is tokenised and looked up in the prefix
-- cache (`cache/prefix_cache.py`), and a `Sequence` (`core/sequence.py`) enters the scheduler
-- (`core/scheduler.py`). Each round of `stream_request` takes one `Batch` (`core/batch.py`) from the
-- scheduler, reserves KV pages for it (`cache/kv_cache.py` on `cache/page_allocator.py`), runs the
-- model executor on it and appends the tokens that come back. `core/metrics.py` counts them. A
-- request ends by `_finish_sequence` or `cancel_request`. The server (`api/server.py`) turns an HTTP
-- request into `add_request` and the stream into server-sent events (`api/streaming.py`), which the
-- client (`cli.py`) reads and prints. The layers of a model call the attention of
-- `backends/transformers_flashinfer.py`, which mirrors K and V into the KV cache. The paths are
-- relative to src/solort.
--
-- The files.
--   Prelude and its children: Boolean tests, lists and dicts over the native numbers, exceptions as
--     values (`Result`), methods that may raise on a mutable object (`Exec S A = S -> Result A x S`:
--     what was written before a raise stays written), and a stable sort.
--   Cache/PageAllocator: `PageAllocator`; Invariant, Alloc, Release and History prove its laws.
--   Cache/KvCache: `PagedKVCache`; a block table is a list that the caller owns, so its methods act
--     on the pair of the table and the cache. Paging, Capacity, Slots and Transactions prove its
--     laws; Mirror is the K/V mirror of the arena.
--   Cache/BlockHash and Cache/PrefixCache: `PrefixCache`, its hash chain and its entries, which live
--     in a heap of addresses since a sequence may hold one that the cache has dropped.
--   Cache/VramManager: `VRAMBudgetManager`.
--   Core/Sequence, Core/Batch, Core/Session, Core/Metrics: the modules of the same names.
--   Core/Scheduler: `InteractiveScheduler`; Order, Queue and Prefill prove its laws.
--   Core/Tokenizer: `tokenize_messages` and `_stable_token_id`; Prompts proves its laws.
--   Core/Runtime: the state of `RuntimeCore`, the interface of the executor and `add_request`;
--     Runtime/Execute is `_execute_batch`, Runtime/Finish the end of a request and one round of its
--     stream, Runtime/Requests the loops `stream_request` and `complete_request`, and
--     Runtime/Construction is `build_default_runtime` with the reading of the environment.
--     Requests/Alone, Rounds, Steps, Progress, Ends and Served follow a request that is alone in the
--     scheduler from its entry to its reply.
--   Model/Serving: what `model/executor.py` keeps for a sequence, samples, decodes to text and appends;
--     Model/Draft its draft cache, Model/Round what a speculative round emits, Model/Executor the
--     steps of `TransformersTextExecutor`. The model, the draft model, the tokenizer and torch's draws
--     are the record `Backend`.
--   Model/CudaGraph: the graphs and steps of `CudaGraphQwen3Executor` in
--     `model/cuda_graph_executor.py`; a replayed graph is a step of the record `Runner`.
--   Model/Speculation: `SpecCudaGraphQwen3Executor` of that file; the graph that scores the proposals
--     is a parameter.
--   Api/Json: the values and the writing of Python's `json`, Json/Scan and Json/Loads its reading,
--     which is proved to read back what was written. Api/Events is `api/streaming.py`, Api/Schemas the
--     fields and constraints of `api/schemas.py`, Api/Server the handlers of `api/server.py`.
--   Backend/FlashInfer: `backends/transformers_flashinfer.py`; Masks, Heads and Calls prove its laws.
--   Model/Setup: the KV shape, the chat template, the loading of the draft model and the snapshots of
--     `model/executor.py`.
--   Client/Sse and Client/Chat: `cli.py`, Client/ChatScript `scripts/chat.py` and Client/Bench
--     `benchmarks/bench_serving.py`, both of the repository's root; Sse/Lines, Sse/Payload and
--     Sse/Answer prove that the client reads what the server writes, and Client/Printed joins the
--     client, the server and the runtime.
--   The modules named Examples: runs on concrete states.
--
-- Conventions. A reference to a sequence or a session is its id in the dict that holds it. What
-- `uuid4` and the clock return is an argument, one reading for each call, time in ticks. Texts are
-- lists of code points, ids are strings. A method that mutates its object returns the new one. Loops
-- are structural recursion, except for `blocks_from`, whose fuel is the length of the prompt (each
-- round takes a token at least), `decimal_from`, whose fuel n + 1 is more than the digits of n, and
-- the parser of JSON, whose fuel is twice the length of the text and one (each level and each element
-- takes a character at least). `stream_request` is given a list of rounds, each with what the other
-- tasks did to the runtime before it, since the loop awaits after each round; that enough rounds end
-- it is a theorem.
--
-- Not modelled: tensors and floats (a row of K or V is a list of bit patterns, a quotient is kept as
-- its two parts, a sampling option as a decimal, a float in JSON is its text), the kernels and the
-- capture of graphs, the loading of models, what FastAPI, pydantic, argparse and urllib do around the
-- modelled functions, the encoding of texts as UTF-8, and the scripts that time kernels.
-- blake2b's digest, the executor that the runtime calls, the kernels of flashinfer and
-- torch, torch's conversion of a row to the dtype of the KV cache, Unicode's digits, Python's `repr`
-- and the safe fraction of the VRAM are parameters.
pub mod Prelude
pub mod Cache
pub mod Core
pub mod Model
pub mod Api
pub mod Backend
pub mod Client
