-- ===== src/Lib.antt =====
-- FTRE, a local-first AI coding assistant: its Python gateway and packages, as definitions that run
-- and theorems about them.
--
-- The program. A gateway (src/ftre) starts a plugin kernel; packages under packages/ hold the core.
-- A user's input is admitted to a durable inbox (packages/ftre-inbox), claimed from there by the
-- agent's runtime, and committed to the session's append-only event log (packages/ftre-agent). The
-- runtime calls a model, whose answer is a stream of chunks (packages/ftre-llm); the assembler makes
-- content blocks of it, and a plugin may put another model behind the first one
-- (packages/ftre-llm-fallback) or decide on a retry (packages/ftre-llm-recovery). The agent registry
-- gives each life of an agent an identity, by which hooks are scoped.
--
-- The parts and their files.
-- - Prelude: what all parts share. Tests has the Boolean tests and the class of keys, Lists and
--   Count lists measured by numbers, Order stable sorting, Options chains of results, Dict and Table
--   Python's dicts and sets by text and by number, Map the same by any key,
--   Texts the joining of texts.
-- - Json: JSON documents and the built-ins that read them.
-- - Inbox: packages/ftre-inbox/src/ftre_inbox/models.py in Inbox/Models, with the JSON form of an
--   inbox in Models/Codec, and repository.py in Inbox/Repository, its methods in
--   Repository/Methods under the names of the source. A method is a function from the repository to
--   a result and the repository that is left, also where it raises. The state is the table of
--   inboxes in memory beside the files on disk. The lock, under which every method runs, makes a
--   run of the program a sequence of calls, Repository/History. Message dicts are a type parameter
--   with their codec; whether a session exists and whether a request was seen are parameters, as
--   they are callbacks in the source. Whether the disk refuses writes, by whatever
--   exception, is a part of the state that may change between calls. Left out are a cancellation
--   during a write, load_all, recoverable_sessions and close.
-- - Session: packages/ftre-agent/src/ftre_agent/session/log.py. Session/Value has the Python values
--   that may be handed in and the two traversals of them, Session/Log the log and its queries,
--   Log/Append the methods that commit, Log/Load the reading of a persisted log. The digest (JSON
--   text and SHA-256), str, the clock and random ids are parameters. Subscribers are names, and an
--   append answers whom it tells; what they raise is swallowed in the source. Dicts in values are
--   lists of entries whose keys are taken to differ.
--   Session/Message has the messages and their blocks (packages/ftre-agent/src/ftre_agent/message),
--   Session/Derive the fold of session/derive.py that makes messages of a log: Content for what
--   users write, Chunks for streamed pieces, Messages, Tools and Apply for the events. Its parameter,
--   Reader, holds the Python built-ins and the validation by pydantic that the fold calls; none is
--   what raises. Order and Whole have the proofs. The sequence number -1 for none is 0 here.
-- - Llm: packages/ftre-llm/src/ftre_llm/events.py, the chunks, and block_assembler.py in
--   Llm/Assembler. feed answers what it raises, if anything, and the state that is left.
--   Llm/Assembler/Gathered says by the chunks alone what a stream gives to an index, and has the
--   relation of the streams that are taken and the states they lead to.
-- - Registry: packages/ftre-agent/src/ftre_agent/registry.py. A new object is the next number.
--   Records are values here; where the source hands out the record itself, later calls change it.
-- - Fallback: packages/ftre-llm-fallback/src/ftre_llm_fallback/stream.py. A stream is the list of
--   what it yields and its end. Resolving the name of the other model and preparing the call are one
--   parameter, which may come to nothing; closing the first stream leaves no trace in what the
--   caller sees. An exception stands as the LLMError that it is, or that it is classified as.
-- - Bus: src/ftre/services/messaging/bus/bus.py. Futures are a table of answers, and the coroutines
--   that wait in request_inbound a list; a request is the part of the method before its await, a
--   resumption, by an answer or a cancellation, the part behind it, and Bus/Run has the sequences of
--   both with the other calls. The endless consumers of the queues are left out, and so is a message
--   of another class. Middlewares are functions that do not raise.
-- - Hooks: src/ftre/kernel/hooks/runtime.py, with HookSpec of packages/ftre-agent/src/ftre_agent/
--   hooks.py. Register has register and the disposers, Calls the wrapper around a listener, cut
--   where other code can run, Dispatch the two halves of dispatch, Run the sequences of events.
--   Cordis, a library, keeps and calls the listeners: what it is asked for is part of the answers,
--   and it may call in any order. A listener may end by an Exception or by what `except Exception`
--   does not catch, and a coroutine may be cancelled before its first step; a dispatch is taken to run
--   in an event loop. Registration objects, types, defaults and contexts are numbers.
--   Counted, Next, Agreed and Ranked have the proofs.
-- - Runtime: packages/ftre-agent-runtime/src/ftre_agent_runtime. Completion is completion.py, where
--   others wait for the end of a request; futures and coroutines are as in Bus. Woken and Cache have
--   the proofs. React has the decision and the loop of react_runner.py with the exit of
--   executors/acting.py; the answers of the model, the tools and the hooks, by the number of the
--   step, are a parameter, and the messages written on the way are left out. Ends has the proof.
-- - Compaction: packages/ftre-compaction/src/ftre_compaction/context.py, the view of a compacted
--   context. Anchor has the search for the newest summary, View the rest. Python's str and int and
--   the random ids of new blocks are parameters.
-- - Recovery: packages/ftre-llm-recovery/src/ftre_llm_recovery, config.py and policy.py. Python's
--   texts and floats are parameters. Rules has the proofs.
--
-- Numbers. Sequences, revisions, event numbers and indexes are natural numbers, as the code makes
-- them; Python's integers do not overflow. The loop of the agent runs on fuel, with a bound that is
-- enough; all other loops go over lists.
--
-- Not modelled. The loading of plugins, the turns and the tools of the agent runtime, the service
-- that decides when to compact and the session service are not modelled; HTTP, the command line,
-- process control, model adapters, MCP and web sockets are input and output.
pub mod Bus
pub mod Compaction
pub mod Fallback
pub mod Hooks
pub mod Inbox
pub mod Json
pub mod Llm
pub mod Prelude
pub mod Recovery
pub mod Registry
pub mod Runtime
pub mod Session
