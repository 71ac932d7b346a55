-- ===== src/Lib.antt =====
-- DeskHelm: the Bridge between agent hosts (Codex, Claude and others) and the surfaces that watch
-- and drive them (a page, a device, a voice host). The development models, from Python, the parts
-- that decide something; sockets, processes, devices and screens are not modelled.
--
-- The parts and how they meet.
--
-- Protocol (bridge/deskhelm_protocol/model.py) checks every value that crosses a boundary.
-- Protocol/Fields has the field checks (text_field, identity_field, int_field, ...), where
-- `violation` stands for a raised ProtocolViolation without its prose. Protocol/Session,
-- Capability, Request, Shapes, Fact and Command have SessionKey, CapabilityMatrix, OpenRequest, the
-- shapes of a fact's content, Fact.from_dict, and Command with from_dict, to_dict and the text that
-- fingerprint hashes. Protocol/Blanks, Texts, Answering, Accepted, Roundtrip and Sound prove what
-- these checks accept. Json is the value that json.loads gives, Json/Dumps is json.dumps with the
-- styles that the program uses; a float is kept by its repr.
--
-- Core (bridge/deskhelm_core/core.py) is the state machine. Core/State has Core, SessionRecord,
-- Ticket, _Connection, _Receipt, _InFlight and CoreLimits as records; a dict is an association list
-- in insertion order (Dict), a change of an object that a dict holds is `modify` under its key.
-- Core/Frames and Core/Events have what goes out: Send and Close, the frames, the views, the
-- events. One file for each group of methods: Window (the event window of _interaction,
-- _drop_deltas), Actions (_send, _result, _new_id, _interaction, _resolved, _recompute,
-- _set_focus), Tickets (_open_ticket, _turn_terminal), Settle (_settle, _remove_session, _forget,
-- _refuse), Facts (_fact, _effect_result), Plans (_TIER_COMMANDS, _plan_effect), Commands
-- (_command), Clients (_subscribe, _query), Hosts (_hello, _session_open, _host_frame), Machine
-- (connect, receive, disconnect, tick, _finish). A handler that may raise returns an Outcome with
-- the state at the raise. Core/Machine.step is one call by the server and run a sequence of calls.
-- Core/Invariant and its children prove that every handler keeps the limits;
-- Core/Commands/Authority, Scopes, Decisions and Decided say when a command acts; Core/Plans/Grants
-- what is handed to a host, Core/Settle/Receipts what a settled command leaves; Core/Window/Bounds
-- and Deltas are about the window, and Core/Facts/Sequence and Core/Hosts/Sequence are about the
-- numbers of a host's facts. The SHA-256 of a fingerprint is a parameter of the configuration, as
-- are the instance id and the limits; the prose of error frames is left out.
--
-- Wire (bridge/deskhelm_protocol/wire.py) cuts a byte stream into frames. A byte is a number; the
-- conversions between text and bytes and json.loads are parameters (Codec). The loop of
-- FrameDecoder.feed is the structural recursion `scan`, which carries the bytes that find has
-- passed.
--
-- Voice (bridge/deskhelm_voice_host/policy.py, with ConsoleState of
-- bridge/deskhelm_client/connection.py and result_text of bridge/deskhelm_client/texts.py) turns
-- transcripts into commands and console transitions into spoken notices. The calls of the client
-- and of the gateway are a list of calls, their answers are arguments; str.isalnum is a parameter.
-- The registration of callbacks and the skipping of a line by a full speech queue are left out.
--
-- Replica (bridge/deskhelm_client/connection.py) is the client's copy of the console: it takes a
-- snapshot, applies numbered deltas, refuses one of another Bridge or one that leaves a gap, and
-- hands each event over once. Its input is the frame that the core builds; locks, threads, sockets
-- and pending calls are left out. Core/Deltas and Core/Invariant/Resume are about the numbers of
-- the deltas and a client that comes back.
--
-- Transcript (bridge/deskhelm_client/transcript.py) folds the events of one session into items and
-- patches. Transcript has the items, Texts the bounded readings of an event (_identity, _text,
-- _questions, _answers, _one_line), Storage the state with _create, _account, _upsert, _append and
-- _trim, Kinds and Requests the handlers, Fold apply and preview. An item that the source changes
-- in place is stored again under its id. Surface is what the top of that file says of patches; Tidy
-- and the modules of Tells prove that patches tell a surface everything, that the bounds hold, and
-- that each event folds once. The hypothesis `names_tool` excludes a tool without a label of its
-- own, for which the code changes a kind without a patch; the Bridge sends a label with every tool
-- event.
--
-- Gateway (voice/deskhelm_voice/gateway.py, with models.py and streaming.py beside it) is press to
-- talk and speech. Its state has, besides the fields of VoiceGateway, where the capture thread and
-- the playback thread stand. Gateway/Ptt, Speech and Machine have the methods; one step is what a
-- thread does under the lock, with the events that it emits next to it, and run_calls takes calls
-- from outside and steps of the threads in any order. What a provider answers is an argument of the
-- step. Gateway/Capture and Vad are _collect_stream and the voice activity in it, as functions of
-- what the stream and the detector answer. Gateway/Invariant and Keeps prove what holds between
-- steps, Protocol and Follows the order of the events, Closed, Ends and Waiting what ends, Turn and
-- Stopping are about the queue, Contiguous, Spoken and Overheard about captures. The voice activity
-- in a capture is a step of its thread that comes with the observation as it stands; reading the
-- prompt sink, calling it and clearing the key are one step.
--
-- Link (bridge/deskhelm_host/link.py) is a host's connection to the Bridge: the numbers of its
-- facts, the facts that rebuild a session when it opens, the answer to an effect, and the rounds of
-- reconnection with their delays. What a socket and a driver answer are arguments, and so is the
-- jitter of each delay. Link/Accepted puts it together with the core: the frames of one connection,
-- handed to Core/Hosts.host_frames as the objects that they encode, each at its time.
--
-- Time is an argument in milliseconds. All loops are structural recursion, so there is no fuel.
-- Numbers that the program keeps are natural; JSON integers are of Json.ℤ. Examples holds concrete
-- runs.
--
-- Not modelled: the asyncio server around the core, the client's sockets, the sockets, the
-- handshake and the processes of the session hosts, the voice providers, the vendor adapters, the
-- page, the dashboard and the command line.
pub mod Prelude
pub mod Dict
pub mod Json
pub mod Protocol
pub mod Core
pub mod Wire
pub mod Voice
pub mod Replica
pub mod Transcript
pub mod Gateway
pub mod Link
mod Examples
