-- ===== src/Lib.antt =====
-- The worker of the v9 serverless platform: a verification library for the program under src/.
--
-- The worker activates components, which are programs that answer calls, each in a process of its
-- own, and passes HTTP requests on to them. A request goes from `global_request_entrypoint`
-- (src/request_handler.rs) to the manager of the components (src/component/mod.rs), which finds the
-- component, boots its process if it has none (src/component/isolation.rs), maybe in a container
-- (src/docker), and exchanges a line for a line with it over two fifos (src/named_pipe.rs). Beside
-- it the statistics of a component (src/component/stats.rs), its log (src/component/logs.rs) and the
-- responses for errors (src/error.rs) are kept.
--
-- Files, by the part of the program:
--   Model              src/model.rs: a record or a data type for each struct and enum
--   Errors             src/error.rs: `Display` is to_string, `Into<Response>` is into_response;
--                      Errors/Router states it for the router
--   Stats              src/component/stats.rs; Stats/Window on the window of events, Stats/Popping on
--                      one push, Stats/Sort, Buckets, Shares and Percentiles on the latency
--                      percentiles
--   Logs               src/component/logs.rs
--   Pipe               src/named_pipe.rs; Pipe/Ends, Lines, Sending, Receiving and Exchange on what
--                      `query` does
--   Docker             src/docker/mod.rs and src/fs_utils.rs; Docker/Idle the cache of
--                      src/docker/idle_container_creator.rs, with its threads in Docker/Idle/Fleet
--   Isolation          src/component/isolation.rs; Isolation/Stopping on the processes of a handle,
--                      Isolation/Lifecycle on when there is one
--   Component          src/component/mod.rs: the table of components, with Table (what it finds),
--                      Active (activation, deactivation, heartbeat, with Active/Laws and
--                      Active/Beats on them), Call
--                      (`handle_component_call`) and Figures (logs and status)
--   Handler            src/request_handler.rs; Handler/Entry its `global_request_entrypoint`,
--                      Handler/Paths and Handler/Routes on the paths of requests, Handler/Colors on
--                      the color after a call
-- Shared by them: Base (tests, lists, texts), Exec (methods that change a state and may fail, with
-- one rule for each way to build one in Exec/Runs), Utf8, Time, Statics (the program's statics), and
-- the interfaces to what is not in the repository: Env (the operating system), Http, Float, Host and
-- Platform (JSON, percent encoding, system figures). Tests has concrete values for all of these.
--
-- A `&mut self` method is a function on the states it changes, and what it wrote before an error
-- stays. A panic is an outcome. A text is the list of its UTF-8 bytes, an instant a number of
-- nanoseconds, and an integer that the source converts or adds in a fixed width has that width
-- written out. A hash map is an association list, whose order the source leaves open. What drops a
-- value drops it there: a process is terminated when its handle goes.
--
-- Loops that wait for a deadline take a bound on their rounds. Of a clock only that it does not go
-- back is assumed (Env.PipeLaws), and a sleep lasts as long as it should: a round of opening a fifo,
-- or of reading one that is empty, takes a nanosecond at least, and any other round moves a byte. So
-- the 10 ^ 10 nanoseconds of a deadline, the bytes of the request and those that the component gives
-- bound the rounds. How long a call of the operating system takes is not bounded by anything, so no
-- deadline is stated as a time at which a query is over.
--
-- Not modelled: src/main.rs and src/server.rs, which start threads and the server; log messages and
-- backtraces; the removal of a pipe's directory; the derived JSON formats, which are the codec of the
-- platform. Requests and heartbeats are taken one after another: calls of different components, which
-- hold the lock of the manager for reading at the same time, are not interleaved. A build that checks
-- integers for overflow is assumed; the counts of packets are added without a width.
pub mod Base
pub mod Time
pub mod Float
pub mod Http
pub mod Model
pub mod Errors
pub mod Stats
pub mod Exec
pub mod Env
pub mod Utf8
pub mod Pipe
pub mod Statics
pub mod Logs
pub mod Docker
pub mod Host
pub mod Isolation
pub mod Platform
pub mod Component
pub mod Handler
pub mod Tests
