-- ===== src/Lib.antt =====
-- A verification library for subdollarbench (Rust), a benchmark that lets language models write network
-- servers and judges what they wrote. It models what decides how a run counts: the pipeline, the
-- protocol verifiers, the compliance checker, the prices and scores, and the leaderboard.
--
-- The program's parts. src/pipeline.rs runs a model's agent in a sandbox of src/sandbox and judges its
-- server. src/verifier/compliance.rs scans the workspace for prebuilt servers and web frameworks before
-- the server is started. src/verifier/redis.rs, src/verifier/dns.rs and src/verifier/http.rs then talk to
-- the running server; each has a `run_all` that runs its stages in order and sums them up.
-- src/verifier/mod.rs holds the result of a stage. src/cost/calculator.rs prices the tokens and scores
-- the run, and src/report/leaderboard.rs ranks the saved results. Archive, portal and web server store
-- and show what these return.
--
-- The files.
--   Base, Base/Tests, Base/Lists: shared names, Boolean tests and lists measured by native numbers.
--   Text and its children: `str` and byte operations of Rust's library that the program calls, each
--     a function by clauses: comparing and searching (Search), white space (Space), UTF-8 (Utf8),
--     decimal numbers (Decimal), lines and suffixes (Lines), lengths (Sizes), and where `contains`
--     finds a text (Occurs).
--   Stage: `StageResult`, the summary of a `run_all`, and steps that may end a stage with an error.
--   Redis/Frame: `format_resp_cmd`, `parse_resp_frame`, `is_complete_resp_frame`. Redis/Client:
--     `send_resp_cmd`, `connect` and the pipelined exchange, over a TCP peer. Redis/Session: the
--     interface between connection and stages. Redis/Stages: the four stages and `run_all`.
--   Compliance/Forbidden: the lists of names. Compliance/Logical: `normalize_lines`.
--     Compliance/Segments: `split_command_segments`. Compliance/Tokens: `clean_token`,
--     `is_allowed_local_build_output`, `tokenize_command`. Compliance/Command:
--     `check_daemon_command` and `check_command_segment`, one function for each part of the long
--     second one. Compliance/Files and Compliance/Manifests: `inspect_file`, one function for each
--     kind of file. Compliance/Workspace: `scan_dir` and `check_no_frameworks`.
--   Dns/Query: `build_query`. Dns/Socket: `send_query` over a UDP network. Dns/Stages: the six stages,
--     each as a judge of a reply, and `run_all`.
--   Http/Requests: the HTTP client and the tests of a response that stages share. Http/Stages: the
--     five stages and `run_all`.
--   Config: `TaskType` of src/config.rs. Sandbox: the instance id, the names and the
--     `cleanup` of src/sandbox/docker.rs.
--   Order: comparisons with `then_with`, and the stable sort; Order/Laws and Order/Sort: lemmas on
--     them. Float: the interface to `f64`.
--   Cost: src/cost/calculator.rs. Report/Leaderboard and Report/Language: src/report/leaderboard.rs.
--   Report/Paths: the paths of `std::path` by their components. Report/Archive: `RunArchiver` of
--     src/report/archive.rs over a disk, with its lemmas in Confined, Saved and Listing.
--   Report/Html: `esc` and `redact` of src/report/portal.rs.
--   Pipeline/World: the interface to all that `execute` calls. Pipeline/Phases, Pipeline/Judge,
--     Pipeline/Account and Pipeline/Run: the sections of `execute` in its order, each section a step
--     over the state of the machine. Pipeline/Seed: `hash_seed`. The children called Endings, Checked,
--     Verdicts and Carries carry a condition through each section; the children of Pipeline/Run put
--     them together. Stage/Returns: conditions on what a step returns, and on how it ends.
--   Examples and its children: tests, and instances of the theorems.
--
-- How the code is modelled. A `String` is the list of its UTF-8 bytes; every literal of the modelled
-- code is ASCII, and the scanners for quotes and separators look only at ASCII characters. Integers
-- are natural numbers; sums of `usize` and `u64` that may overflow are taken modulo 2^64, as in a release build,
-- and `as u8` keeps the low 8 bits. A percentage is a fraction. Nested arrays of a reply, reads of a
-- reply and subshells of a command are recursions on fuel: one more than the length of the buffer, the
-- timeout in nanoseconds, and one more than the length of the line. An early return with an error is
-- the `err` of a step, and what a stage changes is an explicit state.
--
-- Numbers of type `f64` are an interface with no laws; a theorem that needs one names it. A rate of stages
-- stays a fraction, so `== 100.0` is exact, and prices are whole multiples of 10^-8 dollars.
--
-- What is a parameter. In the archive: the disk, serde_json, and the detected environment. In the
-- pipeline: docker and what else starts containers, the agent, the load tests, the catalog of prices, what is saved, and the
-- verifiers as one operation, of which a theorem may ask that the summaries are fair. In the
-- verifiers: the server behind a connection, the UDP network, the HTTP client (reqwest), the
-- clock, the debug format of a text, the hexadecimal format, and the ten concurrent queries of
-- DNS stage 6, which are one operation that answers them. Everywhere: Unicode's `to_lowercase`,
-- and serde_json on a list of strings. A workspace is a tree of entries in the order in which
-- they are read.
--
-- What is not modelled: `wait_for_ready` of the DNS and HTTP verifiers and log output of the verifiers,
-- which only wait and print; the cells of the leaderboard's tables; the start of processes and containers; the other
-- reports, the tool normalizer, the web server and the command line.
pub mod Base
pub mod Text
pub mod Stage
pub mod Order
pub mod Float
pub mod Config
pub mod Cost
pub mod Report
pub mod Sandbox
pub mod Pipeline
pub mod Redis
pub mod Compliance
pub mod Dns
pub mod Http
mod Examples
