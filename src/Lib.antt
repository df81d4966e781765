-- ===== src/Lib.antt =====
-- The Python tools of envoy-modsecurity that decide and demonstrate the OWASP CRS compatibility of
-- the Envoy filter and measure it, with the theorems that make them correct.
--
-- tools/crs-compatibility-report.py runs go-ftw against Envoy, decides from its result file whether
-- the run qualifies and writes a report. Report.antt and its children model it:
--   Report/Results: the result file and `result_test_ids`, `summarize_test_ids`.
--   Report/Qualification: `qualification_failures`, with the list of checks as data and the texts as
--     `message`; Accepted states what a run has to satisfy, Checks and Decides relate the two, and
--     Complete says what a full run without failures has shown.
--   Report/Rows: `result_rows`, the table of counts by phase and category; Steps, Counts, Order.
--   Report/Failures: `classify_failures`; Meaning relates its lists of rules to the stages in which
--     rules fired, Classes its classification to them.
--   Report/Timing: `percentile`.
--   Report/Summary: the totals and the table of traffic sides of `write_report`; Sides.
--   Report/Markdown: `write_report` section by section, and `format_duration`; Table reads the table
--     of rule files back from the text and Missing that of missing rules, Failed has the sections after
--     it, and Frequent relates the tables of Counter.most_common
--     to the failed tests.
--   Report/Run: `run` as the statements that may raise, the processes they start and the exit
--     status; Ends says what the status shows, Released what is left.
--   Report/Corpus: how the files of the test corpus are read. Patterns has the regular expressions,
--     Metadata `create_rule_index`, `input_profile` and `create_test_metadata`, Overrides
--     `parse_upstream_override_ids`, Retries `prepare_test_corpus`; Block reads back a list of
--     numbers, and Written, RuleLine and Found a file with its tests.
--   Report/Versions: `dependency_versions`; Pins reads back what is written.
--   Report/Envoy: `wait_for_http`, `wait_for_envoy_admin`, `discover_listener_port`.
--
-- tools/owasp-crs-lab.py is a web UI on 127.0.0.1 that sends the user's requests through Envoy to an
-- echo server. Lab.antt and its children model it:
--   Lab/Errors: the exceptions that are raised and caught, and the result of a call.
--   Lab/Request: `validate_request`; Headers and Safe say what it lets through.
--   Lab/Outgoing: the headers that `LabRuntime.execute_request` sends.
--   Lab/Access: `LabRuntime._wait_for_access_entry`; Clock reads the clock before every round.
--   Lab/Execute: `LabRuntime.execute_request`; Answered says what it has sent and read.
--   Lab/Upstream: `EchoUpstreamHandler`; Reached composes it with `execute_request` through Envoy.
--   Lab/Concurrent: the calls of `execute_request` on the threads of `LabHttpServer`, which share
--     the access log, as a step relation; Spec has a log for each call, Refines relates the two, and
--     Own says which entry a call reports.
--   Lab/Api: `LabRequestHandler.do_GET` and `do_POST`; Guards says what an answer
--     shows, Unanswered which requests get none.
--   Lab/Config: `LabRuntime.write_crs_config`; Includes reads back the files it includes.
--   Lab/Bootstrap: BOOTSTRAP_TEMPLATE and `LabRuntime.write_bootstrap`; Filled.
--   Lab/Page: the script of HTML_PAGE, `parseHeaders`, `renderResult`, `addHistory` and
--     `sendRequest`, as a function on events; Headers, Invariant.
--   Lab/Lifecycle: `LabRuntime.start`, `serve`, `stop` and `main` as steps on the resources that are
--     held; Started says what the start has taken, Release what the stop leaves.
--   Lab/Envoy: `LabRuntime._wait_for_admin` and `_discover_listener_port`.
--
-- tools/qualification-benchmark.py measures workloads and checks thresholds. Benchmark.antt and its
-- children model it:
--   Benchmark/Workload: `one_request`, `percentile`, `run_workload`; Expected says which responses
--     are accepted, Latency how the reported latencies are ordered.
--   Benchmark/Violations: the checks of `main` on the measured values; Within.
--   Benchmark/Main: `main` as the statements that may raise, with the loads, the resources and the
--     exit status; Ends.
--   Benchmark/Envoy: `wait_for_admin`, `listener_port`, `zero_modsecurity_gauges`; Gauges.
--   Benchmark/Markdown: `write_markdown`; Verdict relates its verdict to the exit status.
--   Benchmark/Usage: `process_rss_bytes` and `process_cpu_seconds`; Status.
--
-- What the three tools share, each with a text of its own:
--   Admin: the wait for Envoy's admin address and the search for its listener; Ready, Listing, and
--     Clock, where the wait reads the clock before every round.
--   SecLang: `seclang_path`, and `write_crs_config` of the benchmark; Includes.
--   Process: `stop_process`, and the resources that are held.
--
-- Prelude.antt and its children hold what the parts share: tests, equality, lists, sets, sorting,
-- dicts and text as the tools use them of Python (Counter and Replace for `collections.Counter` and
-- `str.replace`), lists of statements that may raise, and loops with a deadline (Deadline). A text
-- is the list of its code points, since the tools read lone surrogates from JSON. A dict is its list
-- of items in insertion order.
--
-- What the tools read from outside is a parameter: the result file of go-ftw, the metadata of the
-- CRS tests, the state of Envoy, its replies and its logs (`World`, `Poll`, `Outside`), Envoy
-- between the lab and its upstream (`Proxy`), the clock, the token, the ids of requests (`uuid4`,
-- distinct where a theorem says so), and of Python `str.upper`, `str.lower`, the digits of `\d`,
-- `int` on a text, `json.loads`, the decoding of a body, the formats of floats and the encoding of
-- JSON. A fraction of a length, `int(n * f)`, is a function on ℕ, with no assumption on it except
-- where a theorem states one. The benchmark's floats are any type with the operations that are used.
--
-- A loop with a deadline is modelled twice: as a recursion on the rounds that begin before the
-- deadline, and by the clock, with fuel for its tests. Times are in nanoseconds. On a clock that does
-- not run back (`IsClock`) a round with its sleep takes at least the pause, so a wait of 2 s with a
-- pause of 20 ms needs no more than 101 tests of its condition, one of 30 s with 50 ms no more than
-- 601, and the others in proportion; the fuel is that number. No other loop needs fuel.
--
-- Not modelled: the Envoy filter in C++ (source/) and its API; argument parsing; of the page, the
-- elements that only show values (`renderRules`, the presets, the elements of the history, the
-- status line); of the report's run, the texts that it writes into files for Envoy and go-ftw and
-- the commands that it runs; and the upstream of the benchmark, whose reply is a constant.
pub mod Prelude
pub mod Process
pub mod Admin
pub mod SecLang
pub mod Report
pub mod Lab
pub mod Benchmark
