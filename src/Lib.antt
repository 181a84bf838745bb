-- ===== src/Lib.antt =====
-- Verification library of snake_arena, a competition of programmed snakes.
--
-- Users write agents and submit them. A builder makes an image of an agent; the orchestrator claims
-- match jobs from a queue in the database and hands them to the runner, which starts one container
-- per agent, plays the match, and kills the agents that use more time than they may. The parts meet
-- in the tables of the database and in the events that the simulation sends to its observers.
--
--   Prelude          names of the libraries, Boolean tests, lists, dicts, integers, results
--   Runner.Budget    services/runner/runner/agent_container_manager.py, `AgentContainerManager`:
--                    Data is its state, Cycle what one event does to one seat, Handlers the
--                    handlers `notify_start`, `notify_decision`, `notify_step` and a round of
--                    `_poll_loop`, Setup `set_agent_containers` and the accessors; Spending and
--                    Courses follow one seat through the events of a match
--   Runner.Cgroup    `_read_cpu_ns` of the same file
--   Runner.StepLog   services/runner/runner/match.py: `_StepLogStreamer`, `_split_step_logs`,
--                    `_tail_log` and `_dev_step_logs`
--   Runner.Match     services/runner/runner/match.py and router.py, `run_match`: Docker is the calls and
--                    the exceptions, Router the way back to the daemon, Ready the waits, Console the
--                    logs, Args the command line, Play the match, Cleanup its `finally`, Sweep
--                    `sweep_orphan_resources`; Keeps and Resources serve the proofs
--   Runner.Results   services/runner/runner/match_results.py
--   Db.GuestSessions services/sa_common/sa_common/db/guest_sessions.py
--   Db.Rows          UPDATE, DELETE, COUNT and ORDER BY on a table, which is the list of its rows
--   Db.MatchJobs     services/sa_common/sa_common/db/match_jobs.py
--   Db.TestJobs      services/sa_common/sa_common/db/test_match_jobs.py
--   Db.Projects      services/sa_common/sa_common/db/projects.py, and in Builds `build_project` of
--                    services/builder/builder/build.py
--   Db.Quotas        services/sa_common/sa_common/db/quotas.py
--   Types            services/sa_common/sa_common/types.py: `SimArgs` and `ParticipantRow`
--   Scoring          services/sa_common/sa_common/scoring.py; Numbers is the interface of its floats
--   Db.Matches       services/sa_common/sa_common/db/matches.py
--   Db.AgentScores   services/sa_common/sa_common/db/agent_scores.py: the rows that count, and in
--                    Aggregate `compute_mode_scores`, in TestScores `score_test_match`
--   Db.Leaderboard   services/sa_common/sa_common/db/leaderboard.py
--   Orchestrator.Matchmaker   services/orchestrator/orchestrator/matchmaker.py, `pick_match_group`
--   Orchestrator.Matchmaker.Queries   the queries of the same file
--   Orchestrator.Agents       services/orchestrator/orchestrator/agents.py
--   Orchestrator.MatchPolicy  services/orchestrator/orchestrator/match_policy.py
--   Orchestrator.RunnerDaemon services/orchestrator/orchestrator/runner_daemon.py
--   Orchestrator.TestRunner   services/orchestrator/orchestrator/test_runner_daemon.py
--   Orchestrator.Scheduler    services/orchestrator/orchestrator/scheduler_daemon.py
--   Api.RateLimit             services/api/api/rate_limit.py, the quotas on redis
--   Api.TestMatches           services/api/api/routers/test_matches.py, the requests for test matches
--
-- How the code is read. An operation is a function from the state to the state and its result, by
-- the source's name; an exception is a value that carries the state in which it was raised. A
-- handler of the budget manager holds the manager's lock, so it is one step, and a match is a list
-- of such steps in any order. Times are the whole nanoseconds that the code keeps; the busy ratio is
-- compared by whole numbers, without the float division, and what is only divided for display is
-- kept undivided. A request is one step on the tables, and an error of the API is a value. A SQL statement is one step on the rows; `NOW()` is an argument. JSON, archives and
-- image tags are only stored and compared, so strings and numbers stand for them. Console output is
-- a list of bytes, and `decode` is the identity on it.
--
-- A match is a computation with the calls that it makes of docker, of the clock and of its callbacks.
-- Each call is answered by a function of the calls before it, which may raise; the exceptions are the
-- classes that the handlers tell apart, with the interrupt. Texts of a match are lists of codes.
--
-- Scores are floats in the code. Here they are numbers of any type with the operations and the laws of
-- Scoring.Numbers: a total order, and rounded operations that are monotone and exact at 0 and 1 on the
-- values that occur. NaN is left out: JSON and the sums and quotients of the code do not make one. How `str` and pydantic write and read an
-- int is an argument, too.
--
-- Fuel. Two loops are on fuel. In `drain`, the streamer's search for separators, each round takes at
-- least the separator from the bytes at hand, so one more than their number is enough. In the wait
-- for the agents, all but the last round for an agent sleep for a tenth of a second, so for each agent
-- ten rounds a second and one more are enough on a clock that does not go back.
--
-- Not modelled: what docker does, redis, HTTP, the front end, the agents' harnesses and the
-- simulation itself, which is another program. The content of a cgroup file, the clock, the events
-- of the simulation and its analysis, the outcome of a build and of a match, random numbers and redis
-- are arguments. The scheduler takes the matchmaker's queries as an argument; Queries says what they
-- answer. Of what can raise in an iteration of the runners, the preparation before its `try`, the
-- match, the closing of the observer, the analysis and the set-up are modelled, with an interrupt in
-- the match, the closing and the analysis; errors of the database are not, nor an interrupt elsewhere,
-- nor invalid arguments of a mode in the scheduler. The clean-up of the sessions is alone on its
-- tables. Of the API the rate limits and the requests to enqueue, cancel, pin and read a test
-- match are modelled, not requests that overlap, and of the daemons the iterations of the scheduler
-- and of the two runners.
pub mod Prelude
pub mod Api
pub mod Db
pub mod Orchestrator
pub mod Runner
pub mod Scoring
pub mod Types
