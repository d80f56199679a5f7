-- ===== src/Lib.antt =====
-- SwayBot: an agent that perceives, thinks, acts and observes in a loop, with a memory of steps, a
-- registry of tools under a permission policy, guards against loops and unsafe commands, storage
-- backends, goals that are worked off subtask by subtask, a scheduler of jobs, and a director that turns
-- the open questions of the memory into experiments.
--
-- The parts and their files (paths from the repository's root):
--   LoopGuards  swaybot/loop_guards.py: `validate_thresholds`, RepeatCallGuard (Repeat), and
--               NonConvergenceGuard (Convergence); Json/Sorting is `_sort_value`.
--   Security    swaybot/permission.py (Permission), swaybot/guards.py (Commands, and `resolve` of
--               Shell), swaybot/tools/shell.py (Shell), swaybot/violations.py (Violations,
--               JsonStore).
--   Memory      swaybot/memory.py: Steps, Store, Queries and Relevance, Compaction (AutoCompact).
--   Tools       swaybot/tools/__init__.py: Schema (`Tool`), Registry (`ToolRegistry`), Batch
--               (`execute_batch`); swaybot/tools/todos.py: Todos (the task list).
--   Agent       swaybot/task_state.py (Environment), `_allowed` and `_execute_action` (Actions) and
--               `_run_body` (Loop) of swaybot/agent.py, `ContextBuilder.build` of
--               swaybot/perception.py.
--   Storage     swaybot/storage.py: InMemory, Files (the directory), JsonFile, JsonLines.
--   Goals       swaybot/goals/coordinator.py: Goal, Machine (`GoalStateMachine`), Coordinator.
--   Scheduler   swaybot/goals/scheduler.py: Job (schedules, the next run), Engine (the operations and
--               the pass of the loop, as steps on a store of job objects).
--   Evolution   swaybot/evolution.py: Questions (`open_candidates`, `_set_status`), Protocol (prompts,
--               answers, verdicts), Weighing, Director (`cycle`), Life (LifeRunner), Soul (SoulChannel).
--   Bus         swaybot/events.py (Subscriptions), swaybot/bus.py (Messages), swaybot/session.py
--               (Sessions, over the interface `Streams`, which the in-memory backend fills).
-- The other files of a folder hold what is shown of it, and its Tests the runs on small inputs.
-- Prelude has the lists, texts, dictionaries, floats and results that the parts share.
--
-- The loop of Agent/Loop asks the brain, checks the action by Security/Permission, calls Tools/Registry,
-- and writes the pair of steps to Memory/Store, which Memory/Compaction shortens. Goals/Machine stands on
-- the interface `Backend` of Storage/Records, which Storage/InMemory fills. Evolution/Director reads and
-- writes the same Memory/Store through Memory/Queries. What the program calls and
-- does not contain (`json`, `str.split`, `shlex.split`, `Path.resolve`, the model, the clock, the
-- comparison of floats) is a parameter; the world that tools change is a type `W`.
--
-- The loop of a run has a fuel of the step limit and 1, which is enough, since every step counts up to the
-- limit and a limit of 0 lets one step through. The loop of a life has a fuel, since it may go on for
-- ever; Evolution/Life says when three turns are enough. All other loops are structural.
--
-- Not modelled: the exceptions of the director where `min_open` is 0 and nothing is open, where the
-- brain gives a number for its sub-questions, and where the arguments of a final answer are true but
-- no object; what a summarizer does to the world; threads, locks and time-outs in seconds, the texts
-- that a model is shown, streaming, planning and reflection round the loop, the waits of the
-- scheduler, the rendering of the director's files, the command line and the HTTP interface, network
-- clients, benchmarks. Numbers of Python are naturals where the program keeps them from going below 0
-- (the running counts of the scheduler are integers), and floats are any type with IEEE comparison.
pub mod Prelude
pub mod Json
pub mod LoopGuards
pub mod Security
pub mod Memory
pub mod Tools
pub mod Agent
pub mod Storage
pub mod Goals
pub mod Bus
pub mod Evolution
pub mod Scheduler
