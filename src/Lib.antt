-- ===== src/Lib.antt =====
-- wb_server: a model of the C++ server framework in wb_server/, with the theorems that make it
-- correct.
--
-- The program has a logging system (wb_server/log.h, wb_server/log.cc), a registry of typed
-- configuration variables that YAML documents set (wb_server/config.h, wb_server/config.cc), and
-- fibers with a scheduler. The parts meet in one place: the variable `logs` holds the definitions of
-- the loggers, and its listener rebuilds the loggers when a document changes it; the configuration
-- code in turn logs through the root logger.
--
-- Common: texts as lists of bytes, tests on numbers, lists, sorted sets, and the store that an
--   address is looked up in. Yaml: the interface of yaml-cpp, a parameter of whatever uses it; what
--   it promises is in Yaml.Laws, and Yaml.Coded is an implementation that keeps the promises.
-- Log.Level and Log.Event: `LogLevel`, `LogEvent`. Log.Pattern: the loops of `LogFormatter::init`;
--   a position in the pattern is the rest of the pattern from there on, and the outer loop recurs on
--   its length, so it needs no fuel. Log.Formatter: the table of directives and `format`.
-- Log.World: loggers and appenders at addresses, since they are shared through pointers, and what
--   has been written. Log.Appender, Log.Logger, Log.Manager: the functions of the classes of these
--   names, under the source's names; Log.Export: their `to_yaml_string`. A call through a null
--   pointer is the result `fault`. `log` calls itself on the root, so it takes fuel; two is enough
--   in every state that can be reached.
-- Log.Define: `LogDefine`, the set of them, its conversion from text (Log.Define.Parse) and to text
--   (Log.Define.Print). Log.Listener: the lambda in `LogIniter`.
-- Config.Var: `ConfigVar`; the conversions and the callbacks may throw a `std::exception`.
--   Config.Cast: `LexicalCast` of the six containers, over any conversion of the elements.
--   Config.Registry: `Config::lookup` and `Config::Visit`; the types of the variables are a
--   parameter with a decidable equality, for `dynamic_pointer_cast`, and the order of an
--   `unordered_map` is one of `Visit`. Config.Load: `list_all_menmber` and `load_from_yaml`, with
--   fuel above the height of the document.
--   Config.Logs: the variable `logs` with its listener.
-- Fiber: a fiber as the scheduler runs it; the function that runs on a fiber is a value of `Code`,
--   and the context of a fiber that was switched from is what is left of it. Fiber.Table: every
--   function of `Fiber` on the table of all fibers, with the ids, the counters, and the
--   thread-local pointers of any number of threads. A read through a pointer that is null or leads
--   to a destroyed fiber is `fault`.
-- Scheduler: the queue and the loop of `Scheduler::run` on one thread; a failed assertion is
--   `fault`. Its loop takes fuel: one more than the steps of all functions and the tasks in the
--   queue, and one for the idle fiber. What the scheduler logs is left out, but the calls of
--   `tickel` are counted. Scheduler.Life: the constructor, `start`, `stop` and the destructor, on
--   the thread that constructs the scheduler, with the root fiber.
-- Thread: `Thread` with the `Semaphore` its constructor waits on, as the steps of two threads in any
--   order; `pthread_create` may fail, a signal may interrupt `sem_wait`, and `pthread_join` is
--   taken to return 0.
-- Mutex: the three scoped locks of wb_server/mutex.h. Mutex.Spin: `CASLock` and the threads that
--   take it through a scoped lock, in any order.
-- Util: the text of a backtrace; the strings are those of `backtrace_symbols`, a parameter.
--
-- Time, files and `strftime` are answers of the record `System`, constant during one call. Each call
-- is one step: where locks are held inside a call they are not modelled, and neither are
-- interleavings of two such calls. Several threads of one scheduler are not modelled, since `start`
-- cannot make any. What a callback throws and is no `std::exception` is not modelled. Also not
-- modelled: the thread id, a system call; the assertion macros, but for the fault; the mutex classes
-- that pass their calls on to pthread; `boost::lexical_cast`, a parameter of Config.Cast; the
-- programs in tests/.
pub mod Common
pub mod Config
pub mod Fiber
pub mod Log
pub mod Mutex
pub mod Scheduler
pub mod Thread
pub mod Util
pub mod Yaml
