-- ===== src/Lib.antt =====
-- Verification library of simet-lmapd, a measurement agent that runs measurement tasks at events (LMAP,
-- RFC 8193 and 8194).
--
-- The program. The daemon reads a configuration into the data model of src/lmap.h.in: events, schedules of
-- actions, suppressions, tasks, and the capabilities that say which programs may run. An event loop then
-- fires events; for each the runner (src/runner.c) first starts and ends suppressions, and then executes
-- the schedules that the event starts and kills those that it ends. An action is a child process. When
-- children end, lmapd_cleanup does the accounting, moves results and goes on with a sequential schedule.
-- Signals stop or restart the daemon. The results of an action are a data file and a meta file, of
-- comma-separated values, in its workspace (src/workspace.c); they are linked into the incoming queue of a
-- destination schedule, which takes complete pairs when it starts, and a reporting task reads them.
--
-- The files.
--   Base      helpers: tests on numbers, lists, integers, bits of a word.
--   Text      C strings and numbers in them: what src/data.c uses of libc.
--   Model     the structs of src/lmap.h.in and src/lmapd.h.in as records.
--   Data      src/data.c. Data.Scalar and Data.DateTime are the set_ functions for values, Data.Containers
--             the lookups, lists of distinct names and tags; Data.Agent, Data.Supp, Data.Event,
--             Data.Event.Calendar, Data.Task, Data.Schedule and Data.Action are the setters of one struct
--             each, Data.Results those of results and tables, Data.Paths those of the paths of the daemon, and
--             Data.Validity the lmap_*_valid functions. A function keeps its name from C, takes the old struct
--             and returns the new one with its return code; a null pointer that C would dereference is the
--             result `none`.
--   Runner    src/runner.c. Runner.Exec is action_exec, schedule_exec, action_kill and schedule_kill,
--             Runner.Suppression suppression_start, suppression_end and suppress_cb, Runner.Cleanup
--             lmapd_cleanup, Runner.Callbacks execute_cb and fire_cb, Runner.Timers the delays that
--             lmapd_run and the triggers arm, Runner.Random rand_interval, Runner.Control lmapd_stop,
--             lmapd_restart and the signal callbacks of src/signals.c, Runner.System the histories of
--             events and ended children, with the invariants of the daemon over them.
--   Csv       src/csv.c, a FILE as the characters that are left and the mark of its end. csv_next returns what C
--             sees of its buffer, the characters before the first NUL.
--   Workspace src/workspace.c. Workspace.Names is mksafe and the names of files, Workspace.Tree what the calls
--             of the system do to directories, Workspace.Queue lmapd_workspace_schedule_move,
--             Workspace.Delivery lmapd_workspace_action_move, Workspace.Cleaning the cleaning and the
--             measuring of directories, Workspace.Init lmapd_workspace_init, Workspace.Meta the meta files
--             and read_result, Workspace.Results read_table and lmapd_workspace_read_results.
--   Json      src/json-io.c. Json has the trees of json-c, Json.Lookup the tables of entries, lookup_jsonmap and
--             the walk along the fields of an object, Json.Tasks, Json.Settings (suppressions),
--             Json.Actions, Json.Schedules and Json.Events the parsers of one kind of object each, Json.Document
--             the agent and parse_control_doc, Json.Render the render_ functions.
--   Pidfile   src/pidfile.c.
--   Tests     all at concrete inputs.
-- The modules below a component hold its theorems.
--
-- Calls. In Runner a call of the operating system or of src/workspace.c is an effect in a trace; what it answers
-- comes from lists in the same record: the pids of fork (0 where it fails), the success of kill, whether a
-- move is to be deferred. The theorems hold for all answers. waitpid is the list of children that it
-- reports, with their status. fnmatch and localtime are parameters; strptime and timegm are as in the GNU
-- C library, RAND_MAX is 2^31 - 1. In Workspace a directory is a list of names with files, which have an
-- inode, and directories; every call of the system may fail, as an argument says for each moment; what
-- readdir lists is an argument, in any order and with any names; open with EAGAIN or EINTR is repeated and
-- counts by its last answer. Paths that are opened fit PATH_MAX, and calls of other processes come between the
-- functions, not within them. A meta file is the text in it; a NUL in it is a character like others, that
-- ends the string csv_next returns. The parser of JSON and XML results, lmap_io_parse_task_results_fd of
-- src/lmap-io.c, is a parameter that may fail, or fault. The random numbers that rand() gives to the delays
-- are a list that the delay functions take. gmtime with strftime is a parameter, and so are kill and the
-- success of open in Pidfile.
--
-- json-c is the record JsonC: the text of a value and adding a field to an object, with the laws that the text of
-- a string is the string, that of a Boolean its name, and that a new field goes to the end. A string is the C string
-- that the code sees, null is the pointer NULL.
--
-- Bounds. Counters wrap at 2^32. The loop of rand_interval is a recursion on the random numbers that it
-- draws. The search of csv_next_key_value is a recursion on one more than the characters that are left, and
-- so are the loops of read_result and read_table, since each read shortens what is left or meets its end.
-- All other loops are structural.
--
-- Not modelled: memory that is exhausted or freed, logging in src/utils.c, the child between fork and exec, the
-- creation of libevent events, reading and writing of files in src/json-io.c, its
-- reports, its rendering of agent, events, schedules and actions, the XML of src/xml-io.c and src/lmap-io.c, and the
-- programs src/lmapd.c and src/lmapctl.c.
pub mod Base
pub mod Text
pub mod Json
pub mod Model
pub mod Data
pub mod Runner
pub mod Csv
pub mod Tests
pub mod Workspace
pub mod Pidfile
