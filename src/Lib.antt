-- ===== src/Lib.antt =====
-- PInsight traces parallel programs: it counts the executions of their code regions, `lexgions`,
-- and traces some of them, as a configuration says that can change while the program runs. This
-- library models the core of the C library in src/ that decides what is traced and when.
--
-- BitSet: src/bitset.c, the sets of ids that constrain a configuration to parallel units. A set of
-- fewer than 64 indices is stored in the pointer (`value`), a larger one on the heap (`array`).
-- Scan searches it, Ranges reads it from a text, Print writes it as one, Count counts it.
-- Config: the records and enumerations of src/trace_config.h (Mode, Window, Domain, Rules) and
-- domain_punit_set_match of src/trace_config.c (Punits).
-- Lexgion: the data of a thread in src/pinsight.h and the functions of src/pinsight.c on it: the
-- record stack (Stack), the table of lexgions (Table), the configuration a lexgion uses (Resolve)
-- and the bit that says whether an execution is traced (Rate).
-- Control: what the threads share and how a tracing window ends: the counting policies of
-- src/pinsight.c and src/pinsight.h (Fire), and src/pinsight_control_thread.c: its timers
-- (Timers), the application of an end action (Apply), one pass of its loop (Loop) and
-- the loop over its passes (Loop/Rounds).
-- Node: the node policies of src/trace_config.c: their texts (Policy), and which process of a node
-- gets a role (Roles) and keeps it (Stable).
-- Knobs: src/app_knob.c and src/app_knob.h, the named values for the traced program.
-- Parse: src/trace_config_parse.c, the parser of the configuration file: its texts (Text, Window,
-- Punits), its state (State), the section headers (Header, Lexgions, Domains, PunitSections,
-- Sections) with the entries they create (Entries), the keys (LexgionKeys, DomainKeys, Keys), and
-- the lines of a file (File). Sizes: how the tables grow.
-- Load: src/trace_config.c, the defaults, the loading of the file and the environment.
-- Sampler: src/pinsight_sampler.c, the deadlines and the counts of a probe.
-- Mpi: the prologue and the epilogue of the MPI wrappers in src/pmpi_mpi.c.
-- Common: lists, words, texts and integers over the native numbers. Examples: concrete data.
--
-- An operation keeps its C name without the prefix pinsight_, bitset_ or lexgion_ where the module
-- already says it. A struct is a record, a pointer into an array is an index, NULL is `none`, an
-- unsigned int wraps at 2 ^ 32. Stateful functions take the state (BitSet, ThreadData, Process)
-- and return the new one. The threads of a process act on one Process in turns; an atomic
-- operation is one step. Loops over arrays recurse over the list, or over the number of elements
-- left; the loops over the ranges and the punit sets of a text take a round for each character and
-- one more, the count of the bits of a word 64; the walks down the record stack take its size as
-- fuel, which the links never exceed. The text of a set is cut to its buffer, as snprintf does. MAX_NUM_LEXGIONS and MAX_LEXGION_STACK_DEPTH are arguments.
--
-- Parameters stand for what the core calls: the functions that return the id of the running unit,
-- the clocks, the periods of the rotating collectors, what other threads do during a pause, the
-- environment and the lock of a node, the loading of the configuration in the control loop, the
-- lines and the times of files, and strtod and atof. A failed allocation is
-- an argument of `init`. The script, the callbacks, the sampler and the manifest are effects that
-- a pass lists.
--
-- Not modelled: the printers of a configuration, the registration of the domains, the threads of
-- the sampler and the registration of its probes, the callbacks of the other traced runtimes,
-- energy and manifest; messages on stderr.
-- The parser assumes that its numbers fit the types atoi and atol return, and has
-- floats in thousandths.
pub mod Common
pub mod BitSet
pub mod Config
pub mod Lexgion
pub mod Control
pub mod Node
pub mod Knobs
pub mod Parse
pub mod Load
pub mod Mpi
pub mod Sampler
pub mod Examples
