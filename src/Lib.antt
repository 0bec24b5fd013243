-- ===== src/Lib.antt =====
-- C11Tester: a checker for C and C++ programs with atomics. It runs a program under its own
-- scheduler, keeps the modification order of the stores, and looks for data races.
--
-- The parts and how they interact. Each thread of the program under test hands its operations to
-- the checker as actions. Clock vectors say which actions happen before which. The scheduler picks
-- the thread that runs next. The modification order graph keeps the order of the atomic stores,
-- and answers reachability by clock vectors of its own. The race detector keeps a shadow cell for
-- each byte of memory, and checks each access against the clock vector of its thread. The
-- execution takes each action as a step: it gives the action its number and clock vector, picks the
-- store that a read takes, adds edges to the graph, and passes locks and threads on. It keeps its
-- actions in lists with a tree over the sequence numbers, and its maps in hash tables.
--
-- Which file models which part:
--   Base          names of the libraries, Boolean tests, lists under native indices, bit patterns
--   ClockVector   clockvector.cc: ClockVector(), merge, minmerge, synchronized_since, getClock
--   Action        action.h, include/memoryorder.h, action.cc: the enumerations and the tests on
--                 them (Kinds), the constructors, process_rmw and the values (Rmw), create_cv,
--                 synchronize_with, happens_before (Sync), same_var, could_synchronize_with,
--                 is_conflicting_lock (Conflicts), the names (Names)
--   Threads       threads-model.h, threads.cc: the state of a thread, set_state, complete, the
--                 three forms of swap, waiting_on and is_waiting_on (Waiting)
--   Schedule      schedule.h, schedule.cc, and selectThread of fuzzer.cc
--   CycleGraph    cyclegraph.h, cyclegraph.cc: the nodes, addNodeEdge with its propagation,
--                 addEdge, addEdges (Edgeset), addRMWEdge, checkReachable, freeAction
--   DataRace      datarace.h, datarace.cc: the packed word (Encoding), the checks on one cell
--                 (Cell), the handlers of the accesses (Detector)
--   SnapList      the doubly linked lists of stl-model.h, SnapList and ModelList
--   ActionList    actionlist.h, actionlist.cc: the tree with findPrev, addAction, clear, isEmpty,
--                 removeAction (Removal)
--   HashTable     hashtable.h: put with resize, get, contains, remove, reset
--   HashSet       hashset.h: the table with the list of its keys; add, get, contains, remove, reset
--   Execution     execution.h, execution.cc, and the rest of fuzzer.cc. The state and its accessors
--                 (State), add_action_to_lists and its kin (Lists), get_last_seq_cst_fence and
--                 get_last_unlock (Fences), build_may_read_from (Candidates),
--                 r_modification_order (ReadOrder), w_modification_order (WriteOrder),
--                 get_hb_from_write (Release), process_read and read_from (Reads), the choices of
--                 the fuzzer (Fuzz), process_mutex and check_action_enabled (Locks),
--                 process_thread_action (Life), wake_up_sleeping_actions (Sleepers),
--                 check_current_action and take_step (Step), computeMinimalCV (Collect)
-- A function of the source keeps its name, in snake case; state that it changes is an argument
-- and a result. The children of a module prove what their names say; Tests has small runs.
--
-- Choices. Pointers are numbers: an address, or the id of a thread or an action; a store is a
-- function from these. Arrays and vectors are lists. A failed assertion and the use of a null
-- pointer give `none`. Counters of the checker (clocks, sequence numbers, lengths) are natural
-- numbers, far from 2 ^ 32; words that the source packs keep their widths and masks. Memory does
-- not run out. The configuration is that of config.h: no NEWFUZZER, 48-bit addresses, races are
-- reported.
--
-- Fuel. The propagation of clocks in CycleGraph takes fuel; the deficit of a graph, how far all
-- its clocks together are below a bound, is enough, since each push makes it smaller. The walks
-- along RMW links and along waiting threads take fuel too, and enough is the rank of their start
-- in an order that falls along them; without one the source does not end either.
--
-- The handlers of blocks of memory count 32 bits against a size of 64; fuel above the size is enough
-- below 2 ^ 32, and from there on no fuel is.
--
-- A search in a hash table takes as many rounds as the table has bins, which the loops that test
-- for a whole turn need at most, and the others too where a bin is empty. findPrev takes 256 rounds
-- for each of its loops: it has eight levels of sixteen children.
--
-- In the execution, the loops along a release sequence take as fuel the number of actions that
-- were made; what it needs is more than the RMWs of the sequence. A read tries as many stores as
-- it has candidates.
--
-- Not modelled. `random()`, `clock_gettime`, what the program's memory holds at a plain store that
-- turns atomic, and the stacks that `backtrace` gives are arguments. Machine contexts, stacks and
-- thread-local storage (threads.cc, context.cc), snapshots and allocation (snapshot.cc,
-- mymemory.cc, malloc.c) and output are services of the system. Of execution.cc, the garbage
-- collection of old actions (collectActions, behind computeMinimalCV) and the bug messages have no
-- model. The execution works with lists in the order of the sequence numbers and with functions,
-- where the source has action_list_t and hash tables. fixupParent of actionlist.cc, the iterators
-- of hashtable.h and hashset.h, copy and resetanddelete, and the vectors of stl-model.h have no
-- model; the functions of hashfunction.cc are arguments. The loop around the execution (model.cc),
-- the wrappers that make actions (pthread.cc, mutex.cc, cmodelint.cc, librace.cc and others) and
-- the second fuzzer (newfuzzer.cc and its histories) have no model.
pub mod Action
pub mod ActionList
pub mod Base
pub mod ClockVector
pub mod CycleGraph
pub mod DataRace
pub mod Execution
pub mod HashSet
pub mod HashTable
pub mod Schedule
pub mod SnapList
pub mod Threads
