-- ===== src/Lib.antt =====
-- A verification library of the repository's C++ libraries.
--
-- The program is a set of small libraries that its servers are built from. The parts modelled here:
--   * dymanicArray/dArray.cpp, the growing array (module DynamicArray). A DArray is a record of its
--     memory, `m_length` and `m_size`; each method is a function from the array to the array after
--     the call. A cell whose value is indeterminate is `none`.
--   * timer/Heap.cpp, the binary heap of timers (module Timer.Heap). A timer is its address, and the
--     section parameter `expire` reads the expiry of an address.
--   * timer/Timer.cpp, the timer object with its count and its interval (module Timer.Object).
--   * timer/Timer_manager.cpp, the manager (module Timer.Manager): the timer objects at their
--     addresses, the heap, the map from indices to addresses, and what the timerfd was last set to.
--     The manager calls the heap with the expiries of its objects. What a call takes from outside
--     is its `Env`: the time, whether `timerfd_settime` succeeds, the times that continue_timer
--     reads, and what the callbacks return. A callback is a number and does not call the manager.
--   * dymanicArray/sort.cpp, four of the sorts (module Sorting): the memory is a list, and the
--     comparison that the caller passes is a parameter. The theorems take a rank of the elements
--     by which the comparison decides.
--   * common/BufferManager.cpp, the reading of messages from a socket (module BufferManager) and the
--     queue of what is to be written (module BufferManager.Queue), for a manager with an agent. The
--     socket and the memory that `new char[n]` gives are parameters; the theorems ask that a `read`
--     yields no more bytes than it is asked for, and that the memory has its size.
--   * common/AgentManager.cpp, the agents of the connections by their indices (module AgentManager). The
--     memory holds the index of each agent that is not deleted; addAgent tries as often as its loop.
--   * Rubbish_cycler/MonitorServer/src/HB_manager.cpp, the heartbeats of the monitor server (module
--     Heartbeat): the maps of the nodes' loads, the list of the agents and the memory that they live
--     in. Rubbish_cycler/MonitorServer/src/HeartbeatAgent.cpp, the agent of one heartbeat connection
--     (module Heartbeat.Agent), calls the manager from its handlers. The time, `inet_pton` and the
--     parsers of the generated protocol code are the fields of an `Env`. The events that reach both
--     are the data type Event of Heartbeat.Events, and its Reach holds what a start leads to. A
--     `std::map` is the list of its entries in the order of their keys (Base.Maps).
--   * Rubbish_cycler/MonitorServer/src/RulerManager.cpp, the rules of the monitor server (module
--     Ruler): which nodes hold which bucket, and the orders that changed it, for the MU and the SU
--     nodes, with the operations that move a bucket and double the buckets (Ruler.Orders). The
--     tables are vectors that the code fills by index beyond their size, so a vector is its size and
--     its memory (Base.Vector). Their modulus comes from cs_pow and cs_log of
--     Rubbish_cycler/MonitorServer/src/Lib_tool.cpp (module LibTool). The heartbeats use the rules'
--     types.
--   * atomString/atom.cpp, the table of interned strings (module AtomTable). A bucket is the list of
--     its atoms, an atom is the number of its memory with the address and the bytes of its string,
--     and a string that a caller passes is its bytes, before the null byte, with its address where
--     the code compares pointers. The theorems take a table in which every atom is one of atomNew
--     (IsInterned of AtomTable.Atoms), as the empty table is and as atomNew keeps it.
--   * Rubbish_cycler/MonitorServer/src/Extent_task.cpp, the task that makes the nodes extend their
--     buckets (module ExtentTask): its lists of agents and its state. A handler gives the task after
--     the call, or none where it has deleted itself, and the actions that it makes others do, in
--     order, those of its destructor too. What comes of an agent that is created for a node, and what
--     a read of an erased map entry gives, are the fields of an `Env`. The work item for the database
--     and the callback to the creator are outside.
--   * Rubbish_cycler/MonitorServer/src/Task_manager.cpp, which has at most one task of each kind and
--     type of rule and the queues of the requests that wait (module TaskManager). It asks its
--     extension tasks whether a migration may run.
--
-- A call that returns is `ok`; a failed `assert` or an access outside of an object is `fault`. A
-- loop that is not a recursion on a list or a counter takes fuel, and `out_of_fuel` says that it ran
-- out. Each theorem of the form `Returns P (f x)` says that the call neither faults nor runs out.
-- The fuel: the loop that climbs the heap has the heap's size, for the position falls; the loop that
-- sinks a timer the size of the vector and one more, for the position grows; the loop that takes the
-- expired timers out the heap's size and one more, for each round takes one; the search for a free
-- index 2, for the next index is free; the loop of shellSort over its step `n`, for the halved step
-- stays below; the loop along a step `n` and one more; the loop of
-- cs_log 33, for the powers of two below 2^32 are 32; the loop over the
-- digits of a long 20, for it has at most 19.
--
-- Words of 64 bits (`size_t`) wrap where the source computes with them, and so do the lengths of
-- messages, of 32 bits. Signed times are integers without bounds; where they become `UINT64`, they
-- wrap. `new` and `malloc` are taken to succeed.
--
-- Not modelled: heapSort and quickSort, the cache table (cacheTable/), the other agents and the event
-- loop of common/, and the other tasks and agents of the monitor server
-- (Rubbish_cycler/MonitorServer/src/); the C libraries and the portal, which are
-- in other languages; and the protocol code, which is generated, with what only logs or wraps
-- system calls.
pub mod Base
pub mod DynamicArray
pub mod Timer
pub mod Sorting
pub mod BufferManager
pub mod LibTool
pub mod Ruler
pub mod Heartbeat
pub mod AtomTable
pub mod ExtentTask
pub mod TaskManager
pub mod AgentManager
