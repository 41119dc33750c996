-- ===== src/Lib.antt =====
-- STaRS, a peer-to-peer scheduler of bags of tasks: the tree that the nodes form, the dispatchers that route
-- tasks along it, the task queue of a node that executes tasks, and the node that submits them.
--
-- Every computer runs a resource node, the leaf of the tree (src/lib/overlay/ResourceNode.cpp), and a
-- structure node, which may become an inner node of it (src/lib/overlay/StructureNode.cpp). They change
-- the tree in transactions with two-phase commit: a driver sends requests to members, collects their
-- acknowledgements, and sends a commit or a rollback. A structure node keeps one entry for each child, a
-- TransactionalZoneDescription, with the ZoneDescription of the branch, and reports the aggregate of its
-- zones to its father. The scheduler of a node (src/lib/scheduling/Scheduler.cpp) keeps the queue of
-- accepted tasks, and reports to their owners and to the father of its leaf. The dispatcher of a structure
-- node (include/Dispatcher.hpp) collects what its children offer, tells its father, and shares bags of tasks out
-- among them. The submission node (src/lib/scheduling/SubmissionNode.cpp) keeps the tasks of its applications in a
-- database, sends the ready ones to a dispatcher, and takes the answers and reports of the schedulers. All of
-- them get their messages and timers from CommLayer.
--
-- Files and the code they model:
--   Prelude, Prelude/*    shared tests, lists and lemmas on the native numbers
--   Address               include/CommAddress.hpp
--   Zone                  include/ZoneDescription.hpp, src/lib/overlay/ZoneDescription.cpp
--   TxZone                include/TransactionalZoneDescription.hpp, and its methods in StructureNode.cpp
--   Message               include/*Msg.hpp of the overlay, and the calls of a node on its surroundings
--   Structure             include/StructureNode.hpp; src/lib/overlay/StructureNode.cpp in its children:
--     Zones, Helpers      compareZones, recomputeZone; notifyFather, checkFanout
--     Routing, Requests   the choice of a child; handle(InsertMsg, StrNodeNeededMsg, NewFatherMsg, NewChildMsg)
--     Split, Growth       the division of the children; handle(NewStrNodeMsg, InitStructNodeMsg)
--     Outcome, Receive    commit, rollback; handleDelayedMsgs, the other handlers, receiveMessage
--     Sorted, Consistent, Keeps, Invariant, UpdateKeeps, SplitKeeps, Protocol, Voting, Nearest,
--     Coverage and Undo   are proofs
--   Resource              include/ResourceNode.hpp, src/lib/overlay/ResourceNode.cpp; proofs in its children
--   Scheduler             include/Scheduler.hpp, src/lib/scheduling/Scheduler.cpp; the task and the policy are
--                         Interface, the handlers Handlers, and Queue, Ending, Reports, Distinct and
--                         Acceptance are proofs
--   Dispatcher            include/Dispatcher.hpp: the links and their updates; sendTasks in its child Requests; the
--                         policy and the overlay are Interface; Tasks, Kept, Updates and Changes are proofs
--   Ibp                   include/IBPAvailabilityInformation.hpp; Routing is IBPDispatcher.cpp, Node is
--                         IBPScheduler.cpp; Division and Sharing are proofs
--   Float                 what the policies ask of double; seconds and sums of include/Time.hpp
--   Mmp                   include/MMPAvailabilityInformation.hpp, src/lib/scheduling/policies/MMPAvailabilityInformation.cpp;
--                         Routing is MMPDispatcher.cpp; Balance and Sharing are proofs
--   Delta                 src/lib/scheduling/policies/LDeltaFunction.cpp; Stepper is stepper(), Shape what is drawn from it;
--                         Vector, Update and Ends are proofs
--   Fsp                   include/TaskProxy.hpp, src/lib/scheduling/policies/FSPTaskList.cpp, FSPScheduler.cpp; Allocation is
--                         FunctionVector of FSPDispatcher.cpp with what it reads of the summaries and of
--                         include/ZAFunction.hpp, Routing is the rest of FSPDispatcher.cpp; Slowness, Counts, Rounds,
--                         Branches, Exact, Sending and Sharing are proofs
--   Dp                    src/lib/scheduling/policies/DPDispatcher.cpp; Cache is proofs
--   Policies              MMPScheduler.cpp and DPScheduler.cpp; Order and Fitting are proofs
--   Submission            Tables and Database are src/lib/db/TaskBagAppDatabase.cpp; Node and Monitor are
--                         src/lib/scheduling/SubmissionNode.cpp, Maps its maps; Counts, Keys, Search, Lifecycle,
--                         Refinement, Runs and Timeouts are proofs
--   Comm                  include/CommLayer.hpp, src/lib/core/CommLayer.cpp; Timers and Delivery are proofs
--   Examples              the theorems at concrete inputs
--
-- State and operations. A class is a record of its members, and a handler is a function from the record to
-- the record; the name of the handler of FooMsg is handle_foo. The calls that leave a node (sendMessage,
-- setTimer, cancelTimer, the observers) are appended to the field `out`, the latest first. What a handler
-- takes from outside (the local address, a random transaction id, the number of a new timer) is its
-- argument `Env`. A shared_ptr that may be null is an Option. A read through a null pointer or of the front
-- of an empty list is the effect `undefined`, and a loop that does not end is `endless`.
--
-- Numbers. uint32_t and uint64_t values are natural numbers with the wrap-around written out. An address is
-- the pair of its 32-bit IP and its 16-bit port; its value(), a double with 16 binary places, is exact, and is
-- kept in units of 1/65536. An available-node count that the source reads as an int is the bit pattern.
--
-- Fuel. The rounding loop of aggregate() has fuel 32: a positive int reaches 1 within 31 shifts, and an int
-- with its sign bit never does. The search of MMP has fuel 33 and 64: its step doubles from 3e8 and stays below
-- 1e18, and its second loop takes two rounds. The stepper of functions has two rounds more than there are points.
-- The rounds in which FSP gives out a bag are at most as many as it has tasks: each gives one at least, unless no
-- cluster has a node. The order of equal entries of the heap (std::pop_heap) is a parameter.
-- The count of these rounds, an int in the code, is not bounded in the model; it is at most the tasks of the bag.
-- The binary search of FSP has as many rounds as there are boundaries. The delayed messages of one round are as
-- many as there are when it starts.
-- std::list::sort with compareZones is an insertion sort from the back, which is stable.
--
-- Interfaces. The scheduling policy (acceptable, reschedule, getAvailability) and the execution environment
-- (createTask, run, pause) are the records Policy and Backend, with the laws that the theorems use: a policy
-- permutes the queue, and tasks keep their ids. IBPScheduler leaves the queue as it is, MMPScheduler and
-- DPScheduler sort it, which permutes it. FSPScheduler does not fit this interface: it rebuilds the queue from
-- its list of proxies, which the hooks acceptTask() and removeTask() keep; these hooks do nothing for the other three
-- policies and are left out of Scheduler, and Fsp models the list by itself.
-- The arithmetic on double is the record Float: its operations are the machine's, and only
-- the theorem on the order of FSP assumes something of them. Infinity is a parameter. The dispatcher takes the information of its policy as the
-- record Info, which Ibp and Mmp fill and which is a parameter for FSP, and the overlay as the record Branch. The availability functions of DP are the record DpInfo.
--
-- Database. A table is the list of its rows, a statement is a function of the tables, and a statement fails only
-- where a primary key is taken. A subquery that finds nothing is none, which is equal to no number.
--
-- Not modelled: logging, printing and serialization; the sockets, threads and locks of CommLayer; how the summaries of
-- FSP and DP are made, joined and reduced (FSPAvailabilityInformation and ZAFunction, of which the dispatcher's part is
-- modelled, and DPAvailabilityInformation, with its LDeltaFunction modelled); reduceMin() and reduceMax() of
-- LDeltaFunction, whose bodies are commented out; the clustering of summaries (ClusteringList::cluster), which is
-- a parameter; the connection to SQLite, the web interface, the simulators and the tools.
pub mod Prelude
pub mod Address
pub mod Zone
pub mod TxZone
pub mod Message
pub mod Structure
pub mod Resource
pub mod Scheduler
pub mod Dispatcher
pub mod Float
pub mod Ibp
pub mod Mmp
pub mod Delta
pub mod Fsp
pub mod Dp
pub mod Submission
pub mod Comm
pub mod Policies
mod Examples
