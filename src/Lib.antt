-- ===== src/Lib.antt =====
-- systemd-runtime runs containers for containerd under systemd: containerd talks to a task, the task
-- to a shim that runs as a systemd unit, and the shim to runc. A task and its shim live in different
-- processes and meet through two lock files of the bundle and through the shim's service. The
-- modules follow the packages of the repository; each operation is a function of its name in the
-- spelling of this library (`PushTail` is `push_tail`), and a method that changes its receiver
-- returns the new one.
--
-- - Common: names of the libraries, lists over the native numbers, maps (Maps) and texts (Texts).
-- - Queue: utils/collections/queue/bytes.go, the ring of byte slices. Inv has its invariant, Cells and
--   Contents the slices that it holds, Refine the comparison with a list, Bounds the capacity.
-- - Memcache: tasklog/memcache.go, the log writer over that ring. The answers of the fifo are arguments,
--   one `Reply` for each call; the loop of `flushBufferToFifo` recurs on the list of them. Stream and
--   Write are about `Write`, Flush and Faults about the flush. A slice is a list of places, since the
--   log keeps the slices of its caller: Shared adds the memory with the bytes at these places, and
--   Copying the caller, the copy of process/io.go (Overwritten).
-- - Fifo: tasklog/fifo.go, the fifo under that log. Its record counts the goroutines and the files.
--   Resources has the interleavings as a step relation, Replies what the log gets from it, Deadlock the
--   two mutexes together.
-- - Flock: utils/flock.go. The kernel's answers to `fcntl` are arguments; `FileLock` recurs on the list of
--   its rounds (Wait).
-- - Status: common/status.go, the manager of the two lock files. Its record has the flags of the source,
--   the locks that the kernel holds for the process, and what was written. Locks is about the pairing
--   of locks and results, Start about the lock of the running shim.
-- - Bundle: bundle/bundle.go over the status manager, and common/cleanup.go (Disabling, Cleanup), with
--   the search for the unit of `LoadTask` in Loading. Spec has `processSpec` of bundle/utils.go (Specs),
--   Making its `NewBundle` over Units: Undone has its deferred functions, Stages one lemma for each call,
--   Made the whole. Deleting has the deletion of common/bundle.go (Deleted), and Command the command of
--   a shim in common/cmd.go (Commands).
-- - Units: systemd/, the printer of unit files (Lines) and the operations on them (Created).
-- - Streams: tasklog/utils.go, the search for a fifo, and tasklog/handle.go (Handle, Fifos); process/io.go,
--   the streams of a process (Io, Copying) and the pipes to a log binary (Binary, Pipes); and
--   runc/platform.go, the copying of a console (Console, Consoles).
-- - Conn: task/connection.go, the subscribers of a task that wait for its shim. Inv has the
--   invariant, Steps the interleavings of the methods as a step relation, Deliver what subscribers are
--   told, Connect the loop that connects.
-- - Task: task/task.go over Bundle and Conn (Kill, State).
-- - Holder: shim/ctnholder.go, the place of the container in a shim, and its users (Guard).
-- - Process: process/: Errors is utils.go, Init (with Init/Ops) the states and methods of the init
--   process, Exec those of an executed process; their Lifecycle files are about sequences of methods.
-- - Container: runc/container.go, the processes of a container and the ids reserved for new ones. Ids and
--   Reserve are about the reservations, Pids about the search for a pid, and
--   Passed has the methods that only pass a call on.
-- - Shim: shim/service.go, shim/sender.go and shim/shim.go over Container, Holder and Status: the calls
--   (Calls), the exits of processes and the deletion of the container (Exits, Ends, Events), the start
--   of the shim (Boot, Releases, Locks), and the lock of the holder under the calls as a step relation
--   (Waiting).
-- - Publisher: shim/publisher.go, the attempts to forward an event (Delivery).
-- - Rpc: the interface `ShimService`, the server of shim/rpc.go on it (Server), the clients of task/
--   (Client for task_service.go, ClientProcess for process.go), and Shim behind that interface (Service).
--   Remote composes clients and server, Killed goes from containerd's call to what it hears.
-- - Runtime: runtime/task.go, the table of tasks (Table, Listing), and runtime/runtime.go (Manager,
--   Loading).
-- - Transport: shim/util.go, the addresses of sockets and the file with the address of a shim (Addresses).
-- - Command: cmd/eru-systemd-shim/shim/shim.go, its signals (Fair, Signals) and its socket (Socket,
--   Sockets).
-- - Tests and concrete inputs stand in Common/Tests, in Bundle/Runs and in the Examples files.
--
-- The lists of replies, rounds and tries are the environment, not fuel: at their end the outcome says
-- that the loop is in its next round (`running`, `waiting`, `looping`), and the theorems on loops say
-- for which answers the loop returns, and for which it goes on for any number of rounds. A call that
-- waits for a mutex that its caller holds is the outcome `deadlock`; a nil pointer, a second close of a
-- channel and a `panic` are the outcome `panics` or `panicked`. Numbers are natural numbers; lengths and
-- capacities stay below 1537 in the log, far below the machine's bound; the pid is cut to 32 bits where
-- the source does it. The products with `float32` constants are fractions cut to integers, which agree
-- below 2^20.
--
-- Not modelled: runc, systemctl, mounts, containerd's exchange and the ttrpc client, whose answers
-- are arguments and whose calls are actions; logging; real time, which is an argument where a result
-- has it; the bytes that are copied between streams, and the epoll loop (process/io.go,
-- runc/platform.go), of which the descriptors and goroutines are modelled; the options and mounts of
-- a new container; what is done with a cgroup that was loaded, and the memory monitor; flags, entry points and the plugin's registration. A directory that cannot be removed is taken to stay
-- whole. A read of a file shared with other processes gives any status: what is found is an
-- argument. Each call of a shim is one step, except in Shim/Waiting, which looks inside those
-- that wait, and in Rpc/Killed, where an exit may come between the two parts of `Kill`: both hold only
-- the read lock of the container.
pub mod Common
pub mod Queue
pub mod Memcache
pub mod Flock
pub mod Status
pub mod Bundle
pub mod Conn
pub mod Task
pub mod Process
pub mod Fifo
pub mod Holder
pub mod Container
pub mod Shim
pub mod Rpc
pub mod Runtime
pub mod Command
pub mod Publisher
pub mod Streams
pub mod Units
pub mod Transport
