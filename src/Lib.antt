-- ===== src/Lib.antt =====
-- sandals, a process isolation tool for Linux: its C sources under src/, as functions over an
-- interface to the kernel.
--
-- The program reads a request, starts a spawner in new namespaces and supervises it. The supervisor
-- copies what the task writes to its pipes into files, up to a limit for each; it watches the
-- counters of a cgroup; and it sends one response, a line of JSON. Any failure goes through `fail`,
-- which sends a response of its own and exits.
--
-- Os models the system calls. A `Kernel` answers a call by the trace of the calls before, so that a
-- theorem about all kernels covers all that the system may do; Os/Laws has the promises of the
-- manual pages that a theorem may ask for. A process is a function of the trace. Its outcome is a
-- value, an exit, or that a loop has used up its fuel; the theorems say how much fuel is enough.
--
-- Response models src/response.c: the buffer as the bytes that are stored, and the counted size.
-- Fail models src/fail.c with `response_send`, since the two call one another. Messages come
-- already formatted, since `vsnprintf` is the C library's.
-- Counter models `cgroup_counter_nonzero` of src/supervisor.c. Sink models the sinks of that file and
-- their handlers (`sink_push`, `regular_pipe_handler`, `regular_pipe_no_splice_handler`,
-- `stdstreams_pipe_handler`, `stdstreams_pipe_init`) with the addresses in src/stdstreams.c, and
-- Supervisor the loop of `do_pipes`. Watch models the rest of that file: the state, the checks of
-- each event, the loop of `supervisor` and what follows it. The arrays `sink` and `pollfd` of the
-- source are one list of channels there.
-- Json models src/jshelper.c over an interface to the tokens of the parser, with the loops of
-- src/jshelper.h as the lists of what they visit. Request models src/request.c, and Pipes
-- src/pipes.c with the types of src/sandals.h for pipes; Pipes/Asked reads the pipes off the tokens.
-- File and Stray model src/file.c, Users src/usrgrp.c, and Net src/net.c.
-- Mounts models src/mounts.c: Mounts/Nodes has `chroot_relative` and `create_node`, which cuts its path
-- with NULs, and Mounts/Entries `do_mounts`. Paths has what the two files share that handle paths.
-- Cgroup models src/cgroup.c: Cgroup/Create and Cgroup/Configure make and configure the cgroup, and
-- Cgroup/Cleanup is the destructor `cleanup_cgroup`. The globals `spawner_pid`, `cgroup_path` and
-- `cgroupevents_fd` are what the trace says was assigned last.
-- Spawner models src/spawner.c: Spawner/Channels the pipes, Spawner/Steps the steps up to `fork`,
-- in the order of Spawner/Stages,
-- Spawner/Task the task and the wait for it, and Spawner/Report the response. Main models
-- src/sandals.c, with the destructor that an exit runs.
-- Prelude has the shared names, tests, lists and texts; Tests has the theorems at concrete inputs.
--
-- The rounds of each loop are bounded by fuel: a loop that writes needs as many as there are bytes
-- and interrupts, a loop over a pipe one more than its limit, a loop over a file one more than its
-- bytes. A size is a natural number; the sizes that the program counts stay far below 2 ^ 63.
-- Allocations succeed. The loops that wait, for events, for the task or for the cgroup, are
-- bounded by a number of rounds that is given; a theorem says what has happened by then. The copies of
-- other projects in jstr/ and kafel/ are not modelled: their calls are parameters.
pub mod Prelude
pub mod Os
pub mod Response
pub mod Fail
pub mod Counter
pub mod Json
pub mod Request
pub mod Pipes
pub mod File
pub mod Users
pub mod Net
pub mod Paths
pub mod Mounts
pub mod Cgroup
pub mod Stray
pub mod Spawner
pub mod Sink
pub mod Supervisor
pub mod Watch
pub mod Main
pub mod Tests
