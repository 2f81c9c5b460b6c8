-- ===== src/Os/Syscalls.antt =====
-- The checked system calls of src/net.c, src/cgroup.c, src/mounts.c, src/spawner.c and src/sandals.c,
-- and the globals of src/cgroup.c.
use sandals.Prelude.{ℕ, Bool, List, Bytes, Option}

-- `none` stands for AT_FDCWD. A mount is given its source, target and type, whether it binds,
-- whether it makes the target read-only, and its options.
pub data Call : Type 0 where
  socket_inet : Call
  get_flags : ℕ → Call
  set_flags : ℕ → ℕ → Call
  set_hostname : Bytes → Call
  set_domainname : Bytes → Call
  open_listing : Bytes → Call
  make_dir : Bytes → Call
  remove_dir : Bytes → Call
  kill : ℕ → Call
  poll_priority : ℕ → Call
  stat_mode : Bytes → Call
  open_dir : Bytes → Call
  make_dir_at : Option ℕ → Bytes → Call
  open_dir_at : Option ℕ → Bytes → Call
  create_at : Option ℕ → Bytes → Call
  mount : Bytes → Bytes → Bytes → Bool → Bool → Bytes → Call
  socket_unix : Call
  bind_to : ℕ → Bytes → Call
  connect_to : ℕ → Bytes → Call
  proxy : ℕ → ℕ → ℕ → ℕ → Call
  set_nonblock : ℕ → Call
  make_fifo : Bytes → Call
  change_root : Bytes → Call
  change_dir : Bytes → Call
  undumpable : Call
  set_personality : Bool → Call
  map_shared : Call
  send_rights : ℕ → List ℕ → Call
  fork : Call
  duplicate : ℕ → ℕ → Call
  set_filter : ℕ → Call
  execute : Bytes → List Bytes → List Bytes → Call
  clone : Call
  death_signal : Call
  new_session : Call
  unshare_cgroup : Call

-- The calls that answer with two numbers: the ends of a pipe or of a pair of sockets, and the
-- process that `wait` has seen end, with its status.
pub data PairCall : Type 0 where
  pipe_ends socket_pair wait_any : PairCall

-- `spawner_pid`: 0, -1 or a process.
pub data SpawnerPid : Type 0 where
  no_cleanup pending : SpawnerPid
  running : ℕ → SpawnerPid

-- An assignment to a global variable.
pub data Global : Type 0 where
  spawner_pid : SpawnerPid → Global
  cgroup_path : Bytes → Global
  cgroupevents_fd : ℕ → Global
