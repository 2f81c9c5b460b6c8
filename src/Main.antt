-- ===== src/Main.antt =====
-- src/sandals.c: `main`, and the exit of the process.
pub mod Held
pub mod Exits
use sandals.Prelude.{ℕ, zero, suc, Bytes, codes, none, some, ltb, ◌++◌, if◌then◌else◌}
use sandals.Os.{
  Kernel, Trace, Outcome, returns, exits, starves, M, pure, ◌>>=◌, ◌>>◌, close, log, assign, call,
  call_pair, ignore_sigpipe, Res, ok, err, clone, death_signal, new_session, unshare_cgroup,
  socket_pair, no_cleanup, pending, running, spawner_pid,
}
use sandals.Fail.{die, call_checked}
use sandals.File.{write_checked}
use sandals.Stray.{close_stray_fds_except}
use sandals.Json.{Tokens}
use sandals.Request.{Request, default_request}
use sandals.Request.Receive.{Parse, request_recv}
use sandals.Cgroup.Configure.{CgroupCtx, no_cgroup, configure_cgroup}
use sandals.Cgroup.Cleanup.{cleanup_cgroup}
use sandals.Spawner.Task.{Ended, returned, replaced}
use sandals.Spawner.Steps.{Compiled, spawner}
use sandals.Watch.State.{Revents}
use sandals.Watch.Start.{supervisor}

-- The initial `response_fd`, STDOUT_FILENO.
abbrev pub stdout_fileno : ℕ
stdout_fileno = 1

-- What the process is given: the ids of its user, the parsers, and memory that the program reads
-- before it is set.
pub record Host : Type 0 where
  pub uid : ℕ
  pub gid : ℕ
  pub jstr_parse : ℕ → Bytes → Parse
  pub kafel : Bytes → Compiled
  pub unset : Revents
  pub beyond : Bytes

module _ (k : Kernel) (fuel rounds : ℕ) (host : Host) where
  -- `request.cgroup_config`, and the descriptor that the group is joined by.
  unfoldable pub join_cgroup : ℕ → Request → CgroupCtx → M (Unit {0})
  join_cgroup response_fd request ctx = elim request.cgroup_config [
    | none ↦ pure tt
    | some _ ↦ elim ctx.cgroupprocs_fd [
      | none ↦ pure tt
      | some fd ↦ write_checked k response_fd fuel fd (codes "0") (codes "cgroup.procs")
    ]
  ]

  -- The new process: `response_fd` is its end of the pair.
  unfoldable pub child : Tokens → Request → CgroupCtx → ℕ → M Ended
  unfolding join_cgroup
  child toks request ctx response_fd = do
    _ ← call_checked k response_fd fuel (codes "prctl(PR_SET_PDEATHSIG)") death_signal
    _ ← call_checked k response_fd fuel (codes "setsid") new_session
    _ ← join_cgroup response_fd request ctx
    _ ← call_checked k response_fd fuel (codes "New cgroup namespace") unshare_cgroup
    _ ← close_stray_fds_except k response_fd fuel rounds response_fd
    spawner k response_fd fuel toks host.kafel host.beyond rounds host.uid host.gid request

  unfoldable pub parent : Tokens → Request → CgroupCtx → ℕ × ℕ → M Ended
  parent toks request ctx (spawnerout, spawnerin) =
      ignore_sigpipe
      >> close spawnerin
      >> supervisor k stdout_fileno fuel toks request ctx.memoryevents_fd ctx.pidsevents_fd
          spawnerout host.unset rounds
      >>= λ code. pure (returned code)

  -- `spawner_pid = myclone(…)`, and the branches of the switch.
  unfoldable pub after_clone : Tokens → Request → CgroupCtx → ℕ × ℕ → Res ℕ → M Ended
  unfolding child parent
  after_clone toks request ctx ends (err e) =
      assign (spawner_pid pending)
      >> die k stdout_fileno fuel (returned 1) (codes "clone: " ++ k.strerror e)
  after_clone toks request ctx ends (ok zero) =
      assign (spawner_pid no_cleanup) >> child toks request ctx ends.1
  after_clone toks request ctx ends (ok (suc pid)) =
      assign (spawner_pid (running (suc pid))) >> parent toks request ctx ends

  after_socketpair : Res (ℕ × ℕ) → M (ℕ × ℕ)
  after_socketpair (ok ends) = pure ends
  after_socketpair (err e) =
      die k stdout_fileno fuel (0, 0) (codes "socketpair(AF_UNIX, SOCK_STREAM): " ++ k.strerror e)

  -- `if (request.cgroup_config) configure_cgroup(…)`.
  unfoldable pub cgroup_of : Tokens → Request → M CgroupCtx
  cgroup_of toks request = elim request.cgroup_config [
    | none ↦ pure no_cgroup
    | some config ↦ configure_cgroup k stdout_fileno fuel toks request config
  ]

  -- `main` behind `request_recv`.
  unfoldable pub serve : Tokens → Request → M Ended
  unfolding after_socketpair cgroup_of after_clone
  serve toks request = do
    r ← call_pair k socket_pair
    ends ← after_socketpair r
    ctx ← cgroup_of toks request
    pid ← call k clone
    after_clone toks request ctx ends pid

  unfoldable pub main : ℕ → M Ended
  unfolding serve
  main argc =
      if ltb 1 argc
      then (log (codes "Does not accept arguments") >> pure (returned 1))
      else (request_recv k stdout_fileno fuel host.jstr_parse default_request rounds >>= λ r.
          serve r.0 r.1)

  -- What an exit runs: the destructor, unless the process has become another program.
  unfoldable pub leave : Outcome Ended × Trace → Outcome (Unit {0}) × Trace
  leave (returns (returned code), t) = cleanup_cgroup k stdout_fileno rounds t
  leave (returns replaced, t) = (returns tt, t)
  leave (exits code, t) = cleanup_cgroup k stdout_fileno rounds t
  leave (starves, t) = (starves, t)

  unfoldable pub process : ℕ → Trace → Outcome (Unit {0}) × Trace
  unfolding leave main
  process argc t = leave (main argc t)
