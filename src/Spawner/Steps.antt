-- ===== src/Spawner/Steps.antt =====
-- src/spawner.c: `configure_seccomp` and `spawner`.
use sandals.Prelude.{
  ℕ, zero, suc, Bool, true, not, [], ◌∷◌, ◌++◌, Bytes, codes, Option, none, some, ◌==◌,
  if◌then◌else◌,
}
use sandals.Os.{
  Kernel, M, pure, ◌>>=◌, ◌>>◌, open_file, call, Res, ok, err, change_root, change_dir, undumpable,
  set_personality, map_shared, send_rights, fork,
}
use sandals.Fail.{fail, request_invalid, die, call_checked}
use sandals.File.{open_checked}
use sandals.Json.{Tokens}
use sandals.Request.{Request}
use sandals.Pipes.{pipe_count}
use sandals.Net.{configure_net}
use sandals.Users.{map_user_and_group}
use sandals.Mounts.Entries.{do_mounts}
use sandals.Spawner.Channels.{Outputs, create_pipes}
use sandals.Spawner.Task.{Ended, run_task, await_task}

-- What kafel makes of a policy: a program of some length, or its error message.
pub data Compiled : Type 0 where
  program : ℕ → Compiled
  refused : Bytes → Compiled

abbrev pub dev_null : Bytes
dev_null = codes "/dev/null"

abbrev pub dev_proxyfd : Bytes
dev_proxyfd = codes "/dev/proxyfd"

-- `*work_dir != '/'`.
unfoldable pub is_relative : Bytes → Bool
is_relative [] = true
is_relative (c ∷ path) = not (c == b'/')

module _ (k : Kernel) (response_fd fuel : ℕ) where
  unfoldable pub after_compile : Compiled → M ℕ
  after_compile (program len) = pure len
  after_compile (refused text) =
      fail k response_fd fuel request_invalid (some (codes "Seccomp policy: " ++ text)) >> pure 0

  -- `kafel` compiles a policy. The result is the length of the program, 0 without a policy.
  unfoldable pub configure_seccomp : (Bytes → Compiled) → Option Bytes → M ℕ
  unfolding after_compile
  configure_seccomp kafel none = pure 0
  configure_seccomp kafel (some policy) = after_compile (kafel policy)

  unfoldable pub work_dir_error : Bytes → Res ℕ → M (Unit {0})
  work_dir_error path (ok _) = pure tt
  work_dir_error path (err e) =
      die k response_fd fuel tt
        (codes "Setting work dir to '" ++ path ++ codes "': " ++ k.strerror e)

  -- After the `chdir` to the root that a relative path begins with.
  unfoldable pub after_root : Bytes → Res ℕ → M (Unit {0})
  unfolding work_dir_error
  after_root path (ok _) = call k (change_dir path) >>= work_dir_error path
  after_root path (err e) = work_dir_error path (err e)

  unfoldable pub change_work_dir : Bytes → M (Unit {0})
  unfolding is_relative after_root
  change_work_dir path =
      (if is_relative path then call k (change_dir (codes "/")) else pure (ok 0))
      >>= after_root path

  -- `open("/dev/proxyfd")` where the standard streams are captured; `none` is -1.
  unfoldable pub open_proxyfd : Option Bytes → M (Option ℕ)
  open_proxyfd none = pure none
  open_proxyfd (some dest) =
      open_file k dev_proxyfd >>= λ r. pure (elim r [ ok fd ↦ some fd | err e ↦ none ])

  -- The steps before the pipes: the network, the maps, the mounts, the root, and what the task
  -- inherits. The results are the descriptors of /dev/null and /dev/proxyfd.
  unfoldable pub prepare : Tokens → ℕ → ℕ → Request → M (ℕ × Option ℕ)
  unfolding change_work_dir open_proxyfd
  prepare toks uid gid request = do
    _ ← configure_net k response_fd fuel request
    devnull_fd ← open_checked k response_fd fuel dev_null
    devproxyfd ← open_proxyfd request.stdstreams_dest
    _ ← map_user_and_group k response_fd fuel uid gid request
    _ ← do_mounts k response_fd fuel toks request
    _ ←
        call_checked k response_fd fuel (codes "chroot('" ++ request.chroot ++ codes "')")
          (change_root request.chroot)
    _ ← call_checked k response_fd fuel (codes "prctl(PR_SET_DUMPABLE)") undumpable
    _ ←
        call_checked k response_fd fuel (codes "personality")
          (set_personality (not request.va_randomize))
    _ ← change_work_dir request.work_dir
    _ ← call_checked k response_fd fuel (codes "mmap(SHARED+ANONYMOUS)") map_shared
    pure (devnull_fd, devproxyfd)

  -- The descriptors are sent to the supervisor, if there are any.
  unfoldable pub send_fds : Tokens → Request → Outputs → M (Unit {0})
  send_fds toks request o =
      if pipe_count toks request == 0
      then pure tt
      else (call_checked k response_fd fuel (codes "sendmsg") (send_rights response_fd o.fds)
          >>= λ _. pure tt)

  -- `fork` answers 0 in the task.
  unfoldable pub after_fork : M Ended → (ℕ → M Ended) → ℕ → M Ended
  after_fork task parent zero = task
  after_fork task parent (suc pid) = parent (suc pid)

  -- `beyond` is what the memory holds behind `signals`.
  unfoldable pub spawner : Tokens → (Bytes → Compiled) → Bytes → ℕ → ℕ → ℕ → Request → M Ended
  unfolding prepare send_fds configure_seccomp run_task await_task after_fork
  spawner toks kafel beyond rounds uid gid request = do
    fds ← prepare toks uid gid request
    o ← create_pipes k response_fd fuel toks fds.1 request fds.0
    _ ← send_fds toks request o
    len ← configure_seccomp kafel request.seccomp_policy
    child_pid ← call_checked k response_fd fuel (codes "fork") fork
    after_fork (run_task k fds.0 o len request)
        (await_task k response_fd fuel beyond rounds request) child_pid
