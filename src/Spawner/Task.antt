-- ===== src/Spawner/Task.antt =====
-- src/spawner.c: the task of `spawner`, and the wait for it.
use sandals.Prelude.{
  ℕ, zero, suc, List, [], ◌∷◌, ◌++◌, Bytes, codes, Option, none, some, ◌==◌, if◌then◌else◌,
}
use sandals.Os.{
  Kernel, M, pure, exit, starve, ◌>>=◌, ◌>>◌, call, call_pair, store_errno, Res, ok, err, Errno,
  duplicate, set_filter, execute, wait_any,
}
use sandals.Fail.{die, response_send}
use sandals.Request.{Request}
use sandals.Spawner.Channels.{Outputs}
use sandals.Spawner.Report.{task_response}

-- How the process goes on: it returns an exit code, or has become the command.
pub data Ended : Type 0 where
  returned : ℕ → Ended
  replaced : Ended

-- `*exec_errno = errno; exit(EXIT_FAILURE)`.
unfoldable pub abandon : Errno → M Ended
abandon e = store_errno e >> exit 1

-- One operand of the conjunction in the task: the next one follows if it has succeeded.
unfoldable pub and_then : M Ended → Res ℕ → M Ended
unfolding abandon
and_then next (ok _) = next
and_then next (err e) = abandon e

-- The body of the loop around `wait`.
unfoldable pub after_wait : M ℕ → ℕ → Res (ℕ × ℕ) → M ℕ
after_wait again child_pid (ok (pid, status)) = if pid == child_pid then pure status else again
after_wait again child_pid (err e) = again

module _ (k : Kernel) where
  unfoldable pub execute_command : Request → M Ended
  unfolding and_then
  execute_command request =
      let cmd : List Bytes = elim request.cmd [ none ↦ [] | some cmd ↦ cmd ] in
      let file : Bytes = elim cmd [ [] ↦ [] | c ∷ cs ↦ c ] in
      call k (execute file cmd request.env) >>= and_then (pure replaced)

  -- The filter comes last: it need not allow what comes before.
  unfoldable pub filter_task : ℕ → Request → M Ended
  unfolding and_then execute_command
  filter_task len request =
      if len == 0
      then execute_command request
      else (call k (set_filter len) >>= and_then (execute_command request))

  unfoldable pub run_task : ℕ → Outputs → ℕ → Request → M Ended
  unfolding and_then filter_task
  run_task devnull_fd o len request =
      call k (duplicate devnull_fd 0)
      >>= and_then (
          call k (duplicate o.stdout_fd 1)
          >>= and_then (call k (duplicate o.stderr_fd 2) >>= and_then (filter_task len request)))

  -- The status of the task; `rounds` bounds the calls of `wait`.
  unfoldable pub wait_task : ℕ → ℕ → M ℕ
  unfolding after_wait
  wait_task zero child_pid = starve
  wait_task (suc rounds) child_pid =
      call_pair k wait_any >>= after_wait (wait_task rounds child_pid) child_pid

module _ (k : Kernel) (response_fd fuel : ℕ) where
  -- `if (*exec_errno) fail(…)`.
  unfoldable pub after_exec : Request → Option Errno → M (Unit {0})
  after_exec request none = pure tt
  after_exec request (some e) = die k response_fd fuel tt (
      codes "exec '"
      ++ (elim request.cmd [ none ↦ [] | some [] ↦ [] | some (c ∷ cs) ↦ c ])
      ++ codes "': "
      ++ k.strerror e)

  unfoldable pub check_exec : Request → M (Unit {0})
  unfolding after_exec
  check_exec request t = after_exec request (k.exec_errno t) t

  -- Behind `fork`, in the spawner.
  unfoldable pub await_task : Bytes → ℕ → Request → ℕ → M Ended
  unfolding wait_task check_exec
  await_task beyond rounds request child_pid = do
    status ← wait_task k rounds child_pid
    _ ← check_exec request
    _ ← response_send k response_fd fuel (task_response beyond status)
    pure (returned 0)
