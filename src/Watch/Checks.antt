-- ===== src/Watch/Checks.antt =====
-- src/supervisor.c: `do_memoryevents`, `do_pidsevents`, `do_spawnerout` and `do_pipes`.
use sandals.Prelude.{
  ℕ, ◌+◌, ◌-◌, Bool, true, false, List, ◌++◌, codes, none, some, length, ◌==◌, if◌then◌else◌, Bytes,
  Option,
}
use sandals.Os.{Kernel, M, pure, ◌>>=◌, recvmsg, Res, ok, err, eagain, Message}
use sandals.Response.{buf_size}
use sandals.Fail.{memory_limit, pids_limit, output_limit, Status, die}
use sandals.Counter.{cgroup_counter_nonzero}
use sandals.Supervisor.{Channel, pass}
use sandals.Watch.State.{Supervisor, pipe0_index, verdict, take_rights, Checked, received_text}

module _ (k : Kernel) (response_fd fuel : ℕ) where
  unfoldable pub after_counter : Status → Supervisor → Bool → M Checked
  after_counter status s hit =
      pure (if hit then (record s { response = verdict status }, true) else (s, false))

  -- The body of `do_memoryevents` and of `do_pidsevents`.
  unfoldable pub check_counter : Status → Bytes → Bytes → Option ℕ → Supervisor → M Checked
  unfolding after_counter
  check_counter status key file none s = pure (s, false)
  check_counter status key file (some fd) s =
      cgroup_counter_nonzero k response_fd fuel fd key file fuel >>= after_counter status s

  unfoldable pub do_memoryevents : Supervisor → M Checked
  unfolding check_counter
  do_memoryevents s =
      check_counter memory_limit (codes "oom_kill ") (codes "memory.events") s.memory_fd s

  unfoldable pub do_pidsevents : Supervisor → M Checked
  unfolding check_counter
  do_pidsevents s = check_counter pids_limit (codes "max ") (codes "pids.events") s.pids_fd s

  -- After `recvmsg`.
  unfoldable pub after_recvmsg : Supervisor → Res Message → M Checked
  after_recvmsg s (err eagain) = pure (s, false)
  after_recvmsg s (err e) =
      die k response_fd fuel (s, false) (codes "Receiving response: " ++ k.strerror e)
  after_recvmsg s (ok message) =
      if length message.body == 0
      then (if s.response.size == 0
          then die k response_fd fuel (s, true) (codes "Empty response")
          else pure (s, true))
      else elim message.rights [
        | none ↦ pure (received_text message.body s)
        | some fds ↦
            if length fds == length s.channels
            then pure (take_rights fds s, false)
            else pure (received_text message.body s)
      ]

  unfoldable pub do_spawnerout : Supervisor → M Checked
  unfolding after_recvmsg
  do_spawnerout s = recvmsg k s.spawnerout_fd (buf_size + 1 - s.response.size) >>= after_recvmsg s

  -- What a pass over the pipes leaves.
  abbrev pub after_pass : Supervisor → List Channel × Bool → Checked
  after_pass s (cs, exceeded) = (
    record s { channels = cs; response = if exceeded then verdict output_limit else s.response },
    exceeded,
  )

  unfoldable pub do_pipes : Supervisor → M Checked
  do_pipes s = pass k response_fd fuel fuel s.exiting (s.npollfd - pipe0_index) s.channels >>= λ r.
      pure (after_pass s r)
