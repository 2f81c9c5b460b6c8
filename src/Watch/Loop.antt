-- ===== src/Watch/Loop.antt =====
-- src/supervisor.c: the loop of `supervisor`, and what follows it.
use sandals.Prelude.{ℕ, zero, suc, ◌+◌, Bool, true, false, List, ◌++◌, codes, if◌then◌else◌}
use sandals.Os.{
  Kernel, M, pure, starve, ◌>>=◌, ◌>>◌, poll, kill_spawner, assign, spawner_pid, pending, Res, ok,
  err, eintr,
}
use sandals.Fail.{time_limit, die, response_send}
use sandals.Watch.State.{Supervisor, verdict, pollfds, mark, Checked, otherwise}
use sandals.Watch.Checks.{do_memoryevents, do_pidsevents, do_spawnerout, do_pipes}

module _ (k : Kernel) (response_fd fuel : ℕ) where
  -- The timer has run out.
  abbrev pub expire : Supervisor → M Checked
  expire s = pure (record s { response = verdict time_limit }, true)

  -- The response of the spawner is complete. The counters are looked at once more.
  unfoldable pub after_spawnerout : Checked → M Checked
  unfolding do_memoryevents do_pidsevents
  after_spawnerout (s, false) = pure (s, false)
  after_spawnerout (s, true) = do
    p ← do_pidsevents k response_fd fuel s
    m ← do_memoryevents k response_fd fuel p.0
    pure (m.0, true)

  -- The checks in the body of the loop, after `poll`.
  unfoldable pub check_pipes : Supervisor → M Checked
  unfolding do_pipes
  check_pipes s = do_pipes k response_fd fuel s

  unfoldable pub check_spawner : Supervisor → M Checked
  unfolding do_spawnerout after_spawnerout check_pipes
  check_spawner s =
      (if s.revents.spawner_out
        then do_spawnerout k response_fd fuel s >>= after_spawnerout
        else pure (s, false))
      >>= otherwise check_pipes

  unfoldable pub check_timer : Supervisor → M Checked
  unfolding check_spawner
  check_timer s =
      (if s.revents.timer then expire s else pure (s, false)) >>= otherwise check_spawner

  unfoldable pub check_pids : Supervisor → M Checked
  unfolding do_pidsevents check_timer
  check_pids s =
      (if s.revents.pids_events then do_pidsevents k response_fd fuel s else pure (s, false))
      >>= otherwise check_timer

  unfoldable pub check_events : Supervisor → M Checked
  unfolding do_memoryevents check_pids
  check_events s =
      (if s.revents.memory_events then do_memoryevents k response_fd fuel s else pure (s, false))
      >>= otherwise check_pids

  -- After `poll`. A signal leaves the events as they were.
  unfoldable pub after_poll : Supervisor → Res (List Bool) → M Supervisor
  unfolding mark
  after_poll s (ok events) = pure (mark events s)
  after_poll s (err eintr) = pure s
  after_poll s (err e) = die k response_fd fuel s (codes "poll: " ++ k.strerror e)

  -- The loop; `rounds` bounds the calls of `poll`.
  unfoldable pub watch : ℕ → Supervisor → M Supervisor
  unfolding after_poll check_events
  watch zero s = starve
  watch (suc rounds) s = do
    events ← poll k (pollfds s)
    polled ← after_poll s events
    checked ← check_events polled
    elim checked.1 [ true ↦ pure checked.0 | false ↦ watch rounds checked.0 ]

  -- Behind the loop: the spawner is killed, and `spawner_pid` set to -1; what is left in the pipes is copied, and the response
  -- is sent.
  unfoldable pub conclude : Supervisor → M ℕ
  unfolding do_pipes
  conclude s =
      kill_spawner
      >> assign (spawner_pid pending)
      >> do_pipes k response_fd fuel
          (record s { exiting = true; npollfd = s.npollfd + s.ncopyfile })
      >>= λ r. response_send k response_fd fuel r.0.response >> pure 0
