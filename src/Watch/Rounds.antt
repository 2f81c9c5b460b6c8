-- ===== src/Watch/Rounds.antt =====
-- src/supervisor.c: the response in the buffer of the supervisor, through the rounds of its loop.
use sandals.Prelude.{ℕ, zero, suc, Bool, true, false, List}
use sandals.Os.{Kernel, Trace, M, pure, Res, ok, err, eintr}
use sandals.Os.Laws.{IsDocumented}
use sandals.Os.Returning.{Returning, Returning-bind}
use sandals.Fail.{time_limit}
use sandals.Fail.Never.{die-Returning}
use sandals.Watch.State.{Supervisor, pollfds}
use sandals.Watch.Loop.{
  check_pipes, check_spawner, check_timer, check_pids, check_events, after_poll, watch,
}
use sandals.Watch.Fits.{
  Fits, SupervisorFits, CheckedFits, mark-response, check-Fits, do_spawnerout-Fits, memory-Fits,
  pids-Fits, after_spawnerout-Fits, pipes-Fits, verdict-Fits,
}

module _ (k : Kernel) (response_fd fuel : ℕ) (laws : IsDocumented k) where
  spawner_part-Fits :
      (s : Supervisor) (t : Trace)
      → Fits s.response
      → Returning CheckedFits (check_spawner k response_fd fuel s t)
  unfolding check_spawner check_pipes
  spawner_part-Fits s t f =
      check-Fits s.revents.spawner_out _ _ s t
        (Returning-bind CheckedFits CheckedFits _ _
          (do_spawnerout-Fits k response_fd fuel laws s t f)
          (λ c u g. after_spawnerout-Fits k response_fd fuel laws c u g))
        (pipes-Fits k response_fd fuel laws) f

  timer_part-Fits :
      (s : Supervisor) (t : Trace)
      → Fits s.response
      → Returning CheckedFits (check_timer k response_fd fuel s t)
  unfolding check_timer
  timer_part-Fits s t f =
      check-Fits s.revents.timer _ _ s t (verdict-Fits time_limit) spawner_part-Fits f

  pids_part-Fits :
      (s : Supervisor) (t : Trace)
      → Fits s.response
      → Returning CheckedFits (check_pids k response_fd fuel s t)
  unfolding check_pids
  pids_part-Fits s t f =
      check-Fits s.revents.pids_events _ _ s t (pids-Fits k response_fd fuel laws s t f)
        timer_part-Fits f

  check_events-Fits :
      (s : Supervisor) (t : Trace)
      → Fits s.response
      → Returning CheckedFits (check_events k response_fd fuel s t)
  unfolding check_events
  check_events-Fits s t f =
      check-Fits s.revents.memory_events _ _ s t (memory-Fits k response_fd fuel laws s t f)
        pids_part-Fits f

  after_poll-Fits :
      (s : Supervisor) (r : Res (List Bool)) (t : Trace)
      → Fits s.response
      → Returning SupervisorFits (after_poll k response_fd fuel s r t)
  unfolding after_poll
  after_poll-Fits s (ok events) t f = rw (mark-response events s) f
  after_poll-Fits s (err eintr) t f = f
  after_poll-Fits s (err _) t f = die-Returning k response_fd fuel SupervisorFits s _ _

  leave_or-Fits :
      (b : Bool) (s : Supervisor) (again : M Supervisor) (t : Trace)
      → Returning SupervisorFits (again t)
      → Fits s.response
      → Returning SupervisorFits
          ((elim b as (λ _. M Supervisor) [ true ↦ pure s | false ↦ again ]) t)
  leave_or-Fits true s again t h f = f
  leave_or-Fits false s again t h f = h

  -- If the response fits when the loop is entered, it does whenever the loop is left: all bytes that
  -- are counted have been stored, and they are at most one more than a response may have.
  pub watch-Fits :
      (rounds : ℕ) (s : Supervisor) (t : Trace)
      → Fits s.response
      → Returning SupervisorFits (watch k response_fd fuel rounds s t)
  unfolding watch
  watch-Fits zero s t f = tt
  watch-Fits (suc rounds) s t f =
      Returning-bind SupervisorFits SupervisorFits _ _
        (after_poll-Fits s (k.poll t (pollfds s)) _ f)
        (λ s1 u g.
          Returning-bind CheckedFits SupervisorFits _ _ (check_events-Fits s1 u g) (λ c v g'.
            leave_or-Fits c.1 c.0 (watch k response_fd fuel rounds c.0) v
              (watch-Fits rounds c.0 v g') g'))
