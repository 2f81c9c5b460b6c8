-- ===== src/Watch/Steady.antt =====
-- src/supervisor.c: what `supervisor` leaves alone, however it ends.
use sandals.Prelude.{
  ℕ, zero, suc, ◌+◌, ◌-◌, refl, Bool, true, false, List, [], ◌∷◌, Bytes, Option, some, none, length,
  ◌==◌, if◌then◌else◌,
}
use sandals.Os.{
  Kernel, Trace, M, Res, ok, err, eagain, eintr, Message, pure, polled, got_message, assigned,
  spawner_pid, pending, killed_spawner, made_timer, set_timer, ◌>>=◌,
}
use sandals.Os.Ending.{Ending, Ending-bind, if-Ending, IsSteady}
use sandals.Response.{buf_size}
use sandals.Fail.{Status, memory_limit, pids_limit}
use sandals.Fail.Steady.{die-Ending, response_send-Ending, open_checked-Ending}
use sandals.Json.{Tokens}
use sandals.Request.{Request}
use sandals.Pipes.{Pipe}
use sandals.Pipes.Steady.{pipe_foreach-Ending}
use sandals.Counter.Steady.{cgroup_counter_nonzero-Ending}
use sandals.Supervisor.{Channel}
use sandals.Supervisor.Steady.{pass-Ending}
use sandals.Watch.State.{
  Supervisor, Revents, pipe0_index, Checked, otherwise, received_text, take_rights, pollfds,
}
use sandals.Watch.Checks.{
  after_counter, check_counter, do_memoryevents, do_pidsevents, after_recvmsg, do_spawnerout,
  do_pipes,
}
use sandals.Watch.Loop.{
  after_spawnerout, check_pipes, check_spawner, check_timer, check_pids, check_events, after_poll,
  watch, conclude,
}
use sandals.Watch.Start.{sink_init, store_sink, after_timer, after_timerfd, start_timer, supervisor}

module _ (k : Kernel) (response_fd fuel : ℕ) (P : Trace → Type 0) (steady : IsSteady P) where
  check_counter-Ending :
      (status : Status) (key file : Bytes) (fd : Option ℕ) (s : Supervisor) (t : Trace)
      → P t
      → Ending P (check_counter k response_fd fuel status key file fd s t)
  unfolding check_counter after_counter
  check_counter-Ending status key file none s t p = record { end = p }
  check_counter-Ending status key file (some fd) s t p =
      Ending-bind P _ _
        (cgroup_counter_nonzero-Ending k response_fd fuel P steady fd key file fuel t p)
        (λ hit t' p'. record { end = p' })

  memory-Ending :
      (s : Supervisor) (t : Trace) → P t → Ending P (do_memoryevents k response_fd fuel s t)
  unfolding do_memoryevents
  memory-Ending s t p = check_counter-Ending memory_limit _ _ s.memory_fd s t p

  pids-Ending : (s : Supervisor) (t : Trace) → P t → Ending P (do_pidsevents k response_fd fuel s t)
  unfolding do_pidsevents
  pids-Ending s t p = check_counter-Ending pids_limit _ _ s.pids_fd s t p

  rights-Ending :
      (rights : Option (List ℕ)) (body : Bytes) (s : Supervisor) (t : Trace)
      → P t
      → Ending P (
          (elim rights as (λ _. M Checked) [
            | none ↦ pure (received_text body s)
            | some fds ↦
                if length fds == length s.channels
                then pure (take_rights fds s, false)
                else pure (received_text body s)
          ])
            t)
  rights-Ending none body s t p = record { end = p }
  rights-Ending (some fds) body s t p =
      if-Ending P (length fds == length s.channels) (pure (take_rights fds s, false)) (pure _) t
        (record { end = p }) (record { end = p })

  after_recvmsg-Ending :
      (s : Supervisor) (r : Res Message) (t : Trace)
      → P t
      → Ending P (after_recvmsg k response_fd fuel s r t)
  unfolding after_recvmsg
  after_recvmsg-Ending s (err eagain) t p = record { end = p }
  after_recvmsg-Ending s (err _) t p = die-Ending k response_fd fuel P steady _ _ t p
  after_recvmsg-Ending s (ok message) t p =
      if-Ending P (length message.body == 0) _ _ t
        (if-Ending P (s.response.size == 0) _ (pure (s, true)) t
          (die-Ending k response_fd fuel P steady _ _ t p) (record { end = p }))
        (rights-Ending message.rights message.body s t p)

  spawnerout-Ending :
      (s : Supervisor) (t : Trace) → P t → Ending P (do_spawnerout k response_fd fuel s t)
  unfolding do_spawnerout
  spawnerout-Ending s t p =
      let n = buf_size + 1 - s.response.size in
      after_recvmsg-Ending s (k.recvmsg t s.spawnerout_fd n) _
        (steady (got_message s.spawnerout_fd n (k.recvmsg t s.spawnerout_fd n)) t refl p)

  pipes-Ending : (s : Supervisor) (t : Trace) → P t → Ending P (do_pipes k response_fd fuel s t)
  unfolding do_pipes
  pipes-Ending s t p =
      Ending-bind P _ _
        (pass-Ending k response_fd fuel P steady fuel s.exiting (s.npollfd - pipe0_index) s.channels
          t p)
        (λ r t' p'. record { end = p' })

  after_spawnerout-Ending :
      (c : Checked) (t : Trace) → P t → Ending P (after_spawnerout k response_fd fuel c t)
  unfolding after_spawnerout
  after_spawnerout-Ending (s, false) t p = record { end = p }
  after_spawnerout-Ending (s, true) t p =
      Ending-bind P _ _ (pids-Ending s t p)
        (λ c u q. Ending-bind P _ _ (memory-Ending c.0 u q) (λ c' v q'. record { end = q' }))

  otherwise-Ending :
      (next : Supervisor → M Checked) (c : Checked) (t : Trace)
      → ((s' : Supervisor) (t' : Trace) → P t' → Ending P (next s' t'))
      → P t
      → Ending P (otherwise next c t)
  otherwise-Ending next (s, true) t h p = record { end = p }
  otherwise-Ending next (s, false) t h p = h s t p

  -- One check, and the next one unless the loop is left.
  check-Ending :
      (b : Bool) (check : M Checked) (next : Supervisor → M Checked) (s : Supervisor) (t : Trace)
      → Ending P (check t)
      → ((s' : Supervisor) (t' : Trace) → P t' → Ending P (next s' t'))
      → P t
      → Ending P (((if b then check else pure (s, false)) >>= otherwise next) t)
  check-Ending b check next s t h h' p =
      Ending-bind P _ (otherwise next)
        (if-Ending P b check (pure (s, false)) t h (record { end = p }))
        (λ c u q. otherwise-Ending next c u h' q)

  spawner_part-Ending :
      (s : Supervisor) (t : Trace) → P t → Ending P (check_spawner k response_fd fuel s t)
  unfolding check_spawner check_pipes
  spawner_part-Ending s t p =
      check-Ending s.revents.spawner_out _ _ s t
        (Ending-bind P _ _ (spawnerout-Ending s t p) (λ c u q. after_spawnerout-Ending c u q))
        pipes-Ending p

  timer_part-Ending :
      (s : Supervisor) (t : Trace) → P t → Ending P (check_timer k response_fd fuel s t)
  unfolding check_timer
  timer_part-Ending s t p =
      check-Ending s.revents.timer _ _ s t (record { end = p }) spawner_part-Ending p

  pids_part-Ending :
      (s : Supervisor) (t : Trace) → P t → Ending P (check_pids k response_fd fuel s t)
  unfolding check_pids
  pids_part-Ending s t p =
      check-Ending s.revents.pids_events _ _ s t (pids-Ending s t p) timer_part-Ending p

  check_events-Ending :
      (s : Supervisor) (t : Trace) → P t → Ending P (check_events k response_fd fuel s t)
  unfolding check_events
  check_events-Ending s t p =
      check-Ending s.revents.memory_events _ _ s t (memory-Ending s t p) pids_part-Ending p

  after_poll-Ending :
      (s : Supervisor) (r : Res (List Bool)) (t : Trace)
      → P t
      → Ending P (after_poll k response_fd fuel s r t)
  unfolding after_poll
  after_poll-Ending s (ok events) t p = record { end = p }
  after_poll-Ending s (err eintr) t p = record { end = p }
  after_poll-Ending s (err _) t p = die-Ending k response_fd fuel P steady _ _ t p

  leave_or-Ending :
      (b : Bool) (s : Supervisor) (again : M Supervisor) (t : Trace)
      → Ending P (again t)
      → P t
      → Ending P ((elim b as (λ _. M Supervisor) [ true ↦ pure s | false ↦ again ]) t)
  leave_or-Ending true s again t h p = record { end = p }
  leave_or-Ending false s again t h p = h

  watch-Ending :
      (rounds : ℕ) (s : Supervisor) (t : Trace)
      → P t
      → Ending P (watch k response_fd fuel rounds s t)
  unfolding watch
  watch-Ending zero s t p = record { end = p }
  watch-Ending (suc rounds) s t p =
      Ending-bind P _ _
        (after_poll-Ending s (k.poll t (pollfds s)) _
          (steady (polled (pollfds s) (k.poll t (pollfds s))) t refl p))
        (λ s1 u q. Ending-bind P _ _ (check_events-Ending s1 u q) (λ c v q'.
          leave_or-Ending c.1 c.0 (watch k response_fd fuel rounds c.0) v
            (watch-Ending rounds c.0 v q') q'))

  -- What holds once the spawner is killed and `spawner_pid` is -1.
  pub conclude-Ending :
      (s : Supervisor) (t : Trace)
      → P (assigned (spawner_pid pending) ∷ killed_spawner ∷ t)
      → Ending P (conclude k response_fd fuel s t)
  unfolding conclude
  conclude-Ending s t p =
      Ending-bind P _ _ (pipes-Ending _ (assigned (spawner_pid pending) ∷ killed_spawner ∷ t) p)
        (λ r u q.
          Ending-bind P _ _ (response_send-Ending k response_fd fuel P steady r.0.response u q)
            (λ _ v q'. record { end = q' }))

  store_sink-Ending :
      (index : ℕ) (pipe : Pipe) (cs : List Channel) (t : Trace)
      → P t
      → Ending P (store_sink k response_fd fuel index pipe cs t)
  unfolding store_sink sink_init
  store_sink-Ending index pipe cs t p =
      Ending-bind P _ _
        (Ending-bind P _ _ (open_checked-Ending k response_fd fuel P steady pipe.dest t p)
          (λ fd u q. record { end = q }))
        (λ c u q. record { end = q })

  after_timer-Ending :
      (r : Res (Unit {0})) (t : Trace) → P t → Ending P (after_timer k response_fd fuel r t)
  unfolding after_timer
  after_timer-Ending (ok _) t p = record { end = p }
  after_timer-Ending (err e) t p = die-Ending k response_fd fuel P steady _ _ t p

  after_timerfd-Ending :
      (r : Res ℕ) (t : Trace) → P t → Ending P (after_timerfd k response_fd fuel r t)
  unfolding after_timerfd
  after_timerfd-Ending (ok _) t p = record { end = p }
  after_timerfd-Ending (err e) t p = die-Ending k response_fd fuel P steady _ _ t p

  start_timer-Ending :
      (time : ℕ × ℕ) (t : Trace) → P t → Ending P (start_timer k response_fd fuel time t)
  unfolding start_timer
  start_timer-Ending (sec, nsec) t p =
      Ending-bind P _ _
        (after_timerfd-Ending (k.timerfd_create t) _
          (steady (made_timer (k.timerfd_create t)) t refl p))
        (λ fd u q.
          let time : ℕ × ℕ = (sec, if nsec == 0 then 1 else nsec) in
          Ending-bind P _ _
            (after_timer-Ending (k.timerfd_settime u fd time) _
              (steady (set_timer fd time (k.timerfd_settime u fd time)) u refl q))
            (λ _ v q'. record { end = q' }))

  pub supervisor-Ending :
      (toks : Tokens) (request : Request) (memory_fd pids_fd : Option ℕ) (spawnerout_fd : ℕ)
      (unset : Revents) (rounds : ℕ) (t : Trace)
      → ((u : Trace) → P u → P (assigned (spawner_pid pending) ∷ u))
      → P t
      → Ending P (
          supervisor k response_fd fuel toks request memory_fd pids_fd spawnerout_fd unset rounds t)
  unfolding supervisor
  supervisor-Ending toks request memory_fd pids_fd spawnerout_fd unset rounds t reset p =
      Ending-bind P _ _
        (pipe_foreach-Ending toks k response_fd fuel P steady (store_sink k response_fd fuel)
          store_sink-Ending request [] t p)
        (λ sinks u q. Ending-bind P _ _ (start_timer-Ending request.time_limit u q) (λ fd v q'.
          Ending-bind P _ _ (watch-Ending rounds _ v q')
            (λ s w q''. conclude-Ending s w (reset _ (steady killed_spawner w refl q'')))))
