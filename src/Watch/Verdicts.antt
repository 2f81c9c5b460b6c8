-- ===== src/Watch/Verdicts.antt =====
-- src/supervisor.c: which verdict the checks of one round come to.
use sandals.Prelude.{
  ℕ, ◌≡◌, refl, sym, ap, subst, ◌∙◌, Bool, true, false, ◌&&◌, Bytes, codes, Option, none, some,
  if◌then◌else◌,
}
use sandals.Os.{Kernel, Trace, M, Outcome, returns, exits, starves, pure, bind_from, ◌>>=◌}
use sandals.Response.{Response}
use sandals.Fail.{Status, memory_limit, pids_limit, time_limit}
use sandals.Counter.{cgroup_counter_nonzero}
use sandals.Watch.State.{Supervisor, verdict, Checked, otherwise}
use sandals.Watch.Checks.{
  after_counter, do_memoryevents, do_pidsevents, do_spawnerout, do_pipes, check_counter,
}
use sandals.Watch.Loop.{
  expire, after_spawnerout, check_pipes, check_spawner, check_timer, check_pids, check_events,
}
use sandals.Watch.Messages.{Keeps, do_spawnerout-Keeps}

-- What a check of a counter leaves that is positive or is not.
abbrev settled_by : Status → Supervisor → Bool → Checked
settled_by status s hit = if hit then (record s { response = verdict status }, true) else (s, false)

-- What becomes of the response of the spawner: the memory limit comes before that of processes.
abbrev pub last_response : Bool → Bool → Response → Response
last_response m p r = if m then verdict memory_limit else if p then verdict pids_limit else r

abbrev break_off : Checked → M Checked
break_off c = pure (c.0, true)

bind_value :
    {A B : Type 0} (r : Outcome A × Trace) (a : A) (f : A → M B)
    → r.0 ≡ returns a
    → bind_from r.0 r.1 f ≡ f a r.1
bind_value r a f e = rw e refl

module _ (k : Kernel) (response_fd fuel : ℕ) where
  -- What the counter of a file says, at any point of a run; without the file there is none.
  abbrev pub CounterSays : Bytes → Bytes → Option ℕ → Bool → Type 0
  CounterSays key file none m = m ≡ false
  CounterSays key file (some fd) m =
      (t : Trace) → (cgroup_counter_nonzero k response_fd fuel fd key file fuel t).0 ≡ returns m

  abbrev pub MemorySays : Option ℕ → Bool → Type 0
  MemorySays = CounterSays (codes "oom_kill ") (codes "memory.events")

  abbrev pub PidsSays : Option ℕ → Bool → Type 0
  PidsSays = CounterSays (codes "max ") (codes "pids.events")

  check_counter-settled_by :
      (status : Status) (key file : Bytes) (fd : Option ℕ) (s : Supervisor) (m : Bool) (t : Trace)
      → CounterSays key file fd m
      → (check_counter k response_fd fuel status key file fd s t).0
        ≡ returns (settled_by status s m)
  unfolding check_counter after_counter
  check_counter-settled_by status key file none s m t h = rw h refl
  check_counter-settled_by status key file (some fd) s m t h = rw (h t) refl

  memory-settled_by :
      (s : Supervisor) (m : Bool) (t : Trace)
      → MemorySays s.memory_fd m
      → (do_memoryevents k response_fd fuel s t).0 ≡ returns (settled_by memory_limit s m)
  unfolding do_memoryevents
  memory-settled_by s m t h = check_counter-settled_by memory_limit _ _ s.memory_fd s m t h

  pids-settled_by :
      (s : Supervisor) (p : Bool) (t : Trace)
      → PidsSays s.pids_fd p
      → (do_pidsevents k response_fd fuel s t).0 ≡ returns (settled_by pids_limit s p)
  unfolding do_pidsevents
  pids-settled_by s p t h = check_counter-settled_by pids_limit _ _ s.pids_fd s p t h

  -- How the spawner's part of a round ends, by how `do_spawnerout` ended.
  abbrev Follows : Bool → Bool → Outcome Checked × Trace → Outcome Checked × Trace → Type 0
  Follows m p (returns (s1, true), u) r =
      r.0 ≡ returns (record s1 { response = last_response m p s1.response }, true)
  Follows m p (returns (s1, false), u) r = r ≡ do_pipes k response_fd fuel s1 u
  Follows m p (exits c, u) r = r.0 ≡ exits c
  Follows m p (starves, u) r = r.0 ≡ starves

  -- At some point `u` of the run the spawner decides, or the pipes do.
  abbrev Continues : Bool → Bool → Supervisor → Outcome Checked × Trace → Type 0
  Continues m p s r =
      (u : Trace) × (if s.revents.spawner_out
        then Follows m p (do_spawnerout k response_fd fuel s u) r
        else (r ≡ do_pipes k response_fd fuel s u))

  abbrev Gives : Status → Supervisor → Outcome Checked × Trace → Type 0
  Gives status s r = r.0 ≡ returns (record s { response = verdict status }, true)

  abbrev DecidesTimer : Bool → Bool → Supervisor → Outcome Checked × Trace → Type 0
  DecidesTimer m p s r = if s.revents.timer then Gives time_limit s r else Continues m p s r

  abbrev DecidesPids : Bool → Bool → Supervisor → Outcome Checked × Trace → Type 0
  DecidesPids m p s r =
      if s.revents.pids_events && p then Gives pids_limit s r else DecidesTimer m p s r

  -- How the checks of a round end.
  abbrev pub Decides : Bool → Bool → Supervisor → Outcome Checked × Trace → Type 0
  Decides m p s r =
      if s.revents.memory_events && m then Gives memory_limit s r else DecidesPids m p s r

  after_memory :
      (m : Bool) (s : Supervisor) (t : Trace)
      → MemorySays s.memory_fd m
      → ((do_memoryevents k response_fd fuel s >>= break_off) t).0
        ≡ returns (record s { response = if m then verdict memory_limit else s.response }, true)
  after_memory true s t h = ap (λ x. x.0) (bind_value _ _ break_off (memory-settled_by s true t h))
  after_memory false s t h =
      ap (λ x. x.0) (bind_value _ _ break_off (memory-settled_by s false t h))

  -- A counter that is looked at again after the spawner has finished.
  recheck-last_response :
      (m p : Bool) (s : Supervisor) (t : Trace)
      → MemorySays s.memory_fd m
      → PidsSays s.pids_fd p
      → (after_spawnerout k response_fd fuel (s, true) t).0
        ≡ returns (record s { response = last_response m p s.response }, true)
  unfolding after_spawnerout
  recheck-last_response m true s t hm hp =
      ap (λ x. x.0) (bind_value _ _ _ (pids-settled_by s true t hp))
      ∙ after_memory m (record s { response = verdict pids_limit }) _ hm
  recheck-last_response m false s t hm hp =
      ap (λ x. x.0) (bind_value _ _ _ (pids-settled_by s false t hp)) ∙ after_memory m s _ hm

  finished-Follows :
      (m p : Bool) (s : Supervisor) (r : Outcome Checked × Trace)
      → MemorySays s.memory_fd m
      → PidsSays s.pids_fd p
      → Keeps s r
      → Follows m p r (
          (((λ _. r) >>= after_spawnerout k response_fd fuel)
              >>= otherwise (check_pipes k response_fd fuel))
            r.1)
  unfolding check_pipes after_spawnerout
  finished-Follows m p s (returns (s1, true), u) hm hp (em, ep) =
      ap (λ x. x.0)
        (bind_value _ _ (otherwise (check_pipes k response_fd fuel)) (
          recheck-last_response m p s1 u (subst (λ f. MemorySays f m) (sym em) hm)
            (subst (λ f. PidsSays f p) (sym ep) hp)))
  finished-Follows m p s (returns (s1, false), u) hm hp keeps = refl
  finished-Follows m p s (exits c, u) hm hp keeps = refl
  finished-Follows m p s (starves, u) hm hp keeps = refl

  spawner_part :
      (event m p : Bool) (s : Supervisor) (t : Trace)
      → MemorySays s.memory_fd m
      → PidsSays s.pids_fd p
      → (let r =
            (((if event
                  then do_spawnerout k response_fd fuel s >>= after_spawnerout k response_fd fuel
                  else pure (s, false))
                >>= otherwise (check_pipes k response_fd fuel))
              t) in
          if event
          then Follows m p (do_spawnerout k response_fd fuel s t) r
          else (r ≡ do_pipes k response_fd fuel s t))
  unfolding check_pipes
  spawner_part true m p s t hm hp =
      finished-Follows m p s (do_spawnerout k response_fd fuel s t) hm hp
        (do_spawnerout-Keeps k response_fd fuel s t)
  spawner_part false m p s t hm hp = refl

  -- One check of a counter: with a verdict the round ends, without one it goes on.
  counter_part :
      (status : Status) (s : Supervisor) (event hit : Bool) (x : M Checked) (t : Trace)
      (next : Supervisor → M Checked) (P : Outcome Checked × Trace → Type 0)
      → (x t).0 ≡ returns (settled_by status s hit)
      → ((u : Trace) → P (next s u))
      → (let r = ((if event then x else pure (s, false)) >>= otherwise next) t in
          if event && hit then Gives status s r else P r)
  counter_part status s false hit x t next P h rest = rest t
  counter_part status s true true x t next P h rest =
      ap (λ r. r.0) (bind_value _ _ (otherwise next) h)
  counter_part status s true false x t next P h rest =
      subst P (sym (bind_value _ _ (otherwise next) h)) (rest (x t).1)

  timer_part :
      (event m p : Bool) (s : Supervisor) (t : Trace)
      → MemorySays s.memory_fd m
      → PidsSays s.pids_fd p
      → (let r =
            ((if event then expire k response_fd fuel s else pure (s, false))
                >>= otherwise (check_spawner k response_fd fuel))
              t in
          if event then Gives time_limit s r else Continues m p s r)
  unfolding check_spawner
  timer_part true m p s t hm hp = refl
  timer_part false m p s t hm hp = (t, spawner_part s.revents.spawner_out m p s t hm hp)

  -- With what the counters say at any point of a run: the checks of a round take the memory limit
  -- before the limit of processes, and that before the time limit, where the event has come and, for
  -- a counter, it is positive. Without one of these, if the spawner is ready and has finished, the
  -- counters are looked at again and replace its response, the memory limit first; if it has not
  -- finished, or is not ready, the pipes decide.
  pub check_events-Decides :
      (m p : Bool) (s : Supervisor) (t : Trace)
      → MemorySays s.memory_fd m
      → PidsSays s.pids_fd p
      → Decides m p s (check_events k response_fd fuel s t)
  unfolding check_events check_pids check_timer
  check_events-Decides m p s t hm hp =
      counter_part memory_limit s s.revents.memory_events m (do_memoryevents k response_fd fuel s) t
        (check_pids k response_fd fuel) (DecidesPids m p s) (memory-settled_by s m t hm)
        (λ u.
          counter_part pids_limit s s.revents.pids_events p (do_pidsevents k response_fd fuel s) u
            (check_timer k response_fd fuel) (DecidesTimer m p s) (pids-settled_by s p u hp)
            (λ v. timer_part s.revents.timer m p s v hm hp))
