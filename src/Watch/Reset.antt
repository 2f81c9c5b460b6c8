-- ===== src/Watch/Reset.antt =====
-- src/supervisor.c: `spawner_pid` behind the loop.
use sandals.Prelude.{ℕ, ◌≡◌, refl, ◌∙◌, [], Option}
use sandals.Os.{Kernel, Trace, Outcome, returns, exits, starves, pending, spawner_pid_of}
use sandals.Os.Ending.{Ending, IsSteady}
use sandals.Os.Returning.{Returning, any-Returning}
use sandals.Cgroup.Owned.{steady-IsSame}
use sandals.Json.{Tokens}
use sandals.Pipes.{pipe_foreach}
use sandals.Request.{Request}
use sandals.Watch.State.{Supervisor, Revents}
use sandals.Watch.Loop.{watch, conclude}
use sandals.Watch.Start.{supervisor, store_sink, start_timer}
use sandals.Watch.Steady.{conclude-Ending}

-- The exit does not kill the spawner again.
abbrev pub IsReset : Trace → Type 0
IsReset t = spawner_pid_of t ≡ pending

IsReset-IsSteady : IsSteady IsReset
IsReset-IsSteady e t h reset = (steady-IsSame e t h).pid ∙ reset

ending-Returning :
    {A : Type 0} (P : Trace → Type 0) (r : Outcome A × Trace)
    → Ending P r
    → Returning (λ _ t. P t) r
ending-Returning P (returns a, t) p = p.end
ending-Returning P (exits c, t) p = tt
ending-Returning P (starves, t) p = tt

module _ (k : Kernel) (response_fd fuel : ℕ) where
  pub conclude-IsReset :
      (s : Supervisor) (t : Trace) → Ending IsReset (conclude k response_fd fuel s t)
  conclude-IsReset s t = conclude-Ending k response_fd fuel IsReset IsReset-IsSteady s t refl

  pub supervisor-IsReset :
      (toks : Tokens) (request : Request) (memory_fd pids_fd : Option ℕ) (spawnerout_fd : ℕ)
      (unset : Revents) (rounds : ℕ) (t : Trace)
      → Returning
          (λ _ t'. IsReset t')
          (supervisor k response_fd fuel toks request memory_fd pids_fd spawnerout_fd unset rounds
            t)
  unfolding supervisor
  supervisor-IsReset toks request memory_fd pids_fd spawnerout_fd unset rounds t =
      any-Returning (λ _ t'. IsReset t')
        (pipe_foreach toks k response_fd fuel (store_sink k response_fd fuel) request [] t) _
        (λ sinks u.
          any-Returning (λ _ t'. IsReset t') (start_timer k response_fd fuel request.time_limit u) _
            (λ timer_fd v.
              any-Returning (λ _ t'. IsReset t') (watch k response_fd fuel rounds _ v) _
                (λ s w. ending-Returning IsReset _ (conclude-IsReset s w))))
