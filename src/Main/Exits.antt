-- ===== src/Main/Exits.antt =====
-- src/sandals.c: what the process leaves behind when it exits.
use sandals.Prelude.{ℕ, zero, suc, ◌≡◌, ◌≢◌, inl, refl, sym, ◌∙◌, [], ◌∷◌, Option, some, none}
use sandals.Os.{
  Kernel, Trace, M, Outcome, returns, exits, starves, Res, ok, err, called, called_pair, assigned,
  closed, ignored_sigpipe, clone, socket_pair, pending, running, spawner_pid, spawner_pid_of,
  SpawnerPid, no_cleanup, ◌>>=◌, pure, call,
}
use sandals.Os.Ending.{Ending, Ending-bind, change-Ending}
use sandals.Os.Returning.{Returning, Returning-bind, any-Returning}
use sandals.Fail.Never.{die-Returning}
use sandals.Fail.Steady.{die-Ending}
use sandals.Json.{Tokens}
use sandals.Request.{Request}
use sandals.Cgroup.Configure.{CgroupCtx, no_cgroup, configure_cgroup}
use sandals.Cgroup.Owned.{IsUntouched, IsTidy, IsTidy-IsSteady, IsUntouched-IsSteady}
use sandals.Cgroup.Tidy.{configure_cgroup-IsTidy}
use sandals.Spawner.Task.{Ended, returned, replaced}
use sandals.Watch.Reset.{IsReset, supervisor-IsReset}
use sandals.Watch.Steady.{supervisor-Ending}
use sandals.Prelude.{ltb}
use sandals.Os.Ending.{if-Ending}
use sandals.Os.Returning.{if-Returning}
use sandals.Request.{default_request}
use sandals.Request.Receive.{request_recv}
use sandals.Request.Unchanged.{request_recv-Ending}
use sandals.Main.{
  main, process, Host, stdout_fileno, after_socketpair, cgroup_of, after_clone, parent, serve,
  leave,
}
use sandals.Main.Held.{
  IsHandled, IsHandled-IsSteady, reset-IsHandled, tidy-IsHandled, running_lem, assigned-IsHandled,
  Cleaned, cleanup-Cleaned,
}

-- No process is left to be killed by the exit.
abbrev pub IsReleased : Trace → Type 0
IsReleased t = (pid : ℕ) → spawner_pid_of t ≢ running pid

-- How `main` ends, and the exit behind it. It does not become another program.
abbrev pub Cleans : Kernel → ℕ → Outcome Ended × Trace → Outcome (Unit {0}) × Trace → Type 0
Cleans k rounds (returns (returned code), t) r = IsReleased t × Cleaned k rounds t r
Cleans k rounds (returns replaced, t) r = ⊥
Cleans k rounds (exits code, t) r = Cleaned k rounds t r
Cleans k rounds (starves, t) r = r ≡ (starves, t)

abbrev IsReturned : Ended → Trace → Type 0
IsReturned e t = (code : ℕ) × (e ≡ returned code) × IsReleased t

pending_ne : (pid : ℕ) → ◌≢◌ {A = SpawnerPid} pending (running pid)
pending_ne pid e = cc

unset_ne : (pid : ℕ) → ◌≢◌ {A = SpawnerPid} no_cleanup (running pid)
unset_ne pid e = cc

reset-IsReleased : (t : Trace) → IsReset t → IsReleased t
reset-IsReleased t reset pid e = pending_ne pid (sym reset ∙ e)

replaced_ne : (code : ℕ) → replaced ≢ returned code
replaced_ne code e = cc

module _ (k : Kernel) (fuel rounds : ℕ) (host : Host) where
  leave-Cleans :
      (r : Outcome Ended × Trace)
      → Ending IsHandled r
      → Returning IsReturned r
      → Cleans k rounds r (leave k fuel rounds host r)
  unfolding leave
  leave-Cleans (returns (returned code), t) h (c, e, released) =
      (released, cleanup-Cleaned k rounds t h.end)
  leave-Cleans (returns replaced, t) h ret = absurd (let (c, e, _) = ret in replaced_ne c e)
  leave-Cleans (exits code, t) h ret = cleanup-Cleaned k rounds t h.end
  leave-Cleans (starves, t) h ret = refl

  after_socketpair-Ending :
      (r : Res (ℕ × ℕ)) (t : Trace)
      → IsUntouched t
      → Ending IsUntouched (after_socketpair k fuel rounds host r t)
  unfolding after_socketpair
  after_socketpair-Ending (ok ends) t p = record { end = p }
  after_socketpair-Ending (err e) t p =
      die-Ending k stdout_fileno fuel IsUntouched IsUntouched-IsSteady _ _ t p

  cgroup_if-IsTidy :
      (config : Option ℕ) (toks : Tokens) (request : Request) (t : Trace)
      → IsUntouched t
      → Ending IsTidy (
          (elim config as (λ _. M CgroupCtx) [
            | none ↦ pure no_cgroup
            | some c ↦ configure_cgroup k stdout_fileno fuel toks request c
          ])
            t)
  cgroup_if-IsTidy none toks request t u = record { end = inl u }
  cgroup_if-IsTidy (some c) toks request t u =
      configure_cgroup-IsTidy k stdout_fileno fuel toks request c t u

  parent-Ending :
      (toks : Tokens) (request : Request) (ctx : CgroupCtx) (out into : ℕ) (t : Trace)
      → IsHandled t
      → Ending IsHandled (parent k fuel rounds host toks request ctx (out, into) t)
  unfolding parent
  parent-Ending toks request ctx out into t p =
      Ending-bind IsHandled _ _
        (supervisor-Ending k stdout_fileno fuel IsHandled IsHandled-IsSteady toks request
          ctx.memoryevents_fd ctx.pidsevents_fd out host.unset rounds
          (closed into ∷ ignored_sigpipe ∷ t) reset-IsHandled
          (IsHandled-IsSteady (closed into) _ refl (IsHandled-IsSteady ignored_sigpipe t refl p)))
        (λ code u q. record { end = q })

  module _ (toks : Tokens) (request : Request) where
    after_clone-Ending :
        (ctx : CgroupCtx) (ends : ℕ × ℕ) (r : Res ℕ) (t : Trace)
        → r ≢ ok 0
        → IsTidy t
        → Ending IsHandled (after_clone k fuel rounds host toks request ctx ends r t)
    unfolding after_clone
    after_clone-Ending ctx ends (err e) t ne p =
        die-Ending k stdout_fileno fuel IsHandled IsHandled-IsSteady _ _ _
          (assigned-IsHandled pending t (λ path h. h) p)
    after_clone-Ending ctx ends (ok zero) t ne p = absurd (ne refl)
    after_clone-Ending ctx (out, into) (ok (suc pid)) t ne p =
        parent-Ending toks request ctx out into _
          (assigned-IsHandled (running (suc pid)) t (running_lem (suc pid)) p)

    after_clone-Returning :
        (ctx : CgroupCtx) (ends : ℕ × ℕ) (r : Res ℕ) (t : Trace)
        → r ≢ ok 0
        → Returning IsReturned (after_clone k fuel rounds host toks request ctx ends r t)
    unfolding after_clone parent
    after_clone-Returning ctx ends (err e) t ne = die-Returning k stdout_fileno fuel _ _ _ _
    after_clone-Returning ctx ends (ok zero) t ne = absurd (ne refl)
    after_clone-Returning ctx (out, into) (ok (suc pid)) t ne =
        Returning-bind (λ _ u. IsReset u) IsReturned _ (λ code. pure (returned code))
          (supervisor-IsReset k stdout_fileno fuel toks request ctx.memoryevents_fd
            ctx.pidsevents_fd out host.unset rounds
            (closed into ∷ ignored_sigpipe ∷ assigned (spawner_pid (running (suc pid))) ∷ t))
          (λ code u reset. (code, refl, reset-IsReleased u reset))

    serve-Ending :
        (t : Trace)
        → ((u : Trace) → k.call u clone ≢ ok 0)
        → IsUntouched t
        → Ending IsHandled (serve k fuel rounds host toks request t)
    unfolding serve cgroup_of
    serve-Ending t in_parent p =
        change-Ending IsUntouched IsHandled _ _ (λ _ u. inl u.none_made)
          (after_socketpair-Ending (k.call_pair t socket_pair) _
            (IsUntouched-IsSteady (called_pair socket_pair (k.call_pair t socket_pair)) t refl p))
          (λ ends u q.
            change-Ending IsTidy IsHandled _ _ tidy-IsHandled
              (cgroup_if-IsTidy request.cgroup_config toks request u q)
              (λ ctx v q'.
                after_clone-Ending ctx ends (k.call v clone) _ (in_parent v)
                  (IsTidy-IsSteady (called clone (k.call v clone)) v refl q')))

    serve-Returning :
        (t : Trace)
        → ((u : Trace) → k.call u clone ≢ ok 0)
        → Returning IsReturned (serve k fuel rounds host toks request t)
    unfolding serve
    serve-Returning t in_parent =
        any-Returning IsReturned
          (after_socketpair k fuel rounds host (k.call_pair t socket_pair)
            (called_pair socket_pair (k.call_pair t socket_pair) ∷ t))
          (λ ends. cgroup_of k fuel rounds host toks request >>= cloned ends)
          (λ ends u.
            any-Returning IsReturned (cgroup_of k fuel rounds host toks request u) (cloned ends)
              (λ ctx v.
                after_clone-Returning ctx ends (k.call v clone) (called clone (k.call v clone) ∷ v)
                  (in_parent v)))
      where
        cloned : ℕ × ℕ → CgroupCtx → M Ended
        cloned ends ctx = call k clone >>= after_clone k fuel rounds host toks request ctx ends

  starting : IsUntouched []
  starting = record { none_made = refl; disabled = refl }

  main-Ending :
      (argc : ℕ)
      → ((u : Trace) → k.call u clone ≢ ok 0)
      → Ending IsHandled (main k fuel rounds host argc [])
  unfolding main
  main-Ending argc in_parent =
      if-Ending IsHandled (ltb 1 argc) _ _ [] (record { end = inl refl })
        (change-Ending IsUntouched IsHandled _ _ (λ _ u. inl u.none_made)
          (request_recv-Ending k stdout_fileno fuel IsUntouched IsUntouched-IsSteady host.jstr_parse
            default_request rounds [] starting)
          (λ r t u. serve-Ending r.0 r.1 t in_parent u))

  main-Returning :
      (argc : ℕ)
      → ((u : Trace) → k.call u clone ≢ ok 0)
      → Returning IsReturned (main k fuel rounds host argc [])
  unfolding main
  main-Returning argc in_parent =
      if-Returning IsReturned (ltb 1 argc) _ _ [] (λ _. (1, refl, unset_ne))
        (λ _.
          any-Returning IsReturned
            (request_recv k stdout_fileno fuel host.jstr_parse default_request rounds [])
            (λ r. serve k fuel rounds host r.0 r.1) (λ r t. serve-Returning r.0 r.1 t in_parent))

  -- However the process ends, unless the fuel of a loop runs out: where `main` returns and wherever
  -- the program exits, whatever it has been sent and whatever the kernel answers, no directory has
  -- been made, or exactly one has, and the exit removes it: it closes the response, kills the spawner
  -- if it still runs, and then runs the loop that removes the cgroup. Where `main` returns,
  -- `spawner_pid` names no process, so that none is killed by the exit. The process is the one to
  -- which `clone` answers other than 0, and it does not become another program.
  pub process-Cleans :
      (argc : ℕ)
      → ((u : Trace) → k.call u clone ≢ ok 0)
      → Cleans k rounds (main k fuel rounds host argc []) (process k fuel rounds host argc [])
  unfolding process
  process-Cleans argc in_parent =
      leave-Cleans (main k fuel rounds host argc []) (main-Ending argc in_parent)
        (main-Returning argc in_parent)
