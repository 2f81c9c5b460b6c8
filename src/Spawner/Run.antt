-- ===== src/Spawner/Run.antt =====
-- src/spawner.c: how the task comes to run the command.
use sandals.Prelude.{
  ℕ, ◌≡◌, refl, ap, List, [], ◌∷◌, ◌++◌, Bytes, none, some, Bool-cases, inl, inr, if◌then◌else◌,
  ◌==◌,
}
use sandals.Os.{
  Kernel, Trace, Errno, Outcome, returns, exits, starves, M, Res, ok, err, Call, called,
  stored_errno, duplicate, set_filter, execute, call, pure, ◌>>=◌,
}
use sandals.Request.{Request}
use sandals.Spawner.Channels.{Outputs}
use sandals.Spawner.Task.{
  Ended, returned, replaced, abandon, and_then, execute_command, filter_task, run_task,
}

-- The calls have been made in this order, and all have succeeded.
abbrev pub Succeeded : List Call → Trace → Trace → Type 0
Succeeded [] t t' = t' ≡ t
Succeeded (c ∷ cs) t t' = (n : ℕ) × Succeeded cs (called c (ok n) ∷ t) t'

-- The calls before one of them have succeeded; it has failed, and its error is stored.
pub record IsAbandoned (calls : List Call) (t t' : Trace) : Type 0 where
  pub before : List Call
  pub failed : Call
  pub behind : List Call
  pub reason : Errno
  pub upto : Trace
  pub split : calls ≡ before ++ failed ∷ behind
  pub succeeded : Succeeded before t upto
  pub last : t' ≡ stored_errno reason ∷ called failed (err reason) ∷ upto

-- An attempt at some calls: the process is replaced after all of them, or exits after the first that
-- fails.
abbrev pub Attempts : List Call → Trace → Outcome Ended × Trace → Type 0
Attempts calls t (returns (returned _), t') = ⊥
Attempts calls t (returns replaced, t') = Succeeded calls t t'
Attempts calls t (exits code, t') = (code ≡ 1) × IsAbandoned calls t t'
Attempts calls t (starves, t') = ⊥

-- What the task does for its request.
abbrev pub command_call : Request → Call
command_call request =
    let cmd : List Bytes = elim request.cmd [ none ↦ [] | some cmd ↦ cmd ] in
    execute (elim cmd [ [] ↦ [] | c ∷ cs ↦ c ]) cmd request.env

abbrev pub filter_calls : ℕ → Request → List Call
filter_calls len request =
    if len == 0 then command_call request ∷ [] else set_filter len ∷ command_call request ∷ []

abbrev pub task_calls : ℕ → Outputs → ℕ → Request → List Call
task_calls devnull_fd o len request =
    duplicate devnull_fd 0
    ∷ duplicate o.stdout_fd 1
    ∷ duplicate o.stderr_fd 2
    ∷ filter_calls len request

-- A call that has succeeded, in front.
more-Attempts :
    (c : Call) (calls : List Call) (n : ℕ) (t : Trace) (r : Outcome Ended × Trace)
    → Attempts calls (called c (ok n) ∷ t) r
    → Attempts (c ∷ calls) t r
more-Attempts c calls n t (returns (returned _), t') h = h
more-Attempts c calls n t (returns replaced, t') h = (n, h)
more-Attempts c calls n t (exits code, t') (e, h) = (
  e,
  record {
    before = c ∷ h.before;
    failed = h.failed;
    behind = h.behind;
    reason = h.reason;
    upto = h.upto;
    split = ap (λ cs. c ∷ cs) h.split;
    succeeded = (n, h.succeeded);
    last = h.last;
  },
)
more-Attempts c calls n t (starves, t') h = h

and_then-Attempts :
    (next : M Ended) (c : Call) (calls : List Call) (r : Res ℕ) (t : Trace)
    → ((u : Trace) → Attempts calls u (next u))
    → Attempts (c ∷ calls) t (and_then next r (called c r ∷ t))
unfolding and_then abandon
and_then-Attempts next c calls (ok n) t h = more-Attempts c calls n t _ (h (called c (ok n) ∷ t))
and_then-Attempts next c calls (err e) t h = (
  refl,
  record {
    before = [];
    failed = c;
    behind = calls;
    reason = e;
    upto = t;
    split = refl;
    succeeded = refl;
    last = refl;
  },
)

module _ (k : Kernel) where
  attempt-Attempts :
      (next : M Ended) (c : Call) (calls : List Call)
      → ((u : Trace) → Attempts calls u (next u))
      → (t : Trace) → Attempts (c ∷ calls) t ((call k c >>= and_then next) t)
  attempt-Attempts next c calls h t = and_then-Attempts next c calls (k.call t c) t h

  execute_command-Attempts :
      (request : Request) (t : Trace)
      → Attempts (command_call request ∷ []) t (execute_command k request t)
  unfolding execute_command
  execute_command-Attempts request =
      attempt-Attempts (pure replaced) (command_call request) [] (λ u. refl)

  filter_task-Attempts :
      (len : ℕ) (request : Request) (t : Trace)
      → Attempts (filter_calls len request) t (filter_task k len request t)
  unfolding filter_task
  filter_task-Attempts len request t = elim (Bool-cases (len == 0)) [
    | inl e ↦ rw e (execute_command-Attempts request t)
    | inr e ↦ rw e (
        attempt-Attempts (execute_command k request) (set_filter len) (command_call request ∷ [])
          (execute_command-Attempts request) t)
  ]

  -- The task never returns to the code of the spawner, and never starves. It becomes the command
  -- after its three standard streams are in place and then, if there is a filter, the filter is; or
  -- the first of these calls that fails is the last one, its error is stored for the spawner, and the
  -- task exits with EXIT_FAILURE.
  pub run_task-Attempts :
      (devnull_fd : ℕ) (o : Outputs) (len : ℕ) (request : Request) (t : Trace)
      → Attempts (task_calls devnull_fd o len request) t (run_task k devnull_fd o len request t)
  unfolding run_task
  run_task-Attempts devnull_fd o len request = attempt-Attempts _ (duplicate devnull_fd 0) two (
      attempt-Attempts _ (duplicate o.stdout_fd 1) one (
        attempt-Attempts (filter_task k len request) (duplicate o.stderr_fd 2)
          (filter_calls len request) (filter_task-Attempts len request)))
    where
      one : List Call
      one = duplicate o.stderr_fd 2 ∷ filter_calls len request

      two : List Call
      two = duplicate o.stdout_fd 1 ∷ one
