-- ===== src/Os/Ending.antt =====
-- What holds however a run ends.
use sandals.Prelude.{◌≡◌, Bool, true, false, ◌∷◌, if◌then◌else◌}
use sandals.Os.Syscalls.{make_dir, spawner_pid, cgroup_path}
use sandals.Os.Calls.{Trace, Event, called, assigned}
use sandals.Os.Process.{Outcome, returns, exits, starves, M, bind_from}
use sandals.Os.Returning.{Returning}

pub record Ending {A : Type 0} (P : Trace → Type 0) (r : Outcome A × Trace) : Type 0 where
  pub end : P r.1

pub stop : {A : Type 0} (P : Trace → Type 0) (o : Outcome A) (t : Trace) → P t → Ending P (o, t)
stop P o t p = record { end = p }

pub Ending-bind :
    {A B : Type 0} (P : Trace → Type 0) (r : Outcome A × Trace) (f : A → M B)
    → Ending P r
    → ((a : A) (t : Trace) → P t → Ending P (f a t))
    → Ending P (bind_from r.0 r.1 f)
Ending-bind P (returns a, t) f p q = q a t p.end
Ending-bind P (exits c, t) f p q = stop P (exits c) t p.end
Ending-bind P (starves, t) f p q = stop P starves t p.end

-- What holds changes when a run returns.
pub change-Ending :
    {A B : Type 0} (P Q : Trace → Type 0) (r : Outcome A × Trace) (f : A → M B)
    → ((t : Trace) → P t → Q t)
    → Ending P r
    → ((a : A) (t : Trace) → P t → Ending Q (f a t))
    → Ending Q (bind_from r.0 r.1 f)
change-Ending P Q (returns a, t) f weaken p q = q a t p.end
change-Ending P Q (exits c, t) f weaken p q = stop Q (exits c) t (weaken t p.end)
change-Ending P Q (starves, t) f weaken p q = stop Q starves t (weaken t p.end)

-- Nothing follows a run that does not return.
pub never-Ending :
    {A B : Type 0} (P : Trace → Type 0) (r : Outcome A × Trace) (f : A → M B)
    → Returning (λ _ _. ⊥) r
    → Ending P r
    → Ending P (bind_from r.0 r.1 f)
never-Ending P (returns a, t) f never p = absurd never
never-Ending P (exits c, t) f never p = stop P (exits c) t p.end
never-Ending P (starves, t) f never p = stop P starves t p.end

pub if-Ending :
    {A : Type 0} (P : Trace → Type 0) (b : Bool) (m n : M A) (t : Trace)
    → Ending P (m t)
    → Ending P (n t)
    → Ending P ((if b then m else n) t)
if-Ending P true m n t p q = p
if-Ending P false m n t p q = q

-- The events that the ownership of the cgroup depends on.
abbrev pub is_cgroup_event : Event → Bool
is_cgroup_event (called (make_dir path) r) = true
is_cgroup_event (assigned (spawner_pid p)) = true
is_cgroup_event (assigned (cgroup_path path)) = true
is_cgroup_event _ = false

-- What does not depend on the other events.
abbrev pub IsSteady : (Trace → Type 0) → Type 0
IsSteady P = (e : Event) (t : Trace) → is_cgroup_event e ≡ false → P t → P (e ∷ t)
