-- ===== src/Os/Returning.antt =====
-- What holds whenever a run returns.
use sandals.Prelude.{◌≡◌, refl, Bool, true, false, if◌then◌else◌}
use sandals.Os.Calls.{Trace}
use sandals.Os.Process.{Outcome, returns, exits, starves, M, bind_from}

-- A run that exits or starves does not return, so it may be any.
abbrev pub Returning : {A : Type 0} → (A → Trace → Type 0) → Outcome A × Trace → Type 0
Returning P (returns a, t) = P a t
Returning P (exits _, t) = Unit
Returning P (starves, t) = Unit

pub Returning-bind :
    {A B : Type 0} (P : A → Trace → Type 0) (Q : B → Trace → Type 0) (r : Outcome A × Trace)
    (f : A → M B)
    → Returning P r
    → ((a : A) (t : Trace) → P a t → Returning Q (f a t))
    → Returning Q (bind_from r.0 r.1 f)
Returning-bind P Q (returns a, t) f p q = q a t p
Returning-bind P Q (exits _, t) f p q = tt
Returning-bind P Q (starves, t) f p q = tt

-- A run that determines its trace, and what follows it.
pub then-Returning :
    {A B : Type 0} (g : A → Trace) (Q : B → Trace → Type 0) (r : Outcome A × Trace) (f : A → M B)
    → Returning (λ a t. t ≡ g a) r
    → ((a : A) → Returning Q (f a (g a)))
    → Returning Q (bind_from r.0 r.1 f)
then-Returning g Q (returns a, t) f e q = rw e (q a)
then-Returning g Q (exits _, t) f e q = tt
then-Returning g Q (starves, t) f e q = tt

pub weaken-Returning :
    {A : Type 0} (P Q : A → Trace → Type 0) (r : Outcome A × Trace)
    → Returning P r
    → ((a : A) (t : Trace) → P a t → Q a t)
    → Returning Q r
weaken-Returning P Q (returns a, t) p q = q a t p
weaken-Returning P Q (exits _, t) p q = tt
weaken-Returning P Q (starves, t) p q = tt

-- Either branch of a test.
pub if-Returning :
    {A : Type 0} (P : A → Trace → Type 0) (b : Bool) (m n : M A) (t : Trace)
    → (b ≡ true → Returning P (m t))
    → (b ≡ false → Returning P (n t))
    → Returning P ((if b then m else n) t)
if-Returning P true m n t yes_m no_n = yes_m refl
if-Returning P false m n t yes_m no_n = no_n refl

-- Whatever the first run returns.
pub any-Returning :
    {A B : Type 0} (Q : B → Trace → Type 0) (r : Outcome A × Trace) (f : A → M B)
    → ((a : A) (t : Trace) → Returning Q (f a t))
    → Returning Q (bind_from r.0 r.1 f)
any-Returning Q (returns a, t) f q = q a t
any-Returning Q (exits _, t) f q = tt
any-Returning Q (starves, t) f q = tt
