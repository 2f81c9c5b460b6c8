-- ===== src/Fail/Never.antt =====
-- src/fail.c: no call of `fail` returns, and what that means for the calls that are checked.
use sandals.Prelude.{ℕ, zero, suc, ◌≡◌, refl, [], ◌∷◌, Bytes, Option, none, some, leb, length}
use sandals.Os.{
  Kernel, Trace, M, Outcome, returns, exits, starves, bind_from, exit, pure, ◌>>◌, Res, ok, err,
  Call, called,
}
use sandals.Os.Returning.{Returning, if-Returning}
use sandals.Response.{buf_size}
use sandals.Fail.{
  Status, internal_error, response_too_big, finish, after_format, fail_at, fail, die, after_call,
  call_checked,
}

abbrev pub Never : {A : Type 0} → Outcome A × Trace → Type 0
Never r = Returning (λ _ _. ⊥) r

exit-Never :
    (r : Outcome (Unit {0}) × Trace) → Never (bind_from r.0 r.1 (λ _. exit {A = Unit {0}} 1))
exit-Never (returns _, t) = tt
exit-Never (exits _, t) = tt
exit-Never (starves, t) = tt

any-bind :
    {A B : Type 0} (r : Outcome A × Trace) (f : A → M B)
    → ((a : A) (t : Trace) → Never (f a t))
    → Never (bind_from r.0 r.1 f)
any-bind (returns a, t) f h = h a t
any-bind (exits _, t) f h = tt
any-bind (starves, t) f h = tt

module _ (k : Kernel) (response_fd fuel : ℕ) where
  format-Never :
      (again : M (Unit {0})) (status : Status) (text : Bytes) (t : Trace)
      → Never (again t)
      → Never (after_format k response_fd fuel again status text t)
  unfolding after_format finish
  format-Never again status text t h =
      if-Returning _ (leb buf_size (length text)) again _ t (λ _. h) (λ _. exit-Never _)

  fail_at-Never :
      (depth : ℕ) (status : Status) (message : Option Bytes) (t : Trace)
      → Never (fail_at k response_fd fuel depth status message t)
  unfolding fail_at finish
  fail_at-Never zero status message t = tt
  fail_at-Never (suc depth) status none t = exit-Never _
  fail_at-Never (suc depth) status (some []) t = exit-Never _
  fail_at-Never (suc depth) status (some (c ∷ cs)) t = any-bind _ _ (λ _ t'.
      format-Never (fail_at k response_fd fuel depth response_too_big none) status (c ∷ cs) t'
        (fail_at-Never depth response_too_big none t'))

  Never-Returning :
      {A : Type 0} (P : A → Trace → Type 0) (r : Outcome (Unit {0}) × Trace) (a : A)
      → Never r
      → Returning P (bind_from r.0 r.1 (λ _ t. (returns a, t)))
  Never-Returning P (returns _, t) a h = absurd h
  Never-Returning P (exits _, t) a h = tt
  Never-Returning P (starves, t) a h = tt

  pub fail-Returning :
      {A : Type 0} (P : A → Trace → Type 0) (status : Status) (message : Option Bytes) (a : A)
      (t : Trace)
      → Returning P ((fail k response_fd fuel status message >> pure a) t)
  unfolding fail
  fail-Returning P status message a t = Never-Returning P _ a (fail_at-Never 2 status message t)

  pub die-Returning :
      {A : Type 0} (P : A → Trace → Type 0) (a : A) (text : Bytes) (t : Trace)
      → Returning P (die k response_fd fuel a text t)
  die-Returning P a text t = fail-Returning P internal_error (some text) a t

  pub after_call-Returning :
      (what : Bytes) (c : Call) (r : Res ℕ) (t : Trace)
      → Returning
          (λ n t'. t' ≡ called c (ok n) ∷ t)
          (after_call k response_fd fuel what r (called c r ∷ t))
  unfolding after_call
  after_call-Returning what c (ok n) t = refl
  after_call-Returning what c (err e) t = die-Returning _ 0 _ _

  -- A checked call that returns has succeeded.
  pub call_checked-Returning :
      (what : Bytes) (c : Call) (t : Trace)
      → Returning (λ n t'. t' ≡ called c (ok n) ∷ t) (call_checked k response_fd fuel what c t)
  unfolding call_checked
  call_checked-Returning what c t = after_call-Returning what c (k.call t c) t
