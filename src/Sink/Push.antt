-- ===== src/Sink/Push.antt =====
-- src/supervisor.c: `sink_push`, which writes to the file of a sink.
use sandals.Prelude.{
  ℕ, zero, suc, ◌+◌, ◌≤◌, ◌<◌, ◌≡◌, refl, sym, ◌∙◌, [], ◌∷◌, ◌++◌, append-nil, append_assoc, Bytes,
  Option, arith, length, take, drop, length-drop, take-append-drop, ==_refl,
}
use sandals.Os.{
  Kernel, Trace, M, Outcome, returns, exits, starves, Res, ok, err, eintr, Errno, wrote, written,
  interrupts, bind_from,
}
use sandals.Os.Quiet.{Quiet, same_Quiet, wrote-Quiet}
use sandals.Os.Laws.{IsDocumented}
use sandals.Response.{buf_size}
use sandals.Fail.{internal_error, fail}
use sandals.Fail.Ends.{Ends, fail_text, fail-Ends, length-fail_text}
use sandals.Sink.{Sink, after_push, push_loop}

-- How a run that was to write `bs` ended. It exits by `fail`. It starves if its rounds are fewer
-- than the bytes, those of a message that `fail` sends, and the interrupts.
abbrev pub Pushes {ℓ} : {A : Type ℓ} → ℕ → Bytes → ℕ → Trace → Outcome A × Trace → Type 0
Pushes fd bs rounds t (returns _, t') = (written fd t' ≡ written fd t ++ bs) × Quiet fd t t'
Pushes fd bs rounds t (exits c, t') = c ≡ 1
Pushes fd bs rounds t (starves, t') = rounds + interrupts t < length bs + buf_size + interrupts t'

Pushes-ok :
    (fd n rounds : ℕ) (bs : Bytes) (t : Trace) (r : Outcome (Unit {0}) × Trace)
    → 0 < n
    → n ≤ length bs
    → Pushes fd (drop n bs) rounds (wrote fd bs (ok n) ∷ t) r
    → Pushes fd bs (suc rounds) t r
Pushes-ok fd n rounds bs t (returns _, t') p q (h, quiet) = (
  h
      ∙ rw (==_refl fd)
          (append_assoc (written fd t) (take n bs) (drop n bs) ∙ rw (take-append-drop n bs)),
  wrote-Quiet fd bs (ok n) t t' quiet,
)
Pushes-ok fd n rounds bs t (exits c, t') p q h = h
Pushes-ok fd n rounds bs t (starves, t') p q h = omega (arith, length-drop n bs)

Pushes-eintr :
    (fd rounds : ℕ) (bs : Bytes) (t : Trace) (r : Outcome (Unit {0}) × Trace)
    → Pushes fd bs rounds (wrote fd bs (err eintr) ∷ t) r
    → Pushes fd bs (suc rounds) t r
Pushes-eintr fd rounds bs t (returns _, t') (h, quiet) =
    (h ∙ rw append-nil, wrote-Quiet fd bs (err eintr) t t' quiet)
Pushes-eintr fd rounds bs t (exits c, t') h = h
Pushes-eintr fd rounds bs t (starves, t') h = omega arith

-- A run that ends in `fail` exits, or its fuel is too small.
abbrev pub Dies {ℓ} : {A : Type ℓ} → ℕ → Trace → Outcome A × Trace → Type 0
Dies fuel t (returns _, t') = ⊥
Dies fuel t (exits c, t') = c ≡ 1
Dies fuel t (starves, t') = fuel + interrupts t < buf_size + interrupts t'

Dies-bind :
    {A B : Type 0} (fuel : ℕ) (t : Trace) (r : Outcome A × Trace) (f : A → M B)
    → Dies fuel t r
    → Dies fuel t (bind_from r.0 r.1 f)
Dies-bind fuel t (returns _, t') f h = absurd h
Dies-bind fuel t (exits c, t') f h = h
Dies-bind fuel t (starves, t') f h = h

Ends-Dies :
    (fd fuel : ℕ) (text : Bytes) (t : Trace) (r : Outcome (Unit {0}) × Trace)
    → length text ≤ buf_size
    → Ends fd text fuel t r
    → Dies fuel t r
Ends-Dies fd fuel text t (returns _, t') h e = e
Ends-Dies fd fuel text t (exits c, t') h e = e.0
Ends-Dies fd fuel text t (starves, t') h e = omega arith

module _ (k : Kernel) (response_fd fuel : ℕ) (laws : IsDocumented k) where
  pub fail-Dies :
      (message : Option Bytes) (t : Trace)
      → Dies fuel t (fail k response_fd fuel internal_error message t)
  fail-Dies message t =
      Ends-Dies response_fd fuel (fail_text internal_error message) t _
        (length-fail_text internal_error message)
        (fail-Ends k response_fd fuel laws internal_error message t)

  Dies-Pushes :
      (fd rounds : ℕ) (bs : Bytes) (e : Errno) (t : Trace) (r : Outcome (Unit {0}) × Trace)
      → suc rounds ≤ fuel
      → Dies fuel (wrote fd bs (err e) ∷ t) r
      → Pushes fd bs (suc rounds) t r
  Dies-Pushes fd rounds bs e t (returns _, t') h d = absurd d
  Dies-Pushes fd rounds bs e t (exits c, t') h d = d
  Dies-Pushes fd rounds bs e t (starves, t') h d = omega arith

  module _ (sink : Sink) where
    after_push-Pushes :
        (rounds : ℕ) (again : Bytes → M (Unit {0})) (b : ℕ) (bs : Bytes) (t : Trace) (r : Res ℕ)
        → suc rounds ≤ fuel
        → k.write t sink.fd (b ∷ bs) ≡ r
        → ((bs' : Bytes) (t' : Trace) → Pushes sink.fd bs' rounds t' (again bs' t'))
        → Pushes sink.fd
            (b ∷ bs)
            (suc rounds)
            t
            (after_push k response_fd fuel again sink (b ∷ bs) r (wrote sink.fd (b ∷ bs) r ∷ t))
    unfolding after_push
    after_push-Pushes rounds again b bs t (ok n) h e ih =
        Pushes-ok sink.fd n rounds (b ∷ bs) t _
          (laws.write_some t sink.fd (b ∷ bs) n e (omega arith))
          (laws.write_le t sink.fd (b ∷ bs) n e) (ih (drop n (b ∷ bs)) _)
    after_push-Pushes rounds again b bs t (err eintr) h e ih =
        Pushes-eintr sink.fd rounds (b ∷ bs) t _ (ih (b ∷ bs) _)
    after_push-Pushes rounds again b bs t (err x) h e ih =
        Dies-Pushes sink.fd rounds (b ∷ bs) x t _ h (fail-Dies _ _)

    pub push_loop-Pushes :
        (rounds : ℕ) (bs : Bytes) (t : Trace)
        → rounds ≤ fuel
        → Pushes sink.fd bs rounds t (push_loop k response_fd fuel rounds sink bs t)
    unfolding push_loop
    push_loop-Pushes rounds [] t h = (sym (append-nil _), same_Quiet sink.fd t)
    push_loop-Pushes zero (b ∷ bs) t h = omega arith
    push_loop-Pushes (suc rounds) (b ∷ bs) t h =
        after_push-Pushes rounds (push_loop k response_fd fuel rounds sink) b bs t
          (k.write t sink.fd (b ∷ bs)) h refl
          (λ bs' t'. push_loop-Pushes rounds bs' t' (omega arith))
