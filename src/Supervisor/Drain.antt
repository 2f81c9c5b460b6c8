-- ===== src/Supervisor/Drain.antt =====
-- src/supervisor.c: what the rounds of `do_pipes` on one pipe have copied.
use sandals.Prelude.{
  ℕ, zero, suc, ◌+◌, ◌≤◌, ◌<◌, ◌≡◌, ◌⊎◌, inl, inr, refl, sym, subst, Bool, true, false, not, ◌&&◌,
  none, some, arith, length, ltb, ltb-false, Bool-cases, ◌≢◌, ◌∙◌, ◌==◌, leb, Option, append-nil,
}
use sandals.Os.{
  written, Kernel, Trace, M, Outcome, returns, exits, starves, taken, calls_on, interrupts, ◌>>=◌,
  bind_from,
}
use sandals.Os.Laws.{IsDocumented}
use sandals.Response.{buf_size}
use sandals.Sink.{Handled, Sink}
use sandals.Sink.Copy.{Handles, Moved, IsIdle, handle-Handles}
use sandals.Supervisor.{Channel, Round, next, settle, drain}
use sandals.Supervisor.Settle.{CopiedAt, Copied, Settled, Open, Settles, settle-none, settle-some}

-- What happens between two points of a run leaves alone every file but `o`, and every pipe but `i`.
pub record Frame (i o : ℕ) (t t' : Trace) : Type 0 where
  pub others : (f : ℕ) → f ≢ o → written f t' ≡ written f t
  pub untaken : (j : ℕ) → j ≢ i → calls_on j t' ≡ calls_on j t
  pub later : interrupts t ≤ interrupts t'

pub same_Frame : (i o : ℕ) (t : Trace) → Frame i o t t
same_Frame i o t = record { others = λ f ne. refl; untaken = λ j ne. refl; later = omega arith }

Frame-trans : {i o : ℕ} {t u v : Trace} → Frame i o t u → Frame i o u v → Frame i o t v
Frame-trans a b = record {
  others = λ f ne. b.others f ne ∙ a.others f ne;
  untaken = λ j ne. b.untaken j ne ∙ a.untaken j ne;
  later = omega (arith, a.later, b.later);
}

Moved-Frame :
    {i o : ℕ} {sink sink' : Sink} {t t' : Trace} {rc : Option ℕ}
    → sink.fd ≡ o
    → Moved i sink t rc sink' t'
    → Frame i o t t'
Moved-Frame file m = record {
  others = λ f ne. m.others f (λ same. ne (same ∙ file));
  untaken = m.untaken;
  later = m.later;
}

-- How the rounds on one channel end.
abbrev pub Drains : ℕ → ℕ → ℕ → Bool → ℕ → Trace → Outcome (Channel × Bool) × Trace → Type 0
Drains i o total exiting fuel t (returns (c, exceeded), t') =
    Copied i o total c t'
    × (exceeded ≡ ltb total (length (taken i t')))
    × (exiting ≡ true → (c.fd ≡ none) ⊎ IsIdle i t')
    × Frame i o t t'
Drains i o total exiting fuel t (exits code, t') = code ≡ 1
Drains i o total exiting fuel t (starves, t') =
    fuel + interrupts t < buf_size + buf_size + interrupts t'

module _ (i o total : ℕ) (exiting : Bool) (fuel : ℕ) where
  abbrev Again : (Channel → M (Channel × Bool)) → ℕ → Trace → Type 0
  Again again lim t =
      (c : Channel) (t' : Trace)
      → c.sink.limit < lim
      → c.fd ≡ some i
      → Frame i o t t'
      → Copied i o total c t'
      → Drains i o total exiting fuel t (again c t')

  next-Drains :
      (again : Channel → M (Channel × Bool)) (lim : ℕ) (t : Trace) (r : Round) (t' : Trace)
      → Frame i o t t'
      → Settled i o total lim exiting r t'
      → Again again lim t
      → Drains i o total exiting fuel t (next again r t')
  next-Drains again lim t r t' later s ih = elim (Bool-cases r.again) [
    | inl more ↦ rw more (ih r.channel t' (s.progress more).0 (s.progress more).1 later s.copied)
    | inr done ↦ rw done (s.copied, s.flag, λ ex. s.finished ex done, later)
  ]

  round-Drains :
      (again : Channel → M (Channel × Bool)) (lim : ℕ) (t : Trace) (r : Outcome Round × Trace)
      → Frame i o t r.1
      → Settles i o total lim exiting r
      → Again again lim t
      → Drains i o total exiting fuel t (bind_from r.0 r.1 (next again))
  round-Drains again lim t (returns r, t') later s ih = next-Drains again lim t r t' later s ih
  round-Drains again lim t (exits code, t') later s ih = absurd s
  round-Drains again lim t (starves, t') later s ih = absurd s

  settle-Frame : (c : Channel) (h : Handled) (t : Trace) → Frame i o t (settle exiting c i h t).1
  unfolding settle
  settle-Frame c (none, sink) t = same_Frame i o t
  settle-Frame c (some n, sink) t = elim (Bool-cases (not (n == 0) && leb n sink.limit)) [
    | inl good ↦ rw good (same_Frame i o t)
    | inr bad ↦
        rw bad
          (record { others = λ f ne. append-nil _; untaken = λ j ne. refl; later = omega arith })
  ]

  handled-Drains :
      (again : Channel → M (Channel × Bool)) (c : Channel) (t : Trace) (r : Outcome Handled × Trace)
      → Open i o total c.sink t
      → c.fd ≡ some i
      → Handles i c.sink fuel t r
      → Again again c.sink.limit t
      → Drains i o total exiting fuel t
          (bind_from r.0 r.1 (λ h. settle exiting c i h >>= next again))
  handled-Drains again c t (returns (none, s), t') op fd m ih =
      round-Drains again c.sink.limit t (settle exiting c i (none, s) t')
        (Frame-trans (Moved-Frame op.file m) (settle-Frame c (none, s) t'))
        (settle-none i o total exiting c s t t' op fd m) ih
  handled-Drains again c t (returns (some n, s), t') op fd m ih =
      round-Drains again c.sink.limit t (settle exiting c i (some n, s) t')
        (Frame-trans (Moved-Frame op.file m) (settle-Frame c (some n, s) t'))
        (settle-some i o total exiting c s t t' n op fd m) ih
  handled-Drains again c t (exits code, t') op fd h ih = h
  handled-Drains again c t (starves, t') op fd h ih = h

Drains-later :
    (i o total : ℕ) (exiting : Bool) (fuel : ℕ) (t t' : Trace)
    (r : Outcome (Channel × Bool) × Trace)
    → Frame i o t t'
    → Drains i o total exiting fuel t' r
    → Drains i o total exiting fuel t r
Drains-later i o total exiting fuel t t' (returns x, u) h (cop, flag, fin, fr) =
    (cop, flag, fin, Frame-trans h fr)
Drains-later i o total exiting fuel t t' (exits code, u) h d = d
Drains-later i o total exiting fuel t t' (starves, u) h d = omega (arith, h.later)

skipped_not_exiting :
    (revents exiting : Bool) → (not revents && not exiting) ≡ true → exiting ≡ true → ⊥
skipped_not_exiting revents exiting skip ex = ground arith

-- A channel that is open has copied all that it took.
Copied-Open :
    (i o total : ℕ) (c : Channel) (t : Trace)
    → Copied i o total c t
    → c.fd ≡ some i
    → Open i o total c.sink t
Copied-Open i o total c t cop fd =
    let (_, same, room) = subst (λ f. CopiedAt i o total c.sink.limit f t) fd cop.so_far in
    record { file = cop.same_file; so_far = same; room = room }

module _ (k : Kernel) (response_fd fuel : ℕ) (laws : IsDocumented k) (i o total : ℕ)
    (exiting : Bool) where
  -- The rounds on one open regular pipe, with more rounds than its limit. If they return, the file
  -- holds what the pipe gave, cut at `total`; the flag says whether it gave more; an exiting
  -- supervisor is done only when the pipe is closed or was found empty; and no other file or pipe is
  -- touched. They exit only by `fail`, and starve only below two buffers and the interrupts.
  pub drain-Drains :
      (rounds : ℕ) (c : Channel) (t : Trace)
      → c.sink.limit < rounds
      → c.fd ≡ some i
      → Copied i o total c t
      → Drains i o total exiting fuel t (drain k response_fd fuel rounds exiting c t)
  unfolding drain
  drain-Drains zero c t h fd cop = absurd (omega arith)
  drain-Drains (suc rounds) c t h fd cop = rw fd (elim (Bool-cases (not c.revents && not exiting)) [
    | inl skip ↦ rw skip (skipped-Drains skip)
    | inr take_part ↦ rw take_part (
        handled-Drains i o total exiting fuel (drain k response_fd fuel rounds exiting)
          (record c { fd = some i }) t _ op refl
          (handle-Handles k response_fd fuel laws i c.sink.handler exiting c.sink t cop.kind refl)
          (λ c' t' less fd' later cop'.
            Drains-later i o total exiting fuel t t' _ later
              (drain-Drains rounds c' t' (omega arith) fd' cop')))
  ])
    where
      op : Open i o total c.sink t
      op = Copied-Open i o total c t cop fd

      skipped-Drains :
          (not c.revents && not exiting) ≡ true
          → Drains i o total exiting fuel t (returns (record c { fd = some i }, false), t)
      skipped-Drains skip = (
        record { same_file = op.file; kind = cop.kind; so_far = (refl, op.so_far, op.room) },
        sym (ltb-false total (length (taken i t)) (omega (arith, op.room))),
        λ ex. absurd (skipped_not_exiting c.revents exiting skip ex),
        same_Frame i o t,
      )
