-- ===== src/Supervisor/Pass.antt =====
-- src/supervisor.c: what `do_pipes` has copied when it has gone over its pipes.
use sandals.Prelude.{
  ℕ, zero, suc, ◌+◌, ◌<◌, ◌≡◌, inl, inr, refl, ap, subst, ◌∙◌, Bool, true, ◌&&◌, ◌||◌, List, [],
  ◌∷◌, none, some, arith, length, ltb, Option-cases,
}
use sandals.Os.{
  Kernel, Trace, M, Outcome, returns, exits, starves, pure, taken, interrupts, bind_from,
}
use sandals.Os.Laws.{IsDocumented}
use sandals.Response.{buf_size}
use sandals.Supervisor.{Channel, drain, pass}
use sandals.Supervisor.Settle.{CopiedAt, Copied}
use sandals.Supervisor.Drain.{Frame, same_Frame, Drains, drain-Drains}
use sandals.Supervisor.Plans.{
  Plan, NoPipe, NoFile, AllApart, AllBelow, AllCopied, is_open, over, IsDone, AllDone, Same, Frames,
  same_Frames, Frames-Frame, Frame-AllSame, Copied-Same, AllCopied-AllSame, over-AllSame,
  AllDone-AllSame,
}

-- How the rounds on a channel end, open or not.
abbrev Drained : Plan → Channel → Bool → ℕ → Trace → Outcome (Channel × Bool) × Trace → Type 0
Drained p c exiting fuel t (returns (c', exceeded), t') =
    Copied p.pipe p.file p.total c' t'
    × (exceeded ≡ (is_open c && ltb p.total (length (taken p.pipe t'))))
    × (exiting ≡ true → IsDone p.pipe c' t')
    × Frame p.pipe p.file t t'
Drained p c exiting fuel t (exits code, t') = code ≡ 1
Drained p c exiting fuel t (starves, t') = fuel + interrupts t < buf_size + buf_size + interrupts t'

Drains-Drained :
    (p : Plan) (c : Channel) (exiting : Bool) (fuel f : ℕ) (t : Trace)
    (r : Outcome (Channel × Bool) × Trace)
    → c.fd ≡ some f
    → Drains p.pipe p.file p.total exiting fuel t r
    → Drained p c exiting fuel t r
Drains-Drained p c exiting fuel f t (returns x, t') e (cop, flag, done, frame) =
    (cop, rw e flag, done, frame)
Drains-Drained p c exiting fuel f t (exits code, t') e d = d
Drains-Drained p c exiting fuel f t (starves, t') e d = d

-- How a pass over the first `n` channels ends.
abbrev pub Passes :
    List Plan → Bool → ℕ → ℕ → List Channel → Trace → Outcome (List Channel × Bool) × Trace → Type 0
Passes ps exiting fuel n cs t (returns (cs', flag), t') =
    AllCopied ps cs' t'
    × (flag ≡ over n ps cs t')
    × (exiting ≡ true → AllDone n ps cs' t')
    × Frames ps t t'
Passes ps exiting fuel n cs t (exits code, t') = code ≡ 1
Passes ps exiting fuel n cs t (starves, t') =
    fuel + interrupts t < buf_size + buf_size + interrupts t'

module _ (exiting : Bool) (fuel n : ℕ) (p : Plan) (ps : List Plan) (c : Channel) (cs : List Channel)
    (t : Trace) (pipes : NoPipe p.pipe ps) (files : NoFile p.file ps) where
  -- The pass over the channels behind, and the rounds on the first.
  behind-Passes :
      (later : List Channel × Bool) (u : Trace) (r : Outcome (Channel × Bool) × Trace)
      → Passes ps exiting fuel n cs t (returns later, u)
      → Drained p c exiting fuel u r
      → Passes
          (p ∷ ps)
          exiting
          fuel
          (suc n)
          (c ∷ cs)
          t
          (bind_from r.0 r.1 (λ done. pure (done.0 ∷ later.0, later.1 || done.1)))
  behind-Passes later u (returns (c', e), t') (cop, flag, done, frames) (one, flag1, done1, frame) =
      let same = Frame-AllSame p ps u t' pipes files frame in
      (
        (one, AllCopied-AllSame ps later.0 u t' same cop),
        rw (flag, flag1, over-AllSame n ps cs u t' same) refl,
        λ ex. (done1 ex, AllDone-AllSame n ps later.0 u t' same (done ex)),
        Frames-Frame p ps t u t' frames frame,
      )
  behind-Passes later u (exits code, t') h d = d
  behind-Passes later u (starves, t') (cop, flag, done, frames) d = omega (arith, frames.later)

  later-Passes :
      (first : M (Channel × Bool)) (r : Outcome (List Channel × Bool) × Trace)
      → Passes ps exiting fuel n cs t r
      → ((u : Trace) → Same p t u → Drained p c exiting fuel u (first u))
      → Passes (p ∷ ps) exiting fuel (suc n) (c ∷ cs) t (
          bind_from r.0 r.1 (λ later u.
            let r' = first u in
            bind_from r'.0 r'.1 (λ done. pure (done.0 ∷ later.0, later.1 || done.1))))
  later-Passes first (returns later, u) h d =
      let (_, _, _, frames) = h in
      behind-Passes later u (first u) h
        (d u (frames.untaken p.pipe pipes, frames.others p.file files))
  later-Passes first (exits code, t') h d = h
  later-Passes first (starves, t') h d = h

module _ (k : Kernel) (response_fd fuel : ℕ) (laws : IsDocumented k) (exiting : Bool)
    (rounds : ℕ) where
  closed-Drained :
      (m : ℕ) (p : Plan) (c : Channel) (t : Trace)
      → p.total < m
      → c.fd ≡ none
      → Copied p.pipe p.file p.total c t
      → Drained p c exiting fuel t (drain k response_fd fuel m exiting c t)
  unfolding drain
  closed-Drained zero p c t below e cop = absurd (omega arith)
  closed-Drained (suc m) p c t below e cop = rw e (
    subst (λ f. Copied p.pipe p.file p.total (record c { fd = f }) t) e cop,
    refl,
    λ _. inl refl,
    same_Frame p.pipe p.file t,
  )

  drain-Drained :
      (p : Plan) (c : Channel) (t : Trace)
      → p.total < rounds
      → Copied p.pipe p.file p.total c t
      → Drained p c exiting fuel t (drain k response_fd fuel rounds exiting c t)
  drain-Drained p c t below cop = elim (Option-cases c.fd) [
    | inl e ↦ closed-Drained rounds p c t below e cop
    | inr (f, e) ↦
        let (same, _, room) =
          subst (λ x. CopiedAt p.pipe p.file p.total c.sink.limit x t) e cop.so_far in
        Drains-Drained p c exiting fuel f t _ e (
          drain-Drains k response_fd fuel laws p.pipe p.file p.total exiting rounds c t
            (omega (arith, below, room)) (e ∙ ap some same) cop)
  ]

  -- A pass over the first `n` channels, which have the handlers of regular pipes and copy different
  -- pipes into different files, with more rounds than each file may take bytes. If it returns, each
  -- file holds what its pipe gave, cut at its limit; the flag says whether an open pipe gave more;
  -- an exiting supervisor has each pipe closed or found empty; and no other pipe or file is touched.
  -- It exits only by `fail`, and starves only below two buffers and the interrupts.
  pub pass-Passes :
      (n : ℕ) (ps : List Plan) (cs : List Channel) (t : Trace)
      → AllApart ps
      → AllBelow rounds ps
      → AllCopied ps cs t
      → Passes ps exiting fuel n cs t (pass k response_fd fuel rounds exiting n cs t)
  unfolding pass
  pass-Passes zero ps cs t apart below cop = (cop, refl, λ _. tt, same_Frames ps t)
  pass-Passes (suc n) [] [] t apart below cop = (tt, refl, λ _. tt, same_Frames [] t)
  pass-Passes (suc n) [] (c ∷ cs) t apart below cop = absurd cop
  pass-Passes (suc n) (p ∷ ps) [] t apart below cop = absurd cop
  pass-Passes (suc n) (p ∷ ps) (c ∷ cs) t (i, o, apart) (b, below) (one, cop) =
      later-Passes exiting fuel n p ps c cs t i o (drain k response_fd fuel rounds exiting c) _
        (pass-Passes n ps cs t apart below cop)
        (λ u same. drain-Drained p c u b (Copied-Same p c t u same one))
