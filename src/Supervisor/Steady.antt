-- ===== src/Supervisor/Steady.antt =====
-- src/supervisor.c: what a pass over the pipes leaves alone, however it ends.
use sandals.Prelude.{
  ℕ, zero, suc, refl, Bool, true, false, not, ◌&&◌, leb, ◌==◌, List, [], ◌∷◌, Option, some, none,
}
use sandals.Os.{Kernel, Trace, M, pure, closed}
use sandals.Os.Ending.{Ending, Ending-bind, if-Ending, IsSteady}
use sandals.Sink.{Sink, Handled}
use sandals.Sink.Steady.{handle-Ending}
use sandals.Supervisor.{Channel, settle, next, drain, pass}

module _ (k : Kernel) (response_fd fuel : ℕ) (P : Trace → Type 0) (steady : IsSteady P) where
  settle-Ending :
      (exiting : Bool) (c : Channel) (fd : ℕ) (h : Handled) (t : Trace)
      → P t
      → Ending P (settle exiting c fd h t)
  unfolding settle
  settle-Ending exiting c fd (none, sink) t p = record { end = p }
  settle-Ending exiting c fd (some rc, sink) t p =
      if-Ending P (not (rc == 0) && leb rc sink.limit) (pure _) _ t (record { end = p })
        (record { end = steady (closed fd) t refl p })

  next-Ending :
      (again : Channel → M (Channel × Bool)) (c : Channel) (exceeded b : Bool) (t : Trace)
      → Ending P (again c t)
      → P t
      → Ending P (next again (record { channel = c; exceeded = exceeded; again = b }) t)
  next-Ending again c exceeded true t h p = h
  next-Ending again c exceeded false t h p = record { end = p }

  drain-Ending :
      (rounds : ℕ) (exiting : Bool) (sink : Sink) (fd : Option ℕ) (revents : Bool) (t : Trace)
      → P t
      → Ending P (
          drain k response_fd fuel rounds exiting
            (record { sink = sink; fd = fd; revents = revents })
            t)
  unfolding drain
  drain-Ending zero exiting sink fd revents t p = record { end = p }
  drain-Ending (suc rounds) exiting sink none revents t p = record { end = p }
  drain-Ending (suc rounds) exiting sink (some fd) revents t p =
      if-Ending P (not revents && not exiting) (pure _) _ t (record { end = p })
        (Ending-bind P _ _
          (handle-Ending k response_fd fuel P steady sink.handler exiting sink fd t p)
          (λ handled u q. Ending-bind P _ _ (settle-Ending exiting _ fd handled u q) (λ r v q'.
            next-Ending (drain k response_fd fuel rounds exiting) r.channel r.exceeded r.again v
              (drain-Ending rounds exiting r.channel.sink r.channel.fd r.channel.revents v q') q')))

  pub pass-Ending :
      (rounds : ℕ) (exiting : Bool) (n : ℕ) (cs : List Channel) (t : Trace)
      → P t
      → Ending P (pass k response_fd fuel rounds exiting n cs t)
  unfolding pass
  pass-Ending rounds exiting zero cs t p = record { end = p }
  pass-Ending rounds exiting (suc n) [] t p = record { end = p }
  pass-Ending rounds exiting (suc n) (c ∷ cs) t p =
      Ending-bind P _ _ (pass-Ending rounds exiting n cs t p) (λ later u q.
        Ending-bind P _ _ (drain-Ending rounds exiting c.sink c.fd c.revents u q)
          (λ done v q'. record { end = q' }))
