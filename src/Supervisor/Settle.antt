-- ===== src/Supervisor/Settle.antt =====
-- src/supervisor.c: what one round of `do_pipes` on one pipe has copied.
use sandals.Prelude.{
  ℕ, ◌+◌, ◌-◌, ◌≤◌, ◌<◌, ◌≡◌, ◌⊎◌, inl, inr, refl, sym, ap, subst, ◌∙◌, Bool, true, false, not,
  ◌&&◌, [], ◌∷◌, ◌++◌, append-nil, Bytes, Option, none, some, arith, length, take, ltb, leb,
  ltb-false, ◌==◌, take_all, take-append_length, length-append, Bool-cases,
}
use sandals.Os.{Trace, Outcome, returns, closed, written, taken}
use sandals.Sink.{Sink}
use sandals.Sink.Copy.{IsRegular, Moved, IsIdle}
use sandals.Supervisor.{Channel, Round, settle}

-- While the pipe is open its bytes have all been copied, and `lim` is what may still come. Once it
-- is closed the file holds the front of them.
abbrev pub CopiedAt : ℕ → ℕ → ℕ → ℕ → Option ℕ → Trace → Type 0
CopiedAt i o total lim none t = written o t ≡ take total (taken i t)
CopiedAt i o total lim (some f) t =
    (f ≡ i) × (written o t ≡ taken i t) × (lim + length (taken i t) ≡ total)

-- The channel copies the pipe `i` into the file `o`, which had room for `total` bytes.
pub record Copied (i o total : ℕ) (c : Channel) (t : Trace) : Type 0 where
  pub same_file : c.sink.fd ≡ o
  pub kind : IsRegular c.sink.handler
  pub so_far : CopiedAt i o total c.sink.limit c.fd t

-- A result that is not -1 counts the bytes.
moved_length :
    (n : ℕ) (bs : Bytes) (B : Type 0)
    → (◌≡◌ {A = Option ℕ} (some n) (some (length bs)))
      ⊎ ((◌≡◌ {A = Option ℕ} (some n) none) × (bs ≡ []) × B)
    → n ≡ length bs
moved_length n bs B (inl e) = cc
moved_length n bs B (inr (e, _, _)) = cc

-- One round: the flag says whether the pipe has given more than the limit. Another round follows
-- only with less of the limit left; without one, an exiting supervisor is done with the pipe.
pub record Settled (i o total lim : ℕ) (exiting : Bool) (r : Round) (t' : Trace) : Type 0 where
  pub copied : Copied i o total r.channel t'
  pub flag : r.exceeded ≡ ltb total (length (taken i t'))
  pub progress : r.again ≡ true → (r.channel.sink.limit < lim) × (r.channel.fd ≡ some i)
  pub finished : exiting ≡ true → r.again ≡ false → (r.channel.fd ≡ none) ⊎ IsIdle i t'

-- An open channel that copies.
pub record Open (i o total : ℕ) (sink : Sink) (t : Trace) : Type 0 where
  pub file : sink.fd ≡ o
  pub so_far : written o t ≡ taken i t
  pub room : sink.limit + length (taken i t) ≡ total

flag_over :
    (n lim a total len : ℕ)
    → (n ≡ 0) ⊎ (lim < n)
    → lim + a ≡ total
    → len ≡ a + n
    → not (n == 0) ≡ ltb total len
flag_over n lim a total len why room longer = ground arith

module _ (i o total : ℕ) (exiting : Bool) (c : Channel) (sink' : Sink) (t t' : Trace) where
  -- The pipe was empty.
  blocked-Settled :
      Open i o total c.sink t
      → c.fd ≡ some i
      → (m : Moved i c.sink t none sink' t') → m.bytes ≡ []
      → IsIdle i t'
      → Settled i o total c.sink.limit exiting
          (record { channel = record c { sink = sink' }; exceeded = false; again = false })
          t'
  blocked-Settled op fd m e blocked =
      let took : taken i t' ≡ taken i t = m.taken_is ∙ ap (λ x. taken i t ++ x) e ∙ append-nil _ in
      let wrote : written o t' ≡ written o t = rw (← op.file) (
        m.written_is
        ∙ ap (λ x. written c.sink.fd t ++ take c.sink.limit x) e
        ∙ ap (λ x. written c.sink.fd t ++ x) (take_all {A = ℕ} c.sink.limit [] (omega arith))
        ∙ append-nil _) in
      let room : sink'.limit + length (taken i t') ≡ total =
        omega (arith, ap length took, op.room, m.same_limit) in
      record {
        copied = record {
          same_file = m.same_fd ∙ op.file;
          kind = m.same_kind;
          so_far =
              subst (λ f. CopiedAt i o total sink'.limit f t') (sym fd)
                (refl, wrote ∙ op.so_far ∙ sym took, room);
        };
        flag = sym (ltb-false total (length (taken i t')) (omega arith));
        progress = λ no. cc;
        finished = λ _ _. inr blocked;
      }

  -- Some bytes came, and the limit allows them.
  within-Settled :
      (n : ℕ)
      → Open i o total c.sink t
      → c.fd ≡ some i
      → (m : Moved i c.sink t (some n) sink' t') → n ≡ length m.bytes
      → 0 < n
      → n ≤ c.sink.limit
      → Settled i o total c.sink.limit exiting
          (record {
            channel = record c { sink = record sink' { limit = sink'.limit - n } };
            exceeded = false;
            again = exiting;
          })
          t'
  within-Settled n op fd m e some_bytes le =
      let wrote : written o t' ≡ taken i t' = rw (← op.file) (
        m.written_is
        ∙ ap (λ x. written c.sink.fd t ++ x) (take_all {A = ℕ} c.sink.limit m.bytes (omega arith))
        ∙ ap (λ x. x ++ m.bytes) (ap (λ f. written f t) op.file ∙ op.so_far)
        ∙ sym m.taken_is) in
      let longer : length (taken i t') ≡ length (taken i t) + n =
        omega (arith, ap length m.taken_is, length-append (taken i t) m.bytes) in
      let room : sink'.limit - n + length (taken i t') ≡ total =
        omega (arith, longer, op.room, m.same_limit) in
      record {
        copied = record {
          same_file = m.same_fd ∙ op.file;
          kind = m.same_kind;
          so_far =
              subst (λ f. CopiedAt i o total (sink'.limit - n) f t') (sym fd) (refl, wrote, room);
        };
        flag = sym (ltb-false total (length (taken i t')) (omega arith));
        progress = λ _. (omega (arith, m.same_limit), fd);
        finished = λ yes1 no1. cc;
      }

  -- The end of the pipe, or more than the limit: the pipe is closed.
  closed-Settled :
      (n : ℕ)
      → Open i o total c.sink t
      → (m : Moved i c.sink t (some n) sink' t') → n ≡ length m.bytes
      → (n ≡ 0) ⊎ (c.sink.limit < n)
      → Settled i o total c.sink.limit exiting
          (record {
            channel = record c { sink = sink'; fd = none };
            exceeded = not (n == 0);
            again = false;
          })
          (closed i ∷ t')
  closed-Settled n op m e why =
      let wrote : written o t' ≡ taken i t ++ take c.sink.limit m.bytes = rw (← op.file) (
        m.written_is
        ∙ ap (λ x. x ++ take c.sink.limit m.bytes) (ap (λ f. written f t) op.file ∙ op.so_far)) in
      let longer : length (taken i t') ≡ length (taken i t) + n =
        omega (arith, ap length m.taken_is, length-append (taken i t) m.bytes) in
      let cut : take total (taken i t') ≡ taken i t ++ take c.sink.limit m.bytes =
        ap (take total) m.taken_is
        ∙ rw (← op.room) (take-append_length c.sink.limit (taken i t) m.bytes) in
      record {
        copied = record {
          same_file = m.same_fd ∙ op.file;
          kind = m.same_kind;
          so_far = append-nil _ ∙ wrote ∙ sym cut ∙ ap (take total) (sym (append-nil _));
        };
        flag =
            flag_over n c.sink.limit (length (taken i t)) total (length (taken i t')) why op.room
              longer
            ∙ ap (λ x. ltb total (length x)) (sym (append-nil (taken i t')));
        progress = λ no. cc;
        finished = λ _ _. inl refl;
      }

-- A round that settles the channel, whatever the handler gave.
abbrev pub Settles : ℕ → ℕ → ℕ → ℕ → Bool → Outcome Round × Trace → Type 0
Settles i o total lim exiting (returns r, t') = Settled i o total lim exiting r t'
Settles i o total lim exiting (_, t') = ⊥

module _ (i o total : ℕ) (exiting : Bool) (c : Channel) (sink' : Sink) (t t' : Trace) where
  pub settle-none :
      Open i o total c.sink t
      → c.fd ≡ some i
      → Moved i c.sink t none sink' t'
      → Settles i o total c.sink.limit exiting (settle exiting c i (none, sink') t')
  unfolding settle
  settle-none op fd m = elim m.rc_is [
    | inl e ↦ cc
    | inr (e, nothing, blocked) ↦
        blocked-Settled i o total exiting c sink' t t' op fd m nothing blocked
  ]

  pub settle-some :
      (n : ℕ)
      → Open i o total c.sink t
      → c.fd ≡ some i
      → Moved i c.sink t (some n) sink' t'
      → Settles i o total c.sink.limit exiting (settle exiting c i (some n, sink') t')
  unfolding settle
  settle-some n op fd m =
      let e : n ≡ length m.bytes = moved_length n m.bytes (IsIdle i t') m.rc_is in
      elim (Bool-cases (not (n == 0) && leb n sink'.limit)) [
        | inl good ↦ rw good (
            within-Settled i o total exiting c sink' t t' n op fd m e (ground (arith, good))
              (ground (arith, good, m.same_limit)))
        | inr bad ↦ rw bad (
            closed-Settled i o total exiting c sink' t t' n op m e
              (ground (arith, bad, m.same_limit)))
      ]
