-- ===== src/Sink/Copy.antt =====
-- src/supervisor.c: the handlers of a regular pipe copy it into the file of the sink.
use sandals.Prelude.{
  ℕ, ◌+◌, ◌≤◌, ◌<◌, ◌≡◌, ◌≢◌, ◌⊎◌, false, inl, inr, refl, ap, ◌∙◌, Bool, [], ◌∷◌, ◌++◌, append-nil,
  Bytes, Option, none, some, arith, length, take, ==_refl, ==_ne, ◌==◌, length-take, take_all,
  Bool-cases,
}
use sandals.Os.{
  Kernel, Trace, Outcome, returns, exits, starves, Res, ok, err, eagain, einval, Event, did_read,
  spliced, written, taken, calls_on, is_call_on, taken_same, put_by, taken_by, interrupt,
  interrupts, ◌>>=◌, ◌>>◌, pure, bind_from,
}
use sandals.Os.Laws.{IsDocumented}
use sandals.Response.{buf_size}
use sandals.Sink.{
  Sink, Handler, regular_pipe, regular_pipe_no_splice, stdstreams_pipe_init, stdstreams_pipe,
  Handled, push_loop, pipe_buf, after_read, after_splice, regular_pipe_no_splice_handler,
  regular_pipe_handler, handle,
}
use sandals.Sink.Push.{Pushes, push_loop-Pushes, Dies, fail-Dies}

abbrev pub IsRegular : Handler → Type 0
IsRegular regular_pipe = Unit
IsRegular regular_pipe_no_splice = Unit
IsRegular _ = ⊥

-- The last call found the pipe empty.
abbrev IsBlocked : ℕ → Trace → Type 0
IsBlocked i (did_read f _ (err eagain) ∷ t) = f ≡ i
IsBlocked i (spliced from _ _ (err eagain) ∷ t) = from ≡ i
IsBlocked i _ = ⊥

-- The last call on the pipe `i` found it empty.
abbrev pub IsIdle : ℕ → Trace → Type 0
IsIdle i t = IsBlocked i (calls_on i t)

-- One call of a handler has moved `bytes` from the pipe `i` to the file of the sink, where they are
-- cut at the limit, and has touched nothing else.
pub record Moved (i : ℕ) (sink : Sink) (t : Trace) (rc : Option ℕ) (sink' : Sink) (t' : Trace)
    : Type 0 where
  pub bytes : Bytes
  pub taken_is : taken i t' ≡ taken i t ++ bytes
  pub written_is : written sink.fd t' ≡ written sink.fd t ++ take sink.limit bytes
  pub rc_is : (rc ≡ some (length bytes)) ⊎ ((rc ≡ none) × (bytes ≡ []) × IsIdle i t')
  pub same_limit : sink'.limit ≡ sink.limit
  pub same_fd : sink'.fd ≡ sink.fd
  pub same_kind : IsRegular sink'.handler
  pub others : (o : ℕ) → o ≢ sink.fd → written o t' ≡ written o t
  pub untaken : (j : ℕ) → j ≢ i → calls_on j t' ≡ calls_on j t
  pub later : interrupts t ≤ interrupts t'

-- How a call of a handler ends. It exits by `fail`, and starves only if the fuel is less than two
-- buffers and the interrupts.
abbrev pub Handles : ℕ → Sink → ℕ → Trace → Outcome Handled × Trace → Type 0
Handles i sink fuel t (returns (rc, sink'), t') = Moved i sink t rc sink' t'
Handles i sink fuel t (exits c, t') = c ≡ 1
Handles i sink fuel t (starves, t') = fuel + interrupts t < buf_size + buf_size + interrupts t'

module _ (k : Kernel) (response_fd fuel : ℕ) (laws : IsDocumented k) (i : ℕ) where
  abbrev readt : ℕ → Bytes → Trace → Trace
  readt n buf t = did_read i n (ok buf) ∷ t

  -- What was read is pushed.
  read-Handles :
      (sink : Sink) (n : ℕ) (buf : Bytes) (t : Trace) (r : Outcome (Unit {0}) × Trace)
      → IsRegular sink.handler
      → length buf ≤ buf_size
      → Pushes sink.fd (take sink.limit buf) fuel (readt n buf t) r
      → Handles i sink fuel t
          ((((λ _. r) >> pure (length buf)) >>= (λ m. pure (some m, sink))) (readt n buf t))
  read-Handles sink n buf t (returns _, t') kind le (h, q) = record {
    bytes = buf;
    taken_is = taken_same i (readt n buf t) t' (q.untaken i) ∙ rw (==_refl i);
    written_is = h ∙ rw append-nil;
    rc_is = inl refl;
    same_limit = refl;
    same_fd = refl;
    same_kind = kind;
    others = λ o ne. q.others o ne ∙ append-nil _;
    untaken = λ j ne. q.untaken j ∙ rw (==_ne i j ne);
    later = omega (arith, q.later);
  }
  read-Handles sink n buf t (exits c, t') kind le h = h
  read-Handles sink n buf t (starves, t') kind le h = omega (arith, length-take sink.limit buf)

  -- Nothing has moved.
  idle-Moved :
      (sink sink' : Sink) (e : Event) (t : Trace)
      → IsRegular sink'.handler
      → sink'.limit ≡ sink.limit
      → sink'.fd ≡ sink.fd
      → ((o : ℕ) → put_by o e ≡ [])
      → taken_by i e ≡ []
      → ((j : ℕ) → j ≢ i → is_call_on j e ≡ false)
      → IsIdle i (e ∷ t)
      → Moved i sink t none sink' (e ∷ t)
  idle-Moved sink sink' e t kind l f put took own blocked = record {
    bytes = [];
    taken_is = rw took;
    written_is = rw (put sink.fd, take_all {A = ℕ} sink.limit [] (omega arith));
    rc_is = inr (refl, refl, blocked);
    same_limit = l;
    same_fd = f;
    same_kind = kind;
    others = λ o ne. rw (put o) (append-nil _);
    untaken = λ j ne. rw (own j ne);
    later = omega arith;
  }

  -- A call of `fail` after one event.
  Dies-Handles :
      (sink sink' : Sink) (e : Event) (t : Trace) (r : Outcome (Unit {0}) × Trace)
      → interrupt e ≡ 0
      → Dies fuel (e ∷ t) r
      → Handles i sink fuel t (bind_from r.0 r.1 (λ _. pure {A = Handled} (none, sink')))
  Dies-Handles sink sink' e t (returns _, t') z d = absurd d
  Dies-Handles sink sink' e t (exits c, t') z d = d
  Dies-Handles sink sink' e t (starves, t') z d = omega arith

  after_read-Handles :
      (sink : Sink) (t : Trace) (r : Res Bytes)
      → IsRegular sink.handler
      → k.read t i pipe_buf ≡ r
      → Handles i sink fuel t (after_read k response_fd fuel sink r (did_read i pipe_buf r ∷ t))
  unfolding after_read
  after_read-Handles sink t (ok buf) kind e =
      read-Handles sink pipe_buf buf t
        (push_loop k response_fd fuel fuel sink (take sink.limit buf) (readt pipe_buf buf t)) kind
        (laws.read_le t i pipe_buf buf e)
        (push_loop-Pushes k response_fd fuel laws sink fuel (take sink.limit buf) _ (omega arith))
  after_read-Handles sink t (err eagain) kind e =
      idle-Moved sink sink _ t kind refl refl (λ o. refl) refl (λ j ne. ==_ne i j ne)
        (rw (==_refl i) refl)
  after_read-Handles sink t (err x) kind e =
      Dies-Handles sink sink (did_read i pipe_buf (err x)) t _ refl
        (fail-Dies k response_fd fuel laws _ _)

  no_splice-Handles :
      (sink : Sink) (t : Trace)
      → IsRegular sink.handler
      → Handles i sink fuel t (regular_pipe_no_splice_handler k response_fd fuel sink i t)
  unfolding regular_pipe_no_splice_handler
  no_splice-Handles sink t kind = after_read-Handles sink t (k.read t i pipe_buf) kind refl

  -- A call that has moved nothing, and a handler behind it.
  event-Handles :
      (sink sink' : Sink) (e : Event) (t : Trace) (r : Outcome Handled × Trace)
      → sink'.limit ≡ sink.limit
      → sink'.fd ≡ sink.fd
      → interrupt e ≡ 0
      → ((o : ℕ) → put_by o e ≡ [])
      → taken_by i e ≡ []
      → ((j : ℕ) → j ≢ i → is_call_on j e ≡ false)
      → Handles i sink' fuel (e ∷ t) r
      → Handles i sink fuel t r
  event-Handles sink sink' e t (returns (rc, s), t') l f z put took own m = record {
    bytes = m.bytes;
    taken_is = m.taken_is ∙ ap (λ x. (taken i t ++ x) ++ m.bytes) took ∙ rw append-nil;
    written_is = rw (← f) (
        m.written_is
        ∙ ap (λ x. (written sink'.fd t ++ x) ++ take sink'.limit m.bytes) (put sink'.fd)
        ∙ rw (append-nil, l));
    rc_is = m.rc_is;
    same_limit = m.same_limit ∙ l;
    same_fd = m.same_fd ∙ f;
    same_kind = m.same_kind;
    others = λ o ne. m.others o (λ same. ne (same ∙ f)) ∙ rw (put o) (append-nil _);
    untaken = λ j ne. m.untaken j ne ∙ rw (own j ne);
    later = omega (arith, m.later);
  }
  event-Handles sink sink' e t (exits c, t') l f z put took own h = h
  event-Handles sink sink' e t (starves, t') l f z put took own h = omega arith

  after_splice-Handles :
      (sink : Sink) (t : Trace) (r : Res Bytes)
      → IsRegular sink.handler
      → k.splice t i sink.fd sink.limit ≡ r
      → Handles i sink fuel t
          (after_splice k response_fd fuel sink i r (spliced i sink.fd sink.limit r ∷ t))
  unfolding after_splice
  after_splice-Handles sink t (ok moved) kind e = record {
    bytes = moved;
    taken_is = rw (==_refl i);
    written_is = rw (
      ==_refl sink.fd,
      take_all sink.limit moved (laws.splice_le t i sink.fd sink.limit moved e),
    );
    rc_is = inl refl;
    same_limit = refl;
    same_fd = refl;
    same_kind = kind;
    others = λ o ne. rw (==_ne sink.fd o ne) (append-nil _);
    untaken = λ j ne. rw (==_ne i j ne);
    later = omega arith;
  }
  after_splice-Handles sink t (err einval) kind e =
      event-Handles sink (record sink { handler = regular_pipe_no_splice }) _ t _ refl refl refl
        (λ o. refl) refl (λ j ne. ==_ne i j ne)
        (no_splice-Handles (record sink { handler = regular_pipe_no_splice }) _ tt)
  after_splice-Handles sink t (err eagain) kind e =
      idle-Moved sink sink _ t kind refl refl (λ o. refl) refl (λ j ne. ==_ne i j ne)
        (rw (==_refl i) refl)
  after_splice-Handles sink t (err x) kind e =
      Dies-Handles sink sink (spliced i sink.fd sink.limit (err x)) t _ refl
        (fail-Dies k response_fd fuel laws _ _)

  regular-Handles :
      (sink : Sink) (t : Trace)
      → IsRegular sink.handler
      → Handles i sink fuel t (regular_pipe_handler k response_fd fuel sink i t)
  unfolding regular_pipe_handler
  regular-Handles sink t kind = elim (Bool-cases (sink.limit == 0)) [
    | inl none_left ↦ rw none_left (no_splice-Handles sink t kind)
    | inr some_left ↦
        rw some_left (after_splice-Handles sink t (k.splice t i sink.fd sink.limit) kind refl)
  ]

  -- A call of a regular pipe's handler moves what it takes out of the pipe to the file of the sink,
  -- cut at the limit, and touches nothing else; or it exits by `fail`; or it starves with less fuel
  -- than two buffers and the interrupts.
  pub handle-Handles :
      (h : Handler) (exiting : Bool) (sink : Sink) (t : Trace)
      → IsRegular h
      → h ≡ sink.handler
      → Handles i sink fuel t (handle k response_fd fuel h exiting sink i t)
  unfolding handle
  handle-Handles regular_pipe exiting sink t kind e = regular-Handles sink t (rw (← e) kind)
  handle-Handles regular_pipe_no_splice exiting sink t kind e =
      no_splice-Handles sink t (rw (← e) kind)
  handle-Handles stdstreams_pipe_init exiting sink t kind e = absurd kind
  handle-Handles stdstreams_pipe exiting sink t kind e = absurd kind
