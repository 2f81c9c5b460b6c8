-- ===== src/Watch/Fits.antt =====
-- src/supervisor.c: the response in the buffer of the supervisor, while it is in its loop.
use sandals.Prelude.{
  ℕ, ◌+◌, ◌-◌, ◌≤◌, ◌≡◌, refl, Bool, true, false, Bool-cases, inl, inr, List, [], ◌∷◌, Bytes,
  Option, none, some, Option-cases, arith, length, length-append, ◌==◌, if◌then◌else◌,
}
use sandals.Os.{Kernel, Trace, M, pure, ◌>>=◌, Res, ok, err, eagain, Message}
use sandals.Os.Laws.{IsDocumented}
use sandals.Os.Returning.{Returning, Returning-bind, any-Returning, if-Returning}
use sandals.Response.{Response, buf_size, append_raw, append_esc, escape_byte}
use sandals.Fail.{
  Status, exited, killed, memory_limit, pids_limit, time_limit, output_limit, internal_error,
  request_invalid, response_too_big,
}
use sandals.Fail.Never.{die-Returning}
use sandals.Counter.{cgroup_counter_nonzero}
use sandals.Watch.State.{
  Supervisor, verdict, take_rights, take_body, mark, Checked, otherwise, pipe0_index,
}
use sandals.Watch.Checks.{
  after_counter, check_counter, do_memoryevents, do_pidsevents, after_recvmsg, do_spawnerout,
  do_pipes, after_pass,
}
use sandals.Supervisor.{Channel, pass}
use sandals.Watch.Loop.{after_spawnerout}

-- All that is counted is stored, and is at most one byte more than a response may have, which the
-- buffer and what is behind it have room for.
pub record Fits (r : Response) : Type 0 where
  pub whole : length r.buf ≡ r.size
  pub size_le : r.size ≤ buf_size + 1

abbrev pub SupervisorFits : Supervisor → Trace → Type 0
SupervisorFits s t = Fits s.response

abbrev pub CheckedFits : Checked → Trace → Type 0
CheckedFits c t = Fits c.0.response

pub verdict-Fits : (status : Status) → Fits (verdict status)
unfolding verdict append_raw append_esc escape_byte
verdict-Fits exited = record { whole = refl; size_le = omega arith }
verdict-Fits killed = record { whole = refl; size_le = omega arith }
verdict-Fits memory_limit = record { whole = refl; size_le = omega arith }
verdict-Fits pids_limit = record { whole = refl; size_le = omega arith }
verdict-Fits time_limit = record { whole = refl; size_le = omega arith }
verdict-Fits output_limit = record { whole = refl; size_le = omega arith }
verdict-Fits internal_error = record { whole = refl; size_le = omega arith }
verdict-Fits request_invalid = record { whole = refl; size_le = omega arith }
verdict-Fits response_too_big = record { whole = refl; size_le = omega arith }

pub mark-response : (events : List Bool) (s : Supervisor) → (mark events s).response ≡ s.response
unfolding mark
mark-response [] s = refl
mark-response (a ∷ []) s = refl
mark-response (a ∷ b ∷ []) s = refl
mark-response (a ∷ b ∷ c ∷ []) s = refl
mark-response (a ∷ b ∷ c ∷ d ∷ events) s = refl

take_body-Fits :
    (body : Bytes) (s : Supervisor)
    → Fits s.response
    → length body ≤ buf_size + 1 - s.response.size
    → Fits (take_body body s).response
unfolding take_body
take_body-Fits body s f le = record {
  whole = omega (arith, f.whole, length-append s.response.buf body);
  size_le = omega (arith, f.size_le, le);
}

otherwise-Fits :
    (next : Supervisor → M Checked) (c : Checked) (t : Trace)
    → ((s : Supervisor) (u : Trace) → Fits s.response → Returning CheckedFits (next s u))
    → Fits c.0.response
    → Returning CheckedFits (otherwise next c t)
otherwise-Fits next (s, true) t h f = f
otherwise-Fits next (s, false) t h f = h s t f

-- One check, and the next one unless the loop is left.
pub check-Fits :
    (b : Bool) (check : M Checked) (next : Supervisor → M Checked) (s : Supervisor) (t : Trace)
    → Returning CheckedFits (check t)
    → ((s' : Supervisor) (u : Trace) → Fits s'.response → Returning CheckedFits (next s' u))
    → Fits s.response
    → Returning CheckedFits (((if b then check else pure (s, false)) >>= otherwise next) t)
check-Fits b check next s t h h' f =
    Returning-bind CheckedFits CheckedFits _ (otherwise next)
      (if-Returning CheckedFits b check (pure (s, false)) t (λ _. h) (λ _. f))
      (λ c u g. otherwise-Fits next c u h' g)

module _ (k : Kernel) (response_fd fuel : ℕ) (laws : IsDocumented k) where
  after_counter-Fits :
      (status : Status) (s : Supervisor) (hit : Bool) (t : Trace)
      → Fits s.response
      → Returning CheckedFits (after_counter k response_fd fuel status s hit t)
  unfolding after_counter
  after_counter-Fits status s true t f = verdict-Fits status
  after_counter-Fits status s false t f = f

  check_counter-Fits :
      (status : Status) (key file : Bytes) (fd : Option ℕ) (s : Supervisor) (t : Trace)
      → Fits s.response
      → Returning CheckedFits (check_counter k response_fd fuel status key file fd s t)
  unfolding check_counter
  check_counter-Fits status key file none s t f = f
  check_counter-Fits status key file (some fd) s t f =
      any-Returning CheckedFits (cgroup_counter_nonzero k response_fd fuel fd key file fuel t)
        (after_counter k response_fd fuel status s) (λ hit u. after_counter-Fits status s hit u f)

  after_recvmsg-Fits :
      (s : Supervisor) (r : Res Message) (t : Trace)
      → Fits s.response
      → ((m : Message) → r ≡ ok m → length m.body ≤ buf_size + 1 - s.response.size)
      → Returning CheckedFits (after_recvmsg k response_fd fuel s r t)
  unfolding after_recvmsg take_rights
  after_recvmsg-Fits s (err eagain) t f le = f
  after_recvmsg-Fits s (err e) t f le = die-Returning k response_fd fuel _ (s, false) _ _
  after_recvmsg-Fits s (ok m) t f le = elim (Bool-cases (length m.body == 0)) [
    | inl ended ↦ rw ended (elim (Bool-cases (s.response.size == 0)) [
      | inl nothing ↦ rw nothing (die-Returning k response_fd fuel CheckedFits (s, true) _ t)
      | inr something ↦ rw something f
    ])
    | inr more ↦ rw more (elim (Option-cases m.rights) [
      | inl e ↦ rw e (take_body-Fits m.body s f (le m refl))
      | inr (fds, e) ↦ rw e (elim (Bool-cases (length fds == length s.channels)) [
        | inl all ↦ rw all f
        | inr some1 ↦ rw some1 (take_body-Fits m.body s f (le m refl))
      ])
    ])
  ]

  pub do_spawnerout-Fits :
      (s : Supervisor) (t : Trace)
      → Fits s.response
      → Returning CheckedFits (do_spawnerout k response_fd fuel s t)
  unfolding do_spawnerout
  do_spawnerout-Fits s t f =
      let n = buf_size + 1 - s.response.size in
      after_recvmsg-Fits s (k.recvmsg t s.spawnerout_fd n) _ f
        (λ m e. laws.recvmsg_le t s.spawnerout_fd n m e)

  pub memory-Fits :
      (s : Supervisor) (t : Trace)
      → Fits s.response
      → Returning CheckedFits (do_memoryevents k response_fd fuel s t)
  unfolding do_memoryevents
  memory-Fits s t f = check_counter-Fits _ _ _ s.memory_fd s t f

  pub pids-Fits :
      (s : Supervisor) (t : Trace)
      → Fits s.response
      → Returning CheckedFits (do_pidsevents k response_fd fuel s t)
  unfolding do_pidsevents
  pids-Fits s t f = check_counter-Fits _ _ _ s.pids_fd s t f

  pub after_spawnerout-Fits :
      (c : Checked) (t : Trace)
      → Fits c.0.response
      → Returning CheckedFits (after_spawnerout k response_fd fuel c t)
  unfolding after_spawnerout
  after_spawnerout-Fits (s, false) t f = f
  after_spawnerout-Fits (s, true) t f =
      Returning-bind CheckedFits CheckedFits _ _ (pids-Fits s t f)
        (λ c u g. Returning-bind CheckedFits CheckedFits _ _ (memory-Fits c.0 u g) (λ c' v g'. g'))

  after_pass-Fits :
      (s : Supervisor) (cs : List Channel) (exceeded : Bool)
      → Fits s.response
      → Fits (after_pass k response_fd fuel s (cs, exceeded)).0.response
  after_pass-Fits s cs true f = verdict-Fits output_limit
  after_pass-Fits s cs false f = f

  pub pipes-Fits :
      (s : Supervisor) (t : Trace)
      → Fits s.response
      → Returning CheckedFits (do_pipes k response_fd fuel s t)
  unfolding do_pipes
  pipes-Fits s t f =
      any-Returning CheckedFits
        (pass k response_fd fuel fuel s.exiting (s.npollfd - pipe0_index) s.channels t)
        (λ r. pure (after_pass k response_fd fuel s r)) (λ r u. after_pass-Fits s r.0 r.1 f)
