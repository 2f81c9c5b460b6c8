-- ===== src/Watch/Messages.antt =====
-- src/supervisor.c: what a message of the spawner leaves as it is.
use sandals.Prelude.{
  ℕ, ◌≡◌, refl, Bool, true, false, ◌∷◌, Bool-cases, inl, inr, length, ◌==◌, Option-cases, ◌-◌, ◌+◌,
}
use sandals.Os.{
  Kernel, Trace, Outcome, returns, exits, starves, pure, bind_from, Res, ok, err, eagain, Message,
  got_message,
}
use sandals.Os.Returning.{Returning}
use sandals.Response.{buf_size}
use sandals.Watch.State.{Supervisor, take_rights, take_body, Checked}
use sandals.Watch.Checks.{do_spawnerout, after_recvmsg}

-- The descriptors of the counters stay.
abbrev pub Keeps : Supervisor → Outcome Checked × Trace → Type 0
Keeps s = Returning (λ c t. (c.0.memory_fd ≡ s.memory_fd) × (c.0.pids_fd ≡ s.pids_fd))

module _ (k : Kernel) (response_fd fuel : ℕ) where
  die-Keeps :
      (s : Supervisor) (b : Bool) (r : Outcome (Unit {0}) × Trace)
      → Keeps s (bind_from r.0 r.1 (λ _. pure (s, b)))
  die-Keeps s b (returns _, t) = (refl, refl)
  die-Keeps s b (exits c, t) = tt
  die-Keeps s b (starves, t) = tt

  -- The spawner's message does not touch the descriptors of the counters.
  after_recvmsg-Keeps :
      (s : Supervisor) (r : Res Message) (t : Trace)
      → Keeps s (after_recvmsg k response_fd fuel s r t)
  unfolding after_recvmsg take_rights take_body
  after_recvmsg-Keeps s (err eagain) t = (refl, refl)
  after_recvmsg-Keeps s (err e) t = die-Keeps s false _
  after_recvmsg-Keeps s (ok message) t = elim (Bool-cases (length message.body == 0)) [
    | inl ended ↦ rw ended (elim (Bool-cases (s.response.size == 0)) [
      | inl nothing ↦ rw nothing (die-Keeps s true _)
      | inr something ↦ rw something (refl, refl)
    ])
    | inr more ↦ rw more (elim (Option-cases message.rights) [
      | inl e ↦ rw e (refl, refl)
      | inr (fds, e) ↦ rw e (elim (Bool-cases (length fds == length s.channels)) [
        | inl all ↦ rw all (refl, refl)
        | inr some1 ↦ rw some1 (refl, refl)
      ])
    ])
  ]

  pub do_spawnerout-Keeps :
      (s : Supervisor) (t : Trace) → Keeps s (do_spawnerout k response_fd fuel s t)
  unfolding do_spawnerout
  do_spawnerout-Keeps s t =
      let n = buf_size + 1 - s.response.size in
      let r = k.recvmsg t s.spawnerout_fd n in
      after_recvmsg-Keeps s r (got_message s.spawnerout_fd n r ∷ t)
