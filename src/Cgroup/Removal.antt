-- ===== src/Cgroup/Removal.antt =====
-- src/cgroup.c: how the removal of the cgroup ends.
use sandals.Prelude.{
  ℕ, zero, suc, ◌+◌, ◌≤◌, ◌<◌, ◌≡◌, ◌≢◌, refl, subst, ◌∷◌, ◌++◌, Bytes, codes, arith, Bool, true,
  false,
}
use sandals.Os.{
  Kernel, Trace, Errno, Outcome, returns, exits, starves, M, Res, ok, err, eintr, ebusy, called,
  did_pread, logged, remove_dir, poll_priority,
}
use sandals.Cgroup.Cleanup.{removal_error, after_priority, after_reset, after_rmdir, remove_cgroup}

abbrev pub is_ebusy : Errno → Bool
is_ebusy ebusy = true
is_ebusy _ = false

abbrev pub is_eintr : Errno → Bool
is_eintr eintr = true
is_eintr _ = false

-- `poll` has come back with an event, or for a signal.
abbrev pub is_awake : Res ℕ → Bool
is_awake (ok _) = true
is_awake (err e) = is_eintr e

-- One round of the loop: the cgroup was busy, the pending updates were reset, and `poll` came back.
abbrev pub round : ℕ → Bytes → Bytes → Res ℕ → Trace → Trace
round fd path bs r u =
    called (poll_priority fd) r
    ∷ did_pread fd 128 0 (ok bs)
    ∷ called (remove_dir path) (err ebusy)
    ∷ u

module _ (k : Kernel) (fd : ℕ) (path : Bytes) where
  -- The traces after some rounds, in each of which the kernel has answered that the cgroup is busy.
  pub data Rounds (t : Trace) : ℕ → Trace → Type 0 where
    start : Rounds t 0 t
    wait :
        (n : ℕ) (u : Trace) (bs : Bytes) (r : Res ℕ)
        → Rounds t n u
        → k.call u (remove_dir path) ≡ err ebusy
        → is_awake r ≡ true
        → Rounds t (suc n) (round fd path bs r u)

  abbrev gave_up : Errno → Trace → Trace
  gave_up e t = logged (codes "Removing cgroup '" ++ path ++ codes "': " ++ k.strerror e) ∷ t

  -- The last calls of the loop: the cgroup has been removed, or one of the three calls has failed in
  -- another way than the loop waits for, which is logged.
  pub data Finish (u t' : Trace) : Type 0 where
    removed : (m : ℕ) → t' ≡ called (remove_dir path) (ok m) ∷ u → Finish u t'
    refused :
        (e : Errno)
        → is_ebusy e ≡ false
        → t' ≡ gave_up e (called (remove_dir path) (err e) ∷ u)
        → Finish u t'
    unread :
        (e : Errno)
        → t' ≡ gave_up e (did_pread fd 128 0 (err e) ∷ called (remove_dir path) (err ebusy) ∷ u)
        → Finish u t'
    unwatched :
        (e : Errno) (bs : Bytes)
        → is_eintr e ≡ false
        → t' ≡ gave_up e (round fd path bs (err e) u)
        → Finish u t'

  abbrev pub Removes : ℕ → Trace → Outcome (Unit {0}) × Trace → Type 0
  Removes total t (returns _, t') = (n : ℕ) × (u : Trace) × (n < total) × Rounds t n u × Finish u t'
  Removes total t (exits _, t') = ⊥
  Removes total t (starves, t') = Rounds t total t'

  module _ (response_fd total : ℕ) (t : Trace) (n : ℕ) (u : Trace) (from : Rounds t n u)
      (below : n < total) (again : M (Unit {0}))
      (ih : (u' : Trace) → Rounds t (suc n) u' → Removes total t (again u')) where
    priority-Removes :
        k.call u (remove_dir path) ≡ err ebusy
        → (bs : Bytes) (r : Res ℕ)
        → Removes total t (after_priority k response_fd again path r (round fd path bs r u))
    unfolding after_priority removal_error
    priority-Removes busy bs (ok m) = ih _ (wait n u bs (ok m) from busy refl)
    priority-Removes busy bs (err eintr) = ih _ (wait n u bs (err eintr) from busy refl)
    priority-Removes busy bs (err e) = (n, u, below, from, unwatched e bs refl refl)

    reset-Removes :
        k.call u (remove_dir path) ≡ err ebusy
        → (r : Res Bytes)
        → Removes total t (
            after_reset k response_fd again fd path r
              (did_pread fd 128 0 r ∷ called (remove_dir path) (err ebusy) ∷ u))
    unfolding after_reset removal_error
    reset-Removes busy (ok bs) = priority-Removes busy bs _
    reset-Removes busy (err e) = (n, u, below, from, unread e refl)

    rmdir-Removes :
        (r : Res ℕ)
        → k.call u (remove_dir path) ≡ r
        → Removes total t
            (after_rmdir k response_fd again fd path r (called (remove_dir path) r ∷ u))
    unfolding after_rmdir removal_error
    rmdir-Removes (ok m) answer = (n, u, below, from, removed m refl)
    rmdir-Removes (err ebusy) answer = reset-Removes answer _
    rmdir-Removes (err e) answer = (n, u, below, from, refused e refl refl)

  loop-Removes :
      (response_fd rounds n total : ℕ) (t u : Trace)
      → Rounds t n u
      → n + rounds ≡ total
      → Removes total t (remove_cgroup k response_fd rounds fd path u)
  unfolding remove_cgroup
  loop-Removes response_fd zero n total t u from e =
      subst (λ m. Rounds t m u) (omega (arith, e)) from
  loop-Removes response_fd (suc rounds) n total t u from e =
      rmdir-Removes response_fd total t n u from (omega (arith, e))
        (remove_cgroup k response_fd rounds fd path)
        (λ u' from'. loop-Removes response_fd rounds (suc n) total t u' from' (omega (arith, e)))
        (k.call u (remove_dir path)) refl

  ended :
      (limit rounds : ℕ) (t : Trace) (r : Outcome (Unit {0}) × Trace)
      → limit < rounds
      → ((n : ℕ) (u : Trace) → limit ≤ n → Rounds t n u → k.call u (remove_dir path) ≢ err ebusy)
      → Removes rounds t r
      → (t' : Trace) × (r ≡ (returns tt, t'))
  ended limit rounds t (returns tt, t') lt h p = (t', refl)
  ended limit rounds t (exits _, t') lt h p = absurd p
  ended limit zero t (starves, t') lt h p = absurd (omega (arith, lt))
  ended limit (suc rounds) t (starves, t') lt h (wait n u bs r from busy awake) =
      absurd (h n u (omega (arith, lt)) from busy)

  -- The loop that removes the cgroup never exits. If it returns, then after fewer than `rounds`
  -- rounds, each of which found the cgroup busy, reset the pending updates and waited for an event or
  -- a signal, it has removed the cgroup, or has logged a failure of one of its calls. It starves only
  -- after `rounds` such rounds.
  pub remove_cgroup-Removes :
      (response_fd rounds : ℕ) (t : Trace)
      → Removes rounds t (remove_cgroup k response_fd rounds fd path t)
  remove_cgroup-Removes response_fd rounds t =
      loop-Removes response_fd rounds 0 rounds t t start (omega arith)

  -- If the cgroup is no longer busy once the loop has gone through `limit` rounds, then the loop
  -- returns, for any bound on its rounds above `limit`.
  pub remove_cgroup-returns :
      (response_fd limit rounds : ℕ) (t : Trace)
      → limit < rounds
      → ((n : ℕ) (u : Trace) → limit ≤ n → Rounds t n u → k.call u (remove_dir path) ≢ err ebusy)
      → (t' : Trace) × (remove_cgroup k response_fd rounds fd path t ≡ (returns tt, t'))
  remove_cgroup-returns response_fd limit rounds t lt h =
      ended limit rounds t _ lt h (remove_cgroup-Removes response_fd rounds t)
