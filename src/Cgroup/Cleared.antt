-- ===== src/Cgroup/Cleared.antt =====
-- src/cgroup.c: the destructor, from the globals that it reads.
use sandals.Prelude.{ℕ, ◌≡◌, refl, ◌⊎◌, inl, inr, true, false, [], ◌∷◌, Bytes}
use sandals.Os.{
  Kernel, Trace, Outcome, returns, called, closed, kill, SpawnerPid, no_cleanup, pending, running,
  spawner_pid_of, cgroup_path_of, cgroupevents_fd_of,
}
use sandals.Cgroup.Cleanup.{kill_running, nothing_to_clean, clean, cleanup_cgroup}
use sandals.Cgroup.Removal.{Removes, remove_cgroup-Removes}

module _ (k : Kernel) (response_fd rounds : ℕ) where
  -- The calls before the loop.
  abbrev pub begun : SpawnerPid → Trace → Trace
  begun (running pid) t =
      called (kill pid) (k.call (closed response_fd ∷ t) (kill pid)) ∷ closed response_fd ∷ t
  begun _ t = closed response_fd ∷ t

  abbrev pub Clears : SpawnerPid → ℕ → Bytes → Trace → Outcome (Unit {0}) × Trace → Type 0
  Clears pid fd path t r =
      ((nothing_to_clean pid path ≡ true) × (r ≡ (returns tt, t)))
      ⊎ ((nothing_to_clean pid path ≡ false) × Removes k fd path rounds (begun pid t) r)

  clean-Clears :
      (pid : SpawnerPid) (fd : ℕ) (path : Bytes) (t : Trace)
      → Clears pid fd path t (clean k response_fd rounds pid fd path t)
  unfolding clean nothing_to_clean kill_running
  clean-Clears no_cleanup fd path t = inl (refl, refl)
  clean-Clears pending fd [] t = inl (refl, refl)
  clean-Clears pending fd (c ∷ path) t =
      inr (refl, remove_cgroup-Removes k fd (c ∷ path) response_fd rounds _)
  clean-Clears (running pid) fd [] t = inl (refl, refl)
  clean-Clears (running pid) fd (c ∷ path) t =
      inr (refl, remove_cgroup-Removes k fd (c ∷ path) response_fd rounds _)

  -- The destructor does nothing if `spawner_pid` is 0 or there is no path. Otherwise it closes the
  -- file of the response first, then kills the spawner if there is one, and only then begins to
  -- remove the cgroup that the globals name, as `remove_cgroup` does. It never exits.
  pub cleanup_cgroup-Clears :
      (t : Trace)
      → Clears
          (spawner_pid_of t)
          (cgroupevents_fd_of t)
          (cgroup_path_of t)
          t
          (cleanup_cgroup k response_fd rounds t)
  unfolding cleanup_cgroup
  cleanup_cgroup-Clears t =
      clean-Clears (spawner_pid_of t) (cgroupevents_fd_of t) (cgroup_path_of t) t
