-- ===== src/Cgroup/Cleanup.antt =====
-- src/cgroup.c: the destructor `cleanup_cgroup`.
use sandals.Prelude.{ℕ, zero, suc, Bool, true, false, [], ◌∷◌, ◌++◌, Bytes, codes, if◌then◌else◌}
use sandals.Os.{
  Kernel, M, pure, starve, ◌>>=◌, ◌>>◌, pread, close, call, log, Res, ok, err, eintr, ebusy,
  remove_dir, kill, poll_priority, SpawnerPid, no_cleanup, running, spawner_pid_of, cgroup_path_of,
  cgroupevents_fd_of,
}

-- `!spawner_pid || !cgroup_path[0]`.
unfoldable pub nothing_to_clean : SpawnerPid → Bytes → Bool
nothing_to_clean no_cleanup path = true
nothing_to_clean _ [] = true
nothing_to_clean _ (c ∷ path) = false

module _ (k : Kernel) (response_fd : ℕ) where
  unfoldable pub removal_error : Bytes → Bytes → M (Unit {0})
  removal_error path reason = log (codes "Removing cgroup '" ++ path ++ codes "': " ++ reason)

  -- After `poll` in the loop of `cleanup_cgroup`.
  unfoldable pub after_priority : M (Unit {0}) → Bytes → Res ℕ → M (Unit {0})
  unfolding removal_error
  after_priority again path (ok _) = again
  after_priority again path (err eintr) = again
  after_priority again path (err e) = removal_error path (k.strerror e)

  -- After `pread`, which resets the pending updates.
  unfoldable pub after_reset : M (Unit {0}) → ℕ → Bytes → Res Bytes → M (Unit {0})
  unfolding after_priority removal_error
  after_reset again fd path (ok _) = call k (poll_priority fd) >>= after_priority again path
  after_reset again fd path (err e) = removal_error path (k.strerror e)

  unfoldable pub after_rmdir : M (Unit {0}) → ℕ → Bytes → Res ℕ → M (Unit {0})
  unfolding after_reset removal_error
  after_rmdir again fd path (ok _) = pure tt
  after_rmdir again fd path (err ebusy) = pread k fd 128 0 >>= after_reset again fd path
  after_rmdir again fd path (err e) = removal_error path (k.strerror e)

  -- The loop; `rounds` bounds the calls of `rmdir`.
  unfoldable pub remove_cgroup : ℕ → ℕ → Bytes → M (Unit {0})
  unfolding after_rmdir
  remove_cgroup zero fd path = starve
  remove_cgroup (suc rounds) fd path =
      call k (remove_dir path) >>= after_rmdir (remove_cgroup rounds fd path) fd path

  -- `if (spawner_pid != -1) kill(spawner_pid, SIGKILL)`.
  unfoldable pub kill_running : SpawnerPid → M (Unit {0})
  kill_running (running pid) = call k (kill pid) >>= λ _. pure tt
  kill_running _ = pure tt

  unfoldable pub clean : ℕ → SpawnerPid → ℕ → Bytes → M (Unit {0})
  unfolding nothing_to_clean kill_running remove_cgroup
  clean rounds pid fd path =
      if nothing_to_clean pid path
      then pure tt
      else close response_fd >> kill_running pid >> remove_cgroup rounds fd path

  -- The destructor, which reads the globals.
  unfoldable pub cleanup_cgroup : ℕ → M (Unit {0})
  unfolding clean
  cleanup_cgroup rounds t =
      clean rounds (spawner_pid_of t) (cgroupevents_fd_of t) (cgroup_path_of t) t
