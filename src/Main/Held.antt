-- ===== src/Main/Held.antt =====
-- src/sandals.c and src/cgroup.c: a cgroup that the process has to remove, and the exit that does.
use sandals.Prelude.{ℕ, ◌≡◌, ◌⊎◌, inl, inr, refl, sym, ap, ◌∙◌, false, [], ◌∷◌, Bytes, arith}
use sandals.Os.{
  Kernel, Trace, Outcome, assigned, SpawnerPid, no_cleanup, pending, running, spawner_pid,
  spawner_pid_of, cgroup_path_of, cgroupevents_fd_of,
}
use sandals.Os.Ending.{IsSteady}
use sandals.Cgroup.Cleanup.{nothing_to_clean, cleanup_cgroup}
use sandals.Cgroup.Owned.{made_dirs, IsTidy, steady-IsSame}
use sandals.Cgroup.Removal.{Removes}
use sandals.Cgroup.Cleared.{Clears, begun, cleanup_cgroup-Clears}
use sandals.Main.{stdout_fileno}

-- No directory has been made, or one that the destructor removes.
pub record IsHeld (t : Trace) : Type 0 where
  pub path : Bytes
  pub one_made : made_dirs t ≡ path ∷ []
  pub its_path : cgroup_path_of t ≡ path
  pub to_clean : nothing_to_clean (spawner_pid_of t) path ≡ false

abbrev pub IsHandled : Trace → Type 0
IsHandled t = (made_dirs t ≡ []) ⊎ IsHeld t

pub IsHandled-IsSteady : IsSteady IsHandled
IsHandled-IsSteady e t h (inl none_made) = inl ((steady-IsSame e t h).made ∙ none_made)
IsHandled-IsSteady e t h (inr held) =
    let same = steady-IsSame e t h in
    inr (record {
      path = held.path;
      one_made = same.made ∙ held.one_made;
      its_path = same.path ∙ held.its_path;
      to_clean = ap (λ p. nothing_to_clean p held.path) same.pid ∙ held.to_clean;
    })

pub tidy-IsHandled : (t : Trace) → IsTidy t → IsHandled t
tidy-IsHandled t (inl u) = inl u.none_made
tidy-IsHandled t (inr o) = inr (record {
  path = o.path;
  one_made = o.one_made;
  its_path = o.its_path;
  to_clean = ap (λ p. nothing_to_clean p o.path) o.enabled ∙ o.to_clean;
})

-- Any process to be killed will do.
pub running_lem :
    (pid : ℕ) (path : Bytes)
    → nothing_to_clean pending path ≡ false
    → nothing_to_clean (running pid) path ≡ false
unfolding nothing_to_clean
running_lem pid [] h = absurd (ground (arith, h))
running_lem pid (c ∷ path) h = refl

-- The assignments behind `clone`.
pub assigned-IsHandled :
    (p : SpawnerPid) (t : Trace)
    → ((path : Bytes) → nothing_to_clean pending path ≡ false → nothing_to_clean p path ≡ false)
    → IsTidy t
    → IsHandled (assigned (spawner_pid p) ∷ t)
assigned-IsHandled p t keeps (inl u) = inl u.none_made
assigned-IsHandled p t keeps (inr o) = inr (record {
  path = o.path;
  one_made = o.one_made;
  its_path = o.its_path;
  to_clean = keeps o.path o.to_clean;
})

-- The assignment behind `kill` in `supervisor`.
reset_lem :
    (p : SpawnerPid) (path : Bytes)
    → nothing_to_clean p path ≡ false
    → nothing_to_clean pending path ≡ false
unfolding nothing_to_clean
reset_lem no_cleanup path h = absurd (ground (arith, h))
reset_lem pending path h = h
reset_lem (running pid) [] h = absurd (ground (arith, h))
reset_lem (running pid) (c ∷ path) h = refl

pub reset-IsHandled : (t : Trace) → IsHandled t → IsHandled (assigned (spawner_pid pending) ∷ t)
reset-IsHandled t (inl none_made) = inl none_made
reset-IsHandled t (inr held) = inr (record {
  path = held.path;
  one_made = held.one_made;
  its_path = held.its_path;
  to_clean = reset_lem (spawner_pid_of t) held.path held.to_clean;
})

-- After the destructor: no directory has been made, or the one that has been made is removed, as
-- `remove_cgroup` does it, after the spawner has been killed if there is one.
abbrev pub Cleaned : Kernel → ℕ → Trace → Outcome (Unit {0}) × Trace → Type 0
Cleaned k rounds t r =
    (made_dirs t ≡ [])
    ⊎ ((path : Bytes) × (made_dirs t ≡ path ∷ [])
        × Removes k (cgroupevents_fd_of t) path rounds
            (begun k stdout_fileno rounds (spawner_pid_of t) t) r)

module _ (k : Kernel) (rounds : ℕ) where
  held-Cleaned :
      (t : Trace) (held : IsHeld t) (r : Outcome (Unit {0}) × Trace)
      → Clears k stdout_fileno rounds
          (spawner_pid_of t)
          (cgroupevents_fd_of t)
          (cgroup_path_of t)
          t
          r
      → Cleaned k rounds t r
  held-Cleaned t held r (inl (nothing, e)) = absurd (
      ground (
        arith,
        sym (ap (nothing_to_clean (spawner_pid_of t)) held.its_path) ∙ nothing,
        held.to_clean,
      ))
  held-Cleaned t held r (inr (some_path, removes)) =
      inr (cgroup_path_of t, held.one_made ∙ ap (λ p. p ∷ []) (sym held.its_path), removes)

  pub cleanup-Cleaned :
      (t : Trace) → IsHandled t → Cleaned k rounds t (cleanup_cgroup k stdout_fileno rounds t)
  cleanup-Cleaned t (inl none_made) = inl none_made
  cleanup-Cleaned t (inr held) =
      held-Cleaned t held _ (cleanup_cgroup-Clears k stdout_fileno rounds t)
