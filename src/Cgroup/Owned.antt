-- ===== src/Cgroup/Owned.antt =====
-- src/cgroup.c: a cgroup that has been made is one that the destructor removes.
use sandals.Prelude.{◌≡◌, refl, ◌∙◌, arith, ◌⊎◌, inl, inr, false, List, [], ◌∷◌, Bytes}
use sandals.Os.{
  Trace, Event, ok, called, assigned, make_dir, no_cleanup, pending, spawner_pid, cgroup_path,
  spawner_pid_of, cgroup_path_of,
}
use sandals.Os.Ending.{IsSteady, is_cgroup_event}
use sandals.Cgroup.Cleanup.{nothing_to_clean}

-- The directories that have been made.
abbrev pub made_by : Event → List Bytes → List Bytes
made_by (called (make_dir path) (ok n)) paths = path ∷ paths
made_by _ paths = paths

abbrev pub made_dirs : Trace → List Bytes
made_dirs [] = []
made_dirs (e ∷ t) = made_by e (made_dirs t)

-- No directory has been made, and the destructor does nothing.
pub record IsUntouched (t : Trace) : Type 0 where
  pub none_made : made_dirs t ≡ []
  pub disabled : spawner_pid_of t ≡ no_cleanup

-- One directory has been made; the destructor is enabled, and it removes that directory.
pub record IsOwned (t : Trace) : Type 0 where
  pub path : Bytes
  pub one_made : made_dirs t ≡ path ∷ []
  pub its_path : cgroup_path_of t ≡ path
  pub enabled : spawner_pid_of t ≡ pending
  pub to_clean : nothing_to_clean pending path ≡ false

abbrev pub IsTidy : Trace → Type 0
IsTidy t = IsUntouched t ⊎ IsOwned t

-- What the other events leave as it is.
pub record IsSame (t t' : Trace) : Type 0 where
  pub made : made_dirs t' ≡ made_dirs t
  pub pid : spawner_pid_of t' ≡ spawner_pid_of t
  pub path : cgroup_path_of t' ≡ cgroup_path_of t

pub steady-IsSame : (e : Event) (t : Trace) → is_cgroup_event e ≡ false → IsSame t (e ∷ t)
steady-IsSame (called (make_dir path) r) t h = absurd (ground (arith, h))
steady-IsSame (assigned (spawner_pid p)) t h = absurd (ground (arith, h))
steady-IsSame (assigned (cgroup_path path)) t h = absurd (ground (arith, h))
steady-IsSame _ t h = record { made = refl; pid = refl; path = refl }

pub IsUntouched-IsSteady : IsSteady IsUntouched
IsUntouched-IsSteady e t h u =
    let same = steady-IsSame e t h in
    record { none_made = same.made ∙ u.none_made; disabled = same.pid ∙ u.disabled }

IsOwned-IsSteady : IsSteady IsOwned
IsOwned-IsSteady e t h o =
    let same = steady-IsSame e t h in
    record {
      path = o.path;
      one_made = same.made ∙ o.one_made;
      its_path = same.path ∙ o.its_path;
      enabled = same.pid ∙ o.enabled;
      to_clean = o.to_clean;
    }

pub IsTidy-IsSteady : IsSteady IsTidy
IsTidy-IsSteady e t h (inl u) = inl (IsUntouched-IsSteady e t h u)
IsTidy-IsSteady e t h (inr o) = inr (IsOwned-IsSteady e t h o)
