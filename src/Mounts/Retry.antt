-- ===== src/Mounts/Retry.antt =====
-- src/mounts.c: the calls of `mount` for one mount, and the paths of targets.
use sandals.Prelude.{
  ℕ, ◌≡◌, ◌⊎◌, refl, ap, ◌∙◌, Bool, true, false, ◌∷◌, Bytes, inl, inr, if◌then◌else◌,
}
use sandals.Os.{
  Kernel, Trace, Event, Outcome, returns, exits, starves, bind_from, Res, ok, err, enoent, called,
  mount, call, ◌>>=◌, pure,
}
use sandals.Os.Returning.{Returning, weaken-Returning}
use sandals.Fail.Never.{die-Returning}
use sandals.Mounts.Nodes.{c_str, create_node}
use sandals.Mounts.Entries.{
  Mount, bound_src, mount_error, after_remount, remount, after_retry, retry_mount, after_mount,
  do_mount,
}
use sandals.Mounts.Buffers.{nuls, c_str_same}
use sandals.Mounts.Parts.{mounts_of, Restored}
use sandals.Mounts.Restore.{create_node-Restored}

-- A call of `mount` for `m`.
abbrev pub mounted : Mount → Bool → Res ℕ → Event
mounted m ro r = called (mount m.src m.dest m.type m.binds ro m.options) r

-- The call that makes a read-only mount read-only has succeeded.
abbrev pub Finished : Bool → Mount → Trace → Trace → Type 0
Finished true m t t' = (n : ℕ) × (t' ≡ mounted m true (ok n) ∷ t)
Finished false m t t' = t' ≡ t

module _ (k : Kernel) (response_fd fuel : ℕ) (m : Mount) where
  -- The first call has failed with ENOENT. Then `create_node` has returned, given the target, and
  -- the source if that is bound. It has left the target as it was, and mounted nothing.
  pub record IsCreated (t u : Trace) : Type 0 where
    pub ran :
        create_node k response_fd fuel (bound_src m) m.dest (mounted m false (err enoent) ∷ t)
        ≡ (returns m.dest, u)
    pub mounts : mounts_of u ≡ mounted m false (err enoent) ∷ mounts_of t

  -- The first call has succeeded, or the one behind `create_node` has.
  abbrev pub Placed : Trace → Trace → Type 0
  Placed t t' =
      (n : ℕ) × ((t' ≡ mounted m false (ok n) ∷ t)
        ⊎ ((u : Trace) × IsCreated t u × (t' ≡ mounted m false (ok n) ∷ u)))

  abbrev pub Mounts : Trace → Unit {0} → Trace → Type 0
  Mounts t _ t' = (u : Trace) × Placed t u × Finished m.ro m u t'

  remounted-Finished :
      (r : Res ℕ) (t : Trace)
      → Returning
          (λ _ t'. Finished true m t t')
          (after_remount k response_fd fuel m m.dest r (mounted m true r ∷ t))
  unfolding after_remount mount_error
  remounted-Finished (ok n) t = (n, refl)
  remounted-Finished (err e) t = die-Returning k response_fd fuel _ tt _ _

  remount_if-Finished :
      (ro : Bool) (t : Trace)
      → Returning
          (λ _ t'. Finished ro m t t')
          ((if ro
              then call k (mount m.src m.dest m.type m.binds true m.options)
                >>= after_remount k response_fd fuel m m.dest
              else pure tt)
            t)
  remount_if-Finished true t = remounted-Finished _ t
  remount_if-Finished false t = refl

  -- A mount has succeeded, and the rest follows.
  remount-Mounts :
      (t u : Trace) → Placed t u → Returning (Mounts t) (remount k response_fd fuel m m.dest u)
  unfolding remount
  remount-Mounts t u p =
      weaken-Returning (λ _ t'. Finished m.ro m u t') (Mounts t) _ (remount_if-Finished m.ro u)
        (λ _ t' f. (u, p, f))

  after_retry-Mounts :
      (r : Res ℕ) (t u : Trace)
      → IsCreated t u
      → Returning (Mounts t) (after_retry k response_fd fuel m m.dest r (mounted m false r ∷ u))
  unfolding after_retry mount_error
  after_retry-Mounts (ok n) t u created =
      remount-Mounts t (mounted m false (ok n) ∷ u) (n, inr (u, created, refl))
  after_retry-Mounts (err e) t u created = die-Returning k response_fd fuel _ tt _ _

  -- The second call has the target that `create_node` leaves.
  retry_mount-Mounts :
      (r : Outcome Bytes × Trace) (t : Trace)
      → nuls m.dest ≡ 0
      → create_node k response_fd fuel (bound_src m) m.dest (mounted m false (err enoent) ∷ t) ≡ r
      → Returning (Restored m.dest (mounted m false (err enoent) ∷ mounts_of t)) r
      → Returning
          (Mounts t)
          (bind_from r.0 r.1 (λ buf. retry_mount k response_fd fuel m (c_str buf)))
  unfolding retry_mount
  retry_mount-Mounts (returns buf, u) t clean ran (same, h) =
      rw (same, c_str_same m.dest clean)
        (after_retry-Mounts _ t u
          (record { ran = ran ∙ ap (λ b. (returns b, u)) same; mounts = h }))
  retry_mount-Mounts (exits c, u) t clean ran h = tt
  retry_mount-Mounts (starves, u) t clean ran h = tt

  after_mount-Mounts :
      (r : Res ℕ) (t : Trace)
      → nuls m.dest ≡ 0
      → Returning (Mounts t) (after_mount k response_fd fuel m m.dest r (mounted m false r ∷ t))
  unfolding after_mount mount_error
  after_mount-Mounts (ok n) t clean = remount-Mounts t (mounted m false (ok n) ∷ t) (n, inl refl)
  after_mount-Mounts (err enoent) t clean =
      retry_mount-Mounts _ t clean refl
        (create_node-Restored k response_fd fuel (bound_src m) m.dest _ clean)
  after_mount-Mounts (err e) t clean = die-Returning k response_fd fuel _ tt _ _

  -- Whenever a mount returns, its target is mounted by a call that has succeeded: the first one, or
  -- a second one with the same arguments right after the first has failed with ENOENT and
  -- `create_node` has then run for the target, with the source only of a bind mount, and returned
  -- with the path of the target as it was. There is no other call of `mount`, except that a
  -- read-only mount is then made read-only by one more that has succeeded. The target contains no
  -- NUL.
  pub do_mount-Mounts :
      (t : Trace) → nuls m.dest ≡ 0 → Returning (Mounts t) (do_mount k response_fd fuel m t)
  unfolding do_mount
  do_mount-Mounts t clean = after_mount-Mounts _ t clean
