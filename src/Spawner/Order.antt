-- ===== src/Spawner/Order.antt =====
-- src/spawner.c: the order in which `spawner` prepares the namespace.
use sandals.Prelude.{
  ℕ, ◌≡◌, refl, sym, subst, Bool-cases, inl, inr, not, ◌∷◌, Bytes, codes, Option, none, some, ◌++◌,
}
use sandals.Os.{
  Kernel, Trace, Outcome, returns, exits, starves, Res, ok, err, opened, called, change_root,
  change_dir, undumpable, set_personality, map_shared, pure, ◌>>=◌,
}
use sandals.Os.Returning.{Returning, Returning-bind, then-Returning, weaken-Returning}
use sandals.Fail.{call_checked}
use sandals.Fail.Never.{call_checked-Returning, die-Returning}
use sandals.File.Returns.{open_checked-Returning}
use sandals.Json.{Tokens}
use sandals.Request.{Request}
use sandals.Net.Up.{Configured, configure_net-Returning}
use sandals.Users.Maps.{Mapped, map_user_and_group-Returning}
use sandals.Mounts.Entries.{do_mounts}
use sandals.Spawner.Steps.{
  dev_null, dev_proxyfd, is_relative, work_dir_error, after_root, change_work_dir, open_proxyfd,
  prepare,
}
use sandals.Spawner.Stages.{
  Stage, Reach, null_open, proxy_tried, ids_mapped, mounted, randomized, in_work_dir, shared, begin,
  raise, open_null, skip_proxy, try_proxy, map_ids, mount, root, shield, randomize, enter_absolute,
  enter_relative, share,
}

-- A run that returns, as what it returns.
itself :
    (r : Outcome (Unit {0}) × Trace)
    → Returning (λ _ v. ◌≡◌ {A = Outcome (Unit {0}) × Trace} r (returns tt, v)) r
itself (returns tt, v) = refl
itself (exits _, v) = tt
itself (starves, v) = tt

module _ (k : Kernel) (response_fd fuel : ℕ) (toks : Tokens) (uid gid : ℕ) (request : Request) where
  -- What the mounts of the request do where they succeed.
  abbrev pub Mounting : Trace → Trace → Type 0
  Mounting u v = do_mounts k response_fd fuel toks request u ≡ (returns tt, v)

  -- The descriptors, and the stage.
  abbrev pub Prepared : Trace → Stage → ℕ × Option ℕ → Trace → Type 0
  Prepared t stage fds u = Reach Mounting uid gid request fds.0 fds.1 t stage u

  open_proxyfd-Prepared :
      (dest : Option Bytes) (devnull_fd : ℕ) (t u : Trace)
      → request.stdstreams_dest ≡ dest
      → ((devproxyfd : Option ℕ) → Prepared t null_open (devnull_fd, devproxyfd) u)
      → Returning
          (λ devproxyfd v. Prepared t proxy_tried (devnull_fd, devproxyfd) v)
          (open_proxyfd k response_fd fuel dest u)
  unfolding open_proxyfd
  open_proxyfd-Prepared none devnull_fd t u e h = skip_proxy u e refl (h none)
  open_proxyfd-Prepared (some dest) devnull_fd t u e h =
      try_proxy dest (k.open_file u dev_proxyfd) u e refl (h _)

  -- One `chdir`, or two.
  abbrev Entered : Bytes → Trace → Unit {0} → Trace → Type 0
  Entered path u _ v = (n : ℕ) × (v ≡ called (change_dir path) (ok n) ∷ u)

  abbrev EnteredFromRoot : Bytes → Trace → Unit {0} → Trace → Type 0
  EnteredFromRoot path u _ v =
      (m n : ℕ) × (v ≡ called (change_dir path) (ok n) ∷ called (change_dir (codes "/")) (ok m) ∷ u)

  work_dir_error-Returning :
      (path : Bytes) (r : Res ℕ) (u : Trace)
      → Returning
          (Entered path u)
          (work_dir_error k response_fd fuel path r (called (change_dir path) r ∷ u))
  unfolding work_dir_error
  work_dir_error-Returning path (ok n) u = (n, refl)
  work_dir_error-Returning path (err e) u = die-Returning k response_fd fuel _ tt _ _

  after_root-Returning :
      (path : Bytes) (r : Res ℕ) (u : Trace)
      → Returning
          (EnteredFromRoot path u)
          (after_root k response_fd fuel path r (called (change_dir (codes "/")) r ∷ u))
  unfolding after_root
  after_root-Returning path (ok m) u =
      weaken-Returning (Entered path (called (change_dir (codes "/")) (ok m) ∷ u)) _ _
        (work_dir_error-Returning path
          (k.call (called (change_dir (codes "/")) (ok m) ∷ u) (change_dir path)) _)
        (λ _ v (n, e). (m, n, e))
  after_root-Returning path (err e) u = die-Returning k response_fd fuel _ tt _ _

  change_work_dir-Prepared :
      (fds : ℕ × Option ℕ) (t u : Trace)
      → Prepared t randomized fds u
      → Returning
          (λ _ v. Prepared t in_work_dir fds v)
          (change_work_dir k response_fd fuel request.work_dir u)
  unfolding change_work_dir after_root
  change_work_dir-Prepared fds t u h = elim (Bool-cases (is_relative request.work_dir)) [
    | inl relative ↦ rw relative (
        weaken-Returning (EnteredFromRoot request.work_dir u) (λ _ v. Prepared t in_work_dir fds v)
          _ (after_root-Returning request.work_dir (k.call u (change_dir (codes "/"))) u)
          (λ _ v (m, n, e).
            subst (Prepared t in_work_dir fds) (sym e) (enter_relative m n u relative h)))
    | inr absolute ↦ rw absolute (
        weaken-Returning (Entered request.work_dir u) (λ _ v. Prepared t in_work_dir fds v) _
          (work_dir_error-Returning request.work_dir (k.call u (change_dir request.work_dir)) u)
          (λ _ v (n, e).
            subst (Prepared t in_work_dir fds) (sym e) (enter_absolute n u absolute h)))
  ]

  -- The steps from the mounts on.
  confine-Prepared :
      (fds : ℕ × Option ℕ) (t u : Trace)
      → Prepared t mounted fds u
      → Returning
          (λ fds' v. Prepared t shared fds' v)
          ((call_checked k response_fd fuel
                (codes "chroot('" ++ request.chroot ++ codes "')")
                (change_root request.chroot)
              >>= λ _.
                  call_checked k response_fd fuel (codes "prctl(PR_SET_DUMPABLE)") undumpable
                  >>= λ _.
                      call_checked k response_fd fuel
                        (codes "personality")
                        (set_personality (not request.va_randomize))
                      >>= λ _. change_work_dir k response_fd fuel request.work_dir >>= λ _.
                          call_checked k response_fd fuel
                            (codes "mmap(SHARED+ANONYMOUS)")
                            map_shared
                          >>= λ _. pure fds)
            u)
  confine-Prepared fds t u h =
      then-Returning (λ n. called (change_root request.chroot) (ok n) ∷ u) (Prepared t shared) _ _
        (call_checked-Returning k response_fd fuel _ (change_root request.chroot) u)
        (λ a.
          then-Returning (λ n. called undumpable (ok n) ∷ _) (Prepared t shared) _ _
            (call_checked-Returning k response_fd fuel _ undumpable _)
            (λ b.
              then-Returning (λ n. called (set_personality (not request.va_randomize)) (ok n) ∷ _)
                (Prepared t shared) _ _
                (call_checked-Returning k response_fd fuel _
                  (set_personality (not request.va_randomize)) _)
                (λ c.
                  Returning-bind (λ _ v. Prepared t in_work_dir fds v) (Prepared t shared) _ _
                    (change_work_dir-Prepared fds t _ (randomize c _ (shield b _ (root a u h))))
                    (λ _ v h'.
                      then-Returning (λ n. called map_shared (ok n) ∷ v) (Prepared t shared) _ _
                        (call_checked-Returning k response_fd fuel _ map_shared v)
                        (λ n. share n v h')))))

  -- Whenever `prepare` returns, its calls are a run of the stages to the end, in their order, and
  -- the descriptors are those that the run has opened: the interface is raised; /dev/null, and
  -- /dev/proxyfd if the standard streams are captured, are opened before the ids are mapped; then
  -- come the mounts, the root, the protection from other processes, the personality, the work
  -- directory, by way of the root if it is relative, and the shared page.
  pub prepare-Prepared :
      (t : Trace)
      → Returning (Prepared t shared) (prepare k response_fd fuel toks uid gid request t)
  unfolding prepare
  prepare-Prepared t =
      Returning-bind (Configured request t) (Prepared t shared) _ _
        (configure_net-Returning k response_fd fuel request t)
        (λ _ u (s, flags, a, b, c, e, up).
          then-Returning (λ n. opened dev_null (ok n) ∷ u) (Prepared t shared) _ _
            (open_checked-Returning k response_fd fuel dev_null u)
            (λ null.
              Returning-bind (λ proxy v. Prepared t proxy_tried (null, proxy) v) (Prepared t shared)
                _ _
                (open_proxyfd-Prepared request.stdstreams_dest null t _ refl (λ proxy.
                  subst (λ w. Prepared t null_open (null, proxy) (opened dev_null (ok null) ∷ w))
                    (sym e) (open_null _ (raise s flags a b c t begin))))
                (λ proxy v h.
                  Returning-bind (Mapped uid gid request v) (Prepared t shared) _ _
                    (map_user_and_group-Returning k response_fd fuel uid gid request v)
                    (λ _ w (f, g, i, e').
                      Returning-bind (λ _ x. Mounting w x) (Prepared t shared) _ _
                        (itself (do_mounts k response_fd fuel toks request w))
                        (λ _ x m.
                          confine-Prepared (null, proxy) t x
                            (mount w x m (
                              subst (Prepared t ids_mapped (null, proxy)) (sym e')
                                (map_ids f g i v h))))))))
