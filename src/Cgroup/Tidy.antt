-- ===== src/Cgroup/Tidy.antt =====
-- src/cgroup.c: `configure_cgroup` leaves no cgroup that the destructor would not remove.
use sandals.Prelude.{
  ℕ, ◌≡◌, refl, ap, inl, inr, Bool, Bool-cases, true, false, [], ◌∷◌, ◌++◌, Bytes, Option, none,
  some, leb, ltb, length, ◌+◌, ◌-◌, codes, ◌||◌,
}
use sandals.Os.{
  Kernel, Trace, M, Outcome, Res, ok, err, called, did_read, assigned, closed, make_dir, pending,
  spawner_pid, cgroup_path, cgroupevents_fd, cgroup_path_of, pure, bind_from, assign, ◌>>=◌,
}
use sandals.Os.Ending.{Ending, Ending-bind, if-Ending, never-Ending, change-Ending, IsSteady}
use sandals.Fail.Never.{die-Returning}
use sandals.Fail.{after_call, call_checked}
use sandals.Fail.Steady.{die-Ending, open_checked-Ending, write_checked-Ending}
use sandals.Paths.{path_max, skip_slashes}
use sandals.Json.{Tokens, object_members, key_of_member}
use sandals.Json.Steady.{for_each-Ending, jsget_str-Ending}
use sandals.Request.{Request}
use sandals.Cgroup.Create.{
  cgroup_parent, format_path, create_cgroup, after_cgroup_read, is_cgroup_line, parent_cgroup,
  cgroup_name,
}
use sandals.Cgroup.Cleanup.{nothing_to_clean}
use sandals.Cgroup.Configure.{cgroup_member, open_events, open_cgroup, configure_cgroup}
use sandals.Cgroup.Owned.{IsUntouched, IsTidy, IsUntouched-IsSteady, IsTidy-IsSteady}

module _ (k : Kernel) (response_fd fuel : ℕ) where
  module _ (P : Trace → Type 0) (steady : IsSteady P) where
    after_cgroup_read-Ending :
        (r : Res Bytes) (t : Trace) → P t → Ending P (after_cgroup_read k response_fd fuel r t)
    unfolding after_cgroup_read
    after_cgroup_read-Ending (ok text) t p = record { end = p }
    after_cgroup_read-Ending (err e) t p = die-Ending k response_fd fuel P steady [] _ t p

    cgroup_parent-Ending :
        (root : Option Bytes) (t : Trace) → P t → Ending P (cgroup_parent k response_fd fuel root t)
    unfolding cgroup_parent
    cgroup_parent-Ending (some root) t p = record { end = p }
    cgroup_parent-Ending none t p =
        Ending-bind P _ _ (open_checked-Ending k response_fd fuel P steady _ t p) (λ fd u q.
          Ending-bind P _ _
            (after_cgroup_read-Ending (k.read u fd (path_max - 11)) _
              (steady (did_read fd (path_max - 11) _) u refl q))
            (λ text v q'.
              if-Ending P (is_cgroup_line text) (pure (parent_cgroup text)) _ (closed fd ∷ v)
                (record { end = steady (closed fd) v refl q' })
                (die-Ending k response_fd fuel P steady [] _ (closed fd ∷ v)
                  (steady (closed fd) v refl q'))))

  widen : {A : Type 0} (r : Outcome A × Trace) → Ending IsUntouched r → Ending IsTidy r
  widen r u = record { end = inl u.end }

  -- `mkdir`, and what follows it at once.
  make-Ending :
      (path : Bytes) (r : Res ℕ) (t : Trace)
      → IsUntouched t
      → cgroup_path_of t ≡ path
      → nothing_to_clean pending path ≡ false
      → Ending IsTidy (
          bind_from
            (after_call k response_fd fuel
              (codes "Creating '" ++ path ++ codes "'")
              r
              (called (make_dir path) r ∷ t)).0
            (after_call k response_fd fuel
              (codes "Creating '" ++ path ++ codes "'")
              r
              (called (make_dir path) r ∷ t)).1
            (λ _. assign (spawner_pid pending) >>= λ _. pure path))
  unfolding after_call
  make-Ending path (ok n) t u e to_clean = record {
    end = inr (record {
      path = path;
      one_made = ap (λ ps. path ∷ ps) u.none_made;
      its_path = e;
      enabled = refl;
      to_clean = to_clean;
    });
  }
  make-Ending path (err e') t u e to_clean =
      never-Ending IsTidy _ _ (die-Returning k response_fd fuel _ 0 _ _) (
        widen _ (
          die-Ending k response_fd fuel IsUntouched IsUntouched-IsSteady 0 _ _
            (record { none_made = u.none_made; disabled = u.disabled })))

  path_to_clean : (parent : Bytes) → nothing_to_clean pending (parent ++ cgroup_name k.pid) ≡ false
  unfolding nothing_to_clean cgroup_name
  path_to_clean [] = refl
  path_to_clean (c ∷ parent) = refl

  formatted-Tidy :
      (f : Bytes → M Bytes) (parent : Bytes) (t : Trace)
      → IsUntouched t
      → Ending IsTidy (f (parent ++ cgroup_name k.pid) t)
      → Ending IsTidy ((format_path k response_fd fuel parent >>= f) t)
  unfolding format_path
  formatted-Tidy f parent t u h =
      elim (Bool-cases
        (leb path_max (length parent) || leb path_max (length (parent ++ cgroup_name k.pid)))) [
          | inl long ↦ rw long (
              never-Ending IsTidy _ f (die-Returning k response_fd fuel _ _ _ t)
                (widen _ (die-Ending k response_fd fuel IsUntouched IsUntouched-IsSteady _ _ t u)))
          | inr short ↦ rw short h
        ]

  create_cgroup-IsTidy :
      (request : Request) (t : Trace)
      → IsUntouched t
      → Ending IsTidy (create_cgroup k response_fd fuel request t)
  unfolding create_cgroup call_checked
  create_cgroup-IsTidy request t u =
      change-Ending IsUntouched IsTidy _ _ (λ _. inl)
        (cgroup_parent-Ending IsUntouched IsUntouched-IsSteady request.cgroup_root t u)
        (λ parent t1 u1. formatted-Tidy _ parent t1 u1 (
          make-Ending (parent ++ cgroup_name k.pid) _
            (assigned (cgroup_path (parent ++ cgroup_name k.pid)) ∷ t1)
            (record { none_made = u1.none_made; disabled = u1.disabled }) refl
            (path_to_clean parent)))

  cgroup_member-Ending :
      (toks : Tokens) (root : ℕ) (path : Bytes) (flags : Bool × Bool) (value : ℕ) (t : Trace)
      → IsTidy t
      → Ending IsTidy (cgroup_member k response_fd fuel toks root path flags value t)
  unfolding cgroup_member
  cgroup_member-Ending toks root path (memory, pids) value t p =
      Ending-bind IsTidy _ _
        (jsget_str-Ending toks k response_fd fuel IsTidy IsTidy-IsSteady (some root) value t p)
        (λ strval t1 p1.
          Ending-bind IsTidy _ _
            (if-Ending IsTidy (leb path_max (length (file toks path value))) _ (pure tt) t1
              (die-Ending k response_fd fuel IsTidy IsTidy-IsSteady tt _ t1 p1)
              (record { end = p1 }))
            (λ _ t2 p2.
              Ending-bind IsTidy _ _
                (open_checked-Ending k response_fd fuel IsTidy IsTidy-IsSteady _ t2 p2)
                (λ fd t3 p3.
                  Ending-bind IsTidy _ _
                    (write_checked-Ending k response_fd fuel IsTidy IsTidy-IsSteady fd strval _ t3
                      p3)
                    (λ _ t4 p4. record { end = IsTidy-IsSteady (closed fd) t4 refl p4 }))))
    where
      file : Tokens → Bytes → ℕ → Bytes
      file toks path value = path ++ b'/' ∷ skip_slashes (key_of_member toks value)

  open_events-Ending :
      (b : Bool) (path : Bytes) (t : Trace)
      → IsTidy t
      → Ending IsTidy (open_events k response_fd fuel b path t)
  unfolding open_events
  open_events-Ending false path t p = record { end = p }
  open_events-Ending true path t p =
      Ending-bind IsTidy _ _
        (open_checked-Ending k response_fd fuel IsTidy IsTidy-IsSteady path t p)
        (λ fd t1 p1. record { end = p1 })

  assign_events-Ending :
      (fd : Option ℕ) (t : Trace)
      → IsTidy t
      → Ending IsTidy (
          (elim fd as (λ _. M (Unit {0})) [ none ↦ pure tt | some n ↦ assign (cgroupevents_fd n) ])
            t)
  assign_events-Ending none t p = record { end = p }
  assign_events-Ending (some n) t p = record {
    end = IsTidy-IsSteady (assigned (cgroupevents_fd n)) t refl p;
  }

  open_cgroup-Ending :
      (made : Bool) (path : Bytes) (flags : Bool × Bool) (t : Trace)
      → IsTidy t
      → Ending IsTidy (open_cgroup k response_fd fuel made path flags t)
  unfolding open_cgroup
  open_cgroup-Ending made path (memory, pids) t p =
      Ending-bind IsTidy _ _
        (if-Ending IsTidy (ltb path_max (length path + 14)) _ (pure tt) t
          (die-Ending k response_fd fuel IsTidy IsTidy-IsSteady tt _ t p) (record { end = p }))
        (λ _ t1 p1.
          Ending-bind IsTidy _ _
            (open_checked-Ending k response_fd fuel IsTidy IsTidy-IsSteady _ t1 p1)
            (λ procs t2 p2.
              Ending-bind IsTidy _ _ (open_events-Ending made _ t2 p2) (λ events t3 p3.
                Ending-bind IsTidy _ _ (assign_events-Ending events t3 p3) (λ _ t4 p4.
                  Ending-bind IsTidy _ _ (open_events-Ending memory _ t4 p4) (λ m t5 p5.
                    Ending-bind IsTidy _ _ (open_events-Ending pids _ t5 p5)
                      (λ n t6 p6. record { end = p6 }))))))

  path_of-IsTidy :
      (cgroup : Option Bytes) (request : Request) (t : Trace)
      → IsUntouched t
      → Ending IsTidy (
          (elim cgroup as (λ _. M Bytes) [
            | none ↦ create_cgroup k response_fd fuel request
            | some path ↦ pure path
          ])
            t)
  path_of-IsTidy none request t u = create_cgroup-IsTidy request t u
  path_of-IsTidy (some path) request t u = record { end = inl u }

  -- However `configure_cgroup` ends, where it returns and where it exits: if no directory has been
  -- made before and the destructor is disabled, then either that is still so, or exactly one
  -- directory has been made, and the destructor is enabled and removes that one.
  pub configure_cgroup-IsTidy :
      (toks : Tokens) (request : Request) (config : ℕ) (t : Trace)
      → IsUntouched t
      → Ending IsTidy (configure_cgroup k response_fd fuel toks request config t)
  unfolding configure_cgroup
  configure_cgroup-IsTidy toks request config t u =
      Ending-bind IsTidy _ _ (path_of-IsTidy request.cgroup request t u) (λ path t1 p1.
        Ending-bind IsTidy _ _
          (for_each-Ending IsTidy (cgroup_member k response_fd fuel toks request.json_root path)
            (object_members toks config) (false, false) t1
            (λ flags v t' p'. cgroup_member-Ending toks request.json_root path flags v t' p') p1)
          (λ flags t2 p2. open_cgroup-Ending _ path flags t2 p2))
