-- ===== src/Spawner/Stages.antt =====
-- src/spawner.c: the stages in which `spawner` prepares the namespace.
use sandals.Prelude.{ℕ, ◌≡◌, true, false, not, ◌∷◌, Bytes, codes, Option, none, some}
use sandals.Os.{
  Trace, Res, ok, err, opened, called, set_hostname, set_domainname, change_root, change_dir,
  undumpable, set_personality, map_shared,
}
use sandals.Request.{Request}
use sandals.Net.Up.{raised}
use sandals.Users.{setgroups_path, uidmap_path, gidmap_path, id_map}
use sandals.Users.Maps.{wrote_file}
use sandals.Spawner.Steps.{dev_null, dev_proxyfd, is_relative}

-- How far the preparation has come.
pub data Stage : Type 0 where
  fresh : Stage
  net_up : Stage
  null_open : Stage
  proxy_tried : Stage
  ids_mapped : Stage
  mounted : Stage
  rooted : Stage
  shielded : Stage
  randomized : Stage
  in_work_dir : Stage
  shared : Stage

module _ (Mounting : Trace → Trace → Type 0) (uid gid : ℕ) (request : Request) (devnull_fd : ℕ)
    (devproxyfd : Option ℕ) (t : Trace) where
  -- The steps from one stage to the next, with the calls that each makes, all of which succeed but
  -- for the one that opens /dev/proxyfd. What the mounts do is `Mounting`.
  pub data Reach : Stage → Trace → Type 0 where
    begin : Reach fresh t
    raise :
        (s flags a b c : ℕ) (u : Trace)
        → Reach fresh u
        → Reach net_up (
            called (set_domainname request.domain_name) (ok c)
            ∷ called (set_hostname request.host_name) (ok b)
            ∷ raised s flags a u)
    open_null : (u : Trace) → Reach net_up u → Reach null_open (opened dev_null (ok devnull_fd) ∷ u)
    skip_proxy :
        (u : Trace)
        → request.stdstreams_dest ≡ none
        → devproxyfd ≡ none
        → Reach null_open u
        → Reach proxy_tried u
    try_proxy :
        (dest : Bytes) (r : Res ℕ) (u : Trace)
        → request.stdstreams_dest ≡ some dest
        → devproxyfd ≡ elim r [ ok fd ↦ some fd | err e ↦ none ]
        → Reach null_open u
        → Reach proxy_tried (opened dev_proxyfd r ∷ u)
    map_ids :
        (f g h : ℕ) (u : Trace)
        → Reach proxy_tried u
        → Reach ids_mapped (
            wrote_file h gidmap_path (id_map request.gid gid) (
              wrote_file g uidmap_path
                (id_map request.uid uid)
                (wrote_file f setgroups_path (codes "deny") u)))
    mount : (u v : Trace) → Mounting u v → Reach ids_mapped u → Reach mounted v
    root :
        (n : ℕ) (u : Trace)
        → Reach mounted u
        → Reach rooted (called (change_root request.chroot) (ok n) ∷ u)
    shield : (n : ℕ) (u : Trace) → Reach rooted u → Reach shielded (called undumpable (ok n) ∷ u)
    randomize :
        (n : ℕ) (u : Trace)
        → Reach shielded u
        → Reach randomized (called (set_personality (not request.va_randomize)) (ok n) ∷ u)
    enter_absolute :
        (n : ℕ) (u : Trace)
        → is_relative request.work_dir ≡ false
        → Reach randomized u
        → Reach in_work_dir (called (change_dir request.work_dir) (ok n) ∷ u)
    enter_relative :
        (m n : ℕ) (u : Trace)
        → is_relative request.work_dir ≡ true
        → Reach randomized u
        → Reach in_work_dir (
            called (change_dir request.work_dir) (ok n)
            ∷ called (change_dir (codes "/")) (ok m)
            ∷ u)
    share : (n : ℕ) (u : Trace) → Reach in_work_dir u → Reach shared (called map_shared (ok n) ∷ u)
