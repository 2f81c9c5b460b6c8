-- ===== src/Cgroup/Configure.antt =====
-- src/cgroup.c: `configure_cgroup`, and `struct cgroup_ctx` of src/sandals.h.
use sandals.Prelude.{
  ℕ, ◌+◌, Bool, true, false, ◌||◌, ◌∷◌, ◌++◌, Bytes, codes, str_eq, Option, none, some, length,
  take, ltb, leb, if◌then◌else◌,
}
use sandals.Os.{Kernel, M, pure, ◌>>=◌, close, assign, cgroupevents_fd}
use sandals.Fail.{die}
use sandals.File.{open_checked, write_checked}
use sandals.Json.{Tokens, object_members, key_of_member, jsget_str, for_each}
use sandals.Request.{Request}
use sandals.Paths.{path_max, skip_slashes}
use sandals.Cgroup.Create.{create_cgroup}

-- `struct cgroup_ctx`; `none` is -1.
pub record CgroupCtx : Type 0 where
  pub cgroupprocs_fd : Option ℕ
  pub memoryevents_fd : Option ℕ
  pub pidsevents_fd : Option ℕ

abbrev pub no_cgroup : CgroupCtx
no_cgroup = record { cgroupprocs_fd = none; memoryevents_fd = none; pidsevents_fd = none }

-- `strncmp(s, prefix, n)` is zero.
unfoldable pub has_prefix : Bytes → Bytes → Bool
has_prefix prefix s = str_eq (take (length prefix) s) prefix

module _ (k : Kernel) (response_fd fuel : ℕ) where
  -- The flags `memoryevents` and `pidevents`.
  abbrev pub Events : Type 0
  Events = Bool × Bool

  -- The body of the loop over the settings.
  unfoldable pub cgroup_member : Tokens → ℕ → Bytes → Events → ℕ → M Events
  unfolding skip_slashes has_prefix
  cgroup_member toks root path (memory, pids) value = do
    strval ← jsget_str toks k response_fd fuel (some root) value
    let key : Bytes = skip_slashes (key_of_member toks value)
    let file : Bytes = path ++ b'/' ∷ key
    _ ←
        if leb path_max (length file)
        then die k response_fd fuel tt (codes "Path too long")
        else pure tt
    fd ← open_checked k response_fd fuel file
    _ ← write_checked k response_fd fuel fd strval file
    _ ← close fd
    pure (memory || has_prefix (codes "memory.") key, pids || has_prefix (codes "pids.") key)

  -- A file whose events are watched if a flag is set.
  unfoldable pub open_events : Bool → Bytes → M (Option ℕ)
  open_events false path = pure none
  open_events true path = open_checked k response_fd fuel path >>= λ fd. pure (some fd)

  -- `sizeof(struct suffix)`.
  abbrev pub suffix_size : ℕ
  suffix_size = 14

  -- What follows the loop: the files of the cgroup are opened.
  unfoldable pub open_cgroup : Bool → Bytes → Events → M CgroupCtx
  unfolding open_events
  open_cgroup made path (memory, pids) = do
    _ ←
        if ltb path_max (length path + suffix_size)
        then die k response_fd fuel tt (codes "Path too long")
        else pure tt
    procs ← open_checked k response_fd fuel (path ++ codes "/cgroup.procs")
    events ← open_events made (path ++ codes "/cgroup.events")
    _ ← elim events [ none ↦ pure tt | some fd ↦ assign (cgroupevents_fd fd) ]
    m ← open_events memory (path ++ codes "/memory.events")
    p ← open_events pids (path ++ codes "/pids.events")
    pure (record { cgroupprocs_fd = some procs; memoryevents_fd = m; pidsevents_fd = p })

  -- `config` is `request->cgroup_config`.
  unfoldable pub configure_cgroup : Tokens → Request → ℕ → M CgroupCtx
  unfolding create_cgroup cgroup_member open_cgroup
  configure_cgroup toks request config = do
    path ← elim request.cgroup [
      | none ↦ create_cgroup k response_fd fuel request
      | some path ↦ pure path
    ]
    flags ←
        for_each (cgroup_member toks request.json_root path) (false, false)
          (object_members toks config)
    open_cgroup (elim request.cgroup [ none ↦ true | some _ ↦ false ]) path flags
