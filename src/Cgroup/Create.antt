-- ===== src/Cgroup/Create.antt =====
-- src/cgroup.c: `create_cgroup`.
use sandals.Prelude.{
  ℕ, zero, suc, ◌+◌, ◌-◌, Bool, ◌&&◌, ◌||◌, [], ◌++◌, Bytes, codes, str_eq, Option, none, some,
  length, take, drop, leb, ◌==◌, if◌then◌else◌,
}
use sandals.Os.{
  Kernel, M, pure, ◌>>=◌, read, close, assign, Res, ok, err, make_dir, pending, spawner_pid,
  cgroup_path,
}
use sandals.Response.{decimal}
use sandals.Fail.{die, call_checked}
use sandals.File.{open_checked}
use sandals.Request.{Request}
use sandals.Paths.{path_max, strip_end, char_at}

abbrev pub proc_self_cgroup_path : Bytes
proc_self_cgroup_path = codes "/proc/self/cgroup"

abbrev pub sys_fs_cgroup_path : Bytes
sys_fs_cgroup_path = codes "/sys/fs/cgroup"

-- OFFSET: where the file is read to, so that the prefix covers "0::".
abbrev pub offset : ℕ
offset = 11

-- `do --len; while (len && path[len] != '/')`.
unfoldable pub parent_length : Bytes → ℕ → ℕ
unfolding char_at
parent_length path zero = zero
parent_length path (suc len) =
    let rest = parent_length path len in if len == 0 || char_at path len == b'/' then len else rest

-- The file is one line that begins with "0::".
unfoldable pub is_cgroup_line : Bytes → Bool
unfolding char_at
is_cgroup_line text =
    leb 3 (length text)
    && str_eq (take 3 text) (codes "0::")
    && char_at text (length text - 1) == b'\n'

-- The parent of the cgroup in such a line, with the prefix over the line's first three characters.
unfoldable pub parent_cgroup : Bytes → Bytes
unfolding parent_length
parent_cgroup text =
    let path = sys_fs_cgroup_path ++ drop 3 text in
    take (parent_length path (offset + length text)) path

unfoldable pub cgroup_name : ℕ → Bytes
cgroup_name pid = codes "/sandals-" ++ decimal pid

module _ (k : Kernel) (response_fd fuel : ℕ) where
  unfoldable pub after_cgroup_read : Res Bytes → M Bytes
  after_cgroup_read (ok text) = pure text
  after_cgroup_read (err e) =
      die k response_fd fuel []
        (codes "Reading '" ++ proc_self_cgroup_path ++ codes "': " ++ k.strerror e)

  -- The directory that the cgroup is made in.
  unfoldable pub cgroup_parent : Option Bytes → M Bytes
  unfolding strip_end is_cgroup_line parent_cgroup after_cgroup_read
  cgroup_parent (some root) = pure (take (strip_end root (length root)) root)
  cgroup_parent none = do
    fd ← open_checked k response_fd fuel proc_self_cgroup_path
    r ← read k fd (path_max - offset)
    text ← after_cgroup_read r
    _ ← close fd
    (if is_cgroup_line text
        then pure (parent_cgroup text)
        else die k response_fd fuel [] (
            codes "Cgroup info in '"
            ++ proc_self_cgroup_path
            ++ codes "' too long or in Cgroups v1 format"))

  -- The path of the new cgroup, which has to fit into `cgroup_path`.
  unfoldable pub format_path : Bytes → M Bytes
  unfolding cgroup_name
  format_path parent =
      let path = parent ++ cgroup_name k.pid in
      if leb path_max (length parent) || leb path_max (length path)
      then die k response_fd fuel path (codes "Path too long")
      else pure path

  unfoldable pub create_cgroup : Request → M Bytes
  unfolding cgroup_parent format_path
  create_cgroup request = do
    parent ← cgroup_parent request.cgroup_root
    path ← format_path parent
    _ ← assign (cgroup_path path)
    _ ← call_checked k response_fd fuel (codes "Creating '" ++ path ++ codes "'") (make_dir path)
    _ ← assign (spawner_pid pending)
    pure path
