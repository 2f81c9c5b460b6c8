-- ===== src/Users.antt =====
-- src/usrgrp.c: the user and group maps of the new namespace.
pub mod Maps
use sandals.Prelude.{ℕ, ◌-◌, ◌^◌, ◌∷◌, ◌++◌, Bytes, codes, ltb, if◌then◌else◌}
use sandals.Os.{Kernel, M, ◌>>=◌, ◌>>◌, close}
use sandals.Response.{decimal}
use sandals.Request.{Request}
use sandals.File.{open_checked, write_checked}

abbrev pub setgroups_path : Bytes
setgroups_path = codes "/proc/self/setgroups"

abbrev pub uidmap_path : Bytes
uidmap_path = codes "/proc/self/uid_map"

abbrev pub gidmap_path : Bytes
gidmap_path = codes "/proc/self/gid_map"

-- `%d` of a 32-bit number that is converted to `int`.
abbrev as_int : ℕ → Bytes
as_int n = if ltb n (2 ^ 31) then decimal n else (b'-' ∷ decimal (2 ^ 32 - n))

-- `%d %d 1`.
abbrev pub id_map : ℕ → ℕ → Bytes
id_map inside outside = as_int inside ++ codes " " ++ as_int outside ++ codes " 1"

module _ (k : Kernel) (response_fd fuel : ℕ) where
  -- A file is opened, written and closed.
  unfoldable pub write_file : Bytes → Bytes → M (Unit {0})
  write_file path text = open_checked k response_fd fuel path >>= λ fd.
      write_checked k response_fd fuel fd text path >> close fd

  -- `uid` and `gid` are those of the process before the namespace was made.
  unfoldable pub map_user_and_group : ℕ → ℕ → Request → M (Unit {0})
  unfolding write_file
  map_user_and_group uid gid request =
      write_file setgroups_path (codes "deny")
      >> write_file uidmap_path (id_map request.uid uid)
      >> write_file gidmap_path (id_map request.gid gid)
