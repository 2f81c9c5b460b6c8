-- ===== src/Stray.antt =====
-- src/file.c: `close_stray_fds_except`, which closes what the spawner has inherited.
pub mod Swept
use sandals.Prelude.{
  ℕ, zero, suc, ◌+◌, ◌-◌, ◌*◌, Bool, not, ◌&&◌, [], ◌∷◌, ◌++◌, Bytes, codes, Option, none, some,
  ltb, leb, ◌==◌, if◌then◌else◌,
}
use sandals.Os.{Kernel, M, pure, starve, ◌>>=◌, ◌>>◌, close, readdir, Res, ok, err, open_listing}
use sandals.Fail.{die, call_checked}

abbrev pub fd_dir : Bytes
fd_dir = codes "/proc/self/fd"

-- `strtol(name, NULL, 0)` of a name that begins with a digit other than 0, or with none. The names of
-- the directory are ".", ".." and the decimal numbers of files.
unfoldable pub number_from : ℕ → Bytes → ℕ
number_from n [] = n
number_from n (c ∷ name) =
    let rest = number_from (n * 10 + (c - b'0')) name in
    if leb b'0' c && leb c b'9' then rest else n

-- `fd > STDERR_FILENO && fd != except && fd != dirfd(dir)`.
unfoldable pub is_stray : ℕ → ℕ → ℕ → Bool
is_stray except dir fd = ltb 2 fd && not (fd == except) && not (fd == dir)

module _ (k : Kernel) (response_fd fuel : ℕ) where
  -- The body of the loop. At the end of the directory `readdir` answers NULL and leaves `errno` 0.
  unfoldable pub after_entry : M (Unit {0}) → ℕ → ℕ → Res (Option Bytes) → M (Unit {0})
  unfolding number_from is_stray
  after_entry again except dir (ok none) = close dir
  after_entry again except dir (ok (some name)) =
      let fd = number_from 0 name in (if is_stray except dir fd then close fd else pure tt) >> again
  after_entry again except dir (err e) =
      die k response_fd fuel tt (codes "readdir('" ++ fd_dir ++ codes "'): " ++ k.strerror e)

  -- The loop; `rounds` bounds the calls of `readdir`.
  unfoldable pub close_entries : ℕ → ℕ → ℕ → M (Unit {0})
  unfolding after_entry
  close_entries zero except dir = starve
  close_entries (suc rounds) except dir =
      readdir k dir >>= after_entry (close_entries rounds except dir) except dir

  -- A directory is named by its descriptor.
  unfoldable pub close_stray_fds_except : ℕ → ℕ → M (Unit {0})
  unfolding close_entries
  close_stray_fds_except rounds except =
      call_checked k response_fd fuel (codes "opendir('" ++ fd_dir ++ codes "')")
        (open_listing fd_dir)
      >>= close_entries rounds except
