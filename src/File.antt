-- ===== src/File.antt =====
-- src/file.c: `open_checked` and `write_checked`.
pub mod Returns
use sandals.Prelude.{ℕ, ◌&&◌, ◌++◌, Bytes, codes, length, ltb, ◌==◌, if◌then◌else◌}
use sandals.Os.{Kernel, M, pure, ◌>>=◌, open_file, write, Res, ok, err}
use sandals.Fail.{die}

module _ (k : Kernel) (response_fd fuel : ℕ) where
  unfoldable pub after_open : Bytes → Res ℕ → M ℕ
  after_open path (ok fd) = pure fd
  after_open path (err e) =
      die k response_fd fuel 0 (codes "Opening '" ++ path ++ codes "': " ++ k.strerror e)

  unfoldable pub open_checked : Bytes → M ℕ
  unfolding after_open
  open_checked path = open_file k path >>= after_open path

  abbrev write_error : Bytes → Bytes → M (Unit {0})
  write_error path reason =
      die k response_fd fuel tt (codes "Writing '" ++ path ++ codes "': " ++ reason)

  -- A partial write is an error.
  unfoldable pub after_checked_write : ℕ → Bytes → Res ℕ → M (Unit {0})
  after_checked_write size path (ok n) =
      if ltb 0 n && (n == size) then pure tt else write_error path (codes "truncated")
  after_checked_write size path (err e) = write_error path (k.strerror e)

  unfoldable pub write_checked : ℕ → Bytes → Bytes → M (Unit {0})
  unfolding after_checked_write
  write_checked fd text path = write k fd text >>= after_checked_write (length text) path
