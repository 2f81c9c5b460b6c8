-- ===== src/Mounts/Nodes.antt =====
-- src/mounts.c: `chroot_relative` and `create_node`.
use sandals.Prelude.{
  ℕ, zero, suc, ◌+◌, ◌/◌, ◌%◌, Bool, true, false, [], ◌∷◌, ◌++◌, Bytes, codes, Option, none, some,
  length, take, drop, leb, ◌==◌, if◌then◌else◌,
}
use sandals.Os.{
  Kernel, M, pure, ◌>>=◌, ◌>>◌, close, call, Res, ok, err, enoent, stat_mode, open_dir, make_dir_at,
  open_dir_at, create_at,
}
use sandals.Fail.{die, call_checked}
use sandals.Paths.{path_max, strip_end, skip_slashes, char_at}

-- A buffer that is read as a string, up to the first NUL.
unfoldable pub c_str : Bytes → Bytes
c_str [] = []
c_str (c ∷ buf) = let rest = c_str buf in if c == 0 then [] else c ∷ rest

-- `buf[p] = c`.
unfoldable pub set_at : ℕ → ℕ → Bytes → Bytes
set_at p c [] = []
set_at zero c (b ∷ buf) = c ∷ buf
set_at (suc p) c (b ∷ buf) = b ∷ set_at p c buf

-- `(st_mode & S_IFMT) == S_IFDIR`.
unfoldable pub is_directory : ℕ → Bool
is_directory mode = (mode / 0x1000) % 16 == 4

-- The first loop of `create_node` has ended: at a directory, before the slash at `at`, or at the
-- start of the path, with AT_FDCWD. `missing` is `n`.
pub record Spot : Type 0 where
  pub dirfd : Option ℕ
  pub at : ℕ
  pub missing : ℕ
  pub dest : Bytes

abbrev pub quoted : Bytes → Bytes → Bytes
quoted what path = what ++ codes "('" ++ path ++ codes "')"

module _ (k : Kernel) (response_fd fuel : ℕ) where
  unfoldable pub chroot_relative : Bytes → Bytes → M Bytes
  unfolding strip_end skip_slashes
  chroot_relative chroot path =
      let text = take (strip_end chroot (length chroot)) chroot ++ b'/' ∷ skip_slashes path in
      if leb path_max (length text)
      then die k response_fd fuel text (codes "Path too long")
      else pure text

  unfoldable pub source_mode : Option Bytes → M Bool
  unfolding is_directory
  source_mode none = pure true
  source_mode (some src) =
      call_checked k response_fd fuel (quoted (codes "stat") src) (stat_mode src) >>= λ mode.
      pure (is_directory mode)

  -- The directory before the slash at `p`, or the search goes on.
  unfoldable pub after_open_dir : (ℕ → Bytes → M Spot) → ℕ → ℕ → Bytes → Res ℕ → M Spot
  unfolding c_str
  after_open_dir again p n dest (ok dirfd) =
      pure (record { dirfd = some dirfd; at = p; missing = n; dest = dest })
  after_open_dir again p n dest (err enoent) = again (n + 1) dest
  after_open_dir again p n dest (err e) =
      die k response_fd fuel (record { dirfd = none; at = 0; missing = n; dest = dest })
        (quoted (codes "open") (c_str dest) ++ codes ": " ++ k.strerror e)

  -- The first loop: `p` is behind the character that is looked at.
  unfoldable pub walk_back : ℕ → ℕ → Bytes → M Spot
  unfolding after_open_dir char_at set_at c_str
  walk_back zero n dest = pure (record { dirfd = none; at = 0; missing = n; dest = dest })
  walk_back (suc p) n dest =
      let on = walk_back p in
      if p == 0
      then pure (record { dirfd = none; at = 0; missing = n; dest = dest })
      else if char_at dest p == b'/'
      then (let cut = set_at p 0 dest in
          call k (open_dir (c_str cut)) >>= after_open_dir on p n cut)
      else on n dest

  abbrev pub close_dir : Option ℕ → M (Unit {0})
  close_dir dirfd = elim dirfd [ none ↦ pure tt | some fd ↦ close fd ]

  -- The component at `p`, as far as the next NUL.
  abbrev component : ℕ → Bytes → Bytes
  component p dest = c_str (drop p dest)

  abbrev node_error : Bytes → Bytes → Bytes
  node_error what dest = quoted what (c_str dest)

  -- The body of the second loop for a directory on the way, which is made and gone into.
  unfoldable pub middle_part : (Option ℕ → ℕ → Bytes → M Bytes) → Option ℕ → ℕ → Bytes → M Bytes
  unfolding c_str
  middle_part again dirfd p dest = do
    _ ←
        call_checked k response_fd fuel (node_error (codes "mkdir") dest)
          (make_dir_at dirfd (component p dest))
    fd ←
        call_checked k response_fd fuel (node_error (codes "open") dest)
          (open_dir_at dirfd (component p dest))
    _ ← close_dir dirfd
    again (some fd) (p + length (component p dest)) dest

  -- The body for the last component: a directory or an empty file.
  unfoldable pub last_part : Bool → Option ℕ → ℕ → Bytes → M Bytes
  unfolding c_str
  last_part true dirfd p dest = do
    _ ←
        call_checked k response_fd fuel (node_error (codes "mkdir") dest)
          (make_dir_at dirfd (component p dest))
    _ ← close_dir dirfd
    pure dest
  last_part false dirfd p dest = do
    fd ←
        call_checked k response_fd fuel (node_error (codes "open") dest)
          (create_at dirfd (component p dest))
    _ ← close_dir dirfd
    _ ← close fd
    pure dest

  -- The second loop from its start, where `p` stands at a NUL that was a slash. Behind a slash at
  -- the end of the path there is no component.
  unfoldable pub create_parts : Bool → ℕ → Option ℕ → ℕ → Bytes → M Bytes
  unfolding set_at char_at middle_part last_part
  create_parts dir zero dirfd p dest =
      let dest' = set_at p b'/' dest in
      if char_at dest' (p + 1) == 0
      then close_dir dirfd >> pure dest'
      else last_part dir dirfd (p + 1) dest'
  create_parts dir (suc n) dirfd p dest =
      let dest' = set_at p b'/' dest in
      let on = create_parts dir n in
      if char_at dest' (p + 1) == 0
      then on dirfd (p + 1) dest'
      else middle_part on dirfd (p + 1) dest'

  -- `goto create_part`, and the second loop.
  unfoldable pub create_from : Bool → Spot → M Bytes
  unfolding create_parts middle_part last_part
  create_from dir s = elim s.dirfd [
    | some fd ↦ create_parts dir s.missing (some fd) s.at s.dest
    | none ↦ elim s.missing [
      | zero ↦ last_part dir none s.at s.dest
      | suc n ↦ middle_part (create_parts dir n) none s.at s.dest
    ]
  ]

  -- `create_node`, which leaves `dest` as the result.
  unfoldable pub create_node : Option Bytes → Bytes → M Bytes
  unfolding source_mode walk_back create_from
  create_node src dest = do
    dir ← source_mode src
    s ← walk_back (length dest) 0 dest
    create_from dir s
