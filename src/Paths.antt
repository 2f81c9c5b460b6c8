-- ===== src/Paths.antt =====
-- Paths as src/cgroup.c and src/mounts.c handle them.
use sandals.Prelude.{ℕ, zero, suc, [], ◌∷◌, Bytes, none, some, get_elem?, ◌==◌, if◌then◌else◌}

-- PATH_MAX.
abbrev pub path_max : ℕ
path_max = 4096

-- `buf[p]`, where the string ends in a NUL.
unfoldable pub char_at : Bytes → ℕ → ℕ
char_at buf p = elim (get_elem? buf p) [ none ↦ 0 | some c ↦ c ]

-- `while (len && s[len-1]=='/') --len`.
unfoldable pub strip_end : Bytes → ℕ → ℕ
unfolding char_at
strip_end s zero = zero
strip_end s (suc len) =
    let rest = strip_end s len in if char_at s len == b'/' then rest else suc len

-- `while (*s=='/') ++s`.
unfoldable pub skip_slashes : Bytes → Bytes
skip_slashes [] = []
skip_slashes (c ∷ s) = let rest = skip_slashes s in if c == b'/' then rest else c ∷ s
