-- ===== src/Counter.antt =====
-- src/supervisor.c: `cgroup_counter_nonzero`, which looks for a counter in a cgroup events file.
pub mod Reference
pub mod Machine
pub mod Chunks
pub mod Read
pub mod Steady
use sandals.Prelude.{
  ℕ, zero, suc, ◌+◌, Bool, true, false, ◌&&◌, ◌||◌, [], ◌∷◌, List, Bytes, Option, none, some, codes,
  ◌++◌, length, get_elem?, ltb, leb, ◌==◌, if◌then◌else◌,
}
use sandals.Os.{Kernel, M, pure, starve, ◌>>=◌, ◌>>◌, pread, Res, ok, err}
use sandals.Fail.{internal_error, fail}

-- `state` between two reads: the length of the matched part of the key, or -1 in a word that does
-- not match. Within a read the labels `matchmore` and `skipmore` go by it too.
pub data Mode : Type 0 where
  matching : ℕ → Mode
  skipping : Mode

-- What one byte leads to: the next byte in a mode, or the `return`.
pub data Step : Type 0 where
  go : Mode → Step
  stop : Bool → Step

-- `key[n]`, which is NUL at the end of the key.
abbrev pub key_at : Bytes → ℕ → ℕ
key_at key n = elim (get_elem? key n) [ none ↦ 0 | some c ↦ c ]

abbrev pub is_blank : ℕ → Bool
is_blank c = c == b' ' || c == b'\n'

-- `buf[i]>'0' && buf[i]<='9'`.
abbrev pub is_positive : ℕ → Bool
is_positive c = ltb b'0' c && leb c b'9'

-- From `skipmore`.
unfoldable pub skip_step : ℕ → Step
skip_step c = if is_blank c then go (matching 0) else go skipping

-- From `default`.
unfoldable pub match_step : Bytes → ℕ → ℕ → Step
unfolding skip_step
match_step key n c = if c == key_at key n then go (matching (n + 1)) else skip_step c

-- The first byte of a read, on which `switch (state)` jumps.
unfoldable pub enter : Bytes → Mode → ℕ → Step
unfolding match_step skip_step
enter key (matching n) c = match_step key n c
enter key skipping c = skip_step c

-- Every other byte, which is reached by `goto matchmore` or `goto skipmore`.
unfoldable pub advance : Bytes → Mode → ℕ → Step
unfolding match_step skip_step
advance key (matching n) c =
    if key_at key n == 0
    then if c == b' ' then go (matching n) else stop (is_positive c)
    else match_step key n c
advance key skipping c = skip_step c

-- The bytes of a read after the first. The end of the read leaves the mode for the next one.
unfoldable pub scan : Bytes → Mode → Bytes → Step
scan key m [] = go m
scan key m (c ∷ cs) = elim (advance key m c) [ go m' ↦ scan key m' cs | stop b ↦ stop b ]

-- One round of the loop. `rc` is not 0 here.
unfoldable pub scan_read : Bytes → Mode → Bytes → Step
scan_read key m [] = go m
scan_read key m (c ∷ cs) = elim (enter key m c) [ go m' ↦ scan key m' cs | stop b ↦ stop b ]

-- The rounds on what the reads return, up to the end of the file.
unfoldable pub scan_reads : Bytes → Mode → List Bytes → Bool
scan_reads key m [] = false
scan_reads key m (r ∷ rs) = elim (scan_read key m r) [ go m' ↦ scan_reads key m' rs | stop b ↦ b ]

abbrev pub read_size : ℕ
read_size = 128

module _ (k : Kernel) (response_fd fuel fd : ℕ) (key filename : Bytes) where
  -- The body of the loop, after `pread` has answered. `fail` never returns.
  counter_round : (ℕ → Mode → M Bool) → ℕ → Mode → Res Bytes → M Bool
  counter_round again offset m (err e) =
      fail k response_fd fuel internal_error
        (some (codes "Reading '" ++ filename ++ codes "': " ++ k.strerror e))
      >> pure false
  counter_round again offset m (ok []) = pure false
  counter_round again offset m (ok (c ∷ cs)) = elim (scan_read key m (c ∷ cs)) [
    | go m' ↦ again (offset + length (c ∷ cs)) m'
    | stop b ↦ pure b
  ]

  -- The loop; `rounds` bounds the calls of `pread`.
  unfoldable pub counter_loop : ℕ → ℕ → Mode → M Bool
  unfolding counter_round
  counter_loop zero offset m = starve
  counter_loop (suc rounds) offset m =
      pread k fd read_size offset >>= counter_round (counter_loop rounds) offset m

  unfoldable pub cgroup_counter_nonzero : ℕ → M Bool
  unfolding counter_loop
  cgroup_counter_nonzero rounds = counter_loop rounds 0 (matching 0)
