-- ===== src/Counter/Steady.antt =====
-- src/supervisor.c: what the reading of a counter leaves alone, however it ends.
use sandals.Prelude.{ℕ, zero, suc, ◌+◌, refl, Bool, false, [], ◌∷◌, Bytes, length}
use sandals.Os.{Kernel, Trace, M, Res, ok, err, did_pread, pure}
use sandals.Os.Ending.{Ending, IsSteady}
use sandals.Fail.{internal_error}
use sandals.Fail.Steady.{fail-Ending}
use sandals.Counter.{
  Mode, Step, go, stop, matching, scan_read, read_size, counter_round, counter_loop,
  cgroup_counter_nonzero,
}

module _ (k : Kernel) (response_fd fuel : ℕ) (P : Trace → Type 0) (steady : IsSteady P) (fd : ℕ)
    (key filename : Bytes) where
  scanned-Ending :
      (again : Mode → M Bool) (s : Step) (t : Trace)
      → ((m : Mode) → Ending P (again m t))
      → P t
      → Ending P ((elim s as (λ _. M Bool) [ go m ↦ again m | stop b ↦ pure b ]) t)
  scanned-Ending again (go m) t h p = h m
  scanned-Ending again (stop b) t h p = record { end = p }

  counter_round-Ending :
      (again : ℕ → Mode → M Bool) (offset : ℕ) (m : Mode) (r : Res Bytes) (t : Trace)
      → ((offset' : ℕ) (m' : Mode) → Ending P (again offset' m' t))
      → P t
      → Ending P (counter_round k response_fd fuel fd key filename again offset m r t)
  unfolding counter_round
  counter_round-Ending again offset m (err e) t h p =
      fail-Ending k response_fd fuel P steady internal_error _ false t p
  counter_round-Ending again offset m (ok []) t h p = record { end = p }
  counter_round-Ending again offset m (ok (c ∷ cs)) t h p =
      scanned-Ending (again (offset + length (c ∷ cs))) (scan_read key m (c ∷ cs)) t
        (h (offset + length (c ∷ cs))) p

  counter_loop-Ending :
      (rounds offset : ℕ) (m : Mode) (t : Trace)
      → P t
      → Ending P (counter_loop k response_fd fuel fd key filename rounds offset m t)
  unfolding counter_loop
  counter_loop-Ending zero offset m t p = record { end = p }
  counter_loop-Ending (suc rounds) offset m t p =
      let r = k.pread t fd read_size offset in
      let q = steady (did_pread fd read_size offset r) t refl p in
      counter_round-Ending (counter_loop k response_fd fuel fd key filename rounds) offset m r _
        (λ offset' m'. counter_loop-Ending rounds offset' m' _ q) q

  pub cgroup_counter_nonzero-Ending :
      (rounds : ℕ) (t : Trace)
      → P t
      → Ending P (cgroup_counter_nonzero k response_fd fuel fd key filename rounds t)
  unfolding cgroup_counter_nonzero
  cgroup_counter_nonzero-Ending rounds t p = counter_loop-Ending rounds 0 (matching 0) t p
