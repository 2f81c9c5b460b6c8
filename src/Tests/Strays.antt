-- ===== src/Tests/Strays.antt =====
-- A directory with a stray file.
use sandals.Prelude.{ℕ, ◌≡◌, ◌<◌, ◌∷◌, [], codes, some, none, false, if◌then◌else◌, ◌==◌, length}
use sandals.Os.{Kernel, Trace, ok, called, closed, listed, open_listing}
use sandals.Os.Returning.{Returning}
use sandals.Stray.{fd_dir, is_stray, close_stray_fds_except}
use sandals.Stray.Swept.{Swept, closes, close_stray_fds_except-SweptAll}
use sandals.Tests.Kernels.{obedient}

abbrev one_stray : Kernel
one_stray = record (obedient []) {
  readdir = λ t fd. ok (if length t == 1 then some (codes "12") else none);
}

close_stray_fds_except-SweptAll_example :
    Returning
      (λ _ t'.
        (dir n : ℕ) × (u : Trace) × (n < 9)
        × Swept 3 dir (called (open_listing fd_dir) (ok dir) ∷ []) n u
        × (t' ≡ closed dir ∷ listed dir (ok none) ∷ u)
        × ((fd : ℕ) → is_stray 3 dir fd ≡ false → closes fd u ≡ closes fd []))
      (close_stray_fds_except one_stray 1 100 9 3 [])
close_stray_fds_except-SweptAll_example = close_stray_fds_except-SweptAll one_stray 1 100 9 3 []
