-- ===== src/File/Returns.antt =====
-- src/file.c: what a call that returns has done.
use sandals.Prelude.{
  ℕ, ◌≡◌, refl, ap, ◌&&◌, ◌∷◌, Bytes, length, ltb, ◌==◌, arith, Bool-cases, inl, inr, true,
}
use sandals.Os.{Kernel, Trace, Res, ok, err, opened, wrote}
use sandals.Os.Returning.{Returning}
use sandals.Fail.Never.{die-Returning}
use sandals.File.{after_open, open_checked, after_checked_write, write_checked}

whole : (n size : ℕ) → (ltb 0 n && (n == size)) ≡ true → n ≡ size
whole n size h = ground arith

module _ (k : Kernel) (response_fd fuel : ℕ) where
  after_open-Returning :
      (path : Bytes) (r : Res ℕ) (t : Trace)
      → Returning
          (λ fd t'. t' ≡ opened path (ok fd) ∷ t)
          (after_open k response_fd fuel path r (opened path r ∷ t))
  unfolding after_open
  after_open-Returning path (ok fd) t = refl
  after_open-Returning path (err e) t = die-Returning k response_fd fuel _ 0 _ _

  pub open_checked-Returning :
      (path : Bytes) (t : Trace)
      → Returning (λ fd t'. t' ≡ opened path (ok fd) ∷ t) (open_checked k response_fd fuel path t)
  unfolding open_checked
  open_checked-Returning path t = after_open-Returning path (k.open_file t path) t

  after_checked_write-Returning :
      (fd : ℕ) (text path : Bytes) (r : Res ℕ) (t : Trace)
      → Returning
          (λ _ t'. t' ≡ wrote fd text (ok (length text)) ∷ t)
          (after_checked_write k response_fd fuel (length text) path r (wrote fd text r ∷ t))
  unfolding after_checked_write
  after_checked_write-Returning fd text path (ok n) t =
      elim (Bool-cases (ltb 0 n && (n == length text))) [
        | inl all ↦ rw all (ap (λ x. wrote fd text (ok x) ∷ t) (whole n (length text) all))
        | inr part ↦ rw part (die-Returning k response_fd fuel _ tt _ _)
      ]
  after_checked_write-Returning fd text path (err e) t = die-Returning k response_fd fuel _ tt _ _

  pub write_checked-Returning :
      (fd : ℕ) (text path : Bytes) (t : Trace)
      → Returning
          (λ _ t'. t' ≡ wrote fd text (ok (length text)) ∷ t)
          (write_checked k response_fd fuel fd text path t)
  unfolding write_checked
  write_checked-Returning fd text path t =
      after_checked_write-Returning fd text path (k.write t fd text) t
