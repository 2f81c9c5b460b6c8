-- ===== src/Fail/Steady.antt =====
-- src/fail.c and src/file.c: what their calls leave alone, however they end.
use sandals.Prelude.{
  ℕ, zero, suc, ◌-◌, refl, [], ◌∷◌, Bytes, Option, none, some, drop, leb, ltb, length, take, ◌&&◌,
  ◌==◌,
}
use sandals.Os.{Kernel, Trace, M, pure, log, ◌>>◌, Res, ok, err, eintr, wrote, logged, opened}
use sandals.Os.Ending.{Ending, Ending-bind, if-Ending, IsSteady}
use sandals.Response.{Response, buf_size, append_raw}
use sandals.Fail.{
  die, Status, internal_error, response_too_big, is_internal, closing, finish, after_format,
  fail_at, fail, after_call, after_write, write_all, send_or, response_send,
}
use sandals.File.{after_open, open_checked, after_checked_write, write_checked}

module _ (k : Kernel) (response_fd fuel : ℕ) (P : Trace → Type 0) (steady : IsSteady P) where
  after_write-Ending :
      (again : Bytes → M (Unit {0})) (bs : Bytes) (r : Res ℕ) (t : Trace)
      → ((bs' : Bytes) → Ending P (again bs' t))
      → P t
      → Ending P (after_write again bs r t)
  unfolding after_write
  after_write-Ending again bs (ok n) t h p = h (drop n bs)
  after_write-Ending again bs (err eintr) t h p = h bs
  after_write-Ending again bs (err e) t h p = record { end = steady (logged _) t refl p }

  write_all-Ending :
      (rounds : ℕ) (bs : Bytes) (t : Trace) → P t → Ending P (write_all k response_fd rounds bs t)
  unfolding write_all
  write_all-Ending rounds [] t p = record { end = p }
  write_all-Ending zero (b ∷ bs) t p = record { end = p }
  write_all-Ending (suc rounds) (b ∷ bs) t p =
      let q = steady (wrote response_fd (b ∷ bs) (k.write t response_fd (b ∷ bs))) t refl p in
      after_write-Ending (write_all k response_fd rounds) (b ∷ bs) _ _
        (λ bs'. write_all-Ending rounds bs' _ q) q

  finish-Ending :
      (again : M (Unit {0})) (r : Response) (t : Trace)
      → Ending P (again t)
      → P t
      → Ending P (finish k response_fd fuel again r t)
  unfolding finish send_or
  finish-Ending again r t h p =
      Ending-bind P _ _
        (if-Ending P (ltb buf_size (append_raw r closing).size) again _ t h
          (write_all-Ending fuel (append_raw r closing).buf t p))
        (λ _ t' p'. record { end = p' })

  format-Ending :
      (again : M (Unit {0})) (status : Status) (text : Bytes) (t : Trace)
      → Ending P (again t)
      → P t
      → Ending P (after_format k response_fd fuel again status text t)
  unfolding after_format
  format-Ending again status text t h p =
      if-Ending P (leb buf_size (length text)) again _ t h (finish-Ending again _ t h p)

  fail_at-Ending :
      (depth : ℕ) (status : Status) (message : Option Bytes) (t : Trace)
      → P t
      → Ending P (fail_at k response_fd fuel depth status message t)
  unfolding fail_at
  fail_at-Ending zero status message t p = record { end = p }
  fail_at-Ending (suc depth) status none t p =
      finish-Ending _ _ t (fail_at-Ending depth response_too_big none t p) p
  fail_at-Ending (suc depth) status (some []) t p =
      finish-Ending _ _ t (fail_at-Ending depth response_too_big none t p) p
  fail_at-Ending (suc depth) status (some (c ∷ cs)) t p =
      Ending-bind {A = Unit {0}} P _ _
        (if-Ending P (is_internal status) (log (take (buf_size - 1) (c ∷ cs))) (pure tt) t
          (record { end = steady (logged _) t refl p }) (record { end = p }))
        (λ _ t' p'.
          format-Ending _ status (c ∷ cs) t' (fail_at-Ending depth response_too_big none t' p') p')

  pub fail_only-Ending :
      (status : Status) (message : Option Bytes) (t : Trace)
      → P t
      → Ending P (fail k response_fd fuel status message t)
  unfolding fail
  fail_only-Ending status message t p = fail_at-Ending 2 status message t p

  pub fail-Ending :
      {A : Type 0} (status : Status) (message : Option Bytes) (a : A) (t : Trace)
      → P t
      → Ending P ((fail k response_fd fuel status message >> pure a) t)
  unfolding fail
  fail-Ending status message a t p =
      Ending-bind P _ _ (fail_at-Ending 2 status message t p) (λ _ t' p'. record { end = p' })

  pub die-Ending :
      {A : Type 0} (a : A) (text : Bytes) (t : Trace)
      → P t
      → Ending P (die k response_fd fuel a text t)
  die-Ending a text t p = fail-Ending internal_error (some text) a t p

  -- `response_send`, with what is done where the response does not fit.
  pub send_or-Ending :
      (too_big : M (Unit {0})) (r : Response) (t : Trace)
      → Ending P (too_big t)
      → P t
      → Ending P (send_or k response_fd fuel too_big r t)
  unfolding send_or
  send_or-Ending too_big r t h p =
      if-Ending P (ltb buf_size r.size) too_big _ t h (write_all-Ending fuel r.buf t p)

  pub response_send-Ending :
      (r : Response) (t : Trace) → P t → Ending P (response_send k response_fd fuel r t)
  unfolding response_send fail
  response_send-Ending r t p = send_or-Ending _ r t (fail_at-Ending 2 response_too_big none t p) p

  pub after_call-Ending :
      (what : Bytes) (r : Res ℕ) (t : Trace)
      → P t
      → Ending P (after_call k response_fd fuel what r t)
  unfolding after_call
  after_call-Ending what (ok n) t p = record { end = p }
  after_call-Ending what (err e) t p = fail-Ending internal_error _ 0 t p

  after_open-Ending :
      (path : Bytes) (r : Res ℕ) (t : Trace)
      → P t
      → Ending P (after_open k response_fd fuel path r t)
  unfolding after_open
  after_open-Ending path (ok n) t p = record { end = p }
  after_open-Ending path (err e) t p = fail-Ending internal_error _ 0 t p

  pub open_checked-Ending :
      (path : Bytes) (t : Trace) → P t → Ending P (open_checked k response_fd fuel path t)
  unfolding open_checked
  open_checked-Ending path t p =
      after_open-Ending path _ _ (steady (opened path (k.open_file t path)) t refl p)

  after_checked_write-Ending :
      (size : ℕ) (path : Bytes) (r : Res ℕ) (t : Trace)
      → P t
      → Ending P (after_checked_write k response_fd fuel size path r t)
  unfolding after_checked_write
  after_checked_write-Ending size path (ok n) t p =
      if-Ending P (ltb 0 n && (n == size)) (pure tt) _ t (record { end = p })
        (fail-Ending internal_error _ tt t p)
  after_checked_write-Ending size path (err e) t p = fail-Ending internal_error _ tt t p

  pub write_checked-Ending :
      (fd : ℕ) (text path : Bytes) (t : Trace)
      → P t
      → Ending P (write_checked k response_fd fuel fd text path t)
  unfolding write_checked
  write_checked-Ending fd text path t p =
      after_checked_write-Ending (length text) path (k.write t fd text) _
        (steady (wrote fd text (k.write t fd text)) t refl p)
