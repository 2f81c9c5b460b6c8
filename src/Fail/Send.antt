-- ===== src/Fail/Send.antt =====
-- src/response.c: the loop of `response_send`.
use sandals.Prelude.{
  ℕ, zero, suc, ◌+◌, ◌≤◌, ◌<◌, ◌≡◌, refl, sym, ◌∙◌, [], ◌∷◌, ◌++◌, append-nil, append_assoc, Bytes,
  arith, length, take, drop, length-drop, take-append-drop, take-append-take, ==_refl,
}
use sandals.Os.{
  Kernel, Trace, M, Outcome, returns, exits, starves, Res, ok, err, eintr, wrote, logged, written,
  interrupts,
}
use sandals.Os.Quiet.{Quiet, same_Quiet, wrote-Quiet}
use sandals.Os.Laws.{IsDocumented}
use sandals.Fail.{write_all, after_write}

-- The last thing that happened is that an error of `write` was logged.
abbrev pub HasFailed : Trace → Type 0
HasFailed (logged _ ∷ wrote _ _ (err _) ∷ t) = Unit
HasFailed _ = ⊥

-- How a run that was to send `bs` ended. A run that starved was cut short by its rounds: each one
-- sent a byte or was interrupted. An exit sent a part, and its reason was logged.
abbrev pub Sends {ℓ} : {A : Type ℓ} → ℕ → Bytes → ℕ → Trace → Outcome A × Trace → Type 0
Sends fd bs rounds t (returns _, t') = (written fd t' ≡ written fd t ++ bs) × Quiet fd t t'
Sends fd bs rounds t (exits c, t') =
    (n : ℕ) × (written fd t' ≡ written fd t ++ take n bs) × (c ≡ 1) × HasFailed t'
Sends fd bs rounds t (starves, t') = rounds + interrupts t < length bs + interrupts t'

-- A write of `n` bytes adds those bytes.
pub written-wrote :
    (fd n : ℕ) (bs : Bytes) (t : Trace)
    → written fd (wrote fd bs (ok n) ∷ t) ≡ written fd t ++ take n bs
written-wrote fd n bs t = rw (==_refl fd)

-- A write that went through, and the rest by a run that sends it.
Sends-ok :
    {A : Type 0} (fd n rounds : ℕ) (bs : Bytes) (t : Trace) (r : Outcome A × Trace)
    → 0 < n
    → n ≤ length bs
    → Sends fd (drop n bs) rounds (wrote fd bs (ok n) ∷ t) r
    → Sends fd bs (suc rounds) t r
Sends-ok fd n rounds bs t (returns _, t') p q (h, quiet) = (
  h
      ∙ rw (==_refl fd)
          (append_assoc (written fd t) (take n bs) (drop n bs) ∙ rw (take-append-drop n bs)),
  wrote-Quiet fd bs (ok n) t t' quiet,
)
Sends-ok fd n rounds bs t (exits c, t') p q (m, h, e, f) = (
  n + m,
  h
      ∙ rw (==_refl fd) (
          append_assoc (written fd t) (take n bs) (take m (drop n bs))
          ∙ rw (take-append-take n m bs)),
  e,
  f,
)
Sends-ok fd n rounds bs t (starves, t') p q h = omega (arith, length-drop n bs)

Sends-eintr :
    {A : Type 0} (fd rounds : ℕ) (bs : Bytes) (t : Trace) (r : Outcome A × Trace)
    → Sends fd bs rounds (wrote fd bs (err eintr) ∷ t) r
    → Sends fd bs (suc rounds) t r
Sends-eintr fd rounds bs t (returns _, t') (h, quiet) =
    (h ∙ rw append-nil, wrote-Quiet fd bs (err eintr) t t' quiet)
Sends-eintr fd rounds bs t (exits c, t') (m, h, e, f) = (m, h ∙ rw append-nil, e, f)
Sends-eintr fd rounds bs t (starves, t') h = omega arith

module _ (k : Kernel) (fd : ℕ) (laws : IsDocumented k) where
  after_write-Sends :
      (rounds : ℕ) (again : Bytes → M (Unit {0})) (b : ℕ) (bs : Bytes) (t : Trace) (r : Res ℕ)
      → k.write t fd (b ∷ bs) ≡ r
      → ((bs' : Bytes) (t' : Trace) → Sends fd bs' rounds t' (again bs' t'))
      → Sends fd (b ∷ bs) (suc rounds) t (after_write again (b ∷ bs) r (wrote fd (b ∷ bs) r ∷ t))
  unfolding after_write
  after_write-Sends rounds again b bs t (ok n) e ih =
      Sends-ok fd n rounds (b ∷ bs) t _ (laws.write_some t fd (b ∷ bs) n e (omega arith))
        (laws.write_le t fd (b ∷ bs) n e) (ih (drop n (b ∷ bs)) _)
  after_write-Sends rounds again b bs t (err eintr) e ih =
      Sends-eintr fd rounds (b ∷ bs) t _ (ih (b ∷ bs) _)
  after_write-Sends rounds again b bs t (err _) e ih = (0, append-nil _, refl, tt)

  pub write_all-Sends :
      (rounds : ℕ) (bs : Bytes) (t : Trace) → Sends fd bs rounds t (write_all k fd rounds bs t)
  unfolding write_all
  write_all-Sends rounds [] t = (sym (append-nil _), same_Quiet fd t)
  write_all-Sends zero (b ∷ bs) t = omega arith
  write_all-Sends (suc rounds) (b ∷ bs) t =
      after_write-Sends rounds (write_all k fd rounds) b bs t (k.write t fd (b ∷ bs)) refl
        (write_all-Sends rounds)
