-- ===== src/Os/Quiet.antt =====
-- Runs that only write to one file.
use sandals.Prelude.{ℕ, ◌≤◌, ◌≡◌, ◌≢◌, refl, ◌∙◌, ◌∷◌, append-nil, Bytes, arith, ==_ne}
use sandals.Os.Calls.{Trace, Res, ok, err, wrote, written, calls_on, interrupts}

-- What a run leaves alone: all other files that are written, and all pipes.
pub record Quiet (fd : ℕ) (t t' : Trace) : Type 0 where
  pub others : (o : ℕ) → o ≢ fd → written o t' ≡ written o t
  pub untaken : (i : ℕ) → calls_on i t' ≡ calls_on i t
  pub later : interrupts t ≤ interrupts t'

pub same_Quiet : (fd : ℕ) (t : Trace) → Quiet fd t t
same_Quiet fd t = record { others = λ o ne. refl; untaken = λ i. refl; later = omega arith }

-- A write to the file of the sink, and a quiet run behind it.
pub wrote-Quiet :
    (fd : ℕ) (bs : Bytes) (r : Res ℕ) (t t' : Trace)
    → Quiet fd (wrote fd bs r ∷ t) t'
    → Quiet fd t t'
wrote-Quiet fd bs (ok n) t t' q = record {
  others = λ o ne. q.others o ne ∙ rw (==_ne fd o ne) (append-nil _);
  untaken = λ i. q.untaken i;
  later = omega (arith, q.later);
}
wrote-Quiet fd bs (err e) t t' q = record {
  others = λ o ne. q.others o ne ∙ append-nil _;
  untaken = λ i. q.untaken i;
  later = ground (arith, q.later);
}
