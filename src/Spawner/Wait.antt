-- ===== src/Spawner/Wait.antt =====
-- src/spawner.c: the wait for the task.
use sandals.Prelude.{
  ℕ, zero, suc, ◌+◌, ◌<◌, ◌≡◌, refl, ap, ◌∷◌, arith, Bool, Bool-cases, inl, inr, true, not, subst,
  ◌==◌,
}
use sandals.Os.{
  Kernel, Trace, Outcome, returns, exits, starves, M, Res, ok, err, called_pair, wait_any,
}
use sandals.Spawner.Task.{after_wait, wait_task}

-- `wait` has answered for another process, or failed.
abbrev pub is_other : ℕ → Res (ℕ × ℕ) → Bool
is_other child_pid (ok (pid, status)) = not (pid == child_pid)
is_other child_pid (err e) = true

-- The traces after some calls of `wait` that did not answer for the task.
pub data Waits (child_pid : ℕ) (t : Trace) : ℕ → Trace → Type 0 where
  begin : Waits child_pid t 0 t
  again :
      (n : ℕ) (u : Trace) (r : Res (ℕ × ℕ))
      → Waits child_pid t n u
      → is_other child_pid r ≡ true
      → Waits child_pid t (suc n) (called_pair wait_any r ∷ u)

abbrev pub AwaitsTask : ℕ → ℕ → Trace → Outcome ℕ × Trace → Type 0
AwaitsTask child_pid total t (returns status, t') =
    (n : ℕ) × (u : Trace) × (n < total)
    × Waits child_pid t n u
    × (t' ≡ called_pair wait_any (ok (child_pid, status)) ∷ u)
AwaitsTask child_pid total t (exits _, t') = ⊥
AwaitsTask child_pid total t (starves, t') = Waits child_pid t total t'

module _ (k : Kernel) (child_pid total : ℕ) (t : Trace) where
  wait-AwaitsTask :
      (n : ℕ) (u : Trace) (r : Res (ℕ × ℕ)) (next : M ℕ)
      → Waits child_pid t n u
      → n < total
      → ((u' : Trace) → Waits child_pid t (suc n) u' → AwaitsTask child_pid total t (next u'))
      → AwaitsTask child_pid total t (after_wait next child_pid r (called_pair wait_any r ∷ u))
  unfolding after_wait
  wait-AwaitsTask n u (err e) next from lt h = h _ (again n u (err e) from refl)
  wait-AwaitsTask n u (ok (pid, status)) next from lt h = elim (Bool-cases (pid == child_pid)) [
    | inl same ↦
        rw same (
          n,
          u,
          lt,
          from,
          ap (λ p. called_pair wait_any (ok (p, status)) ∷ u) (ground (arith, same)),
        )
    | inr other ↦ rw other (h _ (again n u (ok (pid, status)) from (rw other refl)))
  ]

  loop-AwaitsTask :
      (rounds n : ℕ) (u : Trace)
      → Waits child_pid t n u
      → n + rounds ≡ total
      → AwaitsTask child_pid total t (wait_task k rounds child_pid u)
  unfolding wait_task
  loop-AwaitsTask zero n u from e = subst (λ m. Waits child_pid t m u) (omega (arith, e)) from
  loop-AwaitsTask (suc rounds) n u from e =
      wait-AwaitsTask n u (k.call_pair u wait_any) (wait_task k rounds child_pid) from
        (omega (arith, e)) (λ u' from'. loop-AwaitsTask rounds (suc n) u' from' (omega (arith, e)))

-- The wait for the task never exits. If it returns, the last call of `wait` answered for the task,
-- with the status that is returned, and none before it did; it starves only after `rounds` calls
-- that answered for other processes or failed.
pub wait_task-AwaitsTask :
    (k : Kernel) (rounds child_pid : ℕ) (t : Trace)
    → AwaitsTask child_pid rounds t (wait_task k rounds child_pid t)
wait_task-AwaitsTask k rounds child_pid t =
    loop-AwaitsTask k child_pid rounds t rounds 0 t begin (omega arith)
