-- ===== src/Request/Reads.antt =====
-- src/request.c: the loop of `request_recv` that reads the request.
use sandals.Prelude.{
  ℕ, zero, suc, ◌+◌, ◌≤◌, ◌<◌, ◌≡◌, ◌⊎◌, inl, inr, refl, sym, ap, ◌∙◌, [], ◌∷◌, ◌++◌, append-nil,
  append_assoc, Bytes, length, arith, subst,
}
use sandals.Os.{
  Kernel, Trace, Outcome, returns, exits, starves, M, Res, ok, err, eintr, taken, calls_on,
  did_read, interrupts,
}
use sandals.Os.Laws.{IsDocumented}
use sandals.Response.{buf_size}
use sandals.Json.Access.{Parses, fail-Parses}
use sandals.Request.Receive.{after_request_read, read_request, grow}

-- How the loop ends. It starves after `rounds` calls, or in `fail`.
abbrev pub Receives : ℕ → ℕ → Bytes → Trace → Outcome Bytes × Trace → Type 0
Receives rounds fuel data1 t (returns text, t') =
    (rest : Bytes) × (text ≡ data1 ++ rest) × (taken 0 t' ≡ taken 0 t ++ rest)
Receives rounds fuel data1 t (exits c, t') = c ≡ 1
Receives rounds fuel data1 t (starves, t') =
    (rounds + length (calls_on 0 t) ≤ length (calls_on 0 t'))
    ⊎ (fuel + interrupts t < buf_size + interrupts t')

-- A read that has returned some bytes or nothing, and the rounds behind it.
Receives-read :
    (rounds fuel n : ℕ) (data1 more : Bytes) (r : Res Bytes) (t : Trace) (o : Outcome Bytes × Trace)
    → taken 0 (did_read 0 n r ∷ t) ≡ taken 0 t ++ more
    → Receives rounds fuel (data1 ++ more) (did_read 0 n r ∷ t) o
    → Receives (suc rounds) fuel data1 t o
Receives-read rounds fuel n data1 more r t (returns text, t') e (rest, text_is, taken_is) = (
  more ++ rest,
  text_is ∙ append_assoc data1 more rest,
  taken_is ∙ ap (λ x. x ++ rest) e ∙ append_assoc (taken 0 t) more rest,
)
Receives-read rounds fuel n data1 more r t (exits c, t') e h = h
Receives-read rounds fuel n data1 more r t (starves, t') e (inl h) = inl (omega (arith, h))
Receives-read rounds fuel n data1 more r t (starves, t') e (inr h) = inr (omega (arith, h))

-- A call of `fail` behind a read.
failed-Receives :
    (rounds fuel n : ℕ) (data1 : Bytes) (r : Res Bytes) (t : Trace) (o : Outcome Bytes × Trace)
    → Parses (λ _. ⊥) fuel (did_read 0 n r ∷ t) o
    → Receives rounds fuel data1 t o
failed-Receives rounds fuel n data1 r t (returns text, t') h = absurd h.0
failed-Receives rounds fuel n data1 r t (exits c, t') h = h
failed-Receives rounds fuel n data1 r t (starves, t') h = inr (omega (arith, h))

module _ (k : Kernel) (response_fd fuel : ℕ) (laws : IsDocumented k) where
  read-Receives :
      (rounds n : ℕ) (again : Bytes → M Bytes) (data1 : Bytes) (t : Trace) (r : Res Bytes)
      → ((data2 : Bytes)
          → Receives rounds fuel data2 (did_read 0 n r ∷ t) (again data2 (did_read 0 n r ∷ t)))
      → Receives
          (suc rounds)
          fuel
          data1
          t
          (after_request_read k response_fd fuel again data1 r (did_read 0 n r ∷ t))
  unfolding after_request_read
  read-Receives rounds n again data1 t (ok []) h = ([], sym (append-nil data1), refl)
  read-Receives rounds n again data1 t (ok (c ∷ cs)) h =
      Receives-read rounds fuel n data1 (c ∷ cs) (ok (c ∷ cs)) t _ refl (h (data1 ++ c ∷ cs))
  read-Receives rounds n again data1 t (err eintr) h =
      Receives-read rounds fuel n data1 [] (err eintr) t _ refl (
        subst
          (λ d.
            Receives rounds fuel d (did_read 0 n (err eintr) ∷ t)
              (again data1 (did_read 0 n (err eintr) ∷ t)))
          (sym (append-nil data1)) (h data1))
  read-Receives rounds n again data1 t (err e) h =
      failed-Receives (suc rounds) fuel n data1 (err e) t _
        (fail-Parses k response_fd fuel laws (λ _. ⊥) _ _ _ _)

  -- Whatever sizes the reads have, and however often they are interrupted: if the loop returns, the
  -- text is what it began with and all that it has taken from standard input, in order. It exits
  -- only with EXIT_FAILURE, and it starves only after `rounds` calls of `read`, or with less fuel
  -- than one buffer and the interrupts.
  pub read_request-Receives :
      (rounds size : ℕ) (data1 : Bytes) (t : Trace)
      → Receives rounds fuel data1 t (read_request k response_fd fuel rounds size data1 t)
  unfolding read_request
  read_request-Receives zero size data1 t = inl (omega arith)
  read_request-Receives (suc rounds) size data1 t =
      read-Receives rounds _ (read_request k response_fd fuel rounds (grow size (length data1)))
        data1 t _ (λ data2. read_request-Receives rounds (grow size (length data1)) data2 _)
