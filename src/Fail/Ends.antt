-- ===== src/Fail/Ends.antt =====
-- src/fail.c: how a call of `fail` ends, whatever the kernel answers.
use sandals.Prelude.{
  ℕ, suc, ◌+◌, ◌-◌, ◌≤◌, ◌<◌, ◌≡◌, refl, Bool, true, ◌&&◌, ◌⊎◌, inl, inr, [], ◌∷◌, ◌++◌, append-nil,
  Bytes, Option, none, some, arith, ltb, leb, length, take, if◌then◌else◌, Bool-cases, ltb-false,
  lt→ltb, leb→le, leb-false→lt, length-append,
}
use sandals.Os.{
  Kernel, Trace, M, Outcome, returns, exits, starves, written, interrupts, logged, bind_from, exit,
}
use sandals.Os.Laws.{IsDocumented}
use sandals.Response.{Response, append_raw, buf_size}
use sandals.Fail.{
  is_internal, Status, response_too_big, closing, open_response, finish, after_format, fail_at,
  status_text, opening, fail, response_send,
}
use sandals.Fail.Send.{Sends, HasFailed, write_all-Sends}
use sandals.Fail.Reply.{
  reply, holding, described-fits, described-too_big, append_raw-closing, length-status_text,
}

-- `fail` ends the process with EXIT_FAILURE. It has sent the text, or a part of it after which a
-- write failed; or a bound on the writes was too small for the bytes and the interrupts.
abbrev pub Ends {ℓ} : {A : Type ℓ} → ℕ → Bytes → ℕ → Trace → Outcome A × Trace → Type 0
Ends fd text fuel t (returns _, t') = ⊥
Ends fd text fuel t (exits c, t') =
    (c ≡ 1)
    × ((written fd t' ≡ written fd t ++ text)
        ⊎ ((n : ℕ) × (written fd t' ≡ written fd t ++ take n text) × HasFailed t'))
Ends fd text fuel t (starves, t') = fuel + interrupts t < length text + interrupts t'

-- The description is sent if it fits into the buffer, before and after it is escaped.
abbrev pub fits : Status → Option Bytes → Bool
fits status none = true
fits status (some []) = true
fits status (some (c ∷ cs)) =
    ltb (length (c ∷ cs)) buf_size && leb (length (reply status (some (c ∷ cs)))) buf_size

abbrev pub fail_text : Status → Option Bytes → Bytes
fail_text status message =
    if fits status message then reply status message else reply response_too_big none

exit-Ends :
    (fd fuel : ℕ) (text : Bytes) (t : Trace) (r : Outcome (Unit {0}) × Trace)
    → Sends fd text fuel t r
    → Ends fd text fuel t (bind_from r.0 r.1 (λ _. exit {A = Unit {0}} 1))
exit-Ends fd fuel text t (returns _, t') (h, quiet) = (refl, inl h)
exit-Ends fd fuel text t (exits c, t') (n, h, e, f) = (e, inr (n, h, f))
exit-Ends fd fuel text t (starves, t') h = h

again-Ends :
    (fd fuel : ℕ) (text : Bytes) (t : Trace) (r : Outcome (Unit {0}) × Trace)
    → Ends fd text fuel t r
    → Ends fd text fuel t (bind_from r.0 r.1 (λ _. exit {A = Unit {0}} 1))
again-Ends fd fuel text t (returns _, t') h = absurd h
again-Ends fd fuel text t (exits c, t') h = h
again-Ends fd fuel text t (starves, t') h = h

pub length-reply-none : (status : Status) → length (reply status none) ≤ buf_size
length-reply-none status = omega (
  arith,
  length-status_text status,
  length-append (opening ++ status_text status) closing,
  length-append opening (status_text status),
)

-- A line on standard error adds nothing to the response.
Ends-logged :
    (fd fuel : ℕ) (text note : Bytes) (t : Trace) (r : Outcome (Unit {0}) × Trace)
    → Ends fd text fuel (logged note ∷ t) r
    → Ends fd text fuel t r
Ends-logged fd fuel text note t (returns _, t') h = h
Ends-logged fd fuel text note t (exits c, t') h = rw append-nil at h
Ends-logged fd fuel text note t (starves, t') h = omega arith

module _ (k : Kernel) (fd fuel : ℕ) (laws : IsDocumented k) where
  -- A response that fits is sent.
  finish-Ends :
      (again : M (Unit {0})) (r : Response) (text : Bytes) (t : Trace)
      → append_raw r closing ≡ holding text
      → length text ≤ buf_size
      → Ends fd text fuel t (finish k fd fuel again r t)
  unfolding finish
  finish-Ends again r text t e h =
      rw (e, ltb-false buf_size (length text) h)
        (exit-Ends fd fuel text t _ (write_all-Sends k fd laws fuel text t))

  -- For one that does not, the other response is sent.
  finish-again :
      (again : M (Unit {0})) (r : Response) (text : Bytes) (t : Trace)
      → buf_size < (append_raw r closing).size
      → Ends fd text fuel t (again t)
      → Ends fd text fuel t (finish k fd fuel again r t)
  unfolding finish
  finish-again again r text t h ih =
      rw (lt→ltb buf_size (append_raw r closing).size h) (again-Ends fd fuel text t _ ih)

  fail_at-plain :
      (depth : ℕ) (status : Status) (t : Trace)
      → Ends fd (reply status none) fuel t (fail_at k fd fuel (suc depth) status none t)
  unfolding fail_at
  fail_at-plain depth status t =
      finish-Ends (fail_at k fd fuel depth response_too_big none) (open_response status)
        (reply status none) t (append_raw-closing status) (length-reply-none status)

  -- The branches after a message has been formatted.
  message-Ends :
      (again : M (Unit {0})) (status : Status) (c : ℕ) (cs : Bytes) (t : Trace)
      → Ends fd (reply response_too_big none) fuel t (again t)
      → Ends fd
          (fail_text status (some (c ∷ cs)))
          fuel
          t
          (after_format k fd fuel again status (c ∷ cs) t)
  unfolding after_format
  message-Ends again status c cs t ih = elim (Bool-cases (leb buf_size (length (c ∷ cs)))) [
    | inl cut ↦ rw (cut, ltb-false (length (c ∷ cs)) buf_size (leb→le _ _ cut)) ih
    | inr whole ↦ elim (Bool-cases (leb (length (reply status (some (c ∷ cs)))) buf_size)) [
      | inl short ↦
          rw (whole, lt→ltb (length (c ∷ cs)) buf_size (leb-false→lt _ _ whole), short)
            (finish-Ends again _ (reply status (some (c ∷ cs))) t
              (described-fits status c cs (leb→le _ _ short)) (leb→le _ _ short))
      | inr long ↦
          rw (whole, lt→ltb (length (c ∷ cs)) buf_size (leb-false→lt _ _ whole), long)
            (finish-again again _ (reply response_too_big none) t
              (described-too_big status c cs (leb-false→lt _ _ long)) ih)
    ]
  ]

  fail_at-Ends :
      (depth : ℕ) (status : Status) (message : Option Bytes) (t : Trace)
      → Ends fd
          (fail_text status message)
          fuel
          t
          (fail_at k fd fuel (suc (suc depth)) status message t)
  unfolding fail_at
  fail_at-Ends depth status none t = fail_at-plain (suc depth) status t
  fail_at-Ends depth status (some []) t = fail_at-plain (suc depth) status t
  fail_at-Ends depth status (some (c ∷ cs)) t =
      let again = fail_at k fd fuel (suc depth) response_too_big none in
      let sent = λ (t' : Trace).
        message-Ends again status c cs t' (fail_at-plain depth response_too_big t') in
      elim (Bool-cases (is_internal status)) [
        | inl internal ↦
            rw internal
              (Ends-logged fd fuel _ (take (buf_size - 1) (c ∷ cs)) t _ (sent (logged _ ∷ t)))
        | inr outside ↦ rw outside (sent t)
      ]

  -- `fail` never returns. It exits with EXIT_FAILURE after the status with its description, or
  -- `responseTooBig` where the description does not fit; only a failing write cuts the text short.
  -- It starves only if the fuel is below the text and the interrupts.
  pub fail-Ends :
      (status : Status) (message : Option Bytes) (t : Trace)
      → Ends fd (fail_text status message) fuel t (fail k fd fuel status message t)
  unfolding fail
  fail-Ends = fail_at-Ends 0

  -- A response that fits is sent whole, in order, over partial and interrupted writes; or a write
  -- failed, with a part sent; or the fuel was below the bytes and the interrupts.
  pub response_send-Sends :
      (r : Response) (t : Trace)
      → r.size ≤ buf_size
      → Sends fd r.buf fuel t (response_send k fd fuel r t)
  unfolding response_send
  response_send-Sends r t h =
      rw (ltb-false buf_size r.size h) (write_all-Sends k fd laws fuel r.buf t)

  -- For a response that does not fit, `responseTooBig` is sent instead, and the process exits.
  pub response_send-Ends :
      (r : Response) (t : Trace)
      → buf_size < r.size
      → Ends fd (reply response_too_big none) fuel t (response_send k fd fuel r t)
  unfolding response_send
  response_send-Ends r t h = rw (lt→ltb buf_size r.size h) (fail-Ends response_too_big none t)

-- No response that `fail` sends is longer than the buffer.
pub length-fail_text :
    (status : Status) (message : Option Bytes) → length (fail_text status message) ≤ buf_size
length-fail_text status none = length-reply-none status
length-fail_text status (some []) = length-reply-none status
length-fail_text status (some (c ∷ cs)) =
    ground (arith, length-reply-none response_too_big, length-reply-none status)
