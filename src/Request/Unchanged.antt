-- ===== src/Request/Unchanged.antt =====
-- src/request.c: what `request_recv` leaves alone, however it ends.
use sandals.Prelude.{
  ℕ, zero, suc, ◌-◌, ◌*◌, refl, [], ◌∷◌, ◌++◌, Bytes, none, length, ◌==◌, if◌then◌else◌,
}
use sandals.Os.{Kernel, Trace, M, Res, ok, err, eintr, pure, did_read}
use sandals.Os.Ending.{Ending, Ending-bind, if-Ending, IsSteady}
use sandals.Fail.{request_invalid}
use sandals.Fail.Steady.{fail-Ending, die-Ending}
use sandals.Request.{Request}
use sandals.Request.Steady.{request_parse-Ending}
use sandals.Request.Receive.{
  Parse, nomem, inval, parsed, grow, token_min, after_request_read, read_request, parse_request,
  finish_request, request_recv,
}

module _ (k : Kernel) (response_fd fuel : ℕ) (P : Trace → Type 0) (steady : IsSteady P) where
  after_read-Ending :
      (again : Bytes → M Bytes) (data1 : Bytes) (r : Res Bytes) (t : Trace)
      → ((data2 : Bytes) → Ending P (again data2 t))
      → P t
      → Ending P (after_request_read k response_fd fuel again data1 r t)
  unfolding after_request_read
  after_read-Ending again data1 (err eintr) t h p = h data1
  after_read-Ending again data1 (ok []) t h p = record { end = p }
  after_read-Ending again data1 (ok (c ∷ cs)) t h p = h (data1 ++ c ∷ cs)
  after_read-Ending again data1 (err _) t h p = die-Ending k response_fd fuel P steady _ _ t p

  read_request-Ending :
      (rounds size : ℕ) (data1 : Bytes) (t : Trace)
      → P t
      → Ending P (read_request k response_fd fuel rounds size data1 t)
  unfolding read_request
  read_request-Ending zero size data1 t p = record { end = p }
  read_request-Ending (suc rounds) size data1 t p =
      let size' = grow size (length data1) in
      let n = size' - length data1 - 1 in
      let q = steady (did_read 0 n (k.read t 0 n)) t refl p in
      after_read-Ending (read_request k response_fd fuel rounds size') data1 (k.read t 0 n) _
        (λ data2. read_request-Ending rounds size' data2 _ q) q

  module _ (jstr_parse : ℕ → Bytes → Parse) where
    tokens-Ending :
        (more : M Parse) (r : Parse) (t : Trace)
        → Ending P (more t)
        → P t
        → Ending P (
            (elim r as (λ _. M Parse) [
              | nomem ↦ more
              | inval ↦ pure inval
              | parsed n toks ↦ pure (parsed n toks)
            ])
              t)
    tokens-Ending more nomem t h p = h
    tokens-Ending more inval t h p = record { end = p }
    tokens-Ending more (parsed n toks) t h p = record { end = p }

    parse_request-Ending :
        (rounds count : ℕ) (text : Bytes) (t : Trace)
        → P t
        → Ending P (parse_request k response_fd fuel jstr_parse rounds count text t)
    unfolding parse_request
    parse_request-Ending zero count text t p = record { end = p }
    parse_request-Ending (suc rounds) count text t p =
        tokens-Ending _ (jstr_parse count text) t
          (parse_request-Ending rounds (if count == 0 then token_min else 2 * count) text t p) p

    finish_request-Ending :
        (request : Request) (text : Bytes) (r : Parse) (t : Trace)
        → P t
        → Ending P (finish_request k response_fd fuel jstr_parse request text r t)
    unfolding finish_request
    finish_request-Ending request text nomem t p =
        fail-Ending k response_fd fuel P steady request_invalid none _ t p
    finish_request-Ending request text inval t p =
        fail-Ending k response_fd fuel P steady request_invalid none _ t p
    finish_request-Ending request text (parsed n toks) t p =
        if-Ending P (n == length text) _ _ t
          (Ending-bind P _ _ (request_parse-Ending toks k response_fd fuel P steady request 0 t p)
            (λ r u q. record { end = q }))
          (fail-Ending k response_fd fuel P steady request_invalid none _ t p)

    pub request_recv-Ending :
        (request : Request) (rounds : ℕ) (t : Trace)
        → P t
        → Ending P (request_recv k response_fd fuel jstr_parse request rounds t)
    unfolding request_recv
    request_recv-Ending request rounds t p =
        Ending-bind P _ _ (read_request-Ending rounds 0 [] t p) (λ text u q.
          Ending-bind P _ _ (parse_request-Ending rounds 0 text u q)
            (λ r v q'. finish_request-Ending request text r v q'))
