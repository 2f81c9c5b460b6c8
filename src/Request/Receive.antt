-- ===== src/Request/Receive.antt =====
-- src/request.c: `request_recv`, which reads the request and has it parsed.
use sandals.Prelude.{
  ℕ, zero, suc, ◌+◌, ◌-◌, ◌*◌, [], ◌∷◌, ◌++◌, Bytes, codes, none, length, leb, ◌==◌, if◌then◌else◌,
}
use sandals.Os.{Kernel, M, pure, starve, ◌>>=◌, ◌>>◌, read, Res, ok, err, eintr}
use sandals.Fail.{fail, request_invalid, die}
use sandals.Json.{Tokens, json_null, infinite}
use sandals.Request.{Request, request_parse}

-- What `jstr_parse` returns: JSTR_NOMEM, JSTR_INVAL, or how much of the text it has read, with the
-- tokens.
pub data Parse : Type 0 where
  nomem inval : Parse
  parsed : ℕ → Tokens → Parse

-- The buffer is doubled when at most half of PIPE_BUF is free.
unfoldable pub grow : ℕ → ℕ → ℕ
grow size data_size =
    if leb (size - data_size) 2048 then (if size == 0 then 4096 else 2 * size) else size

abbrev pub token_min : ℕ
token_min = 64

-- Where the parser has returned no tokens.
abbrev no_tokens : Tokens
no_tokens = record {
  type_of = λ _. json_null;
  value_of = λ _. [];
  next = λ i. i + 1;
  number_of = λ _. infinite;
}

module _ (k : Kernel) (response_fd fuel : ℕ) where
  -- The body of the loop, after `read`.
  unfoldable pub after_request_read : (Bytes → M Bytes) → Bytes → Res Bytes → M Bytes
  after_request_read again data1 (err eintr) = again data1
  after_request_read again data1 (err e) =
      die k response_fd fuel [] (codes "Reading request: " ++ k.strerror e)
  after_request_read again data1 (ok []) = pure data1
  after_request_read again data1 (ok (c ∷ cs)) = again (data1 ++ c ∷ cs)

  -- `data1` is what has been read, and `size` what is allocated; `rounds` bounds the calls of `read`.
  unfoldable pub read_request : ℕ → ℕ → Bytes → M Bytes
  unfolding after_request_read
  read_request zero size data1 = starve
  read_request (suc rounds) size data1 =
      let size' = grow size (length data1) in
      read k 0 (size' - length data1 - 1) >>= after_request_read (read_request rounds size') data1

  module _ (jstr_parse : ℕ → Bytes → Parse) where
    -- The loop that gives the parser more tokens.
    unfoldable pub parse_request : ℕ → ℕ → Bytes → M Parse
    parse_request zero count text = starve
    parse_request (suc rounds) count text =
        let more = parse_request rounds (if count == 0 then token_min else 2 * count) text in
        elim (jstr_parse count text) [
          | nomem ↦ more
          | inval ↦ pure inval
          | parsed n toks ↦ pure (parsed n toks)
        ]

    -- `rc < 0 || data_size != rc` is refused. The tokens are those that the request points into.
    unfoldable pub finish_request : Request → Bytes → Parse → M (Tokens × Request)
    finish_request request text (parsed n toks) =
        if n == length text
        then (request_parse toks k response_fd fuel request 0 >>= λ r. pure (toks, r))
        else (fail k response_fd fuel request_invalid none >> pure (toks, request))
    finish_request request text _ =
        fail k response_fd fuel request_invalid none >> pure (no_tokens, request)

    unfoldable pub request_recv : Request → ℕ → M (Tokens × Request)
    unfolding read_request parse_request finish_request
    request_recv request rounds = do
      text ← read_request rounds 0 []
      p ← parse_request rounds 0 text
      finish_request request text p
