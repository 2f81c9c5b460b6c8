-- ===== src/Fail.antt =====
-- src/fail.c, and `response_send` of src/response.c, which call one another.
pub mod Send
pub mod Reply
pub mod Ends
pub mod Never
pub mod Steady
use sandals.Prelude.{
  ℕ, zero, suc, ◌+◌, ◌-◌, Bool, true, false, ◌&&◌, Option, none, some, [], ◌∷◌, ◌++◌, Bytes, codes,
  length, take, drop, ltb, leb, if◌then◌else◌,
}
use sandals.Os.{
  Kernel, M, Outcome, returns, exits, starves, pure, exit, starve, ◌>>=◌, ◌>>◌, write, log, Res, ok,
  err, eintr, Call, call,
}
use sandals.Response.{Response, empty, append_raw, append_esc, buf_size}

pub data Status : Type 0 where
  exited killed memory_limit pids_limit time_limit output_limit : Status
  internal_error request_invalid response_too_big : Status

-- The constants `kStatus…`.
abbrev pub status_text : Status → Bytes
status_text exited = codes "exited"
status_text killed = codes "killed"
status_text memory_limit = codes "memoryLimit"
status_text pids_limit = codes "pidsLimit"
status_text time_limit = codes "timeLimit"
status_text output_limit = codes "outputLimit"
status_text internal_error = codes "internalError"
status_text request_invalid = codes "requestInvalid"
status_text response_too_big = codes "responseTooBig"

-- `{"status":"…"}` and a newline, as the supervisor writes them too.
abbrev pub opening : Bytes
opening = codes "{\"status\":\""

abbrev pub closing : Bytes
closing = codes "\"}\n"

abbrev pub description : Bytes
description = codes "\",\"description\":\""

-- `status == kStatusInternalError`.
abbrev is_internal : Status → Bool
is_internal internal_error = true
is_internal _ = false

-- The body of the loop in `response_send`, after `write` has answered.
pub after_write : (Bytes → M (Unit {0})) → Bytes → Res ℕ → M (Unit {0})
after_write again bs (ok n) = again (drop n bs)
after_write again bs (err eintr) = again bs
after_write again bs (err _) = log (codes "Sending response") >> exit 1

-- The loop of `response_send`, over the bytes from `p` to `e`; `rounds` bounds the calls of `write`.
unfoldable pub write_all : Kernel → ℕ → ℕ → Bytes → M (Unit {0})
unfolding after_write
write_all k response_fd rounds [] = pure tt
write_all k response_fd zero (b ∷ bs) = starve
write_all k response_fd (suc rounds) (b ∷ bs) =
    write k response_fd (b ∷ bs) >>= after_write (write_all k response_fd rounds) (b ∷ bs)

-- The response that carries a status alone, up to the closing quote.
unfoldable pub open_response : Status → Response
open_response status = append_esc (append_raw empty opening) (status_text status)

module _ (k : Kernel) (response_fd fuel : ℕ) where
  -- `response_send`, with what `fail(kStatusResponseTooBig, NULL)` does.
  unfoldable pub send_or : M (Unit {0}) → Response → M (Unit {0})
  send_or too_big r = if ltb buf_size r.size then too_big else write_all k response_fd fuel r.buf

  -- The end of `fail`: the closing text, `response_send` and `exit`.
  finish : M (Unit {0}) → Response → M (Unit {0})
  unfolding send_or
  finish again r = send_or again (append_raw r closing) >> exit 1

  -- What `fail` does with a message that `vsnprintf` had to cut, or had not.
  after_format : M (Unit {0}) → Status → Bytes → M (Unit {0})
  unfolding finish
  after_format again status text =
      if leb buf_size (length text)
      then again
      else finish again (append_esc (append_raw (open_response status) description) text)

  -- `message` is what `fmt` and its arguments format to, before `vsnprintf` cuts it to the size of
  -- `buf`; `depth` bounds how often `fail` calls itself.
  unfoldable pub fail_at : ℕ → Status → Option Bytes → M (Unit {0})
  unfolding finish after_format open_response write_all
  fail_at zero status message = starve
  fail_at (suc depth) status message =
      let again = fail_at depth response_too_big none in
      let r = open_response status in
      elim message [
        | none ↦ finish again r
        | some [] ↦ finish again r
        | some (c ∷ cs) ↦
            (if is_internal status then log (take (buf_size - 1) (c ∷ cs)) else pure tt)
            >> after_format again status (c ∷ cs)
      ]

  -- Two calls are enough: the second one's response fits.
  unfoldable pub fail : Status → Option Bytes → M (Unit {0})
  fail = fail_at 2

  -- `fail(kStatusInternalError, …)` with the text that it formats, in place of a value. It never
  -- returns.
  abbrev pub die : {A : Type 0} → A → Bytes → M A
  die a text = fail internal_error (some text) >> pure a

  -- A system call, and the error that `fail` is called with where it answers -1.
  unfoldable pub after_call : Bytes → Res ℕ → M ℕ
  after_call what (ok n) = pure n
  after_call what (err e) = die 0 (what ++ codes ": " ++ k.strerror e)

  unfoldable pub call_checked : Bytes → Call → M ℕ
  unfolding after_call
  call_checked what c = call k c >>= after_call what

  unfoldable pub response_send : Response → M (Unit {0})
  unfolding send_or
  response_send = send_or (fail response_too_big none)
