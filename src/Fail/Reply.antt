-- ===== src/Fail/Reply.antt =====
-- src/fail.c: the text of the response that `fail` builds, and when it fits into the buffer.
use sandals.Prelude.{
  ℕ, ◌+◌, ◌≤◌, ◌<◌, ◌≡◌, refl, [], ◌∷◌, ◌++◌, Bytes, Option, none, some, arith, length,
  length-append,
}
use sandals.Response.{Response, append_raw, append_esc, escape_byte, buf_size}
use sandals.Response.Escape.{escape}
use sandals.Response.Bounds.{append_esc-fits, append_esc-le}
use sandals.Fail.{
  Status, exited, killed, memory_limit, pids_limit, time_limit, output_limit, internal_error,
  request_invalid, response_too_big, status_text, opening, closing, description, open_response,
}

-- The whole text: an object with the status, and the description unless that is empty.
abbrev pub reply : Status → Option Bytes → Bytes
reply status none = (opening ++ status_text status) ++ closing
reply status (some []) = (opening ++ status_text status) ++ closing
reply status (some (c ∷ cs)) =
    (((opening ++ status_text status) ++ description) ++ escape (c ∷ cs)) ++ closing

-- `open_response` holds the opening and the status.
pub open_response_lem :
    (status : Status)
    → open_response status ≡ record {
      size = length (opening ++ status_text status);
      buf = opening ++ status_text status;
    }
unfolding open_response append_raw append_esc escape_byte
open_response_lem exited = refl
open_response_lem killed = refl
open_response_lem memory_limit = refl
open_response_lem pids_limit = refl
open_response_lem time_limit = refl
open_response_lem output_limit = refl
open_response_lem internal_error = refl
open_response_lem request_invalid = refl
open_response_lem response_too_big = refl

pub length-status_text : (status : Status) → length (status_text status) ≤ 15
length-status_text exited = omega arith
length-status_text killed = omega arith
length-status_text memory_limit = omega arith
length-status_text pids_limit = omega arith
length-status_text time_limit = omega arith
length-status_text output_limit = omega arith
length-status_text internal_error = omega arith
length-status_text request_invalid = omega arith
length-status_text response_too_big = omega arith

-- A response that holds `text`, whole.
abbrev pub holding : Bytes → Response
holding text = record { size = length text; buf = text }

-- The response with a description, before it is sent.
abbrev pub described : Status → Bytes → Response
described status message =
    append_raw (append_esc (append_raw (open_response status) description) message) closing

abbrev headed : Status → Bytes
headed status = opening ++ status_text status

-- A short text is appended to the status.
append_raw-open :
    (status : Status) (text : Bytes)
    → length text < 100
    → append_raw (open_response status) text ≡ holding (headed status ++ text)
unfolding append_raw
append_raw-open status text h =
    rw (open_response_lem status)
      (ground (arith, length-status_text status, length-append (headed status) text))

pub append_raw-closing :
    (status : Status) → append_raw (open_response status) closing ≡ holding (reply status none)
append_raw-closing status = append_raw-open status closing (omega arith)

module _ (text message last : Bytes) where
  abbrev total : Bytes
  total = (text ++ escape message) ++ last

  length-total : length total ≡ length text + length (escape message) + length last
  length-total =
      omega
        (arith, length-append (text ++ escape message) last, length-append text (escape message))

  -- A text that fits is stored whole.
  total-fits :
      length total ≤ buf_size
      → 0 < length last
      → append_raw (append_esc (holding text) message) last ≡ holding total
  unfolding append_raw
  total-fits h p =
      let e : append_esc (holding text) message
          ≡ record { size = length text + length (escape message); buf = text ++ escape message } =
        append_esc-fits (holding text) message
          (omega (arith, append_esc-le (holding text) message, length-total)) in
      rw e (ground (arith, length-total))

  -- A text that does not fit is counted as too long.
  total-too_big :
      buf_size < length total
      → 0 < length last
      → buf_size < (append_raw (append_esc (holding text) message) last).size
  unfolding append_raw
  total-too_big h p = grind (arith, length-total, append_esc-fits (holding text) message)

pub described-fits :
    (status : Status) (c : ℕ) (cs : Bytes)
    → length (reply status (some (c ∷ cs))) ≤ buf_size
    → described status (c ∷ cs) ≡ holding (reply status (some (c ∷ cs)))
described-fits status c cs h =
    rw (append_raw-open status description (omega arith))
      (total-fits (headed status ++ description) (c ∷ cs) closing h (omega arith))

pub described-too_big :
    (status : Status) (c : ℕ) (cs : Bytes)
    → buf_size < length (reply status (some (c ∷ cs)))
    → buf_size < (described status (c ∷ cs)).size
described-too_big status c cs h =
    rw (append_raw-open status description (omega arith))
      (total-too_big (headed status ++ description) (c ∷ cs) closing h (omega arith))
