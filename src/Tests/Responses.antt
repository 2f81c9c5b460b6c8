-- ===== src/Tests/Responses.antt =====
-- Responses, and how `fail` and `response_send` send them.
use sandals.Prelude.{◌≡◌, refl, some, none, [], ◌∷◌, ◌++◌, codes, arith}
use sandals.Os.{written}
use sandals.Response.{Response, append_raw, append_esc, decimal, escape_byte}
use sandals.Response.Escape.{escape, plain, unescape, unescape-escape}
use sandals.Response.Bounds.{IsSound, append_raw-IsSound, append_esc-IsSound, append_esc-fits}
use sandals.Fail.{internal_error, response_too_big, fail, fail_at, response_send}
use sandals.Fail.Send.{Sends}
use sandals.Fail.Reply.{reply}
use sandals.Fail.Ends.{Ends, fail_text, fail-Ends, response_send-Sends, response_send-Ends}
use sandals.Tests.Kernels.{obedient, obedient-IsDocumented}

decimal-digits : (decimal 0 ≡ codes "0") × (decimal 9 ≡ codes "9") × (decimal 137 ≡ codes "137")
unfolding decimal
decimal-digits = (refl, refl, refl)

escape-controls : escape (codes "a\"\\\n" ++ 1 ∷ 31 ∷ []) ≡ codes "a\\\"\\\\\\n\\u0001\\u001f"
unfolding escape_byte
escape-controls = refl

fail_sends :
    written 1 (fail (obedient []) 1 100 internal_error (some (codes "a\nb")) []).1
    ≡ codes "{\"status\":\"internalError\",\"description\":\"a\\nb\"}\n"
unfolding fail fail_at append_raw append_esc escape_byte
fail_sends = refl

abbrev short : Response
short = record { size = 2; buf = codes "ok" }

short-IsSound : IsSound short
short-IsSound = record { inside = omega arith; stored = λ _. refl }

append_raw-IsSound_example : IsSound (append_raw short (codes "!"))
append_raw-IsSound_example = append_raw-IsSound short (codes "!") short-IsSound

append_esc-IsSound_example : IsSound (append_esc short (codes "\"x"))
append_esc-IsSound_example = append_esc-IsSound short (codes "\"x") short-IsSound

append_esc-fits_example :
    append_esc short (codes "\"x") ≡ record { size = 5; buf = codes "ok\\\"x" }
unfolding append_esc escape_byte
append_esc-fits_example = append_esc-fits short (codes "\"x") (omega arith)

fail-Ends_example :
    Ends 1
      (fail_text internal_error (some (codes "x")))
      100
      []
      (fail (obedient []) 1 100 internal_error (some (codes "x")) [])
fail-Ends_example =
    fail-Ends (obedient []) 1 100 (obedient-IsDocumented []) internal_error (some (codes "x")) []

response_send-Sends_example :
    Sends 1 (codes "ok") 100 [] (response_send (obedient []) 1 100 short [])
response_send-Sends_example =
    response_send-Sends (obedient []) 1 100 (obedient-IsDocumented []) short [] (omega arith)

response_send-Ends_example :
    Ends 1
      (reply response_too_big none)
      100
      []
      (response_send (obedient []) 1 100 (record { size = 5000; buf = [] }) [])
response_send-Ends_example =
    response_send-Ends (obedient []) 1 100 (obedient-IsDocumented [])
      (record { size = 5000; buf = [] }) [] (omega arith)

unescape-escape_example : unescape plain (escape (codes "a\"\n")) ≡ some (codes "a\"\n")
unescape-escape_example = unescape-escape (codes "a\"\n")
