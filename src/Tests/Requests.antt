-- ===== src/Tests/Requests.antt =====
-- A request with one pipe, as tokens.
use sandals.Prelude.{
  ℕ, suc, ◌≡◌, refl, none, some, [], ◌∷◌, ◌++◌, List, Bytes, codes, get_elem?, arith, length,
  length-append, ◌^◌, ◌-◌,
}
use sandals.Os.{Trace, M, pure}
use sandals.Os.Returning.{Returning}
use sandals.Json.{
  Tokens, JsonType, object, array, string, json_true, json_null, infinite, array_items,
}
use sandals.Json.Access.{Parses}
use sandals.Request.{Request, default_request, request_parse}
use sandals.Request.Limits.{Within, Accepted}
use sandals.Request.Accept.{request_parse-Parses}
use sandals.Request.Receive.{read_request}
use sandals.Request.Reads.{Receives, read_request-Receives}
use sandals.Pipes.{Pipe, pipe_count, pipe_foreach}
use sandals.Pipes.Slots.{Called, pipe_foreach-Returning}
use sandals.Tests.Kernels.{obedient, obedient-IsDocumented}

-- The type, the text and the next token.
abbrev Entry : Type 0
Entry = JsonType × Bytes × ℕ

abbrev entries : List Entry
entries =
    (object, [], 11)
    ∷ (string, codes "cmd", 2)
    ∷ (array, [], 4)
    ∷ (string, codes "/bin/ls", 4)
    ∷ (string, codes "pipes", 5)
    ∷ (array, [], 11)
    ∷ (object, [], 11)
    ∷ (string, codes "dest", 8)
    ∷ (string, codes "out", 9)
    ∷ (string, codes "stdout", 10)
    ∷ (json_true, [], 11)
    ∷ []

abbrev entry : ℕ → Entry
entry i = elim (get_elem? entries i) [ none ↦ (json_null, [], suc i) | some e ↦ e ]

abbrev pub tokens : Tokens
tokens = record {
  type_of = λ i. (entry i).0;
  value_of = λ i. (entry i).1;
  next = λ i. (entry i).2;
  number_of = λ i. infinite;
}

default-Within : Within 0 0 (2 ^ 63 - 1) (2 ^ 63 - 1, 0)
default-Within = record {
  uid_le = omega arith;
  gid_le = omega arith;
  limit_le = omega arith;
  seconds_le = omega arith;
  nanos_lt = omega arith;
}

request_parse-Parses_example :
    Parses Accepted 100 [] (request_parse tokens (obedient []) 1 100 default_request 0 [])
request_parse-Parses_example =
    request_parse-Parses tokens (obedient []) 1 100 (obedient-IsDocumented []) 0 []
      (λ value whole fraction nanos e. cc) default_request default-Within

abbrev pub piped : Request
piped = record default_request { pipes = some 5 }

-- A callback that collects the pipes.
abbrev collect : ℕ → Pipe → List Pipe → M (List Pipe)
collect index p ps = pure (ps ++ p ∷ [])

abbrev Collected : ℕ → List Pipe → Trace → Type 0
Collected n ps t = length ps ≡ n

pipe_foreach-Returning_example :
    Returning
      (Called Collected (pipe_count tokens piped))
      (pipe_foreach tokens (obedient []) 1 100 collect piped [] [])
pipe_foreach-Returning_example =
    pipe_foreach-Returning tokens (obedient []) 1 100 (obedient-IsDocumented []) piped collect
      Collected (λ i p ps t slot e. omega (arith, e, length-append ps (p ∷ []))) [] [] (omega arith)
      refl

one_pipe : pipe_count tokens piped ≡ 1
unfolding pipe_count array_items
one_pipe = refl

read_request-Receives_example :
    Receives 10 100 [] [] (read_request (obedient (codes "{}")) 1 100 10 0 [] [])
read_request-Receives_example =
    read_request-Receives (obedient (codes "{}")) 1 100 (obedient-IsDocumented (codes "{}")) 10 0 []
      []
