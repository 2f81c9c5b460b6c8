-- ===== src/Spawner/Texts.antt =====
-- src/spawner.c: the response about the end of the task.
use sandals.Prelude.{
  ℕ, ◌+◌, ◌≤◌, ◌<◌, ◌≡◌, ap, ◌∙◌, length-append, zero, suc, List, Bool, ◌&&◌, ◌%◌, ◌/◌, refl, [],
  ◌∷◌, ◌++◌, Bytes, codes, length, arith, Bool-cases, inl, inr, true, if◌then◌else◌, get_elem?,
  none, some, ◌≢◌, ltb, lt→ltb, leb,
}
use sandals.Response.{
  Response, append_raw, append_int, append_esc, escape_byte, decimal, decimal_on, buf_size,
}
use sandals.Fail.{closing}
use sandals.Fail.Reply.{holding}
use sandals.Spawner.Report.{
  signals, nsignals, wtermsig, wifexited, wexitstatus, append_signal, task_response,
}

abbrev pub name_at : List Bytes → Bytes → ℕ → Bytes
name_at names beyond sig = elim (get_elem? names sig) [ none ↦ beyond | some name ↦ name ]

-- What the response says of a signal: its name, or its number if it is above those of the array. For
-- the first number above, the text is what the memory holds behind the array.
abbrev pub signal_text : Bytes → ℕ → Bytes
signal_text beyond sig = if leb sig nsignals then name_at signals beyond sig else decimal sig

abbrev pub task_text : Bytes → ℕ → Bytes
task_text beyond status =
    if wifexited status
    then codes "{\"status\":\"exited\",\"code\":" ++ decimal (wexitstatus status) ++ codes "}\n"
    else codes "{\"status\":\"killed\",\"signal\":\""
      ++ signal_text beyond (wtermsig status)
      ++ codes "\"}\n"

append_raw-holding :
    (a b : Bytes) → length a + length b ≤ buf_size → append_raw (holding a) b ≡ holding (a ++ b)
unfolding append_raw
append_raw-holding a b h = ground (arith, length-append a b)

length-decimal_on : (f n : ℕ) (rest : Bytes) → length (decimal_on f n rest) ≤ f + 1 + length rest
unfolding decimal_on
length-decimal_on zero n rest = omega arith
length-decimal_on (suc f) n rest = elim (Bool-cases (ltb n 10)) [
  | inl small ↦ rw small (omega arith)
  | inr large ↦ rw large (omega (arith, length-decimal_on f (n / 10) ((b'0' + n % 10) ∷ rest)))
]

length-decimal : (n : ℕ) → length (decimal n) ≤ n + 1
unfolding decimal
length-decimal n = omega (arith, length-decimal_on n n [])

-- A text between two others that leave room for it.
append_between :
    (head middle tail : Bytes)
    → length middle ≤ 3000
    → length head + length tail ≤ 1000
    → append_raw (append_raw (holding head) middle) tail ≡ holding (head ++ middle ++ tail)
append_between head middle tail h h' =
    ap (λ r. append_raw r tail) (append_raw-holding head middle (omega arith))
    ∙ append_raw-holding (head ++ middle) tail (omega (arith, length-append head middle))

all_short : List Bytes → Bool
all_short [] = true
all_short (name ∷ names) = leb (length name) 10 && all_short names

length-name :
    (names : List Bytes) (beyond : Bytes) (sig : ℕ)
    → all_short names ≡ true
    → length (name_at names beyond sig) ≤ 10 + length beyond
unfolding all_short
length-name [] beyond sig h = omega arith
length-name (name ∷ names) beyond zero h = ground (arith, h)
length-name (name ∷ names) beyond (suc sig) h = length-name names beyond sig (ground (arith, h))

-- The numbers from 1 to 32 are taken for names.
append_signal-text :
    (beyond : Bytes) (r : Response) (sig : ℕ)
    → sig ≢ 0
    → append_signal beyond r sig ≡ append_raw r (signal_text beyond sig)
unfolding append_signal append_int
append_signal-text beyond r sig nonzero = elim (Bool-cases (leb sig nsignals)) [
  | inl low ↦ rw (lt→ltb 0 sig (ground (arith, nonzero)), low) refl
  | inr high ↦ rw (lt→ltb 0 sig (ground (arith, nonzero)), high) refl
]

length-signal_text :
    (beyond : Bytes) (sig : ℕ) → sig < 128 → length (signal_text beyond sig) ≤ 129 + length beyond
unfolding all_short
length-signal_text beyond sig h = elim (Bool-cases (leb sig nsignals)) [
  | inl low ↦ rw low (omega (arith, length-name signals beyond sig refl))
  | inr high ↦ rw high (omega (arith, length-decimal sig))
]

-- For every status, the response is whole and the expected text: the status `exited` and the exit
-- code, or the status `killed` and the name of the signal, or its number if that is above 32. The
-- text that the memory holds behind the array of names, which a signal of number 32 is given, has at
-- most 1000 bytes.
pub task_response-task_text :
    (beyond : Bytes) (status : ℕ)
    → length beyond ≤ 1000
    → task_response beyond status ≡ holding (task_text beyond status)
unfolding task_response append_raw append_esc escape_byte append_int
task_response-task_text beyond status h = elim (Bool-cases (wifexited status)) [
  | inl exit ↦ rw exit (
      append_between (codes "{\"status\":\"exited\",\"code\":") (decimal (wexitstatus status))
        (codes "}\n") (omega (arith, length-decimal (wexitstatus status))) (omega arith))
  | inr kill ↦
      rw
        (
          kill,
          append_signal-text beyond (holding (codes "{\"status\":\"killed\",\"signal\":\""))
              (wtermsig status) (ground (arith, kill)),
        )
        (append_between (codes "{\"status\":\"killed\",\"signal\":\"")
          (signal_text beyond (wtermsig status)) closing
          (omega (arith, length-signal_text beyond (wtermsig status) (omega arith))) (omega arith))
]
