-- ===== src/Response/Bounds.antt =====
-- src/response.c: where the appending functions store, and when a text has been stored whole.
use sandals.Prelude.{
  ℕ, ◌+◌, ◌≤◌, ◌<◌, ◌≡◌, [], ◌∷◌, ◌++◌, append-nil, append_assoc, Bytes, arith, ltb, length,
  length-append, Bool-cases, inl, inr,
}
use sandals.Response.{Response, push, escape_byte, append_raw, append_esc, buf_size, overflow_size}
use sandals.Response.Escape.{escape}

-- The buffer is not overrun, and up to its end it holds exactly `size` bytes.
pub record IsSound (r : Response) : Type 0 where
  pub inside : length r.buf ≤ buf_size + overflow_size
  pub stored : r.size ≤ buf_size → length r.buf ≡ r.size

pub length-escape_byte : (c : ℕ) → (1 ≤ length (escape_byte c)) × (length (escape_byte c) ≤ 6)
unfolding escape_byte
length-escape_byte c = ground arith

-- The same for a text that is not escaped.
pub append_raw-IsSound : (r : Response) (str : Bytes) → IsSound r → IsSound (append_raw r str)
unfolding append_raw
append_raw-IsSound r str s = ground (arith, s.stored, length-append r.buf str)

push-IsSound :
    (r : Response) (c : ℕ) → IsSound r → r.size < buf_size → IsSound (push r (escape_byte c))
push-IsSound r c s h =
    omega (arith, s.stored, length-append r.buf (escape_byte c), length-escape_byte c)

-- The escaped text is never stored beyond `buf` and `overflow`, and up to the end of `buf` exactly
-- `size` bytes are stored, if that was so before.
pub append_esc-IsSound : (r : Response) (str : Bytes) → IsSound r → IsSound (append_esc r str)
unfolding append_esc
append_esc-IsSound r [] s = s
append_esc-IsSound r (c ∷ str) s = elim (Bool-cases (ltb r.size buf_size)) [
  | inl room ↦
      rw room (append_esc-IsSound (push r (escape_byte c)) str (push-IsSound r c s (ground arith)))
  | inr full ↦ rw full s
]

append_esc-grows : (r : Response) (str : Bytes) → r.size ≤ (append_esc r str).size
unfolding append_esc
append_esc-grows r [] = omega arith
append_esc-grows r (c ∷ str) = ground (arith, append_esc-grows (push r (escape_byte c)) str)

-- If room is left in the buffer, the whole string has been stored, escaped, behind what was there,
-- and exactly that has been counted.
pub append_esc-fits :
    (r : Response) (str : Bytes)
    → (append_esc r str).size < buf_size
    → append_esc r str ≡ record { size = r.size + length (escape str); buf = r.buf ++ escape str }
unfolding append_esc
append_esc-fits r [] h = ground (arith, append-nil r.buf)
append_esc-fits r (c ∷ str) h = ground (
  arith,
  append_esc-fits (push r (escape_byte c)) str,
  append_assoc r.buf (escape_byte c) (escape str),
  length-append (escape_byte c) (escape str),
)

-- No more is counted than the whole escaped string.
pub append_esc-le :
    (r : Response) (str : Bytes) → (append_esc r str).size ≤ r.size + length (escape str)
unfolding append_esc
append_esc-le r [] = omega arith
append_esc-le r (c ∷ str) =
    ground (
      arith,
      append_esc-le (push r (escape_byte c)) str,
      length-append (escape_byte c) (escape str),
    )
