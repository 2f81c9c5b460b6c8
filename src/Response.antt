-- ===== src/Response.antt =====
-- src/response.c: the response that is built up in a fixed buffer.
pub mod Escape
pub mod Bounds
use sandals.Prelude.{
  ℕ, zero, suc, ◌+◌, ◌/◌, ◌%◌, Bool, ◌&&◌, ◌||◌, not, List, [], ◌∷◌, ◌++◌, Bytes, codes, length,
  get_elem?, Option, none, some, ltb, leb, ◌==◌, if◌then◌else◌,
}

-- `sizeof response->buf`, which is PIPE_BUF, and `sizeof response->overflow`.
abbrev pub buf_size : ℕ
buf_size = 4096

abbrev pub overflow_size : ℕ
overflow_size = 8

-- `buf` holds what has been stored, from the start of the buffer. `size` runs ahead of it once a
-- text did not fit.
pub record Response : Type 0 where
  pub size : ℕ
  pub buf : Bytes

-- `response->size = 0`.
abbrev pub empty : Response
empty = record { size = 0; buf = [] }

-- The bytes `out` are stored at the end, which moves on.
abbrev pub push : Response → Bytes → Response
push r out = record { size = r.size + length out; buf = r.buf ++ out }

unfoldable pub append_raw : Response → Bytes → Response
append_raw r str =
    let size = r.size + length str in
    record { size = size; buf = if leb size buf_size then r.buf ++ str else r.buf }

-- `hex[d]`.
pub hex : ℕ → ℕ
hex d = elim (get_elem? (codes "0123456789abcdef") d) [ none ↦ 0 | some c ↦ c ]

abbrev backslashed : ℕ → Bytes
backslashed c = b'\\' ∷ c ∷ []

-- What the loop stores for one byte.
unfoldable pub escape_byte : ℕ → Bytes
unfolding hex
escape_byte c =
    if not (ltb c 0x20) && not (c == b'\\') && not (c == b'"')
    then c ∷ []
    else if c == b'"' || c == b'\\'
    then backslashed c
    else if c == 8
    then backslashed b'b'
    else if c == 12
    then backslashed b'f'
    else if c == 10
    then backslashed b'n'
    else if c == 13
    then backslashed b'r'
    else if c == 9
    then backslashed b't'
    else b'\\' ∷ b'u' ∷ b'0' ∷ b'0' ∷ hex (c / 16) ∷ hex (c % 16) ∷ []

-- `p` is `r.size`, and `e` is the start of `overflow`.
unfoldable pub append_esc : Response → Bytes → Response
append_esc r [] = r
append_esc r (c ∷ str) =
    let rest = append_esc (push r (escape_byte c)) str in if ltb r.size buf_size then rest else r

-- The digits of `%d`; the fuel is the number itself, which has fewer digits.
unfoldable pub decimal_on : ℕ → ℕ → Bytes → Bytes
decimal_on zero n rest = (b'0' + n % 10) ∷ rest
decimal_on (suc f) n rest =
    let more = decimal_on f (n / 10) ((b'0' + n % 10) ∷ rest) in
    if ltb n 10 then (b'0' + n) ∷ rest else more

unfoldable pub decimal : ℕ → Bytes
unfolding decimal_on
decimal n = decimal_on n n []

-- Every caller passes an exit code or a signal number, which are not negative.
unfoldable pub append_int : Response → ℕ → Response
append_int r value = append_raw r (decimal value)
