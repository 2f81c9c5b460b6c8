-- ===== src/Response/Escape.antt =====
-- The escapes of `response_append_esc`, read back by the rules of JSON.
use mathlib.Core.Option
use sandals.Prelude.{
  ℕ, zero, suc, ◌+◌, ◌-◌, ◌*◌, ◌/◌, ◌%◌, ◌<◌, ◌≡◌, refl, ◌∙◌, ◌&&◌, ◌||◌, [], ◌∷◌, ◌++◌, Bytes,
  Option, none, some, arith, ltb, leb, ◌==◌, if◌then◌else◌,
}
use sandals.Response.{hex, escape_byte}

-- The body of a JSON string, read byte by byte.
pub data Mode : Type 0 where
  plain escaped : Mode
  digits : ℕ → ℕ → Mode

pub data Step : Type 0 where
  refuse : Step
  eat : Mode → Step
  emit : ℕ → Step

hex_value : ℕ → Option ℕ
hex_value c =
    if leb b'0' c && leb c b'9'
    then some (c - b'0')
    else if leb b'a' c && leb c b'f'
    then some (c - b'a' + 10)
    else if leb b'A' c && leb c b'F'
    then some (c - b'A' + 10)
    else none

-- `left` hexadecimal digits are still to come, after those that make up `v`.
hex_step : ℕ → ℕ → Option ℕ → Step
hex_step left v none = refuse
hex_step zero v (some d) = refuse
hex_step (suc zero) v (some d) = emit (v * 16 + d)
hex_step (suc (suc left)) v (some d) = eat (digits (suc left) (v * 16 + d))

unfoldable pub step : Mode → ℕ → Step
unfolding hex_value hex_step
step plain c =
    if c == b'\\' then eat escaped else if ltb c 0x20 || c == b'"' then refuse else emit c
step escaped c =
    if c == b'"' || c == b'\\' || c == b'/'
    then emit c
    else if c == b'b'
    then emit 8
    else if c == b'f'
    then emit 12
    else if c == b'n'
    then emit 10
    else if c == b'r'
    then emit 13
    else if c == b't'
    then emit 9
    else if c == b'u'
    then eat (digits 4 0)
    else refuse
step (digits left v) c = hex_step left v (hex_value c)

pub unescape : Mode → Bytes → Option Bytes
unescape plain [] = some []
unescape _ [] = none
unescape m (c ∷ cs) = elim (step m c) [
  | refuse ↦ none
  | eat m' ↦ unescape m' cs
  | emit b ↦ Option.map (λ bs. b ∷ bs) (unescape plain cs)
]

-- What is appended for a whole string.
abbrev pub escape : Bytes → Bytes
escape [] = []
escape (c ∷ cs) = escape_byte c ++ escape cs

-- A hexadecimal digit is read back.
hex_value-hex : (d : ℕ) → d < 16 → hex_value (hex d) ≡ some d
unfolding hex_value hex
hex_value-hex zero h = refl
hex_value-hex (suc zero) h = refl
hex_value-hex (suc (suc zero)) h = refl
hex_value-hex (suc (suc (suc zero))) h = refl
hex_value-hex (suc (suc (suc (suc zero)))) h = refl
hex_value-hex (suc (suc (suc (suc (suc zero))))) h = refl
hex_value-hex (suc (suc (suc (suc (suc (suc zero)))))) h = refl
hex_value-hex (suc (suc (suc (suc (suc (suc (suc zero))))))) h = refl
hex_value-hex (suc (suc (suc (suc (suc (suc (suc (suc zero)))))))) h = refl
hex_value-hex (suc (suc (suc (suc (suc (suc (suc (suc (suc zero))))))))) h = refl
hex_value-hex (suc (suc (suc (suc (suc (suc (suc (suc (suc (suc zero)))))))))) h = refl
hex_value-hex (suc (suc (suc (suc (suc (suc (suc (suc (suc (suc (suc zero))))))))))) h = refl
hex_value-hex (suc (suc (suc (suc (suc (suc (suc (suc (suc (suc (suc (suc zero)))))))))))) h = refl
hex_value-hex (suc (suc (suc (suc (suc (suc (suc (suc (suc (suc (suc (suc (suc zero))))))))))))) h =
    refl
hex_value-hex
      (suc (suc (suc (suc (suc (suc (suc (suc (suc (suc (suc (suc (suc (suc zero)))))))))))))) h =
    refl
hex_value-hex
      (suc (suc (suc (suc (suc (suc (suc (suc (suc (suc (suc (suc (suc (suc (suc zero)))))))))))))))
      h =
    refl
hex_value-hex
      (suc
        (suc (suc (suc (suc (suc (suc (suc (suc (suc (suc (suc (suc (suc (suc (suc n))))))))))))))))
      h =
    absurd (omega arith)

abbrev then_byte : ℕ → Option Bytes → Option Bytes
then_byte c = Option.map (λ bs. c ∷ bs)

-- A `\u00..` escape of two digits is read back as the byte that they make up.
unescape_u :
    (x y a b : ℕ) (rest : Bytes)
    → hex_value x ≡ some a
    → hex_value y ≡ some b
    → unescape plain (b'\\' ∷ b'u' ∷ b'0' ∷ b'0' ∷ x ∷ y ∷ rest)
      ≡ then_byte ((0 * 16 + 0) * 16 * 16 + a * 16 + b) (unescape plain rest)
unfolding unescape step
unescape_u x y a b rest ex ey = ground arith

-- What is stored for one byte is read back as that byte, whatever follows.
unescape-escape_byte :
    (c : ℕ) (rest : Bytes)
    → unescape plain (escape_byte c ++ rest) ≡ then_byte c (unescape plain rest)
unfolding unescape step escape_byte
unescape-escape_byte c rest = ground (
  arith,
  unescape_u (hex (c / 16)) (hex (c % 16)) (c / 16) (c % 16) rest,
  hex_value-hex (c / 16),
  hex_value-hex (c % 16),
)

-- The text stored for a string is the body of a JSON string that reads back as the same bytes.
pub unescape-escape : (str : Bytes) → unescape plain (escape str) ≡ some str
unfolding unescape
unescape-escape [] = refl
unescape-escape (c ∷ str) = unescape-escape_byte c (escape str) ∙ rw (unescape-escape str)
