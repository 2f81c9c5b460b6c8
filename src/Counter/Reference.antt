-- ===== src/Counter/Reference.antt =====
-- src/supervisor.c: the comment over the state machine, `\w(?P=key)[ ]*[1-9]`, as a function on the
-- whole file, and the machine against it.
use sandals.Prelude.{
  ℕ, ◌≡◌, ◌≢◌, refl, ◌∙◌, Bool, true, false, [], ◌∷◌, ◌++◌, Bytes, arith, length, ◌==◌,
  if◌then◌else◌, Option, none, some,
}
use sandals.Counter.{key_at, is_blank, is_positive}

-- What follows the key: blanks, then a digit that is not 0.
unfoldable pub positive_after : Bytes → Bool
positive_after [] = false
positive_after (c ∷ cs) = if c == b' ' then positive_after cs else is_positive c

-- `key` stands at the front: what is behind it.
unfoldable pub strip : Bytes → Bytes → Option Bytes
strip [] text = some text
strip (x ∷ key) [] = none
strip (x ∷ key) (c ∷ cs) = if c == x then strip key cs else none

-- The first word that begins with the key decides. The flag says that a word begins here.
unfoldable pub counter_positive : Bytes → Bool → Bytes → Bool
counter_positive key start [] = false
counter_positive key start (c ∷ cs) = elim (if start then strip key (c ∷ cs) else none) [
  | some rest ↦ positive_after rest
  | none ↦ counter_positive key (is_blank c) cs
]

-- A key is a word and one blank.
abbrev pub IsWord : Bytes → Type 0
IsWord [] = Unit
IsWord (c ∷ cs) = (is_blank c ≡ false) × (c ≢ 0) × IsWord cs

abbrev pub key_of : Bytes → Bytes
key_of word = word ++ b' ' ∷ []

pub key_at-append : (p q : Bytes) (x : ℕ) → key_at (p ++ x ∷ q) (length p) ≡ x
key_at-append [] q x = refl
key_at-append (c ∷ p) q x = key_at-append p q x

pub key_at-length : (p : Bytes) → key_at p (length p) ≡ 0
key_at-length [] = refl
key_at-length (c ∷ p) = key_at-length p

pub strip-append : (p q text : Bytes) → strip (p ++ q) (p ++ text) ≡ strip q text
unfolding strip
strip-append [] q text = refl
strip-append (c ∷ p) q text = ground (arith, strip-append p q text)

pub IsWord-concat :
    (p : Bytes) (c : ℕ) → IsWord p → is_blank c ≡ false → c ≢ 0 → IsWord (p ++ c ∷ [])
IsWord-concat [] c w b z = (b, z, tt)
IsWord-concat (x ∷ p) c w b z = (w.0, w.1, IsWord-concat p c w.2 b z)

-- No word begins inside a word.
pub counter_positive-word :
    (key p text : Bytes)
    → IsWord p
    → counter_positive key false (p ++ text) ≡ counter_positive key false text
unfolding counter_positive
counter_positive-word key [] text w = refl
counter_positive-word key (c ∷ p) text w = rw w.0 (counter_positive-word key p text w.2)

counter_some :
    (key rest : Bytes) (c : ℕ) (cs : Bytes)
    → strip key (c ∷ cs) ≡ some rest
    → counter_positive key true (c ∷ cs) ≡ positive_after rest
unfolding counter_positive
counter_some key rest c cs e = ground (arith, e)

counter_none :
    (key : Bytes) (c : ℕ) (cs : Bytes)
    → strip key (c ∷ cs) ≡ none
    → counter_positive key true (c ∷ cs) ≡ counter_positive key (is_blank c) cs
unfolding counter_positive
counter_none key c cs e = ground (arith, e)

strip_key : (key p q text : Bytes) → p ++ q ≡ key → strip key (p ++ text) ≡ strip q text
strip_key key p q text cut = rw (← cut) (strip-append p q text)

-- Where the key stands, what is behind it decides.
pub counter_positive-hit :
    (key p q text rest : Bytes)
    → p ++ q ≡ key
    → p ++ text ≢ []
    → strip q text ≡ some rest
    → counter_positive key true (p ++ text) ≡ positive_after rest
counter_positive-hit key [] q [] rest cut ne e = absurd (ne refl)
counter_positive-hit key [] q (c ∷ cs) rest cut ne e =
    counter_some key rest c cs (strip_key key [] q (c ∷ cs) cut ∙ e)
counter_positive-hit key (x ∷ p) q text rest cut ne e =
    counter_some key rest x (p ++ text) (strip_key key (x ∷ p) q text cut ∙ e)

-- Where it does not, the search goes on behind this word.
pub counter_positive-miss :
    (key p q text : Bytes)
    → p ++ q ≡ key
    → IsWord p
    → strip q text ≡ none
    → counter_positive key true (p ++ text) ≡ counter_positive key false text
unfolding counter_positive
counter_positive-miss key [] q [] cut w e = refl
counter_positive-miss key [] q (c ∷ cs) cut w e =
    counter_none key c cs (strip_key key [] q (c ∷ cs) cut ∙ e)
counter_positive-miss key (x ∷ p) q text cut w e =
    counter_none key x (p ++ text) (strip_key key (x ∷ p) q text cut ∙ e)
    ∙ rw w.0 (counter_positive-word key p text w.2)

pub strip_ne :
    (x : ℕ) (q : Bytes) (c : ℕ) (cs : Bytes) → (c == x) ≡ false → strip (x ∷ q) (c ∷ cs) ≡ none
unfolding strip
strip_ne x q c cs e = rw e

pub strip_last : (x c : ℕ) (cs : Bytes) → (c == x) ≡ true → strip (x ∷ []) (c ∷ cs) ≡ some cs
unfolding strip
strip_last x c cs e = rw e

pub append_cons_ne : (p : Bytes) (c : ℕ) (cs : Bytes) → p ++ c ∷ cs ≢ []
append_cons_ne [] c cs e = cc
append_cons_ne (x ∷ p) c cs e = cc
