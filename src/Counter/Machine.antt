-- ===== src/Counter/Machine.antt =====
-- src/supervisor.c: the state machine of `cgroup_counter_nonzero` on a file that is read at once.
use sandals.Prelude.{
  ℕ, ◌+◌, ◌≡◌, ◌≢◌, refl, sym, ap, ◌∙◌, Bool, true, false, [], ◌∷◌, ◌++◌, append_assoc,
  length-append, Bytes, arith, length, ◌==◌, if◌then◌else◌, Bool-cases, inl, inr,
}
use sandals.Counter.{
  Mode, matching, skipping, Step, go, stop, key_at, is_blank, is_positive, skip_step, advance, scan,
}
use sandals.Counter.{scan_read, enter}
use sandals.Counter.Reference.{
  positive_after, strip, counter_positive, IsWord, key_of, key_at-append, key_at-length,
  IsWord-concat, counter_positive-hit, counter_positive-miss, strip_ne, strip_last, append_cons_ne,
}

-- The verdict of the machine on a file that is read at once.
abbrev pub verdict : Step → Bool
verdict (go m) = false
verdict (stop b) = b

-- The rest of a read, after one byte.
abbrev resume : Bytes → Bytes → Step → Step
resume key cs (go m) = scan key m cs
resume key cs (stop b) = stop b

scan-resume :
    (key : Bytes) (m : Mode) (c : ℕ) (cs : Bytes) (s : Step)
    → advance key m c ≡ s
    → scan key m (c ∷ cs) ≡ resume key cs s
unfolding scan
scan-resume key m c cs s e = ground (arith, e)

advance-past :
    (key : Bytes) (c : ℕ)
    → advance key (matching (length key)) c
      ≡ (if c == b' ' then go (matching (length key)) else stop (is_positive c))
unfolding advance
advance-past key c = rw (key_at-length key)

advance-at :
    (key : Bytes) (n x c : ℕ)
    → key_at key n ≡ x
    → x ≢ 0
    → advance key (matching n) c ≡ (if c == x then go (matching (n + 1)) else skip_step c)
unfolding advance
advance-at key n x c e ne = ground arith

-- Behind the key the machine decides as the reference does.
pub scan-positive_after :
    (key text : Bytes) → verdict (scan key (matching (length key)) text) ≡ positive_after text
unfolding scan positive_after
scan-positive_after key [] = refl
scan-positive_after key (c ∷ cs) = ground (arith, advance-past key c, scan-positive_after key cs)

module _ (word : Bytes) where
  abbrev sought : Bytes
  sought = key_of word

  -- What the machine finds from each of its modes on.
  abbrev Finds : Bytes → Type 0
  Finds text =
      (verdict (scan sought skipping text) ≡ counter_positive sought false text)
      × ((p w : Bytes)
          → p ++ key_of w ≡ sought
          → IsWord p
          → IsWord w
          → verdict (scan sought (matching (length p)) text)
            ≡ counter_positive sought true (p ++ text))

  advance-skipping :
      (c : ℕ) → advance sought skipping c ≡ (if is_blank c then go (matching 0) else go skipping)
  unfolding advance
  advance-skipping c = refl

  Finds-skip :
      (c : ℕ) (cs : Bytes)
      → IsWord word
      → Finds cs
      → verdict (resume sought cs (skip_step c)) ≡ counter_positive sought (is_blank c) cs
  unfolding skip_step
  Finds-skip c cs w ih = elim (Bool-cases (is_blank c)) [
    | inl blank ↦ rw blank (ih.1 [] word refl tt w)
    | inr inside ↦ rw inside ih.0
  ]

  -- A byte that does not go on with the sought.
  Finds-miss :
      (p q : Bytes) (x c : ℕ) (cs : Bytes)
      → p ++ x ∷ q ≡ sought
      → x ≢ 0
      → IsWord p
      → IsWord word
      → (c == x) ≡ false
      → Finds cs
      → verdict (scan sought (matching (length p)) (c ∷ cs))
        ≡ counter_positive sought true (p ++ c ∷ cs)
  unfolding counter_positive
  Finds-miss p q x c cs cut ne wp w other ih =
      let at : key_at sought (length p) ≡ x = rw (← cut) (key_at-append p q x) in
      ap verdict (
        scan-resume sought (matching (length p)) c cs (skip_step c)
          (advance-at sought (length p) x c at ne ∙ rw other))
      ∙ Finds-skip c cs w ih
      ∙ sym (counter_positive-miss sought p (x ∷ q) (c ∷ cs) cut wp (strip_ne x q c cs other))

  -- A byte that does.
  scan-match :
      (p q : Bytes) (x c : ℕ) (cs : Bytes)
      → p ++ x ∷ q ≡ sought
      → x ≢ 0
      → (c == x) ≡ true
      → scan sought (matching (length p)) (c ∷ cs) ≡ scan sought (matching (length p + 1)) cs
  scan-match p q x c cs cut ne same =
      let at : key_at sought (length p) ≡ x = rw (← cut) (key_at-append p q x) in
      scan-resume sought (matching (length p)) c cs (go (matching (length p + 1)))
        (advance-at sought (length p) x c at ne ∙ rw same)

  Finds-match :
      (c : ℕ) (cs p w : Bytes)
      → IsWord word
      → Finds cs
      → p ++ key_of w ≡ sought
      → IsWord p
      → IsWord w
      → verdict (scan sought (matching (length p)) (c ∷ cs))
        ≡ counter_positive sought true (p ++ c ∷ cs)
  Finds-match c cs p [] wd ih cut wp ww = elim (Bool-cases (c == b' ')) [
    | inl same ↦
        let full : length p + 1 ≡ length sought =
          omega (arith, length-append p (b' ' ∷ []), ap length cut) in
        ap verdict {y = scan sought (matching (length sought)) cs}
          (scan-match p [] b' ' c cs cut (omega arith) same ∙ rw full)
        ∙ scan-positive_after sought cs
        ∙ sym (
            counter_positive-hit sought p (b' ' ∷ []) (c ∷ cs) cs cut (append_cons_ne p c cs)
              (strip_last b' ' c cs same))
    | inr other ↦ Finds-miss p [] b' ' c cs cut (omega arith) wp wd other ih
  ]
  Finds-match c cs p (y ∷ w) wd ih cut wp ww = elim (Bool-cases (c == y)) [
    | inl same ↦
        let e : c ≡ y = ground arith in
        let longer : length (p ++ y ∷ []) ≡ length p + 1 =
          omega (arith, length-append p (y ∷ [])) in
        ap verdict {y = scan sought (matching (length (p ++ y ∷ []))) cs}
          (scan-match p (key_of w) y c cs cut ww.1 same ∙ rw (← longer))
        ∙ ih.1 (p ++ y ∷ []) w (append_assoc p (y ∷ []) (key_of w) ∙ cut)
            (IsWord-concat p y wp ww.0 ww.1) ww.2
        ∙ ap (counter_positive sought true) {y = p ++ c ∷ cs} (append_assoc p (y ∷ []) cs ∙ rw e)
    | inr other ↦ Finds-miss p (key_of w) y c cs cut ww.1 wp wd other ih
  ]

  Finds-end :
      (p w : Bytes)
      → p ++ key_of w ≡ sought
      → IsWord p
      → counter_positive sought true (p ++ []) ≡ false
  unfolding counter_positive strip
  Finds-end p [] cut wp = counter_positive-miss sought p (b' ' ∷ []) [] cut wp refl
  Finds-end p (y ∷ w) cut wp = counter_positive-miss sought p (y ∷ key_of w) [] cut wp refl

  scan-Finds : IsWord word → (text : Bytes) → Finds text
  unfolding scan counter_positive advance skip_step
  scan-Finds wd [] = (refl, λ p w cut wp ww. sym (Finds-end p w cut wp))
  scan-Finds wd (c ∷ cs) =
      (Finds-skip c cs wd (scan-Finds wd cs), λ p w. Finds-match c cs p w wd (scan-Finds wd cs))

-- A read may begin in this mode: the key, if it is being matched, is not at its end.
abbrev pub IsInside : Bytes → Mode → Type 0
IsInside key (matching n) = key_at key n ≢ 0
IsInside key skipping = Unit

enter-advance : (key : Bytes) (m : Mode) (c : ℕ) → IsInside key m → enter key m c ≡ advance key m c
unfolding enter advance
enter-advance key (matching n) c h = ground arith
enter-advance key skipping c h = refl

pub scan_read-scan :
    (key : Bytes) (m : Mode) (text : Bytes)
    → IsInside key m
    → scan_read key m text ≡ scan key m text
unfolding scan_read scan
scan_read-scan key m [] h = refl
scan_read-scan key m (c ∷ cs) h = ground (arith, enter-advance key m c h)

pub key_at-zero : (word : Bytes) → IsWord word → key_at (key_of word) 0 ≢ 0
key_at-zero [] w = omega arith
key_at-zero (c ∷ cs) w = w.1

-- A file that one read returns: the first word that begins with the key decides.
pub scan_read-counter_positive :
    (word text : Bytes)
    → IsWord word
    → verdict (scan_read (key_of word) (matching 0) text) ≡ counter_positive (key_of word) true text
scan_read-counter_positive word text w =
    ap verdict (scan_read-scan (key_of word) (matching 0) text (key_at-zero word w))
    ∙ (scan-Finds word w text).1 [] word refl tt w

-- From within a word that does not match.
pub scan-skipping :
    (word text : Bytes)
    → IsWord word
    → verdict (scan (key_of word) skipping text) ≡ counter_positive (key_of word) false text
scan-skipping word text w = (scan-Finds word w text).0
