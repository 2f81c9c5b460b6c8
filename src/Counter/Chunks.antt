-- ===== src/Counter/Chunks.antt =====
-- src/supervisor.c: `cgroup_counter_nonzero` on a file that takes several reads.
use sandals.Prelude.{
  ℕ, ◌≡◌, refl, sym, ap, ◌∙◌, Bool, true, false, List, [], ◌∷◌, ◌++◌, Bytes, arith, length,
}
use sandals.Counter.{
  Mode, matching, skipping, Step, go, stop, is_positive, skip_step, match_step, enter, advance,
  scan, scan_read, scan_reads,
}
use sandals.Counter.Reference.{positive_after, counter_positive, IsWord, key_of, key_at-length}
use sandals.Counter.Machine.{
  verdict, IsInside, scan_read-scan, scan-skipping, key_at-zero, scan-positive_after,
  scan_read-counter_positive,
}

-- The whole file.
abbrev pub join : List Bytes → Bytes
join [] = []
join (r ∷ rs) = r ++ join rs

-- A condition on the mode that a read leaves, if it leaves one.
abbrev pub AtStep : (Mode → Type 0) → Step → Type 0
AtStep P (go m) = P m
AtStep P (stop b) = Unit

-- No read after the first begins right behind the key or in the blanks that follow it.
abbrev pub Unbroken : Bytes → Mode → List Bytes → Type 0
Unbroken key m [] = Unit
Unbroken key m (r ∷ rs) = IsInside key m × AtStep (λ m'. Unbroken key m' rs) (scan key m r)

abbrev resume : Bytes → Bytes → Step → Step
resume key text (go m) = scan key m text
resume key text (stop b) = stop b

scan-append :
    (key : Bytes) (m : Mode) (a b : Bytes) → scan key m (a ++ b) ≡ resume key b (scan key m a)
unfolding scan
scan-append key m [] b = refl
scan-append key m (c ∷ a) b =
    elim (advance key m c) as (λ s. resume key (a ++ b) s ≡ resume key b (resume key a s)) [
      | go m' ↦ scan-append key m' a b
      | stop v ↦ refl
    ]

abbrev after_read : Bytes → List Bytes → Step → Bool
after_read key rs (go m) = scan_reads key m rs
after_read key rs (stop b) = b

-- Behind the last read there is no verdict but `false`.
no_more : (key : Bytes) (s : Step) → after_read key [] s ≡ verdict s
unfolding scan_reads
no_more key (go m) = refl
no_more key (stop b) = refl

-- Reads that do not break the key off from its number are as good as one read of the whole file.
pub scan_reads-scan :
    (key : Bytes) (m : Mode) (rs : List Bytes)
    → Unbroken key m rs
    → scan_reads key m rs ≡ verdict (scan key m (join rs))
unfolding scan_reads scan
scan_reads-scan key m [] u = refl
scan_reads-scan key m (r ∷ rs) u =
    ap (after_read key rs) (scan_read-scan key m r u.0)
    ∙ (elim (scan key m r)
          as (λ s.
            AtStep (λ m'. Unbroken key m' rs) s
            → after_read key rs s ≡ verdict (resume key (join rs) s)) [
              | go m' ↦ λ v. scan_reads-scan key m' rs v
              | stop v ↦ λ _. refl
            ])
        u.1
    ∙ ap verdict (sym (scan-append key m r (join rs)))

-- For any reads of which none begins right behind the key or in the blanks after it, the machine
-- decides as the reference does on the whole.
pub scan_reads-counter_positive :
    (word : Bytes) (rs : List Bytes)
    → IsWord word
    → Unbroken (key_of word) (matching 0) rs
    → scan_reads (key_of word) (matching 0) rs ≡ counter_positive (key_of word) true (join rs)
scan_reads-counter_positive word rs w u =
    scan_reads-scan (key_of word) (matching 0) rs u
    ∙ sym (ap verdict (scan_read-scan (key_of word) (matching 0) (join rs) (key_at-zero word w)))
    ∙ scan_read-counter_positive word (join rs) w

-- At the start of a read the end of the key is taken for a byte that does not match.
enter_missed :
    (key : Bytes) (d : ℕ) → is_positive d ≡ true → enter key (matching (length key)) d ≡ go skipping
unfolding enter match_step skip_step
enter_missed key d p = ground (arith, key_at-length key)

positive_after-digit : (d : ℕ) (ds : Bytes) → is_positive d ≡ true → positive_after (d ∷ ds) ≡ true
unfolding positive_after
positive_after-digit d ds p = ground arith

missed_read :
    (key ds : Bytes) (d : ℕ)
    → is_positive d ≡ true
    → scan_read key (matching (length key)) (d ∷ ds) ≡ scan key skipping ds
unfolding scan_read
missed_read key ds d p = ground (arith, enter_missed key d p)

-- If a read ends right behind the key, and the next and last one begins with a digit from 1 to 9,
-- the machine decides by what follows that digit, while the reference on the whole is true.
pub counter_missed :
    (word r ds : Bytes) (d : ℕ)
    → IsWord word
    → scan_read (key_of word) (matching 0) r ≡ go (matching (length (key_of word)))
    → is_positive d ≡ true
    → (scan_reads (key_of word) (matching 0) (r ∷ (d ∷ ds) ∷ [])
        ≡ counter_positive (key_of word) false ds)
      × (counter_positive (key_of word) true (r ++ d ∷ ds) ≡ true)
unfolding scan_reads
counter_missed word r ds d w e p =
    let key = key_of word in
    let start = key_at-zero word w in
    let first : scan key (matching 0) r ≡ go (matching (length key)) =
      sym (scan_read-scan key (matching 0) r start) ∙ e in
    (
      ap (after_read key ((d ∷ ds) ∷ [])) e
          ∙ ap (after_read key []) (missed_read key ds d p)
          ∙ no_more key (scan key skipping ds)
          ∙ scan-skipping word ds w,
      sym (scan_read-counter_positive word (r ++ d ∷ ds) w)
          ∙ ap verdict (
              scan_read-scan key (matching 0) (r ++ d ∷ ds) start
              ∙ scan-append key (matching 0) r (d ∷ ds)
              ∙ ap (resume key (d ∷ ds)) first)
          ∙ scan-positive_after key (d ∷ ds)
          ∙ positive_after-digit d ds p,
    )
