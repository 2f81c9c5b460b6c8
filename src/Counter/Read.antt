-- ===== src/Counter/Read.antt =====
-- src/supervisor.c: the loop of `cgroup_counter_nonzero` over the reads of a file.
use sandals.Prelude.{
  ℕ, zero, suc, ◌+◌, ◌-◌, ◌≤◌, ◌<◌, ◌≡◌, refl, sym, ap, subst, ◌∙◌, Bool, true, List, [], ◌∷◌, ◌++◌,
  append-nil, Bytes, arith, length, take, drop, length-drop, take-append-drop, drop-drop,
  drop-length-take, length-append, take_all,
}
use sandals.Os.{Kernel, Trace, M, Outcome, returns, ok, pure}
use sandals.Counter.{
  Mode, matching, Step, go, stop, scan_read, scan_reads, read_size, counter_round, counter_loop,
  cgroup_counter_nonzero,
}
use sandals.Counter.Reference.{counter_positive, IsWord, key_of}
use sandals.Counter.Machine.{verdict, scan_read-counter_positive}
use sandals.Counter.Chunks.{join}

-- The file holds `content`: a read inside it returns some of the bytes at the offset.
pub record Holds (k : Kernel) (fd : ℕ) (content : Bytes) : Type 0 where
  pub size : Trace → ℕ → ℕ
  pub serves :
      (t : Trace) (offset : ℕ)
      → k.pread t fd read_size offset ≡ ok (take (size t offset) (drop offset content))
  pub some_bytes : (t : Trace) (offset : ℕ) → 0 < size t offset

-- The run returns what the machine finds in the file, cut into the reads that were made.
abbrev pub Answers {ℓ} : {A : Type ℓ} → Bytes → Mode → Bytes → Outcome Bool × A → Type 0
Answers key m text (o, t) =
    (rs : List Bytes) × (join rs ≡ text) × (o ≡ returns (scan_reads key m rs))

nil_of_take : (n : ℕ) (xs : Bytes) → 0 < n → ◌≡◌ {A = Bytes} [] (take n xs) → ◌≡◌ {A = Bytes} [] xs
nil_of_take zero xs p e = absurd (omega arith)
nil_of_take (suc n) [] p e = refl
nil_of_take (suc n) (x ∷ xs) p e = cc

-- What a read returned, and the rest of the file.
split_read :
    (n offset : ℕ) (r content : Bytes)
    → r ≡ take n (drop offset content)
    → r ++ drop (offset + length r) content ≡ drop offset content
split_read n offset r content e =
    rw (← drop-drop offset (length r) content, e, drop-length-take n (drop offset content))
      (take-append-drop n (drop offset content))

-- A read that is not empty leaves less of the file.
shorter :
    (offset c : ℕ) (cs content : Bytes)
    → (c ∷ cs) ++ drop (offset + length (c ∷ cs)) content ≡ drop offset content
    → length content - (offset + length (c ∷ cs)) < length content - offset
shorter offset c cs content e = omega (
  arith,
  ap length e,
  length-drop offset content,
  length-drop (offset + length (c ∷ cs)) content,
  length-append (c ∷ cs) (drop (offset + length (c ∷ cs)) content),
)

scan_reads-go :
    (key : Bytes) (m m' : Mode) (r : Bytes) (rs : List Bytes)
    → scan_read key m r ≡ go m'
    → scan_reads key m (r ∷ rs) ≡ scan_reads key m' rs
unfolding scan_reads
scan_reads-go key m m' r rs e = ground (arith, e)

scan_reads-stop :
    (key : Bytes) (m : Mode) (b : Bool) (r : Bytes) (rs : List Bytes)
    → scan_read key m r ≡ stop b
    → scan_reads key m (r ∷ rs) ≡ b
unfolding scan_reads
scan_reads-stop key m b r rs e = ground (arith, e)

module _ (k : Kernel) (response_fd fuel fd : ℕ) (key filename content : Bytes) where
  abbrev after_scan : (Mode → M Bool) → Step → M Bool
  after_scan again (go m) = again m
  after_scan again (stop b) = pure b

  after_scan-Answers :
      (again : Mode → M Bool) (m : Mode) (r rest : Bytes) (t : Trace) (s : Step)
      → scan_read key m r ≡ s
      → ((m' : Mode) → Answers key m' rest (again m' t))
      → Answers key m (r ++ rest) (after_scan again s t)
  after_scan-Answers again m r rest t (go m') e ih =
      let (rs, whole, found) = ih m' in
      (r ∷ rs, rw whole, found ∙ ap returns (sym (scan_reads-go key m m' r rs e)))
  after_scan-Answers again m r rest t (stop b) e ih =
      (r ∷ rest ∷ [], rw append-nil, ap returns (sym (scan_reads-stop key m b r (rest ∷ []) e)))

  round-Answers :
      (again : ℕ → Mode → M Bool) (offset n : ℕ) (m : Mode) (r : Bytes) (t : Trace)
      → r ≡ take n (drop offset content)
      → 0 < n
      → ((offset' : ℕ) (m' : Mode)
          → length content - offset' < length content - offset
          → Answers key m' (drop offset' content) (again offset' m' t))
      → Answers key m
          (drop offset content)
          (counter_round k response_fd fuel fd key filename again offset m (ok r) t)
  unfolding counter_round scan_reads
  round-Answers again offset n m [] t e p ih = ([], nil_of_take n _ p e, refl)
  round-Answers again offset n m (c ∷ cs) t e p ih =
      let split = split_read n offset (c ∷ cs) content e in
      subst
        (λ text.
          Answers key m text
            (after_scan (again (offset + length (c ∷ cs))) (scan_read key m (c ∷ cs)) t))
        split
        (after_scan-Answers (again (offset + length (c ∷ cs))) m (c ∷ cs) _ t _ refl
          (λ m'. ih _ m' (shorter offset c cs content split)))

  counter_loop-Answers :
      (rounds offset : ℕ) (m : Mode) (t : Trace)
      → Holds k fd content
      → length content - offset < rounds
      → Answers key m
          (drop offset content)
          (counter_loop k response_fd fuel fd key filename rounds offset m t)
  unfolding counter_loop
  counter_loop-Answers zero offset m t holds h = absurd (omega arith)
  counter_loop-Answers (suc rounds) offset m t holds h = rw (holds.serves t offset) (
      round-Answers (counter_loop k response_fd fuel fd key filename rounds) offset
        (holds.size t offset) m _ _ refl (holds.some_bytes t offset)
        (λ offset' m' less. counter_loop-Answers rounds offset' m' _ holds (omega arith)))

  -- With more rounds than the file has bytes, the loop returns, and it returns what the machine finds
  -- in some reads that make up the file.
  pub cgroup_counter_nonzero-Answers :
      (rounds : ℕ) (t : Trace)
      → Holds k fd content
      → length content < rounds
      → Answers key
          (matching 0)
          content
          (cgroup_counter_nonzero k response_fd fuel fd key filename rounds t)
  unfolding cgroup_counter_nonzero
  cgroup_counter_nonzero-Answers rounds t holds h =
      counter_loop-Answers rounds 0 (matching 0) t holds (omega arith)

drop_all : (xs : Bytes) → drop (length xs) xs ≡ []
drop_all [] = refl
drop_all (x ∷ xs) = drop_all xs

module _ (k : Kernel) (response_fd fuel fd : ℕ) (word filename content : Bytes) where
  -- A read returns all that is left, up to the size of the buffer.
  abbrev pub ReadsAll : Type 0
  ReadsAll =
      (t : Trace) (offset : ℕ)
      → k.pread t fd read_size offset ≡ ok (take read_size (drop offset content))

  second_round :
      (rounds : ℕ) (c : ℕ) (cs : Bytes) (t : Trace) (s : Step)
      → ReadsAll
      → content ≡ c ∷ cs
      → (after_scan k response_fd fuel fd
          (key_of word)
          filename
          content
          (counter_loop k response_fd fuel fd
            (key_of word)
            filename
            (suc rounds)
            (0 + length (c ∷ cs)))
          s
          t).0
        ≡ returns (verdict s)
  unfolding counter_loop counter_round
  second_round rounds c cs t (go m) all e =
      let at : 0 + length (c ∷ cs) ≡ length content = omega (arith, ap length e) in
      rw (at, all t (length content), drop_all content)
  second_round rounds c cs t (stop b) all e = refl

  first_round :
      (rounds : ℕ) (text : Bytes) (t : Trace)
      → ReadsAll
      → content ≡ text
      → (counter_round k response_fd fuel fd
          (key_of word)
          filename
          (counter_loop k response_fd fuel fd (key_of word) filename (suc rounds))
          0
          (matching 0)
          (ok text)
          t).0
        ≡ returns (verdict (scan_read (key_of word) (matching 0) text))
  unfolding counter_round scan_read
  first_round rounds [] t all e = refl
  first_round rounds (c ∷ cs) t all e =
      second_round rounds c cs t (scan_read (key_of word) (matching 0) (c ∷ cs)) all e

  -- If one read returns the whole file, which holds at most 128 bytes, and the key is a word and a
  -- blank, the answer is whether the first word that begins with the key has a positive number.
  pub cgroup_counter_nonzero-counter_positive :
      (rounds : ℕ) (t : Trace)
      → IsWord word
      → ReadsAll
      → length content ≤ read_size
      → (cgroup_counter_nonzero k response_fd fuel fd (key_of word) filename (suc (suc rounds)) t).0
        ≡ returns (counter_positive (key_of word) true content)
  unfolding cgroup_counter_nonzero counter_loop
  cgroup_counter_nonzero-counter_positive rounds t w all h =
      rw (all t 0, take_all read_size content h)
        (first_round rounds content _ all refl
          ∙ ap returns (scan_read-counter_positive word content w))
