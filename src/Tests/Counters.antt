-- ===== src/Tests/Counters.antt =====
-- The counters of cgroup events files.
use sandals.Prelude.{◌≡◌, refl, true, false, [], ◌∷◌, ◌++◌, List, Bytes, codes, arith}
use sandals.Os.{returns}
use sandals.Counter.{
  matching, scan, scan_read, scan_reads, enter, advance, cgroup_counter_nonzero, read_size,
}
use sandals.Counter.Reference.{counter_positive, strip, positive_after, IsWord, key_of}
use sandals.Counter.Chunks.{Unbroken, join, scan_reads-counter_positive, counter_missed}
use sandals.Counter.Read.{
  Answers, Holds, cgroup_counter_nonzero-Answers, cgroup_counter_nonzero-counter_positive,
}
use sandals.Tests.Kernels.{obedient}

abbrev word : Bytes
word = codes "oom_kill"

abbrev events : Bytes
events = codes "low 0\nmax 12\noom 1\noom_kill 3\n"

word-IsWord : IsWord word
word-IsWord = ground arith

cgroup_counter_nonzero-counter_positive_example :
    (cgroup_counter_nonzero (obedient events) 1 100 5 (key_of word) (codes "memory.events") 4 []).0
    ≡ returns (counter_positive (key_of word) true events)
cgroup_counter_nonzero-counter_positive_example =
    cgroup_counter_nonzero-counter_positive (obedient events) 1 100 5 word (codes "memory.events")
      events 2 [] word-IsWord (λ t offset. refl) (omega arith)

counter_positive-events : counter_positive (key_of word) true events ≡ true
unfolding counter_positive strip positive_after
counter_positive-events = refl

events-Holds : Holds (obedient events) 5 events
events-Holds = record {
  size = λ t offset. read_size;
  serves = λ t offset. refl;
  some_bytes = λ t offset. omega arith;
}

cgroup_counter_nonzero-Answers_example :
    Answers
      (key_of word)
      (matching 0)
      events
      (cgroup_counter_nonzero (obedient events) 1 100 5 (key_of word) (codes "memory.events") 60 [])
cgroup_counter_nonzero-Answers_example =
    cgroup_counter_nonzero-Answers (obedient events) 1 100 5 (key_of word) (codes "memory.events")
      events 60 [] events-Holds (omega arith)

abbrev halves : List Bytes
halves = codes "low 0\noom_k" ∷ codes "ill 3\n" ∷ []

halves-Unbroken : Unbroken (key_of word) (matching 0) halves
unfolding scan advance
halves-Unbroken = ground arith

scan_reads-counter_positive_example :
    scan_reads (key_of word) (matching 0) halves ≡ counter_positive (key_of word) true (join halves)
scan_reads-counter_positive_example =
    scan_reads-counter_positive word halves word-IsWord halves-Unbroken

counter_missed_example :
    (scan_reads (key_of word) (matching 0) (codes "low 0\noom_kill " ∷ codes "3\n" ∷ [])
      ≡ counter_positive (key_of word) false (codes "\n"))
    × (counter_positive (key_of word) true (codes "low 0\noom_kill " ++ codes "3\n") ≡ true)
unfolding scan_read scan enter advance
counter_missed_example =
    counter_missed word (codes "low 0\noom_kill ") (codes "\n") b'3' word-IsWord refl refl
