-- ===== src/Sink/Frames.antt =====
-- src/supervisor.c: the packets of the standard streams, as `stdstreams_pipe_handler` stores them.
use sandals.Prelude.{
  ℕ, ◌+◌, ◌-◌, ◌*◌, ◌/◌, ◌%◌, ◌^◌, ◌≤◌, ◌<◌, ◌≡◌, refl, Bool, true, false, [], ◌∷◌, ◌++◌, Bytes,
  Option, none, some, arith, length, take, drop, leb, if◌then◌else◌, ap,
}
use sandals.Sink.{htonl, framed}

-- The number that four bytes stand for, the most significant first.
abbrev ntohl : ℕ → ℕ → ℕ → ℕ → ℕ
ntohl a b c d = a * 2 ^ 24 + b * 2 ^ 16 + c * 2 ^ 8 + d

-- A reader of the file: whether the first packet is of standard error, its bytes, and what follows.
abbrev pub next_packet : Bytes → Option (Bool × Bytes × Bytes)
next_packet (a ∷ b ∷ c ∷ d ∷ rest) =
    let n = ntohl a b c d in
    if leb (2 ^ 31) n
    then some (true, take (n - 2 ^ 31) rest, drop (n - 2 ^ 31) rest)
    else some (false, take n rest, drop n rest)
next_packet _ = none

ntohl-htonl :
    (n : ℕ)
    → n < 2 ^ 32
    → ntohl (n / 2 ^ 24 % 256) (n / 2 ^ 16 % 256) (n / 2 ^ 8 % 256) (n % 256) ≡ n
ntohl-htonl n h = omega arith

take-append : (xs ys : Bytes) → take (length xs) (xs ++ ys) ≡ xs
take-append [] ys = refl
take-append (x ∷ xs) ys = ap (◌∷◌ x) (take-append xs ys)

drop-append : (xs ys : Bytes) → drop (length xs) (xs ++ ys) ≡ ys
drop-append [] ys = refl
drop-append (x ∷ xs) ys = drop-append xs ys

leb-true : (a b : ℕ) → a ≤ b → leb a b ≡ true
leb-true a b h = ground arith

leb-false : (a b : ℕ) → b < a → leb a b ≡ false
leb-false a b h = ground arith

-- A packet below 2 ^ 31 bytes that has been stored is read back: its stream, its bytes, and what
-- follows it in the file.
pub next_packet-framed :
    (to_stderr : Bool) (body rest : Bytes)
    → length body < 2 ^ 31
    → next_packet (framed to_stderr body ++ rest) ≡ some (to_stderr, body, rest)
unfolding framed htonl
next_packet-framed true body rest h =
    let n = 2 ^ 31 + length body in
    let e : n - 2 ^ 31 ≡ length body = omega arith in
    rw
      (
        ntohl-htonl n (omega arith),
        leb-true (2 ^ 31) n (omega arith),
        e,
        take-append body rest,
        drop-append body rest,
      )
      refl
next_packet-framed false body rest h =
    rw
      (
        ntohl-htonl (length body) (omega arith),
        leb-false (2 ^ 31) (length body) h,
        take-append body rest,
        drop-append body rest,
      )
      refl
