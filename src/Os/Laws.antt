-- ===== src/Os/Laws.antt =====
-- What the manual pages promise of the calls that the program relies on.
use sandals.Prelude.{ℕ, ◌≤◌, ◌<◌, ◌≡◌, Bytes, length}
use sandals.Os.Calls.{Kernel, Trace, ok, Message}

pub record IsDocumented (k : Kernel) : Type 0 where
  -- A write that succeeds takes at least one byte, and no more than it was given.
  pub write_some :
      (t : Trace) (fd : ℕ) (bs : Bytes) (n : ℕ) → k.write t fd bs ≡ ok n → 0 < length bs → 0 < n
  pub write_le : (t : Trace) (fd : ℕ) (bs : Bytes) (n : ℕ) → k.write t fd bs ≡ ok n → n ≤ length bs
  -- A splice moves at most what it was asked to move.
  pub splice_le :
      (t : Trace) (from to n : ℕ) (bs : Bytes) → k.splice t from to n ≡ ok bs → length bs ≤ n
  -- A message is cut to the size of the buffer.
  pub recvmsg_le :
      (t : Trace) (fd n : ℕ) (m : Message) → k.recvmsg t fd n ≡ ok m → length m.body ≤ n
  -- A read returns at most what the buffer holds.
  pub read_le : (t : Trace) (fd n : ℕ) (bs : Bytes) → k.read t fd n ≡ ok bs → length bs ≤ n
