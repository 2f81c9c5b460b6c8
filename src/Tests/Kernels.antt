-- ===== src/Tests/Kernels.antt =====
-- Kernels that the other tests run on.
use sandals.Prelude.{
  ℕ, ◌≡◌, ap, Bytes, codes, length, take, drop, arith, length-take, none, true, ◌∷◌, [],
}
use sandals.Os.{Kernel, Res, ok, err, eagain, einval, enotsock, taken}
use sandals.Os.Laws.{IsDocumented}

-- Every file holds `content`, every write is taken whole, and `splice` is not supported.
abbrev pub obedient : Bytes → Kernel
obedient content = record {
  write = λ t fd bs. ok (length bs);
  read = λ t fd n. ok (take n (drop (length (taken fd t)) content));
  pread = λ t fd n offset. ok (take n (drop offset content));
  splice = λ t from to n. err einval;
  recvfrom = λ t fd n. err eagain;
  recv_size = λ t fd. err enotsock;
  open_file = λ t path. ok 9;
  timerfd_create = λ t. ok 4;
  timerfd_settime = λ t fd time. ok tt;
  poll = λ t fds. ok (true ∷ []);
  recvmsg = λ t fd n. err eagain;
  call = λ t c. ok 7;
  call_pair = λ t c. ok (7, 8);
  readdir = λ t fd. ok none;
  exec_errno = λ t. none;
  pid = 42;
  strerror = λ e. codes "error";
}

pub ok_eq : (a b : ℕ) → ◌≡◌ {A = Res ℕ} (ok a) (ok b) → a ≡ b
ok_eq a b e = cc

ok_bytes : (a b : Bytes) → ◌≡◌ {A = Res Bytes} (ok a) (ok b) → a ≡ b
ok_bytes a b e = cc

pub obedient-IsDocumented : (content : Bytes) → IsDocumented (obedient content)
obedient-IsDocumented content = record {
  write_some = λ t fd bs n e h. omega (arith, ok_eq (length bs) n e);
  write_le = λ t fd bs n e. omega (arith, ok_eq (length bs) n e);
  splice_le = λ t from to n bs e. cc;
  recvmsg_le = λ t fd n m e. cc;
  read_le = λ t fd n bs e.
      omega
        (arith, ap length (ok_bytes _ bs e), length-take n (drop (length (taken fd t)) content));
}
