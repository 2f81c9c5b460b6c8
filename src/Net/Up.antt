-- ===== src/Net/Up.antt =====
-- src/net.c: the calls of `configure_net`.
use sandals.Prelude.{ℕ, ◌/◌, ◌%◌, ◌≡◌, refl, ◌∷◌, arith, Bool-cases, inl, inr, ◌==◌}
use sandals.Os.{
  Kernel, Trace, ok, closed, called, socket_inet, get_flags, set_flags, set_hostname,
  set_domainname,
}
use sandals.Os.Returning.{Returning, Returning-bind, then-Returning}
use sandals.Fail.Never.{call_checked-Returning}
use sandals.Request.{Request}
use sandals.Net.{with_bit, iff_up, iff_running, enable_loopback, configure_net}

-- The two bits are set, and all others are as they were.
pub record IsUp (flags new : ℕ) : Type 0 where
  pub up : new % 2 ≡ 1
  pub is_running : new / 64 % 2 ≡ 1
  pub between : new / 2 % 32 ≡ flags / 2 % 32
  pub above : new / 128 ≡ flags / 128

abbrev pub up_flags : ℕ → ℕ
up_flags flags = with_bit iff_running (with_bit iff_up flags)

with_bit-up : (flags : ℕ) → (with_bit 1 flags % 2 ≡ 1) × (with_bit 1 flags / 2 ≡ flags / 2)
unfolding with_bit
with_bit-up flags = elim (Bool-cases (flags / 1 % 2 == 1)) [
  | inl set ↦ rw set (ground (arith, set), refl)
  | inr clear ↦ rw clear (ground (arith, clear), ground (arith, clear))
]

with_bit-running :
    (flags : ℕ)
    → (with_bit 64 flags / 64 % 2 ≡ 1)
      × (with_bit 64 flags % 64 ≡ flags % 64)
      × (with_bit 64 flags / 128 ≡ flags / 128)
unfolding with_bit
with_bit-running flags = elim (Bool-cases (flags / 64 % 2 == 1)) [
  | inl set ↦ rw set (ground (arith, set), refl, refl)
  | inr clear ↦ rw clear (ground (arith, clear), omega arith, ground (arith, clear))
]

up_flags-IsUp : (flags : ℕ) → IsUp flags (up_flags flags)
up_flags-IsUp flags =
    let (up, rest) = with_bit-up flags in
    let (run, low, high) = with_bit-running (with_bit 1 flags) in
    record {
      up = omega (arith, up, low);
      is_running = run;
      between = omega (arith, rest, low);
      above = omega (arith, rest, high);
    }

-- The calls on the interface.
abbrev pub raised : ℕ → ℕ → ℕ → Trace → Trace
raised s flags a t =
    closed s
    ∷ called (set_flags s (up_flags flags)) (ok a)
    ∷ called (get_flags s) (ok flags)
    ∷ called socket_inet (ok s)
    ∷ t

abbrev Raised : Trace → Unit {0} → Trace → Type 0
Raised t _ t' = (s flags a : ℕ) × (t' ≡ raised s flags a t)

abbrev pub Configured : Request → Trace → Unit {0} → Trace → Type 0
Configured request t _ t' =
    (s flags a b c : ℕ) × (t'
      ≡ called (set_domainname request.domain_name) (ok c)
        ∷ called (set_hostname request.host_name) (ok b)
        ∷ raised s flags a t)
    × IsUp flags (up_flags flags)

module _ (k : Kernel) (response_fd fuel : ℕ) where
  enable_loopback-Returning :
      (t : Trace) → Returning (Raised t) (enable_loopback k response_fd fuel t)
  unfolding enable_loopback
  enable_loopback-Returning t =
      then-Returning (λ s. called socket_inet (ok s) ∷ t) _ _ _
        (call_checked-Returning k response_fd fuel _ socket_inet t)
        (λ s.
          then-Returning (λ flags. called (get_flags s) (ok flags) ∷ _) _ _ _
            (call_checked-Returning k response_fd fuel _ (get_flags s) _)
            (λ flags.
              then-Returning (λ a. called (set_flags s (up_flags flags)) (ok a) ∷ _) _ _ _
                (call_checked-Returning k response_fd fuel _ (set_flags s (up_flags flags)) _)
                (λ a. (s, flags, a, refl))))

  -- Whenever `configure_net` returns, it has made just these calls: it has set the flags of `lo` to
  -- those that it got with IFF_UP and IFF_RUNNING added and no other bit changed, closed the socket,
  -- and set the names of the host and the domain to those of the request.
  pub configure_net-Returning :
      (request : Request) (t : Trace)
      → Returning (Configured request t) (configure_net k response_fd fuel request t)
  unfolding configure_net
  configure_net-Returning request t =
      Returning-bind (Raised t) _ _ _ (enable_loopback-Returning t) (λ _ u (s, flags, a, e).
        then-Returning (λ b. called (set_hostname request.host_name) (ok b) ∷ u) _ _ _
          (call_checked-Returning k response_fd fuel _ (set_hostname request.host_name) u)
          (λ b.
            then-Returning (λ c. called (set_domainname request.domain_name) (ok c) ∷ _) _ _ _
              (call_checked-Returning k response_fd fuel _ (set_domainname request.domain_name) _)
              (λ c. (s, flags, a, b, c, rw e refl, up_flags-IsUp flags))))
