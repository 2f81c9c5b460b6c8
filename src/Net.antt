-- ===== src/Net.antt =====
-- src/net.c: the network of the new namespace.
pub mod Up
use sandals.Prelude.{ℕ, ◌+◌, ◌/◌, ◌%◌, codes, ◌==◌, if◌then◌else◌}
use sandals.Os.{
  Kernel, M, pure, ◌>>=◌, close, socket_inet, get_flags, set_flags, set_hostname, set_domainname,
}
use sandals.Fail.{call_checked}
use sandals.Request.{Request}

-- `flags | bit`, for a bit that is a power of two.
unfoldable pub with_bit : ℕ → ℕ → ℕ
with_bit bit flags = if (flags / bit) % 2 == 1 then flags else flags + bit

abbrev pub iff_up : ℕ
iff_up = 1

abbrev pub iff_running : ℕ
iff_running = 0x40

module _ (k : Kernel) (response_fd fuel : ℕ) where
  -- Brings the interface `lo` up.
  unfoldable pub enable_loopback : M (Unit {0})
  unfolding with_bit
  enable_loopback = do
    s ← call_checked k response_fd fuel (codes "socket") socket_inet
    flags ←
        call_checked k response_fd fuel (codes "Enabling loopback network interface") (get_flags s)
    _ ←
        call_checked k response_fd fuel (codes "Enabling loopback network interface")
          (set_flags s (with_bit iff_running (with_bit iff_up flags)))
    close s

  unfoldable pub configure_net : Request → M (Unit {0})
  unfolding enable_loopback
  configure_net request = do
    _ ← enable_loopback
    _ ← call_checked k response_fd fuel (codes "sethostname") (set_hostname request.host_name)
    _ ← call_checked k response_fd fuel (codes "setdomainname") (set_domainname request.domain_name)
    pure tt
