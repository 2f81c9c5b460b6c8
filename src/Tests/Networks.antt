-- ===== src/Tests/Networks.antt =====
-- The network of the default request.
use sandals.Prelude.{ℕ, ◌≡◌, refl, ◌∷◌, [], codes}
use sandals.Os.{called, set_domainname, set_hostname, ok}
use sandals.Os.Returning.{Returning}
use sandals.Request.{default_request}
use sandals.Net.{with_bit, configure_net}
use sandals.Net.Up.{raised, up_flags, IsUp, configure_net-Returning}
use sandals.Tests.Kernels.{obedient}

with_bit_value : up_flags 0x48 ≡ 0x49
unfolding with_bit
with_bit_value = refl

configure_net-Returning_example :
    Returning
      (λ _ t'.
        (s flags a b c : ℕ) × (t'
          ≡ called (set_domainname (codes "sandals")) (ok c)
            ∷ called (set_hostname (codes "sandals")) (ok b)
            ∷ raised s flags a [])
        × IsUp flags (up_flags flags))
      (configure_net (obedient []) 1 100 default_request [])
configure_net-Returning_example = configure_net-Returning (obedient []) 1 100 default_request []
