-- ===== src/Examples/Network.antt =====
-- The network policy and the router at concrete requests.
use skrun.Base.{◌≡◌, refl, true, [], ◌∷◌, inl, inr, arith, ℕ_discrete}
use skrun.Network.Codes.{codes}
use skrun.Network.{is_private_host, is_host_allowed}
use skrun.Network.Private.{is_private_host-dotted, dotted}
use skrun.Network.Allowed.{is_host_allowed_iff}

is_private_host-dotted_example : is_private_host (dotted 100 64 0 1) ≡ true
unfolding ℕ_discrete
is_private_host-dotted_example = is_private_host-dotted 100 64 0 1 (omega arith) (omega arith)

is_host_allowed_iff_example :
    is_host_allowed (codes "api.GitHub.com") (codes "*.github.com" ∷ []) ≡ true
unfolding is_private_host ℕ_discrete
is_host_allowed_iff_example =
    (is_host_allowed_iff (codes "api.GitHub.com") (codes "*.github.com" ∷ [])).1
      (refl, inl (inr (inr (b'a', codes "pi", codes "github.com", refl, refl))))
