-- ===== src/Addresses/Examples.antt =====
-- Addresses to try the models of app/backend/src/middleware/auth.js on.
use red_man.Common.{
  ℕ, ◌≡◌, ◌↔◌, refl, inr, Bool, true, Option, none, some, List, [], ◌∷◌, ◌++◌, take,
}
use red_man.Common.Text.{codes}
use red_man.Addresses.{
  split_at, mapped, ip_to_bytes, in_cidr, decimal, networks, is_trusted_proxy, same_prefix,
  get_auth_client_ip, forwarded,
}
use red_man.Addresses.Prefix.{bits_of}
use red_man.Addresses.Networks.{in_cidr_iff}
use red_man.Addresses.Forwarded.{get_auth_client_ip_unforged}

abbrev number : List ℕ → Option ℕ
number s = some (decimal 0 s)

abbrev no_hex : List ℕ → Option ℕ
no_hex s = none

abbrev trusted : List ℕ → Bool
unfolding is_trusted_proxy
trusted = is_trusted_proxy number no_hex (networks (codes "10.0.0.0/8" ∷ []))

in_cidr_iff_example :
    (in_cidr number no_hex (codes "10.1.2.3") (codes "10.0.0.0/8") ≡ true)
    ↔ (take 104 (bits_of (mapped 10 1 2 3)) ≡ take 104 (bits_of (mapped 10 0 0 0)))
unfolding split_at ip_to_bytes
in_cidr_iff_example =
    in_cidr_iff number no_hex (codes "10.1.2.3") (codes "10.0.0.0/8") (codes "10.0.0.0")
      (some (codes "8")) 8 (mapped 10 1 2 3) (mapped 10 0 0 0) refl refl refl refl

get_auth_client_ip_unforged_example :
    get_auth_client_ip
      (λ s. s)
      trusted
      (codes "10.0.0.1")
      (codes "1.1.1.1,2.2.2.2" ++ b',' ∷ codes "9.9.9.9,10.0.0.2")
    ≡ get_auth_client_ip (λ s. s) trusted (codes "10.0.0.1") (codes "9.9.9.9,10.0.0.2")
unfolding is_trusted_proxy in_cidr ip_to_bytes same_prefix split_at forwarded
get_auth_client_ip_unforged_example =
    get_auth_client_ip_unforged (λ s. s) trusted (codes "10.0.0.1") (codes "1.1.1.1,2.2.2.2")
      (codes "9.9.9.9,10.0.0.2") (inr (codes "9.9.9.9", refl))
