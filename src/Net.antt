-- ===== src/Net.antt =====
-- What the program uses of the package `net`: addresses, as ParseIP returns them, and networks.
use kanyigo.Base.{ℕ, ◌-◌, ◌/◌, ◌^◌, String, Bool, true, false, ◌||◌, Option, List, [], ◌∷◌, ◌==◌}

-- The value of the 4 bytes of an address that has a `To4`, and of the 16 bytes of another.
pub data Ip : Type 0 where
  v4 : ℕ → Ip
  v6 : ℕ → Ip

-- The text of an address, read and written, and the host of `host:port`.
pub record Texts : Type 0 where
  pub parse_ip : String → Option Ip
  pub ip_string : Ip → String
  pub split_host_port : String → Option String

unfoldable pub is_loopback : Ip → Bool
is_loopback (v4 n) = n / 2 ^ 24 == 127
is_loopback (v6 n) = n == 1

unfoldable pub is_unspecified : Ip → Bool
is_unspecified (v4 n) = n == 0
is_unspecified (v6 n) = n == 0

unfoldable pub is_multicast : Ip → Bool
is_multicast (v4 n) = n / 2 ^ 28 == 14
is_multicast (v6 n) = n / 2 ^ 120 == 255

-- `ip.To4() != nil`
abbrev pub is_v4 : Ip → Bool
is_v4 (v4 n) = true
is_v4 (v6 n) = false

-- `ip.Equal(other)`
abbrev pub equal : Ip → Ip → Bool
equal (v4 m) (v4 n) = m == n
equal (v6 m) (v6 n) = m == n
equal (v4 m) (v6 n) = false
equal (v6 m) (v4 n) = false

-- A network in CIDR notation.
pub record IpNet : Type 0 where
  pub ip : Ip
  pub ones : ℕ

-- `network.Contains(ip)`
same_network : ℕ → Ip → Ip → Bool
same_network ones (v4 m) (v4 n) = m / 2 ^ (32 - ones) == n / 2 ^ (32 - ones)
same_network ones (v6 m) (v6 n) = m / 2 ^ (128 - ones) == n / 2 ^ (128 - ones)
same_network ones (v4 m) (v6 n) = false
same_network ones (v6 m) (v4 n) = false

-- containsIP, and the loops of validateBlockTarget and isTrustedProxy.
unfoldable pub contains_ip : List IpNet → Ip → Bool
unfolding same_network
contains_ip [] ip = false
contains_ip (network ∷ networks) ip =
    same_network network.ones network.ip ip || contains_ip networks ip

-- `ip.IsLoopback() || ip.IsUnspecified() || ip.IsMulticast()`
abbrev pub is_protected : Ip → Bool
is_protected ip = is_loopback ip || is_unspecified ip || is_multicast ip
