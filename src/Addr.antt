-- ===== src/Addr.antt =====
-- `std::net::IpAddr` and `SocketAddr`, as far as the program reads them: an IPv4 address is a u32 and
-- an IPv6 address a u128, in host order.
use mint_connect_unit.Prelude.{
  ℕ, ◌/◌, ◌^◌, ◌≡◌, ◌↔◌, Bool, true, false, ◌&&◌, ◌||◌, arith, eqb, eqb_iff, Key,
}

pub data IpAddr : Type 0 where
  v4 : ℕ → IpAddr
  v6 : ℕ → IpAddr

pub record SocketAddr : Type 0 where
  pub ip : IpAddr
  pub port : ℕ

abbrev pub same_ip : IpAddr → IpAddr → Bool
same_ip (v4 a) (v4 b) = eqb a b
same_ip (v4 a) (v6 b) = false
same_ip (v6 a) (v4 b) = false
same_ip (v6 a) (v6 b) = eqb a b

abbrev pub same_addr : SocketAddr → SocketAddr → Bool
same_addr a b = same_ip a.ip b.ip && eqb a.port b.port

pub same_ip_iff : (a b : IpAddr) → (same_ip a b ≡ true) ↔ (a ≡ b)
same_ip_iff (v4 a) (v4 b) = ground arith
same_ip_iff (v4 a) (v6 b) = ground arith
same_ip_iff (v6 a) (v4 b) = ground arith
same_ip_iff (v6 a) (v6 b) = ground arith

pub same_addr_iff : (a b : SocketAddr) → (same_addr a b ≡ true) ↔ (a ≡ b)
same_addr_iff a b = ground (arith, same_ip_iff a.ip b.ip, eqb_iff a.port b.port)

instance abbrev pub ip_key : Key IpAddr
ip_key = record { same = same_ip; same_iff = same_ip_iff }

instance abbrev pub addr_key : Key SocketAddr
addr_key = record { same = same_addr; same_iff = same_addr_iff }

-- `Ipv4Addr::is_private`: 10/8, 172.16/12 and 192.168/16.
unfoldable pub is_private_v4 : ℕ → Bool
is_private_v4 a = eqb (a / 2 ^ 24) 10 || eqb (a / 2 ^ 20) 0xac1 || eqb (a / 2 ^ 16) 0xc0a8

-- `is_rfc1918_private_ip`
unfoldable pub is_rfc1918_private_ip : IpAddr → Bool
unfolding is_private_v4
is_rfc1918_private_ip (v4 a) = is_private_v4 a
is_rfc1918_private_ip (v6 a) = false
