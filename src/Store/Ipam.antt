-- ===== src/Store/Ipam.antt =====
-- AllocateIP and lastAddr of internal/hub/store.go. An IPv4 address is a number below 2 ^ 32.
pub mod Range
pub mod Lowest
use light_pn.Prelude.{
  ℕ, zero, suc, String, ◌+◌, ◌-◌, ◌*◌, ◌/◌, ◌%◌, ◌^◌, Bool, true, false, not, ◌&&◌, ◌||◌, List, [],
  ◌∷◌, ◌++◌, map, Option, none, some, ok, err, ltb, ◌==◌, if◌then◌else◌, ◌is◌, has, keep_if,
}
use light_pn.Prelude.Io.{Io, return, fail, ◌>>=◌, ◌>>◌}
use light_pn.Prelude.Map.{Map}
use light_pn.Store.{Store, StoreError, ipam_exhausted, bad_cidr, Tx}

-- netip.Prefix
pub record Prefix : Type 0 where
  pub addr : ℕ
  pub bits : ℕ

-- what the code uses of net/netip, for IPv4
pub record Netip : Type 0 where
  pub parse_prefix : String → Option Prefix
  pub to_string : ℕ → String

-- the number of host bits
abbrev pub host_bits : Prefix → ℕ
host_bits p = 32 - p.bits

-- p.Masked().Addr()
unfoldable pub network : Prefix → ℕ
network p = p.addr / 2 ^ host_bits p * 2 ^ host_bits p

-- p.Contains(ip)
unfoldable pub contains : Prefix → ℕ → Bool
contains p ip = ip / 2 ^ host_bits p == p.addr / 2 ^ host_bits p

-- a[i/8] |= 1 << (7 - i%8): bit k = 31 - i of the address
unfoldable pub set_bit : ℕ → ℕ → ℕ
set_bit k a = if a / 2 ^ k % 2 == 0 then a + 2 ^ k else a

-- the loop of lastAddr, with `k` bits still to set
unfoldable pub set_bits_below : ℕ → ℕ → ℕ
unfolding set_bit
set_bits_below zero a = a
set_bits_below (suc k) a = set_bits_below k (set_bit k a)

unfoldable pub last_addr : Prefix → ℕ
unfolding set_bits_below network
last_addr p = set_bits_below (host_bits p) (network p)

-- how the scan for a free address ends
pub data Scan : Type 0 where
  found : ℕ → Scan
  exhausted out_of_fuel : Scan

-- the loop over the addresses, `used` being the set of taken texts
unfoldable pub scan : Netip → Prefix → (String → Bool) → ℕ → ℕ → Scan
unfolding contains network last_addr
scan net p used zero ip = out_of_fuel
scan net p used (suc fuel) ip =
    let rest = scan net p used fuel (ip + 1) in
    if not (contains p ip)
    then exhausted
    else if ip == last_addr p
    then exhausted
    else if ip == network p + 1
    then rest
    else if used (net.to_string ip)
    then rest
    else found ip

-- DELETE FROM ip_cooldown WHERE freed_at < now - cooldown
unfoldable pub expire_cooldowns : ℕ → ℕ → Map ℕ → Map ℕ
expire_cooldowns cooldown now = keep_if (λ e. not (ltb (e.1 + cooldown) now))

-- the addresses of live nodes, and those that cool down
unfoldable pub used_ips : Store → List String
used_ips st =
    map (λ n. n.overlay_ip) (keep_if (λ n. not n.revoked) st.nodes) ++ map (λ e. e.0) st.ip_cooldown

abbrev pub mem_text : List String → String → Bool
mem_text l s = has (λ t. t is s) l

abbrev pub scan_result : Netip → Scan → Tx String
scan_result net (found ip) st = (ok (net.to_string ip), st)
scan_result net _ st = (err ipam_exhausted, st)

unfoldable pub scan_prefix : Netip → Prefix → Store → Scan
unfolding scan network used_ips
scan_prefix net p st = scan net p (mem_text (used_ips st)) (2 ^ host_bits p + 1) (network p + 1)

abbrev pub allocate_in : Netip → Option Prefix → ℕ → ℕ → Tx String
allocate_in net none cooldown now st = (err bad_cidr, st)
allocate_in net (some p) cooldown now st =
    let st' = record st { ip_cooldown = expire_cooldowns cooldown now st.ip_cooldown } in
    scan_result net (scan_prefix net p st') st'

unfoldable pub allocate_ip : Netip → String → ℕ → ℕ → Tx String
unfolding expire_cooldowns scan_prefix
allocate_ip net cidr cooldown now = allocate_in net (net.parse_prefix cidr) cooldown now
