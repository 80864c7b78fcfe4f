-- ===== src/Store/Ipam/Range.antt =====
-- The addresses of a prefix: what lastAddr computes, and which addresses the prefix contains.
use native.Mathlib.Nat.{mul-div_cancel, div-eq_of_lt-le, pow-suc, lt-div-mul-add}
use light_pn.Prelude.{ℕ, zero, suc, ◌+◌, ◌*◌, ◌/◌, ◌^◌, ◌≤◌, ◌<◌, ◌≡◌, ◌∙◌, true, arith, ==_iff}
use light_pn.Store.Ipam.{Prefix, host_bits, network, contains, set_bit, set_bits_below, last_addr}

pub pow2_pos : (k : ℕ) → 0 < 2 ^ k
pow2_pos zero = omega arith
pow2_pos (suc k) = omega (arith, pow-suc 2 k, pow2_pos k)

-- Setting a clear bit adds its weight.
set_bit-even : (k m : ℕ) → set_bit k (m * 2 ^ suc k) ≡ (2 * m + 1) * 2 ^ k
unfolding set_bit
set_bit-even k m =
    let double : m * 2 ^ suc k ≡ (2 * m) * 2 ^ k = grind (arith, pow-suc 2 k) in
    rw double (rw (mul-div_cancel (2 * m) (pow2_pos k)) (ground (arith)))

set_bits_below_lem : (k m : ℕ) → set_bits_below k (m * 2 ^ k) + 1 ≡ m * 2 ^ k + 2 ^ k
unfolding set_bits_below
set_bits_below_lem zero m = omega arith
set_bits_below_lem (suc k) m =
    rw (set_bit-even k m) (set_bits_below_lem k (2 * m + 1) ∙ grind (arith, pow-suc 2 k))

-- lastAddr is the last of the 2 ^ h addresses that begin at the network address.
pub last_addr-network : (p : Prefix) → last_addr p + 1 ≡ network p + 2 ^ host_bits p
unfolding last_addr network
last_addr-network p = set_bits_below_lem (host_bits p) (p.addr / 2 ^ host_bits p)

-- Contains holds from the network address to the last address.
pub contains_between :
    (p : Prefix) (ip : ℕ) → network p ≤ ip → ip ≤ last_addr p → contains p ip ≡ true
unfolding contains
contains_between p ip low high =
    let e : last_addr p + 1 ≡ p.addr / 2 ^ host_bits p * 2 ^ host_bits p + 2 ^ host_bits p =
      unfold network in last_addr-network p in
    let above : p.addr / 2 ^ host_bits p * 2 ^ host_bits p ≤ ip = unfold network in low in
    let below : ip < (p.addr / 2 ^ host_bits p + 1) * 2 ^ host_bits p = grind arith in
    let q : ip / 2 ^ host_bits p ≡ p.addr / 2 ^ host_bits p =
      div-eq_of_lt-le (2 ^ host_bits p) above below in
    ground (arith, q)

-- Contains holds of no address past the last.
pub contains-le-last_addr : (p : Prefix) (ip : ℕ) → contains p ip ≡ true → ip ≤ last_addr p
unfolding contains
contains-le-last_addr p ip h =
    let e : last_addr p + 1 ≡ p.addr / 2 ^ host_bits p * 2 ^ host_bits p + 2 ^ host_bits p =
      unfold network in last_addr-network p in
    let same : ip / 2 ^ host_bits p ≡ p.addr / 2 ^ host_bits p = (==_iff _ _).0 h in
    let below : ip < ip / 2 ^ host_bits p * 2 ^ host_bits p + 2 ^ host_bits p =
      lt-div-mul-add (pow2_pos (host_bits p)) in
    omega (arith, e, rw same at below)
