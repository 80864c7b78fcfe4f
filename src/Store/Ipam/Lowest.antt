-- ===== src/Store/Ipam/Lowest.antt =====
-- AllocateIP picks the lowest free host address, or reports exhaustion when there is none.
use light_pn.Prelude.{
  ℕ, zero, suc, String, ◌+◌, ◌^◌, ◌≤◌, ◌<◌, ◌≡◌, refl, ap, Bool, true, false, arith, ◌==◌, ◌⊎◌, inl,
  inr, some, ok, err, Bool-cases, ==_iff, ℕ_discrete,
}
use light_pn.Store.{Store, ipam_exhausted}
use light_pn.Store.Ipam.{
  Prefix, Netip, host_bits, network, contains, last_addr, Scan, found, exhausted, out_of_fuel, scan,
  scan_prefix, mem_text, used_ips, expire_cooldowns, allocate_ip, allocate_in, scan_result,
}
use light_pn.Store.Ipam.Range.{last_addr-network, contains_between, contains-le-last_addr, pow2_pos}

module _ (net : Netip) (p : Prefix) (used : String → Bool) where
  -- Every host address from `lo` up to `hi` is taken.
  abbrev pub AllUsed : ℕ → ℕ → Type 0
  AllUsed lo hi = (k : ℕ) → lo ≤ k → k < hi → network p + 1 < k → used (net.to_string k) ≡ true

  abbrev pub IsLowest : ℕ → Scan → Type 0
  IsLowest lo (found ip) =
      (lo ≤ ip)
      × (network p + 1 < ip)
      × (ip < last_addr p)
      × (used (net.to_string ip) ≡ false)
      × AllUsed lo ip
  IsLowest lo exhausted = AllUsed lo (last_addr p)
  IsLowest lo out_of_fuel = ⊥

  AllUsed-extend :
      (lo hi : ℕ)
      → (network p + 1 < lo → used (net.to_string lo) ≡ true)
      → AllUsed (lo + 1) hi
      → AllUsed lo hi
  AllUsed-extend lo hi here rest k a b c = elim (ℕ_discrete k lo) [
    | yes e ↦ rw e (here (omega arith))
    | no n ↦ rest k (omega arith) b c
  ]

  IsLowest-extend :
      (lo : ℕ) (s : Scan)
      → (network p + 1 < lo → used (net.to_string lo) ≡ true)
      → IsLowest (lo + 1) s
      → IsLowest lo s
  IsLowest-extend lo (found ip) here h = (omega arith, h.1, h.2, h.3, AllUsed-extend lo ip here h.4)
  IsLowest-extend lo exhausted here h = AllUsed-extend lo (last_addr p) here h
  IsLowest-extend lo out_of_fuel here h = h

  -- The scan ends before its fuel does, with the lowest free address.
  scan-IsLowest :
      (fuel ip : ℕ)
      → network p < ip
      → ip ≤ last_addr p + 1
      → last_addr p + 1 < ip + fuel
      → IsLowest ip (scan net p used fuel ip)
  unfolding scan
  scan-IsLowest zero ip a b c = absurd (omega arith)
  scan-IsLowest (suc fuel) ip a b c = elim (Bool-cases (contains p ip)) [
    | inr outside ↦ rw outside λ k low high host. absurd (past outside low high)
    | inl inside ↦ rw inside (elim (Bool-cases (ip == last_addr p)) [
      | inl last ↦
          rw last λ k low high host. absurd (omega (arith, (==_iff ip (last_addr p)).0 last))
      | inr more ↦
          let rest =
            scan-IsLowest fuel (ip + 1) (omega arith) (omega (arith, inner inside more))
              (omega arith) in
          let next = IsLowest-extend ip (scan net p used fuel (ip + 1)) in
          rw more (elim (Bool-cases (ip == network p + 1)) [
            | inl hub ↦
                rw hub
                  (next (λ host. absurd (omega (arith, (==_iff ip (network p + 1)).0 hub))) rest)
            | inr host ↦ rw host (elim (Bool-cases (used (net.to_string ip))) [
              | inl taken ↦ rw taken (next (λ _. taken) rest)
              | inr free ↦ rw free (
                omega arith,
                past_hub host,
                inner inside more,
                free,
                λ k low high. absurd (omega arith),
              )
            ])
          ])
    ])
  ]
    where
      inner : contains p ip ≡ true → (ip == last_addr p) ≡ false → ip < last_addr p
      inner inside more = ground (arith, contains-le-last_addr p ip inside)

      past_hub : (ip == network p + 1) ≡ false → network p + 1 < ip
      past_hub host = ground arith

      past : {k : ℕ} → contains p ip ≡ false → ip ≤ k → k < last_addr p → ⊥
      past outside low high = cc (contains_between p ip (omega arith) (omega arith), outside)

pub scan_prefix-IsLowest :
    (net : Netip) (p : Prefix) (st : Store)
    → IsLowest net p (mem_text (used_ips st)) (network p + 1) (scan_prefix net p st)
unfolding scan_prefix
scan_prefix-IsLowest net p st =
    scan-IsLowest net p (mem_text (used_ips st)) (2 ^ host_bits p + 1) (network p + 1) (omega arith)
      (omega (arith, last_addr-network p, pow2_pos (host_bits p)))
      (omega (arith, last_addr-network p))

-- the store once the cooldowns that have run out are deleted
abbrev pub expired : ℕ → ℕ → Store → Store
expired cooldown now st = record st { ip_cooldown = expire_cooldowns cooldown now st.ip_cooldown }

module _ (net : Netip) (cidr : String) (cooldown now : ℕ) (st : Store) (p : Prefix) where
  abbrev taken : String → Bool
  taken = mem_text (used_ips (expired cooldown now st))

  -- For a CIDR that parses, AllocateIP deletes the cooldowns that have run out, and then either
  -- answers with the lowest address of the prefix that is above the reserved .1, below the last
  -- address, of no live node and not cooling down; or all such addresses are taken, and it reports
  -- exhaustion.
  pub allocate_ip-lowest :
      net.parse_prefix cidr ≡ some p
      → ((ip : ℕ) × (allocate_ip net cidr cooldown now st
            ≡ (ok (net.to_string ip), expired cooldown now st))
          × (network p + 1 < ip)
          × (ip < last_addr p)
          × (taken (net.to_string ip) ≡ false)
          × AllUsed net p taken (network p + 1) ip)
        ⊎ ((allocate_ip net cidr cooldown now st ≡ (err ipam_exhausted, expired cooldown now st))
            × AllUsed net p taken (network p + 1) (last_addr p))
  unfolding allocate_ip
  allocate_ip-lowest parsed = rw parsed (
      by_scan (scan_prefix net p (expired cooldown now st)) refl
        (scan_prefix-IsLowest net p (expired cooldown now st)))
    where
      by_scan :
          (s : Scan)
          → scan_prefix net p (expired cooldown now st) ≡ s
          → IsLowest net p taken (network p + 1) s
          → ((ip : ℕ) × (allocate_in net (some p) cooldown now st
                ≡ (ok (net.to_string ip), expired cooldown now st))
              × (network p + 1 < ip)
              × (ip < last_addr p)
              × (taken (net.to_string ip) ≡ false)
              × AllUsed net p taken (network p + 1) ip)
            ⊎ ((allocate_in net (some p) cooldown now st
                  ≡ (err ipam_exhausted, expired cooldown now st))
                × AllUsed net p taken (network p + 1) (last_addr p))
      by_scan (found ip) e h =
          inl (ip, ap (λ s. scan_result net s (expired cooldown now st)) e, h.1, h.2, h.3, h.4)
      by_scan exhausted e h = inr (ap (λ s. scan_result net s (expired cooldown now st)) e, h)
      by_scan out_of_fuel e h = absurd h
