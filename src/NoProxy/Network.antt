-- ===== src/NoProxy/Network.antt =====
-- A network holds the addresses of one interval.
use native.Mathlib.Nat.{le-div_iff_mul-le, div-lt_iff_lt-mul, one-le-pow, div-eq_of_lt}
use vigil_rs.Prelude.{ℕ, zero, suc, ◌+◌, ◌-◌, ◌*◌, ◌/◌, ◌^◌, ◌≤◌, ◌<◌, ◌≡◌, ◌↔◌, true, arith}
use vigil_rs.NoProxy.{IpAddr, v4, v6, in_network, same_prefix}

-- the number of addresses behind a prefix, and the first of them
abbrev pub size : ℕ → ℕ → ℕ
size width prefix_len = 2 ^ (width - prefix_len)

abbrev pub first : ℕ → ℕ → ℕ → ℕ
first width prefix_len net = net / size width prefix_len * size width prefix_len

div_interval : (a q d : ℕ) → 0 < d → (a / d ≡ q) ↔ ((q * d ≤ a) × (a < (q + 1) * d))
div_interval a q d pos =
    let low = le-div_iff_mul-le {k = d} {x = q} {y = a} pos in
    let high = div-lt_iff_lt-mul {k = d} {x = a} {y = q + 1} pos in ground (arith, low, high)

abbrev pub IsWithin : ℕ → ℕ → ℕ → ℕ → Type 0
IsWithin width prefix_len host net =
    (prefix_len ≤ width)
    × (first width prefix_len net ≤ host)
    × (host < first width prefix_len net + size width prefix_len)

same_prefix_iff :
    (width prefix_len host net : ℕ)
    → host < 2 ^ width
    → net < 2 ^ width
    → (same_prefix width prefix_len host net ≡ true) ↔ IsWithin width prefix_len host net
unfolding same_prefix
same_prefix_iff width zero host net h n =
    let e : width - 0 ≡ width = omega arith in
    let none : net / 2 ^ width ≡ 0 = div-eq_of_lt n in rw (e, none) (ground (arith, h))
same_prefix_iff width (suc prefix_len) host net h n =
    let pos : 0 < size width (suc prefix_len) =
      one-le-pow (width - suc prefix_len) 2 (omega arith) in
    let interval =
      div_interval host (net / size width (suc prefix_len)) (size width (suc prefix_len)) pos in
    ground (arith, interval)

-- The address in the family of the network, with its bits.
abbrev pub InNetwork : ℕ → IpAddr → IpAddr → Type 0
InNetwork prefix_len (v4 host) (v4 net) = IsWithin 32 prefix_len host net
InNetwork prefix_len (v6 host) (v6 net) = IsWithin 128 prefix_len host net
InNetwork prefix_len (v4 host) (v6 net) = ⊥
InNetwork prefix_len (v6 host) (v4 net) = ⊥

abbrev pub IsAddress : IpAddr → Type 0
IsAddress (v4 n) = n < 2 ^ 32
IsAddress (v6 n) = n < 2 ^ 128

-- An address is in a network exactly if both are of one family, the prefix is no longer than their
-- width, and the address lies in the interval of `2 ^ (width - prefix)` addresses that starts at
-- the network's address with its last bits cleared.
pub in_network_iff :
    (prefix_len : ℕ) (host net : IpAddr)
    → IsAddress host
    → IsAddress net
    → (in_network prefix_len host net ≡ true) ↔ InNetwork prefix_len host net
unfolding in_network
in_network_iff prefix_len (v4 host) (v4 net) h n = same_prefix_iff 32 prefix_len host net h n
in_network_iff prefix_len (v6 host) (v6 net) h n = same_prefix_iff 128 prefix_len host net h n
in_network_iff prefix_len (v4 host) (v6 net) h n = ground arith
in_network_iff prefix_len (v6 host) (v4 net) h n = ground arith
