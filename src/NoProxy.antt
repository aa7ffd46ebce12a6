-- ===== src/NoProxy.antt =====
-- crates/vigil-types/src/no_proxy/mod.rs: which hosts bypass a proxy. Texts are lists of code points; the source's
-- byte tests at a dot and at the end of a host come to the same. The parser of addresses of the
-- standard library is a parameter: an address is its number, of 32 or of 128 bits.
pub mod Strings
mod Network
mod Domains
mod Bypass
mod Ports
mod Examples
use vigil_rs.Prelude.{
  ℕ, zero, suc, ◌+◌, ◌-◌, ◌/◌, ◌^◌, Bool, true, false, not, ◌&&◌, ◌||◌, Option, none, some, List,
  [], ◌∷◌, Text, map, keep, any, length, is_empty, ltb, leb, ◌==◌, if◌then◌else◌,
}
use vigil_rs.Command.Scan.{trim}
use vigil_rs.NoProxy.Strings.{
  lowercase, split, split_once, rsplit_once, count, all_digits, parse_u32, ends_with, char_is,
  text_eq, strip_char, ◌>>=◌,
}

pub data IpAddr : Type 0 where
  v4 v6 : ℕ → IpAddr

unfoldable pub entry_of : Text → Text
unfolding lowercase trim
entry_of e = lowercase (trim e)

unfoldable pub parse_no_proxy : Option Text → List Text
unfolding split entry_of
parse_no_proxy none = []
parse_no_proxy (some s) = keep (λ e. not (is_empty e)) (map entry_of (split b',' s))

-- the part before a port of digits, of a host with one colon at most
without_port : Text → Option (Text × Text) → Text
unfolding all_digits
without_port host none = host
without_port host (some (h, port)) = if all_digits port then h else host

plain_host : Text → Text
unfolding count rsplit_once without_port
plain_host host =
    if ltb 1 (count b':' host) then host else without_port host (rsplit_once b':' host)

-- `[` and then a text with `]`: what is between
unfoldable pub bracketed : Text → Option Text
unfolding split_once
bracketed [] = none
bracketed (c ∷ rest) = if c == b'[' then map_first (split_once b']' rest) else none
  where
    map_first : Option (Text × Text) → Option Text
    map_first none = none
    map_first (some (inside, after)) = some inside

unfoldable pub strip_port : Text → Text
unfolding bracketed plain_host
strip_port host = elim (bracketed host) [ some inside ↦ inside | none ↦ plain_host host ]

-- the same prefix, of two addresses of `width` bits
same_prefix : ℕ → ℕ → ℕ → ℕ → Bool
same_prefix width prefix_len host net =
    if ltb width prefix_len
    then false
    else if prefix_len == 0
    then true
    else host / 2 ^ (width - prefix_len) == net / 2 ^ (width - prefix_len)

unfoldable pub in_network : ℕ → IpAddr → IpAddr → Bool
unfolding same_prefix
in_network prefix_len (v4 host) (v4 net) = same_prefix 32 prefix_len host net
in_network prefix_len (v6 host) (v6 net) = same_prefix 128 prefix_len host net
in_network prefix_len (v4 host) (v6 net) = false
in_network prefix_len (v6 host) (v4 net) = false

-- `bare == e`, or a domain that ends in a dot and `e`
unfoldable pub matches_name : Text → Text → Bool
unfolding text_eq char_is ends_with
matches_name bare e =
    text_eq bare e
    || (ltb (length e) (length bare)
        && char_is b'.' (length bare - length e - 1) bare
        && ends_with bare e)

module _ (parse_ip : Text → Option IpAddr) where
  unfoldable pub network_of : Text → Option (IpAddr × ℕ)
  unfolding split_once parse_u32
  network_of entry = do
    (net_str, prefix_len_str) ← split_once b'/' entry
    prefix_len ← parse_u32 prefix_len_str
    net ← parse_ip net_str
    some (net, prefix_len)

  unfoldable pub cidr_matches : IpAddr → Text → Option Bool
  cidr_matches ip entry = do
    (net, prefix_len) ← network_of entry
    some (in_network prefix_len ip net)

  -- the answer of a network, where the host is an address and the entry a network
  by_network : Option IpAddr → Text → Option Bool
  unfolding cidr_matches
  by_network none e = none
  by_network (some ip) e = cidr_matches ip e

  unfoldable pub matches_entry : Text → Text → Bool
  unfolding by_network matches_name strip_char
  matches_entry bare entry =
      let e = strip_char b'.' entry in
      elim (by_network (parse_ip bare) e) [ some matched ↦ matched | none ↦ matches_name bare e ]

  unfoldable pub no_proxy_matches : Text → List Text → Bool
  unfolding strip_port lowercase matches_entry
  no_proxy_matches host entries =
      if is_empty entries then false else any (matches_entry (lowercase (strip_port host))) entries
