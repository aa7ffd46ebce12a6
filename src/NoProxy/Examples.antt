-- ===== src/NoProxy/Examples.antt =====
-- Runs of crates/vigil-types/src/no_proxy/mod.rs, with a parser that knows two addresses.
use vigil_rs.Prelude.{
  ◌≡◌, ◌↔◌, refl, Bool, true, false, Option, none, some, List, [], ◌∷◌, Text, codes, if◌then◌else◌,
  arith,
}
use vigil_rs.NoProxy.Strings.{
  text_eq, lowercase, strip_char, split, split_once, rsplit_once, count, parse_u32, ends_with,
  char_is, all_digits,
}
use vigil_rs.Command.Scan.{trim}
use vigil_rs.NoProxy.{
  IpAddr, v4, parse_no_proxy, entry_of, strip_port, bracketed, no_proxy_matches, matches_entry,
  matches_name, in_network, cidr_matches, network_of,
}
use vigil_rs.NoProxy.Network.{IsAddress}
use vigil_rs.NoProxy.Bypass.{Bypasses, Any, no_proxy_matches_iff}

abbrev known : Text → Option IpAddr
known s =
    if text_eq s (codes "10.1.2.3")
    then some (v4 0x0A010203)
    else if text_eq s (codes "10.1.0.0")
    then some (v4 0x0A010000)
    else none

known_when :
    (a b : Bool) (ip : IpAddr)
    → (if a then some (v4 0x0A010203) else if b then some (v4 0x0A010000) else none) ≡ some ip
    → IsAddress ip
known_when true b ip h = let e : v4 0x0A010203 ≡ ip = cc in rw (← e) (omega arith)
known_when false true ip h = let e : v4 0x0A010000 ≡ ip = cc in rw (← e) (omega arith)
known_when false false ip h = cc

known_sized : (s : Text) (ip : IpAddr) → known s ≡ some ip → IsAddress ip
known_sized s ip h = known_when (text_eq s (codes "10.1.2.3")) (text_eq s (codes "10.1.0.0")) ip h

abbrev entries : List Text
entries = codes "10.1.0.0/16" ∷ codes ".corp.org" ∷ []

parse_no_proxy_test : parse_no_proxy (some (codes " 10.1.0.0/16, ,.Corp.ORG")) ≡ entries
unfolding parse_no_proxy split entry_of trim lowercase
parse_no_proxy_test = refl

inside_test : no_proxy_matches known (codes "10.1.2.3:80") entries ≡ true
unfolding no_proxy_matches strip_port bracketed lowercase matches_entry cidr_matches network_of
    in_network split_once rsplit_once count parse_u32 text_eq strip_char all_digits
inside_test = refl

under_test : no_proxy_matches known (codes "api.Corp.org") entries ≡ true
unfolding no_proxy_matches strip_port bracketed lowercase matches_entry cidr_matches network_of
    in_network split_once rsplit_once count parse_u32 text_eq strip_char matches_name ends_with
    char_is
under_test = refl

beside_test : no_proxy_matches known (codes "mycorp.org") entries ≡ false
unfolding no_proxy_matches strip_port bracketed lowercase matches_entry cidr_matches network_of
    in_network split_once rsplit_once count parse_u32 text_eq strip_char matches_name ends_with
    char_is
beside_test = refl

no_proxy_matches_iff_example :
    (no_proxy_matches known (codes "api.corp.org:8080") entries ≡ true)
    ↔ Any
        (λ e.
          Bypasses known (lowercase (strip_port (codes "api.corp.org:8080"))) (strip_char b'.' e))
        entries
no_proxy_matches_iff_example =
    no_proxy_matches_iff known known_sized (codes "api.corp.org:8080") entries
