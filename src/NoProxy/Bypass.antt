-- ===== src/NoProxy/Bypass.antt =====
-- Which entries of a list let a host bypass the proxy.
use vigil_rs.Prelude.{
  ℕ, ◌≡◌, ◌≢◌, ◌↔◌, ◌⊎◌, inl, inr, refl, ◌∙◌, Bool, true, false, ◌||◌, Option, none, some, List, [],
  ◌∷◌, Text, any, arith,
}
use vigil_rs.NoProxy.Strings.{strip_char, lowercase, split_once, parse_u32, >>=-eq-some}
use vigil_rs.NoProxy.{
  IpAddr, in_network, matches_name, network_of, cidr_matches, by_network, matches_entry,
  no_proxy_matches, strip_port,
}
use vigil_rs.NoProxy.Network.{InNetwork, IsAddress, in_network_iff}
use vigil_rs.NoProxy.Domains.{IsUnder, matches_name_iff}

module _ (parse_ip : Text → Option IpAddr) where
  -- how an entry, less a dot before it, lets a host without its port bypass the proxy
  pub data Bypasses (bare e : Text) : Type 0 where
    by_address :
        (ip net : IpAddr) (prefix_len : ℕ)
        → parse_ip bare ≡ some ip
        → network_of parse_ip e ≡ some (net, prefix_len)
        → InNetwork prefix_len ip net
        → Bypasses bare e
    by_name :
        (parse_ip bare ≡ none) ⊎ (network_of parse_ip e ≡ none) → IsUnder bare e → Bypasses bare e

false_not_true : false ≢ true
false_not_true h = cc

or_iff {ℓ} :
    {P Q : Type ℓ} (b c : Bool) → (b ≡ true) ↔ P → (c ≡ true) ↔ Q → ((b || c) ≡ true) ↔ (P ⊎ Q)
or_iff true c f g = (λ h. inl (f.0 refl), λ h. refl)
or_iff false c f g =
    (λ h. inr (g.0 h), λ h. elim h [ inl p ↦ absurd (false_not_true (f.1 p)) | inr q ↦ g.1 q ])

-- some entry of the list
abbrev pub Any : (Text → Type 0) → List Text → Type 0
Any P [] = ⊥
Any P (e ∷ rest) = P e ⊎ Any P rest

module _ (parse_ip : Text → Option IpAddr)
    (sized : (s : Text) (ip : IpAddr) → parse_ip s ≡ some ip → IsAddress ip) where
  network_of-IsAddress :
      (e : Text) (net : IpAddr) (prefix_len : ℕ)
      → network_of parse_ip e ≡ some (net, prefix_len)
      → IsAddress net
  unfolding network_of
  network_of-IsAddress e net prefix_len h =
      let (parts, split, second) = >>=-eq-some (split_once b'/' e) _ h in
      let (found, parsed, third) = >>=-eq-some (parse_u32 parts.1) _ second in
      let (ip, address, last) = >>=-eq-some (parse_ip parts.0) _ third in
      sized parts.0 net (address ∙ cc last)

  -- by cases on the address of the host and the network of the entry
  entry_iff :
      (bare e : Text) (host : Option IpAddr) (network : Option (IpAddr × ℕ))
      → parse_ip bare ≡ host
      → network_of parse_ip e ≡ network
      → (elim (by_network parse_ip host e) [ some matched ↦ matched | none ↦ matches_name bare e ]
          ≡ true)
        ↔ Bypasses parse_ip bare e
  unfolding by_network cidr_matches
  entry_iff bare e none network h n = (λ m. by_name (inl h) ((matches_name_iff bare e).0 m), back)
    where
      back : Bypasses parse_ip bare e → matches_name bare e ≡ true
      back (by_address ip net prefix_len a b c) = cc
      back (by_name no_address under) = (matches_name_iff bare e).1 under
  entry_iff bare e (some ip) none h n =
      rw n (λ m. by_name (inr n) ((matches_name_iff bare e).0 m), back)
    where
      back : Bypasses parse_ip bare e → matches_name bare e ≡ true
      back (by_address ip net prefix_len a b c) = cc
      back (by_name no_address under) = (matches_name_iff bare e).1 under
  entry_iff bare e (some ip) (some (net, prefix_len)) h n =
      rw n (λ m. by_address ip net prefix_len h n (within.0 m), back)
    where
      within : (in_network prefix_len ip net ≡ true) ↔ InNetwork prefix_len ip net
      within =
          in_network_iff prefix_len ip net (sized bare ip h)
            (network_of-IsAddress e net prefix_len n)

      back : Bypasses parse_ip bare e → in_network prefix_len ip net ≡ true
      back (by_address i m p a b c) =
          let same_ip : i ≡ ip = cc in
          let same_net : m ≡ net = cc in
          let same_len : p ≡ prefix_len = cc in within.1 (rw (← same_ip, ← same_net, ← same_len) c)
      back (by_name (inl a) under) = cc
      back (by_name (inr a) under) = cc

  matches_entry_iff :
      (bare entry : Text)
      → (matches_entry parse_ip bare entry ≡ true) ↔ Bypasses parse_ip bare (strip_char b'.' entry)
  unfolding matches_entry
  matches_entry_iff bare entry =
      entry_iff bare (strip_char b'.' entry) (parse_ip bare)
        (network_of parse_ip (strip_char b'.' entry)) refl refl

  any_iff :
      (bare : Text) (entries : List Text)
      → (any (matches_entry parse_ip bare) entries ≡ true)
        ↔ Any (λ e. Bypasses parse_ip bare (strip_char b'.' e)) entries
  any_iff bare [] = ground arith
  any_iff bare (e ∷ rest) =
      or_iff (matches_entry parse_ip bare e) (any (matches_entry parse_ip bare) rest)
        (matches_entry_iff bare e) (any_iff bare rest)

  -- A host bypasses the proxy exactly if one of the entries says so, taken without a dot before it and against
  -- the host without its port and in lower case: the host is an address in the entry's network, or one of
  -- them is no address or network, and the host is the entry or a name under it, a dot between.
  pub no_proxy_matches_iff :
      (host : Text) (entries : List Text)
      → (no_proxy_matches parse_ip host entries ≡ true)
        ↔ Any (λ e. Bypasses parse_ip (lowercase (strip_port host)) (strip_char b'.' e)) entries
  unfolding no_proxy_matches
  no_proxy_matches_iff host [] = ground arith
  no_proxy_matches_iff host (e ∷ rest) = any_iff (lowercase (strip_port host)) (e ∷ rest)
