-- ===== src/Api/Names.antt =====
-- `parse_names` and `parse_services` of crates/vigild/src/api/handlers/mod.rs, on strings.
use Prim.Native.Char.{Char, code}
use vigil_rs.Prelude.{
  Bool, true, false, Option, List, [], ◌∷◌, String, keep, not, map, get_or, ◌==◌, if◌then◌else◌,
}
use vigil_rs.Command.Scan.{is_whitespace}

-- a character before the first of the parts
before_parts : Char → List String → List String
before_parts c [] = String.◌∷◌ c String.[] ∷ []
before_parts c (part ∷ parts) = String.◌∷◌ c part ∷ parts

-- `split(',')`
split_commas : String → List String
unfolding before_parts
split_commas String.[] = String.[] ∷ []
split_commas (String.◌∷◌ c rest) =
    let parts = split_commas rest in
    if code c == b',' then String.[] ∷ parts else before_parts c parts

trim_start : String → String
unfolding is_whitespace
trim_start String.[] = String.[]
trim_start (String.◌∷◌ c rest) =
    if is_whitespace (code c) then trim_start rest else String.◌∷◌ c rest

end_with : Char → String → String
unfolding is_whitespace
end_with c String.[] = if is_whitespace (code c) then String.[] else String.◌∷◌ c String.[]
end_with c (String.◌∷◌ d rest) = String.◌∷◌ c (String.◌∷◌ d rest)

trim_end : String → String
unfolding end_with
trim_end String.[] = String.[]
trim_end (String.◌∷◌ c rest) = end_with c (trim_end rest)

is_blank : String → Bool
is_blank String.[] = true
is_blank (String.◌∷◌ c rest) = false

-- `parse_names` and `parse_services`
unfoldable pub parse_names : Option String → List String
unfolding split_commas trim_start trim_end is_blank
parse_names names =
    keep (λ s. not (is_blank s))
      (map (λ s. trim_end (trim_start s)) (split_commas (get_or names "")))
