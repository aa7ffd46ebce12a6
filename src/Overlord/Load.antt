-- ===== src/Overlord/Load.antt =====
-- `load_plan` of crates/vigild/src/overlord/plan.rs. What the file system holds and the parser of YAML are arguments.
use Prim.Native.Char.{Char, code}
use vigil_rs.Prelude.{
  ℕ, suc, Bool, ◌||◌, Option, none, some, List, [], ◌∷◌, String, Text, codes, keep, before, Result,
  ok, err, ◌>>=◌, ◌==◌, if◌then◌else◌,
}
use vigil_rs.NoProxy.Strings.{ends_with}
use vigil_rs.Plan.{Layer, Plan, from_layers}

-- a name in the directory, and what comes of reading the file
pub record File : Type 0 where
  pub file_name : String
  pub content : Option Text

pub data LoadError : Type 0 where
  no_directory : LoadError
  not_read not_parsed : String → LoadError

unfoldable pub is_layer : File → Bool
unfolding ends_with
is_layer f =
    ends_with (codes f.file_name) (codes ".yaml") || ends_with (codes f.file_name) (codes ".yml")

-- `sort_by_key` on the names: an entry goes before those that follow it under the same name
unfoldable pub insert_file : File → List File → List File
unfolding before
insert_file f [] = f ∷ []
insert_file f (g ∷ rest) =
    let later = insert_file f rest in
    if before (codes g.file_name) (codes f.file_name) then g ∷ later else f ∷ g ∷ rest

unfoldable pub sort_files : List File → List File
unfolding insert_file
sort_files [] = []
sort_files (f ∷ rest) = insert_file f (sort_files rest)

-- a character before the front that was found later, or the end of it at the last dot
front_with : Char → Option String → Option String
front_with c (some front) = some (String.◌∷◌ c front)
front_with c none = if code c == b'.' then some String.[] else none

front_of : String → Option String
unfolding front_with
front_of String.[] = none
front_of (String.◌∷◌ c rest) = front_with c (front_of rest)

stem_or : String → Option String → String
stem_or name none = name
stem_or name (some String.[]) = name
stem_or name (some (String.◌∷◌ c front)) = String.◌∷◌ c front

-- `file_stem`: what is before the last dot, unless that is nothing
unfoldable pub file_stem : String → String
unfolding front_of stem_or
file_stem name = stem_or name (front_of name)

-- What `read_dir` gives: none where an entry cannot be read.
pub data Directory : Type 0 where
  missing unreadable : Directory
  entries : List (Option File) → Directory

unfoldable pub readable : List (Option File) → List File
readable [] = []
readable (none ∷ rest) = readable rest
readable (some f ∷ rest) = f ∷ readable rest

-- the files of layers in their order
unfoldable pub layer_files : List (Option File) → List File
unfolding readable is_layer sort_files
layer_files found = sort_files (keep is_layer (readable found))

module _ {F : Type 0} (parse : Text → Option (Layer F)) where
  parsed : ℕ → String → Option (Layer F) → Result LoadError (Layer F)
  unfolding file_stem
  parsed order name none = err (not_parsed name)
  parsed order name (some layer) = ok (record layer { order = order; label = file_stem name })

  read_layer : ℕ → String → Option Text → Result LoadError (Layer F)
  unfolding parsed
  read_layer order name none = err (not_read name)
  read_layer order name (some content) = parsed order name (parse content)

  -- The layers from place `order` on; the first error ends it.
  unfoldable pub read_layers : ℕ → List File → Result LoadError (List (Layer F))
  unfolding read_layer
  read_layers order [] = ok []
  read_layers order (f ∷ rest) = do
    layer ← read_layer order f.file_name f.content
    more ← read_layers (suc order) rest
    ok (layer ∷ more)

  unfoldable pub load_plan : Directory → Result LoadError (Plan F)
  unfolding layer_files read_layers from_layers
  load_plan missing = ok (from_layers [])
  load_plan unreadable = err no_directory
  load_plan (entries found) = do layers ← read_layers 0 (layer_files found); ok (from_layers layers)
