-- ===== src/Overlord/Loaded.antt =====
-- The order of the layers in `load_plan` of crates/vigild/src/overlord/plan.rs.
use vigil_rs.Prelude.{
  ◌≡◌, refl, ap, ◌∙◌, sym, Bool, true, ◌||◌, Option, none, some, List, [], ◌∷◌, Text, codes, before,
  before_step, before_asym, keep, ok, ◌>>=◌, if◌then◌else◌, arith,
}
use vigil_rs.Plan.{Layer, from_layers}
use vigil_rs.Overlord.Load.{
  File, is_layer, insert_file, sort_files, entries, readable, layer_files, load_plan, read_layers,
}

-- two names that are not the same
abbrev pub differ : File → File → Bool
differ f g =
    before (codes f.file_name) (codes g.file_name) || before (codes g.file_name) (codes f.file_name)

insert_file_comm :
    (f g : File) (files : List File)
    → differ f g ≡ true
    → insert_file f (insert_file g files) ≡ insert_file g (insert_file f files)
unfolding insert_file
insert_file_comm f g [] d = ground (
  arith,
  before_asym (codes f.file_name) (codes g.file_name),
  before_asym (codes g.file_name) (codes f.file_name),
)
insert_file_comm f g (h ∷ rest) d = ground (
  arith,
  insert_file_comm f g rest d,
  before_asym (codes f.file_name) (codes g.file_name),
  before_asym (codes g.file_name) (codes f.file_name),
  before_step (codes h.file_name) (codes f.file_name) (codes g.file_name),
  before_step (codes h.file_name) (codes g.file_name) (codes f.file_name),
)

-- what an entry of the directory does to the files after it
add_file : Option File → List File → List File
add_file none files = files
add_file (some f) files = if is_layer f then insert_file f files else files

layer_files-cons :
    (x : Option File) (found : List (Option File))
    → layer_files (x ∷ found) ≡ add_file x (layer_files found)
unfolding layer_files readable sort_files add_file
layer_files-cons none found = refl
layer_files-cons (some f) found = ground arith

-- two entries that do not have one name
abbrev pub IsApart : Option File → Option File → Type 0
IsApart none y = Unit
IsApart (some f) none = Unit
IsApart (some f) (some g) = differ f g ≡ true

add_file_comm :
    (x y : Option File) (files : List File)
    → IsApart x y
    → add_file x (add_file y files) ≡ add_file y (add_file x files)
unfolding add_file
add_file_comm none y files d = refl
add_file_comm (some f) none files d = refl
add_file_comm (some f) (some g) files d = ground (arith, insert_file_comm f g files d)

-- Two listings of a directory: one is the other in another order.
pub data IsReordered : List (Option File) → List (Option File) → Type 0 where
  empty : IsReordered [] []
  both :
      {xs ys : List (Option File)} (x : Option File)
      → IsReordered xs ys
      → IsReordered (x ∷ xs) (x ∷ ys)
  swap :
      (x y : Option File) (xs : List (Option File))
      → IsApart x y
      → IsReordered (x ∷ y ∷ xs) (y ∷ x ∷ xs)
  next : {xs ys zs : List (Option File)} → IsReordered xs ys → IsReordered ys zs → IsReordered xs zs

layer_files-reordered :
    {xs ys : List (Option File)} → IsReordered xs ys → layer_files xs ≡ layer_files ys
layer_files-reordered empty = refl
layer_files-reordered (both {xs} {ys} x r) =
    layer_files-cons x xs ∙ ap (add_file x) (layer_files-reordered r) ∙ sym (layer_files-cons x ys)
layer_files-reordered (swap x y xs d) =
    layer_files-cons x (y ∷ xs)
    ∙ ap (add_file x) (layer_files-cons y xs)
    ∙ add_file_comm x y (layer_files xs) d
    ∙ ap (add_file y) (sym (layer_files-cons x xs))
    ∙ sym (layer_files-cons y (x ∷ xs))
layer_files-reordered (next r s) = layer_files-reordered r ∙ layer_files-reordered s

load_plan-reordered :
    {F : Type 0} (parse : Text → Option (Layer F)) {xs ys : List (Option File)}
    → IsReordered xs ys
    → load_plan parse (entries xs) ≡ load_plan parse (entries ys)
unfolding load_plan
load_plan-reordered parse r = rw (layer_files-reordered r) refl

-- Each file's name is less than the next one's.
abbrev pub IsAscending : List File → Type 0
IsAscending [] = Unit
IsAscending (f ∷ []) = Unit
IsAscending (f ∷ g ∷ rest) =
    (before (codes f.file_name) (codes g.file_name) ≡ true) × IsAscending (g ∷ rest)

sort_files-ascending : (files : List File) → IsAscending files → sort_files files ≡ files
unfolding sort_files insert_file
sort_files-ascending [] h = refl
sort_files-ascending (f ∷ []) h = refl
sort_files-ascending (f ∷ g ∷ rest) h =
    let sorted = sort_files-ascending (g ∷ rest) h.1 in
    let placed : insert_file f (g ∷ rest) ≡ f ∷ g ∷ rest =
      ground (arith, h.0, before_asym (codes f.file_name) (codes g.file_name)) in
    ap (insert_file f) sorted ∙ placed

-- In whatever order the directory lists its entries, no two of which have one name, the plan is that
-- of the files of layers read in the ascending order of their names, from place 0 on, or the error
-- that this reading ends with.
pub load_plan-ascending :
    {F : Type 0} (parse : Text → Option (Layer F)) (listed sorted : List (Option File))
    → IsReordered listed sorted
    → IsAscending (keep is_layer (readable sorted))
    → load_plan parse (entries listed) ≡ (
        read_layers parse 0 (keep is_layer (readable sorted)) >>= λ layers. ok (from_layers layers))
unfolding load_plan layer_files
load_plan-ascending parse listed sorted r ascending =
    load_plan-reordered parse r
    ∙ rw (sort_files-ascending (keep is_layer (readable sorted)) ascending) refl
