-- ===== src/Base/Paths.antt =====
-- `std::path` on Unix: the components of a path, the order that `PathBuf: Ord` takes them in, and
-- joining.
use Prim.Native.Nat.{Ordering, lt, eq, gt, compare}
use etas.Base.{ℕ, Text, codes, same_text, split, join, concat_map, List, [], ◌∷◌, ◌++◌}
use etas.Base.{◌≡◌, refl, if◌then◌else◌, arith}
use mathlib.Core.Path.{sym}
use etas.Base.Order.{cmp, cmp_refl, cmp_flip, cmp-eq_iff}

pub data Component : Type 0 where
  root_dir cur_dir parent_dir : Component
  normal : Text → Component

abbrev pub RelativePath : Type 0
RelativePath = List Component

-- A piece that is not the first: empty pieces and `.` are no components.
unfoldable pub piece : Text → List Component
piece t =
    if same_text t []
    then []
    else if same_text t (codes ".")
    then []
    else if same_text t (codes "..")
    then parent_dir ∷ []
    else normal t ∷ []

unfoldable pub first_piece : Text → List Component
first_piece t = if same_text t (codes ".") then cur_dir ∷ [] else piece t

unfoldable pub pieces : List Text → List Component
pieces [] = []
pieces (first ∷ []) = first_piece first
pieces ([] ∷ rest) = root_dir ∷ concat_map piece rest
pieces (first ∷ rest) = first_piece first ++ concat_map piece rest

-- `Path::components`
unfoldable pub components : Text → List Component
unfolding pieces first_piece piece
components path = pieces (split b'/' path)

rank : Component → ℕ
rank root_dir = 0
rank cur_dir = 1
rank parent_dir = 2
rank (normal t) = 3

compare_component : Component → Component → Ordering
compare_component (normal a) (normal b) = cmp a b
compare_component a b = compare (rank a) (rank b)

-- `Path: Ord`
unfoldable pub compare_path : RelativePath → RelativePath → Ordering
unfolding compare_component rank
compare_path [] [] = eq
compare_path [] (d ∷ ds) = lt
compare_path (c ∷ cs) [] = gt
compare_path (c ∷ cs) (d ∷ ds) =
    let rest = compare_path cs ds in elim (compare_component c d) [ lt ↦ lt | gt ↦ gt | eq ↦ rest ]

pub compare_path_refl : (path : RelativePath) → compare_path path path ≡ eq
unfolding compare_path compare_component
compare_path_refl [] = refl
compare_path_refl (root_dir ∷ path) = compare_path_refl path
compare_path_refl (cur_dir ∷ path) = compare_path_refl path
compare_path_refl (parent_dir ∷ path) = compare_path_refl path
compare_path_refl (normal t ∷ path) = rw (cmp_refl t, compare_path) (compare_path_refl path)

compare_component_flip : (c d : Component) → compare_component c d ≡ gt → compare_component d c ≡ lt
unfolding compare_component rank
compare_component_flip (normal a) (normal b) h = cmp_flip a b h
compare_component_flip c d h = ground arith

compare_component-eq : (c d : Component) → compare_component c d ≡ eq → compare_component d c ≡ eq
unfolding compare_component rank
compare_component-eq (normal a) (normal b) h = (cmp-eq_iff b a).1 (sym ((cmp-eq_iff a b).0 h))
compare_component-eq c d h = ground arith

pub compare_path_flip : (p q : RelativePath) → compare_path p q ≡ gt → compare_path q p ≡ lt
unfolding compare_path
compare_path_flip [] [] h = ground arith
compare_path_flip [] (d ∷ ds) h = ground arith
compare_path_flip (c ∷ cs) [] h = refl
compare_path_flip (c ∷ cs) (d ∷ ds) h =
    ground (arith, compare_component_flip c d, compare_component-eq c d, compare_path_flip cs ds)

abbrev component_text : Component → Text
component_text root_dir = codes "/"
component_text cur_dir = codes "."
component_text parent_dir = codes ".."
component_text (normal t) = t

component_texts : List Component → List Text
component_texts [] = []
component_texts (c ∷ cs) = component_text c ∷ component_texts cs

-- Only normal components.
abbrev pub IsNormal : RelativePath → Type 0
IsNormal [] = Unit
IsNormal (normal part ∷ path) = IsNormal path
IsNormal (_ ∷ path) = ⊥

-- `Path::to_string_lossy` of a relative path
unfoldable pub to_text : RelativePath → Text
unfolding component_texts
to_text path = join (codes "/") (component_texts path)

dots :
    components (codes "a//./b/../c")
    ≡ normal (codes "a") ∷ normal (codes "b") ∷ parent_dir ∷ normal (codes "c") ∷ []
unfolding components split same_text
dots = refl

absolute : components (codes "/a") ≡ root_dir ∷ normal (codes "a") ∷ []
unfolding components split same_text
absolute = refl
