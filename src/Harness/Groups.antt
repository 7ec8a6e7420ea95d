-- ===== src/Harness/Groups.antt =====
-- src/harness/dependency.py: proposals that touch a common file belong into one group, by
-- union-find. The dict `parent` is a function, of which only the indices of proposals are read.
pub mod Forest
pub mod Joined
pub mod Owners
pub mod Trees
pub mod Grouping
pub mod Partition
use Prim.Native.String.{String}
use kis_autotrader.Common.{
  ℕ, zero, suc, ◌+◌, Bool, true, false, Option, none, some, List, [], ◌∷◌, map, ◌++◌, keep, length,
  ◌==◌, if◌then◌else◌,
}
use kis_autotrader.Common.Dict.{lookup, put}
use kis_autotrader.Common.Sort.{sorted}
use kis_autotrader.Common.Texts.{text_lt}

pub record Proposal : Type 0 where
  pub path : String
  pub files : List String

abbrev pub Parents : Type 0
Parents = ℕ → ℕ

-- `parent[x] = v`
abbrev pub set : ℕ → ℕ → Parents → Parents
set x v parent y = if y == x then v else parent y

-- `_find`, which halves the path that it follows
unfoldable pub find : ℕ → Parents → ℕ → Parents × ℕ
find zero parent x = (parent, x)
find (suc fuel) parent x =
    let parent' : Parents = set x (parent (parent x)) parent in
    let rest = find fuel parent' (parent' x) in if parent x == x then (parent, x) else rest

abbrev pub hang : ℕ → ℕ → Parents → Parents
hang ra rb parent = if ra == rb then parent else set ra rb parent

-- `_union`
unfoldable pub union : ℕ → Parents → ℕ → ℕ → Parents
union fuel parent a b =
    let (parent', ra) = find fuel parent a in
    let (parent'', rb) = find fuel parent' b in hang ra rb parent''

-- `enumerate(proposals)`
abbrev pub enumerate : ℕ → List Proposal → List (ℕ × Proposal)
enumerate i [] = []
enumerate i (p ∷ ps) = (i, p) ∷ enumerate (suc i) ps

abbrev pub lacks_files : ℕ × Proposal → Bool
lacks_files (i, p) = elim p.files [ [] ↦ true | f ∷ fs ↦ false ]

-- The loop over the proposals without files.
unfoldable pub union_all : ℕ → ℕ → List (ℕ × Proposal) → Parents → Parents
union_all fuel first [] parent = parent
union_all fuel first ((i, p) ∷ rest) parent = union_all fuel first rest (union fuel parent first i)

unfoldable pub union_empty : ℕ → List (ℕ × Proposal) → Parents → Parents
unfolding union_all
union_empty fuel [] parent = parent
union_empty fuel ((first, p) ∷ rest) parent = union_all fuel first rest parent

-- `file_to_idx`, and the parents
abbrev pub Links : Type 0
Links = List (String × ℕ) × Parents

abbrev pub link_to : ℕ → ℕ → String → Option ℕ → Links → Links
link_to fuel i f none (owners, parent) = (put f i owners, parent)
link_to fuel i f (some o) (owners, parent) = (owners, union fuel parent o i)

unfoldable pub link_files : ℕ → ℕ → List String → Links → Links
link_files fuel i [] links = links
link_files fuel i (f ∷ fs) links = link_files fuel i fs (link_to fuel i f (lookup f links.0) links)

unfoldable pub link_all : ℕ → List (ℕ × Proposal) → Links → Links
unfolding link_files
link_all fuel [] links = links
link_all fuel ((i, p) ∷ items) links = link_all fuel items (link_files fuel i p.files links)

-- `groups.setdefault(root, []).append(p)`
abbrev pub Groups : Type 0
Groups = List (ℕ × List Proposal)

unfoldable pub append_to : ℕ → Proposal → Groups → Groups
append_to root p [] = (root, p ∷ []) ∷ []
append_to root p ((r, g) ∷ groups) =
    let rest = append_to root p groups in
    if r == root then (r, g ++ (p ∷ [])) ∷ groups else (r, g) ∷ rest

unfoldable pub group_all : ℕ → List (ℕ × Proposal) → Parents → Groups → Groups
unfolding append_to
group_all fuel [] parent groups = groups
group_all fuel ((i, p) ∷ items) parent groups =
    let (parent', root) = find fuel parent i in
    group_all fuel items parent' (append_to root p groups)

abbrev pub path_lt : Proposal → Proposal → Bool
path_lt p q = text_lt p.path q.path

-- The groups are ordered by their first paths; none of them is empty.
abbrev pub first_lt : List Proposal → List Proposal → Bool
first_lt [] h = false
first_lt (p ∷ g) [] = false
first_lt (p ∷ g) (q ∷ h) = path_lt p q

-- As many rounds as paths can get long: one for each union that the code makes, and one more.
abbrev pub file_count : List (ℕ × Proposal) → ℕ
file_count [] = 0
file_count ((i, p) ∷ items) = length p.files + file_count items

abbrev pub fuel_for : List (ℕ × Proposal) → ℕ
fuel_for items = suc (length items + file_count items)

unfoldable pub compute_independent_groups : List Proposal → List (List Proposal)
unfolding union_empty union_all union link_all link_files group_all append_to find sorted text_lt
    lookup put
compute_independent_groups proposals =
    let items = enumerate 0 proposals in
    let fuel = fuel_for items in
    let joined = union_empty fuel (keep lacks_files items) (λ i. i) in
    let links = link_all fuel items ([], joined) in
    let groups = group_all fuel items links.1 [] in
    sorted first_lt (map (λ (e : ℕ × List Proposal). sorted path_lt e.1) groups)
