-- ===== src/Router/Tree/Pages.antt =====
-- The walk that `buildRouteTree` makes for each scanned file: which node it changes, and how.
use vais_lang.Prelude.{
  ap, ◌∙◌, ◌≡◌, refl, String, Option, none, some, List, [], ◌∷◌, ◌++◌, Bool, true, false, ◌&&◌,
  if◌then◌else◌, or_else, arith, ◌==◌, string_eq, eq_iff,
}
use vais_lang.Router.Types.{RouteSegment}
use vais_lang.Router.Tree.{
  NodeInfo, TreeNode, node, TreeNodes, empty, entry, new_info, create_node, segment_key, upsert,
  ScannedFile, assign_file, insert_at, insert_files,
}

find_child : String → TreeNodes → Option TreeNode
find_child j empty = none
find_child j (entry k n cs) = if k == j then some n else find_child j cs

find_child-upsert :
    (j k : String) (fresh : TreeNode) (f : TreeNode → TreeNode) (cs : TreeNodes)
    → find_child j (upsert k fresh f cs)
      ≡ (if k == j then some (f (or_else (find_child k cs) fresh)) else find_child j cs)
unfolding find_child upsert
find_child-upsert j k fresh f empty = refl
find_child-upsert j k fresh f (entry i n cs) =
    ground (arith, find_child-upsert j k fresh f cs, eq_iff i k, eq_iff i j, eq_iff k j)

-- The fields of the node that the segments lead to, by their keys.
pub info_at : List RouteSegment → TreeNode → Option NodeInfo
unfolding find_child
info_at [] (node i cs) = some i
info_at (s ∷ ss) (node i cs) = elim (find_child (segment_key s) cs) [
  | none ↦ none
  | some n ↦ info_at ss n
]

-- Two directory paths with the same keys lead to one node.
abbrev pub same_place : List RouteSegment → List RouteSegment → Bool
same_place [] [] = true
same_place [] (_ ∷ _) = false
same_place (_ ∷ _) [] = false
same_place (s ∷ ss) (t ∷ ts) = segment_key s == segment_key t && same_place ss ts

-- A field of the node that the segments lead to, absent where there is no node.
abbrev pub field_of : (NodeInfo → Option String) → Option NodeInfo → Option String
field_of field none = none
field_of field (some i) = field i

module _ (field : NodeInfo → Option String)
    (is_new : (ss : List RouteSegment) → field (new_info ss) ≡ none) where
  field_at-new : (q ss : List RouteSegment) → field_of field (info_at q (create_node ss)) ≡ none
  unfolding info_at
  field_at-new [] ss = is_new ss
  field_at-new (s ∷ q) ss = refl

  module _ (f : NodeInfo → NodeInfo) (over : Option String → Option String)
      (acts : (i : NodeInfo) → field (f i) ≡ over (field i)) where
    field_at-insert_at :
        (p q done : List RouteSegment) (n : TreeNode)
        → field_of field (info_at q (insert_at f p done n)) ≡ (
            if same_place p q
            then over (field_of field (info_at q n))
            else field_of field (info_at q n))
    unfolding info_at insert_at
    field_at-insert_at [] [] done (node i cs) = acts i
    field_at-insert_at [] (t ∷ q) done (node i cs) = refl
    field_at-insert_at (s ∷ p) [] done (node i cs) = refl
    field_at-insert_at (s ∷ p) (t ∷ q) done (node i cs) =
        let done' : List RouteSegment = done ++ s ∷ [] in
        ground (
          arith,
          find_child-upsert (segment_key t) (segment_key s) (create_node done')
              (insert_at f p done') cs,
          eq_iff (segment_key s) (segment_key t),
          field_at-insert_at p q done'
              (or_else (find_child (segment_key s) cs) (create_node done')),
          field_at-new q done',
        )

-- The page of a node after the files: that of the last page file in its place, if there is one.
abbrev pub last_page :
    (String → String) → List RouteSegment → List ScannedFile → Option String → Option String
last_page join q [] page = page
last_page join q (file ∷ files) page = last_page join q files (
    if file.file_name == "page.vaisx" && same_place file.segments q
    then some (join file.relative_path)
    else page)

abbrev pub page_at : List RouteSegment → TreeNode → Option String
page_at q n = field_of (λ i. i.page) (info_at q n)

page_of_assign :
    (join : String → String) (file : ScannedFile) (i : NodeInfo)
    → (assign_file join file i).page
      ≡ (if file.file_name == "page.vaisx" then some (join file.relative_path) else i.page)
unfolding assign_file
page_of_assign join file i = ground arith

page_at-insert_at :
    (join : String → String) (file : ScannedFile) (q : List RouteSegment) (n : TreeNode)
    → page_at q (insert_at (assign_file join file) file.segments [] n) ≡ (
        if file.file_name == "page.vaisx" && same_place file.segments q
        then some (join file.relative_path)
        else page_at q n)
page_at-insert_at join file q n = ground (
  arith,
  field_at-insert_at (λ i. i.page) (λ ss. refl) (assign_file join file)
      (λ o. if file.file_name == "page.vaisx" then some (join file.relative_path) else o)
      (page_of_assign join file) file.segments q [] n,
)

-- After the walk over all scanned files, the page of a node, at any place, is that of the last page
-- file scanned in that place; with no such file it is what the tree had there before, and no other
-- kind of file changes it.
pub page_at-insert_files :
    (join : String → String) (files : List ScannedFile) (q : List RouteSegment) (n : TreeNode)
    → page_at q (insert_files join files n) ≡ last_page join q files (page_at q n)
unfolding insert_files
page_at-insert_files join [] q n = refl
page_at-insert_files join (file ∷ files) q n =
    page_at-insert_files join files q (insert_at (assign_file join file) file.segments [] n)
    ∙ ap (last_page join q files) (page_at-insert_at join file q n)
