-- ===== src/Taint/Tags.antt =====
-- src/analysis/taint/abstract_ifc_tags.{h,cc}: sets of tags, and the domain of the analysis.
-- A null `IfcTagsConstPtr` is `bottom`.
pub mod Order
pub mod Rank
use raksha.Common.{
  is_empty, ℕ, String, ◌<>◌, Bool, true, false, ◌&&◌, List, [], ◌∷◌, Option, none, some, Outcome,
  ok, fatal, ◌>>=◌, ◌>>◌, check, not, get_elem?, map, nat_eq,
}
use raksha.Common.Sets.{contains, insert, erase, union, inter, set_eq}
use raksha.Common.Text.{to_string, join_with}

-- `TagId` and `TagIdSet`
abbrev pub TagId : Type 0
TagId = ℕ

abbrev pub TagIdSet : Type 0
TagIdSet = List TagId

pub record IfcTags : Type 0 where
  pub secrecy_tags : TagIdSet
  pub integrity_tags : TagIdSet

pub data AbstractIfcTags : Type 0 where
  bottom : AbstractIfcTags
  tags : IfcTags → AbstractIfcTags

-- The public constructor.
abbrev pub make : TagIdSet → TagIdSet → AbstractIfcTags
make s i = tags (record { secrecy_tags = s; integrity_tags = i })

abbrev pub is_bottom : AbstractIfcTags → Bool
is_bottom bottom = true
is_bottom (tags _) = false

unfoldable pub is_equivalent_to : AbstractIfcTags → AbstractIfcTags → Bool
is_equivalent_to bottom b = is_bottom b
is_equivalent_to (tags x) bottom = false
is_equivalent_to (tags x) (tags y) =
    set_eq x.integrity_tags y.integrity_tags && set_eq x.secrecy_tags y.secrecy_tags

unfoldable pub join : AbstractIfcTags → AbstractIfcTags → AbstractIfcTags
join bottom b = b
join (tags x) bottom = tags x
join (tags x) (tags y) =
    make (union x.secrecy_tags y.secrecy_tags) (inter x.integrity_tags y.integrity_tags)

unfoldable pub set_integrity : AbstractIfcTags → TagId → AbstractIfcTags
set_integrity bottom t = bottom
set_integrity (tags x) t = make x.secrecy_tags (insert x.integrity_tags t)

unfoldable pub clear_integrity : AbstractIfcTags → TagId → AbstractIfcTags
clear_integrity bottom t = bottom
clear_integrity (tags x) t = make x.secrecy_tags (erase x.integrity_tags t)

unfoldable pub set_secrecy : AbstractIfcTags → TagId → AbstractIfcTags
set_secrecy bottom t = bottom
set_secrecy (tags x) t = make (insert x.secrecy_tags t) x.integrity_tags

unfoldable pub clear_secrecy : AbstractIfcTags → TagId → AbstractIfcTags
clear_secrecy bottom t = bottom
clear_secrecy (tags x) t = make (erase x.secrecy_tags t) x.integrity_tags

unfoldable pub secrecy_tags : AbstractIfcTags → Outcome TagIdSet
secrecy_tags bottom = fatal
secrecy_tags (tags x) = ok x.secrecy_tags

unfoldable pub integrity_tags : AbstractIfcTags → Outcome TagIdSet
integrity_tags bottom = fatal
integrity_tags (tags x) = ok x.integrity_tags

unfoldable pub has_integrity : AbstractIfcTags → TagId → Outcome Bool
unfolding integrity_tags
has_integrity a t = do check (not (is_bottom a)); held ← integrity_tags a; ok (contains held t)

unfoldable pub has_no_secrecy : AbstractIfcTags → Outcome Bool
unfolding secrecy_tags
has_no_secrecy a = do check (not (is_bottom a)); held ← secrecy_tags a; ok (is_empty held)

-- The name of a tag, or its number in double angle brackets.
tag_name : List String → TagId → String
tag_name names t = elim (get_elem? names t) [
  | some name ↦ name
  | none ↦ "<<" <> to_string t <> ">>"
]

render_tags : List String → String → TagIdSet → String
unfolding tag_name
render_tags names label held = label <> ": {" <> join_with ", " (map (tag_name names) held) <> "}"

unfoldable pub tags_to_string : AbstractIfcTags → List String → String
unfolding render_tags
tags_to_string bottom names = "[Bottom]"
tags_to_string (tags x) names =
    render_tags names "s" x.secrecy_tags <> ", " <> render_tags names "i" x.integrity_tags
