-- ===== src/Ir/Types/PathSets.antt =====
-- The intersection of sets of access paths of src/ir/access_path_selectors_set.h.
use raksha.Common.{◌&&◌, ◌≡◌, arith, [], ◌∷◌}
use raksha.Common.Sets.{contains, contains-union}
use raksha.Ir.Types.{
  AccessPathSelectors, AccessPathSelectorsSet, intersect, create_absl_set, path_eq,
}

contains-create_absl_set :
    (set1 : AccessPathSelectorsSet) (path : AccessPathSelectors)
    → contains (create_absl_set set1) path ≡ contains set1 path
unfolding create_absl_set contains
contains-create_absl_set set1 path = contains-union [] set1 path

-- A path is in the intersection exactly if it is in both sets.
pub contains-intersect :
    (set1 set2 : AccessPathSelectorsSet) (path : AccessPathSelectors)
    → contains (intersect set1 set2) path ≡ (contains set1 path && contains set2 path)
unfolding intersect contains
contains-intersect set1 [] path = ground arith
contains-intersect set1 (p ∷ set2) path = ground (
  arith,
  contains-intersect set1 set2 path,
  contains-create_absl_set set1 p,
  path_eq.beq_iff p path,
)
