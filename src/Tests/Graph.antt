-- ===== src/Tests/Graph.antt =====
-- Instances of the theorems on the graph of a module and on the builder of rules.
use raksha.Ir.Modules.{operations_of}
use raksha.Ir.Values.{stored_value}
use raksha.Common.Maps.{insert_new, find, try_insert}
use raksha.Analysis.Graph.{compute_adjacency_list, value, operation}
use raksha.Taint.Rules.{get_tag_id, get_tag_name}
use raksha.Taint.Builder.Ids.{Built, get_or_create_tag_id_stable, get_tag_id-iff_get_tag_name}
use raksha.Taint.Builder.{
  InferenceRulesBuilder, make_builder, build, number_seeds, get_or_create_tag_id,
}
use raksha.Analysis.Graph.Edges.{has_edge, edge_of, has_edge-compute_adjacency_list}
use raksha.Common.{refl, ok, [], ◌∷◌, ◌≡◌, some, any_of, ◌↔◌, string_eq, nat_eq}
use raksha.Ir.Values.{stored_value}
use raksha.Tests.Programs.{program}

has_edge-compute_adjacency_list_example :
    has_edge (compute_adjacency_list program) (value (stored_value 7)) (1, operation 2)
    ≡ any_of (λ o. edge_of o (value (stored_value 7)) 1 (operation 2)) (operations_of program)
has_edge-compute_adjacency_list_example =
    has_edge-compute_adjacency_list program (value (stored_value 7)) 1 (operation 2)

abbrev seeded : InferenceRulesBuilder
seeded = record {
  tag_names = "a" ∷ "b" ∷ [];
  tags = ("a", 0) ∷ ("b", 1) ∷ [];
  action_rules = [];
  actions = [];
}

make_builder-seeded : make_builder ("a" ∷ "b" ∷ []) ≡ ok seeded
unfolding make_builder number_seeds insert_new find try_insert
make_builder-seeded = refl

seeded-Built : Built seeded
seeded-Built = Built.start ("a" ∷ "b" ∷ []) make_builder-seeded

get_tag_id-iff_get_tag_name_example :
    (get_tag_id (build (get_or_create_tag_id seeded "c").0) "c" ≡ some 2)
    ↔ (get_tag_name (build (get_or_create_tag_id seeded "c").0) 2 ≡ some "c")
get_tag_id-iff_get_tag_name_example =
    get_tag_id-iff_get_tag_name (Built.create "c" seeded-Built) "c" 2

get_or_create_tag_id_stable_example :
    (get_tag_id (build (get_or_create_tag_id seeded "c").0) "c"
      ≡ some (get_or_create_tag_id seeded "c").1)
    × (get_tag_id (build seeded) "b" ≡ some 1
        → get_tag_id (build (get_or_create_tag_id seeded "c").0) "b" ≡ some 1)
    × (get_or_create_tag_id (get_or_create_tag_id seeded "c").0 "c"
        ≡ get_or_create_tag_id seeded "c")
get_or_create_tag_id_stable_example = get_or_create_tag_id_stable seeded "c" "b" 1
