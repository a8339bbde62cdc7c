-- ===== src/Ir/SsaNames.antt =====
-- src/ir/ssa_names.h: the names of the blocks, modules and values. The identity of a block or a
-- module is a number.
pub mod Distinct
use raksha.Ir.Values.{Value}
use raksha.Common.{Eq, Bool, String, ℕ, List, Outcome, [], ◌<>◌, length, ok}
use raksha.Common.Text.{to_string}
use raksha.Common.Maps.{find, try_insert, assign}
use raksha.Common.{some, none, true, false, nat_eq, ◌>>◌, check}
use raksha.Ir.Values.{value_eq}

pub record IdManager {ℓ} (K : Type ℓ) : Type ℓ where
  pub prefix : String
  pub item_ids : List (K × String)

module _ {ℓ} {K : Type ℓ} where
  unfoldable pub make_id_manager : String → IdManager K
  make_id_manager p = record { prefix = p; item_ids = [] }

  module _ ⦃e : Eq K⦄ where
    unfoldable pub get_or_create_id : IdManager K → K → IdManager K × String
    get_or_create_id m entity =
        let id = m.prefix <> to_string (length m.item_ids) in
        let item_ids' = try_insert m.item_ids entity id in
        (
          record m { item_ids = item_ids' },
          elim (find m.item_ids entity) [ some old ↦ old | none ↦ id ],
        )

    unfoldable pub update_id : IdManager K → K → String → IdManager K × String
    update_id m entity id = (record m { item_ids = assign m.item_ids entity id }, id)

    -- True if the entity has no id.
    unfoldable pub find_id : IdManager K → K → Bool
    find_id m entity = elim (find m.item_ids entity) [ some _ ↦ false | none ↦ true ]

pub record SsaNames : Type 0 where
  pub block_ids : IdManager ℕ
  pub module_ids : IdManager ℕ
  pub value_ids : IdManager Value

unfoldable pub make_ssa_names : SsaNames
unfolding make_id_manager
make_ssa_names = record {
  block_ids = make_id_manager "b";
  module_ids = make_id_manager "m";
  value_ids = make_id_manager "%";
}

unfoldable pub get_or_create_block_id : SsaNames → ℕ → SsaNames × String
unfolding get_or_create_id
get_or_create_block_id s block =
    let r = get_or_create_id s.block_ids block in (record s { block_ids = r.0 }, r.1)

unfoldable pub add_block_id : SsaNames → ℕ → String → Outcome (SsaNames × String)
unfolding find_id update_id
add_block_id s block id = do
  check (find_id s.block_ids block)
  let r = update_id s.block_ids block id in ok (record s { block_ids = r.0 }, r.1)

unfoldable pub get_or_create_module_id : SsaNames → ℕ → SsaNames × String
unfolding get_or_create_id
get_or_create_module_id s mod_ =
    let r = get_or_create_id s.module_ids mod_ in (record s { module_ids = r.0 }, r.1)

unfoldable pub add_module_id : SsaNames → ℕ → String → Outcome (SsaNames × String)
unfolding find_id update_id
add_module_id s mod_ id = do
  check (find_id s.module_ids mod_)
  let r = update_id s.module_ids mod_ id in ok (record s { module_ids = r.0 }, r.1)

unfoldable pub get_or_create_value_id : SsaNames → Value → SsaNames × String
unfolding get_or_create_id
get_or_create_value_id s v =
    let r = get_or_create_id s.value_ids v in (record s { value_ids = r.0 }, r.1)

unfoldable pub add_value_id : SsaNames → Value → String → Outcome (SsaNames × String)
unfolding find_id update_id
add_value_id s v id = do
  check (find_id s.value_ids v)
  let r = update_id s.value_ids v id in ok (record s { value_ids = r.0 }, r.1)
