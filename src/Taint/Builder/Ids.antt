-- ===== src/Taint/Builder/Ids.antt =====
-- Names and ids of tags correspond, whatever a client does with a builder.
use raksha.Common.{
  ℕ, String, List, [], ◌∷◌, ◌++◌, none, some, ok, length, get_elem?, string_eq, nat_eq, ◌≡◌, refl,
  ◌↔◌, arith, Option-cases, inl, inr, subst, append_assoc, append-nil, length-append,
  get_elem?-concat, lt-length_of_get_elem?, >>=-eq-ok, ok-injective,
}
use raksha.Common.Maps.{find, try_insert, insert_new, find-try_insert_new, length-try_insert}
use raksha.Taint.Tags.{TagId}
use raksha.Taint.Rules.{OutputRules, get_tag_id, get_tag_name}
use raksha.Taint.Builder.{
  InferenceRulesBuilder, number_seeds, make_builder, build, mark_operation_as_action,
  add_output_rules_for_action, get_or_create_tag_id,
}

-- The builders that a client can have.
pub data Built : InferenceRulesBuilder → Type 0 where
  start : {b : InferenceRulesBuilder} (seeds : List String) → make_builder seeds ≡ ok b → Built b
  mark :
      {b c : InferenceRulesBuilder} (operation : ℕ) (action : String)
      → Built b
      → mark_operation_as_action b operation action ≡ ok c
      → Built c
  add_rules :
      {b c : InferenceRulesBuilder} (action : String) (rules : OutputRules)
      → Built b
      → add_output_rules_for_action b action rules ≡ ok c
      → Built c
  create :
      {b : InferenceRulesBuilder} (tag : String) → Built b → Built (get_or_create_tag_id b tag).0

-- The table and the vector of names are inverse to one another.
pub record Inverse (table : List (String × TagId)) (names : List String) : Type 0 where
  pub size : length table ≡ length names
  pub agree : (n : String) (t : TagId) → (find table n ≡ some t) ↔ (get_elem? names t ≡ some n)

Inverse-nil : Inverse [] []
unfolding find
Inverse-nil = record { size = refl; agree = λ n t. (λ h. cc, λ h. cc) }

-- A new name gets the next number.
Inverse-try_insert :
    (table : List (String × TagId)) (names : List String) (m : String)
    → Inverse table names
    → find table m ≡ none
    → Inverse (try_insert table m (length table)) (names ++ m ∷ [])
Inverse-try_insert table names m inv new = record {
  size =
      omega (
        arith,
        length-try_insert table m (length table) new,
        length-append names (m ∷ []),
        inv.size,
      );
  agree = λ n t. ground (
    arith,
    find-try_insert_new table m (length table) n new,
    get_elem?-concat names m t,
    inv.agree n t,
    inv.agree m t,
    string_eq.beq_iff m n,
    lt-length_of_get_elem? names t {x = n},
    inv.size,
    new,
  );
}

number_seeds-Inverse :
    (names seen : List String) (table out : List (String × TagId))
    → Inverse table seen
    → number_seeds names table ≡ ok out
    → Inverse out (seen ++ names)
unfolding number_seeds insert_new
number_seeds-Inverse [] seen table out inv h = rw append-nil (ground arith)
number_seeds-Inverse (m ∷ names) seen table out inv h = elim (Option-cases (find table m)) [
  | inl new ↦
      let rest =
        number_seeds-Inverse names (seen ++ m ∷ []) (try_insert table m (length table)) out
          (Inverse-try_insert table seen m inv new) (rw (new, insert_new, number_seeds) at h) in
      rw append_assoc at rest
  | inr (t, old) ↦ absurd (ground arith)
]

-- The two cases of `get_or_create_tag_id`.
pub get_or_create_tag_id_new :
    (b : InferenceRulesBuilder) (tag : String)
    → find b.tags tag ≡ none
    → get_or_create_tag_id b tag ≡ (
      record b {
        tag_names = b.tag_names ++ tag ∷ [];
        tags = try_insert b.tags tag (length b.tags);
      },
      length b.tags,
    )
unfolding get_or_create_tag_id
get_or_create_tag_id_new b tag h = rw (h, get_or_create_tag_id)

pub get_or_create_tag_id_old :
    (b : InferenceRulesBuilder) (tag : String) {t : TagId}
    → find b.tags tag ≡ some t
    → get_or_create_tag_id b tag ≡ (b, t)
unfolding get_or_create_tag_id
get_or_create_tag_id_old b tag h = rw (h, get_or_create_tag_id)

pub Built-Inverse : {b : InferenceRulesBuilder} → Built b → Inverse b.tags b.tag_names
unfolding make_builder mark_operation_as_action add_output_rules_for_action
Built-Inverse (start seeds h) =
    let (table, run, e) = >>=-eq-ok (number_seeds seeds []) _ h in
    subst (λ b. Inverse b.tags b.tag_names) (ok-injective e)
      (number_seeds-Inverse seeds [] [] table Inverse-nil run)
Built-Inverse (mark {b} operation action built h) =
    let (actions, run, e) = >>=-eq-ok (insert_new b.actions operation action) _ h in
    subst (λ c. Inverse c.tags c.tag_names) (ok-injective e) (Built-Inverse built)
Built-Inverse (add_rules {b} action rules built h) =
    let (table, run, e) = >>=-eq-ok (insert_new b.action_rules action rules) _ h in
    subst (λ c. Inverse c.tags c.tag_names) (ok-injective e) (Built-Inverse built)
Built-Inverse (create {b} tag built) = elim (Option-cases (find b.tags tag)) [
  | inl new ↦
      rw (get_or_create_tag_id_new b tag new)
        (Inverse-try_insert b.tags b.tag_names tag (Built-Inverse built) new)
  | inr (t, old) ↦ rw (get_or_create_tag_id_old b tag old) (Built-Inverse built)
]

-- In the rules that a builder ends with, a name has the id t exactly if t has that name.
pub get_tag_id-iff_get_tag_name :
    {b : InferenceRulesBuilder}
    → Built b
    → (name : String) (t : TagId)
    → (get_tag_id (build b) name ≡ some t) ↔ (get_tag_name (build b) t ≡ some name)
unfolding get_tag_id get_tag_name build
get_tag_id-iff_get_tag_name built name t = (Built-Inverse built).agree name t

-- Get_or_create_tag_id returns the id under which the tag is found from then on, leaves the id of
-- every tag that has one, and a second call returns the same id and changes nothing.
pub get_or_create_tag_id_stable :
    (b : InferenceRulesBuilder) (tag name : String) (t : TagId)
    → let r = get_or_create_tag_id b tag in
      (get_tag_id (build r.0) tag ≡ some r.1)
      × (get_tag_id (build b) name ≡ some t → get_tag_id (build r.0) name ≡ some t)
      × (get_or_create_tag_id r.0 tag ≡ r)
unfolding get_tag_id build
get_or_create_tag_id_stable b tag name t = elim (Option-cases (find b.tags tag)) [
  | inl new ↦
      let table = try_insert b.tags tag (length b.tags) in
      let found = find-try_insert_new b.tags tag (length b.tags) tag new in
      let hit : find table tag ≡ some (length b.tags) =
        ground (arith, found, string_eq.beq_iff tag tag) in
      rw (get_or_create_tag_id_new b tag new) (
        hit,
        λ h. ground (
          arith,
          find-try_insert_new b.tags tag (length b.tags) name new,
          string_eq.beq_iff tag name,
          new,
        ),
        get_or_create_tag_id_old _ tag hit,
      )
  | inr (u, old) ↦
      rw (get_or_create_tag_id_old b tag old) (old, λ h. h, get_or_create_tag_id_old b tag old)
]
