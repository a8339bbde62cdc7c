-- ===== src/Ambient/PolicyChecker.antt =====
-- src/frontends/ambient/policy_checker.{h,cc}: `PolicyChecker`. Its data members are a record; what
-- the Datalog program answers is a parameter.
pub mod Edges
pub mod Changes
pub mod Reached
use raksha.Common.{
  String, ◌<>◌, Bool, true, false, ◌&&◌, List, [], ◌∷◌, none, some, Outcome, ok, fatal, ◌>>=◌, ◌>>◌,
  check, fold_m, any_of, is_empty, ◌==◌, string_eq, pair_eq, if◌then◌else◌, ◌||◌,
}
use raksha.Common.Maps.{find, assign}
use raksha.Common.Sets.{contains, insert, erase, union}
use raksha.Ambient.Names.{
  Node, User, owner, guest, Settings, streaming, asr, recording, user_eq, settings_eq,
  get_settings_name, get_settings, get_user_name, get_data_connection_name,
}

abbrev pub DataFlowEdge : Type 0
DataFlowEdge = String × String

abbrev pub SettingsMap : Type 0
SettingsMap = List (Settings × Bool)

pub record PolicyChecker : Type 0 where
  pub edges : List DataFlowEdge
  pub user_settings : List (User × SettingsMap)

-- The generated Datalog program: the relation `disallowedUsage` after a run on the rows of `edge`
-- and of `says_isEnabled`, and the relation `says_canSay_isEnabled` after a run on no rows.
pub record SouffleProgram : Type 0 where
  pub disallowed_usage :
      List (String × String) → List (String × String) → List (String × String × String × String)
  pub says_can_say_is_enabled : List (String × String × String)

abbrev pub all_enabled : SettingsMap
all_enabled = (asr, true) ∷ (streaming, true) ∷ (recording, true) ∷ []

abbrev pub make_policy_checker : PolicyChecker
make_policy_checker = record {
  edges = [];
  user_settings = (owner, all_enabled) ∷ (guest, all_enabled) ∷ [];
}

-- A relation is a set of rows.
unfoldable pub update_edges : List (String × String) → List DataFlowEdge → List (String × String)
update_edges rel edges = union rel edges

unfoldable pub update_setting :
    User → List (String × String) → Settings × Bool → Outcome (List (String × String))
update_setting user rel (usage, allowed) =
    if allowed
    then (do
      user_name ← get_user_name user
      usage_name ← get_settings_name usage
      ok (insert rel (user_name, usage_name)))
    else ok rel

update_user : List (String × String) → User × SettingsMap → Outcome (List (String × String))
unfolding update_setting
update_user rel (user, settings) = fold_m (update_setting user) rel settings

unfoldable pub update_settings :
    List (String × String) → List (User × SettingsMap) → Outcome (List (String × String))
unfolding update_user
update_settings rel user_settings = fold_m update_user rel user_settings

add_edge : PolicyChecker → DataFlowEdge → PolicyChecker
add_edge c edge = record c { edges = insert c.edges edge }

unfoldable pub is_edge_present : PolicyChecker → DataFlowEdge → Bool
is_edge_present c edge = contains c.edges edge

remove_edge : PolicyChecker → DataFlowEdge → PolicyChecker
remove_edge c edge = record c { edges = erase c.edges edge }

disallowed_usages : String → List (String × String × String × String) → String
disallowed_usages reason [] = reason
disallowed_usages reason ((data_consumer, usage, own, tag) ∷ rows) =
    disallowed_usages (reason <> " '" <> usage <> "' for '" <> tag <> "' of '" <> own <> "'\n") rows

-- `user_settings_[user]`, which is empty where the entry is missing.
unfoldable pub settings_of : PolicyChecker → User → SettingsMap
settings_of c user = elim (find c.user_settings user) [ some m ↦ m | none ↦ [] ]

-- `user_settings_[user][setting] = value`
unfoldable pub set_user_setting : PolicyChecker → User → Settings → Bool → PolicyChecker
unfolding settings_of
set_user_setting c user setting value = record c {
  user_settings = assign c.user_settings user (assign (settings_of c user) setting value);
}

-- The row that lets a user decide on a setting.
unfoldable pub lets_change : String → String → String × String × String → Bool
lets_change user setting_name (speaker, delegatee1, usage) =
    speaker == "SystemSettingsManager" && delegatee1 == user && usage == setting_name

add_available : String → List String → List (String × String × String) → List String
add_available user result [] = result
add_available user result ((speaker, delegatee1, usage) ∷ rows) =
    add_available user
      (if speaker == "SystemSettingsManager" && delegatee1 == user
        then insert result usage
        else result)
      rows

module _ (souffle : SouffleProgram) where
  unfoldable pub validate_policy_compliance : PolicyChecker → Outcome (Bool × String)
  unfolding update_edges update_settings disallowed_usages
  validate_policy_compliance c = do
    let edge = update_edges [] c.edges
    says_is_enabled ← update_settings [] c.user_settings
    let rows = souffle.disallowed_usage edge says_is_enabled
    if is_empty rows
        then ok (true, "Success")
        else ok (false, disallowed_usages "Disallowed Usages:\n" rows)

  -- The private `AddIfValidEdge`, on the names of the connections.
  unfoldable pub add_if_valid_named_edge :
      PolicyChecker → DataFlowEdge → Outcome (PolicyChecker × (Bool × String))
  unfolding is_edge_present add_edge remove_edge validate_policy_compliance
  add_if_valid_named_edge c edge = do
    let edge_already_in_context = is_edge_present c edge
    let added = if edge_already_in_context then c else add_edge c edge
    (valid, reason) ← validate_policy_compliance added
    ok (
      if valid then added else if edge_already_in_context then added else remove_edge added edge,
      (valid, reason),
    )

  unfoldable pub add_if_valid_edge :
      PolicyChecker → Node → Node → Outcome (PolicyChecker × (Bool × String))
  unfolding add_if_valid_named_edge
  add_if_valid_edge c source target = do
    src ← get_data_connection_name source false
    tgt ← get_data_connection_name target true
    add_if_valid_named_edge c (src, tgt)

  -- The private `IsValidEdge`.
  unfoldable pub is_valid_named_edge :
      PolicyChecker → DataFlowEdge → Outcome (PolicyChecker × (Bool × String))
  unfolding add_edge remove_edge validate_policy_compliance
  is_valid_named_edge c edge = do
    let added = add_edge c edge
    result ← validate_policy_compliance added
    ok (remove_edge added edge, result)

  unfoldable pub is_valid_edge :
      PolicyChecker → Node → Node → Outcome (PolicyChecker × (Bool × String))
  unfolding is_valid_named_edge
  is_valid_edge c source target = do
    src ← get_data_connection_name source false
    tgt ← get_data_connection_name target true
    is_valid_named_edge c (src, tgt)

  -- The private `CanUserChangeSetting`.
  unfoldable pub can_user_change_named_setting : String → String → Bool
  unfolding lets_change
  can_user_change_named_setting user setting_name =
      any_of (lets_change user setting_name) souffle.says_can_say_is_enabled

  unfoldable pub can_user_change_setting : User → Settings → Outcome Bool
  unfolding can_user_change_named_setting
  can_user_change_setting user setting = do
    user_name ← get_user_name user
    settings_name ← get_settings_name setting
    ok (can_user_change_named_setting user_name settings_name)

  -- The private `AvailableSettings`.
  unfoldable pub available_named_settings : String → List String
  unfolding add_available
  available_named_settings user = add_available user [] souffle.says_can_say_is_enabled

  unfoldable pub available_settings : User → Outcome (List Settings)
  unfolding available_named_settings
  available_settings user = do
    user_name ← get_user_name user
    fold_m (λ result name. do s ← get_settings name; ok (insert result s)) []
        (available_named_settings user_name)

  unfoldable pub change_setting :
      PolicyChecker → User → Settings → Bool → Outcome (PolicyChecker × Bool)
  unfolding can_user_change_named_setting set_user_setting
  change_setting c user setting value = do
    user_name ← get_user_name user
    settings_name ← get_settings_name setting
    if can_user_change_named_setting user_name settings_name
        then (do
          check (user == owner || user == guest)
          ok (set_user_setting c user setting value, true))
        else ok (c, false)
