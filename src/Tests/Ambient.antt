-- ===== src/Tests/Ambient.antt =====
-- The policy checker of the ambient demonstration with a small Datalog program: audio may not reach the
-- store while recording is enabled for a guest, and the owner may change the recording setting.
use raksha.Common.Maps.{find, assign}
use raksha.Common.{
  ◌&&◌, ◌==◌, [], ◌∷◌, ok, some, true, false, ◌≡◌, refl, ◌↔◌, string_eq, pair_eq, Returns,
  if◌then◌else◌,
}
use raksha.Common.Sets.{contains, insert, erase, union}
use raksha.Ambient.Names.{
  demo_application, smart_microphone, demo_application_asr, owner, recording, User, Settings,
  user_eq, settings_eq, get_user_name, get_settings_name, get_data_connection_name,
}
use raksha.Ambient.PolicyChecker.{
  PolicyChecker, SouffleProgram, make_policy_checker, DataFlowEdge, add_if_valid_edge,
  is_valid_edge, change_setting, add_if_valid_named_edge, is_valid_named_edge, is_edge_present,
  can_user_change_setting, validate_policy_compliance, all_enabled, update_edges, update_settings,
  update_setting, can_user_change_named_setting, set_user_setting, settings_of, lets_change,
}
use raksha.Ambient.PolicyChecker.Edges.{add_if_valid_named_edge_lem, is_valid_named_edge_lem}
use raksha.Ambient.PolicyChecker.Changes.{setting_of, change_setting_lem}
use raksha.Ambient.PolicyChecker.Reached.{start, add, edge_calls_total, sends, receives, Answers}

abbrev to_store : DataFlowEdge
to_store = ("R.app_audio_stream_out", "R.store_audio_stream_in")

abbrev to_app : DataFlowEdge
to_app = ("R.mic_audio_stream_out", "R.app_audio_stream_in")

abbrev demo : SouffleProgram
demo = record {
  disallowed_usage = λ edge enabled.
      if contains edge to_store && contains enabled ("GuestUser", "Recording")
      then ("GuestUser", "Recording", "GuestUser", "RawAudio") ∷ []
      else [];
  says_can_say_is_enabled = ("SystemSettingsManager", "OwnerUser", "Recording") ∷ [];
}

abbrev one_edge : PolicyChecker
one_edge = record make_policy_checker { edges = to_app ∷ [] }

added : add_if_valid_named_edge demo make_policy_checker to_app ≡ ok (one_edge, (true, "Success"))
unfolding contains insert erase union pair_eq find assign user_eq settings_eq get_user_name
    get_settings_name get_data_connection_name add_if_valid_named_edge validate_policy_compliance
    update_edges update_settings update_setting is_edge_present is_valid_named_edge
    add_if_valid_edge change_setting can_user_change_named_setting set_user_setting settings_of
    lets_change
added = refl

rejected :
    add_if_valid_named_edge demo one_edge to_store
    ≡ ok (one_edge, (false, "Disallowed Usages:\n 'Recording' for 'RawAudio' of 'GuestUser'\n"))
unfolding contains insert erase union pair_eq find assign user_eq settings_eq get_user_name
    get_settings_name get_data_connection_name add_if_valid_named_edge validate_policy_compliance
    update_edges update_settings update_setting is_edge_present is_valid_named_edge
    add_if_valid_edge change_setting can_user_change_named_setting set_user_setting settings_of
    lets_change
rejected = refl

add_if_valid_named_edge_lem_example : one_edge ≡ one_edge
add_if_valid_named_edge_lem_example =
    add_if_valid_named_edge_lem demo one_edge one_edge to_store false _ rejected

-- To check an edge that is there takes it away.
lost : is_valid_named_edge demo one_edge to_app ≡ ok (make_policy_checker, (true, "Success"))
unfolding contains insert erase union pair_eq find assign user_eq settings_eq get_user_name
    get_settings_name get_data_connection_name add_if_valid_named_edge validate_policy_compliance
    update_edges update_settings update_setting is_edge_present is_valid_named_edge
    add_if_valid_edge change_setting can_user_change_named_setting set_user_setting settings_of
    lets_change
lost = refl

is_valid_named_edge_lem_example :
    ((make_policy_checker ≡ one_edge) ↔ (is_edge_present one_edge to_app ≡ false))
    × ((d : PolicyChecker) × (add_if_valid_named_edge demo one_edge to_app
          ≡ ok (d, (true, "Success"))))
is_valid_named_edge_lem_example =
    is_valid_named_edge_lem demo one_edge make_policy_checker to_app (true, "Success") lost

abbrev not_recording : PolicyChecker
not_recording = record {
  edges = to_app ∷ [];
  user_settings =
      (owner, (Settings.asr, true) ∷ (Settings.streaming, true) ∷ (recording, false) ∷ [])
      ∷ (User.guest, all_enabled)
      ∷ [];
}

changed : change_setting demo one_edge owner recording false ≡ ok (not_recording, true)
unfolding contains insert erase union pair_eq find assign user_eq settings_eq get_user_name
    get_settings_name get_data_connection_name add_if_valid_named_edge validate_policy_compliance
    update_edges update_settings update_setting is_edge_present is_valid_named_edge
    add_if_valid_edge change_setting can_user_change_named_setting set_user_setting settings_of
    lets_change
changed = refl

change_setting_lem_example :
    (can_user_change_setting demo owner recording ≡ ok true)
    × ((u : User) (s : Settings)
        → setting_of not_recording u s
          ≡ (if owner == u && recording == s then some false else setting_of one_edge u s))
    × (not_recording.edges ≡ one_edge.edges)
change_setting_lem_example =
    change_setting_lem demo one_edge not_recording owner recording false true changed

added_nodes :
    add_if_valid_edge demo make_policy_checker smart_microphone demo_application
    ≡ ok (one_edge, (true, "Success"))
unfolding contains insert erase union pair_eq find assign user_eq settings_eq get_user_name
    get_settings_name get_data_connection_name add_if_valid_named_edge validate_policy_compliance
    update_edges update_settings update_setting is_edge_present is_valid_named_edge
    add_if_valid_edge change_setting can_user_change_named_setting set_user_setting settings_of
    lets_change
added_nodes = refl

edge_calls_total_example :
    (Returns (λ _. Unit {0}) (validate_policy_compliance demo one_edge))
    × Answers
        (sends demo_application && receives demo_application_asr)
        (add_if_valid_edge demo one_edge demo_application demo_application_asr)
    × Answers
        (sends demo_application && receives demo_application_asr)
        (is_valid_edge demo one_edge demo_application demo_application_asr)
edge_calls_total_example =
    edge_calls_total demo demo_application demo_application_asr
      (add smart_microphone demo_application _ start added_nodes)
