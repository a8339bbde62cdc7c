-- ===== src/Ambient/Names.antt =====
-- src/frontends/ambient/policy_checker.cc, the names of settings, users and data connections.
use raksha.Common.{
  String, Bool, true, false, Outcome, ok, fatal, ◌>>◌, check, not, ◌==◌, Eq, ◌≡◌, ◌↔◌, arith,
}
use raksha.Common.{string_eq, if◌then◌else◌}

pub data Node : Type 0 where
  unknown smart_microphone demo_application demo_application_asr : Node
  demo_application_audio_store : Node

pub data User : Type 0 where
  unknown owner guest : User

pub data Settings : Type 0 where
  unknown streaming asr recording : Settings

unfoldable pub user_beq : User → User → Bool
user_beq User.unknown User.unknown = true
user_beq owner owner = true
user_beq guest guest = true
user_beq _ _ = false

pub user_beq_iff : (a b : User) → (user_beq a b ≡ true) ↔ (a ≡ b)
unfolding user_beq
user_beq_iff a b = ground arith

instance unfoldable pub user_eq : Eq User
unfolding user_beq
user_eq = record { beq = user_beq; beq_iff = user_beq_iff }

unfoldable pub settings_beq : Settings → Settings → Bool
settings_beq Settings.unknown Settings.unknown = true
settings_beq streaming streaming = true
settings_beq asr asr = true
settings_beq recording recording = true
settings_beq _ _ = false

pub settings_beq_iff : (a b : Settings) → (settings_beq a b ≡ true) ↔ (a ≡ b)
unfolding settings_beq
settings_beq_iff a b = ground arith

instance unfoldable pub settings_eq : Eq Settings
unfolding settings_beq
settings_eq = record { beq = settings_beq; beq_iff = settings_beq_iff }

unfoldable pub get_settings_name : Settings → Outcome String
get_settings_name asr = ok "ASR"
get_settings_name streaming = ok "Streaming"
get_settings_name recording = ok "Recording"
get_settings_name Settings.unknown = fatal

unfoldable pub get_settings : String → Outcome Settings
get_settings name =
    if name == "ASR"
    then ok asr
    else if name == "Streaming"
    then ok streaming
    else if name == "Recording"
    then ok recording
    else fatal

unfoldable pub get_user_name : User → Outcome String
get_user_name owner = ok "OwnerUser"
get_user_name guest = ok "GuestUser"
get_user_name User.unknown = fatal

unfoldable pub get_data_connection_name : Node → Bool → Outcome String
get_data_connection_name smart_microphone in_bound =
    check (not in_bound) >> ok "R.mic_audio_stream_out"
get_data_connection_name demo_application in_bound =
    ok (if in_bound then "R.app_audio_stream_in" else "R.app_audio_stream_out")
get_data_connection_name demo_application_asr in_bound =
    check in_bound >> ok "R.asr_audio_stream_in"
get_data_connection_name demo_application_audio_store in_bound =
    check in_bound >> ok "R.store_audio_stream_in"
get_data_connection_name Node.unknown in_bound = fatal
