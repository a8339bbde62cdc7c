-- ===== src/Ambient/PolicyChecker/Reached.antt =====
-- The states that a client of src/frontends/ambient/policy_checker.h can bring about, and which calls
-- return in them.
use raksha.Ambient.PolicyChecker.Edges.{Settled-settings, add_if_valid_named_edge_lem}
use raksha.Common.{
  ◌==◌, ◌||◌, true, false, ◌&&◌, ◌≡◌, refl, sym, ap, ok, fatal, Bool, List, [], All, Returns,
  returns, arith, Bool-cases, inl, inr, >>=-eq-ok, ok-injective, String, subst, Option-cases, check,
  Returns-bind, fold_m-Returns, All-map,
}
use raksha.Common.Maps.{find, All-find, All-assign}
use raksha.Ambient.Names.{
  Node, smart_microphone, demo_application, demo_application_asr, demo_application_audio_store,
  User, owner, guest, Settings, get_user_name, get_settings_name, user_eq, settings_eq,
  get_data_connection_name,
}
use raksha.Ambient.PolicyChecker.{
  PolicyChecker, SouffleProgram, SettingsMap, make_policy_checker, update_setting, update_user,
  update_settings, validate_policy_compliance, add_if_valid_edge, is_valid_edge, change_setting,
  add_if_valid_named_edge, is_valid_named_edge, update_edges, all_enabled, set_user_setting,
  settings_of, add_edge, remove_edge, is_edge_present, can_user_change_named_setting, is_empty,
  Outcome,
}

-- Every user and every setting of the checker has a name.
abbrev HasName : Settings × Bool → Type 0
HasName p = (n : String) × (get_settings_name p.0 ≡ ok n)

abbrev Named : User × SettingsMap → Type 0
Named p = ((n : String) × (get_user_name p.0 ≡ ok n)) × All HasName p.1

AllNamed : List (User × SettingsMap) → Type 0
AllNamed = All Named

update_setting_total :
    (user : User) (rel : List (String × String)) (p : Settings × Bool)
    → (n : String) × (get_user_name user ≡ ok n)
    → HasName p
    → Returns (λ _. Unit {0}) (update_setting user rel p)
unfolding update_setting
update_setting_total user rel (usage, true) (n, e) (k, e') = rw (e, e') (returns tt)
update_setting_total user rel (usage, false) h h' = returns tt

update_settings_total :
    (rel : List (String × String)) (settings : List (User × SettingsMap))
    → AllNamed settings
    → Returns (λ _. Unit {0}) (update_settings rel settings)
unfolding update_settings update_user AllNamed
update_settings_total rel settings all =
    fold_m-Returns Named update_user rel settings all (λ rel p h.
      fold_m-Returns HasName (update_setting p.0) rel p.1 h.1
        (λ rel s g. update_setting_total p.0 rel s h.0 g))

set_user_setting-AllNamed :
    (c : PolicyChecker) (user : User) (setting : Settings) (value : Bool)
    → (n : String) × (get_user_name user ≡ ok n)
    → (n : String) × (get_settings_name setting ≡ ok n)
    → AllNamed c.user_settings
    → AllNamed (set_user_setting c user setting value).user_settings
unfolding set_user_setting settings_of AllNamed
set_user_setting-AllNamed c user setting value u s all =
    let old : All HasName (settings_of c user) = elim (Option-cases (find c.user_settings user)) [
      | inl new ↦ rw (settings_of, new) tt
      | inr (m, there) ↦
          rw (settings_of, there)
            (All-find (All HasName) c.user_settings user m
              (All-map Named (λ p. All HasName p.1) c.user_settings (λ p h. h.1) all) there)
    ] in
    All-assign Named c.user_settings user _ all
      (u, All-assign HasName (settings_of c user) setting value old s)

-- A call returns, or it stops at a failed `CHECK`.
abbrev pub Answers : {A : Type 0} → Bool → Outcome A → Type 0
Answers true m = Returns (λ _. Unit {0}) m
Answers false m = m ≡ fatal

-- The specification of the connections: which nodes send, and which receive.
abbrev pub sends : Node → Bool
sends smart_microphone = true
sends demo_application = true
sends _ = false

abbrev pub receives : Node → Bool
receives demo_application = true
receives demo_application_asr = true
receives demo_application_audio_store = true
receives _ = false

connection_out :
    (n : Node) → sends n ≡ true → (s : String) × (get_data_connection_name n false ≡ ok s)
unfolding get_data_connection_name
connection_out smart_microphone h = (_, refl)
connection_out demo_application h = (_, refl)
connection_out Node.unknown h = cc
connection_out demo_application_asr h = cc
connection_out demo_application_audio_store h = cc

connection_in :
    (n : Node) → receives n ≡ true → (s : String) × (get_data_connection_name n true ≡ ok s)
unfolding get_data_connection_name
connection_in demo_application h = (_, refl)
connection_in demo_application_asr h = (_, refl)
connection_in demo_application_audio_store h = (_, refl)
connection_in Node.unknown h = cc
connection_in smart_microphone h = cc

connection_out-fatal : (n : Node) → sends n ≡ false → get_data_connection_name n false ≡ fatal
unfolding get_data_connection_name
connection_out-fatal n h = ground arith

connection_in-fatal : (n : Node) → receives n ≡ false → get_data_connection_name n true ≡ fatal
unfolding get_data_connection_name
connection_in-fatal n h = ground arith

module _ (souffle : SouffleProgram) where
  pub data Reached : PolicyChecker → Type 0 where
    start : Reached make_policy_checker
    add :
        {c d : PolicyChecker} (source target : Node) (answer : Bool × String)
        → Reached c
        → add_if_valid_edge souffle c source target ≡ ok (d, answer)
        → Reached d
    check_edge :
        {c d : PolicyChecker} (source target : Node) (answer : Bool × String)
        → Reached c
        → is_valid_edge souffle c source target ≡ ok (d, answer)
        → Reached d
    change :
        {c d : PolicyChecker} (user : User) (setting : Settings) (value answer : Bool)
        → Reached c
        → change_setting souffle c user setting value ≡ ok (d, answer)
        → Reached d

  validate_total :
      (c : PolicyChecker)
      → AllNamed c.user_settings
      → Returns (λ _. Unit {0}) (validate_policy_compliance souffle c)
  unfolding validate_policy_compliance
  validate_total c all = Returns-bind (update_settings_total [] c.user_settings all) (λ rel _.
      elim (Bool-cases (is_empty (souffle.disallowed_usage (update_edges [] c.edges) rel))) [
        | inl e ↦ rw e (returns tt)
        | inr e ↦ rw e (returns tt)
      ])

  add_if_valid_named_edge_total :
      (c : PolicyChecker) (edge : String × String)
      → AllNamed c.user_settings
      → Returns (λ _. Unit {0}) (add_if_valid_named_edge souffle c edge)
  unfolding add_if_valid_named_edge add_edge
  add_if_valid_named_edge_total c edge all = elim (Bool-cases (is_edge_present c edge)) [
    | inl there ↦ rw there (Returns-bind (validate_total c all) (λ a _. returns tt))
    | inr new ↦ rw new (Returns-bind (validate_total (add_edge c edge) all) (λ a _. returns tt))
  ]

  is_valid_named_edge_total :
      (c : PolicyChecker) (edge : String × String)
      → AllNamed c.user_settings
      → Returns (λ _. Unit {0}) (is_valid_named_edge souffle c edge)
  unfolding is_valid_named_edge add_edge
  is_valid_named_edge_total c edge all =
      Returns-bind (validate_total (add_edge c edge) all) (λ a _. returns tt)

  change_setting-AllNamed :
      (c d : PolicyChecker) (user : User) (setting : Settings) (value answer : Bool)
      → change_setting souffle c user setting value ≡ ok (d, answer)
      → AllNamed c.user_settings
      → AllNamed d.user_settings
  unfolding change_setting
  change_setting-AllNamed c d user setting value answer h all =
      let (user_name, run, h1) = >>=-eq-ok (get_user_name user) _ h in
      let (settings_name, run', h2) = >>=-eq-ok (get_settings_name setting) _ h1 in
      elim (Bool-cases (can_user_change_named_setting souffle user_name settings_name)) [
        | inl allowed ↦
            let (_, checked, h3) =
              >>=-eq-ok (check (user == owner || user == guest)) _ (rw allowed at h2) in
            subst (λ d. AllNamed d.user_settings) (ap (λ p. p.0) (ok-injective h3))
              (set_user_setting-AllNamed c user setting value (user_name, run) (settings_name, run')
                all)
        | inr refused ↦
            subst (λ d. AllNamed d.user_settings) (ap (λ p. p.0) (ok-injective (rw refused at h2)))
              all
      ]

  -- An edge never changes the settings.
  add-settings :
      (c d : PolicyChecker) (source target : Node) (answer : Bool × String)
      → add_if_valid_edge souffle c source target ≡ ok (d, answer)
      → d.user_settings ≡ c.user_settings
  unfolding add_if_valid_edge
  add-settings c d source target answer h =
      let (src, _, h1) = >>=-eq-ok (get_data_connection_name source false) _ h in
      let (tgt, _, h2) = >>=-eq-ok (get_data_connection_name target true) _ h1 in
      Settled-settings souffle c d (src, tgt) answer.0
        (add_if_valid_named_edge_lem souffle c d (src, tgt) answer.0 answer.1 h2)

  check_edge-settings :
      (c d : PolicyChecker) (source target : Node) (answer : Bool × String)
      → is_valid_edge souffle c source target ≡ ok (d, answer)
      → d.user_settings ≡ c.user_settings
  unfolding is_valid_edge is_valid_named_edge add_edge remove_edge
  check_edge-settings c d source target answer h =
      let (src, _, h1) = >>=-eq-ok (get_data_connection_name source false) _ h in
      let (tgt, _, h2) = >>=-eq-ok (get_data_connection_name target true) _ h1 in
      let (a, _, h3) =
        >>=-eq-ok (validate_policy_compliance souffle (add_edge c (src, tgt))) _ h2 in
      sym (ap (λ p. p.0.user_settings) (ok-injective h3))

  Reached-AllNamed : {c : PolicyChecker} → Reached c → AllNamed c.user_settings
  unfolding AllNamed get_user_name get_settings_name
  Reached-AllNamed start =
      let settings : All HasName all_enabled =
        (("ASR", refl), (("Streaming", refl), (("Recording", refl), tt))) in
      ((("OwnerUser", refl), settings), ((("GuestUser", refl), settings), tt))
  Reached-AllNamed (add {c} {d} source target answer r h) =
      rw (add-settings c d source target answer h) (Reached-AllNamed r)
  Reached-AllNamed (check_edge {c} {d} source target answer r h) =
      rw (check_edge-settings c d source target answer h) (Reached-AllNamed r)
  Reached-AllNamed (change {c} {d} user setting value answer r h) =
      change_setting-AllNamed c d user setting value answer h (Reached-AllNamed r)

  edge_calls-Returns :
      (c : PolicyChecker) (source target : Node)
      → AllNamed c.user_settings
      → (sends source && receives target) ≡ true
      → Returns (λ _. Unit {0}) (add_if_valid_edge souffle c source target)
        × Returns (λ _. Unit {0}) (is_valid_edge souffle c source target)
  unfolding add_if_valid_edge is_valid_edge
  edge_calls-Returns c source target all h =
      let (src, e) = connection_out source (ground arith) in
      let (tgt, e') = connection_in target (ground arith) in
      rw (e, e')
        (add_if_valid_named_edge_total c (src, tgt) all, is_valid_named_edge_total c (src, tgt) all)

  edge_calls-fatal :
      (c : PolicyChecker) (source target : Node)
      → (sends source && receives target) ≡ false
      → (add_if_valid_edge souffle c source target ≡ fatal)
        × (is_valid_edge souffle c source target ≡ fatal)
  unfolding add_if_valid_edge is_valid_edge
  edge_calls-fatal c source target h = elim (Bool-cases (sends source)) [
    | inr silent ↦ rw (connection_out-fatal source silent) (refl, refl)
    | inl speaks ↦
        let (src, e) = connection_out source speaks in
        rw (e, connection_in-fatal target (ground arith)) (refl, refl)
  ]

  edge_calls-Answers :
      (c : PolicyChecker) (source target : Node) (b : Bool)
      → (sends source && receives target) ≡ b
      → AllNamed c.user_settings
      → Answers b (add_if_valid_edge souffle c source target)
        × Answers b (is_valid_edge souffle c source target)
  edge_calls-Answers c source target true h named = edge_calls-Returns c source target named h
  edge_calls-Answers c source target false h named = edge_calls-fatal c source target h

  -- In every state that calls of the checker can bring about, the policy check returns, and an edge
  -- can be added or checked without a failed CHECK exactly if its source sends and its target
  -- receives.
  pub edge_calls_total :
      {c : PolicyChecker} (source target : Node)
      → Reached c
      → (Returns (λ _. Unit {0}) (validate_policy_compliance souffle c))
        × Answers (sends source && receives target) (add_if_valid_edge souffle c source target)
        × Answers (sends source && receives target) (is_valid_edge souffle c source target)
  edge_calls_total {c} source target r =
      let named = Reached-AllNamed r in
      let (added, checked) = edge_calls-Answers c source target _ refl named in
      (validate_total c named, added, checked)
