-- ===== src/Ambient/PolicyChecker/Changes.antt =====
-- What `ChangeSetting` of src/frontends/ambient/policy_checker.cc does to the settings.
use raksha.Common.{
  true, false, ◌&&◌, ◌||◌, ◌≡◌, refl, sym, ◌∙◌, ap, some, Option, ok, ◌==◌, arith, Bool, Bool-cases,
  inl, inr, >>=-eq-ok, ok-injective, if◌then◌else◌, check, subst,
}
use raksha.Common.Maps.{find, assign, find-assign}
use raksha.Ambient.Names.{
  User, owner, guest, Settings, get_user_name, get_settings_name, user_eq, settings_eq,
}
use raksha.Ambient.PolicyChecker.{
  PolicyChecker, SouffleProgram, can_user_change_setting, can_user_change_named_setting,
  change_setting, set_user_setting, settings_of,
}

-- The value of a setting, if the user has one.
abbrev pub setting_of : PolicyChecker → User → Settings → Option Bool
setting_of c user setting = find (settings_of c user) setting

settings_of-set_user_setting :
    (c : PolicyChecker) (user u : User) (setting : Settings) (value : Bool)
    → settings_of (set_user_setting c user setting value) u
      ≡ (if user == u then assign (settings_of c user) setting value else settings_of c u)
unfolding set_user_setting settings_of
settings_of-set_user_setting c user u setting value =
    let law = find-assign c.user_settings user (assign (settings_of c user) setting value) u in
    ground (arith, law)

setting_of-set_user_setting :
    (c : PolicyChecker) (user u : User) (setting s : Settings) (value : Bool)
    → setting_of (set_user_setting c user setting value) u s
      ≡ (if user == u && setting == s then some value else setting_of c u s)
setting_of-set_user_setting c user u setting s value = elim (Bool-cases (user == u)) [
  | inr differ ↦ rw (settings_of-set_user_setting c user u setting value, differ) refl
  | inl same ↦
      rw (settings_of-set_user_setting c user u setting value, same)
        (find-assign (settings_of c user) setting value s
          ∙ rw ((user_eq.beq_iff user u).0 same) refl)
]

-- The setting alone has changed, or nothing.
abbrev pub Changed : PolicyChecker → User → Settings → Bool → PolicyChecker → Bool → Type 0
Changed c user setting value c' true =
    (u : User) (s : Settings)
    → setting_of c' u s ≡ (if user == u && setting == s then some value else setting_of c u s)
Changed c user setting value c' false = c' ≡ c

module _ (souffle : SouffleProgram) where
  -- A change of a setting succeeds exactly as the check for it says; if it does, that setting of
  -- that user has the value and every other setting is as before, else nothing changes; and the
  -- edges stay.
  pub change_setting_lem :
      (c c' : PolicyChecker) (user : User) (setting : Settings) (value changed : Bool)
      → change_setting souffle c user setting value ≡ ok (c', changed)
      → (can_user_change_setting souffle user setting ≡ ok changed)
        × Changed c user setting value c' changed
        × (c'.edges ≡ c.edges)
  unfolding change_setting can_user_change_setting
  change_setting_lem c c' user setting value changed h =
      let (user_name, run, h1) = >>=-eq-ok (get_user_name user) _ h in
      let (settings_name, run', h2) = >>=-eq-ok (get_settings_name setting) _ h1 in
      elim (Bool-cases (can_user_change_named_setting souffle user_name settings_name)) [
        | inl allowed ↦
            let h3 = rw allowed at h2 in
            let (_, checked, h4) = >>=-eq-ok (check (user == owner || user == guest)) _ h3 in
            let is_c' : set_user_setting c user setting value ≡ c' =
              ap (λ p. p.0) (ok-injective h4) in
            let is_changed : true ≡ changed = ap (λ p. p.1) (ok-injective h4) in
            (
              rw (run, run', allowed) (ap ok is_changed),
              subst (Changed c user setting value c') is_changed
                  (λ u s. rw (sym is_c') (setting_of-set_user_setting c user u setting s value)),
              rw (sym is_c') (unfold set_user_setting in refl),
            )
        | inr refused ↦
            let h3 = rw refused at h2 in
            let is_c' : c ≡ c' = ap (λ p. p.0) (ok-injective h3) in
            let is_changed : false ≡ changed = ap (λ p. p.1) (ok-injective h3) in
            (
              rw (run, run', refused) (ap ok is_changed),
              subst (Changed c user setting value c') is_changed (sym is_c'),
              rw (sym is_c') refl,
            )
      ]
