-- ===== src/Boot/Tests.antt =====
-- Cores promoted and reverted in concrete directories.
use weaveplatform_agent_core.Base.{
  false, none, some, [], ◌∷◌, lookup, insert, remove, eq_bytes, ◌===◌, ◌≡◌, ◌≢◌, refl, sym, ◌∙◌,
  eq_iff,
}
use weaveplatform_agent_core.Boot.{
  CoreDir, Boot, Faults, pick, mark, install_core, promote_staged, revert, has_binary,
}
use weaveplatform_agent_core.Boot.Run.{
  Limits, BootPass, boot_loop, uptime_to_be_good, revert_threshold,
}
use weaveplatform_agent_core.Boot.Run.Reverts.{
  IsRevertible, crashes_early, flipped, StandsAt, starting, boot_loop_reverts,
}
use weaveplatform_agent_core.Boot.Core.{
  IsPromoted, promote_staged-IsPromoted, revert-promote_staged,
}

abbrev boot : Boot
boot = record { higher = λ a b. a === "2.0.0"; verify_core = some (λ b. eq_bytes b (2 ∷ [])) }

abbrev quiet : Faults
quiet = record {
  mkdir_fails = false;
  rename_fails = false;
  write_current_fails = false;
  write_previous_fails = false;
  refused_left = none;
  destination_left = none;
  staging_left = none;
}

abbrev dir : CoreDir
dir = record {
  current = "1.0.0";
  previous = "";
  versions = ("1.0.0", some (1 ∷ [])) ∷ [];
  staging = some (("1.5.0", some (7 ∷ [])) ∷ ("2.0.0", some (2 ∷ [])) ∷ ("3.0.0", none) ∷ []);
}

becomes_current : (promote_staged boot quiet dir).current ≡ "2.0.0"
unfolding promote_staged pick install_core mark eq_bytes remove insert
becomes_current = refl

not_the_old : (promote_staged boot quiet dir).current ≢ dir.current
not_the_old e = cc ((eq_iff "2.0.0" "1.0.0").1 (sym becomes_current ∙ e))

tampered_stays :
    (promote_staged (record boot { verify_core = some (λ b. false) }) quiet dir).current ≡ "1.0.0"
unfolding promote_staged pick install_core mark remove
tampered_stays = refl

not_empty : dir.current ≢ ""
not_empty e = cc ((eq_iff "1.0.0" "").1 e)

old_binary : lookup "1.0.0" dir.versions ≡ some (some (1 ∷ []))
unfolding lookup
old_binary = refl

promote_staged-IsPromoted_example : IsPromoted boot dir (promote_staged boot quiet dir)
promote_staged-IsPromoted_example = promote_staged-IsPromoted boot quiet dir refl not_the_old

revert-promote_staged_example :
    ((revert quiet (promote_staged boot quiet dir).current (promote_staged boot quiet dir)).1
      ≡ some "1.0.0")
    × ((revert quiet
          (promote_staged boot quiet dir).current
          (promote_staged boot quiet dir)).0.current
        ≡ "1.0.0")
    × ((revert quiet
          (promote_staged boot quiet dir).current
          (promote_staged boot quiet dir)).0.previous
        ≡ (promote_staged boot quiet dir).current)
revert-promote_staged_example =
    revert-promote_staged boot quiet quiet dir (1 ∷ []) refl (refl, refl) not_empty old_binary
      not_the_old

abbrev upgraded : CoreDir
upgraded = record {
  current = "2.0.0";
  previous = "1.0.0";
  versions = ("1.0.0", some (1 ∷ [])) ∷ ("2.0.0", some (2 ∷ [])) ∷ [];
  staging = none;
}

abbrev defaults : Limits
defaults = record { stable_after_set = 0; revert_threshold_set = 0 }

abbrev early_crash : BootPass
early_crash = record {
  ended_before = false;
  faults = quiet;
  beside = false;
  ended_running = false;
  became_ready = false;
  uptime = 5;
  ended_waiting = false;
}

upgraded-IsRevertible : IsRevertible upgraded
unfolding has_binary lookup
upgraded-IsRevertible = record {
  nothing_staged = refl;
  current_named = refl;
  current_binary_there = refl;
  previous_named = refl;
  versions_differ = refl;
  previous_binary_there = refl;
}

boot_loop_reverts_example :
    StandsAt upgraded 2
      (boot_loop boot defaults (early_crash ∷ early_crash ∷ []) (starting upgraded))
    × StandsAt
        (flipped upgraded)
        0
        (boot_loop boot defaults (early_crash ∷ early_crash ∷ early_crash ∷ []) (starting upgraded))
unfolding crashes_early uptime_to_be_good revert_threshold
boot_loop_reverts_example =
    boot_loop_reverts boot defaults (early_crash ∷ early_crash ∷ []) early_crash upgraded
      upgraded-IsRevertible refl refl refl
