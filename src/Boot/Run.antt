-- ===== src/Boot/Run.antt =====
-- The loop of `Run` in internal/weaveboot/weaveboot.go. Each pass takes what the clock, the core and
-- the operating system do in it.
pub mod Reverts
use weaveplatform_agent_core.Base.{
  ℕ, suc, String, Bool, true, false, not, ◌&&◌, ◌||◌, Option, none, some, List, [], ◌∷◌, leb, ltb,
  ◌==◌, ◌===◌, if◌then◌else◌,
}
use weaveplatform_agent_core.Boot.{CoreDir, Boot, Faults, promote_staged, has_binary, revert}

-- Options, in seconds; zero takes the default.
pub record Limits : Type 0 where
  pub stable_after_set : ℕ
  pub revert_threshold_set : ℕ

unfoldable pub uptime_to_be_good : Limits → ℕ
uptime_to_be_good l = if l.stable_after_set == 0 then 60 else l.stable_after_set

unfoldable pub revert_threshold : Limits → ℕ
revert_threshold l = if l.revert_threshold_set == 0 then 3 else l.revert_threshold_set

pub record BootPass : Type 0 where
  pub ended_before : Bool
  pub faults : Faults
  -- a binary stands beside weaveboot
  pub beside : Bool
  -- the context ends while the core runs
  pub ended_running : Bool
  -- the core wrote its readiness marker, and how long it ran
  pub became_ready : Bool
  pub uptime : ℕ
  pub ended_waiting : Bool

pub data Status : Type 0 where
  going : Status
  -- nil, on the end of the context
  ended : Status
  -- the error that no core is found
  no_core : Status

pub record Booted : Type 0 where
  pub dir : CoreDir
  pub crashes : ℕ
  -- the versions run, the latest first
  pub ran : List String
  pub status : Status

-- `currentBinary`: the version, `none` for an error.
unfoldable pub current_binary : Bool → CoreDir → Option String
current_binary beside d =
    if d.current === ""
    then if beside then some "unversioned" else none
    else if has_binary d.current d
    then some d.current
    else none

abbrev pub wait : BootPass → Booted → Booted
wait p s = if p.ended_waiting then record s { status = ended } else s

abbrev pub reverted_or_not : BootPass → Booted → CoreDir × Option String → Booted
reverted_or_not p s (d, some previous) = record s { dir = d; crashes = 0 }
reverted_or_not p s (d, none) = wait p (record s { dir = d; crashes = 0 })

-- A crash before the core proved stable.
abbrev pub count_crash : Limits → BootPass → String → Booted → Booted
count_crash l p version s =
    if leb (revert_threshold l) (suc s.crashes)
    then reverted_or_not p s (revert p.faults version s.dir)
    else wait p (record s { crashes = suc s.crashes })

abbrev pub after_exit : Limits → BootPass → String → Booted → Booted
after_exit l p version s =
    if p.ended_running
    then record s { status = ended }
    else if p.became_ready || leb (uptime_to_be_good l) p.uptime
    then record s { crashes = 0 }
    else count_crash l p version s

abbrev pub launch_core : Limits → BootPass → Booted → Option String → Booted
launch_core l p s none = record s { status = no_core }
launch_core l p s (some version) = after_exit l p version (record s { ran = version ∷ s.ran })

abbrev pub promoted_dir : Boot → BootPass → Booted → Booted
promoted_dir o p s = record s { dir = promote_staged o p.faults s.dir }

unfoldable pub boot_pass : Boot → Limits → BootPass → Booted → Booted
boot_pass o l p s =
    let q = promoted_dir o p s in
    if p.ended_before
    then record s { status = ended }
    else launch_core l p q (current_binary p.beside q.dir)

abbrev pub pass_if_going : Boot → Limits → BootPass → Booted → Status → Booted
pass_if_going o l p s going = boot_pass o l p s
pass_if_going o l p s ended = s
pass_if_going o l p s no_core = s

unfoldable pub boot_loop : Boot → Limits → List BootPass → Booted → Booted
boot_loop o l [] s = s
boot_loop o l (p ∷ ps) s = boot_loop o l ps (pass_if_going o l p s s.status)
