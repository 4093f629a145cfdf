-- ===== src/Tests/Locks.antt =====
-- The advisory lock at concrete inputs (`AdvisoryLock` of src/tools.cpp).
use jjmcp.Base.{ℕ, ◌≡◌, refl, Bool, true, false, none, ◌==◌, arith}
use jjmcp.Text.{Bytes, codes}
use jjmcp.Tools.Lock.{
  is_stale, read_pid, read_signed, leading_number, skip_spaces, opening, holding, lock_step,
}
use jjmcp.Tools.Lock.Exclusion.{World, Run, stay, step, IsSafe, one_holder, world_step}
use jjmcp.Tools.Lock.Race.{stale_world, stale_race}

-- Only process 9 is gone.
abbrev gone_nine : ℕ → Bool
gone_nine pid = pid == 9

abbrev all_live : ℕ → Bool
all_live pid = false

abbrev ids : ℕ → Bytes
ids pid = codes "1"

-- Nobody has opened the file yet.
abbrev idle : World
idle = record { file = none; local = λ _. opening 2 }

idle-IsSafe : IsSafe idle
idle-IsSafe = record { none_unlinks = λ p n e. cc; has_file = λ p e. cc; one_holds = λ p q e. cc }

-- Process 7 opens the file, and process 8 finds it.
abbrev behind : World
behind = world_step all_live (codes "lock") ids 8 (world_step all_live (codes "lock") ids 7 idle)

one_holder_example : (◌≡◌ {A = ℕ} 7 7)
unfolding lock_step
one_holder_example =
    one_holder all_live (codes "lock") ids (λ n. refl) idle behind idle-IsSafe
      (step 8 (step 7 stay)) 7 7 refl refl

nine_stale : is_stale gone_nine (codes "9 1\n") ≡ true
unfolding is_stale read_pid read_signed leading_number skip_spaces
nine_stale = refl

stale_race_example :
    (w : World) × Run gone_nine
      (codes "lock")
      ids
      (stale_world gone_nine (codes "lock") ids (codes "9 1\n"))
      w
    × (w.local 7 ≡ holding)
    × (w.local 8 ≡ holding)
stale_race_example =
    stale_race gone_nine (codes "lock") ids (codes "9 1\n") 7 8 (omega arith) nine_stale
