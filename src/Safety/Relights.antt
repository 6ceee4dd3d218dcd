-- ===== src/Safety/Relights.antt =====
-- src/core/safety.c over a cook: how often a lost fire is lit again.
use pifire_c.Common.{ℕ, suc, ◌≤◌, ◌≡◌, ◌≢◌, arith, some}
use pifire_c.Common.Int.{ℤ, pos, negsuc}
use pifire_c.Common.Float.{Double}
use pifire_c.Mode.{Mode, reignite}
use pifire_c.Outputs.{Platform}
use pifire_c.Grill.{Control}
use pifire_c.Safety.Start.{on_startup_enter, on_startup_exit, on_run_enter}
use pifire_c.Safety.Start.Kept.{tries-on_startup_enter, tries-on_startup_exit, tries-on_run_enter}
use pifire_c.Safety.Tick.{tick}
use pifire_c.Safety.Tick.Outcome.{tick-Verdict}

-- the tries that a count stands for
abbrev pub tries : ℤ → ℕ
tries (pos n) = n
tries (negsuc n) = 0

module _ {W H : Type 0} ⦃d : Double W⦄ ⦃ops : Platform H⦄ where
  -- A cook from one light to its end, `k` times relit. Between two ticks the grill enters and leaves
  -- lights and runs, and anything else of it but the tries may change: the clock, the sensors, the
  -- settings, the mode and the outputs.
  pub data Cook : Control W H → ℕ → Type 0 where
    over : (c : Control W H) → Cook c 0
    quiet :
        (c : Control W H) (now : W) {k : ℕ}
        → (tick c now).1 ≢ some reignite
        → Cook (tick c now).0 k
        → Cook c k
    relit :
        (c : Control W H) (now : W) {k : ℕ}
        → (tick c now).1 ≡ some reignite
        → Cook (tick c now).0 k
        → Cook c (suc k)
    startup_entered :
        (c : Control W H) (now : W) {k : ℕ} → Cook (on_startup_enter c now) k → Cook c k
    startup_left : (c : Control W H) (now : W) {k : ℕ} → Cook (on_startup_exit c now) k → Cook c k
    run_entered :
        (c : Control W H) (prev : Mode) (now : W) {k : ℕ}
        → Cook (on_run_enter c prev now) k
        → Cook c k
    meanwhile :
        (c c' : Control W H) {k : ℕ}
        → c'.safety.reignite_retries_left ≡ c.safety.reignite_retries_left
        → Cook c' k
        → Cook c k

  tick_tries :
      (c : Control W H) (now : W)
      → (tick c now).1 ≢ some reignite
      → (tick c now).0.safety.reignite_retries_left ≡ c.safety.reignite_retries_left
  tick_tries c now h = ground (arith, tick-Verdict c now)

  relit_tries :
      (c : Control W H) (now : W)
      → (tick c now).1 ≡ some reignite
      → suc (tries (tick c now).0.safety.reignite_retries_left)
        ≡ tries c.safety.reignite_retries_left
  relit_tries c now h = ground (arith, tick-Verdict c now)

  -- A cook is relit at most as often as tries were left when it began.
  pub relights_bounded :
      {c : Control W H} {k : ℕ} → Cook c k → k ≤ tries c.safety.reignite_retries_left
  relights_bounded (over c) = omega arith
  relights_bounded (quiet c now h r) = rw (← tick_tries c now h) (relights_bounded r)
  relights_bounded (relit c now h r) = omega (arith, relit_tries c now h, relights_bounded r)
  relights_bounded (startup_entered c now r) =
      rw (← tries-on_startup_enter c now) (relights_bounded r)
  relights_bounded (startup_left c now r) = rw (← tries-on_startup_exit c now) (relights_bounded r)
  relights_bounded (run_entered c prev now r) =
      rw (← tries-on_run_enter c prev now) (relights_bounded r)
  relights_bounded (meanwhile c c' e r) = rw (← e) (relights_bounded r)
