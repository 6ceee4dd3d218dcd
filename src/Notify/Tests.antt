-- ===== src/Notify/Tests.antt =====
-- Examples of the targets, the timer and the limits of a cook.
use pifire_c.Common.{ℕ, suc, ◌+◌, ◌≤◌, ◌≡◌, refl, arith, true, false, none, List, [], ◌∷◌, ◌++◌}
use pifire_c.Common.Int.{pos}
use pifire_c.Mode.{hold, celsius}
use pifire_c.Text.{Bytes}
use pifire_c.Sample.{Centi, centi, whole}
use pifire_c.Notify.{
  after_none, after_shutdown, after_keepwarm, NotifyProbe, Notify, Reading, Sensors, fresh,
  reading_of,
}
use pifire_c.Notify.Climb.{Math}
use pifire_c.Notify.Climb.Samples.{IsRing, contents, newest, push_all, contents-push_all}
use pifire_c.Notify.Carry.{Store}
use pifire_c.Notify.CookTimer.{count_of}
use pifire_c.Notify.Tick.{Now}
use pifire_c.Notify.Tick.Once.{Round, requests, in_hand, requests_bounded}
use pifire_c.Notify.Tick.Alarm.{Turns, AllUp, at_end, then_up, after, highs_in, highs_once}

-- no fit is worked out here; nothing is kept, and nothing has been learned
abbrev math : Math Centi
math = record { exp = λ a. a; log = λ a. a }

abbrev store : Store ℕ Centi
store = record {
  db_open = λ s. true;
  kv_get = λ s key. none;
  kv_put = λ s key row. suc s;
  json_k = λ row. whole 1;
  json_n = λ row. pos 0;
  row = λ k n. [];
  rest_margin = λ s usual. usual;
  units = λ s. celsius;
  probe_steps = λ s label. [];
}

abbrev food : Bytes
food = b'a' ∷ []

abbrev reads : ℕ → Reading Centi
reads c = record { label = food; name = food; valid = true; temp_c = whole c; companion = none }

abbrev board_of : ℕ → Sensors Centi
board_of c = record { primary = none; p = reads c ∷ [] }

-- a probe in the meat, with a target of 60 C after which the grill shuts down, and a limit of 80 C
abbrev probe : NotifyProbe Centi
probe = record (fresh food) { target_c = whole 60; after = after_shutdown; limit_high_c = whole 80 }

-- with a timer that keeps warm
abbrev cook : Notify Centi
cook = record {
  probes = probe ∷ [];
  timer = record {
    running = true;
    paused = false;
    end_t = whole 100;
    remaining = whole 0;
    duration = whole 90;
    after = after_keepwarm;
  };
  last_eta_t = whole 0;
  pending_action = after_none;
  cook_temp_c = whole 120;
}

probe-IsRing : IsRing probe
unfolding IsRing
probe-IsRing = (omega arith, omega arith)

abbrev samples : List Centi
samples = whole 20 ∷ whole 21 ∷ []

contents-push_all_example :
    IsRing (push_all probe samples)
    × (contents (push_all probe samples) ≡ newest (contents probe ++ samples))
contents-push_all_example = contents-push_all probe samples probe-IsRing

abbrev cook_rounds : List (Round Centi)
cook_rounds =
    record { sensors = board_of 61; mode = hold; now = whole 50; units = celsius }
    ∷ record { sensors = board_of 62; mode = hold; now = whole 110; units = celsius }
    ∷ []

requests_bounded_example : requests math store 0 cook cook_rounds ≤ in_hand cook
requests_bounded_example = requests_bounded math store 0 cook cook_rounds

abbrev now_at : ℕ → Now Centi
now_at c = record {
  sensors = board_of c;
  mode = hold;
  now = whole 50;
  units = celsius;
  do_eta = false;
  setpoint = whole 120;
}

-- 81 C, then 79 C, then 81 C again
abbrev swinging : Turns Centi
swinging = (λ q. q ∷ [], now_at 81) ∷ (λ q. q ∷ [], now_at 79) ∷ (λ q. q ∷ [], now_at 81) ∷ []

swinging-AllUp : AllUp food (whole 80) swinging
unfolding reading_of
swinging-AllUp = then_up refl (then_up refl (then_up refl at_end))

highs_once_example :
    highs_in math store 0 probe swinging + count_of probe.high_tripped
    ≡ count_of (after math store 0 probe swinging).high_tripped
highs_once_example = highs_once math store 0 probe swinging swinging-AllUp
