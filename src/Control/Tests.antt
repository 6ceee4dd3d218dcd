-- ===== src/Control/Tests.antt =====
-- src/core/control.c: the examples, on a grill with whole numbers and a board of relays.
mod Grill
use pifire_c.Common.{sym, ◌≡◌, refl, true, false, ◌||◌, [], ◌∷◌, none, some}
use pifire_c.Common.Int.{pos}
use pifire_c.Mode.{stop, reignite, smoke, hold, shutdown, power, fan, auger, fahrenheit}
use pifire_c.Outputs.{Relays, Outputs, set_relay, all_off_relays}
use pifire_c.Outputs.Only.{LetsGo, OnlyOn}
use pifire_c.CmdQueue.{Cmd, CmdType}
use pifire_c.CmdQueue
use pifire_c.Safety.Start.{zeroed, startup_done}
use pifire_c.Sample
use pifire_c.Sample.{Centi, whole, centi, board, board_laws}
use pifire_c.Control.{Conf, Machine, Parts, RecipeStep, RecipeRun, LidHist}
use pifire_c.Control.Enter.{enter_mode}
use pifire_c.Control.Enter.Allowed.{allowed}
use pifire_c.Control.Enter.Switched.{enter_mode-allowed}
use pifire_c.Control.Recipe.{begin_steps, finish_now, run_or_smoke}
use pifire_c.Control.Recipe.Finish.{mode-finish_now}
use pifire_c.Control.Recipe.Follow.{Ending, follow_recipe, aftercare}
use pifire_c.Control.Recipe.Follow.Pause.{pause_kept, IsAt}
use pifire_c.Control.Recipe.Relight.{LightEnds, relit_kept, recipe_relight_missed}
use pifire_c.Control.Request.{apply_request}
use pifire_c.Control.Request.Lights.{MayCome, request_lights}
use pifire_c.Control.Command.{handle_cmd}
use pifire_c.Control.Command.Stopped.{IsStopped, stop_command}
use pifire_c.Control.Run.{run_mode, run_outputs}
use pifire_c.Control.Run.Lid.{watch_lid}
use pifire_c.Control.Run.Cap.{IsCapped, run_mode-IsCapped}
use pifire_c.Control.Run.Moves.{adds, Ends, run_outputs-adds, run_mode-Ends}
use pifire_c.Control.Run.Timed.{end_mode}
use pifire_c.Notify.{after_none}
use pifire_c.Control.Step.{Others, step, prepare, judge_safety}
use pifire_c.Control.Step.Overheat.{IsCold, button_held, overheat_stops}
use pifire_c.Control.Tests.Grill.{
  board_goes, conf, lid_hist, cooking, ending, recipe, burning, grill, parts, now, stop_it, unmet,
  others,
}

all_on : OnlyOn (λ o. true) grill.base.outputs
all_on = (refl, refl, λ o e. refl)

enter_mode-allowed_example :
    OnlyOn (allowed grill now hold) (enter_mode parts grill hold now).base.outputs
enter_mode-allowed_example = enter_mode-allowed parts grill hold now all_on

-- the auger is past its cap of 60 s
run_mode-IsCapped_example :
    IsCapped (watch_lid grill now) now (run_mode parts grill now)
    × ((watch_lid grill now).auger_on_since ≡ grill.auger_on_since)
run_mode-IsCapped_example = run_mode-IsCapped parts grill now all_on

stop_command_example :
    IsStopped (apply_request parts (handle_cmd (λ m cmd. m) parts grill stop_it now) now)
stop_command_example = stop_command (λ m cmd. m) parts grill stop_it now refl

-- a Smoke asked of a grill that holds
abbrev asked : Machine Centi Relays
asked = record grill { req_pending = true; req_mode = smoke }

request_lights_example : MayCome hold smoke (apply_request parts asked now).base.mode
request_lights_example = request_lights parts asked now

mode-finish_now_example : (finish_now parts grill now).base.mode ≡ shutdown
mode-finish_now_example = mode-finish_now parts grill now

-- a light that is done
abbrev lighting : Machine Centi Relays
lighting = record grill {
  base = record (grill.base) {
    mode = reignite;
    safety = record (zeroed) {
      ss_active = true;
      ss_proven = true;
      ss_held = true;
      reignite_last = smoke;
    };
  };
}

run_mode-Ends_example :
    Ends reignite (run_outputs parts lighting now) now (run_mode parts lighting now).base.mode
run_mode-Ends_example = run_mode-Ends parts lighting now

-- before its fire is proven
abbrev unlit : Machine Centi Relays
unlit = record lighting {
  base = record (lighting.base) {
    safety = record (lighting.base.safety) { ss_proven = false; ss_held = false };
  };
}

abbrev begun : Machine Centi Relays
begun = begin_steps parts unlit (cooking ∷ ending ∷ []) now

unlit-LightEnds : LightEnds begun lighting
unfolding startup_done
unlit-LightEnds =
    let (mode, last, outputs) = relit_kept parts unlit cooking (ending ∷ []) now refl refl refl in
    (sym mode, sym last, refl)

recipe_relight_missed_example :
    (begun.base.mode ≡ reignite)
    × (begun.base.outputs ≡ unlit.base.outputs)
    × ((end_mode reignite parts lighting now).base.mode ≡ run_or_smoke smoke)
recipe_relight_missed_example =
    recipe_relight_missed parts unlit lighting cooking (ending ∷ []) now now refl refl refl
      unlit-LightEnds

-- a pit at 320 C
abbrev hot : Machine Centi Relays
hot = record grill { base = record (grill.base) { pit_c = whole 320 } }

overheat_stops_example :
    IsCold
      (button_held (run_mode parts (judge_safety parts (prepare others parts hot [] now) now) now))
      (step others parts hot [] now)
unfolding prepare apply_request follow_recipe aftercare
overheat_stops_example = overheat_stops others parts hot [] now refl all_on

-- the cook asked for a pause at the end of the step, which is done
abbrev marked : Machine Centi Relays
marked = record grill { recipe = record (recipe) { flags = λ i. 1 } }

pause_kept_example : IsAt 0 marked (follow_recipe parts marked (record (unmet) { done = true }) now)
pause_kept_example = pause_kept parts marked (record (unmet) { done = true }) now refl refl
