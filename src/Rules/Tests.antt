-- ===== src/Rules/Tests.antt =====
-- Examples of the rules.
use pifire_c.Common.{◌-◌, ◌+◌, ◌≤◌, ◌≡◌, refl, arith, true, false, Bool, none, some, List, [], ◌∷◌}
use pifire_c.Mode.{bytes}
use pifire_c.Text.{Bytes}
use pifire_c.Alarms.{Alarms, empty_slot}
use pifire_c.Sample.{Centi, centi, whole}
use pifire_c.Rules.{v_none, v_num, Facts, Inst}
use pifire_c.Rules.Tree.{
  Node, group, test, no_more, more, Test, literal, Evalctx, Eval, NodeTimer, eval_path,
  held_long_enough, slot_of, since_at,
}
use pifire_c.Rules.Tree.Meaning.{meaning, eval_path-meaning}
use pifire_c.Rules.Tree.Held.{began, long_enough, clocks_after, Started, held_long_enough-began}
use pifire_c.Rules.Table.{Rstate, find_state, first_state}
use pifire_c.Rules.Table.Slots.{room, looks, state_for_lost}
use pifire_c.Rules.Tick.{Rule, Speech, Engine, fire}
use pifire_c.Rules.Tick.Edge.{
  Turn, judged, retires, fired_in, breaks, count_bool, fired_once, fire_times, Spaced,
  fire_times-Spaced,
}

abbrev facts : Facts Centi
facts = record { at = λ path. v_num (whole 120); probes = []; number_in = λ s. none }

abbrev grill : Inst Centi
grill = record { domain = bytes "grill"; name = bytes "grill"; label = bytes "grill"; obj = none }

abbrev cx : Evalctx Centi
cx = record { status = facts; instance_of = grill; db = whole 0; now = whole 50 }

-- the set point is over 100
abbrev warm : Test Centi
warm = record {
  trait = some (bytes "setpoint");
  entity = bytes "this";
  op = bytes ">";
  value = literal (v_num (whole 100));
  value2 = literal v_none;
  members = [];
}

-- not (warm, and any of: warm)
abbrev tree : Node Centi
tree = group (whole 0) (bytes "not") (
    more (test (whole 0) warm)
      (more (group (whole 0) (bytes "any") (more (test (whole 0) warm) no_more)) no_more))

abbrev preview : Eval Centi
preview = record { matched = v_none; timers = none }

eval_path-meaning_example :
    ((eval_path cx tree 1 preview).0 ≡ meaning cx tree)
    × ((eval_path cx tree 1 preview).1.timers ≡ none)
eval_path-meaning_example = eval_path-meaning cx tree 1 preview refl

abbrev spare : NodeTimer Centi
spare = record { path = 0; since = whole 0 }

abbrev clocks : List (NodeTimer Centi)
clocks = record { path = 33; since = whole 7 } ∷ spare ∷ []

abbrev moments : List (Centi × Bool)
moments = (whole 20, true) ∷ (whole 10, true) ∷ (whole 5, false) ∷ []

moments-Started : Started moments
unfolding Started
moments-Started = (refl, (refl, (refl, tt)))

held_long_enough-began_example :
    (held_long_enough (whole 30) 32 (whole 15) true (clocks_after (whole 15) 32 clocks moments)).0
    ≡ long_enough (whole 15) (whole 30) (began ((whole 30, true) ∷ moments))
unfolding slot_of since_at
held_long_enough-began_example =
    held_long_enough-began (whole 15) (whole 30) 32 1 true clocks moments refl refl refl refl
      moments-Started

abbrev hopper : Rule Centi
hopper = record {
  id = bytes "hopper";
  enabled = true;
  only_while_cooking = true;
  supersedes = [];
  select = record {
    domain = bytes "grill";
    role = bytes "any";
    link = bytes "any";
    restricts = false;
    include = [];
    exclude = [];
  };
  every = false;
  for_s = whole 10;
  cooldown_s = whole 300;
  repeat_s = whole 0;
  clear_after_s = whole 0;
  deadband = whole 0;
  has_flash = false;
  when = some tree;
}

abbrev first : Rstate Centi
first = first_state (bytes "hopper") (bytes "grill")

abbrev run : List (Centi × Bool)
run = (whole 10, true) ∷ (whole 30, true) ∷ (whole 40, false) ∷ (whole 50, true) ∷ []

abbrev turns : List (Turn Centi)
turns = judged (whole 10) true ∷ judged (whole 30) true ∷ retires ∷ judged (whole 50) true ∷ []

fired_once_example : fired_in hopper first turns ≤ count_bool first.armed + breaks turns
fired_once_example = fired_once hopper first turns refl

fire_times-Spaced_example : Spaced hopper.cooldown_s first.last_fired (fire_times hopper first run)
fire_times-Spaced_example = fire_times-Spaced hopper first run

-- a table with one slot taken and one free
abbrev empty : Rstate Centi
empty = record (first) { used = false }

abbrev table : List (Rstate Centi)
table = first ∷ empty ∷ []

abbrev long_id : Bytes
long_id = bytes "a-rule-with-an-id-of-over-forty-characters"

state_for_lost_example :
    (find_state long_id (bytes "grill") (looks 3 long_id (bytes "grill") table) ≡ none)
    × (room (looks 3 long_id (bytes "grill") table) ≡ room table - 3)
unfolding find_state
state_for_lost_example = state_for_lost 3 long_id (bytes "grill") table (omega arith) refl

-- all food probes at their target, which stands
abbrev all_done : Rstate Centi
all_done = record (first_state (bytes "done") (bytes "*")) { raised = true }

-- a rule that watches all food probes at once, the first of which is Brisket
abbrev all_food : Rule Centi
all_food = record hopper { id = bytes "done"; every = true; when = none }

abbrev brisket : Inst Centi
brisket = record {
  domain = bytes "probe";
  name = bytes "Brisket";
  label = bytes "Brisket";
  obj = none;
}

abbrev speech : Speech Centi
speech = record {
  report = λ r f i v. record {
    code = bytes "RULE";
    name = none;
    crit = 2;
    sinks = 0;
    title = bytes "Done";
    body = none;
  };
  flash = λ alarms key r i. alarms;
  wall = whole 9;
}

abbrev quiet : Engine Centi
quiet = record {
  table = first ∷ all_done ∷ [];
  alarms = record { tab = empty_slot ∷ []; gen = 0 };
  emitted = [];
  fired_total = 0;
}

abbrev told : Alarms Centi
told = (fire speech all_food facts brisket v_none true quiet).alarms
