-- ===== src/Rules/Tick.antt =====
-- src/features/rules.c, `pf_rules_tick`: each rule judged on the instances it watches. The texts of a
-- message, the flashing of the panel, the event and the wall clock are the parameter `Speech`.
pub mod Edge
pub mod Missed
use pifire_c.Common.{
  ℕ, zero, suc, ◌+◌, ◌%◌, ◌^◌, Bool, true, false, not, ◌&&◌, ◌||◌, Option, none, some, List, [],
  ◌∷◌, ◌++◌, length, ltb, ◌==◌, if◌then◌else◌,
}
use pifire_c.Common.Float.{Double, ◌<ᵈ◌, ◌≤ᵈ◌, ◌==ᵈ◌, ◌-ᵈ◌, nought}
use pifire_c.Mode.{bytes}
use pifire_c.Text.{Bytes, same}
use pifire_c.Alarms
use pifire_c.Alarms.{Alarms, Report}
use pifire_c.Rules.{Val, v_none, v_str, Facts, Inst, bool_or, text_or, has_chars, any_of, is_given}
use pifire_c.Rules.Tree.{Node, Nodes, group, test, no_more, more, NodeTimer, Eval, eval_node_at}
use pifire_c.Rules.Select.{Selection, select_instances}
use pifire_c.Rules.Table.{
  Rstate, find_state, put_state, first_state, state_for, retire_rule, is_standing, rule_key,
}

-- a rule of `notify.rules`, by what is read of it
pub record Rule (W : Type 0) : Type 0 where
  pub id : Bytes
  pub enabled : Bool
  pub only_while_cooking : Bool
  pub supersedes : List Bytes
  pub select : Selection
  pub every : Bool
  pub for_s : W
  pub cooldown_s : W
  pub repeat_s : W
  pub clear_after_s : W
  pub deadband : W
  pub has_flash : Bool
  pub when : Option (Node W)

-- what a verdict on an instance asks for
pub data Deed : Type 0 where
  nothing : Deed
  clear_it : Deed
  fire_it : Bool → Deed  -- with whether it is told again

module _ {W : Type 0} ⦃d : Double W⦄ where
  -- the condition does not hold
  pub settle_false : Rule W → W → Rstate W → Deed × Rstate W
  settle_false r now st =
      let st1 = record st { held_since = nought; armed = true } in
      let since = if st.false_since ==ᵈ nought then now else st.false_since in
      if not st.raised
      then (nothing, st1)
      else if r.clear_after_s ≤ᵈ (now -ᵈ since)
      then (clear_it, record st1 { raised = false; false_since = nought })
      else (nothing, record st1 { false_since = since })

  -- it has been told of, or is due again
  abbrev pub is_due : Rule W → W → Rstate W → Bool
  is_due r now st = st.armed || (nought <ᵈ r.repeat_s && r.repeat_s ≤ᵈ (now -ᵈ st.last_fired))

  -- it was told of a moment ago
  abbrev pub is_cooling : Rule W → W → Rstate W → Bool
  is_cooling r now st = nought <ᵈ st.last_fired && (now -ᵈ st.last_fired) <ᵈ r.cooldown_s

  abbrev pub holding_since : W → Rstate W → W
  holding_since now st = if st.held_since ==ᵈ nought then now else st.held_since

  -- it holds; its hold time, whether it is due, and the cooldown are asked in this order
  pub settle_true : Rule W → W → Rstate W → Deed × Rstate W
  settle_true r now st =
      let held = holding_since now st in
      let st1 = record st { false_since = nought; held_since = held } in
      if (now -ᵈ held) <ᵈ r.for_s
      then (nothing, st1)
      else if not (is_due r now st)
      then (nothing, st1)
      else if is_cooling r now st
      then (nothing, st1)
      else (fire_it (not st.armed), record st1 { armed = false; last_fired = now; raised = true })

  pub settle : Rule W → W → Bool → Rstate W → Deed × Rstate W
  unfolding settle_false settle_true
  settle r now false st = settle_false r now st
  settle r now true st = settle_true r now st

  -- a rule that watches all of its instances at once has no delay before it is over
  pub settle_every : Rule W → W → Bool → Rstate W → Deed × Rstate W
  settle_every r now false st = (
    if st.raised then clear_it else nothing,
    record st { held_since = nought; armed = true; raised = false },
  )
  settle_every r now true st =
      let held = holding_since now st in
      let st1 = record st { held_since = held } in
      if r.for_s ≤ᵈ (now -ᵈ held) && is_due r now st && not (is_cooling r now st)
      then (fire_it (not st.armed), record st1 { armed = false; last_fired = now; raised = true })
      else (nothing, st1)

-- `when_has_trait`
mutual
  pub has_trait : {W : Type 0} → Node W → Bytes → Bool
  has_trait (test need c) trait = elim c.trait [ none ↦ false | some t ↦ same t trait ]
  has_trait (group need op kids) trait = kids_have_trait kids trait

  pub kids_have_trait : {W : Type 0} → Nodes W → Bytes → Bool
  kids_have_trait no_more trait = false
  kids_have_trait (more k l) trait = has_trait k trait || kids_have_trait l trait

abbrev pub is_pit_trait : Option Bytes → Bool
is_pit_trait none = false
is_pit_trait (some t) = same t (bytes "over") || same t (bytes "temp")

-- `when_about_pit`
mutual
  pub about_pit : {W : Type 0} → Node W → Bytes → Bool
  about_pit (test need c) domain =
      is_pit_trait c.trait
      && (same c.entity (bytes "grill")
          || (not (has_chars c.entity) || same c.entity (bytes "this"))
            && same domain (bytes "grill"))
  about_pit (group need op kids) domain = kids_about_pit kids domain

  pub kids_about_pit : {W : Type 0} → Nodes W → Bytes → Bool
  kids_about_pit no_more domain = false
  kids_about_pit (more k l) domain = about_pit k domain || kids_about_pit l domain

-- what is said of a rule that fires
pub record Speech (W : Type 0) : Type 0 where
  pub report : Rule W → Facts W → Inst W → Val W → Report
  pub flash : Alarms W → Bytes → Rule W → Inst W → Alarms W
  pub wall : W

-- the table, the alarms, the keys of the events that were emitted, the newest first, and their number
pub record Engine (W : Type 0) : Type 0 where
  pub table : List (Rstate W)
  pub alarms : Alarms W
  pub emitted : List Bytes
  pub fired_total : ℕ

abbrev pub star : Bytes
star = bytes "*"

-- `cooking`, by the name of the mode
abbrev pub cooking_modes : List Bytes
cooking_modes =
    bytes "Startup" ∷ bytes "Relight" ∷ bytes "Smoke" ∷ bytes "Hold" ∷ bytes "Shutdown" ∷ []

-- the first 64 of the rules that stand in the way of others
abbrev pub take_64 : ℕ → List Bytes → List Bytes
take_64 zero l = []
take_64 (suc n) [] = []
take_64 (suc n) (a ∷ l) = a ∷ take_64 n l

module _ {W : Type 0} ⦃d : Double W⦄ where
  abbrev pub has_arrived : Option (Node W) → Bool
  has_arrived none = false
  has_arrived (some when) = has_trait when (bytes "target") && not (has_trait when (bytes "eta"))

  -- `fire`
  unfoldable pub fire : Speech W → Rule W → Facts W → Inst W → Val W → Bool → Engine W → Engine W
  fire sp r f i matched again g =
      let key = rule_key r.id i.label in
      let (fresh, alarms) = Alarms.raise g.alarms sp.wall key (sp.report r f i matched) in
      let flashed =
        if fresh && (has_arrived r.when || r.has_flash) then sp.flash alarms key r i else alarms in
      if not fresh && not again then record g { alarms = flashed } else record g {
        alarms = flashed;
        emitted = key ∷ g.emitted;
        fired_total = (g.fired_total + 1) % 2 ^ 32;
      }

  -- what a verdict asks for is done
  pub carry_out : Speech W → Rule W → Facts W → Inst W → Val W → Deed → Engine W → Engine W
  unfolding fire
  carry_out sp r f i matched nothing g = g
  carry_out sp r f i matched clear_it g = record g {
    alarms = Alarms.clear g.alarms sp.wall (rule_key r.id i.label);
  }
  carry_out sp r f i matched (fire_it again) g = fire sp r f i matched again g

  -- the slot at an index
  pub state_at : ℕ → List (Rstate W) → Rstate W
  state_at i [] = first_state [] []
  state_at zero (st ∷ l) = st
  state_at (suc i) (st ∷ l) = state_at i l

  -- no condition is never true
  abbrev pub ask : Rule W → Facts W → Inst W → W → Option (List (NodeTimer W)) → W → Bool × Eval W
  ask r f i db timers now = elim r.when [
    | none ↦ (false, record { matched = v_none; timers = timers })
    | some when ↦ eval_node_at f i when db timers now
  ]

  abbrev pub timers_of : Option (List (NodeTimer W)) → List (NodeTimer W)
  timers_of none = []
  timers_of (some l) = l

  -- the clocks run, and the state is settled by the answer, but for a rule that watches all at once
  pub settle_slot : Rule W → W → Bool × Eval W → Rstate W → Deed × Rstate W
  unfolding settle
  settle_slot r now (ok, e) st =
      let st1 = record st { timers = timers_of e.timers } in
      if r.every then (nothing, st1) else settle r now ok st1

  -- One instance: whether the condition holds on it, and the state after it.
  pub watch : Speech W → Rule W → Facts W → W → Inst W → Engine W → Bool × Engine W
  unfolding settle_slot carry_out state_at
  watch sp r f now i g =
      let (slot, table) = state_for r.id i.label g.table in
      elim slot [
        | none ↦ ((ask r f i nought none now).0, record g { table = table })
        | some k ↦
            let pre = state_at k table in
            let db = if pre.raised then r.deadband else nought in
            let answer = ask r f i db (some pre.timers) now in
            let (deed, st) = settle_slot r now answer pre in
            (
              answer.0,
              carry_out sp r f i answer.1.matched deed (record g { table = put_state k st table }),
            )
      ]

  -- how many of the instances match
  pub watch_all : Speech W → Rule W → Facts W → W → List (Inst W) → Engine W → ℕ × Engine W
  unfolding watch
  watch_all sp r f now [] g = (0, g)
  watch_all sp r f now (i ∷ l) g =
      let (ok, g1) = watch sp r f now i g in
      let (n, g2) = watch_all sp r f now l g1 in (if ok then suc n else n, g2)

  -- all of them at once, under the label "*"
  pub watch_every : Speech W → Rule W → Facts W → W → Inst W → Bool → Engine W → Engine W
  unfolding settle_every carry_out state_at
  watch_every sp r f now first ok g =
      let (slot, table) = state_for r.id star g.table in
      elim slot [
        | none ↦ record g { table = table }
        | some k ↦
            let (deed, st) = settle_every r now ok (state_at k table) in
            carry_out sp r f first v_none deed (record g { table = put_state k st table })
      ]

  abbrev pub is_retired : Rule W → Bool → List Bytes → Bool
  is_retired r cooking superseded =
      not r.enabled || r.only_while_cooking && not cooking || any_of r.id superseded

  abbrev pub pit_asked : Rule W → Bool
  pit_asked r = elim r.when [ none ↦ false | some when ↦ about_pit when r.select.domain ]

  -- what is judged of a rule that applies
  pub judge_rule : Speech W → Rule W → Facts W → W → Engine W → Engine W
  unfolding watch_all watch_every
  judge_rule sp r f now g =
      let l = select_instances f r.select in
      let (n, g1) = watch_all sp r f now l g in
      elim l [
        | [] ↦ g1
        | i ∷ rest ↦ if r.every then watch_every sp r f now i (n == suc (length rest)) g1 else g1
      ]

  pub tick_rule : Speech W → Facts W → W → Bool → Bool → List Bytes → Rule W → Engine W → Engine W
  unfolding judge_rule
  tick_rule sp f now cooking lid superseded r g =
      let (table, alarms) = retire_rule r.id sp.wall g.table g.alarms in
      if not (has_chars r.id)
      then g
      else if is_retired r cooking superseded
      then record g { table = table; alarms = alarms }
      else if lid && pit_asked r
      then g
      else judge_rule sp r f now g

  pub superseded_by : List (Rule W) → List (Rstate W) → List Bytes
  superseded_by [] table = []
  superseded_by (r ∷ l) table =
      (if r.enabled && is_standing r.id table then r.supersedes else []) ++ superseded_by l table

  pub tick_rules :
      Speech W → Facts W → W → Bool → Bool → List Bytes → List (Rule W) → Engine W → Engine W
  unfolding tick_rule
  tick_rules sp f now cooking lid superseded [] g = g
  tick_rules sp f now cooking lid superseded (r ∷ l) g =
      tick_rules sp f now cooking lid superseded l (tick_rule sp f now cooking lid superseded r g)

  -- `pf_rules_tick`
  pub tick : Speech W → List (Rule W) → Facts W → W → Engine W → Engine W
  unfolding tick_rules superseded_by
  tick sp rules f now g =
      let mode = text_or (f.at (bytes "mode")) (bytes "Stop") in
      let lid =
        bool_or (f.at (bytes "lid_event")) false || bool_or (f.at (bytes "lid_open")) false in
      let superseded = take_64 64 (superseded_by rules g.table) in
      tick_rules sp f now (any_of mode cooking_modes) lid superseded rules g
