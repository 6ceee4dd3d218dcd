-- ===== src/Notify/Target.antt =====
-- src/core/notify.c: what the cook asks of a probe, a target, a rest or limits. True is the 0 of the
-- source, false its -1 for a label that no probe has.
use pifire_c.Common.{Bool, true, false, not, Option, none, some, [], if◌then◌else◌}
use pifire_c.Common.Float.{Double, ◌<ᵈ◌, ◌≤ᵈ◌, nought}
use pifire_c.Text.{Bytes, strlcpy}
use pifire_c.Notify.{After, Notify, NotifyProbe, find, at_label, minus_one}
use pifire_c.Notify.Climb.{Math, probe_rate}
use pifire_c.Notify.Carry.{Store, rest_pull_c}

-- the text of a pointer
abbrev pub text_of : Option Bytes → Bytes
text_of none = []
text_of (some s) = s

module _ {W : Type 0} where
  -- a change of the probe that a label finds
  abbrev pub change : Notify W → Bytes → (NotifyProbe W → NotifyProbe W) → Bool × Notify W
  change n label f =
      let (found, probes) = at_label label f n.probes in (found, record n { probes = probes })

module _ {W : Type 0} ⦃d : Double W⦄ where
  -- `x > 0 ? x : 0`
  abbrev pub or_nought : W → W
  or_nought x = if nought <ᵈ x then x else nought

  pub aim : W → After → NotifyProbe W → NotifyProbe W
  aim target after p =
      let t = or_nought target in
      let off = t ≤ᵈ nought in
      record p {
        reached = false;
        eta_warned = false;
        eta_hits = 0;
        target_c = t;
        rest_c = nought;
        rest_watch = false;
        removed = false;
        removed_n = 0;
        amb_on = nought;
        meat = if off then [] else p.meat;
        done = if off then [] else p.done;
        finish_c = if off then nought else p.finish_c;
        after = after;
        eta_s = minus_one;
        eta_step_s = minus_one;
      }

  pub set_target : Notify W → Bytes → W → After → Bool × Notify W
  unfolding aim
  set_target n label target after = change n label (aim target after)

  pub set_target_note : Notify W → Bytes → Option Bytes → Option Bytes → W → Notify W
  set_target_note n label meat done finish =
      (change n label (λ p. if p.target_c ≤ᵈ nought then p else record p {
        meat = strlcpy 24 (text_of meat);
        done = strlcpy 24 (text_of done);
        finish_c = or_nought finish;
      })).1

  pub set_limits : Notify W → Bytes → W → W → Bool × Notify W
  set_limits n label high low = change n label (λ p. record p {
    limit_high_c = or_nought high;
    limit_low_c = or_nought low;
    high_tripped = false;
    low_tripped = false;
  })

  -- a target that is a rest
  abbrev pub rest_at : W → NotifyProbe W → NotifyProbe W
  rest_at rest p = record p { rest_c = rest; carry_sm_c = minus_one; finish_c = rest }

module _ {S W : Type 0} ⦃d : Double W⦄ (math : Math W) (st : Store S W) where
  abbrev pub meat_of : Option (NotifyProbe W) → Bytes
  meat_of none = []
  meat_of (some p) = p.meat

  pub set_rest : S → Notify W → Bytes → W → After → Bool × Notify W
  unfolding set_target
  set_rest s n label rest after =
      let rate = probe_rate math n.probes label in
      let pull = rest_pull_c st s rest rate d.nan d.nan (meat_of (find label n.probes)) in
      let (found, n1) = set_target n label pull after in
      if not (nought <ᵈ rest)
      then set_target n label nought after
      else if not found
      then (false, n1)
      else (true, (change n1 label (rest_at rest)).1)
