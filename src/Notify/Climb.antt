-- ===== src/Notify/Climb.antt =====
-- src/core/notify.c: how fast a probe climbs, and how long it takes to a temperature. `exp` and `log`
-- are the parameter `Math`; sums run from the first index, as the loops do.
pub mod Kept
pub mod Samples
use pifire_c.Common.{
  ℕ, zero, suc, ◌+◌, ◌-◌, ◌%◌, Bool, true, false, not, ◌&&◌, ◌||◌, Option, none, some, List, [],
  ◌∷◌, length, ltb, leb, ◌==◌, if◌then◌else◌,
}
use pifire_c.Common.Int.{pos}
use pifire_c.Common.Float.{Double, ◌<ᵈ◌, ◌≤ᵈ◌, ◌+ᵈ◌, ◌-ᵈ◌, ◌*ᵈ◌, ◌/ᵈ◌, nought, is_finite}
use pifire_c.Notify.{NotifyProbe, Step, eta_samples, minus_one, find}
use pifire_c.Text.{Bytes, strlcpy}
use pifire_c.Tempq.{at}

-- the functions of <math.h> that the fit needs
pub record Math (W : Type 0) : Type 0 where
  pub exp : W → W
  pub log : W → W

module _ {W : Type 0} ⦃d : Double W⦄ where
  abbrev pub eta_interval_s : W
  eta_interval_s = d.lit 3 1

  abbrev pub eta_recalc_s : W
  eta_recalc_s = d.lit 20 1

  -- an index as a double
  abbrev pub num_of : ℕ → W
  num_of i = d.of_int (pos i)

  -- `for (i = 0; i < n; i++) acc += f(i);`
  pub sum : ℕ → (ℕ → W) → W
  sum zero f = nought
  sum (suc n) f = sum n f +ᵈ f n

  -- The samples from the oldest of the last `cnt` on, out of the ring: `lin`.
  pub window_from : (ℕ → W) → ℕ → ℕ → ℕ → List W
  window_from hist start zero i = []
  window_from hist start (suc k) i =
      hist ((start + i) % eta_samples) ∷ window_from hist start k (suc i)

  unfoldable pub window : NotifyProbe W → ℕ → List W
  unfolding window_from
  window p cnt = window_from p.hist (p.hist_head + eta_samples - cnt) cnt 0

  -- the five-point moving average of `weighted_slope`
  pub smoothed : List W → ℕ → W
  smoothed temps i =
      if ltb i 2 || leb (length temps) (i + 2)
      then at i temps
      else (at (i - 2) temps
          +ᵈ at (i - 1) temps
          +ᵈ at i temps
          +ᵈ at (i + 1) temps
          +ᵈ at (i + 2) temps)
        /ᵈ d.lit 5 1

  -- a slope that is told: it climbs, and is a number
  abbrev pub climbing : W → W
  climbing slope =
      if nought <ᵈ slope && not (d.is_nan slope) && not (d.is_inf slope) then slope else nought

  -- the slope, with the smoothed newest reading
  pub weighted_slope : Math W → List W → W × W
  unfolding sum smoothed
  weighted_slope math temps =
      let n = length temps in
      let sm = smoothed temps in
      let w0 = λ (i : ℕ). math.exp (num_of i /ᵈ d.lit 10 1) in
      let wsum = sum n w0 in
      let w = λ (i : ℕ). w0 i /ᵈ wsum in
      let xbar = sum n (λ i. w i *ᵈ num_of i) in
      let ybar = sum n (λ i. w i *ᵈ sm i) in
      let num = sum n (λ i. w i *ᵈ (num_of i -ᵈ xbar) *ᵈ (sm i -ᵈ ybar)) in
      let den = sum n (λ i. w i *ᵈ (num_of i -ᵈ xbar) *ᵈ (num_of i -ᵈ xbar)) in
      if ltb n 1 || ltb eta_samples n
      then (nought, nought)
      else if den ≤ᵈ nought
      then (nought, sm (n - 1))
      else (climbing (num /ᵈ den), sm (n - 1))

  abbrev pub greatest : W → List W → W
  greatest m [] = m
  greatest m (a ∷ l) = greatest (if m <ᵈ a then a else m) l

  -- a time that makes no sense is none
  abbrev pub or_unknown : W → W
  or_unknown eta = if eta <ᵈ nought || d.is_inf eta || d.is_nan eta then minus_one else eta

  pub estimate_eta_to : Math W → List W → W → W → W → W
  unfolding weighted_slope
  estimate_eta_to math temps target interval cook =
      let (slope, last) = weighted_slope math temps in
      let rate = slope /ᵈ interval in
      let gap = cook -ᵈ last in
      let to_go = cook -ᵈ target in
      if ltb (length temps) 20
      then minus_one
      else if target ≤ᵈ greatest (at 0 temps) temps
      then minus_one
      else if not (nought <ᵈ slope)
      then minus_one
      else or_unknown (
          if is_finite cook && nought <ᵈ gap && d.lit 2 1 <ᵈ to_go && to_go <ᵈ gap
          then gap /ᵈ rate *ᵈ math.log (gap /ᵈ to_go)
          else (target -ᵈ last) /ᵈ rate)

  pub estimate_eta : Math W → List W → W → W → W
  unfolding estimate_eta_to
  estimate_eta math temps target interval = estimate_eta_to math temps target interval d.nan

  pub probe_rate : Math W → List (NotifyProbe W) → Bytes → W
  unfolding weighted_slope window
  probe_rate math probes label = elim (find label probes) [
    | none ↦ nought
    | some p ↦
        if ltb p.hist_len 20
        then nought
        else (weighted_slope math (window p p.hist_len)).0 /ᵈ eta_interval_s
  ]

  -- the average of the readings next to `i`, of those that there are
  pub local_mean : List W → ℕ → W
  unfolding sum
  local_mean temps i =
      let lo = i - 2 in
      let hi = if ltb (i + 2) (length temps) then i + 3 else length temps in
      sum (hi - lo) (λ j. at (lo + j) temps) /ᵈ num_of (hi - lo)

  pub probe_rate_long : List (NotifyProbe W) → Bytes → W
  unfolding sum window local_mean
  probe_rate_long probes label = elim (find label probes) [
    | none ↦ nought
    | some p ↦
        let cnt = if ltb p.hist_len 100 then p.hist_len else 100 in
        let sm = local_mean (window p cnt) in
        let xbar = num_of (cnt - 1) /ᵈ d.lit 2 1 in
        let ybar = sum cnt sm /ᵈ num_of cnt in
        let num = sum cnt (λ i. (num_of i -ᵈ xbar) *ᵈ (sm i -ᵈ ybar)) in
        let den = sum cnt (λ i. (num_of i -ᵈ xbar) *ᵈ (num_of i -ᵈ xbar)) in
        let slope = if nought <ᵈ den then num /ᵈ den /ᵈ eta_interval_s else nought in
        if ltb p.hist_len 50
        then nought
        else if nought <ᵈ slope && is_finite slope
        then slope
        else nought
  ]

  -- `push_sample`
  pub push_sample : NotifyProbe W → W → NotifyProbe W
  push_sample p c = record p {
    hist = λ i. if i == p.hist_head then c else p.hist i;
    hist_head = (p.hist_head + 1) % eta_samples;
    hist_len = if ltb p.hist_len eta_samples then p.hist_len + 1 else p.hist_len;
  }

  abbrev pub lower : Step W → Option (Step W) → Option (Step W)
  lower s none = some s
  lower s (some b) = if s.temp_c <ᵈ b.temp_c then some s else some b

  -- the lowest of the steps that have not spoken
  pub next_of : List (Step W) → Option (Step W) → Option (Step W)
  next_of [] best = best
  next_of (s ∷ l) best = next_of l (if s.fired then best else lower s best)

  -- what stands in `eta_step_s` and `next_step`
  pub aim_step : Math W → NotifyProbe W → List W → W → NotifyProbe W
  unfolding next_of estimate_eta_to
  aim_step math p lin cook = elim (next_of p.steps none) [
    | none ↦ record p { eta_step_s = minus_one; next_step = [] }
    | some s ↦
        let es = estimate_eta_to math lin s.temp_c eta_interval_s cook in
        record p {
          eta_step_s = if nought ≤ᵈ es then es else minus_one;
          next_step = strlcpy 24 s.name;
        }
  ]

  pub recalc_eta : Math W → NotifyProbe W → W → NotifyProbe W
  unfolding window aim_step estimate_eta_to
  recalc_eta math p cook =
      let lin = window p p.hist_len in
      let e = estimate_eta_to math lin p.target_c eta_interval_s cook in
      let prev = if nought <ᵈ p.eta_s then p.eta_s -ᵈ eta_recalc_s else minus_one in
      record (aim_step math p lin cook) {
        eta_s =
            if e <ᵈ nought
            then minus_one
            else if nought <ᵈ prev
            then d.lit 6 10 *ᵈ e +ᵈ d.lit 4 10 *ᵈ prev
            else e;
      }
