-- ===== src/Safety/Light/Proof.antt =====
-- src/core/safety.c, Smart Start: what a light has seen, tick by tick, when it proves a fire.
use pifire_c.Common.{◌≡◌, ◌⊎◌, Bool, true, false, List, [], ◌∷◌}
use pifire_c.Common.Float.{Double, ◌<ᵈ◌, ◌≤ᵈ◌, ◌==ᵈ◌, ◌+ᵈ◌, ◌-ᵈ◌, nought}
use pifire_c.Grill.{Cfg, Safety}
use pifire_c.Safety.Light.{prove, prove_hold_s, hot_delta_c, hot_flat_s, hot_slip_c, ambient_or_20}

-- the ticks of a light, the newest first: what each left, and when it was
abbrev pub History : Type 0 → Type 0
History W = List (Safety W × W)

module _ {W : Type 0} ⦃d : Double W⦄ where
  abbrev pub origin : W
  origin = nought

  -- the filtered pit is up by the rise over the lowest that the light has had
  abbrev pub is_up : Cfg W → Safety W → Bool
  is_up cfg s = (s.ss_baseline_c +ᵈ cfg.ss_prove_rise_c) ≤ᵈ s.filt_c

  -- It was up at the tick of the time `t`, and at each one since.
  pub data UpSince (cfg : Cfg W) : W → History W → Type 0 where
    first_up :
        (s : Safety W) (t : W) (h : History W) → is_up cfg s ≡ true → UpSince cfg t ((s, t) ∷ h)
    still_up :
        (s : Safety W) (now t : W) (h : History W)
        → is_up cfg s ≡ true
        → UpSince cfg t h
        → UpSince cfg t ((s, now) ∷ h)

  -- At the tick of the time `t` it read `low`, and at none since has it slipped under that.
  pub data FlatSince : W → W → History W → Type 0 where
    first_flat :
        (s : Safety W) (low t : W) (h : History W) → s.filt_c ≡ low → FlatSince t low ((s, t) ∷ h)
    still_flat :
        (s : Safety W) (now t low : W) (h : History W)
        → (s.filt_c <ᵈ (low -ᵈ hot_slip_c)) ≡ false
        → FlatSince t low h
        → FlatSince t low ((s, now) ∷ h)

  -- A light as it runs: it begins with nothing seen, and each tick takes a filtered pit.
  pub data Runs (cfg : Cfg W) : History W → Safety W → Type 0 where
    begins :
        (s : Safety W)
        → s.ss_proven ≡ false
        → s.ss_above_since ≡ nought
        → s.ss_flat_t ≡ nought
        → Runs cfg [] s
    ticks :
        (h : History W) (s : Safety W) (filt amb now : W)
        → Runs cfg h s
        → s.ss_proven ≡ false
        → Runs cfg
            ((prove cfg amb (record s { filt_c = filt }) now, now) ∷ h)
            (prove cfg amb (record s { filt_c = filt }) now)

  -- the clocks, as a stage leaves them alone
  abbrev KeepsRise : Safety W → Safety W → Type 0
  KeepsRise s s' =
      (s'.ss_above_since ≡ s.ss_above_since)
      × (s'.ss_baseline_c ≡ s.ss_baseline_c)
      × (s'.filt_c ≡ s.filt_c)

  abbrev KeepsFlat : Safety W → Safety W → Type 0
  KeepsFlat s s' =
      (s'.ss_flat_t ≡ s.ss_flat_t) × (s'.ss_flat_c ≡ s.ss_flat_c) × (s'.filt_c ≡ s.filt_c)

  -- what a tick does to the clock of the rise
  abbrev Rise : Cfg W → Safety W → W → Safety W → Type 0
  Rise cfg s now s' =
      (s'.ss_above_since ≡ nought)
      ⊎ ((is_up cfg s' ≡ true) × (s'.ss_above_since ≡ now))
      ⊎ ((is_up cfg s' ≡ true) × (s'.ss_above_since ≡ s.ss_above_since))

  -- and to the clock of the hot pit
  abbrev Level : Safety W → W → Safety W → Type 0
  Level s now s' =
      ((s'.filt_c ≡ s'.ss_flat_c) × (s'.ss_flat_t ≡ now))
      ⊎ (((s.ss_flat_t ==ᵈ nought) ≡ false)
          × ((s'.filt_c <ᵈ (s.ss_flat_c -ᵈ hot_slip_c)) ≡ false)
          × (s'.ss_flat_t ≡ s.ss_flat_t)
          × (s'.ss_flat_c ≡ s.ss_flat_c))

  -- what the clocks of a light say of its ticks
  abbrev Told : Cfg W → History W → Safety W → Type 0
  Told cfg h s =
      ((s.ss_above_since ≡ nought) ⊎ UpSince cfg s.ss_above_since h)
      × ((s.ss_flat_t ≡ nought) ⊎ FlatSince s.ss_flat_t s.ss_flat_c h)

  -- What proves a fire at a tick: it has been up for 15 s at every tick, or it is hot and has not slipped
  -- at any tick for 120 s.
  abbrev pub UpLong : Cfg W → W → History W → Safety W → Type 0
  UpLong cfg now h s' =
      (t : W) × UpSince cfg t h
      × ((prove_hold_s ≤ᵈ (now -ᵈ t)) ≡ true)
      × (s'.ss_deadline ≡ now +ᵈ cfg.ss_prove_s)

  abbrev pub HotLong : Safety W → W → W → History W → Safety W → Type 0
  HotLong s amb now h s' =
      (t low : W) × FlatSince t low h
      × ((hot_flat_s ≤ᵈ (now -ᵈ t)) ≡ true)
      × ((hot_delta_c ≤ᵈ (s.filt_c -ᵈ ambient_or_20 amb)) ≡ true)
      × (s'.ss_deadline ≡ s.ss_deadline)
