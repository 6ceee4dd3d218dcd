-- ===== src/Tempq.antt =====
-- src/probes/tempq.c: the median, the running mean and the rate gate through which a probe's samples
-- pass. The two arrays are lists of 5 and of 10, the newest sample first.
pub mod Gate
mod Tests
use pifire_c.Common.{
  ℕ, zero, suc, ◌-◌, ◌/◌, ◌%◌, Bool, true, false, not, ◌&&◌, ◌||◌, List, [], ◌∷◌, length, ◌==◌,
  if◌then◌else◌,
}
use pifire_c.Common.Float.{Double, ◌<ᵈ◌, ◌≤ᵈ◌, ◌+ᵈ◌, ◌-ᵈ◌, ◌*ᵈ◌, ◌/ᵈ◌, nought}

-- `PF_TEMPQ_MED` and `PF_TEMPQ_LEN`
abbrev pub med_size : ℕ
med_size = 5

abbrev pub queue_size : ℕ
queue_size = 10

-- `pf_tempq`
pub record Tempq (W : Type 0) : Type 0 where
  pub med : List W
  pub q : List W
  pub len : ℕ
  pub last_avg : W
  pub have_avg : Bool
  pub slew_c_s : W
  pub hold_s : W
  pub out_c : W
  pub out_t : W
  pub hold_since : W
  pub unstable : Bool

module _ {W : Type 0} where
  abbrev pub copies : ℕ → W → List W
  copies zero a = []
  copies (suc n) a = a ∷ copies n a

  -- `memmove` by one and a new first element
  abbrev pub but_last : List W → List W
  but_last [] = []
  but_last (a ∷ []) = []
  but_last (a ∷ b ∷ l) = a ∷ but_last (b ∷ l)

  abbrev pub shift_in : W → List W → List W
  shift_in a l = a ∷ but_last l

module _ {W : Type 0} ⦃d : Double W⦄ where
  pub init : Tempq W
  init = record {
    med = copies med_size nought;
    q = copies queue_size nought;
    len = 0;
    last_avg = d.nan;
    have_avg = false;
    slew_c_s = nought;
    hold_s = nought;
    out_c = d.nan;
    out_t = nought;
    hold_since = nought;
    unstable = false;
  }

  pub reset : Tempq W → Tempq W
  unfolding init
  reset t = record (init) { slew_c_s = t.slew_c_s; hold_s = t.hold_s }

  pub limits : Tempq W → W → W → Tempq W
  limits t slew hold = record t {
    slew_c_s = if nought <ᵈ slew then slew else nought;
    hold_s = if nought <ᵈ hold then hold else nought;
  }

  -- The insertion sort moves a sample down past the greater ones; the sorted part is held from its
  -- end.
  pub insert : W → List W → List W
  insert x [] = x ∷ []
  insert x (s ∷ l) = let rest = insert x l in if x <ᵈ s then s ∷ rest else x ∷ s ∷ l

  pub sorted_from_end : List W → List W → List W
  sorted_from_end [] s = s
  sorted_from_end (x ∷ v) s = sorted_from_end v (insert x s)

  abbrev pub at : ℕ → List W → W
  at n [] = nought
  at zero (a ∷ l) = a
  at (suc n) (a ∷ l) = at n l

  -- `s[i]` is at `n - 1 - i`
  pub median : List W → W
  unfolding insert sorted_from_end
  median v =
      let n = length v in
      let s = sorted_from_end v [] in
      if n % 2 == 1
      then at (n - 1 - n / 2) s
      else d.lit 1 2 *ᵈ (at (n - 1 - (n / 2 - 1)) s +ᵈ at (n - 1 - n / 2) s)

  pub sum_from : List W → W → W
  sum_from [] mean = mean
  sum_from (a ∷ l) mean = sum_from l (mean +ᵈ a)

  -- the time since the last report, as the gate counts it
  abbrev pub elapsed : Tempq W → W → W
  elapsed t now =
      let dt = now -ᵈ t.out_t in
      let dt1 = if not (nought <ᵈ dt) then d.lit 1 4 else dt in
      if d.lit 5 1 <ᵈ dt1 then d.lit 5 1 else dt1

  abbrev pub allowed : Tempq W → W → W
  allowed t now = t.slew_c_s *ᵈ elapsed t now

  -- the filtered value is reported
  abbrev pub believe : Tempq W → W → W → Tempq W
  believe t f now = record t { out_c = f; out_t = now; hold_since = nought; unstable = false }

  -- the report follows it at the allowed rate; `out_c += -allowed` is a subtraction
  abbrev pub follow : Tempq W → W → W → Tempq W
  follow t f now = record t {
    hold_since = if nought <ᵈ t.hold_since then t.hold_since else now;
    out_c = if nought <ᵈ (f -ᵈ t.out_c) then t.out_c +ᵈ allowed t now else t.out_c -ᵈ allowed t now;
    unstable = true;
    out_t = now;
  }

  -- the state after the gate; what is reported is its `out_c`
  unfoldable pub gate : Tempq W → W → W → Tempq W
  gate t f now =
      if not (nought <ᵈ t.slew_c_s) || d.is_nan t.out_c
      then believe t f now
      else if d.fabs (f -ᵈ t.out_c) ≤ᵈ allowed t now
      then believe t f now
      else if nought <ᵈ t.hold_since && t.hold_s ≤ᵈ (now -ᵈ t.hold_since)
      then believe t f now
      else follow t f now

  -- the first sample fills both stages
  pub prefill : Tempq W → W → Tempq W
  prefill t c = record t {
    med = copies med_size c;
    q = copies queue_size c;
    len = queue_size;
    last_avg = c;
    have_avg = true;
  }

  -- the median, and the mean of the last ten medians
  pub filter : Tempq W → W → Tempq W
  unfolding median sum_from
  filter t c =
      let med = shift_in c t.med in
      let q = shift_in (median med) t.q in
      record t { med = med; q = q; last_avg = sum_from q nought /ᵈ d.lit 10 1; have_avg = true }

  pub push : Tempq W → W → W → W × Tempq W
  unfolding prefill filter
  push t c now =
      if d.is_nan c
      then (if t.have_avg then if d.is_nan t.out_c then t.last_avg else t.out_c else d.nan, t)
      else (let t1 = if t.len == 0 then prefill t c else filter t c in
          let t2 = gate t1 (if t.len == 0 then c else t1.last_avg) now in (t2.out_c, t2))
