-- ===== src/Notify/Carry.antt =====
-- src/core/notify.c, src/core/notify.h: the carry-over, how much further the meat climbs off the heat,
-- and its correction by the rests of each meat. The table of the database that keeps the corrections is
-- the parameter `Store`, with the JSON of a row read and written by it.
use pifire_c.Common.{
  Bool, true, false, not, ◌&&◌, ◌||◌, Option, none, some, List, [], ◌∷◌, ◌++◌, if◌then◌else◌,
}
use pifire_c.Common.Int.{ℤ, pos, less_ℤ, pos_part, neg_part, sub_ℕ}
use pifire_c.Common.Float.{Double, ◌<ᵈ◌, ◌≤ᵈ◌, ◌+ᵈ◌, ◌-ᵈ◌, ◌*ᵈ◌, ◌/ᵈ◌, nought, is_finite}
use pifire_c.Mode.{Units, celsius, fahrenheit, bytes}
use pifire_c.Text.{Bytes, take}
use Prim.Native.Nat.{◌+◌}

-- the settings, the database and its rows, in a state `S`
pub record Store (S W : Type 0) : Type 0 where
  pub db_open : S → Bool
  pub kv_get : S → Bytes → Option Bytes  -- of the table "notify"
  pub kv_put : S → Bytes → Bytes → S
  pub json_k : Bytes → W  -- "k" of a row, 1 where it has none
  pub json_n : Bytes → ℤ  -- "n" of a row, 0 where it has none
  pub row : W → ℤ → Bytes
  pub rest_margin : S → W → W  -- `notify.rest_margin`, or the default
  pub units : S → Units
  pub probe_steps : S → Bytes → List (W × Option Bytes)  -- `notify.probe_steps.<label>`

abbrev pub has_bytes : Bytes → Bool
has_bytes [] = false
has_bytes (b ∷ s) = true

-- `carry_key`
abbrev pub carry_key : Bytes → Bytes
carry_key meat = bytes "carry:" ++ (if has_bytes meat then take 20 meat else bytes "any")

-- n + 1
abbrev pub succ_ℤ : ℤ → ℤ
succ_ℤ n = sub_ℕ (pos_part n + 1) (neg_part n)

module _ {W : Type 0} ⦃d : Double W⦄ where
  abbrev pub carry_model_max_c : W
  carry_model_max_c = d.lit 14 1

  abbrev pub carry_learned_max_c : W
  carry_learned_max_c = d.lit 20 1

  abbrev pub carry_fade_rate_c_s : W
  carry_fade_rate_c_s = d.lit 4 1000

  -- `pf_delta_to_c`
  abbrev pub delta_to_c : W → Units → W
  delta_to_c v celsius = v
  delta_to_c v fahrenheit = v *ᵈ d.lit 5 1 /ᵈ d.lit 9 1

  -- the margin where none is set, in the user's units
  abbrev pub usual_margin : Units → W
  usual_margin celsius = d.lit 1 1
  usual_margin fahrenheit = d.lit 2 1

  -- `pf_carryover_c`
  pub carryover_c : W → W
  carryover_c rate =
      let c = rate *ᵈ d.lit 420 1 in
      if c <ᵈ nought then nought else if d.lit 5 1 <ᵈ c then d.lit 5 1 else c

  -- how much of the gap carries over, between 0.04 and 0.08
  abbrev pub share_of_gap : W → W
  share_of_gap tau =
      let g = tau /ᵈ d.lit 100000 1 in
      let g1 = if g <ᵈ d.lit 4 100 then d.lit 4 100 else g in
      if d.lit 8 100 <ᵈ g1 then d.lit 8 100 else g1

  pub model_c : W → W → W → W
  unfolding carryover_c
  model_c rate centre cook =
      let gap = cook -ᵈ centre in
      let c = share_of_gap (gap /ᵈ rate) *ᵈ gap in
      let faded = if rate <ᵈ carry_fade_rate_c_s then c *ᵈ (rate /ᵈ carry_fade_rate_c_s) else c in
      if not (is_finite cook) || not (is_finite centre) || not (d.lit 1 100000 <ᵈ rate)
      then carryover_c rate
      else if not (nought <ᵈ gap)
      then nought
      else if carry_model_max_c <ᵈ faded
      then carry_model_max_c
      else faded

module _ {S W : Type 0} ⦃d : Double W⦄ (st : Store S W) where
  pub rest_margin_c : S → W
  rest_margin_c s =
      let v = st.rest_margin s (usual_margin (st.units s)) in
      delta_to_c (if not (nought ≤ᵈ v) || d.lit 20 1 <ᵈ v then d.lit 2 1 else v) (st.units s)

  pub carryover_k : S → Bytes → W
  carryover_k s meat =
      if not (st.db_open s) then d.lit 1 1 else (elim (st.kv_get s (carry_key meat)) [
        | none ↦ d.lit 1 1
        | some buf ↦
            let k = st.json_k buf in if d.lit 2 10 <ᵈ k && k <ᵈ d.lit 5 1 then k else d.lit 1 1
      ])

  -- the row as it was, or a first one
  abbrev pub learned : S → Bytes → W × ℤ
  learned s meat = elim (st.kv_get s (carry_key meat)) [
    | none ↦ (d.lit 1 1, pos 0)
    | some buf ↦ (st.json_k buf, st.json_n buf)
  ]

  -- a rest counts a fifth at least
  abbrev pub weight : ℤ → ℤ
  weight n = if less_ℤ (succ_ℤ n) (pos 5) then succ_ℤ n else pos 5

  pub carryover_learn : S → Bytes → W → W → S
  carryover_learn s meat predicted actual =
      let (k, n) = learned s meat in
      let ratio = actual /ᵈ predicted in
      let low = if ratio <ᵈ d.lit 3 10 then d.lit 3 10 else ratio in
      let high = if d.lit 3 1 <ᵈ low then d.lit 3 1 else low in
      let k' = k +ᵈ (high -ᵈ k) /ᵈ d.of_int (weight n) in
      if not (st.db_open s) || not (d.lit 3 10 <ᵈ predicted) || not (nought ≤ᵈ actual)
      then s
      else st.kv_put s (carry_key meat) (st.row k' (succ_ℤ n))

  pub learned_c : S → W → W → W → Bytes → W
  unfolding model_c carryover_k
  learned_c s rate centre cook meat =
      let c = model_c rate centre cook *ᵈ carryover_k s meat in
      if carry_learned_max_c <ᵈ c then carry_learned_max_c else if c <ᵈ nought then nought else c

  pub rest_pull_c : S → W → W → W → W → Bytes → W
  unfolding rest_margin_c learned_c
  rest_pull_c s rest rate centre cook meat =
      rest +ᵈ rest_margin_c s -ᵈ learned_c s rate centre cook meat
