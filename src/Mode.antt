-- ===== src/Mode.antt =====
-- include/pifire/common.h and src/core/util.c: the modes of the grill, its outputs, and their names.
mod Tests
use pifire_c.Common.{
  ℕ, Bool, true, false, Option, none, some, List, [], ◌∷◌, map, ltb, leb, ◌==◌, if◌then◌else◌, ◌+◌,
  ◌-◌, ◌||◌, ◌&&◌, ◌≡◌, arith,
}
use Prim.Native.String.{String}
use Prim.Native.Char.{code}

-- `pf_mode`
pub data Mode : Type 0 where
  stop monitor prime startup reignite smoke hold shutdown manual error : Mode

-- `pf_output`
pub data Output : Type 0 where
  power fan auger igniter : Output

-- `pf_units`
pub data Units : Type 0 where
  fahrenheit celsius : Units

abbrev pub mode_eq : Mode → Mode → Bool
mode_eq stop stop = true
mode_eq monitor monitor = true
mode_eq prime prime = true
mode_eq startup startup = true
mode_eq reignite reignite = true
mode_eq smoke smoke = true
mode_eq hold hold = true
mode_eq shutdown shutdown = true
mode_eq manual manual = true
mode_eq error error = true
mode_eq _ _ = false

abbrev pub output_eq : Output → Output → Bool
output_eq power power = true
output_eq fan fan = true
output_eq auger auger = true
output_eq igniter igniter = true
output_eq _ _ = false

pub output_eq_sound : (o p : Output) → output_eq o p ≡ true → o ≡ p
output_eq_sound power p h = ground arith
output_eq_sound _ p h = ground arith

pub mode_eq_sound : (m n : Mode) → mode_eq m n ≡ true → m ≡ n
mode_eq_sound stop n h = ground arith
mode_eq_sound _ n h = ground arith

abbrev pub is_firing : Mode → Bool
is_firing startup = true
is_firing reignite = true
is_firing smoke = true
is_firing hold = true
is_firing _ = false

-- The bytes of an ASCII text, with no terminator.
abbrev pub bytes : String → List ℕ
bytes String.[] = []
bytes (String.◌∷◌ c s) = code c ∷ bytes s

abbrev pub mode_name : Mode → List ℕ
mode_name stop = bytes "Stop"
mode_name monitor = bytes "Monitor"
mode_name prime = bytes "Prime"
mode_name startup = bytes "Startup"
mode_name reignite = bytes "Relight"
mode_name smoke = bytes "Smoke"
mode_name hold = bytes "Hold"
mode_name shutdown = bytes "Shutdown"
mode_name manual = bytes "Manual"
mode_name error = bytes "Error"

-- `tolower` in the C locale
abbrev pub to_lower : ℕ → ℕ
to_lower c = if leb 65 c && leb c 90 then c + 32 else c

-- `strcasecmp` as a test of equality
abbrev pub same_nocase : List ℕ → List ℕ → Bool
same_nocase [] [] = true
same_nocase (a ∷ s) (b ∷ t) = to_lower a == to_lower b && same_nocase s t
same_nocase _ _ = false

abbrev pub all_modes : List Mode
all_modes =
    stop ∷ monitor ∷ prime ∷ startup ∷ reignite ∷ smoke ∷ hold ∷ shutdown ∷ manual ∷ error ∷ []

-- the loop of `pf_mode_from_name`
pub find_mode : List Mode → List ℕ → Option Mode
find_mode [] s = none
find_mode (m ∷ ms) s =
    let rest = find_mode ms s in if same_nocase s (mode_name m) then some m else rest

-- `none` is -1.
pub mode_from_name : List ℕ → Option Mode
unfolding find_mode
mode_from_name s = elim (find_mode all_modes s) [
  | some m ↦ some m
  | none ↦ if same_nocase s (bytes "Reignite") then some reignite else none
]
