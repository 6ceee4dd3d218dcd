-- ===== src/Alarms/Tests.antt =====
-- Examples of the alarm table.
use pifire_c.Common.{ℕ, zero, suc, ◌≡◌, refl, inl, true, none, List, [], ◌∷◌}
use pifire_c.Mode.{bytes}
use pifire_c.Alarms.{
  Alarm, Alarms, Report, find, reap, first_unused, slot_for, evict, slot_at, raise, clear,
  empty_slot,
}
use pifire_c.Alarms.Raise.{Stands, raise_full_unfound, raise_keeps_open}
use pifire_c.Sample.{Centi, centi, whole}

abbrev hot : Report
hot = record {
  code = bytes "E01";
  name = none;
  crit = 3;
  sinks = 1;
  title = bytes "Hot";
  body = none;
}

-- an entry that was acknowledged long ago
abbrev old : Alarm Centi
old = record (empty_slot) { used = true; key = bytes "old"; acked = true }

abbrev copies : ℕ → List (Alarm Centi)
copies zero = []
copies (suc n) = old ∷ copies n

-- a full table
abbrev full : Alarms Centi
full = record { tab = copies 64; gen = 7 }

raise_full_unfound_example :
    Stands hot 0 (raise full (whole 9) (bytes "pit") hot).1.tab
    × (find (bytes "pit") (raise full (whole 9) (bytes "pit") hot).1.tab ≡ none)
    × (clear (raise full (whole 9) (bytes "pit") hot).1 (whole 10) (bytes "pit")
        ≡ (raise full (whole 9) (bytes "pit") hot).1)
unfolding find reap first_unused slot_for evict
raise_full_unfound_example =
    raise_full_unfound full (whole 9) (whole 10) (bytes "pit") hot 0 refl refl refl

-- a table with one alarm that stands
abbrev standing : Alarm Centi
standing = record (empty_slot) {
  used = true;
  key = bytes "pit";
  crit = 3;
  active = true;
  raises = 5;
  window_raises = 5;
  flash = bytes "HOT";
}

abbrev small : Alarms Centi
small = record { tab = standing ∷ empty_slot ∷ []; gen = 7 }

raise_keeps_open_example :
    slot_at 0 (raise small (whole 9) (bytes "new") hot).1.tab ≡ slot_at 0 small.tab
unfolding slot_at
raise_keeps_open_example =
    raise_keeps_open small (whole 9) (bytes "new") hot 0 (refl, refl, inl refl) refl
