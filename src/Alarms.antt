-- ===== src/Alarms.antt =====
-- src/features/alarms.c: the table of alarms and notices. Each function holds the lock from end to
-- end, so it is one step; the time of the wall clock is an argument. `now` of `note`'s key, which
-- the source prints into it, is the argument `stamp`. JSON and logging are left out.
pub mod Slots
pub mod Raise
pub mod Listing
mod Tests
use pifire_c.Common.{
  ℕ, zero, suc, ◌+◌, ◌%◌, ◌^◌, Bool, true, false, not, ◌&&◌, ◌||◌, Option, none, some, List, [],
  ◌∷◌, ◌++◌, map, ltb, leb, ◌==◌, if◌then◌else◌,
}
use pifire_c.Common.Float.{Double, ◌<ᵈ◌, ◌==ᵈ◌, ◌+ᵈ◌, ◌-ᵈ◌, ◌*ᵈ◌, nought}
use pifire_c.Text.{Bytes, same, take, strlcpy}

-- `pf_criticality`
abbrev pub crit_high : ℕ
crit_high = 2

-- `alarm_t`
pub record Alarm (W : Type 0) : Type 0 where
  pub used : Bool
  pub key : Bytes
  pub code : Bytes
  pub name : Bytes
  pub title : Bytes
  pub body : Bytes
  pub crit : ℕ
  pub sinks : ℕ
  pub active : Bool
  pub acked : Bool
  pub notice : Bool
  pub retired : Bool
  pub raised_ts : W
  pub cleared_ts : W
  pub acked_ts : W
  pub raises : ℕ
  pub window_start : W
  pub window_raises : ℕ
  pub shelved_until : W
  pub fix : Bytes
  pub snooze_s : W
  pub flash : Bytes

-- `g_tab` and `g_gen`
pub record Alarms (W : Type 0) : Type 0 where
  pub tab : List (Alarm W)
  pub gen : ℕ

abbrev pub chatter_raises : ℕ
chatter_raises = 5

-- the key of a notice: `%.40s@%.0f`, in a buffer of 96 bytes
abbrev pub note_key : Bytes → Bytes → Bytes
note_key code stamp = strlcpy 96 (take 40 code ++ (b'@' ∷ stamp))

abbrev pub has_text : Bytes → Bool
has_text [] = false
has_text (b ∷ s) = true

abbrev pub bump : ℕ → ℕ
bump g = (g + 1) % 2 ^ 32

module _ {W : Type 0} where
  -- a change of one slot, through the pointer that `find` or `slot_for` returned
  pub modify : ℕ → (Alarm W → Alarm W) → List (Alarm W) → List (Alarm W)
  modify i f [] = []
  modify zero f (a ∷ l) = f a ∷ l
  modify (suc i) f (a ∷ l) = a ∷ modify i f l

  abbrev pub is_for : Bytes → Alarm W → Bool
  is_for key a = a.used && same a.key key

  -- `find`: the number of the slot
  unfoldable pub find : Bytes → List (Alarm W) → Option ℕ
  find key [] = none
  find key (a ∷ l) =
      let rest = find key l in
      if is_for key a then some 0 else (elim rest [ none ↦ none | some i ↦ some (suc i) ])

  unfoldable pub first_unused : List (Alarm W) → Option ℕ
  first_unused [] = none
  first_unused (a ∷ l) =
      let rest = first_unused l in
      if not a.used then some 0 else (elim rest [ none ↦ none | some i ↦ some (suc i) ])

module _ {W : Type 0} ⦃d : Double W⦄ where
  abbrev pub empty_slot : Alarm W
  empty_slot = record {
    used = false;
    key = [];
    code = [];
    name = [];
    title = [];
    body = [];
    crit = 0;
    sinks = 0;
    active = false;
    acked = false;
    notice = false;
    retired = false;
    raised_ts = nought;
    cleared_ts = nought;
    acked_ts = nought;
    raises = 0;
    window_start = nought;
    window_raises = 0;
    shelved_until = nought;
    fix = [];
    snooze_s = nought;
    flash = [];
  }

  abbrev pub chatter_window_s : W
  chatter_window_s = d.lit 600 1

  abbrev pub chatter_shelf_s : W
  chatter_shelf_s = d.lit 1800 1

  -- `reap`: a retired entry that can no longer tell anything about chattering
  abbrev pub is_stale : W → Alarm W → Bool
  is_stale now a =
      a.used
      && a.retired
      && (chatter_window_s *ᵈ d.lit 2 1) <ᵈ (now -ᵈ a.cleared_ts)
      && a.shelved_until <ᵈ now

  unfoldable pub reap : W → List (Alarm W) → List (Alarm W)
  reap now tab = map (λ a. if is_stale now a then empty_slot else a) tab

  -- The last loop of `slot_for` from slot `i` on; `oldest` is the best so far, by slot and time.
  abbrev pub older : ℕ → Alarm W → Option (ℕ × W) → Option (ℕ × W)
  older i a none = some (i, a.raised_ts)
  older i a (some (j, t)) = if a.raised_ts <ᵈ t then some (i, a.raised_ts) else some (j, t)

  pub evict : List (Alarm W) → ℕ → Option (ℕ × W) → Option ℕ
  evict [] i none = none
  evict [] i (some (j, t)) = some j
  evict (a ∷ l) i oldest =
      let rest = evict l (suc i) (if a.active || not a.acked then oldest else older i a oldest) in
      if a.retired then some i else rest

  pub slot_for : Bytes → List (Alarm W) → Option ℕ
  slot_for key tab = elim (find key tab) [
    | some i ↦ some i
    | none ↦ elim (first_unused tab) [ some i ↦ some i | none ↦ evict tab 0 none ]
  ]

-- what `pf_alarms_raise` and `pf_alarms_note` are told
pub record Report : Type 0 where
  pub code : Bytes
  pub name : Option Bytes
  pub crit : ℕ
  pub sinks : ℕ
  pub title : Bytes
  pub body : Option Bytes

-- `x ? x : other`
abbrev pub or_else : Option Bytes → Bytes → Bytes
or_else (some x) other = x
or_else none other = other

module _ {W : Type 0} ⦃d : Double W⦄ where
  -- the texts and the urgency of a report
  abbrev pub fill : Report → Alarm W → Alarm W
  fill r a = record a {
    code = strlcpy 40 r.code;
    name = strlcpy 64 (or_else r.name r.code);
    title = strlcpy 120 r.title;
    body = strlcpy 256 (or_else r.body []);
    crit = r.crit;
    sinks = r.sinks;
  }

  -- a new activation: it is counted in its window, and shelved when there were too many
  pub activate : W → Alarm W → Alarm W
  activate now a =
      let old = chatter_window_s <ᵈ (now -ᵈ a.window_start) in
      let count = ((if old then 0 else a.window_raises) + 1) % 2 ^ 32 in
      record a {
        active = true;
        acked = false;
        raised_ts = now;
        cleared_ts = nought;
        raises = bump a.raises;
        window_start = if old then now else a.window_start;
        window_raises = count;
        shelved_until =
            if leb chatter_raises count && a.shelved_until <ᵈ now
            then now +ᵈ chatter_shelf_s
            else a.shelved_until;
      }

  -- the slot as `pf_alarms_raise` leaves it
  pub raise_slot : W → Bytes → Report → Alarm W → Alarm W
  raise_slot now key r a =
      let named =
        if a.used
        then a
        else record (empty_slot) { used = true; key = strlcpy 96 key; window_start = now } in
      let filled = record (fill r named) { notice = false; retired = false } in
      if filled.active then filled else activate now filled

  -- whether it is a new activation that may be told
  abbrev pub is_news : W → Bool → Alarm W → Bool
  is_news now was_active a = if now <ᵈ a.shelved_until then false else not was_active

  pub slot_at : ℕ → List (Alarm W) → Alarm W
  slot_at i [] = empty_slot
  slot_at zero (a ∷ l) = a
  slot_at (suc i) (a ∷ l) = slot_at i l

  abbrev pub was_active : Alarm W → Bool
  was_active a = a.used && a.active

  pub raise : Alarms W → W → Bytes → Report → Bool × Alarms W
  raise s now key r =
      let tab = reap now s.tab in
      elim (slot_for key tab) [
        | none ↦ (false, record s { tab = tab })
        | some i ↦
            let a = slot_at i tab in
            (
              is_news now (was_active a) (raise_slot now key r a),
              record { tab = modify i (raise_slot now key r) tab; gen = bump s.gen },
            )
      ]

  -- a change of the slot that a key finds; `none` if there is none
  pub at_key : Alarms W → Bytes → (Alarm W → Alarm W) → Option (Alarms W)
  at_key s key f = elim (find key s.tab) [
    | none ↦ none
    | some i ↦ some (record s { tab = modify i f s.tab })
  ]

  abbrev pub clear_slot : W → Alarm W → Alarm W
  clear_slot now a =
      if a.acked || ltb a.crit crit_high
      then record a { active = false; cleared_ts = now; retired = true; acked = true }
      else record a { active = false; cleared_ts = now }

  pub clear : Alarms W → W → Bytes → Alarms W
  clear s now key = elim (find key s.tab) [
    | none ↦ s
    | some i ↦
        if (slot_at i s.tab).active
        then record { tab = modify i (clear_slot now) s.tab; gen = bump s.gen }
        else s
  ]

  pub offer : Alarms W → Bytes → Option Bytes → W → Alarms W
  offer s key fix snooze = elim (find key s.tab) [
    | none ↦ s
    | some i ↦ record s {
      tab = modify i (λ a. record a { fix = strlcpy 24 (or_else fix []); snooze_s = snooze }) s.tab;
    }
  ]

  -- `cleared_ts` is written if it is 0
  abbrev pub stamp_cleared : W → Alarm W → W
  stamp_cleared now a = if a.cleared_ts ==ᵈ nought then now else a.cleared_ts

  abbrev pub retire_slot : W → Alarm W → Alarm W
  retire_slot now a = record a {
    active = false;
    acked = true;
    retired = true;
    cleared_ts = stamp_cleared now a;
  }

  unfoldable pub retire : Alarms W → W → Bytes → Alarms W
  retire s now key = elim (find key s.tab) [
    | none ↦ s
    | some i ↦
        if not (slot_at i s.tab).retired
        then record { tab = modify i (retire_slot now) s.tab; gen = bump s.gen }
        else s
  ]

  abbrev pub note_slot : W → Bytes → Report → Alarm W → Alarm W
  note_slot now key r a = record (fill r empty_slot) {
    used = true;
    notice = true;
    raised_ts = now;
    raises = 1;
    key = strlcpy 96 key;
  }

  pub note : Alarms W → W → Bytes → Report → Alarms W
  note s now stamp r =
      let key = note_key r.code stamp in
      elim (slot_for key s.tab) [
        | none ↦ s
        | some i ↦ record { tab = modify i (note_slot now key r) s.tab; gen = bump s.gen }
      ]

  abbrev pub ack_slot : W → Alarm W → Alarm W
  ack_slot now a = if a.active then record a { acked = true; acked_ts = now } else record a {
    acked = true;
    acked_ts = now;
    retired = true;
    cleared_ts = stamp_cleared now a;
  }

  -- true for 0, false for -1
  pub ack : Alarms W → W → Bytes → Bool × Alarms W
  ack s now key = elim (find key s.tab) [
    | none ↦ (false, s)
    | some i ↦ (true, record { tab = modify i (ack_slot now) s.tab; gen = bump s.gen })
  ]

  -- in the list, and on nobody's mind
  abbrev pub is_listed : Alarm W → Bool
  is_listed a = a.used && not a.retired

  -- the loop of `pf_alarms_ack_all`, with the count
  pub ack_each : W → List (Alarm W) → ℕ × List (Alarm W)
  ack_each now [] = (0, [])
  ack_each now (a ∷ l) =
      let (n, l') = ack_each now l in
      if is_listed a then ((if a.acked then n else suc n), ack_slot now a ∷ l') else (n, a ∷ l')

  pub ack_all : Alarms W → W → ℕ × Alarms W
  ack_all s now = let (n, tab) = ack_each now s.tab in (n, record { tab = tab; gen = bump s.gen })

  -- The wall clock is read twice.
  pub shelve : Alarms W → W → W → Bytes → W → Bool × Alarms W
  shelve s now now' key seconds = elim (find key s.tab) [
    | none ↦ (false, s)
    | some i ↦
        let until = now +ᵈ (if nought <ᵈ seconds then seconds else chatter_shelf_s) in
        (
          true,
          record {
            tab =
                modify i (λ a. record a { shelved_until = until; acked = true; acked_ts = now' })
                  s.tab;
            gen = bump s.gen;
          },
        )
  ]

  pub unacked : List (Alarm W) → ℕ
  unacked [] = 0
  unacked (a ∷ l) = let n = unacked l in if is_listed a && not a.acked then suc n else n

  pub flash : Alarms W → Bytes → Option Bytes → Alarms W
  flash s key word = elim (find key s.tab) [
    | none ↦ s
    | some i ↦ record s {
      tab = modify i (λ a. record a { flash = strlcpy 64 (or_else word []) }) s.tab;
    }
  ]

  -- The newest of the slots that pass a test, from slot `i` on: the loops that keep `best`.
  abbrev pub newer : ℕ → Alarm W → Option (ℕ × Alarm W) → Option (ℕ × Alarm W)
  newer i a none = some (i, a)
  newer i a (some (j, b)) = if b.raised_ts <ᵈ a.raised_ts then some (i, a) else some (j, b)

  pub newest : (Alarm W → Bool) → List (Alarm W) → ℕ → Option (ℕ × Alarm W) → Option (ℕ × Alarm W)
  newest test [] i best = best
  newest test (a ∷ l) i best = newest test l (suc i) (if test a then newer i a best else best)

  pub flash_code : Alarms W → Bytes → Option Bytes → Alarms W
  flash_code s code word = elim (newest (λ a. a.used && same a.code code) s.tab 0 none) [
    | none ↦ s
    | some (i, b) ↦ record s {
      tab = modify i (λ a. record a { flash = strlcpy 64 (or_else word []) }) s.tab;
    }
  ]

  abbrev pub may_flash : W → Alarm W → Bool
  may_flash now a =
      is_listed a
      && not a.acked
      && has_text a.flash
      && not (now <ᵈ a.shelved_until)
      && (a.active || a.notice)

  -- what the panel flashes, in a buffer of `n` bytes
  pub flash_word : Alarms W → W → ℕ → Option Bytes
  flash_word s now n = elim (newest (may_flash now) s.tab 0 none) [
    | none ↦ none
    | some (i, b) ↦ some (strlcpy n b.flash)
  ]
