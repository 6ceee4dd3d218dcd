-- ===== src/Events.antt =====
-- src/core/events.c: the ring of recent events, the sinks that they are handed to, and what goes to
-- the list of alarms. A sink is a function of the program, here a number; logging and the events
-- table are left out, and the body is the text that `vsnprintf` made.
mod Tests
pub mod Recent
use pifire_c.Common.{
  ℕ, zero, suc, ◌+◌, ◌-◌, ◌*◌, ◌/◌, ◌%◌, ◌^◌, Bool, true, false, not, ◌&&◌, ◌||◌, List, [], ◌∷◌,
  ◌++◌, length, ltb, leb, ◌==◌, if◌then◌else◌,
}
use pifire_c.Text.{Bytes, same, take, strlcpy}
use pifire_c.Mode.{bytes}

-- `ev_t`
pub record Event (W : Type 0) : Type 0 where
  pub ts : W
  pub code : Bytes
  pub title : Bytes
  pub body : Bytes
  pub crit : ℕ
  pub sinks : ℕ

-- `RING` and `MAX_SINKS`
abbrev pub ring_size : ℕ
ring_size = 32

abbrev pub max_sinks : ℕ
max_sinks = 8

-- The globals; the ring is a function from the slots.
pub record Bus (W : Type 0) : Type 0 where
  pub ring : ℕ → Event W
  pub head : ℕ
  pub len : ℕ
  pub gen : ℕ
  pub registered : List ℕ

-- what an event does beside the ring
pub record Told (W : Type 0) : Type 0 where
  pub offered : List ℕ
  pub event : Event W
  pub noted : Bool

-- `PF_SINK_ALL`
abbrev pub sink_all : ℕ
sink_all = 2 ^ 32 - 1

-- `sinks & PF_SINK_APP`
abbrev pub to_app : ℕ → Bool
to_app sinks = sinks % 2 == 1

-- the daemon's own bookkeeping
abbrev pub housekeeping : Bytes → Bool
housekeeping code =
    same code (bytes "MODE")
    || same code (bytes "SYS_START")
    || same code (bytes "SYS_STOP")
    || same (take 7 code) (bytes "UPDATE_")
    || same (take 5 code) (bytes "RULE_")

-- the byte after the first, 0 at the end
abbrev pub byte_at : ℕ → Bytes → ℕ
byte_at n [] = 0
byte_at zero (a ∷ s) = a
byte_at (suc n) (a ∷ s) = byte_at n s

abbrev pub is_digit : ℕ → Bool
is_digit a = leb b'0' a && leb a b'9'

abbrev pub crit_from_code : Bytes → ℕ
crit_from_code code =
    if byte_at 0 code == b'E' && is_digit (byte_at 1 code)
    then 3
    else if byte_at 0 code == b'W' && is_digit (byte_at 1 code)
    then 2
    else 1

module _ {W : Type 0} where
  abbrev pub set_slot : (ℕ → Event W) → ℕ → Event W → ℕ → Event W
  set_slot ring i e j = if i == j then e else ring j

  pub init : Bus W → Bus W
  init b = record b { head = 0; len = 0; registered = [] }

  -- the answer is whether there was room
  pub add_sink : Bus W → ℕ → Bool × Bus W
  add_sink b f =
      if ltb (length b.registered) max_sinks
      then (true, record b { registered = b.registered ++ f ∷ [] })
      else (false, b)

  -- the locked part of `emit_v`
  pub put : Bus W → Event W → Bus W
  put b e = record b {
    ring = set_slot b.ring b.head e;
    head = (b.head + 1) % ring_size;
    len = if ltb b.len ring_size then b.len + 1 else b.len;
    gen = (b.gen + 1) % 2 ^ 32;
  }

  pub emit_v : Bus W → W → Bytes → ℕ → ℕ → Bytes → Bytes → Told W × Bus W
  unfolding put
  emit_v b now code crit sinks title text =
      let e : Event W = record {
        ts = now;
        code = strlcpy 40 code;
        title = strlcpy 96 title;
        body = take 255 text;
        crit = crit;
        sinks = sinks;
      } in
      (
        record {
          offered = b.registered;
          event = e;
          noted = to_app sinks && not (housekeeping (strlcpy 40 code));
        },
        put b e,
      )

  -- `pf_events_emit`
  pub emit : Bus W → W → Bytes → Bytes → Bytes → Told W × Bus W
  unfolding emit_v
  emit b now code title text = emit_v b now code (crit_from_code code) sink_all title text

  -- the loop of `pf_events_recent_json` over `count` slots from `start + i`
  pub slots_from : (ℕ → Event W) → ℕ → ℕ → List (Event W)
  slots_from ring start zero = []
  slots_from ring start (suc count) = ring (start % ring_size) ∷ slots_from ring (suc start) count

  -- `max`, an `int`, is compared as an `unsigned`: a number here, of which a negative one is a huge one
  pub recent : Bus W → ℕ → List (Event W)
  unfolding slots_from
  recent b max =
      let count = if ltb b.len max then b.len else max in
      slots_from b.ring ((b.head + ring_size - count) % ring_size) count
