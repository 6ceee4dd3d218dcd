-- ===== src/Outputs/Tests.antt =====
-- Examples of the outputs, on the board of relays.
use pifire_c.Common.{refl, true, false, none, some}
use pifire_c.Mode.{auger}
use pifire_c.Outputs.{Relays, emergency_off}
use pifire_c.Outputs.Race.{
  set_output, System, here, next, lock, put, IsOff, WiresOff, emergency_is_final, serve,
}
use pifire_c.Sample.{board, board_laws, outputs}

-- A thread has asked for the auger when the emergency comes.
abbrev asked : System Relays
asked = record { out = outputs; pending = put (λ i. none) 3 (some (set_output auger true)) }

abbrev stopped : System Relays
stopped = record asked { out = (emergency_off (asked.out) false).1 }

abbrev served : System Relays
served = record {
  out = serve (stopped.out) (set_output auger true);
  pending = put (stopped.pending) 3 none;
}

emergency_is_final_example : IsOff served.out × WiresOff served.out.device
emergency_is_final_example =
    emergency_is_final asked served (next here (lock stopped 3 (set_output auger true) refl))
