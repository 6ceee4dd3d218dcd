-- ===== src/Events/Tests.antt =====
-- Examples of the ring of events.
use pifire_c.Common.{ℕ, zero, suc, ◌≡◌, List, [], ◌∷◌}
use pifire_c.Events.{Event, Bus, recent}
use pifire_c.Events.Recent.{latest, published, recent-published}

-- an event that its number tells from the others
abbrev numbered : ℕ → Event ℕ
numbered n = record { ts = n; code = []; title = []; body = []; crit = 1; sinks = 1 }

abbrev up_to : ℕ → List (Event ℕ)
up_to zero = []
up_to (suc n) = numbered n ∷ up_to n

abbrev empty_bus : Bus ℕ
empty_bus = record { ring = numbered; head = 5; len = 9; gen = 0; registered = [] }

-- forty events, of which the ring has dropped eight
recent-published_example :
    recent (published empty_bus (up_to 40)) 2 ≡ numbered 38 ∷ numbered 39 ∷ []
unfolding latest
recent-published_example = recent-published empty_bus (up_to 40) 2
