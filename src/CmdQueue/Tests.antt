-- ===== src/CmdQueue/Tests.antt =====
-- Examples of the queue.
use pifire_c.Common.{◌≡◌, [], ◌∷◌, ℕ, true, some, none}
use pifire_c.CmdQueue.{CmdQueue, init}
use pifire_c.CmdQueue.Refine.{run, spec_run, run-init, push_call, pop_call, pushed, popped}

abbrev stale : CmdQueue ℕ
stale = record { q = λ i. 0; head = 63; len = 12 }

run-init_example :
    run (init stale) (pop_call ∷ push_call 5 ∷ pop_call ∷ [])
    ≡ spec_run [] (pop_call ∷ push_call 5 ∷ pop_call ∷ [])
run-init_example = run-init stale (pop_call ∷ push_call 5 ∷ pop_call ∷ [])

answers :
    run (init stale) (pop_call ∷ push_call 5 ∷ pop_call ∷ [])
    ≡ popped none ∷ pushed true ∷ popped (some 5) ∷ []
unfolding spec_run
answers = run-init stale (pop_call ∷ push_call 5 ∷ pop_call ∷ [])
