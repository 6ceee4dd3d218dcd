-- ===== src/Lib.antt =====
-- pifire-c: a pellet grill controller in C. One thread runs the grill (src/core/control.c), reads the
-- probes, asks the safety code what to do (src/core/safety.c) and drives the relays through one locked
-- module (src/core/outputs.c); the web server and the API send it commands through a queue
-- (src/core/cmdq.c).
--
-- The files of this library, and the code that each models:
--
--   Common         shared names, Boolean tests, lists and signed integers; `Common.Float` is the
--                  interface to C's `double`: a type with its operations, of which nothing is assumed
--   Mode           include/pifire/common.h and src/core/util.c: modes, outputs and their names
--   CmdQueue       src/core/cmdq.c, the ring of commands; `CmdQueue.Refine` holds it against a queue
--   Outputs        src/core/outputs.c and include/pifire/platform.h; a platform is an instance argument
--                  and what is relied on of it is `Outputs.Laws.PlatformLaws`; `Outputs.Race` is the
--                  interleaving of what the threads do under the lock, as a step relation; `Outputs.Only` says which outputs
--                  can be on after a sequence of calls
--   Grill          src/core/control.h: the records of the control thread, with the fields in use
--   Safety         src/core/safety.c: `Start` (entering and leaving a light), `Light` (Smart Start, with `Proof`),
--                  `Supervise` (flame supervision), `Tick` (`pf_safety_tick`, part by part in its
--                  order); `Outcome`, `Switching`, `Probe` and `Relights` hold the proofs
--   Control        src/core/control.c and src/core/control.h: the state of the control thread. `Enter`
--                  is enter_mode, with `Allowed`, `Switched` and `Entered` its proofs; `Recipe` the
--                  steps of a recipe, with `Finish` and `Relight`, and `Recipe.Follow` run_recipe, with
--                  `Pause`; `Request` is apply_request, with `Lights`; `Command` is handle_cmd, with
--                  `Hand` for outputs set by hand and `Stopped`; `Run` is run_mode, of which `Lid`,
--                  `Hold`, `Feed`, `Fan` and `Timed` are the parts and `Keeps`, `Kept`, `Moves` and
--                  `Cap` the proofs; `Step` is pf_control_step, with `Overheat`
--   Text           src/core/util.c: text as lists of bytes; `Text.Escape` reads a JSON string back
--   Alarms         src/features/alarms.c, the table of alarms; `Slots` and `Raise` hold the proofs on
--                  raising, `Listing` those on acknowledging, chatter and the flashed word
--   Cycle          src/core/cycle.c and src/core/cycle.h, the auger cycle; `Cycle.Bounds` its caps
--   Network        src/net/netmgr.c: the state machine over a radio that is an interface; `Thread` its
--                  loop, `Requests` the proofs on joins, `Watchdog` the look at the gateway, of which
--                  `Reboot` holds the proofs
--   Notify         src/core/notify.c and src/core/notify.h: the targets of the probes. `Climb` is the ring
--                  of samples and the fit through it, with `Samples`; `Carry` the carry-over, `Target`
--                  what the cook sets, `CookTimer` the timer, `Watch` the heat and the rest, `Speak` the
--                  steps and limits, `Tick` pf_notify_tick, with `Once` and `Alarm` its proofs
--   Rules          src/features/rules.c: the traits and the comparison; `Tree` the conditions with their
--                  clocks, of which `Meaning` and `Held` are the proofs, `Table` what is remembered of
--                  each instance, `Traits` what can be asked, `Select` the instances that a rule watches
--                  and the conversion of its units, `Tick` pf_rules_tick, with `Edge`
--                  and `Missed`
--   Pid            src/controllers/pid.c, the PID controller; `Pid.Windup` is about its integrator
--   Events         src/core/events.c, the ring of events; `Events.Recent` holds it against a history
--   Rpi            src/platform/rpi.c as a platform; `Rpi.Wires` proves what is relied on of one
--   Sha256         src/core/sha256.c; `Streaming` and `Padding` hold the proofs
--   Tempq          src/probes/tempq.c and src/probes/tempq.h, the filter of a probe's samples
--   Version        src/features/update.c, the order of versions, with `Swapped`
--   Sample         a concrete double and a concrete platform for the examples
--   */Tests        examples: each theorem with conditions at a concrete input
--
-- A function that changes shared state takes the state and returns the new one. A function that holds
-- a lock from end to end is one step. `int` results are `Rc`, an option, or a Boolean as the comment
-- at the definition says. Doubles are any type with the operations of `Common.Float.Double`: the
-- theorems hold whatever rounding does, and a comparison with NaN may be false. Counters are native
-- numbers; the unsigned ones wrap around where they can. The loops of `Sha256.fill` and
-- `Sha256.pad` run on fuel: as many turns as there are bytes, and 64, which `Sha256.Streaming` and `Sha256.Padding`
-- prove to be enough, and that of `Version.compare_from` on the length of the texts, which
-- `Version.Swapped` proves to be; every other loop is structural.
--
-- What other components answer in a turn of the control thread is the record `Control.Parts` (the
-- learned feed, the clock of the day, the controller, the relay autotune, stored recipes), what they do
-- in it the record `Control.Step.Others` (probes, notifications, learning, and the commands that are
-- theirs), and what the condition tree of a recipe's step says `Control.Recipe.Follow.Ending`. The turn
-- takes the commands that the queue gave, as a list.
--
-- What the notifications ask of the database and of the settings is `Notify.Carry.Store`, and of
-- <math.h> `Notify.Climb.Math`. Rules read the status through `Rules.Facts`, which says what stands at a
-- path; a tree of conditions is given by what is read of its JSON, and the texts of messages are
-- `Rules.Tick.Speech`.
--
-- Not modelled: log lines, rows of the events table, the wording of messages, and what the components
-- of the manifest marked so name. A call that hangs inside the platform makes no step, and the branch of an
-- emergency off that gives up waiting for the lock is a definition but no step, as it may run beside a
-- call that has the lock.
pub mod Common
pub mod Mode
pub mod CmdQueue
pub mod Outputs
pub mod Grill
pub mod Safety
pub mod Text
pub mod Version
pub mod Alarms
pub mod Cycle
pub mod Network
pub mod Notify
pub mod Pid
pub mod Rpi
pub mod Rules
pub mod Events
pub mod Sha256
pub mod Tempq
pub mod Control
pub mod Sample
