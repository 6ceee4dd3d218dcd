-- ===== src/CmdQueue/Refine.antt =====
-- src/core/cmdq.c against a bounded first-in first-out queue.
use pifire_c.Common.{
  ℕ, zero, suc, ◌+◌, ◌-◌, ◌%◌, ◌≤◌, ◌<◌, ◌≡◌, refl, ap, Bool, true, false, Option, none, some, List,
  [], ◌∷◌, ◌++◌, arith, ltb, if◌then◌else◌, length,
}
use pifire_c.CmdQueue.{CmdQueue, qlen, store, init, push, pop}

pub record IsValid {A : Type 0} (s : CmdQueue A) : Type 0 where
  pub head_in : s.head < qlen
  pub len_in : s.len ≤ qlen

module _ {A : Type 0} where
  -- the `n` entries from index `h` on, going round at the end of the array
  abbrev pub window : (ℕ → A) → ℕ → ℕ → List A
  window g h zero = []
  window g h (suc n) = g (h % qlen) ∷ window g (h + 1) n

  -- the commands that wait, oldest first
  abbrev pub waiting : CmdQueue A → List A
  waiting s = window s.q s.head s.len

  window_shift : (g : ℕ → A) (h h' n : ℕ) → h % qlen ≡ h' % qlen → window g h n ≡ window g h' n
  window_shift g h h' zero e = refl
  window_shift g h h' (suc n) e = ground (arith, window_shift g (h + 1) (h' + 1) n (omega arith))

  pub length-window : (g : ℕ → A) (h n : ℕ) → length (window g h n) ≡ n
  length-window g h zero = refl
  length-window g h (suc n) = ap suc (length-window g (h + 1) n)

  -- A store just past the entries adds one at the end.
  window-store :
      (g : ℕ → A) (c : A) (h n i : ℕ)
      → n < qlen
      → i ≡ (h + n) % qlen
      → window (store g i c) h (suc n) ≡ window g h n ++ (c ∷ [])
  window-store g c h zero i b e = ground arith
  window-store g c h (suc n) i b e =
      ground (arith, window-store g c (h + 1) n i (omega arith) (omega arith))

  -- the specification: a queue of at most `qlen` commands
  abbrev pub spec_push : List A → A → Bool × List A
  spec_push l c = if ltb (length l) qlen then (true, l ++ (c ∷ [])) else (false, l)

  abbrev pub spec_pop : List A → Option A × List A
  spec_pop [] = (none, [])
  spec_pop (c ∷ l) = (some c, l)

  window_add_one : (g : ℕ → A) (h n : ℕ) → window g h (n + 1) ≡ window g h (suc n)
  window_add_one g h n = ap (window g h) {y = suc n} (omega arith)

  window_pos :
      (g : ℕ → A) (h n : ℕ) → 0 < n → window g h n ≡ g (h % qlen) ∷ window g (h + 1) (n - 1)
  window_pos g h zero p = absurd (omega arith)
  window_pos g h (suc n) p = ap (λ k. g (h % qlen) ∷ window g (h + 1) k) (omega arith)

  -- A push to a valid queue keeps it valid, answers as the bounded queue of the waiting commands
  -- does, and leaves the commands that the bounded queue holds then.
  pub push_refines :
      (s : CmdQueue A) (c : A)
      → IsValid s
      → IsValid (push s c).1 × (((push s c).0, waiting (push s c).1) ≡ spec_push (waiting s) c)
  unfolding push
  push_refines s c v = ground (
    arith,
    length-window s.q s.head s.len,
    window_add_one (store s.q ((s.head + s.len) % qlen) c) s.head s.len,
    window-store s.q c s.head s.len ((s.head + s.len) % qlen),
  )

  -- A pop does so too.
  pub pop_refines :
      (s : CmdQueue A)
      → IsValid s
      → IsValid (pop s).1 × (((pop s).0, waiting (pop s).1) ≡ spec_pop (waiting s))
  unfolding pop
  pop_refines s v = ground (
    arith,
    window_pos s.q s.head s.len,
    window_shift s.q (s.head + 1) ((s.head + 1) % qlen) (s.len - 1) (omega arith),
    head_mod,
  )
    where
      head_mod : s.head % qlen ≡ s.head
      head_mod = omega arith

-- The calls of all threads, in the order in which they take the lock.
pub data Call (A : Type 0) : Type 0 where
  push_call : A → Call A
  pop_call : Call A

pub data Reply (A : Type 0) : Type 0 where
  pushed : Bool → Reply A
  popped : Option A → Reply A

module _ {A : Type 0} where
  pub run : CmdQueue A → List (Call A) → List (Reply A)
  run s [] = []
  run s (push_call c ∷ cs) = let (ok, s') = push s c in pushed ok ∷ run s' cs
  run s (pop_call ∷ cs) = let (out, s') = pop s in popped out ∷ run s' cs

  unfoldable pub spec_run : List A → List (Call A) → List (Reply A)
  spec_run l [] = []
  spec_run l (push_call c ∷ cs) = let (ok, l') = spec_push l c in pushed ok ∷ spec_run l' cs
  spec_run l (pop_call ∷ cs) = let (out, l') = spec_pop l in popped out ∷ spec_run l' cs

  -- No sequence of pushes and pops, whoever makes them, tells a valid queue from the bounded queue
  -- of the commands that wait in it.
  pub run_refines :
      (cs : List (Call A)) (s : CmdQueue A) → IsValid s → run s cs ≡ spec_run (waiting s) cs
  unfolding run spec_run
  run_refines [] s v = refl
  run_refines (push_call c ∷ cs) s v =
      rw (run_refines cs (push s c).1 (push_refines s c v).0, ← (push_refines s c v).1)
  run_refines (pop_call ∷ cs) s v =
      rw (run_refines cs (pop s).1 (pop_refines s v).0, ← (pop_refines s v).1)

  pub init-IsValid : (s : CmdQueue A) → IsValid (init s) × (waiting (init s) ≡ [])
  unfolding init
  init-IsValid s = ground arith

  -- From `pf_cmdq_init` on, whatever the array holds, the queue answers every sequence of calls as
  -- an empty first-in first-out queue of at most 64 commands does.
  pub run-init : (s : CmdQueue A) (cs : List (Call A)) → run (init s) cs ≡ spec_run [] cs
  unfolding init
  run-init s cs = run_refines cs (init s) (init-IsValid s).0
