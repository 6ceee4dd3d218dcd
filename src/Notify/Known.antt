-- ===== src/Notify/Known.antt =====
-- src/core/notify.c, `pf_notify_sync`: the probes follow the sensors, and nothing known is lost.
use pifire_c.Common.{
  ℕ, zero, suc, ◌≡◌, refl, true, false, Bool, Option, none, some, List, [], ◌∷◌, map, arith, ap,
  ◌∙◌, Bool-cases, inl, inr, if◌then◌else◌,
}
use pifire_c.Common.Float.{Double}
use pifire_c.Text.{Bytes, same, same_sound}
use pifire_c.Notify.{
  Notify, NotifyProbe, Reading, Sensors, find, fresh, sync_probes, sync, max_probes,
}

pub has_label : Bytes → List Bytes → Bool
has_label label [] = false
has_label label (a ∷ l) = let rest = has_label label l in if same a label then true else rest

module _ {W : Type 0} where
  pub find-label :
      (label : Bytes) (l : List (NotifyProbe W)) (p : NotifyProbe W)
      → find label l ≡ some p
      → p.label ≡ label
  unfolding find
  find-label label [] p e = ground arith
  find-label label (q ∷ l) p e = ground (arith, find-label label l p, same_sound q.label label)

  find-here :
      (label : Bytes) (q : NotifyProbe W) (l : List (NotifyProbe W))
      → same q.label label ≡ true
      → find label (q ∷ l) ≡ some q
  unfolding find
  find-here label q l e = rw e refl

  find-further :
      (label : Bytes) (q : NotifyProbe W) (l : List (NotifyProbe W))
      → same q.label label ≡ false
      → find label (q ∷ l) ≡ find label l
  unfolding find
  find-further label q l e = rw e refl

  -- the labels of the first readings
  pub first_labels : ℕ → List (Reading W) → List Bytes
  first_labels zero l = []
  first_labels (suc n) [] = []
  first_labels (suc n) (r ∷ l) = r.label ∷ first_labels n l

module _ {W : Type 0} ⦃d : Double W⦄ where
  -- what is known under a label, or a first entry
  abbrev pub known : Bytes → Option (NotifyProbe W) → NotifyProbe W
  known label none = fresh label
  known label (some p) = p

  known-label :
      (label : Bytes) (old : List (NotifyProbe W)) (o : Option (NotifyProbe W))
      → find label old ≡ o
      → (known label o).label ≡ label
  known-label label old none e = refl
  known-label label old (some p) e = find-label label old p e

  labels-sync_probes :
      (room : ℕ) (old : List (NotifyProbe W)) (l : List (Reading W))
      → map (λ (p : NotifyProbe W). p.label) (sync_probes room old l) ≡ first_labels room l
  unfolding sync_probes first_labels
  labels-sync_probes zero old l = refl
  labels-sync_probes (suc room) old [] = refl
  labels-sync_probes (suc room) old (r ∷ l) =
      rw (known-label r.label old (find r.label old) refl, labels-sync_probes room old l) refl

  find-sync_probes :
      (room : ℕ) (old : List (NotifyProbe W)) (l : List (Reading W)) (label : Bytes)
      → has_label label (first_labels room l) ≡ true
      → find label (sync_probes room old l) ≡ some (known label (find label old))
  unfolding find sync_probes first_labels has_label
  find-sync_probes zero old l label h = ground arith
  find-sync_probes (suc room) old [] label h = ground arith
  find-sync_probes (suc room) old (r ∷ l) label h =
      let q = known r.label (find r.label old) in
      let el : q.label ≡ r.label = known-label r.label old (find r.label old) refl in
      elim (Bool-cases (same r.label label)) [
        | inl e ↦
            find-here label q (sync_probes room old l) (ap (λ b. same b label) el ∙ e)
            ∙ ap (λ b. some (known b (find b old))) (same_sound r.label label e)
        | inr e ↦
            find-further label q (sync_probes room old l) (ap (λ b. same b label) el ∙ e)
            ∙ find-sync_probes room old l label (ground arith)
      ]

  -- The probes are those of the first 16 sensors, in their order, and each one has all that was known
  -- under its label, its target, its limits and its samples, or is new.
  pub sync-Known :
      (n : Notify W) (s : Sensors W)
      → (map (λ (p : NotifyProbe W). p.label) (sync n s).probes ≡ first_labels max_probes s.p)
        × ((label : Bytes)
            → has_label label (first_labels max_probes s.p) ≡ true
            → find label (sync n s).probes ≡ some (known label (find label n.probes)))
  unfolding sync
  sync-Known n s =
      (labels-sync_probes max_probes n.probes s.p, find-sync_probes max_probes n.probes s.p)
