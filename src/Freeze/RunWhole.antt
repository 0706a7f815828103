-- ===== src/Freeze/RunWhole.antt =====
-- The output files are whole at every moment of a run of `freeze_partitions`.
use mathlib.Core.Path.{subst}
use triodion.Prelude.{
  ==_iff, ℕ, String, Bool, true, false, ◌==◌, some, List, [], ◌∷◌, ◌≡◌, refl, sym, ◌∙◌, ◌⊎◌, inl,
  inr, In, Bool-cases, when_true, when_false, arith,
}
use triodion.Prelude.Text.{eq_refl}
use triodion.Prelude.Chars.{split, starts_with_char}
use triodion.Freeze.Files.{components, same_path, same_texts, same_bool}
use triodion.Freeze.Tasks.{tmp_path}
use triodion.Freeze.Run.{
  whole, Disk, Task, waiting, created, saved, Act, create, save, publish, stop, Writers, Turn,
  task_moves, Turns, stay, step,
}

same_texts_self : (ss : List String) → same_texts ss ss ≡ true
same_texts_self [] = refl
same_texts_self (s ∷ ss) = ground (arith, eq_refl s, same_texts_self ss)

same_bool_self : (b : Bool) → same_bool b b ≡ true
same_bool_self true = refl
same_bool_self false = refl

same_path_self : (p : String) → same_path p p ≡ true
unfolding same_path
same_path_self p =
    let a = same_bool_self (starts_with_char b'/' p) in
    let b = same_texts_self (components (split b'/' p)) in rw (a, b) refl

module _ {F : Type 0} where
  -- What a task has still to write.
  abbrev pub writes_of : Task F → List (String × F)
  writes_of (waiting todo) = todo
  writes_of (created path df todo) = (path, df) ∷ todo
  writes_of (saved path df todo) = (path, df) ∷ todo

  -- A task that filled its temporary file finds the data frame there.
  abbrev Ready : Disk F → Task F → Type 0
  Ready disk (waiting todo) = Unit
  Ready disk (created path df todo) = Unit
  Ready disk (saved path df todo) = disk (tmp_path path) ≡ some (whole df)

  In-Act :
      {disk changed : Disk F} {task next : Task F}
      → Act disk task changed next
      → (w : String × F) → In w (writes_of next)
      → In w (writes_of task)
  In-Act (create e) w here = here
  In-Act save w here = here
  In-Act publish w here = inr here
  In-Act stop w here = absurd here

  Act-Ready :
      {disk changed : Disk F} {task next : Task F} → Act disk task changed next → Ready changed next
  Act-Ready (create e) = tt
  Act-Ready (save {disk} {path} {df} {todo}) = when_true _ _ (same_path_self (tmp_path path))
  Act-Ready publish = tt
  Act-Ready stop = tt

  -- A task leaves the files alone that it has not to write.
  Act-elsewhere :
      {disk changed : Disk F} {task next : Task F}
      → Act disk task changed next
      → (q : String)
      → ((w : String × F)
          → In w (writes_of task)
          → (same_path q (tmp_path w.0) ≡ false) × (same_path q w.0 ≡ false))
      → changed q ≡ disk q
  Act-elsewhere (create {disk} {path} {df} {todo} e) q apart =
      when_false _ _ (apart (path, df) (inl refl)).0
  Act-elsewhere (save {disk} {path} {df} {todo}) q apart =
      when_false _ _ (apart (path, df) (inl refl)).0
  Act-elsewhere (publish {disk} {path} {df} {todo}) q apart =
      let (a, b) = apart (path, df) (inl refl) in when_false _ _ b ∙ when_false _ _ a
  Act-elsewhere stop q apart = refl

  -- The move of a task to a file that is not temporary is to put the whole data frame there.
  Act-whole :
      {disk changed : Disk F} {task next : Task F}
      → Act disk task changed next
      → Ready disk task
      → (q : String)
      → ((w : String × F) → In w (writes_of task) → same_path q (tmp_path w.0) ≡ false)
      → (changed q ≡ disk q)
        ⊎ ((w : String × F) × In w (writes_of task)
            × (same_path q w.0 ≡ true)
            × (changed q ≡ some (whole w.1)))
  Act-whole (create {disk} {path} {df} {todo} e) ready q apart =
      inl (when_false _ _ (apart (path, df) (inl refl)))
  Act-whole (save {disk} {path} {df} {todo}) ready q apart =
      inl (when_false _ _ (apart (path, df) (inl refl)))
  Act-whole (publish {disk} {path} {df} {todo}) ready q apart =
      elim (Bool-cases (same_path q path)) [
        | inl same ↦ inr ((path, df), inl refl, same, when_true _ _ same ∙ ready)
        | inr other ↦ inl (when_false _ _ other ∙ when_false _ _ (apart (path, df) (inl refl)))
      ]
  Act-whole stop ready q apart = inl refl

-- The temporary files of two tasks are different, and no file is the temporary file of another.
abbrev pub OwnFiles : {F : Type 0} → (ℕ → List (String × F)) → Type 0
OwnFiles {F} plan =
    (i j : ℕ) (w v : String × F)
    → In w (plan i)
    → In v (plan j)
    → (((j == i) ≡ true) ⊎ (same_path (tmp_path v.0) (tmp_path w.0) ≡ false))
      × (same_path (tmp_path v.0) w.0 ≡ false)

abbrev pub starts : {F : Type 0} → (ℕ → List (String × F)) → Disk F → Writers F
starts plan initial = record { disk = initial; tasks = λ i. waiting (plan i) }

module _ {F : Type 0} (plan : ℕ → List (String × F)) (initial : Disk F) where
  -- The file is as it was before the run, or holds the whole of a data frame that is written to it.
  abbrev pub Whole : Disk F → String → Type 0
  Whole disk q =
      (disk q ≡ initial q)
      ⊎ ((i : ℕ) × (w : String × F) × In w (plan i)
          × (same_path q w.0 ≡ true)
          × (disk q ≡ some (whole w.1)))

  abbrev pub Lasting : String → Type 0
  Lasting q = (i : ℕ) (w : String × F) → In w (plan i) → same_path q (tmp_path w.0) ≡ false

  abbrev Invariant : Writers F → Type 0
  Invariant s =
      ((i : ℕ) (w : String × F) → In w (writes_of (s.tasks i)) → In w (plan i))
      × ((i : ℕ) → Ready s.disk (s.tasks i))
      × ((q : String) → Lasting q → Whole s.disk q)

  Ready-elsewhere :
      (disk changed : Disk F) (task : Task F)
      → ((w : String × F) → In w (writes_of task) → changed (tmp_path w.0) ≡ disk (tmp_path w.0))
      → Ready disk task
      → Ready changed task
  Ready-elsewhere disk changed (waiting todo) same ready = tt
  Ready-elsewhere disk changed (created path df todo) same ready = tt
  Ready-elsewhere disk changed (saved path df todo) same ready = same (path, df) (inl refl) ∙ ready

  Turn-Invariant : OwnFiles plan → {s t : Writers F} → Turn s t → Invariant s → Invariant t
  Turn-Invariant own (task_moves {disk} {changed} {tasks} {next} i move) (planned, ready, kept) = (
    λ j w here. elim (Bool-cases (j == i)) [
      | inl e ↦
          subst (λ k. In w (plan k)) (sym ((==_iff j i).0 e))
            (planned i w
              (In-Act move w (subst (λ t. In w (writes_of t)) (when_true next (tasks j) e) here)))
      | inr ne ↦ planned j w (subst (λ t. In w (writes_of t)) (when_false next (tasks j) ne) here)
    ],
    λ j. elim (Bool-cases (j == i)) [
      | inl e ↦ subst (Ready changed) (sym (when_true next (tasks j) e)) (Act-Ready move)
      | inr ne ↦ subst (Ready changed) (sym (when_false next (tasks j) ne)) (
          Ready-elsewhere disk changed (tasks j)
            (λ w here. Act-elsewhere move (tmp_path w.0) (λ v there.
              let (a, b) = own i j v w (planned i v there) (planned j w here) in
              (elim a [ inl same ↦ absurd (ground (arith, same, ne)) | inr other ↦ other ], b)))
            (ready j))
    ],
    λ q lasting. elim (Act-whole move (ready i) q (λ w here. lasting i w (planned i w here))) [
      | inl unchanged ↦ elim (kept q lasting) [
        | inl e ↦ inl (unchanged ∙ e)
        | inr (j, w, here, same, e) ↦ inr (j, w, here, same, unchanged ∙ e)
      ]
      | inr (w, here, same, e) ↦ inr (i, w, planned i w here, same, e)
    ],
  )

  Turns-Invariant : OwnFiles plan → {s t : Writers F} → Turns s t → Invariant s → Invariant t
  Turns-Invariant own stay before = before
  Turns-Invariant own (step steps move) before =
      Turn-Invariant own move (Turns-Invariant own steps before)

  -- Where no two tasks have a temporary file in common, and no temporary file is an output of the run,
  -- in whatever order the tasks take turns and wherever they fail: at every moment each file that is
  -- not temporary is as it was before the run, or holds the whole of a data frame written to it.
  pub Turns-Whole :
      OwnFiles plan
      → (s : Writers F) → Turns (starts plan initial) s
      → (q : String) → Lasting q
      → Whole s.disk q
  Turns-Whole own s steps =
      (Turns-Invariant own steps (λ i w here. here, λ i. tt, λ q lasting. inl refl)).2
