-- ===== src/Batch/SupportProgress.antt =====
-- No run of the tasks of crates/freeze/src/types/state_override.rs is stuck on the permit.
use mathlib.Core.Path.{subst}
use triodion.Prelude.{
  ℕ, ◌≡◌, refl, sym, ap, ◌∙◌, Bool, List, [], ◌∷◌, ◌++◌, All, ◌==◌, Bool-cases, ◌⊎◌, inl, inr,
  arith,
}
use triodion.Batch.Support.{
  OverrideSupport, unknown, worth_attempting, at_limit, with_permits, Pc, start, load_verdict,
  acquiring, reload_verdict, recheck, next, sending, resetting, exchanging, ruling, adding, storing,
  done, Move, begin, skip, settled, wait, acquire, keep_permit, return_permit, enter, give_up, send,
  stop, answer_values, reset, exchange, rule, add_few, add_last, store, System, Step, task_moves,
  Steps, initial,
}
use triodion.Batch.SupportRuns.{permit, total, initial-Invariant, Steps-Invariant}

-- the next step of a task
Ready : OverrideSupport → Bool → Pc → Type 0
Ready s a pc = (t : OverrideSupport) × (b : Bool) × (qc : Pc) × Move s a pc t b qc

-- A task that is done or waits for the permit.
abbrev Idle : Pc → Type 0
Idle pc = (pc ≡ done) ⊎ (pc ≡ acquiring)

-- Every other task has a next step.
ready : (s : OverrideSupport) (a : Bool) (pc : Pc) → Ready s a pc ⊎ Idle pc
unfolding Ready
ready s a start = elim (Bool-cases (worth_attempting s)) [
  | inl worth ↦ inl (_, _, _, begin worth)
  | inr over ↦ inl (_, _, _, skip over)
]
ready s a load_verdict = elim (Bool-cases (s.state == unknown)) [
  | inl unsettled ↦ inl (_, _, _, wait unsettled)
  | inr known ↦ inl (_, _, _, settled known)
]
ready s a acquiring = inr (inr refl)
ready s a reload_verdict = elim (Bool-cases (s.state == unknown)) [
  | inl unsettled ↦ inl (_, _, _, keep_permit unsettled)
  | inr known ↦ inl (_, _, _, return_permit known)
]
ready s a (recheck gate) = elim (Bool-cases (worth_attempting s)) [
  | inl worth ↦ inl (_, _, _, enter gate worth)
  | inr over ↦ inl (_, _, _, give_up gate over)
]
ready s a (next gate) = elim (Bool-cases (worth_attempting s)) [
  | inl worth ↦ inl (_, _, _, send gate worth)
  | inr over ↦ inl (_, _, _, stop gate over)
]
ready s a (sending gate) = inl (_, _, _, answer_values gate)
ready s a resetting = inl (_, _, _, reset)
ready s a exchanging = inl (_, _, _, exchange)
ready s a ruling = inl (_, _, _, rule)
ready s a adding = elim (Bool-cases (at_limit s)) [
  | inl last ↦ inl (_, _, _, add_last last)
  | inr few ↦ inl (_, _, _, add_few few)
]
ready s a storing = inl (_, _, _, store)
ready s a done = inr (inl refl)

-- a task among others
Among : (Pc → Type 0) → List Pc → Type 0
Among Q tasks =
    (before : List Pc) × (pc : Pc) × (after : List Pc) × (tasks ≡ before ++ (pc ∷ after)) × Q pc

-- One of the tasks has the first property, or all have the second.
found_or_every :
    (Q R : Pc → Type 0)
    → ((pc : Pc) → Q pc ⊎ R pc)
    → (tasks : List Pc) → Among Q tasks ⊎ All R tasks
unfolding Among
found_or_every Q R which [] = inr tt
found_or_every Q R which (pc ∷ tasks) = elim (which pc) [
  | inl q ↦ inl ([], pc, tasks, refl, q)
  | inr r ↦ elim (found_or_every Q R which tasks) [
    | inl (before, qc, after, e, q) ↦ inl (pc ∷ before, qc, after, ap (◌∷◌ pc) e, q)
    | inr all ↦ inr (r, all)
  ]
]

Idle-permits : (tasks : List Pc) → All Idle tasks → total permit tasks ≡ 0
Idle-permits [] h = refl
Idle-permits (pc ∷ tasks) (inl e, h) = rw (e) (omega (arith, Idle-permits tasks h))
Idle-permits (pc ∷ tasks) (inr e, h) = rw (e) (omega (arith, Idle-permits tasks h))

waits_or_done :
    (tasks : List Pc)
    → All Idle tasks
    → Among (λ pc. pc ≡ acquiring) tasks ⊎ All (λ pc. pc ≡ done) tasks
unfolding Among
waits_or_done [] h = inr tt
waits_or_done (pc ∷ tasks) (inr e, h) = inl ([], pc, tasks, refl, e)
waits_or_done (pc ∷ tasks) (inl e, h) = elim (waits_or_done tasks h) [
  | inl (before, qc, after, split, k) ↦ inl (pc ∷ before, qc, after, ap (◌∷◌ pc) split, k)
  | inr all ↦ inr (e, all)
]

-- In every reachable state all tasks are done, or one of them can take a step: no order of steps leaves
-- the tasks waiting for a permit that does not come back.
pub run_goes_on :
    (n : ℕ) {s : System}
    → Steps (initial n) s
    → All (λ pc. pc ≡ done) s.tasks ⊎ ((t : System) × Step s t)
unfolding Among Ready
run_goes_on n {s} run =
    let (kept, known, fresh) = Steps-Invariant run (initial-Invariant n) in
    elim (found_or_every (Ready s.support s.answered) Idle (ready s.support s.answered) s.tasks) [
      | inl (before, pc, after, e, (t, b, qc, move)) ↦ inr (
        record { support = t; tasks = before ++ (qc ∷ after); answered = b },
        subst
            (λ tasks.
              Step (record { support = s.support; tasks = tasks; answered = s.answered })
                (record { support = t; tasks = before ++ (qc ∷ after); answered = b }))
            (sym e) (task_moves before after move),
      )
      | inr idle ↦ elim (waits_or_done s.tasks idle) [
        | inr all ↦ inl all
        | inl (before, pc, after, e, waiting) ↦
            let free : s.support.permits ≡ 1 = omega (arith, kept, Idle-permits s.tasks idle) in
            let split : s.tasks ≡ before ++ (acquiring ∷ after) =
              e ∙ ap (λ qc. before ++ (qc ∷ after)) waiting in
            inr (
              record {
                support = with_permits s.support 0;
                tasks = before ++ (reload_verdict ∷ after);
                answered = s.answered;
              },
              subst
                  (λ tasks.
                    Step (record { support = s.support; tasks = tasks; answered = s.answered })
                      (record {
                        support = with_permits s.support 0;
                        tasks = before ++ (reload_verdict ∷ after);
                        answered = s.answered;
                      }))
                  (sym split) (task_moves before after (acquire 0 free)),
            )
      ]
    ]
