-- ===== src/Batch/SupportRules.antt =====
-- The rules that every run of the tasks of crates/freeze/src/types/state_override.rs keeps.
use triodion.Prelude.{ℕ, ◌≤◌, ◌≡◌, false, List, [], ◌∷◌, All, arith}
use triodion.Batch.Support.{
  ruled_out, Pc, start, load_verdict, acquiring, reload_verdict, recheck, next, sending, resetting,
  exchanging, ruling, adding, storing, done, System, Step, task_moves, Steps, stay, step, initial,
}
use triodion.Batch.SupportRuns.{
  permit, in_flight, total, requests, Early, total-append, Move-Onward, initial-Invariant,
  Steps-Invariant,
}

Early-requests : (tasks : List Pc) → All Early tasks → total in_flight tasks ≤ total permit tasks
Early-requests [] h = omega arith
Early-requests (start ∷ tasks) (e, h) = omega (arith, Early-requests tasks h)
Early-requests (load_verdict ∷ tasks) (e, h) = omega (arith, Early-requests tasks h)
Early-requests (acquiring ∷ tasks) (e, h) = omega (arith, Early-requests tasks h)
Early-requests (reload_verdict ∷ tasks) (e, h) = omega (arith, Early-requests tasks h)
Early-requests (recheck gate ∷ tasks) (e, h) = omega (arith, Early-requests tasks h)
Early-requests (next gate ∷ tasks) (e, h) = omega (arith, Early-requests tasks h)
Early-requests (sending gate ∷ tasks) (e, h) = rw (e) (omega (arith, Early-requests tasks h))
Early-requests (resetting ∷ tasks) (e, h) = elim e [ ]
Early-requests (exchanging ∷ tasks) (e, h) = elim e [ ]
Early-requests (ruling ∷ tasks) (e, h) = elim e [ ]
Early-requests (adding ∷ tasks) (e, h) = elim e [ ]
Early-requests (storing ∷ tasks) (e, h) = elim e [ ]
Early-requests (done ∷ tasks) (e, h) = omega (arith, Early-requests tasks h)

-- However many tasks run and however their steps interleave, at most one request with an override is in
-- flight as long as none was answered.
pub requests_before_answer :
    (n : ℕ) {s : System} → Steps (initial n) s → s.answered ≡ false → requests s ≤ 1
unfolding requests
requests_before_answer n {s} run e =
    let (kept, known, fresh) = Steps-Invariant run (initial-Invariant n) in
    omega (arith, kept, Early-requests s.tasks (fresh e).1)

Step-Onward :
    {s t : System}
    → Step s t
    → s.support.state ≤ ruled_out
    → (s.support.state ≤ t.support.state)
      × (t.support.state ≤ ruled_out)
      × (s.support.state ≡ ruled_out → requests t ≤ requests s)
unfolding requests
Step-Onward (task_moves {pc = pc} {qc = qc} before after move) known =
    let (up, top, none_new) = Move-Onward known move in
    (
      up,
      top,
      λ e. omega (
        arith,
        none_new e,
        total-append in_flight before (pc ∷ after),
        total-append in_flight before (qc ∷ after),
      ),
    )

Steps-Onward :
    {s t : System}
    → Steps s t
    → s.support.state ≤ ruled_out
    → (s.support.state ≤ t.support.state)
      × (t.support.state ≤ ruled_out)
      × (s.support.state ≡ ruled_out → requests t ≤ requests s)
Steps-Onward stay known = (omega arith, known, λ e. omega arith)
Steps-Onward (step run last) known =
    let (up, top, none_new) = Steps-Onward run known in
    let (up', top', none_new') = Step-Onward last top in
    (omega arith, top', λ e. omega (arith, none_new e, none_new' (omega arith)))

-- The verdict on an endpoint only moves from unknown to supported to ruled out, and once it is ruled out
-- no task starts a request: those in flight can only become fewer.
pub verdict_moves_onward :
    (n : ℕ) {s t : System}
    → Steps (initial n) s
    → Steps s t
    → (s.support.state ≤ t.support.state)
      × (s.support.state ≡ ruled_out → (t.support.state ≡ ruled_out) × (requests t ≤ requests s))
verdict_moves_onward n run more =
    let (kept, known, fresh) = Steps-Invariant run (initial-Invariant n) in
    let (up, top, none_new) = Steps-Onward more known in (up, λ e. (omega arith, none_new e))
