-- ===== src/Batch/SupportRuns.antt =====
-- What holds in every run of the tasks that share `OverrideSupport` of
-- crates/freeze/src/types/state_override.rs.
use triodion.Prelude.{
  ℕ, zero, suc, ◌+◌, ◌≤◌, ◌≡◌, refl, Bool, true, false, List, [], ◌∷◌, ◌++◌, All, All-append,
  All-split, arith,
}
use triodion.Batch.Support.{
  OverrideSupport, unknown, ruled_out, worth_attempting, reset_failures, exchange_unknown, rule_out,
  add_failure, held, Pc, reload_verdict, recheck, next, sending, resetting, exchanging, ruling,
  adding, storing, Move, begin, skip, settled, wait, acquire, keep_permit, return_permit, enter,
  give_up, send, stop, finish, answer_values, answer_unavailable, answer_failure, reset, exchange,
  rule, add_few, add_last, store, System, Step, task_moves, Steps, stay, step, starts, initial,
}

-- whether the task holds the permit, as a number
abbrev pub permit : Pc → ℕ
permit reload_verdict = 1
permit (recheck gate) = held gate
permit (next gate) = held gate
permit (sending gate) = held gate
permit _ = 0

abbrev pub in_flight : Pc → ℕ
in_flight (sending gate) = 1
in_flight _ = 0

-- A sum over the tasks.
abbrev pub total : (Pc → ℕ) → List Pc → ℕ
total f [] = 0
total f (pc ∷ pcs) = f pc + total f pcs

-- the requests that are in flight
unfoldable pub requests : System → ℕ
requests s = total in_flight s.tasks

pub total-append : (f : Pc → ℕ) (xs ys : List Pc) → total f (xs ++ ys) ≡ total f xs + total f ys
total-append f [] ys = omega arith
total-append f (x ∷ xs) ys = omega (arith, total-append f xs ys)

-- A step keeps the number of permits.
Move-permits :
    {s t : OverrideSupport} {a b : Bool} {pc qc : Pc}
    → Move s a pc t b qc
    → t.permits + permit qc ≡ s.permits + permit pc
unfolding reset_failures exchange_unknown rule_out add_failure
Move-permits (begin h) = refl
Move-permits (skip h) = refl
Move-permits (settled h) = refl
Move-permits (wait h) = refl
Move-permits (acquire n h) = omega arith
Move-permits (keep_permit h) = refl
Move-permits (return_permit h) = omega arith
Move-permits (enter gate h) = refl
Move-permits (give_up gate h) = omega arith
Move-permits (send gate h) = refl
Move-permits (stop gate h) = omega arith
Move-permits finish = refl
Move-permits (answer_values gate) = omega arith
Move-permits (answer_unavailable gate) = omega arith
Move-permits (answer_failure gate) = omega arith
Move-permits reset = refl
Move-permits exchange = refl
Move-permits rule = refl
Move-permits (add_few h) = refl
Move-permits (add_last h) = refl
Move-permits store = refl

-- Where a task can be before any request was answered.
abbrev pub Early : Pc → Type 0
Early (recheck gate) = gate ≡ true
Early (next gate) = gate ≡ true
Early (sending gate) = gate ≡ true
Early resetting = ⊥
Early exchanging = ⊥
Early ruling = ⊥
Early adding = ⊥
Early storing = ⊥
Early _ = Unit

-- the facts that hold in every state of a run
abbrev pub Invariant : System → Type 0
Invariant s =
    (s.support.permits + total permit s.tasks ≡ 1)
    × (s.support.state ≤ ruled_out)
    × (s.answered ≡ false → (s.support.state ≡ unknown) × All Early s.tasks)

-- Before the first answer a step leaves the verdict unknown.
Move-Early :
    {s t : OverrideSupport} {a b : Bool} {pc qc : Pc}
    → Move s a pc t b qc
    → b ≡ false
    → (a ≡ false) × ((s.state ≡ unknown) → Early pc → (t.state ≡ unknown) × Early qc)
unfolding worth_attempting
Move-Early (begin h) e = (e, λ k l. (k, tt))
Move-Early (skip h) e = (e, λ k l. (k, tt))
Move-Early (settled h) e = (e, λ k l. absurd (ground arith))
Move-Early (wait h) e = (e, λ k l. (k, tt))
Move-Early (acquire n h) e = (e, λ k l. (k, tt))
Move-Early (keep_permit h) e = (e, λ k l. (k, refl))
Move-Early (return_permit h) e = (e, λ k l. absurd (ground arith))
Move-Early (enter gate h) e = (e, λ k l. (k, l))
Move-Early (give_up gate h) e = (e, λ k l. (k, tt))
Move-Early (send gate h) e = (e, λ k l. (k, l))
Move-Early (stop gate h) e = (e, λ k l. (k, tt))
Move-Early finish e = (e, λ k l. (k, tt))
Move-Early (answer_values gate) e = absurd cc
Move-Early (answer_unavailable gate) e = absurd cc
Move-Early (answer_failure gate) e = absurd cc
Move-Early reset e = (e, λ k l. elim l [ ])
Move-Early exchange e = (e, λ k l. elim l [ ])
Move-Early rule e = (e, λ k l. elim l [ ])
Move-Early (add_few h) e = (e, λ k l. elim l [ ])
Move-Early (add_last h) e = (e, λ k l. elim l [ ])
Move-Early store e = (e, λ k l. elim l [ ])

-- A step never takes the verdict back, and none of a ruled out endpoint starts a request.
abbrev pub Onward : OverrideSupport → Pc → OverrideSupport → Pc → Type 0
Onward s pc t qc =
    (s.state ≤ t.state)
    × (t.state ≤ ruled_out)
    × (s.state ≡ ruled_out → in_flight qc ≤ in_flight pc)

pub Move-Onward :
    {s t : OverrideSupport} {a b : Bool} {pc qc : Pc}
    → s.state ≤ ruled_out
    → Move s a pc t b qc
    → Onward s pc t qc
unfolding worth_attempting reset_failures exchange_unknown rule_out add_failure
Move-Onward k (begin h) = (omega arith, k, λ e. omega arith)
Move-Onward k (skip h) = (omega arith, k, λ e. omega arith)
Move-Onward k (settled h) = (omega arith, k, λ e. omega arith)
Move-Onward k (wait h) = (omega arith, k, λ e. omega arith)
Move-Onward k (acquire n h) = (omega arith, k, λ e. omega arith)
Move-Onward k (keep_permit h) = (omega arith, k, λ e. omega arith)
Move-Onward k (return_permit h) = (omega arith, k, λ e. omega arith)
Move-Onward k (enter gate h) = (omega arith, k, λ e. omega arith)
Move-Onward k (give_up gate h) = (omega arith, k, λ e. omega arith)
Move-Onward k (send gate h) = (omega arith, k, λ e. absurd (ground arith))
Move-Onward k (stop gate h) = (omega arith, k, λ e. omega arith)
Move-Onward k finish = (omega arith, k, λ e. omega arith)
Move-Onward k (answer_values gate) = (omega arith, k, λ e. omega arith)
Move-Onward k (answer_unavailable gate) = (omega arith, k, λ e. omega arith)
Move-Onward k (answer_failure gate) = (omega arith, k, λ e. omega arith)
Move-Onward k reset = (omega arith, k, λ e. omega arith)
Move-Onward k exchange = (ground arith, ground arith, λ e. omega arith)
Move-Onward k rule = (k, omega arith, λ e. omega arith)
Move-Onward k (add_few h) = (omega arith, k, λ e. omega arith)
Move-Onward k (add_last h) = (omega arith, k, λ e. omega arith)
Move-Onward k store = (k, omega arith, λ e. omega arith)

Step-Invariant : {s t : System} → Step s t → Invariant s → Invariant t
Step-Invariant (task_moves {pc = pc} {qc = qc} before after move) (kept, known, fresh) =
    let (up, top, none_new) = Move-Onward known move in
    (
      omega (
        arith,
        kept,
        Move-permits move,
        total-append permit before (pc ∷ after),
        total-append permit before (qc ∷ after),
      ),
      top,
      λ e.
          let (e', early) = Move-Early move e in
          let (k, all) = fresh e' in
          let (front, (mine, back)) = All-split Early before (pc ∷ after) all in
          let (l, moved) = early k mine in
          (l, All-append Early before (qc ∷ after) front (moved, back)),
    )

starts-permits : (n : ℕ) → total permit (starts n) ≡ 0
starts-permits zero = refl
starts-permits (suc n) = omega (arith, starts-permits n)

starts-Early : (n : ℕ) → All Early (starts n)
starts-Early zero = tt
starts-Early (suc n) = (tt, starts-Early n)

pub initial-Invariant : (n : ℕ) → Invariant (initial n)
initial-Invariant n = (omega (arith, starts-permits n), omega arith, λ e. (refl, starts-Early n))

pub Steps-Invariant : {s t : System} → Steps s t → Invariant s → Invariant t
Steps-Invariant stay h = h
Steps-Invariant (step run last) h = Step-Invariant last (Steps-Invariant run h)
