-- ===== src/Batch/TestsSupport.antt =====
-- Inputs at which the theorems on the shared verdict apply.
use triodion.Prelude.{◌≤◌, ◌≡◌, refl, true, false, [], ◌∷◌, ◌⊎◌, All}
use triodion.Batch.Support.{
  default_support, ruled_out, worth_attempting, rule_out, with_permits, start, acquiring, sending,
  done, begin, wait, acquire, keep_permit, enter, send, answer_unavailable, rule, System, Step,
  task_moves, Steps, stay, step, initial,
}
use triodion.Batch.SupportRuns.{requests}
use triodion.Batch.SupportRules.{requests_before_answer, verdict_moves_onward}
use triodion.Batch.SupportProgress.{run_goes_on}

-- The first of two tasks has its request in flight, while the second one waits.
abbrev waiting : System
waiting = record {
  support = with_permits default_support 0;
  tasks = sending true ∷ acquiring ∷ [];
  answered = false;
}

one_sends : Steps (initial 2) waiting
unfolding worth_attempting
one_sends =
    step
      (step
        (step
          (step
            (step
              (step
                (step (step stay (task_moves [] (start ∷ []) (begin refl)))
                  (task_moves [] (start ∷ []) (wait refl)))
                (task_moves [] (start ∷ []) (acquire 0 refl)))
              (task_moves [] (start ∷ []) (keep_permit refl)))
            (task_moves [] (start ∷ []) (enter true refl)))
          (task_moves [] (start ∷ []) (send true refl)))
        (task_moves (sending true ∷ []) [] (begin refl)))
      (task_moves (sending true ∷ []) [] (wait refl))

requests_before_answer_example : requests waiting ≤ 1
requests_before_answer_example = requests_before_answer 2 one_sends refl

-- The request is refused, and the endpoint is ruled out.
abbrev over : System
over = record {
  support = record { state = ruled_out; permits = 1; consecutive_failures = 0 };
  tasks = done ∷ acquiring ∷ [];
  answered = true;
}

one_rules_out : Steps waiting over
unfolding rule_out
one_rules_out =
    step (step stay (task_moves [] (acquiring ∷ []) (answer_unavailable true)))
      (task_moves [] (acquiring ∷ []) rule)

verdict_moves_onward_example :
    (waiting.support.state ≤ over.support.state)
    × (waiting.support.state ≡ ruled_out
        → (over.support.state ≡ ruled_out) × (requests over ≤ requests waiting))
verdict_moves_onward_example = verdict_moves_onward 2 one_sends one_rules_out

run_goes_on_example : All (λ pc. pc ≡ done) waiting.tasks ⊎ ((t : System) × Step waiting t)
run_goes_on_example = run_goes_on 2 one_sends
