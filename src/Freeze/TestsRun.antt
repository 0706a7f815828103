-- ===== src/Freeze/TestsRun.antt =====
-- A test of two tasks of a freeze that write in turns.
use triodion.Prelude.{ℕ, zero, suc, String, none, List, [], ◌∷◌, ◌≡◌, refl, ◌⊎◌, inl, inr, In}
use triodion.Freeze.Files.{same_path}
use triodion.Freeze.Tasks.{extension, with_extension, tmp_path}
use triodion.Freeze.Run.{
  partial, whole, Disk, put, rename, waiting, created, saved, update, Writers, Turns, stay, step,
  task_moves, create, save, publish,
}
use triodion.Freeze.RunWhole.{OwnFiles, starts, Whole, Lasting, Turns-Whole}

abbrev first : String × ℕ
first = ("a.parquet", 5)

abbrev second : String × ℕ
second = ("b.parquet", 6)

abbrev plan : ℕ → List (String × ℕ)
plan zero = ("a.parquet", 5) ∷ []
plan (suc zero) = ("b.parquet", 6) ∷ []
plan (suc (suc i)) = []

abbrev empty_disk : Disk ℕ
empty_disk path = none

planned_write :
    (i : ℕ) (w : String × ℕ) → In w (plan i) → ((i ≡ 0) × (w ≡ first)) ⊎ ((i ≡ 1) × (w ≡ second))
planned_write zero w (inl e) = inl (refl, e)
planned_write zero w (inr h) = elim h [ ]
planned_write (suc zero) w (inl e) = inr (refl, e)
planned_write (suc zero) w (inr h) = elim h [ ]
planned_write (suc (suc i)) w h = elim h [ ]

plan-OwnFiles : OwnFiles plan
unfolding same_path with_extension
plan-OwnFiles i j w v a b = elim (planned_write i w a) [
  | inl (ei, ew) ↦ elim (planned_write j v b) [
    | inl (ej, ev) ↦ (inl (rw (ei, ej) refl), rw (ew, ev) refl)
    | inr (ej, ev) ↦ (inr (rw (ew, ev) refl), rw (ew, ev) refl)
  ]
  | inr (ei, ew) ↦ elim (planned_write j v b) [
    | inl (ej, ev) ↦ (inr (rw (ew, ev) refl), rw (ew, ev) refl)
    | inr (ej, ev) ↦ (inl (rw (ei, ej) refl), rw (ew, ev) refl)
  ]
]

first-Lasting : Lasting plan empty_disk "a.parquet"
unfolding same_path with_extension
first-Lasting i w h = elim (planned_write i w h) [
  | inl (e, ew) ↦ rw (ew) refl
  | inr (e, ew) ↦ rw (ew) refl
]

abbrev after : Writers ℕ
after = record {
  disk = rename (tmp_path "a.parquet") "a.parquet" (
      put (tmp_path "a.parquet") (whole 5) (
        put (tmp_path "b.parquet") (partial 6)
          (put (tmp_path "a.parquet") (partial 5) empty_disk)));
  tasks = update 0 (waiting []) (
      update 0 (saved "a.parquet" 5 []) (
        update 1 (created "b.parquet" 6 [])
          (update 0 (created "a.parquet" 5 []) (λ i. waiting (plan i)))));
}

first_published : Turns (starts plan empty_disk) after
unfolding extension
first_published =
    step
      (step (step (step stay (task_moves 0 (create refl))) (task_moves 1 (create refl)))
        (task_moves 0 save))
      (task_moves 0 publish)

Turns-Whole_example : Whole plan empty_disk after.disk "a.parquet"
Turns-Whole_example =
    Turns-Whole plan empty_disk plan-OwnFiles after first_published "a.parquet" first-Lasting
