-- ===== src/Prelude/Outcome.antt =====
-- How a call ends: with a value, with an error value, by a panic, or never.
use mathlib.Core.Path.{◌≡◌, refl, ap}
use mathlib.Core.Bool.{Bool, true, false}
use triodion.Prelude.Tests.{if◌then◌else◌}
use mathlib.Core.Logic.{◌⊎◌, inl, inr}
use mathlib.Core.Option.{Option, none, some}
use mathlib.Core.List.{List, [], ◌∷◌, ◌++◌}

-- `diverge` is a loop that is still running after as many rounds as its state has values.
pub data Outcome (E A : Type 0) : Type 0 where
  ok : A → Outcome E A
  err : E → Outcome E A
  panic : Outcome E A
  diverge : Outcome E A

-- The operator `?` of the source.
infixl 5 ◌>>=◌ ◌>>◌
abbrev pub ◌>>=◌ : {E A B : Type 0} → Outcome E A → (A → Outcome E B) → Outcome E B
ok a >>= f = f a
err e >>= f = err e
panic >>= f = panic
diverge >>= f = diverge

abbrev pub ◌>>◌ : {E A B : Type 0} → Outcome E A → Outcome E B → Outcome E B
m >> k = m >>= λ _. k

-- `ok_or`
abbrev pub ok_or : {E A : Type 0} → Option A → E → Outcome E A
ok_or none e = err e
ok_or (some a) e = ok a

-- `map_err`
abbrev pub map_err : {E F A : Type 0} → (E → F) → Outcome E A → Outcome F A
map_err f (ok a) = ok a
map_err f (err e) = err (f e)
map_err f panic = panic
map_err f diverge = diverge

-- A loop that calls a fallible body on each item and stops at the first failure; also
-- `collect::<Result<Vec<_>, _>>()`.
unfoldable pub try_map : {E A B : Type 0} → (A → Outcome E B) → List A → Outcome E (List B)
try_map f [] = ok []
try_map f (x ∷ xs) = let rest = try_map f xs in do y ← f x; ys ← rest; ok (y ∷ ys)

-- A map whose body never fails is a plain map.
pub try_map-ok :
    {E A B : Type 0} (f : A → Outcome E B) (g : A → B)
    → ((a : A) → f a ≡ ok (g a))
    → (xs : List A) → try_map f xs ≡ ok (mathlib.Core.List.map g xs)
unfolding try_map
try_map-ok f g h [] = refl
try_map-ok f g h (x ∷ xs) = rw (h x, try_map-ok f g h xs)

pub ok_inj : {E A : Type 0} {x y : A} → ◌≡◌ {A = Outcome E A} (ok x) (ok y) → x ≡ y
ok_inj e = cc

pub err_is_not_ok : {E A : Type 0} {e : E} {a : A} → ◌≡◌ {A = Outcome E A} (err e) (ok a) → ⊥
err_is_not_ok h = cc

-- A first step that succeeds is done.
pub after_ok :
    {E A B : Type 0} {m : Outcome E A} {a : A} (f : A → Outcome E B) {r : Outcome E B}
    → m ≡ ok a
    → f a ≡ r
    → (m >>= f) ≡ r
after_ok f e h = rw (e, h) refl

-- The operator `?` where only an error value can stop the code.
abbrev pub and_then : {E A B : Type 0} → E ⊎ A → (A → E ⊎ B) → E ⊎ B
and_then (inl e) f = inl e
and_then (inr a) f = f a

pub and_then-inr :
    {E A B : Type 0} (m : E ⊎ A) (f : A → E ⊎ B) (b : B)
    → and_then m f ≡ inr b
    → (a : A) × (m ≡ inr a) × (f a ≡ inr b)
and_then-inr (inl e) f b h = cc
and_then-inr (inr a) f b h = (a, refl, h)

pub inr_inj : {E A : Type 0} {x y : A} → ◌≡◌ {A = E ⊎ A} (inr x) (inr y) → x ≡ y
inr_inj e = cc

-- `map_err` where only an error value can stop the code
abbrev pub map_inl : {E F A : Type 0} → (E → F) → E ⊎ A → F ⊎ A
map_inl f (inl e) = inl (f e)
map_inl f (inr a) = inr a

pub map_inl-inr : {E F A : Type 0} (f : E → F) (m : E ⊎ A) (a : A) → map_inl f m ≡ inr a → m ≡ inr a
map_inl-inr f (inl e) a h = cc
map_inl-inr f (inr b) a h = cc

pub checked-inr :
    {E A : Type 0} (b : Bool) (m : E ⊎ A) (e : E) (a : A)
    → (if b then m else inl e) ≡ inr a
    → m ≡ inr a
checked-inr true m e a h = h
checked-inr false m e a h = cc

-- what a chain that succeeds went through
pub bind-ok :
    {E A B : Type 0} (m : Outcome E A) (f : A → Outcome E B) (b : B)
    → (m >>= f) ≡ ok b
    → (a : A) × (m ≡ ok a) × (f a ≡ ok b)
bind-ok (ok a) f b h = (a, refl, h)
bind-ok (err e) f b h = cc
bind-ok panic f b h = cc
bind-ok diverge f b h = cc

-- The call ends with a value or with an error value.
abbrev pub Settles : {E A : Type 0} → Outcome E A → Type 0
Settles {E} {A} m = ((a : A) × (m ≡ ok a)) ⊎ ((e : E) × (m ≡ err e))

pub bind-Settles :
    {E A B : Type 0} (m : Outcome E A) (f : A → Outcome E B)
    → Settles m
    → ((a : A) → Settles (f a))
    → Settles (m >>= f)
bind-Settles m f (inl (a, e)) h = rw (e) (h a)
bind-Settles m f (inr (e, k)) h = rw (k) (inr (e, refl))

pub try_map-Settles :
    {E A B : Type 0} (f : A → Outcome E B)
    → ((a : A) → Settles (f a))
    → (xs : List A) → Settles (try_map f xs)
unfolding try_map
try_map-Settles f h [] = inl ([], refl)
try_map-Settles f h (x ∷ xs) =
    bind-Settles (f x) _ (h x)
      (λ y. bind-Settles (try_map f xs) _ (try_map-Settles f h xs) (λ ys. inl (y ∷ ys, refl)))

-- an error value or a result
abbrev pub returned : {E A : Type 0} → E ⊎ A → Outcome E A
returned (inl e) = err e
returned (inr a) = ok a

pub returned-Settles : {E A : Type 0} (r : E ⊎ A) → Settles (returned r)
returned-Settles (inl e) = inr (e, refl)
returned-Settles (inr a) = inl (a, refl)

pub returned-ok : {E A : Type 0} (r : E ⊎ A) (a : A) → returned r ≡ ok a → r ≡ inr a
returned-ok (inl e) a h = cc
returned-ok (inr b) a h = cc

pub returned-err : {E A : Type 0} (r : E ⊎ A) (e : E) → returned r ≡ err e → r ≡ inl e
returned-err (inl f) e h = cc
returned-err (inr b) e h = cc

err_inj : {E A : Type 0} {x y : E} → ◌≡◌ {A = Outcome E A} (err x) (err y) → x ≡ y
err_inj e = cc

-- where a chain that fails does
pub bind-err :
    {E A B : Type 0} (m : Outcome E A) (f : A → Outcome E B) (e : E)
    → (m >>= f) ≡ err e
    → (m ≡ err e) ⊎ ((a : A) × (m ≡ ok a) × (f a ≡ err e))
bind-err (ok a) f e h = inr (a, refl, h)
bind-err (err e') f e h = inl (ap err (err_inj h))
bind-err panic f e h = cc
bind-err diverge f e h = cc
