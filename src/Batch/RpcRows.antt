-- ===== src/Batch/RpcRows.antt =====
-- The batches of crates/freeze/src/types/rpc_batch.rs read what single calls read.
use triodion.Prelude.{
  ℕ, suc, max, ==_iff, ◌≡◌, refl, sym, ap, ◌∙◌, List, [], ◌∷◌, ◌++◌, map, length, concat, ◌⊎◌, inl,
  inr, All2, when_true, arith,
}
use triodion.Prelude.Outcome.{
  Outcome, ok, err, panic, diverge, ◌>>=◌, try_map, returned, try_map-Settles, returned-Settles,
  bind-ok, ok_inj, returned-ok,
}
use triodion.Errors.{RpcError}
use triodion.Batch.Grouping.{chunks}
use triodion.Batch.GroupingRows.{chunks-concat}
use triodion.Batch.SendOrder.{send_batch-Answered}
use triodion.Batch.Rpc.{
  RpcBatchable, decode_pairs, extract_rows, batch_with_fallback, chunk_tasks, rpc_batch_rows,
}

try_map-nil : {E A B : Type 0} (f : A → Outcome E B) → try_map f [] ≡ ok []
unfolding try_map
try_map-nil f = refl

at_ok :
    {E A B : Type 0} {m : Outcome E A} {a : A} (f : A → B) (g : E → B) (p q : B)
    → m ≡ ok a
    → elim m [ ok x ↦ f x | err e ↦ g e | panic ↦ p | diverge ↦ q ] ≡ f a
at_ok f g p q h = rw (h) refl

at_err :
    {E A B : Type 0} {m : Outcome E A} {e : E} (f : A → B) (g : E → B) (p q : B)
    → m ≡ err e
    → elim m [ ok x ↦ f x | err e ↦ g e | panic ↦ p | diverge ↦ q ] ≡ g e
at_err f g p q h = rw (h) refl

bind_same : {E A : Type 0} (m : Outcome E A) → (m >>= λ v. ok v) ≡ m
bind_same (ok a) = refl
bind_same (err e) = refl
bind_same panic = refl
bind_same diverge = refl

front_first :
    {E B : Type 0} (m : Outcome E B) (n k : Outcome E (List B))
    → (m >>= λ y. (n >>= λ vs. k >>= λ ws. ok (vs ++ ws)) >>= λ zs. ok (y ∷ zs))
      ≡ ((m >>= λ y. n >>= λ vs. ok (y ∷ vs)) >>= λ vs. k >>= λ ws. ok (vs ++ ws))
front_first (err e) n k = refl
front_first panic n k = refl
front_first diverge n k = refl
front_first (ok y) (err e) k = refl
front_first (ok y) panic k = refl
front_first (ok y) diverge k = refl
front_first (ok y) (ok vs) (err e) = refl
front_first (ok y) (ok vs) panic = refl
front_first (ok y) (ok vs) diverge = refl
front_first (ok y) (ok vs) (ok ws) = refl

-- Two loops, one after the other, are one loop.
try_map-append :
    {E A B : Type 0} (f : A → Outcome E B) (xs ys : List A)
    → try_map f (xs ++ ys) ≡ (try_map f xs >>= λ vs. try_map f ys >>= λ ws. ok (vs ++ ws))
unfolding try_map
try_map-append f [] ys = sym (bind_same (try_map f ys))
try_map-append f (x ∷ xs) ys =
    ap (λ m. f x >>= λ y. m >>= λ zs. ok (y ∷ zs)) (try_map-append f xs ys)
    ∙ front_first (f x) (try_map f xs) (try_map f ys)

module _ {P Q I R : Type 0} (d : RpcBatchable P Q I R) (answer : Q → I)
    (decodes : (p : P) (q : Q)
      → d.param_for_row p ≡ inr q
      → d.decode_row p (answer q) ≡ d.extract p) where
  decode_pairs-extract :
      (rows : List P) (params : List Q)
      → try_map (λ p. returned (d.param_for_row p)) rows ≡ ok params
      → (length (map answer params) ≡ length rows)
        × (decode_pairs d rows (map answer params) ≡ extract_rows d rows)
  unfolding decode_pairs try_map
  decode_pairs-extract [] params h = rw (sym (ok_inj h)) (refl, refl)
  decode_pairs-extract (p ∷ rows) params h =
      let (q, given, rest) = bind-ok (returned (d.param_for_row p)) _ params h in
      let (others, later, last) =
        bind-ok (try_map (λ r. returned (d.param_for_row r)) rows) _ params rest in
      let (same, decoded) = decode_pairs-extract rows others later in
      rw (sym (ok_inj last), decoded, decodes p q (returned-ok _ q given)) (ap suc same, refl)

  module _ (reply : ℕ → ℕ → List Q → RpcError ⊎ List (RpcError ⊎ I))
      (in_order : (c n : ℕ) (ps : List Q) (ws : List (RpcError ⊎ I))
        → reply c n ps ≡ inr ws
        → All2 (λ p w. (t : I) → w ≡ inr t → t ≡ answer p) ps ws) where
    batch_with_fallback-extract :
        (c : ℕ) (rows : List P) → batch_with_fallback d (reply c) rows ≡ extract_rows d rows
    unfolding batch_with_fallback
    batch_with_fallback-extract c rows =
        elim (try_map-Settles (λ p. returned (d.param_for_row p))
          (λ p. returned-Settles (d.param_for_row p)) rows) [
            | inr (e, fails) ↦ at_err _ _ _ _ fails
            | inl (params, given) ↦
                let (same, decoded) = decode_pairs-extract rows params given in
                at_ok _ _ _ _ given
                ∙ (elim (send_batch-Answered (reply c) answer (in_order c) d.method params) [
                  | inl all ↦
                      at_ok _ _ _ _ all
                      ∙ when_true _ _ ((==_iff (length (map answer params)) (length rows)).1 same)
                      ∙ decoded
                  | inr (n, ps, e, sent, reason, failed) ↦ at_err _ _ _ _ failed
                ])
          ]

    chunk_tasks-extract :
        (c : ℕ) (chunks : List (List P))
        → chunk_tasks d reply c chunks ≡ extract_rows d (concat chunks)
    unfolding chunk_tasks
    chunk_tasks-extract c [] = sym (try_map-nil (λ p. returned (d.extract p)))
    chunk_tasks-extract c (chunk ∷ chunks) =
        let here = batch_with_fallback-extract c chunk in
        let there = chunk_tasks-extract (suc c) chunks in
        rw (here, there) (sym (try_map-append (λ p. returned (d.extract p)) chunk (concat chunks)))

    -- If the node answers a batch, when it answers, with a result or an error for each call, in order, and
    -- a row decodes from its result what it reads alone, then the rows that are collected in
    -- batches are those that are read one at a time, in the same order, and so is the error when one fails,
    -- whatever batches the node refuses, and with rows that have no parameter.
    pub rpc_batch_rows-extract :
        (all_rows : List P) → rpc_batch_rows d reply all_rows ≡ extract_rows d all_rows
    unfolding rpc_batch_rows
    rpc_batch_rows-extract all_rows =
        chunk_tasks-extract 0 (chunks (max d.batch_rows 1) all_rows)
        ∙ ap (extract_rows d) (chunks-concat (max d.batch_rows 1) all_rows (omega arith))
