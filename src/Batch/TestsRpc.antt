-- ===== src/Batch/TestsRpc.antt =====
-- Rows that a node counts on from, in batches of two.
use triodion.Prelude.{ℕ, suc, ◌+◌, ◌≡◌, refl, sym, List, [], ◌∷◌, map, ◌⊎◌, inr, All2}
use triodion.Prelude.Outcome.{inr_inj}
use triodion.Errors.{RpcError}
use triodion.Batch.Rpc.{RpcBatchable, rpc_batch_rows, extract_rows}
use triodion.Batch.RpcRows.{rpc_batch_rows-extract}

abbrev counts : RpcBatchable ℕ ℕ ℕ ℕ
counts = record {
  method = "eth_getTransactionCount";
  param_for_row = λ p. inr p;
  decode_row = λ p i. inr (p + i);
  batch_rows = 2;
  extract = λ p. inr (p + suc p);
}

abbrev results : List ℕ → List (RpcError ⊎ ℕ)
results ps = map {B = RpcError ⊎ ℕ} (λ p. inr (suc p)) ps

replies : ℕ → ℕ → List ℕ → RpcError ⊎ List (RpcError ⊎ ℕ)
replies c n ps = inr (results ps)

results-in_order : (ps : List ℕ) → All2 (λ p w. (t : ℕ) → w ≡ inr t → t ≡ suc p) ps (results ps)
results-in_order [] = tt
results-in_order (p ∷ ps) = ((λ t h. sym (inr_inj h)), results-in_order ps)

replies-in_order :
    (c n : ℕ) (ps : List ℕ) (ws : List (RpcError ⊎ ℕ))
    → replies c n ps ≡ inr ws
    → All2 (λ p w. (t : ℕ) → w ≡ inr t → t ≡ suc p) ps ws
unfolding replies
replies-in_order c n ps ws h = rw (sym (inr_inj h)) (results-in_order ps)

counts-decodes :
    (p q : ℕ) → counts.param_for_row p ≡ inr q → counts.decode_row p (suc q) ≡ counts.extract p
counts-decodes p q h = rw (sym (inr_inj h)) refl

rpc_batch_rows-extract_example :
    rpc_batch_rows counts replies (1 ∷ 2 ∷ 3 ∷ []) ≡ extract_rows counts (1 ∷ 2 ∷ 3 ∷ [])
rpc_batch_rows-extract_example =
    rpc_batch_rows-extract counts suc counts-decodes replies replies-in_order (1 ∷ 2 ∷ 3 ∷ [])
