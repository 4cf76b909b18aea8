-- ===== src/Queue/Fifo.antt =====
-- What a client may expect of src/queue/queue.c: a FIFO of at most `cap` values, oldest first. A call
-- whose transaction does not commit fails and changes nothing.
use pmem_rts_cache.Common.{ℕ, Bool, ◌&&◌, List, [], ◌∷◌, ◌++◌, length, ltb, if◌then◌else◌}
use pmem_rts_cache.Queue.{Status, ok, failed}

pub data Op : Type 0 where
  enqueue : Bool → ℕ → Op
  dequeue : Bool → Op

-- The values after the oldest one.
abbrev pub rest : List ℕ → List ℕ
rest [] = []
rest (x ∷ xs) = xs

unfoldable pub fifo_step : ℕ → List ℕ → Op → Status × List ℕ
fifo_step cap xs (enqueue commits value) =
    if commits && ltb (length xs) cap then (ok, xs ++ value ∷ []) else (failed, xs)
fifo_step cap xs (dequeue commits) =
    if commits && ltb 0 (length xs) then (ok, rest xs) else (failed, xs)

unfoldable pub fifo_run : ℕ → List ℕ → List Op → List Status
fifo_run cap xs [] = []
fifo_run cap xs (op ∷ ops) = let (s, ys) = fifo_step cap xs op in s ∷ fifo_run cap ys ops
