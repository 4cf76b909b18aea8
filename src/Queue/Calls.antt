-- ===== src/Queue/Calls.antt =====
-- src/queue/queue.c: every sequence of calls on a valid queue, against the FIFO of its contents.
use pmem_rts_cache.Common.{◌+◌, ◌<◌, ◌≤◌, ◌≡◌, Option, some, List, [], ◌∷◌, ◌>>=◌, arith}
use pmem_rts_cache.Pmem.{u64_mod}
use pmem_rts_cache.Queue.{Queue, Status, queue_enqueue, queue_dequeue}
use pmem_rts_cache.Queue.Fifo.{Op, enqueue, dequeue, fifo_step}
use pmem_rts_cache.Queue.Invariant.{IsValid, contents}
use pmem_rts_cache.Queue.Enqueue.{queue_enqueue_lem}
use pmem_rts_cache.Queue.Dequeue.{queue_dequeue_lem}

unfoldable pub call : Option Queue → Op → Option (Status × Option Queue)
call q (enqueue commits value) = queue_enqueue commits q value
call q (dequeue commits) = queue_dequeue commits q

unfoldable pub run : Option Queue → List Op → Option (List Status)
unfolding call
run q [] = some []
run q (op ∷ ops) = do (s, q') ← call q op; ss ← run q' ops; some (s ∷ ss)

pub call_refines :
    (q : Queue) (op : Op)
    → IsValid q
    → q.back + 1 < u64_mod
    → (r : Status × Queue) × (call (some q) op ≡ some (r.0, some r.1))
      × IsValid r.1
      × (r.1.capacity ≡ q.capacity)
      × (r.1.back ≤ q.back + 1)
      × (fifo_step q.capacity (contents q) op ≡ (r.0, contents r.1))
unfolding call
call_refines q (enqueue commits value) v room =
    let (r, ran, valid, cap, back, seen, _) = queue_enqueue_lem commits q value v room in
    (r, ran, valid, cap, back, seen)
call_refines q (dequeue commits) v room =
    let (r, ran, valid, cap, back, seen, _) = queue_dequeue_lem commits q v in
    (r, ran, valid, cap, omega arith, seen)
