-- ===== src/Examples/QueueMemory.antt =====
-- src/queue/queue.c: a queue of four slots in memory, at 1000.
use pmem_rts_cache.Common.{
  false, Bool, ℕ, zero, suc, ◌≡◌, ◌≢◌, refl, some, List, [], ◌∷◌, ◌==◌, if◌then◌else◌, inl, inr,
  get_or, ◌<◌, ◌≤◌, ◌+◌, ◌*◌, ◌%◌, ne→==_false, Bool-cases, ==_iff, ==_false_ne, arith, subst,
}
use pmem_rts_cache.Pmem.{u64_mod, PmemOid}
use pmem_rts_cache.Pmem.Undo.{Heap, put_word}
use pmem_rts_cache.Transactions.Undoing.{CommitCall, any_within}
use pmem_rts_cache.Queue.{unset, live, Queue, ok, failed}
use pmem_rts_cache.Queue.Invariant.{IsValid, contents}
use pmem_rts_cache.Queue.Fifo.{fifo_step, fifo_run}
use pmem_rts_cache.Queue.Memory.{entries_at}
use pmem_rts_cache.Queue.Held.{pointer, Clear, Holds, IsFree}
use pmem_rts_cache.Queue.Committing.{at_new}
use pmem_rts_cache.Queue.Running.{
  WordCall, enqueue, dequeue, run_on_words, fifo_after, ops_of, words_run_refines,
}
use pmem_rts_cache.Queue.Starting.{construct_on_words, queue_constructor-run_on_words}
use pmem_rts_cache.Examples.Undo.{libpmemobj}

abbrev empty : Queue
empty = record { front = 0; back = 0; capacity = 4; entries = unset ∷ unset ∷ unset ∷ unset ∷ [] }

-- No word is of an entry.
abbrev none_yet : ℕ → Bool
none_yet b = false

abbrev in_pool : ℕ → ℕ
in_pool at = if at == 1016 then 4 else 0

-- Objects of one word; a commit clears those that are freed.
abbrev clearing : CommitCall
clearing = record {
  size = λ o. 1;
  nonempty = λ o. omega arith;
  after_commit = λ m b. if any_within (λ o. 1) m.freed b then 0 else m.word b;
  keeps = λ m b free. rw free refl;
}

-- The offsets of the entries in the first slots, added up.
abbrev offsets : (ℕ → ℕ) → ℕ → ℕ
offsets word zero = 0
offsets word (suc n) = word (entries_at 1000 n + 8) + offsets word n

-- An allocator that puts each entry behind the queue and all of its entries.
abbrev behind : Heap
behind = record {
  place = λ m n. record {
    pool_uuid_lo = 7;
    off = 1025 + 16 * m.word 1016 + offsets m.word (m.word 1016);
  };
  unset = λ b. 0;
}

offset_of_slot : (word : ℕ → ℕ) (i n : ℕ) → i < n → word (entries_at 1000 i + 8) ≤ offsets word n
offset_of_slot word i zero small = absurd (omega arith)
offset_of_slot word i (suc n) small = elim (Bool-cases (i == n)) [
  | inl e ↦
      let same = (==_iff i n).0 e in
      subst (λ k. word (entries_at 1000 i + 8) ≤ word (entries_at 1000 k + 8) + offsets word n) same
        (omega arith)
  | inr e ↦
      let other = ==_false_ne i n e in omega (arith, offset_of_slot word i n (omega (arith, other)))
]

offsets_kept : (word : ℕ → ℕ) (v n : ℕ) → offsets (put_word word 1008 v) n ≡ offsets word n
offsets_kept word v zero = refl
offsets_kept word v (suc n) =
    rw (ne→==_false (entries_at 1000 n + 8) 1008 (omega arith), offsets_kept word v n) refl

not_its_word : (o : PmemOid) (b : ℕ) → b ≢ o.off → Clear (λ _. 1) o b
not_its_word o b other = rw (ne→==_false b o.off other) refl

-- The place of a new entry.
next_place :
    (word : ℕ → ℕ) (objects : ℕ → Bool) (q : Queue) (n : ℕ)
    → Holds (λ _. 1) objects word 1000 q
    → (behind.place (at_new word 1000 n) 1).off ≡ 1025 + 16 * q.capacity + offsets word q.capacity
next_place word objects q n h =
    rw (h.capacity, offsets_kept word ((word 1008 + 1) % u64_mod) q.capacity) refl

behind-IsFree :
    (word : ℕ → ℕ) (objects : ℕ → Bool) (q : Queue) (n : ℕ)
    → Holds (λ _. 1) objects word 1000 q
    → IsFree (λ _. 1) word 1000 q (behind.place (at_new word 1000 n) 1)
behind-IsFree word objects q n h =
    let o = behind.place (at_new word 1000 n) 1 in
    let place : o.off ≡ 1025 + 16 * q.capacity + offsets word q.capacity =
      next_place word objects q n h in
    let slot : (i : ℕ) → i < q.capacity → word (entries_at 1000 i + 8) ≤ offsets word q.capacity =
      λ i small. offset_of_slot word i q.capacity small in
    record {
      there = ne→==_false o.off 0 (omega (arith, place));
      apart = inr (omega (arith, place));
      beside = λ b low high. not_its_word o b (omega (arith, place));
      unused = λ i v small has. omega (arith, place, slot i small);
      clear = λ i v small has.
          not_its_word o (word (entries_at 1000 i + 8)) (omega (arith, place, slot i small));
      cleared = λ i v small has.
          not_its_word (pointer word 1000 i) o.off (omega (arith, place, slot i small));
    }

no_values : (i v : ℕ) → i < 4 → get_or empty.entries i unset ≢ live v
no_values zero v small e = cc
no_values (suc zero) v small e = cc
no_values (suc (suc zero)) v small e = cc
no_values (suc (suc (suc zero))) v small e = cc
no_values (suc (suc (suc (suc i)))) v small e = omega arith

in_pool-Holds : Holds clearing.size none_yet in_pool 1000 empty
in_pool-Holds = record {
  front = refl;
  back = refl;
  capacity = refl;
  width = refl;
  value = λ i v small has. absurd (no_values i v small has);
  apart = λ i v small has. absurd (no_values i v small has);
  allocated = λ i v small has. absurd (no_values i v small has);
  beside = λ i v small has b low high. absurd (no_values i v small has);
  disjoint = λ i j v w small small' differ has has'. absurd (no_values i v small has);
}

empty-IsValid : IsValid empty
empty-IsValid = record {
  width = refl;
  ordered = omega arith;
  counts = omega arith;
  room = omega arith;
  used = λ i p r. absurd (omega arith);
}

-- The second call aborts at its second call of libpmemobj, and the fourth finds the queue empty.
abbrev calls : List WordCall
calls = enqueue 7 4 ∷ enqueue 8 2 ∷ dequeue 3 ∷ dequeue 3 ∷ []

calls_answers : fifo_run 4 [] (ops_of calls) ≡ ok ∷ failed ∷ ok ∷ failed ∷ []
unfolding fifo_run fifo_step
calls_answers = refl

words_run_refines_example :
    (word' : ℕ → ℕ) × (objects' : ℕ → Bool) × (q' : Queue) × (run_on_words libpmemobj clearing
        behind in_pool none_yet 1000 calls
      ≡ some (fifo_run empty.capacity (contents empty) (ops_of calls), word', objects'))
    × Holds clearing.size objects' word' 1000 q'
    × IsValid q'
    × (contents q' ≡ fifo_after empty.capacity (contents empty) (ops_of calls))
words_run_refines_example =
    words_run_refines libpmemobj clearing behind 1000 behind-IsFree calls in_pool none_yet empty
      in_pool-Holds empty-IsValid (omega arith)

queue_constructor-run_on_words_example :
    (word' : ℕ → ℕ) × (objects' : ℕ → Bool) × (q' : Queue) × (run_on_words libpmemobj clearing
        behind
        (construct_on_words (λ at. 99) 1000 4)
        none_yet
        1000
        calls
      ≡ some (fifo_run 4 [] (ops_of calls), word', objects'))
    × Holds clearing.size objects' word' 1000 q'
    × IsValid q'
    × (contents q' ≡ fifo_after 4 [] (ops_of calls))
queue_constructor-run_on_words_example =
    queue_constructor-run_on_words libpmemobj clearing behind 1000 behind-IsFree calls (λ at. 99)
      none_yet 4 (omega arith) (omega arith)
