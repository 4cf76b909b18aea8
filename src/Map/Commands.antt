-- ===== src/Map/Commands.antt =====
-- src/map/hashmap_tx.c: `hm_tx_debug` and the command interface `hm_tx_cmd`.
use native.Mathlib.Nat.{add-zero, zero-add}
use pmem_rts_cache.Common.{
  ℕ, suc, ◌+◌, ◌^◌, ◌<◌, ◌≡◌, ◌⊎◌, refl, ◌∙◌, subst, Bool, some, List, [], ◌∷◌, ◌++◌, flatten, ◌==◌,
  if◌then◌else◌, length, get_elem?, arith, length-append, Bool-cases, ==_iff, inl, inr,
}
use pmem_rts_cache.Map.Table.{Chain, Buckets, HashmapTx}
use pmem_rts_cache.Map.Read.{
  DebugLine, coefficients, totals, row, debug_row, debug_rows, hm_tx_debug, Command, done, invalid,
  hm_tx_cmd,
}
use pmem_rts_cache.Map.Invariant.{IsValid, IsSameMap}
use pmem_rts_cache.Map.Rebuild.{hm_tx_rebuild_lem}

-- The entries that these lines count.
unfoldable pub printed : List DebugLine → ℕ
printed [] = 0
printed (coefficients a b p ∷ ls) = printed ls
printed (totals c n ∷ ls) = printed ls
printed (row i keys num ∷ ls) = num + printed ls

printed-append : (ls ks : List DebugLine) → printed (ls ++ ks) ≡ printed ls + printed ks
unfolding printed
printed-append [] ks = omega arith
printed-append (coefficients a b p ∷ ls) ks = printed-append ls ks
printed-append (totals c n ∷ ls) ks = printed-append ls ks
printed-append (row i keys num ∷ ls) ks = omega (arith, printed-append ls ks)

printed-debug_row : (i : ℕ) (c : Chain) → printed (debug_row i c) ≡ length c
unfolding printed
printed-debug_row i [] = refl
printed-debug_row i (e ∷ c) = omega arith

debug_rows-printed :
    (bs : Buckets) (rows : List Chain) (i : ℕ)
    → ((j : ℕ) → get_elem? bs.bucket (i + j) ≡ get_elem? rows j)
    → (ls : List DebugLine) × (debug_rows bs (length rows) i ≡ some ls)
      × (printed ls ≡ length (flatten rows))
unfolding debug_rows flatten printed
debug_rows-printed bs [] i same = ([], refl, refl)
debug_rows-printed bs (c ∷ rows) i same =
    let (ls, run, sum) =
      debug_rows-printed bs rows (i + 1)
        (λ j. subst (λ k. get_elem? bs.bucket k ≡ get_elem? rows j) (omega arith) (same (suc j))) in
    (
      debug_row i c ++ ls,
      rw (rw add-zero at (same 0), run),
      omega (
        arith,
        printed-append (debug_row i c) ls,
        printed-debug_row i c,
        length-append c (flatten rows),
      ),
    )

-- `hm_tx_debug` of a valid map does not fault. It prints the coefficients, the count and the number
-- of buckets, and then rows whose numbers of entries add up to the count.
pub hm_tx_debug_lem :
    (m : HashmapTx)
    → IsValid m
    → (rows : List DebugLine) × (hm_tx_debug m
        ≡ some (
            coefficients m.hash_fun_a m.hash_fun_b m.hash_fun_p
            ∷ totals m.count m.buckets.nbuckets
            ∷ rows))
      × (printed rows ≡ m.count)
unfolding hm_tx_debug
hm_tx_debug_lem m v =
    let (ls, run, sum) = debug_rows-printed m.buckets m.buckets.bucket 0 (λ j. rw zero-add refl) in
    (ls, rw (subst (λ k. debug_rows m.buckets k 0 ≡ some ls) v.width run), sum ∙ v.counted)

-- `hm_tx_cmd` of a valid map never faults. The rebuild command, at a length that fits `size_t` in
-- bytes, returns 0 and leaves a valid table of the same map; the debug command returns 0 and leaves
-- the map alone, but returns -EINVAL at a null file; every other command returns -EINVAL and leaves
-- the map alone.
pub hm_tx_cmd_lem :
    (rebuilds : Bool) (m : HashmapTx) (cmd arg : ℕ)
    → IsValid m
    → arg < 2 ^ 59
    → (r : Command × HashmapTx × List DebugLine) × (hm_tx_cmd rebuilds m cmd arg ≡ some r)
      × IsSameMap m r.1
      × (r.0 ≡ (
          if cmd == 0
          then done
          else if cmd == 1
          then (if arg == 0 then invalid else done)
          else invalid))
      × ((cmd ≡ 0) ⊎ (r.1 ≡ m))
unfolding hm_tx_cmd
hm_tx_cmd_lem rebuilds m cmd arg v h =
    let (m', ran, kept, _) = hm_tx_rebuild_lem rebuilds m arg v h in
    let (ls, shown, _) = hm_tx_debug_lem m v in
    let out =
      coefficients m.hash_fun_a m.hash_fun_b m.hash_fun_p
      ∷ totals m.count m.buckets.nbuckets
      ∷ ls in
    let alone : IsSameMap m m = record { valid = v; count = refl; reads = λ q. refl } in
    elim (Bool-cases (cmd == 0)) [
      | inl c ↦ ((done, m', []), rw (c, ran), kept, rw c, inl ((==_iff cmd 0).0 c))
      | inr c ↦ elim (Bool-cases (cmd == 1)) [
        | inr d ↦ ((invalid, m, []), rw (c, d), alone, rw (c, d), inr refl)
        | inl d ↦ elim (Bool-cases (arg == 0)) [
          | inl z ↦ ((invalid, m, []), rw (c, d, z), alone, rw (c, d, z), inr refl)
          | inr z ↦ ((done, m, out), rw (c, d, z, shown), alone, rw (c, d, z), inr refl)
        ]
      ]
    ]
