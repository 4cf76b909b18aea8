-- ===== src/Filter/History.antt =====
-- src/dual_domain/filter/cuckoo_filter.c: a filter as `cf_new` makes it, and every sequence of calls on it.
use pmem_rts_cache.Common.{
  ℕ, suc, ◌+◌, ◌*◌, ◌^◌, ◌≤◌, ◌≡◌, refl, ◌∙◌, ap, ◌⊎◌, inl, inr, Bool, Option, some, List, [], ◌∷◌,
  ◌>>=◌, length, length-set, Bool-cases,
}
use pmem_rts_cache.Hashing.FnvLaws.{AllOctets}
use pmem_rts_cache.Filter.Bucket.{CInt, naught, plus_one, truthy}
use pmem_rts_cache.Filter.Util.{Undefined, Tables}
use pmem_rts_cache.Filter.Indices.{IsInit}
use pmem_rts_cache.Filter.Cuckoo.{
  CuckooFilter, cf_max_bucket_kick_out, index_bucket, cf_lookup, cf_insert, cf_insert_unique,
  cf_delete,
}
use pmem_rts_cache.Filter.Outcomes.{HasBlock}
use pmem_rts_cache.Filter.Keys.{Place, LooksUp, in_first, in_second, nowhere, cf_lookup_lem}
use pmem_rts_cache.Filter.Deletion.{DeletesKey, skipped, cleared_one, cleared_two, cf_delete_lem}
use pmem_rts_cache.Filter.Insertion.{filter, StaysInBlock, cf_insert_lem}

-- A call with its key and length; the insertions have what `rand_bool()` and `rand()` give.
pub data FilterCall : Type 0 where
  lookup delete : List ℕ → ℕ → FilterCall
  insert insert_unique : Bool → List ℕ → List ℕ → ℕ → FilterCall

-- The key is in its buffer, and the results of `rand()` suffice.
abbrev pub IsCall : FilterCall → Type 0
IsCall (lookup key len) = AllOctets key × (len ≤ length key)
IsCall (delete key len) = AllOctets key × (len ≤ length key)
IsCall (insert heads rands key len) =
    AllOctets key × (len ≤ length key) × (cf_max_bucket_kick_out ≤ length rands)
IsCall (insert_unique heads rands key len) =
    AllOctets key × (len ≤ length key) × (cf_max_bucket_kick_out ≤ length rands)

abbrev pub AllCalls : List FilterCall → Type 0
AllCalls [] = Unit {0}
AllCalls (c ∷ cs) = IsCall c × AllCalls cs

module _ (t : Tables) (u : Undefined) (plain : Bool) where
  unfoldable pub filter_step : CuckooFilter → FilterCall → Option (CInt × CuckooFilter)
  filter_step cf (lookup key len) = do r ← cf_lookup t u plain cf key len; some (r, cf)
  filter_step cf (delete key len) = cf_delete t u plain cf key len
  filter_step cf (insert heads rands key len) = cf_insert t u plain heads rands cf key len
  filter_step cf (insert_unique heads rands key len) =
      cf_insert_unique t u plain heads rands cf key len

  unfoldable pub filter_run : CuckooFilter → List FilterCall → Option (List CInt × CuckooFilter)
  unfolding filter_step
  filter_run cf [] = some ([], cf)
  filter_run cf (c ∷ cs) = do
    (r, cf') ← filter_step cf c
    (rs, cf'') ← filter_run cf' cs
    some (r ∷ rs, cf'')

DeletesKey-StaysInBlock :
    (p n : ℕ) (mem : List ℕ) (at : Place p) (r : CInt × CuckooFilter)
    → length mem ≡ 8 * 2 ^ p
    → DeletesKey (filter p n mem) mem at r
    → StaysInBlock p r
DeletesKey-StaysInBlock p n mem at r w (skipped none_there e) = record {
  answer = plus_one;
  count = _;
  mem = mem;
  same = e;
  width = w;
  zero_or_one = inr refl;
}
DeletesKey-StaysInBlock p n mem at r w (cleared_one j h there gone e) = record {
  answer = plus_one;
  count = _;
  mem = _;
  same = e;
  width = length-set mem (index_bucket at.first + j) 0 ∙ w;
  zero_or_one = inr refl;
}
DeletesKey-StaysInBlock p n mem at r w (cleared_two j k h h' there then e) = record {
  answer = naught;
  count = n;
  mem = _;
  same = e;
  width =
      length-set _ (index_bucket at.second + k) 0
      ∙ length-set mem (index_bucket at.first + j) 0
      ∙ w;
  zero_or_one = inl refl;
}

LooksUp-StaysInBlock :
    (p n : ℕ) (mem : List ℕ) (at : Place p) (r : CInt)
    → length mem ≡ 8 * 2 ^ p
    → LooksUp mem at r
    → StaysInBlock p (r, filter p n mem)
LooksUp-StaysInBlock p n mem at r w l = record {
  answer = r;
  count = n;
  mem = mem;
  same = refl;
  width = w;
  zero_or_one = answer l;
}
  where
    answer : LooksUp mem at r → (r ≡ naught) ⊎ (r ≡ plus_one)
    answer (in_first h e) = inr e
    answer (in_second n h e) = inr e
    answer (nowhere n n' e) = inl e

module _ (t : Tables) (u : Undefined) (plain : Bool) (p : ℕ) (ready : IsInit t)
    (small : p ≤ 30) where
  step-StaysInBlock :
      (c : FilterCall) (n : ℕ) (mem : List ℕ)
      → length mem ≡ 8 * 2 ^ p
      → IsCall c
      → (r : CInt × CuckooFilter) × (filter_step t u plain (filter p n mem) c ≡ some r)
        × StaysInBlock p r
  unfolding filter_step cf_insert_unique
  step-StaysInBlock (lookup key len) n mem w (os, fits) =
      let v : HasBlock (filter p n mem) mem = record { block = refl; width = w } in
      let (at, is, r, ran, l) =
        cf_lookup_lem t u plain (filter p n mem) mem key len ready v small os fits in
      ((r, filter p n mem), rw ran refl, LooksUp-StaysInBlock p n mem at r w l)
  step-StaysInBlock (delete key len) n mem w (os, fits) =
      let v : HasBlock (filter p n mem) mem = record { block = refl; width = w } in
      let (at, is, r, ran, d) =
        cf_delete_lem t u plain (filter p n mem) mem key len ready v small os fits in
      (r, ran, DeletesKey-StaysInBlock p n mem at r w d)
  step-StaysInBlock (insert heads rands key len) n mem w (os, fits, enough) =
      cf_insert_lem t u plain heads rands (filter p n mem) mem key len ready
        (record { block = refl; width = w }) small os fits enough
  step-StaysInBlock (insert_unique heads rands key len) n mem w (os, fits, enough) =
      let v : HasBlock (filter p n mem) mem = record { block = refl; width = w } in
      let (at, is, found, ran, l) =
        cf_lookup_lem t u plain (filter p n mem) mem key len ready v small os fits in
      let (r, ran', stays) =
        cf_insert_lem t u plain heads rands (filter p n mem) mem key len ready v small os fits
          enough in
      elim (Bool-cases (truthy found)) [
        | inl e ↦ (
          (naught, filter p n mem),
          rw (ran, ◌>>=◌, e) refl,
          record {
            answer = naught;
            count = n;
            mem = mem;
            same = refl;
            width = w;
            zero_or_one = inl refl;
          },
        )
        | inr e ↦ (r, rw (ran, ◌>>=◌, e) ran', stays)
      ]

  run-StaysInBlock :
      (cs : List FilterCall) (n : ℕ) (mem : List ℕ)
      → length mem ≡ 8 * 2 ^ p
      → AllCalls cs
      → (rs : List CInt) × (n' : ℕ) × (mem' : List ℕ) × (filter_run t u plain (filter p n mem) cs
          ≡ some (rs, filter p n' mem'))
        × (length rs ≡ length cs)
        × (length mem' ≡ 8 * 2 ^ p)
  unfolding filter_run
  run-StaysInBlock [] n mem w all = ([], n, mem, refl, refl, w)
  run-StaysInBlock (c ∷ cs) n mem w (one, rest) =
      let (r, ran, stays) = step-StaysInBlock c n mem w one in
      let (rs, n', mem', ran', many, w') =
        run-StaysInBlock cs stays.count stays.mem stays.width rest in
      (stays.answer ∷ rs, n', mem', rw (ran ∙ ap some stays.same, ran') refl, ap suc many, w')

-- On a filter with a block of 2 ^ p buckets, p at most 30, any sequence of calls with keys within their
-- buffers stays in the block, which keeps its size: each call comes to an end and returns. The tables are
-- initialised, and each insertion has ten results of `rand()` to come.
pub filter_run_lem :
    (t : Tables) (u : Undefined) (plain : Bool) (cs : List FilterCall) (p n : ℕ) (mem : List ℕ)
    → IsInit t
    → p ≤ 30
    → length mem ≡ 8 * 2 ^ p
    → AllCalls cs
    → (rs : List CInt) × (n' : ℕ) × (mem' : List ℕ) × (filter_run t u plain (filter p n mem) cs
        ≡ some (rs, filter p n' mem'))
      × (length rs ≡ length cs)
      × (length mem' ≡ 8 * 2 ^ p)
filter_run_lem t u plain cs p n mem ready small w all =
    run-StaysInBlock t u plain p ready small cs n mem w all
