-- ===== src/Map/History.antt =====
-- src/map/hashmap_tx.c: every sequence of calls on a hash map, against the abstract map.
use mathlib.Core.Option
use pmem_rts_cache.Common.{
  ℕ, ◌+◌, ◌^◌, ◌<◌, ◌≤◌, ◌≡◌, refl, ◌∙◌, ap, Bool, ◌&&◌, Option, none, some, List, [], ◌∷◌, ◌==◌,
  if◌then◌else◌, ◌>>=◌, length, arith,
}
use pmem_rts_cache.Pmem.{PmemOid, oid_null, u64_mod}
use pmem_rts_cache.Map.Table.{HashmapTx, hm_tx_rebuild}
use pmem_rts_cache.Map.Update.{Inserted, hm_tx_insert, hm_tx_remove}
use pmem_rts_cache.Map.Read.{hm_tx_get, hm_tx_lookup}
use pmem_rts_cache.Map.Invariant.{IsValid, contents}
use pmem_rts_cache.Map.Insert.{insert_result, is_ok, hm_tx_insert_lem}
use pmem_rts_cache.Map.Remove.{hm_tx_remove_lem}
use pmem_rts_cache.Map.Reading.{is_some, hm_tx_get_lem, hm_tx_lookup_lem}
use pmem_rts_cache.Map.Rebuild.{hm_tx_rebuild_lem}

-- A call, with what libpmemobj decides about its transactions.
pub data Call : Type 0 where
  insert : Bool → Bool → ℕ → PmemOid → Call
  remove : Bool → Bool → ℕ → Call
  get lookup : ℕ → Call
  rebuild : Bool → ℕ → Call

pub data Reply : Type 0 where
  inserted : Inserted → Reply
  oid : PmemOid → Reply
  exists : Bool → Reply
  rebuilt : Reply

-- One call on the hash map.
unfoldable pub step : HashmapTx → Call → Option (Reply × HashmapTx)
step m (insert commits rebuilds k v) = do
  (r, m') ← hm_tx_insert commits rebuilds m k v
  some (inserted r, m')
step m (remove commits rebuilds k) = do
  (o, m') ← hm_tx_remove commits rebuilds m k
  some (oid o, m')
step m (get k) = do o ← hm_tx_get m k; some (oid o, m)
step m (lookup k) = do b ← hm_tx_lookup m k; some (exists b, m)
step m (rebuild commits n) = do m' ← hm_tx_rebuild commits m n; some (rebuilt, m')

unfoldable pub run : HashmapTx → List Call → Option (List Reply)
run m [] = some []
run m (c ∷ cs) = do (r, m') ← step m c; rs ← run m' cs; some (r ∷ rs)

-- The abstract map, and what each call does to it. It knows nothing of rows and of rebuilds.
abbrev pub Store : Type 0
Store = ℕ → Option PmemOid

-- `f` with the value of `k` replaced, if the call takes effect.
abbrev pub update : Bool → Store → ℕ → Option PmemOid → Store
update effective f k o q = if effective && k == q then o else f q

unfoldable pub spec_step : Store → Call → Reply × Store
spec_step f (insert commits rebuilds k v) =
    let r = insert_result commits (f k) in (inserted r, update (is_ok r) f k (some v))
spec_step f (remove commits rebuilds k) =
    (oid (if commits then Option.get_or (f k) oid_null else oid_null), update commits f k none)
spec_step f (get k) = (oid (Option.get_or (f k) oid_null), f)
spec_step f (lookup k) = (exists (is_some (f k)), f)
spec_step f (rebuild commits n) = (rebuilt, f)

unfoldable pub spec_run : Store → List Call → List Reply
spec_run f [] = []
spec_run f (c ∷ cs) = let (r, g) = spec_step f c in r ∷ spec_run g cs

-- The lengths asked of rebuilds fit `size_t` in bytes.
abbrev pub Fits : Call → Type 0
Fits (rebuild commits n) = n < 2 ^ 59
Fits _ = Unit {0}

abbrev pub AllFit : List Call → Type 0
AllFit [] = Unit {0}
AllFit (c ∷ cs) = Fits c × AllFit cs

-- One call of the code does what the abstract map does.
record Steps (m : HashmapTx) (f : Store) (c : Call) (r : Reply × HashmapTx) : Type 0 where
  valid : IsValid r.1
  count : r.1.count ≤ m.count + 1
  reply : r.0 ≡ (spec_step f c).0
  reads : (q : ℕ) → contents r.1 q ≡ (spec_step f c).1 q

step_refines :
    (m : HashmapTx) (f : Store) (c : Call)
    → IsValid m
    → m.count + 1 < u64_mod
    → Fits c
    → ((q : ℕ) → contents m q ≡ f q)
    → (r : Reply × HashmapTx) × (step m c ≡ some r) × Steps m f c r
unfolding step spec_step
step_refines m f (insert commits rebuilds k o) v room fits same =
    let (r, ran, ins) = hm_tx_insert_lem commits rebuilds m k o v room in
    (
      (inserted r.0, r.1),
      rw ran,
      record {
        valid = ins.valid;
        count = ground (arith, ins.count);
        reply = ap inserted (ins.returns ∙ ap (insert_result commits) (same k));
        reads = λ q. rw (← same q, ← same k, ← ins.returns) (ins.reads q);
      },
    )
step_refines m f (remove commits rebuilds k) v room fits same =
    let (r, ran, rem) = hm_tx_remove_lem commits rebuilds m k v in
    (
      (oid r.0, r.1),
      rw ran,
      record {
        valid = rem.valid;
        count = omega (arith, rem.count);
        reply = ap oid (rw (← same k) rem.returns);
        reads = λ q. rw (← same q) (rem.reads q);
      },
    )
step_refines m f (get k) v room fits same = (
  (oid (Option.get_or (contents m k) oid_null), m),
  rw (hm_tx_get_lem m k v),
  record { valid = v; count = omega arith; reply = rw (same k); reads = same },
)
step_refines m f (lookup k) v room fits same = (
  (exists (is_some (contents m k)), m),
  rw (hm_tx_lookup_lem m k v),
  record { valid = v; count = omega arith; reply = rw (same k); reads = same },
)
step_refines m f (rebuild commits n) v room fits same =
    let (m', ran, kept, _) = hm_tx_rebuild_lem commits m n v fits in
    (
      (rebuilt, m'),
      rw ran,
      record {
        valid = kept.valid;
        count = omega (arith, kept.count);
        reply = refl;
        reads = λ q. kept.reads q ∙ same q;
      },
    )

-- Whatever libpmemobj decides, a sequence of calls on a valid map that stays below 2 ^ 64 entries, and in
-- which each rebuild asks for a length below 2 ^ 59, never faults, and returns what the same calls return
-- on the abstract map of its contents.
pub map_run_refines :
    (cs : List Call) (m : HashmapTx) (f : Store)
    → IsValid m
    → m.count + length cs < u64_mod
    → AllFit cs
    → ((q : ℕ) → contents m q ≡ f q)
    → run m cs ≡ some (spec_run f cs)
unfolding run spec_run
map_run_refines [] m f v room fits same = refl
map_run_refines (c ∷ cs) m f v room fits same =
    let (r, ran, st) = step_refines m f c v (omega arith) fits.0 same in
    rw (
      ran,
      map_run_refines cs r.1 (spec_step f c).1 st.valid (omega (arith, st.count)) fits.1 st.reads,
      st.reply,
    )
