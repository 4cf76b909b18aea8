-- ===== src/Cache/History.antt =====
-- src/cache/cache.c: `cache_new`, and every sequence of calls after it.
use pmem_rts_cache.Common.{
  ℕ, ◌%◌, ◌≡◌, ◌≢◌, refl, sym, ◌∙◌, ap, subst, Bool, true, false, ◌&&◌, Option, none, some, List,
  [], ◌∷◌, ◌++◌, inl, inr, Bool-cases, arith,
}
use pmem_rts_cache.Pmem.{u32_mod}
use pmem_rts_cache.Map.Table.{HashmapTx}
use pmem_rts_cache.Map.Invariant.{IsValid, contents}
use pmem_rts_cache.Map.Update.{hm_tx_create}
use pmem_rts_cache.Map.Creating.{AllZero, hm_tx_create_lem}
use pmem_rts_cache.Cache.Pool.{Cache, Pool, Allocator}
use pmem_rts_cache.Cache.Code.{
  int_to_size, CacheStatus, ok, failed, cache_get, cache_set, Setting, returned, cache_new,
}
use pmem_rts_cache.Cache.Set.{map_of, some-inj, none_absurd, cache_set_lem}
use pmem_rts_cache.Cache.Get.{cache_get_lem}

all_true :
    (a b c d e : Bool)
    → a && b && c && d && e ≡ true
    → (a ≡ true) × (b ≡ true) × (c ≡ true) × (d ≡ true) × (e ≡ true)
all_true a b c d e h = ground arith

-- `cache_new` fails and leaves `*cache` as it was if the local variable that it hands to
-- `hm_tx_create` lies outside of the pool, as a variable on the stack does.
pub cache_new_fails :
    (s : Setting) (old : Option Cache) (rands : List ℕ) (capacity : ℕ)
    → s.hashmap_in_pool ≡ false
    → cache_new s old rands capacity ≡ some (returned failed old, rands)
unfolding cache_new hm_tx_create
cache_new_fails s old rands capacity outside = elim (Bool-cases (s.cache_in_pool && s.allocates)) [
  | inl e ↦ rw (e, outside) refl
  | inr e ↦ rw e refl
]

-- The cache has a valid map with no keys.
pub record IsEmpty (w : Pool) : Type 0 where
  pub map : HashmapTx
  pub has : map_of w.cache ≡ some map
  pub valid : IsValid map
  pub reads : (q : ℕ) → contents map q ≡ none

-- If everything that `cache_new` adds lies in the pool and libpmemobj does all that it is asked for, on
-- results of `rand()` that begin with any number of zeros, then have one that is not zero in 32 bits
-- and one more, `cache_new` makes a cache of the capacity asked for with a valid and empty map.
pub cache_new_lem :
    (s : Setting) (old : Option Cache) (capacity : ℕ) (zeros : List ℕ) (a b : ℕ) (rest : List ℕ)
    (w : Pool)
    → s.cache_in_pool && s.hashmap_in_pool && s.allocates && s.creates && s.commits ≡ true
    → AllZero zeros
    → a % u32_mod ≢ 0
    → (c : Cache) × (cache_new s old (zeros ++ a ∷ b ∷ rest) capacity
        ≡ some (returned ok (some c), rest))
      × (c.capacity ≡ int_to_size capacity)
      × IsEmpty (record w { cache = some c })
unfolding cache_new
cache_new_lem s old capacity zeros a b rest w all z h =
    let (m, made, v, _, _, _, _, _, empty) = hm_tx_create_lem 0 zeros a b rest z h in
    let c : Cache = record {
      head = s.head;
      tail = s.tail;
      capacity = int_to_size capacity;
      hashmap = some m;
    } in
    let (e1, e2, e3, e4, e5) =
      all_true s.cache_in_pool s.hashmap_in_pool s.allocates s.creates s.commits all in
    (
      c,
      rw (e1, e2, e3, e4, made, e5) refl,
      refl,
      record { map = m; has = refl; valid = v; reads = empty },
    )

-- A call, with the number of calls of libpmemobj that succeed in it.
pub data CacheCall : Type 0 where
  get : ℕ → ℕ → Bool → CacheCall
  set : ℕ → ℕ → ℕ → CacheCall

unfoldable pub cache_step : Allocator → Pool → CacheCall → Option (CacheStatus × Pool)
cache_step a w (get luck key out) = cache_get luck w key out
cache_step a w (set luck key value) = cache_set a luck w key value

abbrev pub cache_reply : CacheStatus → Option (List CacheStatus) → Option (List CacheStatus)
cache_reply s none = none
cache_reply s (some ss) = some (s ∷ ss)

unfoldable pub cache_run : Allocator → Pool → List CacheCall → Option (List CacheStatus)
cache_run a w [] = some []
cache_run a w (c ∷ cs) = elim (cache_step a w c) [
  | none ↦ none
  | some (s, w') ↦ cache_reply s (cache_run a w' cs)
]

-- Every `get` among the calls has failed.
abbrev pub Missed : CacheCall → CacheStatus → Type 0
Missed (get _ _ _) s = s ≡ failed
Missed (set _ _ _) s = Unit {0}

abbrev pub AllMiss : List CacheCall → List CacheStatus → Type 0
AllMiss [] [] = Unit {0}
AllMiss (c ∷ cs) (s ∷ ss) = Missed c s × AllMiss cs ss
AllMiss [] (s ∷ ss) = ⊥
AllMiss (c ∷ cs) [] = ⊥

get_step :
    (a : Allocator) (w w' : Pool) (luck key : ℕ) (out : Bool) (s : CacheStatus)
    → IsEmpty w
    → cache_step a w (get luck key out) ≡ some (s, w')
    → Missed (get luck key out) s × IsEmpty w'
unfolding cache_step
get_step a w w' luck key out s e ran =
    let (w2, ran2, same, _) =
      cache_get_lem luck w key out e.map e.has e.valid (rw (e.reads key) refl) in
    let eq : (failed, w2) ≡ (s, w') = some-inj (sym ran2 ∙ ran) in
    (
      ap (λ t. t.0) (sym eq),
      subst (λ t. IsEmpty t.1) eq
          (record { map = e.map; has = ap map_of same ∙ e.has; valid = e.valid; reads = e.reads }),
    )

set_step :
    (a : Allocator) (w w' : Pool) (luck key value : ℕ) (s : CacheStatus)
    → IsEmpty w
    → cache_step a w (set luck key value) ≡ some (s, w')
    → Missed (set luck key value) s × IsEmpty w'
unfolding cache_step
set_step a w w' luck key value s e ran =
    let (m', has, f, _) = cache_set_lem a luck w key value e.map (s, w') e.has e.valid ran in
    (
      tt,
      record {
        map = m';
        has = has;
        valid = f.valid;
        reads = λ q. elim (f.reads q) [ inl same ↦ same ∙ e.reads q | inr gone ↦ gone ];
      },
    )

step_misses :
    (a : Allocator) (w w' : Pool) (c : CacheCall) (s : CacheStatus)
    → IsEmpty w
    → cache_step a w c ≡ some (s, w')
    → Missed c s × IsEmpty w'
step_misses a w w' (get luck key out) s e ran = get_step a w w' luck key out s e ran
step_misses a w w' (set luck key value) s e ran = set_step a w w' luck key value s e ran

run_misses :
    (a : Allocator) (w : Pool) (c : CacheCall) (cs : List CacheCall) (ss : List CacheStatus)
    → ((w' : Pool) (ss' : List CacheStatus)
        → IsEmpty w'
        → cache_run a w' cs ≡ some ss'
        → AllMiss cs ss')
    → IsEmpty w
    → (x : Option (CacheStatus × Pool)) → cache_step a w c ≡ x
    → (elim x [ none ↦ none | some (s, w') ↦ cache_reply s (cache_run a w' cs) ]) ≡ some ss
    → AllMiss (c ∷ cs) ss
run_misses a w c cs ss ih e none ran q = none_absurd q
run_misses a w c cs ss ih e (some (s, w')) ran q =
    let (missed, e') = step_misses a w w' c s e ran in on_rest missed e' (cache_run a w' cs) refl q
  where
    on_rest :
        Missed c s
        → IsEmpty w'
        → (y : Option (List CacheStatus)) → cache_run a w' cs ≡ y
        → cache_reply s y ≡ some ss
        → AllMiss (c ∷ cs) ss
    on_rest missed e' none r p = none_absurd p
    on_rest missed e' (some ss') r p =
        subst (AllMiss (c ∷ cs)) (some-inj p) (missed, ih w' ss' e' r)

-- However the calls go, no `cache_get` succeeds in a sequence of calls of `cache_set` and `cache_get`
-- on a cache whose map is empty, such as one that `cache_new` made, unless a call has undefined
-- behaviour.
pub cache_run_misses :
    (a : Allocator) (cs : List CacheCall) (w : Pool) (ss : List CacheStatus)
    → IsEmpty w
    → cache_run a w cs ≡ some ss
    → AllMiss cs ss
unfolding cache_run
cache_run_misses a [] w ss e ran = subst (AllMiss []) (some-inj ran) tt
cache_run_misses a (c ∷ cs) w ss e ran =
    run_misses a w c cs ss (cache_run_misses a cs) e (cache_step a w c) refl ran
