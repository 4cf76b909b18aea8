-- ===== src/Main.antt =====
-- src/pmem.c: the program, which puts its words into a filter and takes them out.
-- `none` is undefined behaviour, and what main prints is left out.
use pmem_rts_cache.Common.{
  ℕ, ◌+◌, ◌≡◌, refl, Bool, true, false, Option, none, some, List, [], ◌∷◌, ◌++◌, if◌then◌else◌,
  ◌==◌, ◌>>=◌, length, replicate,
}
use pmem_rts_cache.Filter.Bucket.{truthy}
use pmem_rts_cache.Filter.Util.{Undefined, zero_tables}
use pmem_rts_cache.Filter.Cuckoo.{CuckooFilter, cf_new, cf_insert, cf_delete}
use pmem_rts_cache.Filter.Scalable.{is_minus_one}

abbrev pub word_count : ℕ
word_count = 20

-- The array `words`: the strings without their terminators, or `none` for NULL. There is one
-- initialiser, so the pointers after it are NULL.
unfoldable pub words : List (Option (List ℕ))
words = some [] ∷ replicate 19 none

-- What `main` depends on. `raw` is what its uninitialised filter holds; `heads` and `rands` what the
-- `i`-th insertion gets of `rand_bool()` and `rand()`.
pub record World : Type 0 where
  pub mallocs : Bool
  pub callocs : Bool
  pub raw : CuckooFilter
  pub undef : Undefined
  pub plain : Bool
  pub heads : ℕ → Bool
  pub rands : ℕ → List ℕ

module _ (w : World) where
  -- The first loop at `i`, with `ws` still to insert: the words that `cf_insert` returned 0 for.
  unfoldable pub insert_words :
      ℕ → List (Option (List ℕ)) → ℕ → CuckooFilter → Option (ℕ × CuckooFilter)
  insert_words i [] inserted cf = some (inserted, cf)
  insert_words i (none ∷ ws) inserted cf = none
  insert_words i (some word ∷ ws) inserted cf = do
    (r, cf') ←
        cf_insert zero_tables w.undef w.plain (w.heads i) (w.rands i) cf (word ++ (0 ∷ []))
          (length word)
    insert_words (i + 1) ws (if truthy r then inserted else inserted + 1) cf'

  -- The second loop: the filter, or `none` within for a word that could not be removed.
  unfoldable pub delete_words : List (Option (List ℕ)) → CuckooFilter → Option (Option CuckooFilter)
  delete_words [] cf = some (some cf)
  delete_words (none ∷ ws) cf = none
  delete_words (some word ∷ ws) cf = do
    (r, cf') ← cf_delete zero_tables w.undef w.plain cf (word ++ (0 ∷ [])) (length word)
    elim (truthy r) [ true ↦ some none | false ↦ delete_words ws cf' ]

  -- The end of `main`: its exit status.
  abbrev pub status : Option CuckooFilter → ℕ
  status none = 1
  status (some cf) = if cf.count == 0 then 0 else 1

  -- `main` after `cf_new`, on a table of words.
  unfoldable pub fill_and_empty : List (Option (List ℕ)) → Option ℕ
  unfolding insert_words delete_words
  fill_and_empty ws = do
    (inserted, cf) ← insert_words 0 ws 0 w.raw
    elim (inserted == cf.count) [
      | false ↦ some 1
      | true ↦ do deleted ← delete_words ws cf; some (status deleted)
    ]

  -- `cf_new` does not reach the filter, whose fields stay as they are.
  unfoldable pub main : Option ℕ
  unfolding fill_and_empty words
  main = do
    (err, made) ← cf_new w.mallocs w.callocs 1000
    elim (is_minus_one err) [ true ↦ some 1 | false ↦ fill_and_empty words ]

-- A step that only undefined behaviour follows.
fault_after :
    {A B : Type 0} (o : Option A) (k : A → Option B) → ((a : A) → k a ≡ none) → (o >>= k) ≡ none
fault_after none k h = refl
fault_after (some a) k h = h a

-- The first word is inserted or not; the second is NULL.
insert_words-null : (w : World) (cf : CuckooFilter) → insert_words w 0 words 0 cf ≡ none
unfolding insert_words words replicate
insert_words-null w cf =
    fault_after (cf_insert zero_tables w.undef w.plain (w.heads 0) (w.rands 0) cf (0 ∷ []) 0) _
      (λ r. refl)

fill_and_empty-null : (w : World) → fill_and_empty w words ≡ none
unfolding fill_and_empty
fill_and_empty-null w = rw (insert_words-null w w.raw) refl

-- The program has defined behaviour only where its first allocation fails, when it returns 1: with a
-- filter it takes the length of a null pointer.
pub main_lem : (w : World) → main w ≡ (if w.mallocs then none else some 1)
unfolding main cf_new
main_lem w = made w.mallocs w.callocs
  where
    made :
        (mallocs callocs : Bool)
        → (cf_new mallocs callocs 1000 >>= λ r. elim (is_minus_one r.0) [
          | true ↦ some 1
          | false ↦ fill_and_empty w words
        ])
          ≡ (if mallocs then none else some 1)
    made false callocs = refl
    made true false = refl
    made true true = fill_and_empty-null w
