-- ===== src/Examples/CacheList.antt =====
-- src/cache/cache.c: the deletion of the one entry between two sentinels, and the addition of another.
use pmem_rts_cache.Common.{ℕ, ◌≡◌, refl, ◌==◌, [], if◌then◌else◌, arith}
use pmem_rts_cache.Cache.Pool.{CacheEntry, Cell, vacant, kept, Pool, done}
use pmem_rts_cache.Cache.Code.{cache_delete, cache_add}
use pmem_rts_cache.Cache.Deletion.{Deleted, cache_delete_lem}
use pmem_rts_cache.Cache.Addition.{Fronted, cache_add_lem}
use pmem_rts_cache.Examples.Cache.{place, blank, pool, allocator, empty_cache}

abbrev head_entry : CacheEntry
head_entry = record blank { next = place 24 }

abbrev first_entry : CacheEntry
first_entry = record blank { key = 9; value = 5; prev = place 16; next = place 32 }

abbrev three_entries : ℕ → Cell
three_entries at =
    if at == 16
    then kept head_entry
    else if at == 24
    then kept first_entry
    else if at == 32
    then kept (record blank { prev = place 24 })
    else vacant

abbrev pub with_entry : Pool
with_entry = record pool { cell = three_entries; luck = 5 }

cache_delete_lem_example :
    (w' : Pool) × (cache_delete (place 24) with_entry ≡ done tt w')
    × Deleted with_entry [] (place 16) (place 24) (place 32) [] w'
cache_delete_lem_example =
    cache_delete_lem with_entry [] (place 16) (place 24) (place 32) [] refl (omega arith)
      ((omega arith, (omega arith, tt)), ((omega arith, tt), (tt, tt)))
      ((refl, refl), ((refl, refl), tt)) refl

-- An entry that is not yet in the list.
abbrev new_entry : CacheEntry
new_entry = record blank { key = 8; value = 6 }

abbrev with_two : Pool
with_two = record pool {
  cell = λ at. if at == 64 then kept new_entry else three_entries at;
  luck = 6;
}

cache_add_lem_example :
    (w' : Pool) × (cache_add allocator (place 64) with_two ≡ done tt w')
    × Fronted with_two (place 16) (place 64) (place 48) first_entry head_entry new_entry w'
cache_add_lem_example =
    cache_add_lem allocator with_two (place 64) empty_cache head_entry first_entry new_entry refl
      (omega arith) refl refl refl refl refl refl (omega arith)
