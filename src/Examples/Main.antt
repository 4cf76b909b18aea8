-- ===== src/Examples/Main.antt =====
-- src/pmem.c where the allocations succeed, and the filter is all zeros.
use pmem_rts_cache.Common.{◌≡◌, none, some, true, false, [], if◌then◌else◌}
use pmem_rts_cache.Main.{World, main, main_lem}

abbrev world : World
world = record {
  mallocs = true;
  callocs = true;
  raw = record { count = 0; bucket_power = 0; buckets = none };
  undef = record { wide_mask = λ i. 0; shr32 = λ hash. 0 };
  plain = false;
  heads = λ i. true;
  rands = λ i. [];
}

main_lem_example : main world ≡ (if world.mallocs then none else some 1)
main_lem_example = main_lem world
