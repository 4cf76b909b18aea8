-- ===== src/Filter/Indices.antt =====
-- src/dual_domain/filter/util.h: where a key's fingerprint may stand.
use native.Mathlib.Nat.{mod-lt, one-le-pow, mod-eq_of_lt}
use pmem_rts_cache.Common.{
  ℕ, zero, suc, ◌+◌, ◌-◌, ◌%◌, ◌^◌, ◌≤◌, ◌<◌, ◌≡◌, refl, ◌∙◌, ap, Bool, some, List, [], ◌∷◌,
  get_elem?, get_or, get_elem?-eq-get_or, length, bit_and, bit_xor, arith, lt→ltb,
}
use pmem_rts_cache.Common.Bits.{bit_and-mask, bit_xor-lt_pow, bit_xor_cancel}
use pmem_rts_cache.Pmem.{u32_mod}
use pmem_rts_cache.Hashing.Fnv.{fnv1_32_init}
use pmem_rts_cache.Hashing.FnvLaws.{AllOctets}
use pmem_rts_cache.Hashing.FnvFamily.{fnv_buf-lt}
use pmem_rts_cache.Hashing.Mix.{hash_fp}
use pmem_rts_cache.Filter.Util.{
  Tables, Undefined, IndexFp, init_hashes, init_masks, init, index_and_fingerprint, alt_index,
}

-- The tables as `init` leaves them, so far as C defines it.
pub record IsInit (t : Tables) : Type 0 where
  pub masks : (p : ℕ) → p ≤ 30 → get_elem? t.masks p ≡ some (2 ^ p - 1)
  pub hashes : length t.alt_hashes ≡ 256

pub init_masks-get :
    (u : Undefined) (left i j : ℕ)
    → j < left
    → i + j ≤ 30
    → get_elem? (init_masks u left i) j ≡ some (2 ^ (i + j) - 1)
unfolding init_masks
init_masks-get u zero i j p q = absurd (omega arith)
init_masks-get u (suc left) i zero p q =
    rw (lt→ltb i 31 (omega arith)) (ap (λ k. some (2 ^ k - 1)) (omega arith))
init_masks-get u (suc left) i (suc j) p q =
    init_masks-get u left (i + 1) j (omega arith) (omega arith)
    ∙ ap (λ k. some (2 ^ k - 1)) (omega arith)

init_hashes-length :
    (plain : Bool) (left i : ℕ)
    → i + left ≤ 256
    → (hs : List ℕ) × (init_hashes plain left i ≡ some hs) × (length hs ≡ left)
unfolding init_hashes
init_hashes-length plain zero i p = ([], refl, refl)
init_hashes-length plain (suc left) i p =
    let (hs, run, len) = init_hashes-length plain left (i + 1) (omega arith) in
    let (h, hashed, _) =
      (fnv_buf-lt plain (i ∷ []) 1 fnv1_32_init (omega arith) (omega arith) (omega arith)).1 in
    (h ∷ hs, rw (hashed, run), omega arith)

-- `init` does not fault, and fills the masks of up to 30 bits and all alternative hashes.
pub init-IsInit : (u : Undefined) (plain : Bool) → (t : Tables) × (init u plain ≡ some t) × IsInit t
unfolding init
init-IsInit u plain =
    let (hs, run, len) = init_hashes-length plain 256 0 (omega arith) in
    (
      record { alt_hashes = hs; masks = init_masks u 64 0 },
      rw run,
      record {
        masks = λ p small.
            init_masks-get u 64 0 p (omega arith) (omega arith)
            ∙ ap (λ k. some (2 ^ k - 1)) (omega arith);
        hashes = len;
      },
    )

-- With the tables initialised and at most 2 ^ 30 buckets, a key within its buffer has a fingerprint
-- from 1 to 255, so never that of an empty slot, and an index in range.
pub index_and_fingerprint-bounds :
    (u : Undefined) (plain : Bool) (t : Tables) (key : List ℕ) (len p : ℕ)
    → IsInit t
    → AllOctets key
    → len ≤ length key
    → p ≤ 30
    → (r : IndexFp) × (index_and_fingerprint u plain t key len p ≡ some r)
      × (r.indices < 2 ^ p)
      × (0 < r.fp)
      × (r.fp < 256)
unfolding index_and_fingerprint
index_and_fingerprint-bounds u plain t key len p ready os fits small =
    let (h, hashed, _) = (fnv_buf-lt plain key len fnv1_32_init os fits (omega arith)).1 in
    let i = u.shr32 h % u32_mod in
    (
      record { indices = bit_and i (2 ^ p - 1); fp = hash_fp h % 255 + 1 },
      rw (hashed, ready.masks p small),
      rw (bit_and-mask p i) (mod-lt i (one-le-pow p 2 (omega arith))),
      omega arith,
      omega arith,
    )

-- With the tables initialised and at most 2 ^ 30 buckets, the other bucket of a fingerprint is in
-- range, and the other bucket of that one is the first again.
pub alt_index-alt_index :
    (t : Tables) (fp i p : ℕ)
    → IsInit t
    → fp < 256
    → p ≤ 30
    → i < 2 ^ p
    → (j : ℕ) × (alt_index t fp i p ≡ some j) × (j < 2 ^ p) × (alt_index t fp j p ≡ some i)
unfolding alt_index
alt_index-alt_index t fp i p ready small_fp small fits =
    let alt = get_or t.alt_hashes fp 0 in
    let read = get_elem?-eq-get_or t.alt_hashes fp 0 (omega (arith, ready.hashes)) in
    let pos = one-le-pow p 2 (omega arith) in
    let h = alt % 2 ^ p in
    let low : bit_xor i h < 2 ^ p = bit_xor-lt_pow p i h fits (mod-lt alt pos) in
    (
      bit_xor i h,
      rw (ready.masks p small, read, bit_and-mask p i, bit_and-mask p alt, mod-eq_of_lt fits),
      low,
      rw (
        ready.masks p small,
        read,
        bit_and-mask p (bit_xor i h),
        bit_and-mask p alt,
        mod-eq_of_lt low,
        bit_xor_cancel i h,
      ),
    )
