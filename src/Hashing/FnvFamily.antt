-- ===== src/Hashing/FnvFamily.antt =====
-- src/dual_domain/hashing/fnv.c: the eight FNV functions together.
use mathlib.Core.Path.{fun_ext}
use pmem_rts_cache.Common.{
  sym, ◌∙◌, ◌≢◌, ℕ, ◌+◌, ◌<◌, ◌≤◌, ◌≡◌, ◌∙◌, sym, ap, Bool, true, false, some, List, ◌∷◌, ◌++◌,
  ◌>>=◌, length, bit_xor, arith,
}
use pmem_rts_cache.Pmem.{u32_mod, u64_mod}
use pmem_rts_cache.Hashing.Fnv.{
  fnv_32_mul, fnv_64_mul, fnv_32_round, fnv_32a_round, fnv_64_round, fnv_64a_round, fnv_32_buf,
  fnv_32_str, fnv_32a_buf, fnv_32a_str, fnv_64_buf, fnv_64_str, fnv_64a_buf, fnv_64a_str, buf_loop,
  str_loop,
}
use pmem_rts_cache.Hashing.FnvLaws.{
  fnv_32_mul-prime, fnv_64_mul-prime, fnv_32_round-IsRound, fnv_32a_round-IsRound,
  fnv_64_round-IsRound, fnv_64a_round-IsRound, AllOctets, NoZero, str_loop-buf_loop,
  buf_loop-append, buf_loop-lt, buf_loop_injective,
}

fnv_32_mul-builds : fnv_32_mul true ≡ fnv_32_mul false
fnv_32_mul-builds = fun_ext (λ h. fnv_32_mul-prime true h ∙ sym (fnv_32_mul-prime false h))

fnv_64_mul-builds : fnv_64_mul true ≡ fnv_64_mul false
fnv_64_mul-builds = fun_ext (λ h. fnv_64_mul-prime true h ∙ sym (fnv_64_mul-prime false h))

-- Each of the eight functions computes the same in a build with NO_FNV_GCC_OPTIMIZATION, which
-- multiplies by the prime, and in one without, which shifts and adds.
pub fnv_builds_agree :
    (buf : List ℕ) (len h : ℕ)
    → (fnv_32_buf true buf len h ≡ fnv_32_buf false buf len h)
      × (fnv_32_str true buf h ≡ fnv_32_str false buf h)
      × (fnv_32a_buf true buf len h ≡ fnv_32a_buf false buf len h)
      × (fnv_32a_str true buf h ≡ fnv_32a_str false buf h)
      × (fnv_64_buf true buf len h ≡ fnv_64_buf false buf len h)
      × (fnv_64_str true buf h ≡ fnv_64_str false buf h)
      × (fnv_64a_buf true buf len h ≡ fnv_64a_buf false buf len h)
      × (fnv_64a_str true buf h ≡ fnv_64a_str false buf h)
unfolding fnv_32_buf fnv_32_str fnv_32_round fnv_32a_buf fnv_32a_str fnv_32a_round fnv_64_buf
    fnv_64_str fnv_64_round fnv_64a_buf fnv_64a_str fnv_64a_round
fnv_builds_agree buf len h = (
  ap (λ mul. buf_loop (λ v o. bit_xor (mul v) o) buf len h) fnv_32_mul-builds,
  ap (λ mul. str_loop (λ v o. bit_xor (mul v) o) buf h) fnv_32_mul-builds,
  ap (λ mul. buf_loop (λ v o. mul (bit_xor v o)) buf len h) fnv_32_mul-builds,
  ap (λ mul. str_loop (λ v o. mul (bit_xor v o)) buf h) fnv_32_mul-builds,
  ap (λ mul. buf_loop (λ v o. bit_xor (mul v) o) buf len h) fnv_64_mul-builds,
  ap (λ mul. str_loop (λ v o. bit_xor (mul v) o) buf h) fnv_64_mul-builds,
  ap (λ mul. buf_loop (λ v o. mul (bit_xor v o)) buf len h) fnv_64_mul-builds,
  ap (λ mul. str_loop (λ v o. mul (bit_xor v o)) buf h) fnv_64_mul-builds,
)

-- A string function gives, on octets that are not zero followed by a zero, what the buffer function
-- gives on those octets, whatever stands behind the zero.
pub fnv_str-buf :
    (plain : Bool) (s rest : List ℕ) (h : ℕ)
    → NoZero s
    → (fnv_32_str plain (s ++ 0 ∷ rest) h ≡ fnv_32_buf plain s (length s) h)
      × (fnv_32a_str plain (s ++ 0 ∷ rest) h ≡ fnv_32a_buf plain s (length s) h)
      × (fnv_64_str plain (s ++ 0 ∷ rest) h ≡ fnv_64_buf plain s (length s) h)
      × (fnv_64a_str plain (s ++ 0 ∷ rest) h ≡ fnv_64a_buf plain s (length s) h)
unfolding fnv_32_buf fnv_32_str fnv_32a_buf fnv_32a_str fnv_64_buf fnv_64_str fnv_64a_buf
    fnv_64a_str
fnv_str-buf plain s rest h nz = (
  str_loop-buf_loop (fnv_32_round plain) s rest h nz,
  str_loop-buf_loop (fnv_32a_round plain) s rest h nz,
  str_loop-buf_loop (fnv_64_round plain) s rest h nz,
  str_loop-buf_loop (fnv_64a_round plain) s rest h nz,
)

-- A buffer function on octets reads nothing past the end if the length is that of the buffer at
-- most, and returns a value in the width of its type.
pub fnv_buf-lt :
    (plain : Bool) (buf : List ℕ) (len h : ℕ)
    → AllOctets buf
    → len ≤ length buf
    → h < u32_mod
    → ((out : ℕ) × (fnv_32_buf plain buf len h ≡ some out) × (out < u32_mod))
      × ((out : ℕ) × (fnv_32a_buf plain buf len h ≡ some out) × (out < u32_mod))
      × ((out : ℕ) × (fnv_64_buf plain buf len h ≡ some out) × (out < u64_mod))
      × ((out : ℕ) × (fnv_64a_buf plain buf len h ≡ some out) × (out < u64_mod))
unfolding fnv_32_buf fnv_32a_buf fnv_64_buf fnv_64a_buf
fnv_buf-lt plain buf len h os fits lt = (
  buf_loop-lt (fnv_32_round-IsRound plain) buf len h os fits lt,
  buf_loop-lt (fnv_32a_round-IsRound plain) buf len h os fits lt,
  buf_loop-lt (fnv_64_round-IsRound plain) buf len h os fits (omega arith),
  buf_loop-lt (fnv_64a_round-IsRound plain) buf len h os fits (omega arith),
)

-- Hashing a buffer in two parts, the second from the result of the first, hashes it whole.
pub fnv_buf-append :
    (plain : Bool) (xs ys : List ℕ) (n h : ℕ)
    → (fnv_32_buf plain (xs ++ ys) (length xs + n) h
        ≡ (fnv_32_buf plain xs (length xs) h >>= fnv_32_buf plain ys n))
      × (fnv_32a_buf plain (xs ++ ys) (length xs + n) h
          ≡ (fnv_32a_buf plain xs (length xs) h >>= fnv_32a_buf plain ys n))
      × (fnv_64_buf plain (xs ++ ys) (length xs + n) h
          ≡ (fnv_64_buf plain xs (length xs) h >>= fnv_64_buf plain ys n))
      × (fnv_64a_buf plain (xs ++ ys) (length xs + n) h
          ≡ (fnv_64a_buf plain xs (length xs) h >>= fnv_64a_buf plain ys n))
unfolding fnv_32_buf fnv_32a_buf fnv_64_buf fnv_64a_buf
fnv_buf-append plain xs ys n h = (
  buf_loop-append (fnv_32_round plain) xs ys n h,
  buf_loop-append (fnv_32a_round plain) xs ys n h,
  buf_loop-append (fnv_64_round plain) xs ys n h,
  buf_loop-append (fnv_64a_round plain) xs ys n h,
)

-- Two different initial values of 32 bits never give the same hash of the same octets, by
-- `fnv_32_buf` or by `fnv_32a_buf`, if the length is that of the buffer at most.
pub fnv_buf_injective :
    (plain : Bool) (buf : List ℕ) (len h k : ℕ)
    → AllOctets buf
    → len ≤ length buf
    → h < u32_mod
    → k < u32_mod
    → h ≢ k
    → (fnv_32_buf plain buf len h ≢ fnv_32_buf plain buf len k)
      × (fnv_32a_buf plain buf len h ≢ fnv_32a_buf plain buf len k)
unfolding fnv_32_buf fnv_32a_buf
fnv_buf_injective plain buf len h k os fits p q ne =
    let ((out, run, _), (out_a, run_a, _), _, _) = fnv_buf-lt plain buf len h os fits p in
    (
      λ e. ne (
          buf_loop_injective (fnv_32_round-IsRound plain) buf len h k out os p q run (sym e ∙ run)),
      λ e. ne (
          buf_loop_injective (fnv_32a_round-IsRound plain) buf len h k out_a os p q run_a
            (sym e ∙ run_a)),
    )
