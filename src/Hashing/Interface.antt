-- ===== src/Hashing/Interface.antt =====
-- src/dual_domain/hashing/fnv.h: the interface of the hashes, what a client may rely on, and both builds
-- of src/dual_domain/hashing/fnv.c as implementations.
use mathlib.Core.Path.{fun_ext}
use pmem_rts_cache.Common.{
  ℕ, ◌+◌, ◌≡◌, refl, sym, ◌∙◌, ap, Bool, Option, some, List, [], ◌∷◌, ◌++◌, ◌>>=◌, length, flatten,
  length-append,
}
use pmem_rts_cache.Hashing.Fnv.{
  fnv_32_buf, fnv_32_str, fnv_32a_buf, fnv_32a_str, fnv_64_buf, fnv_64_str, fnv_64a_buf,
  fnv_64a_str, buf_loop,
}
use pmem_rts_cache.Hashing.FnvLaws.{NoZero}
use pmem_rts_cache.Hashing.FnvFamily.{fnv_str-buf, fnv_buf-append}

-- `FNV1_64_INIT`
abbrev pub fnv1_64_init : ℕ
fnv1_64_init = 0xcbf29ce484222325

-- A pair of functions that the header declares: on a buffer, and on a string with a terminator.
pub record HashOps : Type 0 where
  pub buf : List ℕ → ℕ → ℕ → Option ℕ
  pub str : List ℕ → ℕ → Option ℕ

-- The functions that the header declares.
pub record FnvOps : Type 0 where
  pub fnv_32 : HashOps
  pub fnv_32a : HashOps
  pub fnv_64 : HashOps
  pub fnv_64a : HashOps

abbrev pub fnv : Bool → FnvOps
fnv plain = record {
  fnv_32 = record { buf = fnv_32_buf plain; str = fnv_32_str plain };
  fnv_32a = record { buf = fnv_32a_buf plain; str = fnv_32a_str plain };
  fnv_64 = record { buf = fnv_64_buf plain; str = fnv_64_str plain };
  fnv_64a = record { buf = fnv_64a_buf plain; str = fnv_64a_str plain };
}

-- A hash that can be taken in parts, and of a string as of its octets.
pub record IsHash (o : HashOps) : Type 0 where
  pub empty : (h : ℕ) → o.buf [] 0 h ≡ some h
  pub append :
      (xs ys : List ℕ) (n h : ℕ)
      → o.buf (xs ++ ys) (length xs + n) h ≡ (o.buf xs (length xs) h >>= o.buf ys n)
  pub string : (s rest : List ℕ) (h : ℕ) → NoZero s → o.str (s ++ 0 ∷ rest) h ≡ o.buf s (length s) h

module _ (plain : Bool) where
  pub fnv_32-IsHash : IsHash (fnv plain).fnv_32
  unfolding fnv_32_buf buf_loop
  fnv_32-IsHash = record {
    empty = λ h. refl;
    append = λ xs ys n h. (fnv_buf-append plain xs ys n h).0;
    string = λ s rest h nz. (fnv_str-buf plain s rest h nz).0;
  }

  pub fnv_32a-IsHash : IsHash (fnv plain).fnv_32a
  unfolding fnv_32a_buf buf_loop
  fnv_32a-IsHash = record {
    empty = λ h. refl;
    append = λ xs ys n h. (fnv_buf-append plain xs ys n h).1;
    string = λ s rest h nz. (fnv_str-buf plain s rest h nz).1;
  }

  pub fnv_64-IsHash : IsHash (fnv plain).fnv_64
  unfolding fnv_64_buf buf_loop
  fnv_64-IsHash = record {
    empty = λ h. refl;
    append = λ xs ys n h. (fnv_buf-append plain xs ys n h).2;
    string = λ s rest h nz. (fnv_str-buf plain s rest h nz).2;
  }

  pub fnv_64a-IsHash : IsHash (fnv plain).fnv_64a
  unfolding fnv_64a_buf buf_loop
  fnv_64a-IsHash = record {
    empty = λ h. refl;
    append = λ xs ys n h. (fnv_buf-append plain xs ys n h).3;
    string = λ s rest h nz. (fnv_str-buf plain s rest h nz).3;
  }

-- A buffer hashed part by part, each from the result of the one before.
unfoldable pub hash_parts : HashOps → List (List ℕ) → ℕ → Option ℕ
hash_parts o [] h = some h
hash_parts o (part ∷ parts) h = do h' ← o.buf part (length part) h; hash_parts o parts h'

parts_of :
    (o : HashOps)
    → IsHash o
    → (parts : List (List ℕ)) (h : ℕ)
    → hash_parts o parts h ≡ o.buf (flatten parts) (length (flatten parts)) h
unfolding hash_parts flatten
parts_of o l [] h = sym (l.empty h)
parts_of o l (part ∷ parts) h =
    let rest : (λ k. hash_parts o parts k) ≡ o.buf (flatten parts) (length (flatten parts)) =
      fun_ext (parts_of o l parts) in
    ap (λ k. o.buf part (length part) h >>= k) rest
    ∙ sym (l.append part (flatten parts) (length (flatten parts)) h)
    ∙ ap (λ n. o.buf (part ++ flatten parts) n h) (sym (length-append part (flatten parts)))

-- Every hash of the header, in both builds, can be taken of a buffer in any number of parts, and of a
-- string without its terminator: the string function gives what the parts of the string give.
pub hash_parts_lem :
    (plain : Bool) (parts : List (List ℕ)) (rest : List ℕ) (h : ℕ)
    → NoZero (flatten parts)
    → (fnv_32_str plain (flatten parts ++ 0 ∷ rest) h ≡ hash_parts (fnv plain).fnv_32 parts h)
      × (fnv_32a_str plain (flatten parts ++ 0 ∷ rest) h ≡ hash_parts (fnv plain).fnv_32a parts h)
      × (fnv_64_str plain (flatten parts ++ 0 ∷ rest) h ≡ hash_parts (fnv plain).fnv_64 parts h)
      × (fnv_64a_str plain (flatten parts ++ 0 ∷ rest) h ≡ hash_parts (fnv plain).fnv_64a parts h)
hash_parts_lem plain parts rest h nz =
    let l1 = fnv_32-IsHash plain in
    let l2 = fnv_32a-IsHash plain in
    let l3 = fnv_64-IsHash plain in
    let l4 = fnv_64a-IsHash plain in
    (
      l1.string (flatten parts) rest h nz ∙ sym (parts_of (fnv plain).fnv_32 l1 parts h),
      l2.string (flatten parts) rest h nz ∙ sym (parts_of (fnv plain).fnv_32a l2 parts h),
      l3.string (flatten parts) rest h nz ∙ sym (parts_of (fnv plain).fnv_64 l3 parts h),
      l4.string (flatten parts) rest h nz ∙ sym (parts_of (fnv plain).fnv_64a l4 parts h),
    )
