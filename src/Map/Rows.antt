-- ===== src/Map/Rows.antt =====
-- The buckets as rows of entries: where entries stand, what the rows mean as a map, and what the
-- rebuilding loops do to them. `home` is the hash function at a fixed number of rows.
use pmem_rts_cache.Common.{
  ℕ, zero, suc, ◌+◌, ◌≤◌, ◌<◌, ◌≡◌, ◌≢◌, refl, ap, ◌∙◌, Option, none, some, List, [], ◌∷◌, ◌++◌,
  flatten, ◌==◌, if◌then◌else◌, length, get_or, set, arith, length-set, get_or-set,
  length-flatten-set,
}
use pmem_rts_cache.Pmem.{PmemOid}
use pmem_rts_cache.Map.Table.{Entry, Chain}
use pmem_rts_cache.Map.Chains.{
  find, occurs, or_else, none-or_else, or_else-none, find-append, occurs-append, find-eq-none,
  occurs-eq-zero,
}

occurs-flatten_nowhere :
    (q : ℕ) (rows : List Chain)
    → ((i : ℕ) → occurs q (get_or rows i []) ≡ 0)
    → occurs q (flatten rows) ≡ 0
unfolding flatten occurs
occurs-flatten_nowhere q [] h = refl
occurs-flatten_nowhere q (c ∷ rows) h =
    omega
      (arith, occurs-append q c (flatten rows), h 0, occurs-flatten_nowhere q rows (λ i. h (suc i)))

-- A key that stands in one row alone is found in the flattened table as in that row.
flatten_only :
    (q : ℕ) (rows : List Chain) (j : ℕ)
    → ((i : ℕ) → i ≢ j → occurs q (get_or rows i []) ≡ 0)
    → (find q (flatten rows) ≡ find q (get_or rows j []))
      × (occurs q (flatten rows) ≡ occurs q (get_or rows j []))
unfolding flatten
flatten_only q [] j h = (refl, refl)
flatten_only q (c ∷ rows) zero h =
    let rest = occurs-flatten_nowhere q rows (λ i. h (suc i) (omega arith)) in
    (
      rw (find-append, find-eq-none q (flatten rows) rest, or_else-none),
      omega (arith, occurs-append q c (flatten rows)),
    )
flatten_only q (c ∷ rows) (suc j) h =
    let here = h 0 (omega arith) in
    let (found, counted) = flatten_only q rows j (λ i n. h (suc i) (omega arith)) in
    (
      rw (find-append, find-eq-none q c here, none-or_else) found,
      omega (arith, occurs-append q c (flatten rows)),
    )

module _ (home : ℕ → ℕ) where
  -- A key occurs at most once, and only in its home row.
  abbrev pub IsPlaced : List Chain → Type 0
  IsPlaced rows = (q i : ℕ) → occurs q (get_or rows i []) ≤ (if home q == i then 1 else 0)

  -- The map that the rows stand for.
  unfoldable pub view : List Chain → ℕ → Option PmemOid
  view rows q = find q (get_or rows (home q) [])

  pub set-IsPlaced :
      (rows : List Chain) (i : ℕ) (c : Chain)
      → i < length rows
      → IsPlaced rows
      → ((q : ℕ) → occurs q c ≤ (if home q == i then 1 else 0))
      → IsPlaced (set rows i c)
  set-IsPlaced rows i c h p few q j = rw (get_or-set rows i j c [] h) (ground (arith, p q j, few q))

  pub view-set :
      (rows : List Chain) (i : ℕ) (c : Chain) (q : ℕ)
      → i < length rows
      → view (set rows i c) q ≡ (if i == home q then find q c else view rows q)
  unfolding view
  view-set rows i c q h = rw (get_or-set rows i (home q) c [] h) (ground arith)

  pub flatten-view :
      (rows : List Chain) (q : ℕ)
      → IsPlaced rows
      → (find q (flatten rows) ≡ view rows q) × (occurs q (flatten rows) ≤ 1)
  unfolding view
  flatten-view rows q p =
      let (found, counted) = flatten_only q rows (home q) (λ i n. ground (arith, p q i)) in
      (found, ground (arith, p q (home q)))

  -- One round of the `while` of `hm_tx_rebuild`.
  abbrev pub push : Entry → List Chain → List Chain
  push e rows = set rows (home e.key) (e ∷ get_or rows (home e.key) [])

  unfoldable pub push_all : Chain → List Chain → List Chain
  push_all [] rows = rows
  push_all (e ∷ es) rows = push_all es (push e rows)

  pub push_all-append :
      (es fs : Chain) (rows : List Chain)
      → push_all (es ++ fs) rows ≡ push_all fs (push_all es rows)
  unfolding push_all
  push_all-append [] fs rows = refl
  push_all-append (e ∷ es) fs rows = push_all-append es fs (push e rows)

  pub length-push_all : (es : Chain) (rows : List Chain) → length (push_all es rows) ≡ length rows
  unfolding push_all
  length-push_all [] rows = refl
  length-push_all (e ∷ es) rows = length-push_all es (push e rows) ∙ length-set rows _ _

  module _ (n : ℕ) (home-lt : (q : ℕ) → home q < n) where
    pub occurs-push :
        (e : Entry) (rows : List Chain) (q i : ℕ)
        → length rows ≡ n
        → occurs q (get_or (push e rows) i [])
          ≡ occurs q (get_or rows i []) + (if home q == i then occurs q (e ∷ []) else 0)
    unfolding occurs
    occurs-push e rows q i w =
        rw
          (get_or-set rows (home e.key) i (e ∷ get_or rows (home e.key) []) []
            (omega (arith, home-lt e.key)))
          (ground (arith, ap home {x = e.key} {y = q}))

    pub view-push :
        (e : Entry) (rows : List Chain) (q : ℕ)
        → length rows ≡ n
        → view (push e rows) q ≡ (if e.key == q then some e.value else view rows q)
    unfolding view find
    view-push e rows q w =
        rw
          (get_or-set rows (home e.key) (home q) (e ∷ get_or rows (home e.key) []) []
            (omega (arith, home-lt e.key)))
          (ground (arith, ap home {x = e.key} {y = q}))

    -- Every entry that is pushed comes to stand in its home row.
    pub occurs-push_all :
        (es : Chain) (rows : List Chain) (q i : ℕ)
        → length rows ≡ n
        → occurs q (get_or (push_all es rows) i [])
          ≡ occurs q (get_or rows i []) + (if home q == i then occurs q es else 0)
    unfolding push_all occurs
    occurs-push_all [] rows q i w = ground arith
    occurs-push_all (e ∷ es) rows q i w = ground (
      arith,
      occurs-push_all es (push e rows) q i,
      occurs-push e rows q i,
      length-set rows (home e.key) (e ∷ get_or rows (home e.key) []),
    )

    -- A key that occurs once, among the pushed entries and the rows, is found after the pushes.
    pub view-push_all :
        (es : Chain) (rows : List Chain) (q : ℕ)
        → length rows ≡ n
        → occurs q es + occurs q (get_or rows (home q) []) ≤ 1
        → view (push_all es rows) q ≡ or_else (find q es) (view rows q)
    unfolding push_all find occurs or_else
    view-push_all [] rows q w few = refl
    view-push_all (e ∷ es) rows q w few = ground (
      arith,
      view-push_all es (push e rows) q,
      view-push e rows q w,
      occurs-push e rows q (home q) w,
      length-set rows (home e.key) (e ∷ get_or rows (home e.key) []),
      find-eq-none q es,
      or_else-none (view rows q),
    )

    pub length-flatten-push_all :
        (es : Chain) (rows : List Chain)
        → length rows ≡ n
        → length (flatten (push_all es rows)) ≡ length (flatten rows) + length es
    unfolding push_all
    length-flatten-push_all [] rows w = omega arith
    length-flatten-push_all (e ∷ es) rows w = omega (
      arith,
      length-flatten-push_all es (push e rows),
      length-set rows (home e.key) (e ∷ get_or rows (home e.key) []),
      length-flatten-set rows (home e.key) (e ∷ get_or rows (home e.key) []),
      home-lt e.key,
    )

    -- A new head for the home row of a key that stands nowhere.
    pub push-IsPlaced :
        (e : Entry) (rows : List Chain)
        → length rows ≡ n
        → IsPlaced rows
        → view rows e.key ≡ none
        → IsPlaced (push e rows)
    unfolding view occurs
    push-IsPlaced e rows w p absent q i = rw (occurs-push e rows q i w) (
        ground (
          arith,
          p q i,
          occurs-eq-zero q (get_or rows (home q) []),
          ap home {x = e.key} {y = q},
          ap (λ k. find k (get_or rows (home k) [])) {x = e.key} {y = q},
        ))

    pub length-flatten-push :
        (e : Entry) (rows : List Chain)
        → length rows ≡ n
        → length (flatten (push e rows)) ≡ length (flatten rows) + 1
    length-flatten-push e rows w = omega (
      arith,
      length-flatten-set rows (home e.key) (e ∷ get_or rows (home e.key) []),
      home-lt e.key,
    )
