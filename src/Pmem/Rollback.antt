-- ===== src/Pmem/Rollback.antt =====
-- The undo log: code that writes to words that it has added or allocated, and to no others, is undone by an
-- abort.
use pmem_rts_cache.Common.{
  ℕ, zero, suc, ◌+◌, ◌≡◌, refl, sym, ◌∙◌, ap, subst, Bool, true, false, ◌||◌, inl, inr, List, [],
  ◌∷◌, ◌==◌, ==_iff, ==_self, Bool-cases, if◌then◌else◌, arith,
}
use pmem_rts_cache.Pmem.{PmemOid, oid_is_null}
use pmem_rts_cache.Pmem.Undo.{
  within, Memory, put_word, Result, fault, aborted, done, Code, pure, and_then, ◌>>=◌, tx_call,
  deref, peek, poke, peek_oid, poke_oid, snapshots, tx_add, Heap, tx_alloc, tx_free_object,
  rolled_back_words, at_begin,
}

-- A word that a snapshot was taken of.
abbrev pub logged : ℕ → List (ℕ × ℕ) → Bool
logged at [] = false
logged at ((c, v) ∷ log) = at == c || logged at log

-- What a word has after an abort depends on the snapshots and on what it has before, and on no other word.
rolled_back-at :
    (log : List (ℕ × ℕ)) (w w' : ℕ → ℕ) (b : ℕ)
    → w b ≡ w' b
    → rolled_back_words log w b ≡ rolled_back_words log w' b
rolled_back-at [] w w' b e = e
rolled_back-at ((c, v) ∷ log) w w' b e =
    rolled_back-at log (put_word w c v) (put_word w' c v) b
      (elim (Bool-cases (b == c)) [ inl same ↦ rw same refl | inr other ↦ rw other e ])

-- A snapshot of what the word has changes nothing.
rolled_back-snapshot :
    (log : List (ℕ × ℕ)) (w : ℕ → ℕ) (c b : ℕ)
    → rolled_back_words ((c, w c) ∷ log) w b ≡ rolled_back_words log w b
rolled_back-snapshot log w c b =
    rolled_back-at log (put_word w c (w c)) w b (elim (Bool-cases (b == c)) [
      | inl same ↦ rw same (ap w (sym ((==_iff b c).0 same)))
      | inr other ↦ rw other refl
    ])

-- A write to a word with a snapshot is undone.
rolled_back-logged :
    (log : List (ℕ × ℕ)) (w w' : ℕ → ℕ) (b : ℕ)
    → logged b log ≡ true
    → rolled_back_words log w b ≡ rolled_back_words log w' b
rolled_back-logged [] w w' b h = absurd (false≢true h)
  where
    false≢true : false ≡ true → ⊥
    false≢true e = cc
rolled_back-logged ((c, v) ∷ log) w w' b h = elim (Bool-cases (b == c)) [
  | inl same ↦ rolled_back-at log (put_word w c v) (put_word w' c v) b (rw same refl)
  | inr other ↦ rolled_back-logged log (put_word w c v) (put_word w' c v) b (rw other at h)
]

false≢true : false ≡ true → ⊥
false≢true e = cc

-- What the pool holds after an abort, but for what the transaction allocated, is what `word` says.
abbrev pub Restores : (ℕ → ℕ) → Memory → Type 0
Restores word m = (b : ℕ) → m.owned b ≡ false → rolled_back_words m.log m.word b ≡ word b

-- Words that may be written to: they are added, or allocated.
abbrev pub covered : Memory → ℕ → Bool
covered m at = m.owned at || logged at m.log

pub record Safe (word : ℕ → ℕ) (C : ℕ → Bool) (m : Memory) : Type 0 where
  pub restores : Restores word m
  pub covers : (at : ℕ) → C at ≡ true → covered m at ≡ true

widened : (i c o l : Bool) → i || c ≡ true → (c ≡ true → o || l ≡ true) → o || (i || l) ≡ true
widened i c o l h k = ground arith

enlarged : (i c o l : Bool) → i || c ≡ true → (c ≡ true → o || l ≡ true) → (i || o) || l ≡ true
enlarged i c o l h k = ground arith

neither : (i o : Bool) → i || o ≡ false → (i ≡ false) × (o ≡ false)
neither i o h = ground arith

swapped : (s i l : Bool) → i || (s || l) ≡ (s || i) || l
swapped s i l = ground arith

logged-snapshots :
    (log : List (ℕ × ℕ)) (w : ℕ → ℕ) (n from b : ℕ)
    → logged b (snapshots w n from log) ≡ within n from b || logged b log
logged-snapshots log w zero from b = refl
logged-snapshots log w (suc n) from b =
    logged-snapshots ((from, w from) ∷ log) w n (from + 8) b
    ∙ swapped (b == from) (within n (from + 8) b) (logged b log)

rolled_back-snapshots :
    (log : List (ℕ × ℕ)) (w : ℕ → ℕ) (n from b : ℕ)
    → rolled_back_words (snapshots w n from log) w b ≡ rolled_back_words log w b
rolled_back-snapshots log w zero from b = refl
rolled_back-snapshots log w (suc n) from b =
    rolled_back-snapshots ((from, w from) ∷ log) w n (from + 8) b
    ∙ rolled_back-snapshot log w from b

-- A write to a covered word changes nothing that an abort leaves.
written :
    (m : Memory) (at v b : ℕ)
    → m.owned b ≡ false
    → covered m at ≡ true
    → rolled_back_words m.log (put_word m.word at v) b ≡ rolled_back_words m.log m.word b
written m at v b free may = elim (Bool-cases (b == at)) [
  | inl same ↦
      let e : at ≡ b = sym ((==_iff b at).0 same) in
      rolled_back-logged m.log (put_word m.word at v) m.word b
        (rw free at (subst (λ k. covered m k ≡ true) e may))
  | inr other ↦ rolled_back-at m.log (put_word m.word at v) m.word b (rw other refl)
]

module _ (word : ℕ → ℕ) where
  -- Where code may abort, and where it comes to its end.
  abbrev pub EndsSafe : {A : Type 0} → (A → ℕ → Bool) → Result A → Type 0
  EndsSafe C fault = Unit {0}
  EndsSafe C (aborted m) = Restores word m
  EndsSafe C (done a m) = Safe word (C a) m

  -- Code that may write to the words in `C`, and after it one may to those in `D`.
  pub record Undoes {A : Type 0} (C : ℕ → Bool) (c : Code A) (D : A → ℕ → Bool) : Type 0 where
    pub run : (m : Memory) → Safe word C m → EndsSafe D (c m)

  EndsSafe-and_then :
      {A B : Type 0} {D : A → ℕ → Bool} {E : B → ℕ → Bool} (r : Result A) (k : A → Code B)
      → EndsSafe D r
      → ((a : A) → Undoes (D a) (k a) E)
      → EndsSafe E (and_then r k)
  EndsSafe-and_then fault k h u = tt
  EndsSafe-and_then (aborted m) k h u = h
  EndsSafe-and_then (done a m) k h u = (u a).run m h

  pub bind-Undoes :
      {A B : Type 0} {C : ℕ → Bool} {D : A → ℕ → Bool} {E : B → ℕ → Bool} {c : Code A}
      {k : A → Code B}
      → Undoes C c D
      → ((a : A) → Undoes (D a) (k a) E)
      → Undoes C (c >>= k) E
  bind-Undoes {c} {k} h u = record { run = λ m s. EndsSafe-and_then (c m) k (h.run m s) u }

  pub pure-Undoes : {A : Type 0} {C : ℕ → Bool} (a : A) → Undoes C (pure a) (λ _. C)
  pure-Undoes a = record { run = λ m s. s }

  -- Code after which there is nothing more to write.
  pub last-Undoes :
      {A : Type 0} {C : ℕ → Bool} {c : Code A} {D : A → ℕ → Bool}
      → Undoes C c D
      → Undoes C c (λ _ _. false)
  last-Undoes {A} {C} {c} {D} u = record { run = λ m s. forgets (c m) (u.run m s) }
    where
      forgets : (r : Result A) → EndsSafe D r → EndsSafe (λ _ _. false) r
      forgets fault e = tt
      forgets (aborted m) e = e
      forgets (done a m) e = record {
        restores = e.restores;
        covers = λ at h. absurd (false≢true h);
      }

  pub tx_call-Undoes : {C : ℕ → Bool} → Undoes C tx_call (λ _. C)
  unfolding tx_call
  tx_call-Undoes {C} = record {
    run = λ m s.
        elim m.luck
          as (λ n.
            EndsSafe (λ _. C)
              (elim n [ zero ↦ aborted m | suc k ↦ done tt (record m { luck = k }) ])) [
                | zero ↦ s.restores
                | suc n ↦ record { restores = s.restores; covers = s.covers }
              ];
  }

  pub peek-Undoes : {C : ℕ → Bool} (at : ℕ) → Undoes C (peek at) (λ _. C)
  unfolding peek
  peek-Undoes at = record { run = λ m s. s }

  pub peek_oid-Undoes : {C : ℕ → Bool} (at : ℕ) → Undoes C (peek_oid at) (λ _. C)
  unfolding peek_oid peek
  peek_oid-Undoes at = record { run = λ m s. s }

  pub deref-Undoes : {C : ℕ → Bool} (o : PmemOid) → Undoes C (deref o) (λ _. C)
  unfolding deref
  deref-Undoes {C} o = record {
    run = λ m s. elim (oid_is_null o) as (λ t. EndsSafe (λ _. C) (if t then fault else done tt m)) [
      | true ↦ tt
      | false ↦ s
    ];
  }

  -- A branch on a value that was read.
  pub if-Undoes :
      {A : Type 0} {C : ℕ → Bool} {D : A → ℕ → Bool} {c d : Code A} (t : Bool)
      → Undoes C c D
      → Undoes C d D
      → Undoes C (if t then c else d) D
  if-Undoes {A} {C} {D} {c} {d} t u v = elim t as (λ x. Undoes C (if x then c else d) D) [
    | true ↦ u
    | false ↦ v
  ]

  pub poke-Undoes : {C : ℕ → Bool} (at v : ℕ) → C at ≡ true → Undoes C (poke at v) (λ _. C)
  unfolding poke
  poke-Undoes {C} at v may = record {
    run = λ m s. record {
      restores = λ b free. written m at v b free (s.covers at may) ∙ s.restores b free;
      covers = s.covers;
    };
  }

  pub poke_oid-Undoes :
      {C : ℕ → Bool} (at : ℕ) (o : PmemOid)
      → C at ≡ true
      → C (at + 8) ≡ true
      → Undoes C (poke_oid at o) (λ _. C)
  unfolding poke_oid
  poke_oid-Undoes {C} at o may may' =
      bind-Undoes (poke-Undoes at o.pool_uuid_lo may) λ _. poke-Undoes (at + 8) o.off may'

  pub tx_add-Undoes :
      {C : ℕ → Bool} (from n : ℕ) → Undoes C (tx_add from n) (λ _ b. within n from b || C b)
  unfolding tx_add
  tx_add-Undoes {C} from n = bind-Undoes tx_call-Undoes λ _. record {
    run = λ m s. record {
      restores = λ b free. rolled_back-snapshots m.log m.word n from b ∙ s.restores b free;
      covers = λ at may.
          ap (λ t. m.owned at || t) (logged-snapshots m.log m.word n from at)
          ∙ widened (within n from at) (C at) (m.owned at) (logged at m.log) may (s.covers at);
    };
  }

  pub tx_alloc-Undoes :
      {C : ℕ → Bool} (h : Heap) (fill : ℕ → ℕ) (n : ℕ)
      → Undoes C (tx_alloc h fill n) (λ o b. within n o.off b || C b)
  unfolding tx_alloc
  tx_alloc-Undoes {C} h fill n = bind-Undoes tx_call-Undoes λ _. record {
    run = λ m s.
        let from = (h.place m n).off in
        record {
          restores = λ b free.
              let (away, old) = neither (within n from b) (m.owned b) free in
              rolled_back-at m.log (λ b. if within n from b then fill b else m.word b) m.word b
                (rw away refl)
              ∙ s.restores b old;
          covers = λ at may.
              enlarged (within n from at) (C at) (m.owned at) (logged at m.log) may (s.covers at);
        };
  }

  pub tx_free_object-Undoes : {C : ℕ → Bool} (o : PmemOid) → Undoes C (tx_free_object o) (λ _. C)
  unfolding tx_free_object
  tx_free_object-Undoes o =
      bind-Undoes tx_call-Undoes
        λ _. record { run = λ m s. record { restores = s.restores; covers = s.covers } }

-- The words of a range that was added or allocated last, and of the one before that.
pub first_word : (n from : ℕ) (others : Bool) → within (suc n) from from || others ≡ true
first_word n from others = rw (==_self from) refl

pub second_word :
    (n from : ℕ) (others : Bool) → within (suc (suc n)) from (from + 8) || others ≡ true
second_word n from others = rw (==_self (from + 8)) (ground arith)

pub earlier : (last others : Bool) → others ≡ true → last || others ≡ true
earlier last others h = ground arith

-- A transaction that writes to covered words only.
abbrev pub IsUndone : {A : Type 0} → (ℕ → ℕ) → Code A → Type 0
IsUndone word c = Undoes word (λ _. false) c (λ _ _. false)

pub at_begin-Safe : (word : ℕ → ℕ) (luck : ℕ) → Safe word (λ _. false) (at_begin word luck)
at_begin-Safe word luck = record {
  restores = λ b free. refl;
  covers = λ at h. absurd (false≢true h);
}
