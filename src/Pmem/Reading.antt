-- ===== src/Pmem/Reading.antt =====
-- The undo log: the code of a transaction before its first write, which reads every word as it was.
use pmem_rts_cache.Common.{
  ℕ, zero, suc, ◌+◌, ◌≡◌, refl, sym, ap₂, subst, Bool, true, false, ◌||◌, if◌then◌else◌, ◌⊎◌, inl,
  inr,
}
use pmem_rts_cache.Pmem.{PmemOid, oid_is_null}
use pmem_rts_cache.Pmem.Undo.{
  within, Memory, Result, fault, aborted, done, Code, and_then, ◌>>=◌, ◌>>◌, tx_call, deref, peek,
  peek_oid, snapshots, tx_add, at_begin,
}
use pmem_rts_cache.Pmem.Rollback.{
  Restores, Safe, EndsSafe, Undoes, tx_call-Undoes, tx_add-Undoes, at_begin-Safe,
}

-- The pointer in two words.
abbrev pub oid_in : (ℕ → ℕ) → ℕ → PmemOid
oid_in word at = record { pool_uuid_lo = word at; off = word (at + 8) }

module _ (word : ℕ → ℕ) where
  pub record Clean (C : ℕ → Bool) (m : Memory) : Type 0 where
    pub safe : Safe word C m
    pub same : (b : ℕ) → m.word b ≡ word b

  -- The words are as they were where the code comes to its end.
  abbrev EndsSame : {A : Type 0} → Result A → Type 0
  EndsSame fault = Unit {0}
  EndsSame (aborted m) = Unit {0}
  EndsSame (done a m) = (b : ℕ) → m.word b ≡ word b

  -- A transaction, from a place in front of its first write.
  pub record Starts {A : Type 0} (C : ℕ → Bool) (c : Code A) : Type 0 where
    pub run : (m : Memory) → Clean C m → EndsSafe word {A = A} (λ _ _. false) (c m)

  pub start : {A : Type 0} {C : ℕ → Bool} {c : Code A} → Undoes word C c (λ _ _. false) → Starts C c
  start u = record { run = λ m k. u.run m k.safe }

  pub read-Starts :
      {A : Type 0} {C : ℕ → Bool} (at : ℕ) (k : PmemOid → Code A)
      → Starts C (k (oid_in word at))
      → Starts C (peek_oid at >>= k)
  unfolding peek_oid peek
  read-Starts {A} at k u = record {
    run = λ m c.
        let same : oid_in word at ≡ oid_in m.word at =
          ap₂ (λ x y. record { pool_uuid_lo = x; off = y }) (sym (c.same at))
            (sym (c.same (at + 8))) in
        subst (λ o. EndsSafe word {A = A} (λ _ _. false) (k o m)) same (u.run m c);
  }

  -- A step that writes nothing.
  step :
      {A : Type 0} (D : ℕ → Bool) (r : Result (Unit {0})) (k : Code A)
      → EndsSafe word (λ _. D) r
      → EndsSame r
      → Starts D k
      → EndsSafe word {A = A} (λ _ _. false) (and_then r (λ _. k))
  step D fault k s e u = tt
  step D (aborted m) k s e u = s
  step D (done _ m) k s e u = u.run m (record { safe = s; same = e })

  call-Same : (m : Memory) → ((b : ℕ) → m.word b ≡ word b) → EndsSame (tx_call m)
  unfolding tx_call
  call-Same m same =
      elim m.luck
        as (λ n. EndsSame (elim n [ zero ↦ aborted m | suc k ↦ done tt (record m { luck = k }) ])) [
          | zero ↦ tt
          | suc n ↦ same
        ]

  pub call-Starts : {A : Type 0} {C : ℕ → Bool} (k : Code A) → Starts C k → Starts C (tx_call >> k)
  call-Starts {C} k u = record {
    run = λ m c. step C (tx_call m) k ((tx_call-Undoes word).run m c.safe) (call-Same m c.same) u;
  }

  pub deref-Starts :
      {A : Type 0} {C : ℕ → Bool} (o : PmemOid) (k : Code A) → Starts C k → Starts C (deref o >> k)
  unfolding deref
  deref-Starts {A} o k u = record {
    run = λ m c.
        elim (oid_is_null o)
          as (λ t.
            EndsSafe word {A = A} (λ _ _. false)
              (and_then (if t then fault else done tt m) (λ _. k))) [
                | true ↦ tt
                | false ↦ u.run m c
              ];
  }

  add-Same : (m : Memory) (from n : ℕ) → ((b : ℕ) → m.word b ≡ word b) → EndsSame (tx_add from n m)
  unfolding tx_add tx_call
  add-Same m from n same =
      elim m.luck
        as (λ l. EndsSame (
          and_then (elim l [ zero ↦ aborted m | suc k ↦ done tt (record m { luck = k }) ])
            (λ _ m'. done tt (record m' { log = snapshots m'.word n from m'.log })))) [
              | zero ↦ tt
              | suc k ↦ same
            ]

  pub add-Starts :
      {A : Type 0} {C : ℕ → Bool} (from n : ℕ) (k : Code A)
      → Starts (λ b. within n from b || C b) k
      → Starts C (tx_add from n >> k)
  add-Starts {C} from n k u = record {
    run = λ m c.
        step (λ b. within n from b || C b) (tx_add from n m) k
          ((tx_add-Undoes word from n).run m c.safe) (add-Same m from n c.same) u;
  }

-- Where a transaction that writes to covered words only aborts, at one of its calls or after them, the
-- pool is as it was, but for what it allocated itself.
pub Starts-Restores :
    {A : Type 0} (word : ℕ → ℕ) (luck : ℕ) (c : Code A) (m : Memory)
    → Starts word (λ _. false) c
    → (c (at_begin word luck) ≡ aborted m) ⊎ ((a : A) × (c (at_begin word luck) ≡ done a m))
    → Restores word m
Starts-Restores {A} word luck c m u ends =
    let safe : EndsSafe word {A = A} (λ _ _. false) (c (at_begin word luck)) =
      u.run (at_begin word luck) (record { safe = at_begin-Safe word luck; same = λ b. refl }) in
    elim ends [
      | inl e ↦ subst (EndsSafe word {A = A} (λ _ _. false)) e safe
      | inr (a, e) ↦ (subst (EndsSafe word {A = A} (λ _ _. false)) e safe).restores
    ]
