-- ===== src/Cache/Links.antt =====
-- src/cache/cache.c: the list of the cache, and what `cache_delete` does to it.
use pmem_rts_cache.Common.{
  ◌≡◌, ◌≢◌, refl, sym, ◌∙◌, Option, none, some, List, [], ◌∷◌, ◌++◌, ◌==◌, ==_self, ne→==_false,
  if◌then◌else◌,
}
use pmem_rts_cache.Pmem.{PmemOid}
use pmem_rts_cache.Cache.Pool.{CacheEntry, Pool, entry_at}

abbrev pub field_of : {A : Type 0} → (CacheEntry → A) → Option CacheEntry → Option A
field_of f none = none
field_of f (some e) = some (f e)

-- `D_RO(o)->next` and `D_RO(o)->prev`, where `o` points to an entry.
abbrev pub next_of : Pool → PmemOid → Option PmemOid
next_of w o = field_of (λ e. e.next) (entry_at w o)

abbrev pub prev_of : Pool → PmemOid → Option PmemOid
prev_of w o = field_of (λ e. e.prev) (entry_at w o)

-- `b` comes after `a`, read from either.
abbrev pub Links : Pool → PmemOid → PmemOid → Type 0
Links w a b = (next_of w a ≡ some b) × (prev_of w b ≡ some a)

abbrev pub LinkedAfter : Pool → PmemOid → List PmemOid → Type 0
LinkedAfter w a [] = Unit {0}
LinkedAfter w a (b ∷ os) = Links w a b × LinkedAfter w b os

-- The entries are a doubly linked list, or a part of one.
abbrev pub Linked : Pool → List PmemOid → Type 0
Linked w [] = Unit {0}
Linked w (a ∷ os) = LinkedAfter w a os

abbrev pub AwayFrom : PmemOid → List PmemOid → Type 0
AwayFrom o [] = Unit {0}
AwayFrom o (q ∷ os) = (o.off ≢ q.off) × AwayFrom o os

abbrev pub AllApart : List PmemOid → Type 0
AllApart [] = Unit {0}
AllApart (o ∷ os) = AwayFrom o os × AllApart os

-- What a deletion of `entry`, between `a` and `b`, did to the links of the other entries.
pub record Unlinks (w : Pool) (a entry b : PmemOid) (w' : Pool) : Type 0 where
  pub next :
      (o : PmemOid)
      → o.off ≢ entry.off
      → next_of w' o ≡ (if o.off == a.off then some b else next_of w o)
  pub prev :
      (o : PmemOid)
      → o.off ≢ entry.off
      → prev_of w' o ≡ (if o.off == b.off then some a else prev_of w o)

module _ {w w' : Pool} {a entry b : PmemOid} (u : Unlinks w a entry b w') where
  Links-kept :
      (p q : PmemOid)
      → p.off ≢ entry.off
      → p.off ≢ a.off
      → q.off ≢ entry.off
      → q.off ≢ b.off
      → Links w p q
      → Links w' p q
  Links-kept p q pe pa qe qb l = (
    u.next p pe ∙ rw (ne→==_false p.off a.off pa) l.0,
    u.prev q qe ∙ rw (ne→==_false q.off b.off qb) l.1,
  )

  LinkedAfter-kept :
      (p : PmemOid) (os : List PmemOid)
      → p.off ≢ a.off
      → p.off ≢ entry.off
      → AwayFrom a os
      → AwayFrom entry os
      → AwayFrom b os
      → LinkedAfter w p os
      → LinkedAfter w' p os
  LinkedAfter-kept p [] pa pe ha he hb l = tt
  LinkedAfter-kept p (q ∷ os) pa pe (qa, ha) (qe, he) (qb, hb) (l, ls) = (
    Links-kept p q pe pa (λ e. qe (sym e)) (λ e. qb (sym e)) l,
    LinkedAfter-kept q os (λ e. qa (sym e)) (λ e. qe (sym e)) ha he hb ls,
  )

AwayFrom-middle :
    (p a entry b : PmemOid) (xs ys : List PmemOid)
    → AwayFrom p (xs ++ a ∷ entry ∷ b ∷ ys)
    → (p.off ≢ a.off) × (p.off ≢ entry.off) × (p.off ≢ b.off)
AwayFrom-middle p a entry b [] ys (pa, (pe, (pb, h))) = (pa, pe, pb)
AwayFrom-middle p a entry b (x ∷ xs) ys (px, h) = AwayFrom-middle p a entry b xs ys h

LinkedAfter-rest :
    (w : Pool) (p a : PmemOid) (xs os : List PmemOid)
    → LinkedAfter w p (xs ++ a ∷ os)
    → LinkedAfter w a os
LinkedAfter-rest w p a [] os (l, ls) = ls
LinkedAfter-rest w p a (x ∷ xs) os (l, ls) = LinkedAfter-rest w x a xs os ls

pub Linked-rest :
    (w : Pool) (a : PmemOid) (xs os : List PmemOid) → Linked w (xs ++ a ∷ os) → Linked w (a ∷ os)
Linked-rest w a [] os l = l
Linked-rest w a (x ∷ xs) os l = LinkedAfter-rest w x a xs os l

pub AllApart-rest : (xs os : List PmemOid) → AllApart (xs ++ os) → AllApart os
AllApart-rest [] os h = h
AllApart-rest (x ∷ xs) os (away, h) = AllApart-rest xs os h

module _ {w w' : Pool} {a entry b : PmemOid} (ys : List PmemOid) (u : Unlinks w a entry b w')
    (ends : AllApart (a ∷ entry ∷ b ∷ ys)) where
  -- The part from `a` on, without the entry.
  relinked : LinkedAfter w a (entry ∷ b ∷ ys) → LinkedAfter w' a (b ∷ ys)
  relinked (l, (m, ls)) =
      let ((ae, (ab, ay)), ((eb, ey), (by, _))) = ends in
      (
        (
          u.next a ae ∙ rw (==_self a.off) refl,
          u.prev b (λ e. eb (sym e)) ∙ rw (==_self b.off) refl,
        ),
        LinkedAfter-kept u b ys (λ e. ab (sym e)) (λ e. eb (sym e)) ay ey by ls,
      )

  LinkedAfter-unlinked :
      (p : PmemOid) (xs : List PmemOid)
      → AllApart (p ∷ xs ++ a ∷ entry ∷ b ∷ ys)
      → LinkedAfter w p (xs ++ a ∷ entry ∷ b ∷ ys)
      → LinkedAfter w' p (xs ++ a ∷ b ∷ ys)
  LinkedAfter-unlinked p [] (away, _) (l, ls) =
      let (pa, pe, pb) = AwayFrom-middle p a entry b [] ys away in
      let ((ae, (ab, ay)), _) = ends in (Links-kept u p a pe pa ae ab l, relinked ls)
  LinkedAfter-unlinked p (x ∷ xs) (away, rest) (l, ls) =
      let (pa, pe, pb) = AwayFrom-middle p a entry b xs ys away.1 in
      let (xa, xe, xb) = AwayFrom-middle x a entry b xs ys rest.0 in
      (Links-kept u p x pe pa xe xb l, LinkedAfter-unlinked x xs rest ls)

  pub Linked-unlinked :
      (xs : List PmemOid)
      → AllApart (xs ++ a ∷ entry ∷ b ∷ ys)
      → Linked w (xs ++ a ∷ entry ∷ b ∷ ys)
      → Linked w' (xs ++ a ∷ b ∷ ys)
  Linked-unlinked [] apart l = relinked l
  Linked-unlinked (x ∷ xs) apart l = LinkedAfter-unlinked x xs apart l
