-- ===== src/Collections/Bitmap/Bulk.antt =====
-- `bulk_allocate`, and `set_free` after `allocate`.
use nikka.Common.{
  ℕ, zero, suc, ◌+◌, ◌<◌, ◌≤◌, ◌≡◌, ◌⊎◌, inl, inr, refl, sym, ◌∙◌, ap, arith, min, Bool, true,
  false, leb, ◌==◌, if◌then◌else◌, Bool-cases, length, List, [], ◌∷◌, ◌++◌, append_nil,
  append_assoc, Option, some, Outcome, ok, panic,
}
use nikka.Collections.Bitmap.{Bitmap, allocate, allocate_times, bulk_allocate, set_free}
use nikka.Collections.Bitmap.Zeros.{used_at}
use nikka.Collections.Bitmap.Valid.{IsValid, Changes}
use nikka.Collections.Bitmap.Search.{Takes, allocate_lem}
use nikka.Collections.Bitmap.SetFree.{set_free_lem}

abbrev pub member : List ℕ → ℕ → Bool
member [] n = false
member (x ∷ xs) n = if n == x then true else member xs n

abbrev pub IsDistinct : List ℕ → Type 0
IsDistinct [] = Unit {0}
IsDistinct (x ∷ xs) = (member xs x ≡ false) × IsDistinct xs

-- `b'` is the valid bitmap `b` with its free elements `ns` used, which are all different.
pub record TakesAll (b b' : Bitmap) (ns : List ℕ) : Type 0 where
  pub len : b'.len ≡ b.len
  pub bits : (n : ℕ) → used_at b'.bitmap n ≡ (if member ns n then true else used_at b.bitmap n)
  pub were_free : (n : ℕ) → member ns n ≡ true → (n < b.len) × (used_at b.bitmap n ≡ false)
  pub distinct : IsDistinct ns
  pub counts : b.free ≡ length ns + b'.free
  pub valid : IsValid b'

module _ (b m b' : Bitmap) (x : ℕ) (xs : List ℕ) (t : Takes b m x) (all : TakesAll m b' xs) where
  own_bit : (n : ℕ) → used_at m.bitmap n ≡ (if n == x then true else used_at b.bitmap n)
  own_bit n = t.changes.bits n

  first_were_free : (n : ℕ) → member (x ∷ xs) n ≡ true → (n < b.len) × (used_at b.bitmap n ≡ false)
  first_were_free n h = elim (Bool-cases (n == x)) [
    | inl same ↦ let e : n ≡ x = ground arith in rw e (t.within, t.was_free)
    | inr other ↦
        let (lt, free) = all.were_free n (rw other at h) in
        let same = own_bit n in (omega (arith, t.changes.len), ground arith)
  ]

  not_again : member xs x ≡ false
  not_again = elim (Bool-cases (member xs x)) [
    | inl again ↦ let (lt, free) = all.were_free x again in let used = own_bit x in ground arith
    | inr new ↦ new
  ]

  TakesAll-cons : TakesAll b b' (x ∷ xs)
  TakesAll-cons = record {
    len = all.len ∙ t.changes.len;
    bits = λ n. ground (arith, all.bits n, own_bit n);
    were_free = first_were_free;
    distinct = (not_again, all.distinct);
    counts = omega (arith, t.counts, all.counts);
    valid = all.valid;
  }

times_lem :
    (left : ℕ) (result : List ℕ) (b : Bitmap)
    → IsValid b
    → left ≤ b.free
    → (b' : Bitmap) × (ns : List ℕ) × (allocate_times left result b ≡ ok (b', result ++ ns))
      × (length ns ≡ left)
      × TakesAll b b' ns
unfolding allocate_times
times_lem zero result b v h = (
  b,
  [],
  rw (append_nil result) refl,
  refl,
  record {
    len = refl;
    bits = λ n. refl;
    were_free = λ n f. ground arith;
    distinct = tt;
    counts = omega arith;
    valid = v;
  },
)
times_lem (suc left) result b v h = elim (allocate_lem b v) [
  | inl (none_left, run) ↦ absurd (omega arith)
  | inr (m, n, run, t) ↦
      let (b', ns, rest, long, all) =
        times_lem left (result ++ n ∷ []) m t.valid (omega (arith, t.counts)) in
      (
        b',
        n ∷ ns,
        rw run (rest ∙ ap (λ l. ok (b', l)) (append_assoc result (n ∷ []) ns)),
        ap suc long,
        TakesAll-cons b m b' n ns t all,
      )
]

-- For a valid bitmap and a count that the vector has room for, `bulk_allocate` returns as many elements
-- as the count asks for, or all that are free if they are fewer. They are different, below the length
-- and were free; they become used and no others, and the bitmap stays valid. A count that is too large
-- panics.
pub bulk_allocate_lem :
    (capacity count : ℕ) (b : Bitmap)
    → IsValid b
    → ((capacity < count) × (bulk_allocate capacity b count ≡ panic))
      ⊎ ((b' : Bitmap) × (ns : List ℕ) × (bulk_allocate capacity b count ≡ ok (b', ns))
          × (length ns ≡ min count b.free)
          × TakesAll b b' ns)
unfolding bulk_allocate
bulk_allocate_lem capacity count b v = elim (Bool-cases (leb count capacity)) [
  | inl fits ↦ inr (rw fits (times_lem (min count b.free) [] b v (omega arith)))
  | inr large ↦ inl (ground arith, rw large refl)
]

-- What `set_free` restores of `b`.
unfoldable pub Restores : Bitmap → Bitmap → ℕ → Type 0
Restores b b' n =
    (c : Bitmap) × (set_free b' n ≡ ok c)
    × IsValid c
    × ((m : ℕ) → used_at c.bitmap m ≡ used_at b.bitmap m)
    × (c.free ≡ b.free)
    × (c.len ≡ b.len)

bits_back :
    (b d c : Bitmap) (n m : ℕ)
    → Takes b d n
    → Changes d c n false
    → used_at c.bitmap m ≡ used_at b.bitmap m
bits_back b d c n m t g = elim (Bool-cases (m == n)) [
  | inl same ↦ let e : m ≡ n = ground arith in rw e (g.bits n ∙ ground arith)
  | inr other ↦ g.bits m ∙ rw other (t.changes.bits m ∙ rw other refl)
]

pub give_back : (b d : Bitmap) (n : ℕ) → Takes b d n → Restores b d n
unfolding Restores
give_back b d n t =
    let (c, run, valid, g, more) =
      set_free_lem d n t.valid (omega (arith, t.within, t.changes.len))
        (t.changes.bits n ∙ ground arith) in
    (c, run, valid, λ m. bits_back b d c n m t g, omega (arith, t.counts), g.len ∙ t.changes.len)

-- An element that `allocate` of a valid bitmap gives goes back by `set_free`: then the same elements are
-- used as before, as many are free, and the bitmap is valid.
pub set_free-allocate :
    (b b' : Bitmap) (n : ℕ)
    → IsValid b
    → allocate b ≡ ok (b', some n)
    → (c : Bitmap) × (set_free b' n ≡ ok c)
      × IsValid c
      × ((m : ℕ) → used_at c.bitmap m ≡ used_at b.bitmap m)
      × (c.free ≡ b.free)
      × (c.len ≡ b.len)
unfolding Restores
set_free-allocate b b' n v run = elim (allocate_lem b v) [
  | inl (z, nothing) ↦ absurd (ground (arith, sym run ∙ nothing))
  | inr (d, m, took, t) ↦
      let same : ◌≡◌ {A = Outcome (Bitmap × Option ℕ)} (ok (d, some m)) (ok (b', some n)) =
        sym took ∙ run in
      let state : d ≡ b' = ground arith in
      let number : m ≡ n = ground arith in
      let back = give_back b d m t in rw (state, number) at back
]
