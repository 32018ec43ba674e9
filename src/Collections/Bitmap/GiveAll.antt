-- ===== src/Collections/Bitmap/GiveAll.antt =====
-- The elements that a bitmap has given go back one by one, in any order.
use nikka.Common.{
  ℕ, ◌+◌, ◌<◌, ◌≡◌, inl, inr, refl, ◌∙◌, sym, arith, true, false, ◌==◌, if◌then◌else◌, Bool-cases,
  List, [], ◌∷◌, length, ok,
}
use nikka.Collections.Bitmap.{Bitmap, set_free}
use nikka.Collections.Bitmap.Zeros.{used_at}
use nikka.Collections.Bitmap.SetFree.{set_free_lem}
use nikka.Collections.Bitmap.Bulk.{member, IsDistinct, TakesAll}

abbrev pub rev_onto : List ℕ → List ℕ → List ℕ
rev_onto [] ys = ys
rev_onto (x ∷ xs) ys = rev_onto xs (x ∷ ys)

pub member-rev_onto :
    (xs ys : List ℕ) (n : ℕ)
    → member (rev_onto xs ys) n ≡ (if member xs n then true else member ys n)
member-rev_onto [] ys n = refl
member-rev_onto (x ∷ xs) ys n = member-rev_onto xs (x ∷ ys) n ∙ elim (Bool-cases (member xs n)) [
  | inl there ↦ rw there (ground arith)
  | inr not_there ↦ rw not_there (ground arith)
]

pub length-rev_onto : (xs ys : List ℕ) → length (rev_onto xs ys) ≡ length xs + length ys
length-rev_onto [] ys = omega arith
length-rev_onto (x ∷ xs) ys = length-rev_onto xs (x ∷ ys) ∙ omega arith

AreDisjoint : List ℕ → List ℕ → Type 0
AreDisjoint xs ys = (n : ℕ) → member xs n ≡ true → member ys n ≡ false

rev_onto-IsDistinct :
    (xs ys : List ℕ)
    → IsDistinct xs
    → IsDistinct ys
    → AreDisjoint xs ys
    → IsDistinct (rev_onto xs ys)
unfolding AreDisjoint
rev_onto-IsDistinct [] ys p q apart = q
rev_onto-IsDistinct (x ∷ xs) ys p q apart =
    rev_onto-IsDistinct xs (x ∷ ys) p.1 (apart x (ground arith), q)
      (λ n h. elim (Bool-cases (n == x)) [
        | inl same ↦ let e : n ≡ x = ground arith in absurd (ground (arith, p.0, rw e at h))
        | inr other ↦ rw other (apart n (rw other h))
      ])

pub TakesAll-rev_onto :
    (b c : Bitmap) (ns : List ℕ) → TakesAll b c ns → TakesAll b c (rev_onto ns [])
unfolding AreDisjoint
TakesAll-rev_onto b c ns t =
    let same : (n : ℕ) → member (rev_onto ns []) n ≡ member ns n =
      λ n. ground (arith, member-rev_onto ns [] n) in
    record {
      len = t.len;
      bits = λ n. rw (same n) (t.bits n);
      were_free = λ n h. t.were_free n (sym (same n) ∙ h);
      distinct = rev_onto-IsDistinct ns [] t.distinct tt (λ n h. refl);
      counts = omega (arith, t.counts, length-rev_onto ns []);
      valid = t.valid;
    }

pub TakesAll-uncons :
    (b c : Bitmap) (m : ℕ) (ms : List ℕ)
    → TakesAll b c (m ∷ ms)
    → (m < c.len)
      × (used_at c.bitmap m ≡ true)
      × (d : Bitmap) × (set_free c m ≡ ok d)
      × TakesAll b d ms
TakesAll-uncons b c m ms t =
    let own : member (m ∷ ms) m ≡ true = ground arith in
    let (lt, free) = t.were_free m own in
    let within : m < c.len = omega (arith, t.len) in
    let used : used_at c.bitmap m ≡ true = t.bits m ∙ rw own refl in
    let (d, run, valid, g, more) = set_free_lem c m t.valid within used in
    (
      within,
      used,
      d,
      run,
      record {
        len = g.len ∙ t.len;
        bits = λ n. elim (Bool-cases (n == m)) [
          | inl same ↦
              let e : n ≡ m = ground arith in
              let last = t.distinct.0 in rw e (g.bits m ∙ ground arith)
          | inr other ↦ g.bits n ∙ rw other (t.bits n ∙ rw other refl)
        ];
        were_free = λ n h. t.were_free n (ground arith);
        distinct = t.distinct.1;
        counts = omega (arith, t.counts);
        valid = valid;
      },
    )
