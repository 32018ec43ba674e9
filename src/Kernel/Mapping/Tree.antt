-- ===== src/Kernel/Mapping/Tree.antt =====
-- The tables form a tree, and a walk through it finds the entry of the page.
use nikka.Common.{
  ℕ, zero, suc, ◌+◌, ◌*◌, ◌/◌, ◌%◌, ◌^◌, ◌<◌, ◌≡◌, ◌≢◌, refl, ◌∙◌, Bool, true, false, Option, some,
  none, List, [], ◌∷◌, ◌==◌, if◌then◌else◌, Outcome, ok, err, no_page, unimplemented, ◌>>=◌, arith,
  Bool-cases, inl, inr,
}
use nikka.Memory.Addr.{page_table_index}
use nikka.Memory.Mmu.{is_huge, frame}
use nikka.Memory.Mmu.Words.{
  IsEntry, flags_part, address_part, flags_lem, is_present_lem, is_huge_lem,
}
use nikka.Memory.Mmu.Entry.{frame_lem}
use nikka.Kernel.Mapping.{
  Tables, node, entry_at, PagePath, child_of, walk, all_present, validate_deepest, validate, path,
  get, get_deepest, translate, read, resolve, root_level,
}

abbrev pub index_of : ℕ → ℕ → ℕ
index_of v level = v / 2 ^ (12 + level * 9) % 2 ^ 9

-- Where a table stands in the tree: its level, and the indexes that lead to it, the last one first.
abbrev pub Place : Type 0
Place = ℕ → Option (ℕ × List ℕ)

abbrev pub has_page : ℕ → Bool
has_page w = w % 2 == 1

abbrev pub is_large : ℕ → Bool
is_large w = w / 2 ^ 7 % 2 == 1

-- Every table stands at one place, and the entries on the way lead to tables one level below.
pub record IsTree (tables : Tables) (place : Place) : Type 0 where
  pub entries :
      (f l : ℕ) (q : List ℕ) (i : ℕ) → place f ≡ some (l, q) → i < 2 ^ 9 → IsEntry (tables f i)
  pub leaves :
      (f : ℕ) (q : List ℕ) (i : ℕ) → place f ≡ some (0, q) → i < 2 ^ 9 → tables f i / 2 ^ 7 % 2 ≡ 0
  pub empty :
      (f l : ℕ) (q : List ℕ) (i : ℕ)
      → place f ≡ some (suc l, q)
      → i < 2 ^ 9
      → tables f i % 2 ≡ 0
      → tables f i / 2 ^ 7 % 2 ≡ 0
  pub below :
      (f l : ℕ) (q : List ℕ) (i : ℕ)
      → place f ≡ some (suc l, q)
      → i < 2 ^ 9
      → tables f i % 2 ≡ 1
      → tables f i / 2 ^ 7 % 2 ≡ 0
      → place (address_part (tables f i)) ≡ some (l, i ∷ q)

-- The frame and the flags of the page of `v`, in the tree below a table.
unfoldable pub look : Tables → ℕ → ℕ → ℕ → Outcome (ℕ × ℕ)
look tables v zero f =
    let w = tables f (index_of v 0) in
    if has_page w then ok (address_part w, flags_part w) else err no_page
look tables v (suc level) f =
    let w = tables f (index_of v (suc level)) in
    let rest = look tables v level (address_part w) in
    if is_large w then err unimplemented else if has_page w then rest else err no_page

pub page_table_index_lem : (v l : ℕ) → l < 4 → page_table_index v l ≡ ok (index_of v l)
unfolding page_table_index
page_table_index_lem v l h = ground arith

pub frame_there :
    (w : ℕ) → IsEntry w → has_page w ≡ true → is_large w ≡ false → frame w ≡ ok (address_part w)
frame_there w e there small = frame_lem w e (ground arith) ∙ rw there refl

child_of_lem :
    (w : ℕ)
    → IsEntry w
    → child_of w
      ≡ ok (if has_page w then (if is_large w then none else some (address_part w)) else none)
unfolding child_of
child_of_lem w e = elim (Bool-cases (has_page w)) [
  | inl there ↦ elim (Bool-cases (is_large w)) [
    | inl large ↦ rw (is_present_lem w e, is_huge_lem w e, there, large) refl
    | inr small ↦
        rw (is_present_lem w e, is_huge_lem w e, frame_there w e there small, there, small) refl
  ]
  | inr gone ↦ rw (is_present_lem w e, is_huge_lem w e, gone) refl
]

-- A walk that ends well: its nodes above the deepest one are present, as `validate` wants it.
pub record Found (tables : Tables) (v level f : ℕ) : Type 0 where
  pub found : PagePath
  pub virt : found.virt ≡ v
  pub deepest :
      look tables v level f ≢ err unimplemented → is_huge (entry_at tables found.deepest) ≡ ok false
  pub walked : walk tables v level f ≡ ok found
  pub above : all_present tables found.above ≡ ok true
  pub last : validate_deepest tables found.level (entry_at tables found.deepest) ≡ ok tt
  pub seen : get tables found >>= read tables ≡ look tables v level f

-- One level more on the way.
below_lem :
    {tables : Tables} (v level f : ℕ)
    → suc level < 4
    → IsEntry (tables f (index_of v (suc level)))
    → has_page (tables f (index_of v (suc level))) ≡ true
    → is_large (tables f (index_of v (suc level))) ≡ false
    → Found tables v level (address_part (tables f (index_of v (suc level))))
    → Found tables v (suc level) f
unfolding walk all_present get look
below_lem {tables} v level f h e there small b =
    let w = tables f (index_of v (suc level)) in
    let present = is_present_lem w e in
    record {
      found = record (b.found) { above = node f (index_of v (suc level)) ∷ b.found.above };
      virt = b.virt;
      deepest = λ k. b.deepest (λ e. k (rw (small, there) e));
      walked =
          rw (page_table_index_lem v (suc level) h, child_of_lem w e, there, small, b.walked) refl;
      above = rw (present, there) b.above;
      last = b.last;
      seen = rw (small, there) b.seen;
    }

module _ (tables : Tables) (place : Place) (tree : IsTree tables place) where
  read_lem :
      (f : ℕ) (q : List ℕ) (i : ℕ)
      → place f ≡ some (0, q)
      → i < 2 ^ 9
      → read tables (node f i) ≡ (
          if has_page (tables f i)
          then ok (address_part (tables f i), flags_part (tables f i))
          else err no_page)
  unfolding read
  read_lem f q i p h =
      let e = tree.entries f 0 q i p h in
      rw (frame_lem (tables f i) e (tree.leaves f q i p h), flags_lem (tables f i) e)
        (elim (Bool-cases (has_page (tables f i))) [ inl b ↦ rw b refl | inr b ↦ rw b refl ])

  pub walk_lem :
      (v level f : ℕ) (q : List ℕ) → place f ≡ some (level, q) → level < 4 → Found tables v level f
  unfolding walk all_present validate_deepest get get_deepest look
  walk_lem v zero f q p h = record {
    found = record { virt = v; above = []; level = 0; deepest = node f (index_of v 0) };
    virt = refl;
    deepest = λ h.
        let w = tables f (index_of v 0) in
        let small = tree.leaves f q (index_of v 0) p (omega arith) in
        is_huge_lem w (tree.entries f 0 q (index_of v 0) p (omega arith)) ∙ rw small refl;
    walked = rw (page_table_index_lem v 0 h) refl;
    above = refl;
    last = refl;
    seen = read_lem f q (index_of v 0) p (omega arith);
  }
  walk_lem v (suc level) f q p h =
      let i = index_of v (suc level) in
      let w = tables f i in
      let s : i < 2 ^ 9 = omega arith in
      let e = tree.entries f (suc level) q i p s in
      let index = page_table_index_lem v (suc level) h in
      let present = is_present_lem w e in
      let huge = is_huge_lem w e in
      let here : PagePath = record {
        virt = v;
        above = [];
        level = suc level;
        deepest = node f i;
      } in
      elim (Bool-cases (has_page w)) [
        | inl there ↦ elim (Bool-cases (is_large w)) [
          | inl large ↦ record {
            found = here;
            virt = refl;
            deepest = λ k. absurd (k (rw large refl));
            walked = rw (index, child_of_lem w e, there, large) refl;
            above = refl;
            last = rw (present, huge, there, large) refl;
            seen = rw (huge, large) refl;
          }
          | inr small ↦ below_lem v level f (omega arith) e there small (
              walk_lem v level (address_part w) (i ∷ q)
                (tree.below f level q i p s (ground arith) (ground arith)) (omega arith))
        ]
        | inr gone ↦
            let none_large : is_large w ≡ false = ground (arith, tree.empty f level q i p s) in
            record {
              found = here;
              virt = refl;
              deepest = λ k. huge ∙ rw none_large refl;
              walked = rw (index, child_of_lem w e, gone) refl;
              above = refl;
              last = rw (present, huge, gone, none_large) refl;
              seen = rw (huge, none_large, gone) refl;
            }
      ]

  -- What `resolve` gives: the frame and the flags that the tree holds for the page.
  pub resolve_lem :
      (v root : ℕ)
      → place root ≡ some (root_level, [])
      → resolve tables root v ≡ look tables v root_level root
  unfolding resolve translate path validate
  resolve_lem v root p =
      let b = walk_lem v root_level root [] p (omega arith) in rw (b.walked, b.above, b.last) b.seen
