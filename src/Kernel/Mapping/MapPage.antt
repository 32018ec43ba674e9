-- ===== src/Kernel/Mapping/MapPage.antt =====
-- A page is mapped: it is found then, and no other page changes.
use Prim.Native.Nat.{bit_or}
use nikka.Common.{
  ℕ, zero, suc, ◌/◌, ◌%◌, ◌^◌, ◌≤◌, ◌≡◌, ◌≢◌, refl, sym, ap, ◌∙◌, Bool, true, false, some, none,
  List, [], ◌∷◌, ok, err, no_page, unimplemented, arith, inl, inr,
}
use mathlib.Core.Option.{some-injective}
use nikka.Common.Words.{bit_or-one}
use nikka.Memory.Mmu.{present, is_huge}
use nikka.Memory.Mmu.Words.{IsEntry, IsFlags, IsAligned, address_part, stored}
use nikka.Memory.Mmu.Entry.{
  stored-IsEntry, stored-flags, stored-address, set_frame-stored, with_present,
  with_present-IsFlags, take_lem,
}
use nikka.Kernel.Mapping.{
  Tables, write, Frames, Machine, PagePath, path, descend, map, map_leaf, map_page, drop_old,
  resolve, root_level, validate, entry_at,
}
use nikka.Kernel.Mapping.Tree.{
  Place, IsTree, index_of, has_page, look, page_table_index_lem, walk_lem, resolve_lem, Found,
}
use nikka.Kernel.Mapping.Changes.{indexes, look-kept}
use nikka.Kernel.Mapping.Grow.{write-cases, IsTree-write}
use nikka.Kernel.Mapping.Descent.{Leads}
use nikka.Kernel.Mapping.Arrival.{
  IsAllocator, IsMapping, Arrival, arrives, write_self, no_page-ne-unimplemented,
}

look-Leads : (t : Tables) (v l f g : ℕ) → Leads t v l f g → look t v l f ≡ look t v 0 g
unfolding look
look-Leads t v zero f g e = ap (look t v 0) e
look-Leads t v (suc l) f g (there, small, rest) =
    rw (small, there) (look-Leads t v l (address_part (t f (index_of v (suc l)))) g rest)

-- The entry of a leaf is written.
module _ (t : Tables) (place : Place) (g i w : ℕ) (q : List ℕ) (tree : IsTree t place)
    (at : place g ≡ some (0, q)) where
  way_kept : (h m j : ℕ) (r : List ℕ) → place h ≡ some (suc m, r) → write t g i w h j ≡ t h j
  way_kept h m j r p = elim (write-cases t g i w h j) [
    | inl (e, _, _) ↦ absurd (ground (arith, some-injective _ _ (sym p ∙ ap place e ∙ at)))
    | inr (_, e) ↦ e
  ]

  leaf_kept :
      (h j : ℕ) (r : List ℕ) → place h ≡ some (0, r) → j ∷ r ≢ i ∷ q → write t g i w h j ≡ t h j
  leaf_kept h j r p ne = elim (write-cases t g i w h j) [
    | inl (e, d, _) ↦
        let same = some-injective _ _ (sym p ∙ ap place e ∙ at) in
        absurd (ne (rw d (ap (λ lr. i ∷ lr.1) same)))
    | inr (_, e) ↦ e
  ]

  Leads-write :
      (v l f h : ℕ) (r : List ℕ)
      → place f ≡ some (l, r)
      → Leads t v l f h
      → Leads (write t g i w) v l f h
  Leads-write v zero f h r p e = e
  Leads-write v (suc l) f h r p (there, small, rest) =
      let j = index_of v (suc l) in
      let below =
        tree.below f l r j p (omega arith) (ground (arith, there)) (ground (arith, small)) in
      let rest' = Leads-write v l (address_part (t f j)) h (j ∷ r) below rest in
      rw (way_kept f l j r p) (there, small, rest')

  others_kept :
      (u k h : ℕ) (r : List ℕ)
      → place h ≡ some (k, r)
      → indexes u k r ≢ i ∷ q
      → look (write t g i w) u k h ≡ look t u k h
  others_kept =
      look-kept t (write t g i w) place tree (i ∷ q)
        (λ h m j r p lt. inl (rw (way_kept h m j r p) (refl, refl, refl)))
        (λ h j r p lt ne. leaf_kept h j r p ne)

-- What `set_frame` leaves in the entry of the leaf.
module _ (new bits : ℕ) (aligned : IsAligned new) (flags : IsFlags bits)
    (usual : bits / 2 ^ 7 % 2 ≡ 0) where
  leaf : ℕ
  leaf = stored new (with_present bits)

  leaf-IsEntry : IsEntry leaf
  unfolding leaf
  leaf-IsEntry = stored-IsEntry new (with_present bits) aligned (with_present-IsFlags bits flags)

  leaf_small : leaf / 2 ^ 7 % 2 ≡ 0
  unfolding leaf
  leaf_small = omega arith

  leaf_there : has_page leaf ≡ true
  unfolding leaf
  leaf_there = let e : stored new (with_present bits) % 2 ≡ 1 = omega arith in rw e refl

  leaf_look :
      (t : Tables) (v g : ℕ)
      → t g (index_of v 0) ≡ leaf
      → look t v 0 g ≡ ok (new, bit_or bits present)
  unfolding look leaf
  leaf_look t v g e =
      rw
        (
          e,
          leaf_there,
          stored-address new (with_present bits) aligned (with_present-IsFlags bits flags),
          stored-flags new (with_present bits) aligned (with_present-IsFlags bits flags),
          bit_or-one bits,
        )
        refl

  module _ {F : Type 0} (allocator : Frames F) (v : ℕ) (m : Machine F) (g : ℕ) (place : Place)
      (q : List ℕ) (tree : IsTree m.tables place) (at : place g ≡ some (0, q)) where
    map_leaf_lem :
        look m.tables v 0 g ≡ err no_page
        → map_leaf allocator v bits new m g
          ≡ (record m { tables = write m.tables g (index_of v 0) leaf }, ok none)
    unfolding map_leaf look leaf
    map_leaf_lem gone =
        let w = m.tables g (index_of v 0) in
        let empty : has_page w ≡ false = ground arith in
        let entry = tree.entries g 0 q (index_of v 0) at (omega arith) in
        let small = tree.leaves g q (index_of v 0) at (omega arith) in
        rw
          (
            page_table_index_lem v 0 (omega arith),
            take_lem w entry small,
            empty,
            set_frame-stored new bits aligned flags usual,
          )
          refl

module _ (t : Tables) (place : Place) (tree : IsTree t place) (root v : ℕ)
    (at : place root ≡ some (root_level, [])) where
  walked : Found t v root_level root
  walked = walk_lem t place tree v root_level root [] at (omega arith)

  path_lem : path t root v ≡ ok walked.found
  unfolding path validate
  path_lem = rw (walked.walked, walked.above, walked.last) refl

-- The steps of `map` after each other.
map_steps :
    {F : Type 0} (allocator : Frames F) (m middle : Machine F) (root v new bits table : ℕ)
    (here : PagePath) (leaf_value : ℕ) (there : PagePath)
    → path m.tables root v ≡ ok here
    → here.virt ≡ v
    → is_huge (entry_at m.tables here.deepest) ≡ ok false
    → descend allocator v bits root_level m root ≡ (middle, ok table)
    → map_leaf allocator v bits new middle table
      ≡ (record middle { tables = write middle.tables table (index_of v 0) leaf_value }, ok none)
    → path (write middle.tables table (index_of v 0) leaf_value) root v ≡ ok there
    → map_page allocator m root v new bits
      ≡ (record middle { tables = write middle.tables table (index_of v 0) leaf_value }, ok there)
unfolding map_page map drop_old
map_steps allocator m middle root v new bits table here leaf_value there p e h d l q =
    rw (p, h, e, d, l, q) refl

mapped :
    {F : Type 0} (allocator : Frames F) (used : F → ℕ → Bool) (room : F → ℕ)
    → (law : IsAllocator allocator used room)
    → (m : Machine F) (place : Place) (root v new bits : ℕ)
    → IsMapping allocator used room law m place
    → place root ≡ some (root_level, [])
    → IsAligned new
    → IsFlags bits
    → bits / 2 ^ 7 % 2 ≡ 0
    → look m.tables v root_level root ≡ err no_page
    → (here : Found m.tables v root_level root)
    → is_huge (entry_at m.tables here.found.deepest) ≡ ok false
    → path m.tables root v ≡ ok here.found
    → Arrival allocator used room law v bits root_level m root place []
    → (after : Machine F) × (found : PagePath) × (more : Place) × (map_page allocator m root v new
          bits
        ≡ (after, ok found))
      × IsMapping allocator used room law after more
      × (more root ≡ some (root_level, []))
      × (resolve after.tables root v ≡ ok (new, bit_or bits present))
      × ((u : ℕ)
          → indexes u root_level [] ≢ indexes v root_level []
          → resolve after.tables root u ≡ resolve m.tables root u)
mapped allocator used room law m place root v new bits mapping at aligned flags usual nothing here
      small found a =
    let t = a.after.tables in
    let g = a.table in
    let value = leaf new bits aligned flags usual in
    let s = write t g (index_of v 0) value in
    let top = a.extends root (root_level, []) at in
    let empty : look t v 0 g ≡ err no_page =
      sym (look-Leads t v root_level root g a.leads) ∙ a.kept v root_level root [] at ∙ nothing in
    let tree =
      IsTree-write t a.more g 0 (index_of v 0) value a.path a.mapping.tree a.at_leaf
        (leaf-IsEntry new bits aligned flags usual, leaf_small new bits aligned flags usual) in
    let leads =
      Leads-write t a.more g (index_of v 0) value a.path a.mapping.tree a.at_leaf v root_level root
        g [] top a.leads in
    let self : s g (index_of v 0) ≡ value = write_self t g (index_of v 0) value in
    let there = walked s a.more tree root v top in
    (
      record (a.after) { tables = s },
      there.found,
      a.more,
      map_steps allocator m a.after root v new bits g here.found value there.found found here.virt
          small a.arrived
          (map_leaf_lem new bits aligned flags usual allocator v a.after g a.more a.path
            a.mapping.tree a.at_leaf empty)
          (path_lem s a.more tree root v top),
      record { tree = tree; in_use = a.mapping.in_use },
      top,
      resolve_lem s a.more tree v root top
          ∙ look-Leads s v root_level root g leads
          ∙ leaf_look new bits aligned flags usual s v g self,
      λ u ne.
          resolve_lem s a.more tree u root top
          ∙ others_kept t a.more g (index_of v 0) value a.path a.mapping.tree a.at_leaf u root_level
              root [] top (λ e. ne (e ∙ sym a.target))
          ∙ a.kept u root_level root [] at
          ∙ sym (resolve_lem m.tables place mapping.tree u root at),
    )

-- For a tree of tables in frames that the allocator has given, room for three more, flags without
-- `HUGE` and a page that is not mapped: `map` succeeds and keeps such a tree. Then the page leads to
-- the frame with the flags and `PRESENT`, and every other page to what it led to before.
pub map_page_lem :
    {F : Type 0} (allocator : Frames F) (used : F → ℕ → Bool) (room : F → ℕ)
    → (law : IsAllocator allocator used room)
    → (m : Machine F) (place : Place) (root v new bits : ℕ)
    → IsMapping allocator used room law m place
    → place root ≡ some (root_level, [])
    → root_level ≤ room m.frames
    → IsAligned new
    → IsFlags bits
    → bits / 2 ^ 7 % 2 ≡ 0
    → resolve m.tables root v ≡ err no_page
    → (after : Machine F) × (found : PagePath) × (more : Place) × (map_page allocator m root v new
          bits
        ≡ (after, ok found))
      × IsMapping allocator used room law after more
      × (more root ≡ some (root_level, []))
      × (resolve after.tables root v ≡ ok (new, bit_or bits present))
      × ((u : ℕ)
          → indexes u root_level [] ≢ indexes v root_level []
          → resolve after.tables root u ≡ resolve m.tables root u)
map_page_lem allocator used room law m place root v new bits mapping at has_room aligned flags usual
      gone =
    let nothing : look m.tables v root_level root ≡ err no_page =
      sym (resolve_lem m.tables place mapping.tree v root at) ∙ gone in
    let not_large : look m.tables v root_level root ≢ err unimplemented =
      λ e. no_page-ne-unimplemented (sym nothing ∙ e) in
    mapped allocator used room law m place root v new bits mapping at aligned flags usual nothing
      (walked m.tables place mapping.tree root v at)
      ((walked m.tables place mapping.tree root v at).deepest not_large)
      (path_lem m.tables place mapping.tree root v at)
      (arrives allocator used room law v bits flags root_level m root place [] mapping at
        (omega arith) has_room not_large)
