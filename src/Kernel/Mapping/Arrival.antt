-- ===== src/Kernel/Mapping/Arrival.antt =====
-- The descent of `map` arrives at the table of the leaf, and no page changes on the way.
use nikka.Common.{
  ℕ, zero, suc, ◌≤◌, ◌<◌, ◌≡◌, ◌≢◌, refl, sym, ap, subst, ◌∙◌, Bool, true, false, ◌||◌, some, none,
  List, ◌∷◌, ◌==◌, if◌then◌else◌, Outcome, ok, err, no_page, unimplemented, arith, Bool-cases,
  Option-cases, inl, inr,
}
use mathlib.Core.Bool.{true≢false}
use mathlib.Core.Option.{some-injective}
use nikka.Memory.Mmu.Words.{IsEntry, IsFlags, IsAligned, address_part, is_present_lem, is_huge_lem}
use nikka.Kernel.Mapping.{Tables, write, zeroed, Frames, Machine, put, allocate_node, descend}
use nikka.Kernel.Mapping.Tree.{
  Place, IsTree, index_of, has_page, is_large, look, page_table_index_lem, frame_there,
}
use nikka.Kernel.Mapping.Changes.{indexes, look-nothing}
use nikka.Kernel.Mapping.Grow.{
  write-cases, IsGood, IsTree-write, IsTree-zeroed, placed, placed-kept,
}
use nikka.Kernel.Mapping.Entries.{LeadsTo, set_frame-LeadsTo, widen-LeadsTo}
use nikka.Kernel.Mapping.Descent.{
  Leads, Extends, widen-look, link-look, ne_of_fresh, kept_entry, empty_table,
}

-- What the frame allocator promises: `room` counts the frames that it can still give, and a frame that
-- it gives was not in use, and is then.
pub record IsAllocator {F : Type 0} (allocator : Frames F) (used : F → ℕ → Bool) (room : F → ℕ)
    : Type 0 where
  pub allocates :
      (s : F)
      → 0 < room s
      → (r : F) × (n : ℕ) × (allocator.allocate s ≡ (r, ok n))
        × IsAligned n
        × (used s n ≡ false)
        × ((x : ℕ) → used r x ≡ (used s x || x == n))
        × (room s ≡ suc (room r))

pub no_page-ne-unimplemented : ◌≢◌ {A = Outcome (ℕ × ℕ)} (err no_page) (err unimplemented)
no_page-ne-unimplemented h = ground arith

pub write_self : (t : Tables) (f i w : ℕ) → write t f i w f i ≡ w
write_self t f i w = ground arith

or_true : (b : Bool) → (b || true) ≡ true
or_true true = refl
or_true false = refl

module _ {F : Type 0} (allocator : Frames F) (used : F → ℕ → Bool) (room : F → ℕ)
    (law : IsAllocator allocator used room) where
  -- The tables form a tree, in frames that are in use.
  pub record IsMapping (m : Machine F) (place : Place) : Type 0 where
    pub tree : IsTree m.tables place
    pub in_use : (x : ℕ) (y : ℕ × List ℕ) → place x ≡ some y → used m.frames x ≡ true

  pub record Arrival (v bits l : ℕ) (m : Machine F) (f : ℕ) (place : Place) (q : List ℕ)
      : Type 0 where
    pub after : Machine F
    pub table : ℕ
    pub more : Place
    pub path : List ℕ
    pub arrived : descend allocator v bits l m f ≡ (after, ok table)
    pub mapping : IsMapping after more
    pub extends : Extends place more
    pub at_leaf : more table ≡ some (0, path)
    pub target : indexes v l q ≡ index_of v 0 ∷ path
    pub leads : Leads after.tables v l f table
    pub kept :
        (u k g : ℕ) (r : List ℕ)
        → place g ≡ some (k, r)
        → look after.tables u k g ≡ look m.tables u k g
    pub higher :
        (g k j : ℕ) (r : List ℕ) → place g ≡ some (k, r) → l < k → after.tables g j ≡ m.tables g j
    pub still_used : (x : ℕ) → used m.frames x ≡ true → used after.frames x ≡ true

  stays :
      (v bits : ℕ) (m : Machine F) (f : ℕ) (place : Place) (q : List ℕ)
      → IsMapping m place
      → place f ≡ some (0, q)
      → Arrival v bits 0 m f place q
  unfolding descend
  stays v bits m f place q mapping at = record {
    after = m;
    table = f;
    more = place;
    path = q;
    arrived = refl;
    mapping = mapping;
    extends = λ x y e. e;
    at_leaf = at;
    target = refl;
    leads = refl;
    kept = λ u k g r p. refl;
    higher = λ g k j r p h. refl;
    still_used = λ x h. h;
  }

  -- An entry on the way is written, and the descent goes on from the table that it leads to.
  goes_on :
      (v bits l : ℕ) (m : Machine F) (f n w : ℕ) (place : Place) (q : List ℕ) (m2 : Machine F)
      (place2 : Place)
      → place f ≡ some (suc l, q)
      → LeadsTo w n
      → descend allocator v bits (suc l) m f ≡ descend allocator v bits l m2 n
      → m2.tables f (index_of v (suc l)) ≡ w
      → Extends place place2
      → ((u k g : ℕ) (r : List ℕ)
          → place g ≡ some (k, r)
          → look m2.tables u k g ≡ look m.tables u k g)
      → ((g k j : ℕ) (r : List ℕ)
          → place g ≡ some (k, r)
          → suc l < k
          → m2.tables g j ≡ m.tables g j)
      → ((x : ℕ) → used m.frames x ≡ true → used m2.frames x ≡ true)
      → Arrival v bits l m2 n place2 (index_of v (suc l) ∷ q)
      → Arrival v bits (suc l) m f place q
  goes_on v bits l m f n w place q m2 place2 at way step here ext look2 high used2 rest =
      let same = rest.higher f (suc l) (index_of v (suc l)) q (ext f _ at) (omega arith) ∙ here in
      record {
        after = rest.after;
        table = rest.table;
        more = rest.more;
        path = rest.path;
        arrived = step ∙ rest.arrived;
        mapping = rest.mapping;
        extends = λ x y e. rest.extends x y (ext x y e);
        at_leaf = rest.at_leaf;
        target = rest.target;
        leads = rw (same, way.there, way.small, way.leads) (refl, refl, rest.leads);
        kept = λ u k g r p. rest.kept u k g r (ext g (k, r) p) ∙ look2 u k g r p;
        higher =
            λ g k j r p h. rest.higher g k j r (ext g (k, r) p) (omega arith) ∙ high g k j r p h;
        still_used = λ x h. rest.still_used x (used2 x h);
      }

  above_write :
      (t : Tables) (place : Place) (f l i w : ℕ) (q : List ℕ)
      → place f ≡ some (suc l, q)
      → (g k j : ℕ) (r : List ℕ) → place g ≡ some (k, r)
      → suc l < k
      → write t f i w g j ≡ t g j
  above_write t place f l i w q at g k j r p h = elim (write-cases t f i w g j) [
    | inl (e, _, _) ↦ absurd (ground (arith, some-injective _ _ (sym p ∙ ap place e ∙ at)))
    | inr (_, e) ↦ e
  ]

  unplaced :
      (place : Place) (m : Machine F)
      → IsMapping m place
      → (n : ℕ) → used m.frames n ≡ false
      → place n ≡ none
  unplaced place m mapping n unused = elim (Option-cases (place n)) [
    | inl e ↦ e
    | inr (y, e) ↦ absurd (true≢false (sym (mapping.in_use n y e) ∙ unused))
  ]

  placed_self : (place : Place) (n l : ℕ) (q : List ℕ) → placed place n l q n ≡ some (l, q)
  placed_self place n l q = let e : (n == n) ≡ true = ground arith in rw e refl

  placed_in_use :
      (place : Place) (m : Machine F) (r : F) (n l : ℕ) (q : List ℕ)
      → IsMapping m place
      → ((x : ℕ) → used r x ≡ (used m.frames x || x == n))
      → (x : ℕ) (y : ℕ × List ℕ) → placed place n l q x ≡ some y
      → used r x ≡ true
  placed_in_use place m r n l q mapping used_r x y p = elim (Bool-cases (x == n)) [
    | inl e ↦ used_r x ∙ rw e (or_true (used m.frames x))
    | inr e ↦
        let before : place x ≡ some y =
          subst (λ b. (if b then some (l, q) else place x) ≡ some y) e p in
        used_r x ∙ rw (mapping.in_use x y before) refl
  ]

  module _ (v bits l : ℕ) (m : Machine F) (f : ℕ) (place : Place) (q : List ℕ)
      (mapping : IsMapping m place) (at : place f ≡ some (suc l, q)) (h : suc l < 4)
      (v_bits : IsFlags bits) where
    i : ℕ
    i = index_of v (suc l)

    old : ℕ
    old = m.tables f (index_of v (suc l))

    valid : IsEntry old
    unfolding old
    valid = mapping.tree.entries f (suc l) q (index_of v (suc l)) at (omega arith)

    IsGood-way :
        (p : Place) (w n : ℕ)
        → LeadsTo w n
        → p n ≡ some (l, index_of v (suc l) ∷ q)
        → IsGood p (suc l) q (index_of v (suc l)) w
    IsGood-way p w n way e =
        (way.entry, λ k. absurd (ground (arith, way.there)), λ a b. ap p way.leads ∙ e)

    descends :
        has_page old ≡ true
        → is_large old ≡ false
        → ((m2 : Machine F)
            → IsMapping m2 place
            → m2.frames ≡ m.frames
            → look m2.tables v l (address_part old) ≡ look m.tables v l (address_part old)
            → Arrival v bits l m2 (address_part old) place (index_of v (suc l) ∷ q))
        → Arrival v bits (suc l) m f place q
    unfolding descend old
    descends there small rest =
        let c = address_part old in
        let on_way : LeadsTo old c = record {
          entry = valid;
          there = there;
          small = small;
          leads = refl;
        } in
        let below : place c ≡ some (l, index_of v (suc l) ∷ q) =
          mapping.tree.below f l q (index_of v (suc l)) at (omega arith) (ground (arith, there))
            (ground (arith, small)) in
        let (w, e, way) = widen-LeadsTo old c bits on_way v_bits in
        let m2 = put allocator m f (index_of v (suc l)) w in
        let look2 =
          widen-look m.tables place f l (index_of v (suc l)) w c q mapping.tree at on_way way in
        goes_on v bits l m f c w place q m2 place at way
          (rw
            (
              page_table_index_lem v (suc l) h,
              is_present_lem old valid,
              is_huge_lem old valid,
              there,
              small,
              frame_there old valid there small,
              e,
            )
            refl)
          (write_self m.tables f (index_of v (suc l)) w) (λ x y p. p) look2
          (above_write m.tables place f l (index_of v (suc l)) w q at) (λ x u. u)
          (rest m2
            (record {
              tree =
                  IsTree-write m.tables place f (suc l) (index_of v (suc l)) w q mapping.tree at
                    (IsGood-way place w c way below);
              in_use = mapping.in_use;
            })
            refl (look2 v l c (index_of v (suc l) ∷ q) below))

    opens :
        has_page old ≡ false
        → is_large old ≡ false
        → 0 < room m.frames
        → ((m2 : Machine F) (n : ℕ) (place2 : Place)
            → IsMapping m2 place2
            → place2 n ≡ some (l, index_of v (suc l) ∷ q)
            → room m.frames ≡ suc (room m2.frames)
            → ((j : ℕ) → m2.tables n j ≡ 0)
            → Arrival v bits l m2 n place2 (index_of v (suc l) ∷ q))
        → Arrival v bits (suc l) m f place q
    unfolding descend old allocate_node
    opens gone small has_room rest =
        let (r, n, a, aligned, unused, used_r, room_r) = law.allocates m.frames has_room in
        let fresh : place n ≡ none = unplaced place m mapping n unused in
        let (w, e, way) = set_frame-LeadsTo n bits aligned v_bits in
        let place2 = placed place n l (index_of v (suc l) ∷ q) in
        let m1 : Machine F = record { tables = zeroed m.tables n; frames = r } in
        let m2 = put allocator m1 f (index_of v (suc l)) w in
        let there : place2 n ≡ some (l, index_of v (suc l) ∷ q) =
          placed_self place n l (index_of v (suc l) ∷ q) in
        goes_on v bits l m f n w place q m2 place2 at way
          (rw
            (
              page_table_index_lem v (suc l) h,
              is_present_lem old valid,
              is_huge_lem old valid,
              gone,
              a,
              e,
            )
            refl)
          (write_self (zeroed m.tables n) f (index_of v (suc l)) w)
          (λ x y p. placed-kept place n l x (index_of v (suc l) ∷ q) fresh p)
          (link-look m.tables place f l (index_of v (suc l)) w n q mapping.tree at fresh gone small
            way)
          (λ g k j s p k_high.
            above_write (zeroed m.tables n) place f l (index_of v (suc l)) w q at g k j s p k_high
            ∙ kept_entry m.tables place f l (index_of v (suc l)) w n q g j
                (ne_of_fresh m.tables place f l (index_of v (suc l)) w n q g fresh p))
          (λ x u. used_r x ∙ rw u refl)
          (rest m2 n place2
            (record {
              tree =
                  IsTree-write (zeroed m.tables n) place2 f (suc l) (index_of v (suc l)) w q
                    (IsTree-zeroed m.tables place n l (index_of v (suc l) ∷ q) mapping.tree fresh)
                    (placed-kept place n l f (index_of v (suc l) ∷ q) fresh at)
                    (IsGood-way place2 w n way there);
              in_use = placed_in_use place m r n l (index_of v (suc l) ∷ q) mapping used_r;
            })
            there room_r
            (λ j.
              empty_table m.tables place f l (index_of v (suc l)) w n q
                (ne_of_fresh m.tables place f l (index_of v (suc l)) w n q f fresh at) j))

  -- The descent arrives if no large page stands on the way and there is room for the new tables.
  pub arrives :
      (v bits : ℕ)
      → IsFlags bits
      → (l : ℕ) (m : Machine F) (f : ℕ) (place : Place) (q : List ℕ) → IsMapping m place
      → place f ≡ some (l, q)
      → l < 4
      → l ≤ room m.frames
      → look m.tables v l f ≢ err unimplemented
      → Arrival v bits l m f place q
  unfolding old look
  arrives v bits b zero m f place q mapping at h k large = stays v bits m f place q mapping at
  arrives v bits b (suc l) m f place q mapping at h k large =
      let j = index_of v (suc l) in
      let w = m.tables f j in
      elim (Bool-cases (has_page w)) [
        | inl there ↦ elim (Bool-cases (is_large w)) [
          | inl e ↦ absurd (large (rw e refl))
          | inr small ↦
              let below : place (address_part w) ≡ some (l, j ∷ q) =
                mapping.tree.below f l q j at (omega arith) (ground arith) (ground arith) in
              descends v bits l m f place q mapping at h b there small (λ m2 mapping2 same look2.
                arrives v bits b l m2 (address_part w) place (j ∷ q) mapping2 below (omega arith)
                  (rw (ap room same) (omega arith))
                  (λ e. large (rw (small, there) (sym look2 ∙ e))))
        ]
        | inr gone ↦
            let small : is_large w ≡ false = ground (arith, mapping.tree.empty f l q j at) in
            opens v bits l m f place q mapping at h b gone small (omega arith)
              (λ m2 n place2 mapping2 there2 less zeros.
                arrives v bits b l m2 n place2 (j ∷ q) mapping2 there2 (omega arith) (omega arith)
                  (λ e. no_page-ne-unimplemented (sym (look-nothing m2.tables n v l zeros) ∙ e)))
      ]
