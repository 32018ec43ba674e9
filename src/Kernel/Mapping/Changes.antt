-- ===== src/Kernel/Mapping/Changes.antt =====
-- What a change of the tables does to the pages that are found through them.
use nikka.Common.{
  ℕ, zero, suc, ◌^◌, ◌<◌, ◌≡◌, ◌≢◌, ◌⊎◌, refl, false, some, List, ◌∷◌, if◌then◌else◌, Outcome, err,
  no_page, unimplemented, arith, Bool-cases, inl, inr,
}
use nikka.Memory.Mmu.Words.{address_part}
use nikka.Kernel.Mapping.{Tables}
use nikka.Kernel.Mapping.Tree.{Place, IsTree, index_of, has_page, is_large, look}

-- The indexes of an address down to the leaf, behind those that lead to a table.
abbrev pub indexes : ℕ → ℕ → List ℕ → List ℕ
indexes v zero r = index_of v 0 ∷ r
indexes v (suc k) r = indexes v k (index_of v (suc k) ∷ r)

-- What is seen through an entry on the way.
abbrev pub through : ℕ → Outcome (ℕ × ℕ) → Outcome (ℕ × ℕ)
through w rest = if is_large w then err unimplemented else if has_page w then rest else err no_page

-- Two entries that lead to the same.
abbrev pub Same : ℕ → ℕ → Type 0
Same w x = (is_large x ≡ is_large w) × (has_page x ≡ has_page w) × (address_part x ≡ address_part w)

-- An empty entry, and one that leads to tables with no page.
abbrev pub Opened : Tables → ℕ → ℕ → ℕ → Type 0
Opened s k w x =
    (is_large w ≡ false)
    × (has_page w ≡ false)
    × (is_large x ≡ false)
    × ((v : ℕ) → through x (look s v k (address_part x)) ≡ err no_page)

module _ (t s : Tables) (place : Place) (tree : IsTree t place) (target : List ℕ)
    (way : (g k j : ℕ) (r : List ℕ)
      → place g ≡ some (suc k, r)
      → j < 2 ^ 9
      → Same (t g j) (s g j) ⊎ Opened s k (t g j) (s g j))
    (leaf : (g j : ℕ) (r : List ℕ)
      → place g ≡ some (0, r)
      → j < 2 ^ 9
      → j ∷ r ≢ target
      → s g j ≡ t g j) where
  pub look-kept :
      (v k g : ℕ) (r : List ℕ)
      → place g ≡ some (k, r)
      → indexes v k r ≢ target
      → look s v k g ≡ look t v k g
  unfolding look
  look-kept v zero g r p h = rw (leaf g (index_of v 0) r p (omega arith) h) refl
  look-kept v (suc k) g r p h =
      let j = index_of v (suc k) in
      let w = t g j in
      let small : j < 2 ^ 9 = omega arith in
      elim (way g k j r p small) [
        | inl (large, page, address) ↦ elim (Bool-cases (is_large w)) [
          | inl b ↦ rw (large, b) refl
          | inr b ↦ elim (Bool-cases (has_page w)) [
            | inl c ↦
                rw (large, b, page, c, address)
                  (look-kept v k (address_part w) (j ∷ r)
                    (tree.below g k r j p small (ground arith) (ground arith)) h)
            | inr c ↦ rw (large, b, page, c) refl
          ]
        ]
        | inr (large, page, _, nothing) ↦ rw (large, page) (nothing v)
      ]

-- A table of zeros shows no page.
pub look-nothing : (t : Tables) (n v k : ℕ) → ((j : ℕ) → t n j ≡ 0) → look t v k n ≡ err no_page
unfolding look
look-nothing t n v zero h = rw (h (index_of v 0)) refl
look-nothing t n v (suc k) h = rw (h (index_of v (suc k))) refl
