-- ===== src/Kernel/Mapping/Grow.antt =====
-- Writes and new tables keep the tree.
use nikka.Common.{
  ℕ, zero, suc, ◌/◌, ◌%◌, ◌^◌, ◌<◌, ◌≡◌, ◌≢◌, ◌⊎◌, sym, ap, subst, ◌∙◌, some, none, List, ◌∷◌, ◌==◌,
  if◌then◌else◌, arith, Bool-cases, inl, inr,
}
use mathlib.Core.Option.{some-injective, none-ne-some}
use nikka.Memory.Mmu.Words.{IsEntry, address_part}
use nikka.Kernel.Mapping.{Tables, write, zeroed}
use nikka.Kernel.Mapping.Tree.{Place, IsTree}

pub write-cases :
    (t : Tables) (f i w g j : ℕ)
    → ((g ≡ f) × (j ≡ i) × (write t f i w g j ≡ w))
      ⊎ (((g ≢ f) ⊎ (j ≢ i)) × (write t f i w g j ≡ t g j))
write-cases t f i w g j = ground arith

-- What an entry at a level may be: `child` says where the table below stands.
abbrev pub IsGood : Place → ℕ → List ℕ → ℕ → ℕ → Type 0
IsGood place zero q i w = IsEntry w × (w / 2 ^ 7 % 2 ≡ 0)
IsGood place (suc l) q i w =
    IsEntry w
    × (w % 2 ≡ 0 → w / 2 ^ 7 % 2 ≡ 0)
    × (w % 2 ≡ 1 → w / 2 ^ 7 % 2 ≡ 0 → place (address_part w) ≡ some (l, i ∷ q))

AllGood : Tables → Place → Type 0
AllGood t place =
    (g l : ℕ) (r : List ℕ) (j : ℕ) → place g ≡ some (l, r) → j < 2 ^ 9 → IsGood place l r j (t g j)

tree→good : (t : Tables) (place : Place) → IsTree t place → AllGood t place
unfolding AllGood
tree→good t place tree g zero r j p h = (tree.entries g zero r j p h, tree.leaves g r j p h)
tree→good t place tree g (suc l) r j p h =
    (tree.entries g (suc l) r j p h, tree.empty g l r j p h, tree.below g l r j p h)

IsEntry-of_good :
    (t : Tables) (place : Place)
    → AllGood t place
    → (g l : ℕ) (r : List ℕ) (j : ℕ) → place g ≡ some (l, r)
    → j < 2 ^ 9
    → IsEntry (t g j)
unfolding AllGood
IsEntry-of_good t place good g zero r j p h = (good g zero r j p h).0
IsEntry-of_good t place good g (suc l) r j p h = (good g (suc l) r j p h).0

good→tree : (t : Tables) (place : Place) → AllGood t place → IsTree t place
unfolding AllGood
good→tree t place good = record {
  entries = IsEntry-of_good t place good;
  leaves = λ g r j p h. (good g 0 r j p h).1;
  empty = λ g l r j p h. (good g (suc l) r j p h).1;
  below = λ g l r j p h. (good g (suc l) r j p h).2;
}

pub IsTree-write :
    (t : Tables) (place : Place) (f l i w : ℕ) (q : List ℕ)
    → IsTree t place
    → place f ≡ some (l, q)
    → IsGood place l q i w
    → IsTree (write t f i w) place
unfolding AllGood
IsTree-write t place f l i w q tree at good = good→tree (write t f i w) place (λ g k r j p h.
    elim (write-cases t f i w g j) [
      | inl (eg, ej, e) ↦
          let same = some-injective (l, q) (k, r) (sym at ∙ ap place (sym eg) ∙ p) in
          rw (e, ej) (subst (λ lr. IsGood place (lr.0) (lr.1) i w) same good)
      | inr (_, e) ↦ rw e (tree→good t place tree g k r j p h)
    ])

-- A new table, at a place of its own.
abbrev pub placed : Place → ℕ → ℕ → List ℕ → Place
placed place n l q x = if x == n then some (l, q) else place x

empty-IsGood : (place : Place) (l : ℕ) (q : List ℕ) (i : ℕ) → IsGood place l q i 0
empty-IsGood place zero q i = (record { fits = omega arith; known = omega arith }, omega arith)
empty-IsGood place (suc l) q i = (
  record { fits = omega arith; known = omega arith },
  λ h. omega arith,
  λ h. absurd (omega (arith, h)),
)

pub placed-kept :
    (place : Place) (n l x : ℕ) (q : List ℕ) {y : ℕ × List ℕ}
    → place n ≡ none
    → place x ≡ some y
    → placed place n l q x ≡ some y
placed-kept place n l x q {y} fresh p = elim (Bool-cases (x == n)) [
  | inl e ↦
      let same : x ≡ n = ground arith in
      absurd (none-ne-some y (sym fresh ∙ ap place (sym same) ∙ p))
  | inr e ↦ rw e p
]

IsGood-placed :
    (place : Place) (n l : ℕ) (q : List ℕ) (k : ℕ) (r : List ℕ) (j w : ℕ)
    → place n ≡ none
    → IsGood place k r j w
    → IsGood (placed place n l q) k r j w
IsGood-placed place n l q zero r j w fresh good = good
IsGood-placed place n l q (suc k) r j w fresh good =
    (good.0, good.1, λ a b. placed-kept place n l (address_part w) q fresh (good.2 a b))

pub IsTree-zeroed :
    (t : Tables) (place : Place) (n l : ℕ) (q : List ℕ)
    → IsTree t place
    → place n ≡ none
    → IsTree (zeroed t n) (placed place n l q)
unfolding AllGood
IsTree-zeroed t place n l q tree fresh = good→tree (zeroed t n) (placed place n l q) (λ g k r j p h.
    elim (Bool-cases (g == n)) [
      | inl e ↦ rw e (empty-IsGood (placed place n l q) k r j)
      | inr e ↦
          let at : place g ≡ some (k, r) =
            subst (λ b. (if b then some (l, q) else place g) ≡ some (k, r)) e p in
          rw e (IsGood-placed place n l q k r j (t g j) fresh (tree→good t place tree g k r j at h))
    ])
