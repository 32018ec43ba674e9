-- ===== src/Kernel/Mapping/Descent.antt =====
-- The descent of `map` to the table of the leaf.
use nikka.Common.{
  ℕ, zero, suc, ◌≡◌, ◌≢◌, refl, sym, ap, ◌∙◌, true, false, some, none, List, [], ◌∷◌, ◌==◌, arith,
  Bool-cases, inl, inr,
}
use mathlib.Core.Option.{some-injective, none-ne-some}
use nikka.Memory.Mmu.Words.{address_part}
use nikka.Kernel.Mapping.{Tables, write, zeroed}
use nikka.Kernel.Mapping.Tree.{Place, IsTree, index_of, has_page, is_large, look}
use nikka.Kernel.Mapping.Changes.{indexes, look-kept, look-nothing}
use nikka.Kernel.Mapping.Grow.{write-cases}
use nikka.Kernel.Mapping.Entries.{LeadsTo}

-- The way from a table to the table of the leaf.
abbrev pub Leads : Tables → ℕ → ℕ → ℕ → ℕ → Type 0
Leads t v zero f g = f ≡ g
Leads t v (suc l) f g =
    (has_page (t f (index_of v (suc l))) ≡ true)
    × (is_large (t f (index_of v (suc l))) ≡ false)
    × Leads t v l (address_part (t f (index_of v (suc l)))) g

abbrev pub Extends : Place → Place → Type 0
Extends place more = (x : ℕ) (y : ℕ × List ℕ) → place x ≡ some y → more x ≡ some y

indexes-ne-nil : (v k : ℕ) (r : List ℕ) → indexes v k r ≢ []
indexes-ne-nil v zero r h = ground arith
indexes-ne-nil v (suc k) r h = indexes-ne-nil v k (index_of v (suc k) ∷ r) h

-- One entry on the way is written: what is seen stays.
module _ (t : Tables) (place : Place) (f l i w n : ℕ) (q : List ℕ) where
  pub widen-look :
      IsTree t place
      → place f ≡ some (suc l, q)
      → LeadsTo (t f i) n
      → LeadsTo w n
      → (u k g : ℕ) (r : List ℕ) → place g ≡ some (k, r)
      → look (write t f i w) u k g ≡ look t u k g
  widen-look tree at old new u k g r p =
      look-kept t (write t f i w) place tree []
        (λ h m j s ph lt. elim (write-cases t f i w h j) [
          | inl (eh, ej, e) ↦ inl (
              rw (e, eh, ej, new.small, old.small, new.there, old.there, new.leads, old.leads)
                (refl, refl, refl))
          | inr (_, e) ↦ inl (rw e (refl, refl, refl))
        ])
        (λ h j s ph lt ne. elim (write-cases t f i w h j) [
          | inl (eh, ej, e) ↦
              absurd (ground (arith, some-injective _ _ (sym ph ∙ ap place eh ∙ at)))
          | inr (_, e) ↦ e
        ])
        u k g r p (indexes-ne-nil u k r)

  pub ne_of_fresh : (g : ℕ) {y : ℕ × List ℕ} → place n ≡ none → place g ≡ some y → (g == n) ≡ false
  ne_of_fresh g {y} fresh p = elim (Bool-cases (g == n)) [
    | inl e ↦
        let same : n ≡ g = ground arith in absurd (none-ne-some y (sym fresh ∙ ap place same ∙ p))
    | inr e ↦ e
  ]

  pub kept_entry : (h j : ℕ) → (h == n) ≡ false → zeroed t n h j ≡ t h j
  kept_entry h j e = rw e refl

  pub empty_table : (f == n) ≡ false → (j : ℕ) → write (zeroed t n) f i w n j ≡ 0
  empty_table e j = ground arith

  pub link-look :
      IsTree t place
      → place f ≡ some (suc l, q)
      → place n ≡ none
      → has_page (t f i) ≡ false
      → is_large (t f i) ≡ false
      → LeadsTo w n
      → (u k g : ℕ) (r : List ℕ) → place g ≡ some (k, r)
      → look (write (zeroed t n) f i w) u k g ≡ look t u k g
  link-look tree at fresh gone small new u k g r p =
      let s = write (zeroed t n) f i w in
      look-kept t s place tree []
        (λ h m j r' ph lt. elim (write-cases (zeroed t n) f i w h j) [
          | inl (eh, ej, e) ↦ inr (
            rw (eh, ej) small,
            rw (eh, ej) gone,
            rw e new.small,
            λ v.
                rw (e, new.small, new.there, new.leads)
                  (look-nothing s n v m (empty_table (ne_of_fresh f fresh at))),
          )
          | inr (_, e) ↦ inl (rw (e, kept_entry h j (ne_of_fresh h fresh ph)) (refl, refl, refl))
        ])
        (λ h j r' ph lt ne. elim (write-cases (zeroed t n) f i w h j) [
          | inl (eh, ej, e) ↦
              absurd (ground (arith, some-injective _ _ (sym ph ∙ ap place eh ∙ at)))
          | inr (_, e) ↦ e ∙ kept_entry h j (ne_of_fresh h fresh ph)
        ])
        u k g r p (indexes-ne-nil u k r)
