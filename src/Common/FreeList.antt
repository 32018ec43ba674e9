-- ===== src/Common/FreeList.antt =====
-- Free lists that are linked through the slots of a table. `next` tells of a slot whether it is free,
-- and if so which slot it links to; `same?` decides whether two slots are the same.
use mathlib.Core.Path.{◌≡◌, refl, sym, ap, subst, ◌∙◌}
use mathlib.Core.Bool.{Bool, true, false, ◌||◌}
use mathlib.Core.Logic.{◌↔◌, inl, inr}
use mathlib.Core.List.{List, [], ◌∷◌}
use mathlib.Core.Option.{Option, none, some, some-injective, none-ne-some}
use native.Mathlib.Omega.{arith}
use nikka.Common.Tests.{Bool-cases}

module _ {K : Type 0} (same? : K → K → Bool)
    (same?_iff : (a b : K) → (same? a b ≡ true) ↔ (a ≡ b)) where
  abbrev pub has : K → List K → Bool
  has i [] = false
  has i (j ∷ js) = (same? i j) || has i js

  abbrev pub Distinct : List K → Type 0
  Distinct [] = Unit
  Distinct (i ∷ is) = (has i is ≡ false) × Distinct is

  -- The links lead from `head` through exactly the slots of the list.
  abbrev pub Chain : (K → Option (Option K)) → Option K → List K → Type 0
  Chain next head [] = head ≡ none
  Chain next head (i ∷ is) = (head ≡ some i) × (n : Option K) × (next i ≡ some n) × Chain next n is

  -- The list is that of all free slots, each once, in the order of the links from `head`.
  pub record IsFreeList (next : K → Option (Option K)) (head : Option K) (slots : List K)
      : Type 0 where
    pub chain : Chain next head slots
    pub distinct : Distinct slots
    pub complete : (i : K) (n : Option K) → next i ≡ some n → has i slots ≡ true

  Chain-agree :
      (f g : K → Option (Option K)) (head : Option K) (is : List K)
      → ((j : K) → has j is ≡ true → f j ≡ g j)
      → Chain f head is
      → Chain g head is
  Chain-agree f g head [] same c = c
  Chain-agree f g head (i ∷ is) same c = (
    c.0,
    c.1,
    sym (same i (ground (arith, (same?_iff i i).1 refl))) ∙ c.2,
    Chain-agree f g c.1 is (λ j h. same j (ground arith)) c.3,
  )

  -- A slot that is not on the list differs from those that are.
  off_list :
      (f g : K → Option (Option K)) (i : K) (is : List K)
      → has i is ≡ false
      → ((j : K) → (same? j i) ≡ false → f j ≡ g j)
      → (j : K) → has j is ≡ true
      → f j ≡ g j
  off_list f g i is absent same j h = elim (Bool-cases (same? j i)) [
    | inl e ↦ let at : j ≡ i = (same?_iff j i).0 e in let found : has i is ≡ true = rw at at h in cc
    | inr e ↦ same j e
  ]

  -- A slot that is not free is not on the list.
  not_listed :
      (f : K → Option (Option K)) (head : Option K) (i : K) (is : List K)
      → Chain f head is
      → f i ≡ none
      → has i is ≡ false
  not_listed f head i [] c e = refl
  not_listed f head i (j ∷ js) c e = elim (Bool-cases (same? i j)) [
    | inl h ↦
        let at : i ≡ j = (same?_iff i j).0 h in absurd (none-ne-some c.1 (sym e ∙ ap f at ∙ c.2))
    | inr h ↦ rw h (not_listed f c.1 i js c.3 e)
  ]

  -- The first slot is taken off the list.
  pub IsFreeList-pop :
      (f g : K → Option (Option K)) (i : K) (n : Option K) (is : List K)
      → IsFreeList f (some i) (i ∷ is)
      → f i ≡ some n
      → g i ≡ none
      → ((j : K) → (same? j i) ≡ false → f j ≡ g j)
      → IsFreeList g n is
  IsFreeList-pop f g i n is v at gone same = record {
    chain =
        Chain-agree f g n is (off_list f g i is v.distinct.0 same)
          (subst (λ m. Chain f m is) (some-injective _ _ (sym v.chain.2 ∙ at)) v.chain.3);
    distinct = v.distinct.1;
    complete = λ j m e. elim (Bool-cases (same? j i)) [
      | inl h ↦
          let here : j ≡ i = (same?_iff j i).0 h in
          absurd (none-ne-some m (sym gone ∙ ap g (sym here) ∙ e))
      | inr h ↦ ground (arith, v.complete j m (same j h ∙ e))
    ];
  }

  -- A slot that was not free is put before the list.
  pub IsFreeList-push :
      (f g : K → Option (Option K)) (head : Option K) (i : K) (is : List K)
      → IsFreeList f head is
      → f i ≡ none
      → g i ≡ some head
      → ((j : K) → (same? j i) ≡ false → f j ≡ g j)
      → IsFreeList g (some i) (i ∷ is)
  IsFreeList-push f g head i is v gone at same =
      let absent = not_listed f head i is v.chain gone in
      record {
        chain = (refl, head, at, Chain-agree f g head is (off_list f g i is absent same) v.chain);
        distinct = (absent, v.distinct);
        complete = λ j m e. elim (Bool-cases (same? j i)) [
          | inl h ↦ ground arith
          | inr h ↦ ground (arith, v.complete j m (same j h ∙ e))
        ];
      }

  -- A slot changes that was not free and is not made free.
  pub IsFreeList-agree :
      (f g : K → Option (Option K)) (head : Option K) (i : K) (is : List K)
      → IsFreeList f head is
      → f i ≡ none
      → g i ≡ none
      → ((j : K) → (same? j i) ≡ false → f j ≡ g j)
      → IsFreeList g head is
  IsFreeList-agree f g head i is v gone still same = record {
    chain =
        Chain-agree f g head is (off_list f g i is (not_listed f head i is v.chain gone) same)
          v.chain;
    distinct = v.distinct;
    complete = λ j m e. elim (Bool-cases (same? j i)) [
      | inl h ↦
          let here : j ≡ i = (same?_iff j i).0 h in
          absurd (none-ne-some m (sym still ∙ ap g (sym here) ∙ e))
      | inr h ↦ v.complete j m (same j h ∙ e)
    ];
  }
