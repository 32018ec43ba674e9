-- ===== src/Heap/Quarry/Counts.antt =====
-- Calls that return a count of pages, one after another.
use nikka.Common.{ℕ, ◌+◌, ◌≡◌, sym, ◌∙◌, ap, arith, ok}
use nikka.Common.Effects.{M, continue, ◌>>=◌, return, continue-ext, continue_assoc, continue-return}

-- One count of pages after another.
abbrev pub plus : {A : Type 0} → M A ℕ → M A ℕ → M A ℕ
plus p r = p >>= λ n. r >>= λ m. return (n + m)

pub plus-ext :
    {A : Type 0} (p r t : M A ℕ) (a : A) → ((s : A) → r s ≡ t s) → plus p r a ≡ plus p t a
plus-ext p r t a h =
    continue-ext (p a) (λ n. r >>= λ m. return (n + m)) (λ n. t >>= λ m. return (n + m))
      (λ n s. ap (λ o. continue o (λ m. return (n + m))) (h s))

pub zero-plus : {A : Type 0} (r : M A ℕ) (a : A) → plus (return 0) r a ≡ r a
zero-plus r a =
    continue-ext (r a) (λ m. return (0 + m)) (λ m. return m)
      (λ m s. ap (λ o. (s, ok o)) (omega arith))
    ∙ continue-return (r a)

pub skip-plus : {A : Type 0} (p r : M A ℕ) (a : A) → p a ≡ (a, ok 0) → plus p r a ≡ r a
skip-plus p r a h = ap (λ o. continue o (λ n. r >>= λ m. return (n + m))) h ∙ zero-plus r a

pub plus-zero : {A : Type 0} (r : M A ℕ) (a : A) → plus r (return 0) a ≡ r a
plus-zero r a =
    continue-ext (r a) (λ n. return (n + 0)) (λ n. return n)
      (λ n s. ap (λ o. (s, ok o)) (omega arith))
    ∙ continue-return (r a)

-- Two counts, and what is made of their sum.
pub plus_then :
    {A X : Type 0} (p r : M A ℕ) (f : ℕ → M A X) (a : A)
    → continue (plus p r a) f ≡ continue (p a) (λ n s. continue (r s) (λ m. f (n + m)))
plus_then p r f a =
    continue_assoc (p a) (λ n. r >>= λ m. return (n + m)) f
    ∙ continue-ext (p a) _ _ (λ n s. continue_assoc (r s) (λ m. return (n + m)) f)

pub plus_assoc : {A : Type 0} (p r t : M A ℕ) (a : A) → plus (plus p r) t a ≡ plus p (plus r t) a
plus_assoc p r t a =
    plus_then p r (λ n. t >>= λ m. return (n + m)) a
    ∙ continue-ext (p a) _ _ (λ n s.
      continue-ext (r s) _ _ (λ m u.
        continue-ext (t u) (λ k. return (n + m + k)) (λ k. return (n + (m + k)))
          (λ k v. ap (λ o. (v, ok o)) (omega arith)))
      ∙ sym (plus_then r t (λ m. return (n + m)) s))
