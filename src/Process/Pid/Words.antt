-- ===== src/Process/Pid/Words.antt =====
-- Identifiers as words.
use nikka.Common.{
  ℕ, ◌-◌, ◌/◌, ◌%◌, ◌^◌, ◌≤◌, ◌<◌, ◌≡◌, ◌↔◌, ◌≢◌, ◌⊎◌, inl, inr, refl, true, arith, ok, err,
  invalid_argument,
}
use nikka.Process.Pid.{Pid, current, id, max_count, into_usize, from_usize, same}

-- An identifier whose fields fit a `u32` and a `u16`.
abbrev pub Fits : Pid → Type 0
Fits current = Unit
Fits (id epoch slot) = (epoch < 2 ^ 32) × (slot < 2 ^ 16)

pub same_iff : (p q : Pid) → (same p q ≡ true) ↔ (p ≡ q)
same_iff current current = (λ h. refl, λ h. refl)
same_iff current (id e' s') = (λ h. ground arith, λ h. ground arith)
same_iff (id e s) current = (λ h. ground arith, λ h. ground arith)
same_iff (id e s) (id e' s') = (λ h. ground arith, λ h. ground arith)

-- `from_usize` reads every identifier back from its word.
pub from_usize-into_usize : (pid : Pid) → Fits pid → from_usize (into_usize pid) ≡ ok pid
unfolding from_usize into_usize
from_usize-into_usize current f = ground arith
from_usize-into_usize (id epoch slot) f = ground arith

-- `from_usize` of a word is the identifier of that word, if there is one. It fails with
-- `InvalidArgument` exactly for the words from `2 ^ 48` on, all but the word of `Current`.
pub from_usize_lem :
    (word : ℕ)
    → word < 2 ^ 64
    → ((word < 2 ^ 48) ⊎ (word ≡ 2 ^ 64 - 2)
        → (pid : Pid) × (from_usize word ≡ ok pid) × Fits pid × (into_usize pid ≡ word))
      × (2 ^ 48 ≤ word → word ≢ 2 ^ 64 - 2 → from_usize word ≡ err invalid_argument)
unfolding from_usize into_usize
from_usize_lem word h = (
  λ c. elim c [
    | inl low ↦ (
      id (word / max_count) (word % max_count),
      ground arith,
      (omega arith, omega arith),
      ground arith,
    )
    | inr last ↦ (current, ground arith, tt, ground arith)
  ],
  λ p q. ground arith,
)
