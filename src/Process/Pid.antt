-- ===== src/Process/Pid.antt =====
-- ku/src/process/pid.rs: identifiers of processes. `epoch` is a `u32` and `slot` a `u16`.
pub mod Words
use nikka.Common.{
  ℕ, ◌+◌, ◌-◌, ◌*◌, ◌/◌, ◌%◌, ◌^◌, Bool, true, false, ◌&&◌, Option, some, none, ltb, ◌==◌,
  if◌then◌else◌, Outcome, ok, err, panic, invalid_argument, ◌>>=◌,
}

pub data Pid : Type 0 where
  current : Pid
  id : (epoch slot : ℕ) → Pid

abbrev pub epoch_shift : ℕ
epoch_shift = 16

abbrev pub max_count : ℕ
max_count = 2 ^ epoch_shift

pub new : ℕ → Outcome Pid
new slot = if ltb slot (2 ^ 16) then ok (id 0 slot) else panic

-- `epoch << 16 | slot`, in a `usize`, for a slot of 16 bits.
pub into_usize : Pid → ℕ
into_usize current = 2 ^ 64 - 1 - 1
into_usize (id epoch slot) = epoch * max_count % 2 ^ 64 + slot

-- `as u32` and `as u16` keep the low bits.
pub from_usize : ℕ → Outcome Pid
unfolding into_usize
from_usize pid =
    let result = id (pid / max_count % 2 ^ 32) (pid % max_count % 2 ^ 16) in
    if pid == 2 ^ 64 - 1 - 1
    then ok current
    else if into_usize result == pid
    then ok result
    else err invalid_argument

abbrev pub slot : Pid → Outcome ℕ
slot current = panic
slot (id epoch number) = ok number

abbrev pub next_epoch : Pid → Outcome Pid
next_epoch current = panic
next_epoch (id epoch slot) = if ltb (epoch + 1) (2 ^ 32) then ok (id (epoch + 1) slot) else panic

-- The derived `==`.
abbrev pub same : Pid → Pid → Bool
same current current = true
same (id e s) (id e' s') = (e == e') && (s == s')
same _ _ = false
