-- ===== src/Process/Table/Stale.antt =====
-- Identifiers of processes that were freed, over any later calls.
use nikka.Common.{
  ℕ, ◌+◌, ◌^◌, ◌≤◌, ◌<◌, ◌≡◌, ◌≢◌, ◌⊎◌, inl, inr, refl, sym, ◌∙◌, ap, subst, false, Option, some,
  none, List, [], ◌∷◌, arith, ◌==◌, Bool-cases, ok, err, no_process, get_elem?, set,
  get_elem?-set_self, get_elem?-set_ne, lt_of_get_elem?,
}
use mathlib.Core.Option.{some-injective}
use native.Mathlib.Decide.{dec_lt}
use native.Mathlib.Nat.{le_refl}
use nikka.Process.Pid.{Pid, current, id, same}
use nikka.Process.Pid.Words.{same_iff}
use nikka.Process.Table.{Process, Slot, free, used, Table, allocate, free_pid, get_process, get}
use nikka.Process.Table.Slots.{IsValid, pid_of}
use nikka.Process.Table.Calls.{allocate-get, free_lem, found}

abbrev epoch_of : Pid → ℕ
epoch_of current = 0
epoch_of (id epoch slot) = epoch

module _ {A : Type 0} where
  -- A call that changes the table.
  pub data Step : Table A → Table A → Type 0 where
    allocated : (self : Table A) (process : Process A) → Step self (allocate self process).0
    freed : (self : Table A) (pid : Pid) → Step self (free_pid self pid).0

  pub data Steps (first : Table A) : Table A → Type 0 where
    start : Steps first first
    next : {self later : Table A} → Steps first self → Step self later → Steps first later

  -- The slot `s` has come to an epoch after `e`.
  abbrev Later : ℕ → ℕ → Table A → Type 0
  Later e s self =
      (slot : Slot A) × (get_elem? self.table s ≡ some slot)
      × (d : ℕ) × (pid_of slot ≡ id d s)
      × (e < d)

  get_cases :
      (pid : Pid) (o : Option (Slot A))
      → ((process : Process A) × (get_process pid o ≡ ok process))
        ⊎ (get_process pid o ≡ err no_process)
  unfolding get_process
  get_cases pid none = inr refl
  get_cases pid (some (free q n)) = inr refl
  get_cases pid (some (used q)) = elim (Bool-cases (same q.pid pid)) [
    | inl e ↦ inl (q, rw e refl)
    | inr e ↦ inr (rw e refl)
  ]

  set-Later :
      (slots : List (Slot A)) (e s i a b : ℕ) (old new : Slot A)
      → get_elem? slots i ≡ some old
      → pid_of old ≡ id a i
      → pid_of new ≡ id b i
      → a ≤ b
      → (slot : Slot A) × (get_elem? slots s ≡ some slot)
        × (d : ℕ) × (pid_of slot ≡ id d s)
        × (e < d)
      → (slot : Slot A) × (get_elem? (set slots i new) s ≡ some slot)
        × (d : ℕ) × (pid_of slot ≡ id d s)
        × (e < d)
  set-Later slots e s i a b old new at was is le (slot, here, d, own, less) =
      elim (Bool-cases (i == s)) [
        | inl h ↦
            let at_s : i ≡ s = ground arith in
            let one : old ≡ slot = some-injective old slot (sym at ∙ rw (sym at_s) at here) in
            let epoch : a ≡ d = ap epoch_of (sym was ∙ ap pid_of one ∙ own) in
            (
              new,
              subst (λ t. get_elem? (set slots i new) t ≡ some new) at_s
                  (get_elem?-set_self slots i new (lt_of_get_elem? slots i at)),
              b,
              rw at_s at is,
              omega arith,
            )
        | inr h ↦
            let ne : i ≢ s = λ p. ground arith in
            (slot, get_elem?-set_ne slots i s new ne ∙ here, d, own, less)
      ]

  -- What every call keeps.
  abbrev Kept : ℕ → ℕ → Table A → Type 0
  Kept e s self = IsValid self × Later e s self

  allocate-Kept :
      (e s : ℕ) (self : Table A) (process : Process A) (v : IsValid self)
      → Later e s self
      → (ps : List Pid) → v.free_pids ≡ ps
      → Kept e s (allocate self process).0
  allocate-Kept e s self process v l [] h = rw ((allocate-get self process v).0 h) (v, l)
  allocate-Kept e s self process v l (p ∷ ps) h =
      let g = (allocate-get self process v).1 p ps h in
      rw g.given (
        g.is_valid,
        set-Later self.table e s g.slot g.epoch g.epoch (free (id g.epoch g.slot) g.next)
            (used (record process { pid = id g.epoch g.slot })) g.was_free refl refl
            (le_refl g.epoch) l,
      )

  free-Kept :
      (e s a i : ℕ) (self : Table A)
      → IsValid self
      → Later e s self
      → Kept e s (free_pid self (id a i)).0
  unfolding get
  free-Kept e s a i self v l = elim (get_cases (id a i) (get_elem? self.table i)) [
    | inl (p, g) ↦ elim (dec_lt (a + 1) (2 ^ 32)) [
      | yes fits ↦
          let f = ((free_lem self a i v).0 p g).0 fits in
          let (at, own) = found (id a i) (get_elem? self.table i) p g in
          rw f.freed (
            f.is_valid,
            set-Later self.table e s i a (a + 1) (used p) (free (id (a + 1) i) self.free_slots) at
                ((same_iff p.pid (id a i)).0 own) refl (omega arith) l,
          )
      | no big ↦ rw (((free_lem self a i v).0 p g).1 (omega arith)) (v, l)
    ]
    | inr g ↦ rw ((free_lem self a i v).1 g) (v, l)
  ]

  Step-Kept : (e s : ℕ) {self later : Table A} → Step self later → Kept e s self → Kept e s later
  unfolding free_pid
  Step-Kept e s (allocated self process) (v, l) =
      allocate-Kept e s self process v l v.free_pids refl
  Step-Kept e s (freed self current) (v, l) = (v, l)
  Step-Kept e s (freed self (id a i)) (v, l) = free-Kept e s a i self v l

  Steps-Kept :
      (e s : ℕ) {first later : Table A} → Steps first later → Kept e s first → Kept e s later
  Steps-Kept e s start k = k
  Steps-Kept e s (next steps step) k = Step-Kept e s step (Steps-Kept e s steps k)

  later_get :
      (e s d : ℕ) (slot : Slot A)
      → pid_of slot ≡ id d s
      → e < d
      → get_process (id e s) (some slot) ≡ err no_process
  unfolding get_process
  later_get e s d (free p n) own less = refl
  later_get e s d (used p) own less =
      let other : same (id d s) (id e s) ≡ false = elim (Bool-cases (same (id d s) (id e s))) [
        | inl h ↦
            let one : d ≡ e = ap epoch_of ((same_iff (id d s) (id e s)).0 h) in absurd (omega arith)
        | inr h ↦ h
      ] in
      rw (own, other) refl

  Later-get : (e s : ℕ) (self : Table A) → Later e s self → get self (id e s) ≡ err no_process
  unfolding get get_process
  Later-get e s self (slot, here, d, own, less) = rw here (later_get e s d slot own less)

  -- Once a process of a valid table is freed, and its next epoch fits a `u32`, its identifier finds
  -- no process whatever is allocated and freed later, and the table stays valid.
  pub get-free :
      (self later : Table A) (process : Process A) (e s : ℕ)
      → IsValid self
      → get self (id e s) ≡ ok process
      → e + 1 < 2 ^ 32
      → Steps (free_pid self (id e s)).0 later
      → (get later (id e s) ≡ err no_process) × IsValid later
  unfolding get
  get-free self later process e s v h fits steps =
      let f = ((free_lem self e s v).0 process h).0 fits in
      let (at, own) = found (id e s) (get_elem? self.table s) process h in
      let new : Slot A = free (id (e + 1) s) self.free_slots in
      let kept : Kept e s (free_pid self (id e s)).0 = rw f.freed (
        f.is_valid,
        (
          new,
          get_elem?-set_self self.table s new (lt_of_get_elem? self.table s at),
          e + 1,
          refl,
          omega arith,
        ),
      ) in
      let after = Steps-Kept e s steps kept in (Later-get e s later after.1, after.0)
