-- ===== src/Heap/Tests.antt =====
-- The theorems about the counters at concrete arguments.
use nikka.Common.{◌≡◌, arith, true, ok}
use nikka.Heap.Info.{Info, balance, is_valid, allocation, deallocation}
use nikka.Heap.Info.Balance.{HasRoom, is_valid_iff, IsSound, deallocation-allocation}

-- Five allocations of which two were given back, of 400 bytes in one page.
abbrev running : Info
running = record {
  allocated = record { negative = 100; positive = 500 };
  allocations = record { negative = 2; positive = 5 };
  pages = record { negative = 0; positive = 1 };
  requested = record { negative = 90; positive = 450 };
}

running-IsSound : IsSound running
running-IsSound = omega arith

running-HasRoom : HasRoom running 60 64 0
running-HasRoom = omega arith

deallocation-allocation_example :
    (later : Info) × (after : Info) × (allocation 60 64 0 running ≡ ok later)
    × (is_valid later ≡ ok true)
    × (deallocation 60 64 0 later ≡ ok after)
    × (is_valid after ≡ ok true)
    × (balance after.allocated ≡ balance running.allocated)
    × (balance after.allocations ≡ balance running.allocations)
    × (balance after.pages ≡ balance running.pages)
    × (balance after.requested ≡ balance running.requested)
deallocation-allocation_example =
    deallocation-allocation running 60 64 0 ((is_valid_iff running).1 running-IsSound)
      running-HasRoom (omega arith) (omega arith) (omega arith)
