-- ===== src/Nvme/ControllerExamples.antt =====
-- src/c/sysdev/nvme/nvme.c: the results at a small machine, and runs of the functions.
use kdrivers.Base.{
  ℕ, ◌≡◌, ◌⊎◌, refl, Option, none, some, true, List, [], ◌∷◌, ◌==◌, if◌then◌else◌, length, done,
  fault,
}
use kdrivers.Base.{lowest_bit}
use kdrivers.Base.Alloc.{neg}
use kdrivers.Base.{false}
use kdrivers.Nvme.{QPair}
use kdrivers.Base.{replicate}
use kdrivers.Nvme.{QsEntry, no_command}
use kdrivers.Nvme.Transport.{Transport}
use kdrivers.Nvme.RamNvm.{Machine, ram_transport, finished, store}
use kdrivers.Nvme.Controller.{nvme_create_io_qpairs}
use kdrivers.Nvme.QPairs.{IsNumbered, Makeable, nvme_create_io_qpairs-IsNumbered}

abbrev machine : Machine
machine = record { disk = []; memory = λ a. 0 }

-- A ring is its address; there is one wherever there is memory, or none at one address.
abbrev ring : ℕ → ℕ → ℕ → Machine → Option ℕ × Machine
ring base objs size w = (some base, w)

abbrev ring_but : ℕ → ℕ → ℕ → ℕ → Machine → Option ℕ × Machine
ring_but bad base objs size w = (if base == bad then none else some base, w)

nvme_create_io_qpairs-IsNumbered_example :
    let result = nvme_create_io_qpairs (ram_transport 512) (λ r. r) ring true 2 64 machine in
    ((true ≡ false) × (result ≡ done ((neg 1, []), machine)))
    ⊎ ((true ≡ true)
        × Makeable (ram_transport 512) (λ r. r) ring 2 64 machine
        × ((made : List (QPair ℕ)) × (w' : Machine) × (result ≡ done ((0, made), w'))
            × (length made ≡ 2)
            × IsNumbered (ram_transport 512) (λ r. r) ring made))
    ⊎ ((true ≡ true) × ¬ Makeable (ram_transport 512) (λ r. r) ring 2 64 machine × (result ≡ fault))
nvme_create_io_qpairs-IsNumbered_example =
    nvme_create_io_qpairs-IsNumbered (ram_transport 512) (λ r. r) ring true 2 64 machine

-- There is memory for two pairs.
two_pairs : Makeable (ram_transport 512) (λ r. r) ring 2 64 machine
two_pairs = (
  _,
  (8192, 8192, 8256, _, _, refl, refl, refl),
  (_, (8192, 8192, 8256, _, _, refl, refl, refl), tt),
)

-- A completion queue that cannot be had.
creation_fails :
    nvme_create_io_qpairs (ram_transport 512) (λ r. r) (ring_but 8256) true 2 64 machine ≡ fault
unfolding nvme_create_io_qpairs
creation_fails = refl

lowest : lowest_bit 32 0 40 ≡ some 3
unfolding lowest_bit
lowest = refl

-- A device that answers every command with the numbers of two namespaces.
abbrev numbers : List ℕ
numbers = 7 ∷ 0 ∷ 0 ∷ 0 ∷ 9 ∷ 0 ∷ 0 ∷ 0 ∷ []

abbrev two_namespaces : Transport
two_namespaces = record (ram_transport 512) {
  poll = λ cmd w. done (finished, record w { memory = store cmd.entry1 numbers w.memory });
}

abbrev list_command : QsEntry
list_command = record no_command { opcode = 6; entry1 = 16; cdw10 = 7 }

abbrev cleared : Machine
cleared = record { disk = []; memory = store 16 (replicate 4096 0) machine.memory }

abbrev answered : Machine
answered = record { disk = []; memory = store 16 numbers cleared.memory }
