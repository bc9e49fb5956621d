-- ===== src/Nvme/Examples.antt =====
-- src/c/sysdev/nvme/: the results at a small namespace, and runs of the functions.
use kdrivers.Base.{
  ℕ, ◌+◌, ◌-◌, ◌*◌, ◌/◌, ◌≡◌, refl, inr, some, true, List, [], ◌∷◌, length, get_or, replicate,
  length-replicate, done, fault, arith,
}
use kdrivers.Base.Filled.{IsFilled}
use kdrivers.Nvme.Namespace.{State, stat_nvme_namespace, read_nvme_namespace, write_nvme_namespace}
use kdrivers.Nvme.RamNvm.{Machine, ram_transport, ram_nvm, ram_nvm_write}
use kdrivers.Nvme.ReadBytes.{read_nvme_namespace-IsFilled}
use kdrivers.Nvme.WriteBytes.{write_nvme_namespace-IsFilled, write_nvme_namespace_fault}
use kdrivers.Nvme.RoundTrip.{read_nvme_namespace-write}

-- Blocks of 512 bytes, on a namespace of four pages.
abbrev state : State
state = record {
  block_size = 4096;
  lba_size = 512;
  meta_follows_lba = 0;
  meta_size = 0;
  nsze = 32;
  ncap = 32;
  namespace = 1;
  nvm_set = 0;
  command_set = 0;
  qpair_base = 0;
  qpair_count = 1;
}

abbrev bytes : List ℕ
bytes = replicate 16384 7

abbrev machine : Machine
machine = record { disk = bytes; memory = λ a. 0 }

abbrev align_down : ℕ → ℕ → ℕ
align_down x a = x / a * a

bytes_length : length bytes ≡ 16384
bytes_length = length-replicate {A = ℕ} 16384 7

abbrev five : List ℕ
five = 0 ∷ 0 ∷ 0 ∷ 0 ∷ 0 ∷ []

read_nvme_namespace-IsFilled_example :
    (buffer' : List ℕ) × (w' : Machine) × (read_nvme_namespace
        (ram_transport 512)
        align_down
        state
        five
        1
        5
        510
        machine
      ≡ done ((5, buffer'), w'))
    × IsFilled (λ i. get_or bytes (510 + i) 0) 0 5 five buffer'
    × (w'.disk ≡ bytes)
read_nvme_namespace-IsFilled_example =
    read_nvme_namespace-IsFilled (ram_transport 512) align_down state (ram_nvm 512 1) (λ x. refl) 8
      refl refl 510 5 (omega arith) bytes (omega (arith, bytes_length)) five 1 5 machine refl refl
      (omega arith)

write_nvme_namespace-IsFilled_example :
    (w' : Machine) × (write_nvme_namespace
        (ram_transport 512)
        align_down
        state
        (1 ∷ 2 ∷ 3 ∷ [])
        1
        3
        510
        machine
      ≡ done (3, w'))
    × IsFilled (λ i. get_or (1 ∷ 2 ∷ 3 ∷ []) (i - 510) 0) 510 513 bytes w'.disk
write_nvme_namespace-IsFilled_example =
    write_nvme_namespace-IsFilled (ram_transport 512) align_down state (ram_nvm 512 1)
      (ram_nvm_write 512 1) (λ x. refl) 8 refl refl 510 3 (omega arith) (1 ∷ 2 ∷ 3 ∷ [])
      (omega arith) 1 3 refl machine (inr (omega arith)) (omega (arith, bytes_length))

read_nvme_namespace-write_example :
    (buffer' : List ℕ) × (w' w'' : Machine) × (write_nvme_namespace
        (ram_transport 512)
        align_down
        state
        (1 ∷ 2 ∷ 3 ∷ [])
        1
        3
        510
        machine
      ≡ done (3, w'))
    × (read_nvme_namespace (ram_transport 512) align_down state five 1 3 510 w'
        ≡ done ((3, buffer'), w''))
    × IsFilled (λ i. get_or (1 ∷ 2 ∷ 3 ∷ []) i 0) 0 3 five buffer'
read_nvme_namespace-write_example =
    read_nvme_namespace-write (ram_transport 512) align_down state (ram_nvm 512 1)
      (ram_nvm_write 512 1) (λ x. refl) 8 refl refl 1 3 510 (1 ∷ 2 ∷ 3 ∷ []) five machine
      (omega arith) (omega arith) (omega arith) (inr (omega arith)) (omega (arith, bytes_length))

abbrev page : List ℕ
page = replicate 4096 1

page_length : length page ≡ 4096
page_length = length-replicate {A = ℕ} 4096 1

write_nvme_namespace_fault_example :
    write_nvme_namespace (ram_transport 512) align_down state page 1 4096 512 machine ≡ fault
write_nvme_namespace_fault_example =
    write_nvme_namespace_fault (ram_transport 512) align_down state (ram_nvm 512 1)
      (ram_nvm_write 512 1) (λ x. refl) 8 refl refl 512 4096 (omega arith) page
      (omega (arith, page_length)) 1 4096 refl machine refl (omega arith)

-- The status of a namespace, and of a file that has no status to fill.
stats :
    stat_nvme_namespace (some state) true ≡ (0, some (record { st_blksize = 512; st_size = 32 }))
unfolding stat_nvme_namespace
stats = refl
