-- ===== src/Clock.antt =====
-- src/c/sysdev/rtc.c and hpet.c: the drivers of the two clocks, which check their arguments and
-- touch no device. A Bool says that a pointer is not `NULL`.
use kdrivers.Base.{ℕ, Bool, true, List, [], ◌∷◌}
use kdrivers.Base.Alloc.{neg}

unfoldable pub init_rtc : Bool → Bool → ℕ
init_rtc true true = 0
init_rtc res args = neg 1

unfoldable pub uninit_rtc : ℕ
uninit_rtc = 0

unfoldable read_rtc : Bool → ℕ → ℕ → Bool → Bool → ℕ
read_rtc buffer size count file res = 0

unfoldable write_rtc : Bool → ℕ → ℕ → Bool → Bool → ℕ
write_rtc buffer size count file res = 0

unfoldable stat_rtc : Bool → Bool → ℕ
stat_rtc true true = 0
stat_rtc res stat = neg 1

-- The lists of ACPI codes, up to the terminator that the kernel's headers name.
abbrev pub rtc_codes : ℕ → List ℕ
rtc_codes terminator = 0x95368E5074F817D9 ∷ terminator ∷ []

unfoldable pub init_hpet : ℕ
init_hpet = 1

unfoldable pub uninit_hpet : ℕ
uninit_hpet = 0

unfoldable read_hpet : ℕ
read_hpet = 0

unfoldable write_hpet : ℕ
write_hpet = 0

unfoldable stat_hpet : ℕ
stat_hpet = 0

abbrev pub hpet_codes : ℕ → List ℕ
hpet_codes terminator = 0x326C57FE82510B91 ∷ terminator ∷ []
