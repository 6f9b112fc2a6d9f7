-- ===== src/Pci/Fields.antt =====
-- Widths, slot, numbers and atomic operations of src/pci_caps.cpp, with the offsets and masks of the
-- PCI specification.
use rocm_validation_suite.Prelude.{
  ℕ, ◌+◌, ◌*◌, ◌/◌, ◌%◌, ◌^◌, ◌-◌, Bool, false, not, ◌&&◌, ◌||◌, Option, none, some, List, [], ◌∷◌,
  ◌++◌, Text, codes, ◌==◌, ltb, if◌then◌else◌,
}
use rocm_validation_suite.Util.Number.{to_string}
use rocm_validation_suite.Pci.Caps.{
  PciDev, normal, extended, pci_dev_find_cap_offset, not_supported,
}
use rocm_validation_suite.Pci.Budget.{milli_text}

-- The register `PCI_EXP_LNKCAP` at 0x0c, bits 4 to 9.
unfoldable pub get_link_cap_max_width : PciDev → Text
get_link_cap_max_width d =
    let cap_offset = pci_dev_find_cap_offset d.caps 16 normal in
    if cap_offset == 0
    then not_supported
    else codes "x" ++ to_string (d.pci_read_long (cap_offset + 12) / 16 % 64)

-- The register `PCI_EXP_LNKSTA` at 0x12, bits 4 to 9.
unfoldable pub get_link_stat_neg_width : PciDev → Text
get_link_stat_neg_width d =
    let cap_offset = pci_dev_find_cap_offset d.caps 16 normal in
    if cap_offset == 0
    then not_supported
    else codes "x" ++ to_string (d.pci_read_word (cap_offset + 18) / 16 % 64)

-- `slot_pwr_limit_value` times 10 to the power of -`slot_pwr_limit_scale`, or a number of its own.
unfoldable pub limit_text : ℕ → ℕ → Text
limit_text scale value =
    if ltb 239 value
    then if value == 240
      then codes "250.000W"
      else if value == 241
      then codes "270.000W"
      else if value == 242
      then codes "300.000W"
      else codes "-1.000W"
    else milli_text (value * 10 ^ (3 - scale))

-- The register `PCI_EXP_SLTCAP` at 0x14: the scale in bits 15 and 16, the value in bits 7 to 14.
unfoldable pub get_slot_pwr_limit_value : PciDev → Text
unfolding limit_text
get_slot_pwr_limit_value d =
    let cap_offset = pci_dev_find_cap_offset d.caps 16 normal in
    let slot_cap = d.pci_read_long (cap_offset + 20) in
    if cap_offset == 0
    then not_supported
    else limit_text (slot_cap / 2 ^ 15 % 4) (slot_cap / 2 ^ 7 % 256)

-- Bits 19 to 31.
unfoldable pub get_slot_physical_num : PciDev → Text
get_slot_physical_num d =
    let cap_offset = pci_dev_find_cap_offset d.caps 16 normal in
    if cap_offset == 0
    then not_supported
    else codes "#" ++ to_string (d.pci_read_long (cap_offset + 20) / 2 ^ 19 % 2 ^ 13)

-- A digit in base 16, its letters from a code on.
unfoldable pub hex_digit : ℕ → ℕ → ℕ
hex_digit letter n = if ltb n 10 then b'0' + n else letter + (n - 10)

-- "%0X" of a byte
unfoldable pub get_pci_bus_id : PciDev → Text
unfolding hex_digit
get_pci_bus_id d =
    if ltb d.bus 16
    then hex_digit b'A' d.bus ∷ []
    else hex_digit b'A' (d.bus / 16 % 16) ∷ hex_digit b'A' (d.bus % 16) ∷ []

unfoldable pub get_device_id : PciDev → Text
get_device_id d = to_string d.device_id

unfoldable pub get_vendor_id : PciDev → Text
get_vendor_id d = to_string d.vendor_id

-- "%02x" of a byte
unfoldable pub hex2 : ℕ → Text
unfolding hex_digit
hex2 n = hex_digit b'a' (n / 16) ∷ hex_digit b'a' (n % 16) ∷ []

-- More bytes, each after "-".
unfoldable pub dashed : List ℕ → Text
unfolding hex2
dashed [] = []
dashed (n ∷ ns) = b'-' ∷ (hex2 n ++ dashed ns)

unfoldable pub serial_text : ℕ → ℕ → Text
unfolding dashed
serial_text t1 t2 =
    hex2 (t2 / 2 ^ 24)
    ++ dashed (
        t2 / 2 ^ 16 % 256
        ∷ t2 / 2 ^ 8 % 256
        ∷ t2 % 256
        ∷ t1 / 2 ^ 24
        ∷ t1 / 2 ^ 16 % 256
        ∷ t1 / 2 ^ 8 % 256
        ∷ t1 % 256
        ∷ [])

-- `pci_read_long` gives 32 bits.
unfoldable pub get_dev_serial_num : PciDev → Text
get_dev_serial_num d =
    let cap_offset_dsn = pci_dev_find_cap_offset d.caps 3 extended in
    if cap_offset_dsn == 0
    then not_supported
    else serial_text (d.pci_read_long (cap_offset_dsn + 4) % 2 ^ 32)
        (d.pci_read_long (cap_offset_dsn + 8) % 2 ^ 32)

abbrev flag_text : Bool → Text
flag_text b = if b then codes "TRUE" else codes "FALSE"

-- The version of the capability, in the register at 2; bit 6 of `PCI_EXP_DEVCTL2` at 0x28.
unfoldable pub get_atomic_op_routing : PciDev → Text
get_atomic_op_routing d =
    let cap_offset = pci_dev_find_cap_offset d.caps 16 normal in
    if cap_offset == 0
    then not_supported
    else if ltb (d.pci_read_word (cap_offset + 2) % 16) 2
    then not_supported
    else flag_text (d.pci_read_word (cap_offset + 40) / 2 ^ 6 % 2 == 1)

-- A BAR that is in use and not for I/O.
unfoldable pub has_memory_bar : List (ℕ × ℕ) → Bool
has_memory_bar [] = false
has_memory_bar ((base_addr, size) ∷ bars) =
    (not (base_addr == 0) && (not (size == 0) && (base_addr % 2 == 0))) || has_memory_bar bars

-- The register `PCI_EXP_DEVCAP2` at 0x24, or -1.
unfoldable pub get_atomic_op_register_value : PciDev → Option ℕ
get_atomic_op_register_value d =
    let cap_offset = pci_dev_find_cap_offset d.caps 16 normal in
    if cap_offset == 0
    then none
    else if ltb (d.pci_read_word (cap_offset + 2) % 16) 2
    then none
    else if has_memory_bar d.bars
    then some (d.pci_read_long (cap_offset + 36))
    else none

unfoldable pub completer_text : ℕ → Option ℕ → Text
completer_text bit none = not_supported
completer_text bit (some value) = flag_text (value / 2 ^ bit % 2 == 1)

unfoldable pub get_atomic_op_32_completer : PciDev → Text
get_atomic_op_32_completer d = completer_text 7 (get_atomic_op_register_value d)

unfoldable pub get_atomic_op_64_completer : PciDev → Text
get_atomic_op_64_completer d = completer_text 8 (get_atomic_op_register_value d)

unfoldable pub get_atomic_op_128_cas_completer : PciDev → Text
get_atomic_op_128_cas_completer d = completer_text 9 (get_atomic_op_register_value d)
