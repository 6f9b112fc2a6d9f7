-- ===== src/Pci/Examples.antt =====
-- The power budget of a device that holds one condition, and the serial numbers of devices.
use rocm_validation_suite.Pci.Fields.{hex_digit, hex2, dashed, serial_text, get_dev_serial_num}
use rocm_validation_suite.Pci.Serial.{serial, get_dev_serial_num_injective}
use rocm_validation_suite.Prelude.{
  ℕ, ◌+◌, ◌≡◌, refl, inl, true, List, [], ◌∷◌, codes, ◌==◌, if◌then◌else◌, arith,
}
use rocm_validation_suite.Util.Number.{to_string}
use rocm_validation_suite.Pci.Caps.{Cap, PciDev, extended, pci_dev_find_cap_offset, not_supported}
use rocm_validation_suite.Pci.Budget.{
  Condition, matches, watts, search_budget, budget_text, milli_text, get_pwr_budgeting,
  get_pwr_budgeting_lost,
}

abbrev caps : List Cap
caps = record { id = 4; cap_type = extended; addr = 256 } ∷ []

-- 25.5 W in the state D0, of the type idle (2) at 12 V; a `u16` has the lowest bit of the type.
abbrev idle : Condition
idle = record { pb_pm_state = 0; pb_type = 2; pb_power_rail = 0 }

abbrev auxiliary : Condition
auxiliary = record { pb_pm_state = 0; pb_type = 0; pb_power_rail = 0 }

auxiliary_watts :
    get_pwr_budgeting (λ i. true) (λ i. if i == 0 then 65536 + 256 + 255 else 0) auxiliary caps
    ≡ codes "25.500W"
unfolding get_pwr_budgeting pci_dev_find_cap_offset search_budget matches budget_text watts
    milli_text to_string
auxiliary_watts = refl

get_pwr_budgeting_lost_example :
    get_pwr_budgeting (λ i. true) (λ i. if i == 0 then 65536 + 256 + 255 else 0) idle caps
    ≡ not_supported
get_pwr_budgeting_lost_example =
    get_pwr_budgeting_lost (λ i. true) (λ i. if i == 0 then 65536 + 256 + 255 else 0) idle caps
      (inl (omega arith))

-- Two devices with one serial number, in different places.
abbrev numbered : ℕ → PciDev
numbered offset = record {
  bus = 3;
  dev = 0;
  func = 0;
  device_id = 26273;
  vendor_id = 4098;
  bars = [];
  caps = record { id = 3; cap_type = extended; addr = offset } ∷ [];
  pci_read_word = λ address. 0;
  pci_read_long = λ address. if address == offset + 4 then 305419896 else 2596069104;
}

number_text : get_dev_serial_num (numbered 256) ≡ codes "9a-bc-de-f0-12-34-56-78"
unfolding get_dev_serial_num pci_dev_find_cap_offset serial_text hex2 dashed hex_digit
number_text = refl

one_number : get_dev_serial_num (numbered 256) ≡ get_dev_serial_num (numbered 512)
unfolding get_dev_serial_num pci_dev_find_cap_offset serial_text hex2 dashed hex_digit
one_number = refl

offset_of : (offset : ℕ) → pci_dev_find_cap_offset (numbered offset).caps 3 extended ≡ offset
unfolding pci_dev_find_cap_offset
offset_of offset = refl

get_dev_serial_num_injective_example : serial (numbered 256) 256 ≡ serial (numbered 512) 512
get_dev_serial_num_injective_example =
    get_dev_serial_num_injective (numbered 256) (numbered 512) 256 512 (offset_of 256)
      (offset_of 512) (λ e. absurd (omega (arith, e))) (λ e. absurd (omega (arith, e))) one_number
