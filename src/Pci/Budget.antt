-- ===== src/Pci/Budget.antt =====
-- `get_pwr_budgeting` of src/pci_caps.cpp. The fields of a power budget are those of the PCI
-- specification. The loop has fuel for each number that the data select register holds.
use rocm_validation_suite.Prelude.{
  ℕ, zero, suc, ◌*◌, ◌/◌, ◌%◌, ◌^◌, ◌-◌, ◌≡◌, ◌≤◌, ◌⊎◌, refl, Bool, false, ◌&&◌, Option, none, some,
  List, ◌++◌, Text, codes, ◌==◌, if◌then◌else◌, arith,
}
use rocm_validation_suite.Util.Number.{to_string}
use rocm_validation_suite.Pci.Caps.{Cap, extended, pci_dev_find_cap_offset, not_supported}

-- The operating condition asked for.
pub record Condition : Type 0 where
  pub pb_pm_state : ℕ
  pub pb_type : ℕ
  pub pb_power_rail : ℕ

-- `PCI_PWR_DATA_PM_STATE`, `PCI_PWR_DATA_TYPE` and `PCI_PWR_DATA_RAIL`
unfoldable pub matches : Condition → ℕ → Bool
matches c w =
    (w / 2 ^ 13 % 4 == c.pb_pm_state)
    && ((w / 2 ^ 15 % 8 == c.pb_type) && (w / 2 ^ 18 % 8 == c.pb_power_rail))

-- "%.3fW" of thousandths
unfoldable pub milli_text : ℕ → Text
milli_text thousandths =
    to_string (thousandths / 1000)
    ++ (codes "."
        ++ (to_string (thousandths / 100 % 10)
            ++ (to_string (thousandths / 10 % 10) ++ (to_string (thousandths % 10) ++ codes "W"))))

-- `PCI_PWR_DATA_BASE` times 10 to the power of -`PCI_PWR_DATA_SCALE`
unfoldable pub watts : ℕ → Text
unfolding milli_text
watts w = milli_text (w % 2 ^ 8 * 10 ^ (3 - w / 2 ^ 8 % 4))

-- Whether `pci_write_byte` takes a number of a condition, and the word that `pci_read_word` then
-- reads, a `u16`.
module _ (pci_write_byte : ℕ → Bool) (pci_read_word : ℕ → ℕ) (c : Condition) where
  -- The word of the first condition that matches, from i on.
  unfoldable pub search_budget : ℕ → ℕ → Option ℕ
  unfolding matches
  search_budget zero i = none
  search_budget (suc fuel) i =
      let rest = search_budget fuel (suc i) in
      let w = pci_read_word i % 2 ^ 16 in
      if pci_write_byte i
      then if w == 0 then none else if matches c w then some w else rest
      else rest

  unfoldable pub budget_text : Option ℕ → Text
  unfolding watts
  budget_text none = not_supported
  budget_text (some w) = watts w

  unfoldable pub get_pwr_budgeting : List Cap → Text
  unfolding search_budget budget_text
  get_pwr_budgeting caps =
      if pci_dev_find_cap_offset caps 4 extended == 0
      then not_supported
      else budget_text (search_budget 256 0)

  matches_lost :
      (w : ℕ) → ((2 ≤ c.pb_type) ⊎ (1 ≤ c.pb_power_rail)) → matches c (w % 2 ^ 16) ≡ false
  unfolding matches
  matches_lost w h = ground arith

  search_lost :
      (fuel i : ℕ) → ((2 ≤ c.pb_type) ⊎ (1 ≤ c.pb_power_rail)) → search_budget fuel i ≡ none
  unfolding search_budget
  search_lost zero i h = refl
  search_lost (suc fuel) i h =
      ground (arith, matches_lost (pci_read_word i) h, search_lost fuel (suc i) h)

  -- For a type of operation from 2 on (idle, sustained, maximum) and for a power rail from 1 on
  -- (every one but 12 V) the budget is reported as not supported, whatever the device holds.
  pub get_pwr_budgeting_lost :
      (caps : List Cap)
      → ((2 ≤ c.pb_type) ⊎ (1 ≤ c.pb_power_rail))
      → get_pwr_budgeting caps ≡ not_supported
  unfolding get_pwr_budgeting budget_text
  get_pwr_budgeting_lost caps h = ground (arith, search_lost 256 0 h)
