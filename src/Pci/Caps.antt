-- ===== src/Pci/Caps.antt =====
-- Link speed and power state of src/pci_caps.cpp. The list of capabilities and the registers are
-- what libpci gives; the offsets and masks are those of the PCI specification.
use rocm_validation_suite.Prelude.{
  ℕ, ◌+◌, ◌%◌, Bool, true, false, ◌&&◌, List, [], ◌∷◌, Text, codes, ◌==◌, if◌then◌else◌, ◌≡◌, arith,
  is_nil,
}

-- `PCI_CAP_NORMAL` and `PCI_CAP_EXTENDED`
pub data CapType : Type 0 where
  normal extended : CapType

-- `struct pci_cap`
pub record Cap : Type 0 where
  pub id : ℕ
  pub cap_type : CapType
  pub addr : ℕ

-- `bars` are the six pairs of `base_addr` and `size`.
pub record PciDev : Type 0 where
  pub bus : ℕ
  pub dev : ℕ
  pub func : ℕ
  pub device_id : ℕ
  pub vendor_id : ℕ
  pub bars : List (ℕ × ℕ)
  pub caps : List Cap
  pub pci_read_word : ℕ → ℕ
  pub pci_read_long : ℕ → ℕ

abbrev same_type : CapType → CapType → Bool
same_type normal normal = true
same_type normal extended = false
same_type extended normal = false
same_type extended extended = true

-- The offset of the first such capability, or 0.
unfoldable pub pci_dev_find_cap_offset : List Cap → ℕ → CapType → ℕ
pci_dev_find_cap_offset [] cap type_ = 0
pci_dev_find_cap_offset (pcap ∷ next) cap type_ =
    if (pcap.id == cap) && same_type pcap.cap_type type_
    then pcap.addr
    else pci_dev_find_cap_offset next cap type_

abbrev pub not_supported : Text
not_supported = codes "NOT SUPPORTED"

unfoldable pub speed_text : ℕ → Text
speed_text cls =
    if cls == 1
    then codes "2.5 GT/s"
    else if cls == 2
    then codes "5 GT/s"
    else if cls == 3
    then codes "8 GT/s"
    else if cls == 4
    then codes "16 GT/s"
    else if cls == 5
    then codes "32 GT/s"
    else codes "Unknown speed"

-- The register `PCI_EXP_LNKCAP` at 0x0c, its lowest four bits.
unfoldable pub get_link_cap_max_speed : PciDev → Text
get_link_cap_max_speed d =
    let cap_offset = pci_dev_find_cap_offset d.caps 16 normal in
    if cap_offset == 0 then not_supported else speed_text (d.pci_read_long (cap_offset + 12) % 16)

-- The register `PCI_EXP_LNKSTA` at 0x12, its lowest four bits.
unfoldable pub get_link_stat_cur_speed : PciDev → Text
get_link_stat_cur_speed d =
    let cap_offset = pci_dev_find_cap_offset d.caps 16 normal in
    if cap_offset == 0 then not_supported else speed_text (d.pci_read_word (cap_offset + 18) % 16)

unfoldable pub state_text : ℕ → Text
state_text state =
    if state == 0
    then codes "D0"
    else if state == 1
    then codes "D1"
    else if state == 2
    then codes "D2"
    else codes "D3"

-- The register `PCI_PM_CTRL` at 4, its lowest two bits.
unfoldable pub get_pwr_curr_state : PciDev → Text
get_pwr_curr_state d =
    let cap_offset = pci_dev_find_cap_offset d.caps 1 normal in
    if cap_offset == 0 then not_supported else state_text (d.pci_read_word (cap_offset + 4) % 4)

pub speed_full : (d : PciDev) → is_nil (get_link_stat_cur_speed d) ≡ false
unfolding get_link_stat_cur_speed speed_text
speed_full d = ground arith

pub state_full : (d : PciDev) → is_nil (get_pwr_curr_state d) ≡ false
unfolding get_pwr_curr_state state_text
state_full d = ground arith
