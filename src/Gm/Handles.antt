-- ===== src/Gm/Handles.antt =====
-- The handles of the SMI library by PCI location, src/rsmi_util.cpp. A handle is a number, 0 where it
-- is null; what the library answers for each processor of each socket is given.
use rocm_validation_suite.Prelude.{ℕ, Option, none, some, List, [], ◌∷◌, ◌==◌, ltb, if◌then◌else◌}

-- `insert` of a map from numbers, in their order; an entry that is there stays.
unfoldable pub insert_handle : ℕ → ℕ → List (ℕ × ℕ) → List (ℕ × ℕ)
insert_handle key h [] = (key, h) ∷ []
insert_handle key h ((k, h') ∷ m) =
    let rest = insert_handle key h m in
    if key == k then (k, h') ∷ m else if ltb key k then (key, h) ∷ (k, h') ∷ m else (k, h') ∷ rest

-- The processors of a socket; `none` where the location is not known.
unfoldable pub map_processors : List (Option ℕ × ℕ) → List (ℕ × ℕ) → List (ℕ × ℕ)
unfolding insert_handle
map_processors [] m = m
map_processors ((none, dev) ∷ devs) m = map_processors devs m
map_processors ((some bdfid, dev) ∷ devs) m = map_processors devs (insert_handle bdfid dev m)

unfoldable pub smi_pci_hdl_mapping : List (List (Option ℕ × ℕ)) → List (ℕ × ℕ) → List (ℕ × ℕ)
unfolding map_processors
smi_pci_hdl_mapping [] m = m
smi_pci_hdl_mapping (socket ∷ sockets) m = smi_pci_hdl_mapping sockets (map_processors socket m)

unfoldable pub get_smi_pci_map : List (List (Option ℕ × ℕ)) → List (ℕ × ℕ) → List (ℕ × ℕ)
unfolding smi_pci_hdl_mapping
get_smi_pci_map sockets [] = smi_pci_hdl_mapping sockets []
get_smi_pci_map sockets (entry ∷ m) = entry ∷ m

-- The handle that is stored with AMDSMI_STATUS_SUCCESS, or AMDSMI_STATUS_INVAL.
unfoldable pub find_handle : List (ℕ × ℕ) → ℕ → Option ℕ
find_handle [] bdfid = none
find_handle ((first, h) ∷ m) bdfid = some (if first == bdfid then h else 0)

unfoldable pub smi_dev_ind_get : List (List (Option ℕ × ℕ)) → List (ℕ × ℕ) → ℕ → Option ℕ
unfolding get_smi_pci_map find_handle
smi_dev_ind_get sockets m bdfid = find_handle (get_smi_pci_map sockets m) bdfid
