-- ===== src/Pci.antt =====
-- PCI capabilities, src/pci_caps.cpp.
pub mod Caps
pub mod Budget
pub mod Fields
pub mod Serial
mod Examples
