-- ===== src/Pci/Show.antt =====
-- The lines that show_pci.c prints of a field: typeshow, speedshow, linkspeedshow, linkwidthshow.
use uio_linux_sample.Prelude.{ℕ, ◌==◌, Option, none, some, ◌-◌, ltb, if◌then◌else◌, ◌||◌, ◌&&◌}

pub data PortType : Type 0 where
  endpoint legacy_endpoint root_port upstream_port downstream_port pcie_to_pci_bridge : PortType
  pci_to_pcie_bridge root_integrated_endpoint root_event_collector reserved : PortType

abbrev pub typeshow : ℕ → PortType
typeshow port =
    if port == 0
    then endpoint
    else if port == 1
    then legacy_endpoint
    else if port == 4
    then root_port
    else if port == 5
    then upstream_port
    else if port == 6
    then downstream_port
    else if port == 7
    then pcie_to_pci_bridge
    else if port == 8
    then pci_to_pcie_bridge
    else if port == 9
    then root_integrated_endpoint
    else if port == 10
    then root_event_collector
    else reserved

-- In tenths of GT/s, `none` for a reserved value.
abbrev pub speedshow : ℕ → Option ℕ
speedshow speed =
    if speed == 0
    then some 25
    else if speed == 2
    then some 50
    else if speed == 4
    then some 80
    else none

-- The number of the bit in the vector of speeds.
abbrev pub linkspeedshow : ℕ → Option ℕ
linkspeedshow speed = if ltb 0 speed && ltb speed 8 then some (speed - 1) else none

-- The number of lanes.
abbrev pub linkwidthshow : ℕ → Option ℕ
linkwidthshow width =
    if width == 1
      || width == 2
      || width == 4
      || width == 8
      || width == 12
      || width == 16
      || width == 32
    then some width
    else none
