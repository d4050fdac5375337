-- ===== src/Pci.antt =====
-- pci.h and pci.c: the configuration space and the enumeration of its functions. What the device at
-- an address of the configuration space answers is `config`, a parameter; reading it changes
-- nothing.
mod Tests
pub mod Address
pub mod Enumerate
use Prim.Native.String.{String}
use simple_kernel.Base.{
  ℕ, zero, suc, ◌+◌, ◌*◌, ◌/◌, ◌^◌, Bool, true, false, List, [], ◌∷◌, ◌++◌, bit_and, bit_or, ltb,
  ◌==◌, if◌then◌else◌, u8, u16, u32, length,
}

pub record Device : Type 0 where
  pub bus : ℕ
  pub slot : ℕ
  pub function : ℕ
  pub vendor_id : ℕ
  pub device_id : ℕ
  pub class_code : ℕ
  pub subclass : ℕ
  pub prog_if : ℕ
  pub header_type : ℕ

pub config_address : ℕ → ℕ → ℕ → ℕ → ℕ
config_address bus slot function offset =
    bit_or
      (bit_or (bit_or (bit_or (2 ^ 31) (u32 (bus * 2 ^ 16))) (u32 (slot * 2 ^ 11)))
        (u32 (function * 2 ^ 8)))
      (bit_and offset 0xFC)

module _ (config : ℕ → ℕ) where
  pub config_read32 : ℕ → ℕ → ℕ → ℕ → ℕ
  config_read32 bus slot function offset = config (config_address bus slot function offset)

  pub config_read16 : ℕ → ℕ → ℕ → ℕ → ℕ
  config_read16 bus slot function offset =
      let value = config_read32 bus slot function offset in
      u16 (bit_and (value / 2 ^ (bit_and offset 2 * 8)) 0xFFFF)

  pub fill_device : ℕ → ℕ → ℕ → Device
  fill_device bus slot function =
      let id = config_read32 bus slot function 0x00 in
      let class_reg = config_read32 bus slot function 0x08 in
      let header_reg = config_read32 bus slot function 0x0C in
      record {
        bus = bus;
        slot = slot;
        function = function;
        vendor_id = u16 (bit_and id 0xFFFF);
        device_id = u16 (id / 2 ^ 16);
        class_code = u8 (bit_and (class_reg / 2 ^ 24) 0xFF);
        subclass = u8 (bit_and (class_reg / 2 ^ 16) 0xFF);
        prog_if = u8 (bit_and (class_reg / 2 ^ 8) 0xFF);
        header_type = u8 (bit_and (header_reg / 2 ^ 16) 0xFF);
      }

  abbrev pub absent : ℕ → ℕ → ℕ → Bool
  absent bus slot function = config_read16 bus slot function 0x00 == 0xFFFF

  abbrev pub single_function : ℕ → ℕ → Bool
  single_function bus slot =
      bit_and (u8 (bit_and (config_read32 bus slot 0 0x0C / 2 ^ 16) 0xFF)) 0x80 == 0

  -- The three loops, with the rounds that are left; `devices` are the entries that are filled, so
  -- `count` is its length. A test of `count` that fails ends its loop.
  module _ (max_devices : ℕ) where
    pub scan_functions : ℕ → ℕ → ℕ → ℕ → List Device → List Device
    scan_functions bus slot zero function devices = devices
    scan_functions bus slot (suc rounds) function devices =
        let rest = scan_functions bus slot rounds (function + 1) (
          if absent bus slot function
          then devices
          else devices ++ (fill_device bus slot function ∷ [])) in
        if ltb (length devices) max_devices then rest else devices

    pub scan_slot : ℕ → ℕ → List Device → List Device
    scan_slot bus slot devices =
        if absent bus slot 0
        then devices
        else (let found = devices ++ (fill_device bus slot 0 ∷ []) in
            if single_function bus slot then found else scan_functions bus slot 7 1 found)

    pub scan_slots : ℕ → ℕ → ℕ → List Device → List Device
    scan_slots bus zero slot devices = devices
    scan_slots bus (suc rounds) slot devices =
        let rest = scan_slots bus rounds (slot + 1) (scan_slot bus slot devices) in
        if ltb (length devices) max_devices then rest else devices

    pub scan_buses : ℕ → ℕ → List Device → List Device
    scan_buses zero bus devices = devices
    scan_buses (suc rounds) bus devices =
        let rest = scan_buses rounds (bus + 1) (scan_slots bus 32 0 devices) in
        if ltb (length devices) max_devices then rest else devices

  -- The array is not null.
  pub enumerate : ℕ → List Device
  enumerate max_devices = if max_devices == 0 then [] else scan_buses max_devices 256 0 []

pub class_name : ℕ → ℕ → String
class_name class_code subclass =
    if class_code == 0x01
    then (if subclass == 0x01
        then "IDE storage"
        else if subclass == 0x06
        then "SATA storage"
        else "Mass storage")
    else if class_code == 0x02
    then "Network controller"
    else if class_code == 0x03
    then "Display controller"
    else if class_code == 0x04
    then "Multimedia controller"
    else if class_code == 0x06
    then (if subclass == 0x00
        then "Host bridge"
        else if subclass == 0x01
        then "ISA bridge"
        else if subclass == 0x04
        then "PCI bridge"
        else "Bridge device")
    else if class_code == 0x0C
    then (if subclass == 0x03 then "USB controller" else "Serial bus controller")
    else "Unknown device"
