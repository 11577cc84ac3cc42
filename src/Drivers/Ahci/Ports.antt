-- ===== src/Drivers/Ahci/Ports.antt =====
-- The ports that are used, and what a command says of its sectors.
use micron.Base.{
  ℕ, zero, suc, ◌+◌, ◌*◌, ◌/◌, ◌%◌, ◌^◌, ◌<◌, ◌≡◌, refl, arith, bit_and, List, [], ◌∷◌, ltb, ◌==◌,
  not, ◌&&◌, ◌||◌, ap, ◌∙◌, ◌<<<◌, if◌then◌else◌, Bool,
}
use micron.Bits.{bit, test_bit, test_bit-bit}
use micron.Bits.Fields.{bit_and_mask}
use micron.Drivers.Ahci.{
  HbaPort, is_usable, port_type_of, get_port_type, probe_loop, served_ports, set_up_command,
}

-- The signatures of a disk, an enclosure bridge, a packet device and a port multiplier.
unfoldable pub is_known : ℕ → Bool
is_known signature =
    (signature == 0x101)
    || (signature == 0xC33C0101)
    || (signature == 0xEB140101)
    || (signature == 0x96690101)

-- Bit `i` of the implemented ports is set; the port's status says that a device is present (3 in its
-- lowest three bits) and that its interface is active (1 in bits 8 to 10), and its signature is known.
unfoldable pub is_served : ℕ → (ℕ → HbaPort) → ℕ → Bool
is_served implemented ports i =
    (bit i implemented == 1)
    && ((ports i).sata_status % 8 == 3)
    && ((ports i).sata_status / 2 ^ 8 % 8 == 1)
    && is_known (ports i).signature

bit_test : (v i : ℕ) → (bit_and v (1 <<< i) == 0) ≡ not (bit i v == 1)
unfolding test_bit
bit_test v i =
    positive (bit_and v (1 <<< i))
    ∙ ap (λ (x : ℕ). not (ltb 0 (bit_and v x))) one
    ∙ ap not (test_bit-bit v i)
  where
    positive : (x : ℕ) → (x == 0) ≡ not (ltb 0 x)
    positive x = ground arith

    one : 1 <<< i ≡ 2 ^ i
    one = omega arith

is_usable-served :
    (p : HbaPort)
    → is_usable (get_port_type p)
      ≡ ((p.sata_status % 8 == 3) && (p.sata_status / 2 ^ 8 % 8 == 1) && is_known p.signature)
unfolding get_port_type port_type_of is_usable is_known
is_usable-served p =
    ground (arith, bit_and_mask 3 p.sata_status, bit_and_mask 3 (p.sata_status / 2 ^ 8))

-- The numbers from `i` on, `n` of them, that pass the test.
unfoldable pub select : (ℕ → Bool) → (n i : ℕ) → List ℕ
select test zero i = []
select test (suc n) i = if test i then i ∷ select test n (suc i) else select test n (suc i)

-- The ports that are given memory are, in the order of their numbers, those whose bit is set among the
-- implemented ones, whose status says that a device is present (3 in bits 0 to 2) and the interface
-- active (1 in bits 8 to 10), and whose signature is one of the four that are known; no other is.
pub served_ports-select :
    (implemented : ℕ) (ports : ℕ → HbaPort)
    → served_ports implemented ports ≡ select (is_served implemented ports) 32 0
unfolding served_ports probe_loop select is_served
served_ports-select implemented ports = loop 32 0
  where
    loop : (n i : ℕ) → probe_loop n i implemented ports ≡ select (is_served implemented ports) n i
    loop zero i = refl
    loop (suc n) i =
        ground (arith, loop n (suc i), bit_test implemented i, is_usable-served (ports i))

-- The controller gets back the buffer's address, and the sector count, from the fields of a command,
-- and of the sector number the lowest byte of each half.
set_up_command-fields :
    (writes : Bool) (code sector sector_count buffer : ℕ)
    → buffer < 2 ^ 64
    → sector_count < 2 ^ 16
    → let c = set_up_command writes code sector sector_count buffer in
      (c.data_base_address + c.data_base_address_upper * 2 ^ 32 ≡ buffer)
      × (c.count_low + c.count_high * 2 ^ 8 ≡ sector_count)
      × (c.lba0 ≡ sector % 2 ^ 8)
      × (c.lba1 ≡ 0)
      × (c.lba2 ≡ 0)
      × (c.lba3 ≡ 0)
      × (c.lba5 ≡ 0)
unfolding set_up_command
set_up_command-fields writes code sector sector_count buffer fits count_fits = (
  omega arith,
  omega (arith, bit_and_mask 8 sector_count, bit_and_mask 8 (sector_count / 2 ^ 8)),
  omega arith,
  omega arith,
  omega arith,
  omega arith,
  omega arith,
)
