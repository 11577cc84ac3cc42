-- ===== src/Drivers/Pci/Search.antt =====
-- What the search for devices finds.
use micron.Base.{
  ℕ, zero, suc, ◌+◌, ◌-◌, ◌≡◌, ◌≢◌, refl, arith, if◌then◌else◌, ◌<<<◌, Bool, true, false, List, [],
  ◌∷◌, ◌++◌,
}
use micron.Drivers.Pci.{
  DeviceHeader, DeviceConfiguration, Visit, map_memory, ahci_initialize, is_absent, is_ahci,
  enumerate_function, enumerate_functions, enumerate_device, enumerate_devices, enumerate_bus,
  enumerate_buses, enumerate_pci,
}

-- A header of a device that is there: a mass storage controller, for serial ATA, with AHCI 1.0.
pub record IsDiskHeader (d : DeviceHeader) : Type 0 where
  pub some_device : d.device_id ≢ 0
  pub answered : d.device_id ≢ 0xFFFF
  pub mass_storage : d.device_class ≡ 1
  pub serial_ata : d.device_subclass ≡ 6
  pub ahci_1_0 : d.program_interface ≡ 1

-- A device that is handed to the disk driver.
abbrev pub Suits : (ℕ → DeviceHeader) → Visit → Type 0
Suits memory (map_memory a) = Unit
Suits memory (ahci_initialize a) = IsDiskHeader (memory a)

tested-IsDiskHeader : (d : DeviceHeader) → is_absent d ≡ false → is_ahci d ≡ true → IsDiskHeader d
unfolding is_absent is_ahci
tested-IsDiskHeader d p q = record {
  some_device = ground arith;
  answered = ground arith;
  mass_storage = ground arith;
  serial_ata = ground arith;
  ahci_1_0 = ground arith;
}

abbrev pub AllSuit : (ℕ → DeviceHeader) → List Visit → Type 0
AllSuit memory [] = Unit
AllSuit memory (v ∷ vs) = Suits memory v × AllSuit memory vs

module _ (memory : ℕ → DeviceHeader) where
  AllSuit-append :
      (us vs : List Visit) → AllSuit memory us → AllSuit memory vs → AllSuit memory (us ++ vs)
  AllSuit-append [] vs p q = q
  AllSuit-append (u ∷ us) vs (s, p) q = (s, AllSuit-append us vs p q)

  AllSuit-unless :
      (b : Bool) (vs : List Visit) → AllSuit memory vs → AllSuit memory (if b then [] else vs)
  AllSuit-unless true vs p = tt
  AllSuit-unless false vs p = p

  AllSuit-function :
      (a : ℕ) (absent ahci : Bool)
      → is_absent (memory a) ≡ absent
      → is_ahci (memory a) ≡ ahci
      → AllSuit memory (if absent then [] else if ahci then ahci_initialize a ∷ [] else [])
  AllSuit-function a true ahci p q = tt
  AllSuit-function a false true p q = (tested-IsDiskHeader (memory a) p q, tt)
  AllSuit-function a false false p q = tt

  AllSuit-functions : (n a f : ℕ) → AllSuit memory (enumerate_functions memory n a f)
  unfolding enumerate_functions enumerate_function
  AllSuit-functions zero a f = tt
  AllSuit-functions (suc n) a f =
      AllSuit-append (enumerate_function memory a f) (enumerate_functions memory n a (suc f))
        (
          tt,
          AllSuit-function (a + (f <<< 12)) (is_absent (memory (a + (f <<< 12))))
              (is_ahci (memory (a + (f <<< 12)))) refl refl,
        )
        (AllSuit-functions n a (suc f))

  AllSuit-devices : (n a d : ℕ) → AllSuit memory (enumerate_devices memory n a d)
  unfolding enumerate_devices enumerate_device
  AllSuit-devices zero a d = tt
  AllSuit-devices (suc n) a d =
      AllSuit-append (enumerate_device memory a d) (enumerate_devices memory n a (suc d))
        (
          tt,
          AllSuit-unless (is_absent (memory (a + (d <<< 15))))
              (enumerate_functions memory 8 (a + (d <<< 15)) 0)
              (AllSuit-functions 8 (a + (d <<< 15)) 0),
        )
        (AllSuit-devices n a (suc d))

  AllSuit-buses : (n a b : ℕ) → AllSuit memory (enumerate_buses memory n a b)
  unfolding enumerate_buses enumerate_bus
  AllSuit-buses zero a b = tt
  AllSuit-buses (suc n) a b =
      AllSuit-append (enumerate_bus memory a b) (enumerate_buses memory n a (suc b))
        (
          tt,
          AllSuit-unless (is_absent (memory (a + (b <<< 20))))
              (enumerate_devices memory 32 (a + (b <<< 20)) 0)
              (AllSuit-devices 32 (a + (b <<< 20)) 0),
        )
        (AllSuit-buses n a (suc b))

-- The disk driver is handed only devices that are there, with an identifier that is neither 0 nor
-- 0xFFFF, and whose header has class 1, subclass 6 and interface 1: mass storage, serial ATA, AHCI 1.0.
pub enumerate_pci-AllSuit :
    (memory : ℕ → DeviceHeader) (entries : List DeviceConfiguration)
    → AllSuit memory (enumerate_pci memory entries)
unfolding enumerate_pci
enumerate_pci-AllSuit memory [] = tt
enumerate_pci-AllSuit memory (d ∷ entries) =
    AllSuit-append memory (enumerate_buses memory (d.end_bus - d.start_bus) d.base d.start_bus)
      (enumerate_pci memory entries)
      (AllSuit-buses memory (d.end_bus - d.start_bus) d.base d.start_bus)
      (enumerate_pci-AllSuit memory entries)
