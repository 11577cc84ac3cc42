-- ===== src/Boot/Endings.antt =====
-- How the boot ends.
use micron.Base.{ℕ, ◌≡◌, refl, ap, fun_ext, false, some, ◌>>=◌, [], ◌∷◌, ◌++◌}
use micron.Boot.{
  Machine, BootInfo, with_space, space_of, boot_devices, start_devices, keyboard_init,
  configure_userspace, mnkmain,
}
use micron.Memory.Paging.{donate_to_userspace}
use micron.Drivers.Ports.{Pit, set_c0_frequency, irq_unmask, speaker_init, pit_init}

-- The machine that the boot leaves, from the one that the search for devices has left.
abbrev pub started : BootInfo → Machine → Machine
started env d = record (with_space (donate_to_userspace env.uentry (space_of d)) d) {
  pit = record d.pit { frequency_hz = 1000; divisor = 1193 };
  modifiers = record {
    shifted = d.modifiers.shifted;
    ctrl_down = false;
    alt_down = false;
    fn_down = false;
    caps_lock = false;
    scroll_lock = false;
    num_lock = false;
  };
  outs =
      d.outs
      ++ ((0x43, 0x34) ∷ (0x40, 0xA9) ∷ (0x40, 0x04) ∷ [])
      ++ irq_unmask (env.inb 0) 0 ∷ speaker_init (env.inb 1 0x61) ∷ irq_unmask (env.inb 2) 1 ∷ [];
}

timer_started :
    (p : Pit)
    → set_c0_frequency 1000 p
      ≡ some (
        record p { frequency_hz = 1000; divisor = 1193 },
        (0x43, 0x34) ∷ (0x40, 0xA9) ∷ (0x40, 0x04) ∷ [],
      )
unfolding set_c0_frequency
timer_started p = refl

start_devices-started : (env : BootInfo) (d : Machine) → start_devices env d ≡ some (started env d)
unfolding start_devices keyboard_init configure_userspace pit_init
start_devices-started env d = rw (timer_started d.pit) refl

-- Once the devices have been searched nothing in the boot fails: the timer counts 1193 ticks for each
-- interrupt, the first two lines are unmasked, no key but a shift is held, and the entry of the user
-- program is given to user mode.
pub mnkmain-started :
    (fuel stack : ℕ) (env : BootInfo) (m : Machine)
    → mnkmain fuel stack env m ≡ (boot_devices fuel stack env m >>= λ d. some (started env d))
unfolding mnkmain
mnkmain-started fuel stack env m =
    ap (λ f. boot_devices fuel stack env m >>= f) (fun_ext (λ d. start_devices-started env d))
