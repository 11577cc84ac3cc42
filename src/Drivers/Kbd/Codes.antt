-- ===== src/Drivers/Kbd/Codes.antt =====
-- Make and break codes, and the modifiers that follow them.
use micron.Base.{
  ap, ◌∙◌, ℕ, ◌+◌, ◌-◌, ◌%◌, ◌^◌, ◌≤◌, ◌<◌, ◌≡◌, refl, arith, bit_and, Bool, true, false, not, ltb,
  if◌then◌else◌, u16,
}
use micron.Bits.Fields.{bit_and_mask, bit_or_fields}
use micron.Drivers.Kbd.{KeyEvent, Modifiers, read_scan_code, decode_extended, decode, track}

abbrev pub event : ℕ → Bool → KeyEvent
event code pressed = record { key_code = code; release_or_press = pressed }

read_plain : (code second : ℕ) → code < 0xe0 → read_scan_code code second ≡ code
unfolding read_scan_code
read_plain code second h = ground arith

read_prefixed : (code : ℕ) → code < 256 → read_scan_code 0xe0 code ≡ 0xe000 + code
unfolding read_scan_code
read_prefixed code h = omega (arith, bit_or_fields 8 0xe0 code h)

decode_plain :
    (code : ℕ)
    → code < 0xe0
    → decode code ≡ (if ltb code 0x80 then event code true else event (code - 0x80) false)
unfolding decode
decode_plain code h = ground arith

decode_prefixed : (code : ℕ) → code < 256 → decode (0xe000 + code) ≡ decode_extended (0xe000 + code)
unfolding decode
decode_prefixed code h = ground arith

-- The second byte of a prefixed code, once 0x10 is taken off.
byte_less :
    (code : ℕ)
    → 0x10 ≤ code
    → code < 256
    → u16 (bit_and (0xe000 + code) 0x00ff + 2 ^ 16 - 0x10) ≡ code - 0x10
byte_less code lo hi = omega (arith, bit_and_mask 8 (0xe000 + code))

key_byte : (n : ℕ) → bit_and n 0x00ff ≡ n % 256
key_byte n = bit_and_mask 8 n

decode_extended-press :
    (code : ℕ)
    → 0x10 ≤ code
    → code < 0x90
    → decode_extended (0xe000 + code) ≡ event (code + 0x50) true
unfolding decode_extended
decode_extended-press code lo hi =
    ground (arith, byte_less code lo (omega arith), key_byte (u16 (code - 0x10 + 0x60)))

decode_extended-release :
    (code : ℕ)
    → 0x90 ≤ code
    → code < 256
    → decode_extended (0xe000 + code) ≡ event (code - 0x80 + 0x50) false
unfolding decode_extended
decode_extended-release code lo hi =
    ground
      (arith, byte_less code (omega arith) hi, key_byte (u16 (u16 (code - 0x10 - 0x80) + 0x60)))

-- A plain code below 0x80 other than the prefix's is a press of that key, and the code with the top
-- bit set is the release of the same key. Behind the prefix 0xE0, codes from 0x10 up behave alike,
-- with the key numbered 0x50 higher.
decode_make_break :
    (code second : ℕ)
    → code < 0x60
    → (decode (read_scan_code code second) ≡ event code true)
      × (decode (read_scan_code (code + 0x80) second) ≡ event code false)
      × (0x10 ≤ code
          → (decode (read_scan_code 0xe0 code) ≡ event (code + 0x50) true)
            × (decode (read_scan_code 0xe0 (code + 0x80)) ≡ event (code + 0x50) false))
decode_make_break code second h = (
  ground (arith, read_plain code second, decode_plain code),
  ground (arith, read_plain (code + 0x80) second, decode_plain (code + 0x80)),
  λ lo. (
    read_extended code (omega arith) ∙ decode_extended-press code lo (omega arith),
    read_extended (code + 0x80) (omega arith)
        ∙ decode_extended-release (code + 0x80) (omega arith) (omega arith)
        ∙ ap (λ k. event (k + 0x50) false) (omega arith),
  ),
)
  where
    read_extended :
        (c : ℕ) → c < 256 → decode (read_scan_code 0xe0 c) ≡ decode_extended (0xe000 + c)
    read_extended c small = rw (read_prefixed c small) (decode_prefixed c small)

-- A press and a release of a key.
abbrev pub stroke : ℕ → Modifiers → Modifiers
stroke code m = track (event code false) (track (event code true) m)

-- The lock keys toggle on a press and ignore the release, so a stroke of caps lock, num lock or
-- scroll lock flips its own flag; a stroke of a shift key leaves `shifted` off, and no key changes
-- `fn_down`.
track-stroke :
    (m : Modifiers)
    → ((stroke 0x3a m).caps_lock ≡ not m.caps_lock)
      × ((stroke 0x45 m).num_lock ≡ not m.num_lock)
      × ((stroke 0x46 m).scroll_lock ≡ not m.scroll_lock)
      × ((stroke 0x2a m).shifted ≡ false)
      × ((code : ℕ) → (stroke code m).fn_down ≡ m.fn_down)
unfolding track
track-stroke m = (refl, refl, refl, refl, λ code. refl)

-- Behind the prefix the right control key (0x1D) and the right alt key (0x38) decode to 0x6D and
-- 0x88, which `kbd_irq_handler` does not test for: they change no modifier.
pub right_modifiers_ignored :
    (m : Modifiers) (pressed : Bool)
    → (track (event (0x1d + 0x50) pressed) m ≡ m) × (track (event (0x38 + 0x50) pressed) m ≡ m)
unfolding track
right_modifiers_ignored m pressed = (refl, refl)
