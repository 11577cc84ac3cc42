-- ===== src/Drivers/Ports.antt =====
-- kernel/src/drivers/8259/pic.cpp, kernel/src/scheduling/timer.cpp,
-- kernel/src/drivers/audio/beeper/beeper.cpp and kernel/src/drivers/uart/serial.cpp: the small
-- drivers that write to I/O ports. A write is a port and a byte.
pub mod Lines
pub mod Divisors
use micron.Base.{
  ℕ, zero, suc, ◌+◌, ◌-◌, ◌*◌, ◌/◌, ◌%◌, ◌^◌, bit_and, bit_or, Bool, true, false, not, ◌&&◌, Option,
  none, some, List, [], ◌∷◌, ◌++◌, ltb, leb, ◌==◌, if◌then◌else◌, u8, u16, ◌<<<◌, ◌>>>◌, complement,
  update, ◌>>=◌,
}

abbrev pub Outs : Type 0
Outs = List (ℕ × ℕ)

unfoldable pub pic_send_eoi : ℕ → Outs
pic_send_eoi irq = if leb 8 irq then (0xA0, 0x20) ∷ (0x20, 0x20) ∷ [] else (0x20, 0x20) ∷ []

-- `a1` and `a2` are the masks that are read first; the waits between the writes are left out.
unfoldable pub pic_remap : (a1 a2 offset1 offset2 : ℕ) → Outs
pic_remap a1 a2 offset1 offset2 =
    (0x20, bit_or 0x10 0x01)
    ∷ (0xA0, bit_or 0x10 0x01)
    ∷ (0x21, offset1)
    ∷ (0xA1, offset2)
    ∷ (0x21, 4)
    ∷ (0xA1, 2)
    ∷ (0x21, 0x01)
    ∷ (0xA1, 0x01)
    ∷ (0x21, a1)
    ∷ (0xA1, a2)
    ∷ []

-- The data port of the chip that a line belongs to, and the line's number there.
unfoldable pub line_port : ℕ → ℕ
line_port irq = if ltb irq 8 then 0x21 else 0xA1

unfoldable pub line_bit : ℕ → ℕ
line_bit irq = if ltb irq 8 then irq else irq - 8

unfoldable pub irq_mask : (inb : ℕ → ℕ) → ℕ → ℕ × ℕ
irq_mask inb irq = (line_port irq, u8 (bit_or (inb (line_port irq)) (1 <<< line_bit irq)))

unfoldable pub irq_unmask : (inb : ℕ → ℕ) → ℕ → ℕ × ℕ
irq_unmask inb irq =
    (line_port irq, u8 (bit_and (inb (line_port irq)) (complement 32 (1 <<< line_bit irq))))

pub record Pit : Type 0 where
  pub divisor : ℕ
  pub frequency_hz : ℕ
  pub c2_divisor : ℕ
  pub c2_frequency_hz : ℕ

-- `none` where the division by `hz` traps.
unfoldable pub set_c0_frequency : ℕ → Pit → Option (Pit × Outs)
set_c0_frequency hz p =
    if hz == 0
    then none
    else (let divisor = u16 (1193182 / hz) in
        some (
          record p { frequency_hz = hz; divisor = divisor },
          (0x43, 0x34) ∷ (0x40, bit_and divisor 0xFF) ∷ (0x40, u8 (divisor >>> 8)) ∷ [],
        ))

unfoldable pub set_c2_frequency : ℕ → Pit → Option (Pit × Outs)
set_c2_frequency hz p =
    if hz == 0
    then none
    else some (
      record p { c2_frequency_hz = hz; c2_divisor = u16 (1193182 / hz) },
      (0x43, 0xB6) ∷ (0x42, bit_and p.divisor 0xFF) ∷ (0x42, u8 (p.divisor >>> 8)) ∷ [],
    )

-- `tmp` is what port 0x61 reads.
unfoldable pub speaker_on : ℕ → Outs
speaker_on tmp = if tmp == bit_or tmp 3 then [] else (0x61, bit_or tmp 3) ∷ []

unfoldable pub play_sound : (frequency tmp : ℕ) → Pit → Option (Pit × Outs)
play_sound frequency tmp p = elim (set_c2_frequency frequency p) [
  | none ↦ none
  | some r ↦ some (r.0, r.1 ++ speaker_on tmp)
]

unfoldable pub stop_sound : ℕ → Outs
stop_sound tmp = (0x61, bit_and tmp 0xFC) ∷ []

-- `beep`, of which the one without arguments is `beep 1000 10`: the sleep writes to no port. `tmp` and
-- `later` are what port 0x61 reads before the sleep and after it.
unfoldable pub beep : (frequency tmp later : ℕ) → Pit → Option (Pit × Outs)
beep frequency tmp later p = do
  (playing, on) ← play_sound frequency tmp p
  (quiet, off) ← set_c2_frequency 1 playing
  some (quiet, on ++ stop_sound later ++ off)

-- `init` of the speaker, and `pit_init`; `tmp` is what port 0x61 reads.
unfoldable pub speaker_init : (tmp : ℕ) → ℕ × ℕ
speaker_init tmp = (0x61, bit_or tmp 0x1)

unfoldable pub pit_init : (inb : ℕ → ℕ) → ℕ × ℕ
pit_init inb = irq_unmask inb 0

pub record Console : Type 0 where
  pub serial_buffer : ℕ → ℕ
  pub buffer_index : ℕ

-- What a byte from the line does to the buffer: a newline is replaced by a NUL, ends the command and
-- empties the 512 places of the buffer; any other byte is kept and echoed. Nothing in the code bounds
-- the index, and a store past the buffer is `none`.
unfoldable pub read_character : ℕ → Console → Option Console
read_character byte c =
    if leb 512 c.buffer_index
    then none
    else if byte == 10
    then some (record {
      serial_buffer = λ i. if ltb i 512 then 0 else update c.serial_buffer c.buffer_index 0 i;
      buffer_index = 0;
    })
    else some (record {
      serial_buffer = update c.serial_buffer c.buffer_index byte;
      buffer_index = suc c.buffer_index;
    })
