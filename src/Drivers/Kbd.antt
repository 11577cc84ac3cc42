-- ===== src/Drivers/Kbd.antt =====
-- kernel/src/drivers/kbd/kbd.cpp: scan codes, modifier keys, and the subscribers to key events.
pub mod Codes
pub mod Publish
use micron.Base.{
  ℕ, zero, suc, ◌+◌, ◌-◌, ◌^◌, bit_and, bit_or, Bool, true, false, not, ◌&&◌, ◌||◌, Option, none,
  some, List, [], ◌∷◌, ltb, ◌==◌, if◌then◌else◌, u16, ◌<<<◌, ◌>>>◌, update,
}

pub record KeyboardPacket : Type 0 where
  pub key_code : ℕ
  pub release_or_press : Bool
  pub shifted : Bool
  pub ctrl_down : Bool
  pub alt_down : Bool
  pub fn_down : Bool
  pub caps_lock : Bool
  pub scroll_lock : Bool
  pub num_lock : Bool

-- The flags of the namespace `io::keyboard`.
pub record Modifiers : Type 0 where
  pub shifted : Bool
  pub ctrl_down : Bool
  pub alt_down : Bool
  pub fn_down : Bool
  pub caps_lock : Bool
  pub scroll_lock : Bool
  pub num_lock : Bool

-- A key event as the scan code gives it.
pub record KeyEvent : Type 0 where
  pub key_code : ℕ
  pub release_or_press : Bool

-- `first` is read from port 0x60, and `second` too where the first byte is 0xE0.
unfoldable pub read_scan_code : (first second : ℕ) → ℕ
read_scan_code first second = if first == 0xe0 then bit_or (first <<< 8) second else first

-- The code of a key with the prefix: 0x10 is taken off and 0x60 put on, in 16 bits.
unfoldable pub decode_extended : ℕ → KeyEvent
decode_extended code =
    let scan = u16 (bit_and code 0x00ff + 2 ^ 16 - 0x10) in
    if ltb scan 0x80
    then record { key_code = bit_and (u16 (scan + 0x60)) 0x00ff; release_or_press = true }
    else record {
      key_code = bit_and (u16 (u16 (scan - 0x80) + 0x60)) 0x00ff;
      release_or_press = false;
    }

unfoldable pub decode : ℕ → KeyEvent
decode scan_code =
    if scan_code >>> 8 == 0xe0
    then decode_extended scan_code
    else if ltb scan_code 0x80
    then record { key_code = scan_code; release_or_press = true }
    else record { key_code = scan_code - 0x80; release_or_press = false }

unfoldable pub track : KeyEvent → Modifiers → Modifiers
track e m = record {
  shifted = if e.key_code == 0x2a || e.key_code == 0x36 then e.release_or_press else m.shifted;
  ctrl_down = if e.key_code == 0x1d || e.key_code == 0x8d then e.release_or_press else m.ctrl_down;
  alt_down = if e.key_code == 0x38 || e.key_code == 0xa8 then e.release_or_press else m.alt_down;
  fn_down = m.fn_down;
  caps_lock = if e.key_code == 0x3a && e.release_or_press then not m.caps_lock else m.caps_lock;
  scroll_lock =
      if e.key_code == 0x46 && e.release_or_press then not m.scroll_lock else m.scroll_lock;
  num_lock = if e.key_code == 0x45 && e.release_or_press then not m.num_lock else m.num_lock;
}

unfoldable pub packet : KeyEvent → Modifiers → KeyboardPacket
packet e m = record {
  key_code = e.key_code;
  release_or_press = e.release_or_press;
  shifted = m.shifted;
  ctrl_down = m.ctrl_down;
  alt_down = m.alt_down;
  fn_down = m.fn_down;
  caps_lock = m.caps_lock;
  scroll_lock = m.scroll_lock;
  num_lock = m.num_lock;
}

-- `keyboard_event_subscriber`, function addresses by index, and `keyboard_subscribers`. A store
-- past the 256 places of the array lands in what follows it.
pub record Subscribers : Type 0 where
  pub table : ℕ → ℕ
  pub count : ℕ

unfoldable pub keyboard_event_subscribe : ℕ → Subscribers → Subscribers
keyboard_event_subscribe subscriber s = record {
  table = update s.table s.count subscriber;
  count = s.count + 1;
}

-- The search of `keyboard_event_unsubscribe`, from index `i` with the rounds left.
unfoldable pub find_subscriber : ℕ → (ℕ → ℕ) → ℕ → ℕ → Option ℕ
find_subscriber subscriber table i zero = none
find_subscriber subscriber table i (suc left) =
    let rest = find_subscriber subscriber table (i + 1) left in
    if table i == subscriber then some i else rest

-- `for (i = i; …; i++) table[i] = table[i + 1]`, with the rounds left.
unfoldable pub move_down : ℕ → ℕ → (ℕ → ℕ) → ℕ → ℕ
move_down i zero table = table
move_down i (suc left) table = move_down (i + 1) left (update table i (table (i + 1)))

-- Where the subscriber is not found, the entries are moved down from index 0.
unfoldable pub keyboard_event_unsubscribe : ℕ → Subscribers → Subscribers
keyboard_event_unsubscribe subscriber s = elim (find_subscriber subscriber s.table 0 s.count) [
  | some i ↦ record { table = move_down i (64 - i) (update s.table i 0); count = s.count - 1 }
  | none ↦ record { table = move_down 0 64 s.table; count = s.count }
]

-- `count` entries of the table from index `i`.
unfoldable pub entries : (ℕ → ℕ) → ℕ → ℕ → List ℕ
entries table i zero = []
entries table i (suc n) = table i ∷ entries table (i + 1) n

-- `keyboard_event_publisher` calls these functions, in this order, with the packet.
abbrev pub published_to : Subscribers → List ℕ
published_to s = entries s.table 0 s.count

-- `kbd_irq_handler`: the new modifiers, the packet, and who receives it.
unfoldable pub kbd_irq_handler :
    (first second : ℕ) → Modifiers → Subscribers → Modifiers × KeyboardPacket × List ℕ
kbd_irq_handler first second m s =
    let e = decode (read_scan_code first second) in
    let m' = track e m in (m', packet e m', published_to s)
