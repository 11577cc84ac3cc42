-- ===== src/Drivers/Serial.antt =====
-- kernel/src/drivers/uart/serial.cpp: what the serial console sends back. The buffer is that of
-- `Drivers.Ports`.
pub mod Lines
use micron.Base.{
  ℕ, suc, ◌+◌, Option, some, ◌>>=◌, List, [], ◌∷◌, ◌++◌, ltb, ◌==◌, if◌then◌else◌, update, codes,
  text_at,
}
use micron.Util.Text.{strcomp}
use micron.Drivers.Ports.{Outs, irq_unmask, Console, read_character}

abbrev pub reply : List ℕ
reply = codes "We read you, loud and clear, sergeant!\n"

-- What `read_command` sends for the text in the buffer.
unfoldable pub read_command : List ℕ → List ℕ
read_command command = if strcomp command (codes "test-commands") then reply else []

-- `prompt`
abbrev pub prompt : List ℕ
prompt = codes "\nkernel-console> "

-- `init`: the bytes that it writes to ports, those that it sends, and the buffer; the index is not set.
unfoldable pub console_init : (inb : ℕ → ℕ) → Console → Outs × List ℕ × Console
console_init inb c = (
  (0x3F9, 1) ∷ irq_unmask inb 4 ∷ [],
  prompt,
  record c { serial_buffer = λ i. if ltb i 512 then 0 else c.serial_buffer i },
)

-- What `read_character` sends for a byte. At a newline the last one is the first byte of the buffer,
-- which is empty by then; the command ends at the NUL that has replaced the newline.
unfoldable pub sent_for : (byte : ℕ) → Console → List ℕ
sent_for byte c =
    let ended = update c.serial_buffer c.buffer_index 0 in
    let answer = read_command (text_at (suc c.buffer_index) 0 ended) in
    if byte == 10 then codes "\r\n" ++ answer ++ prompt ++ 0 ∷ [] else byte ∷ []

unfoldable pub receive : (byte : ℕ) → Console → Option (List ℕ × Console)
receive byte c = read_character byte c >>= λ c'. some (sent_for byte c, c')

-- One interrupt after another.
unfoldable pub receive_all : List ℕ → Console → Option (List ℕ × Console)
receive_all [] c = some ([], c)
receive_all (byte ∷ bytes) c = do
  (sent, c') ← receive byte c
  (rest, c'') ← receive_all bytes c'
  some (sent ++ rest, c'')
