-- ===== src/Drivers/Serial/Lines.antt =====
-- A line on the serial console.
use mathlib.Core.List.{append-nil}
use mathlib.Core.Path.{subst}
use micron.Base.{
  ℕ, suc, ◌+◌, ◌<◌, ◌≡◌, ◌≢◌, ◌∙◌, refl, ap, arith, some, ltb, if◌then◌else◌, List, [], ◌∷◌, ◌++◌,
  length, update, codes, text_at,
}
use micron.Drivers.Ports.{Console, read_character}
use micron.Drivers.Serial.{read_command, prompt, sent_for, receive, receive_all}

-- No byte is a NUL or a newline.
abbrev pub IsLine : List ℕ → Type 0
IsLine [] = Unit
IsLine (b ∷ bytes) = (b ≢ 0) × (b ≢ 10) × IsLine bytes

-- The bytes stored from `i` on.
unfoldable put_all : List ℕ → (i : ℕ) → (ℕ → ℕ) → ℕ → ℕ
put_all [] i buffer = buffer
put_all (b ∷ bytes) i buffer = put_all bytes (suc i) (update buffer i b)

put_all-below :
    (bytes : List ℕ) (i : ℕ) (buffer : ℕ → ℕ) (k : ℕ) → k < i → put_all bytes i buffer k ≡ buffer k
unfolding put_all
put_all-below [] i buffer k h = refl
put_all-below (b ∷ bytes) i buffer k h =
    put_all-below bytes (suc i) (update buffer i b) k (omega arith) ∙ ground arith

text_at-put_all :
    (bytes : List ℕ) (i n : ℕ) (buffer : ℕ → ℕ)
    → IsLine bytes
    → n ≡ i + length bytes
    → text_at (suc (length bytes)) i (update (put_all bytes i buffer) n 0) ≡ bytes
unfolding text_at put_all
text_at-put_all [] i n buffer h e = ground arith
text_at-put_all (b ∷ bytes) i n buffer (some_byte, line, h) e = ground (
  arith,
  put_all-below bytes (suc i) (update buffer i b) i (omega arith),
  text_at-put_all bytes (suc i) n (update buffer i b) h (omega arith),
)

receive-stored :
    (b i : ℕ) (buffer : ℕ → ℕ)
    → b ≢ 10
    → i < 512
    → receive b (record { serial_buffer = buffer; buffer_index = i })
      ≡ some (b ∷ [], record { serial_buffer = update buffer i b; buffer_index = suc i })
unfolding receive read_character sent_for
receive-stored b i buffer line room = ground arith

-- The console after the newline.
abbrev emptied : (buffer : ℕ → ℕ) → (n : ℕ) → Console
emptied buffer n = record {
  serial_buffer = λ i. if ltb i 512 then 0 else update buffer n 0 i;
  buffer_index = 0;
}

receive-newline :
    (buffer : ℕ → ℕ) (n : ℕ)
    → n < 512
    → receive 10 (record { serial_buffer = buffer; buffer_index = n })
      ≡ some (sent_for 10 (record { serial_buffer = buffer; buffer_index = n }), emptied buffer n)
unfolding receive read_character
receive-newline buffer n room = ground arith

receive_all-IsLine :
    (bytes : List ℕ) (i n : ℕ) (buffer : ℕ → ℕ)
    → IsLine bytes
    → n ≡ i + length bytes
    → n < 512
    → receive_all (bytes ++ 10 ∷ []) (record { serial_buffer = buffer; buffer_index = i })
      ≡ some (
        bytes
            ++ (sent_for 10 (record { serial_buffer = put_all bytes i buffer; buffer_index = n })
                ++ []),
        emptied (put_all bytes i buffer) n,
      )
unfolding receive_all put_all
receive_all-IsLine [] i n buffer h e room =
    subst
      (λ (k : ℕ).
        receive_all (10 ∷ []) (record { serial_buffer = buffer; buffer_index = i })
        ≡ some (
          sent_for 10 (record { serial_buffer = buffer; buffer_index = k }) ++ [],
          emptied buffer k,
        ))
      same (rw (receive-newline buffer i (omega arith)) refl)
  where
    same : i ≡ n
    same = omega arith
receive_all-IsLine (b ∷ bytes) i n buffer (some_byte, line, h) e room =
    rw (receive-stored b i buffer line (omega arith))
      (rw (receive_all-IsLine bytes (suc i) n (update buffer i b) h (omega arith) room) refl)

-- A line of at most 511 bytes that are no NUL and no newline, sent to a console whose buffer begins
-- anew, is sent back byte by byte; behind it come a new line, the reply that `read_command` has for the
-- line, the prompt and a NUL. The buffer is empty then, and begins anew.
pub receive_all-line :
    (bytes : List ℕ) (buffer : ℕ → ℕ)
    → IsLine bytes
    → length bytes < 512
    → (c : Console) × (receive_all
          (bytes ++ 10 ∷ [])
          (record { serial_buffer = buffer; buffer_index = 0 })
        ≡ some (bytes ++ (codes "\r\n" ++ read_command bytes ++ prompt ++ 0 ∷ []), c))
      × (c.buffer_index ≡ 0)
      × ((i : ℕ) → i < 512 → c.serial_buffer i ≡ 0)
receive_all-line bytes buffer line room = (
  emptied (put_all bytes 0 buffer) (length bytes),
  receive_all-IsLine bytes 0 (length bytes) buffer line (omega arith) room
      ∙ ap (λ (t : List ℕ). some (bytes ++ t, emptied (put_all bytes 0 buffer) (length bytes)))
          (append-nil _ ∙ answered),
  refl,
  λ i h. ground arith,
)
  where
    answered :
        sent_for 10 (record { serial_buffer = put_all bytes 0 buffer; buffer_index = length bytes })
        ≡ codes "\r\n" ++ read_command bytes ++ prompt ++ 0 ∷ []
    answered =
        unfold sent_for in
        ap (λ (t : List ℕ). codes "\r\n" ++ read_command t ++ prompt ++ 0 ∷ [])
          (text_at-put_all bytes 0 (length bytes) buffer line (omega arith))
