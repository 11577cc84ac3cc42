-- ===== src/Tests/Printf.antt =====
-- Formatted printing, and the report of an exception over a stack of two frames.
use micron.Base.{
  ℕ, ◌≤◌, ◌<◌, ◌≡◌, refl, arith, max, some, List, [], ◌∷◌, ◌++◌, length, ◌>>=◌, codes, inr, inl,
  update,
}
use micron.Drivers.Printf.{word, Out, int_str, places}
use micron.Drivers.Printf.Convert.{vprintf}
use micron.Drivers.Printf.Numbers.{zero_padded, read_digits-int_str}
use micron.Util.Text.Digits.{read_digits}
use micron.Drivers.Printf.Decimals.{vprintf-decimal}
use micron.Cpu.Exceptions.{Registers, Symbol, Kernel, Call, exception_handler, displayed}
use micron.Cpu.Exceptions.Trace.{IsNamed, name_lines, exception_handler-ends}
use micron.Cpu.Exceptions.Shown.{exception_handler_low_half}

read_digits-int_str_example :
    (b : List ℕ) × (int_str 1234 10 (zero_padded 6) ≡ some b)
    × (read_digits 10 0 b ≡ some 1234)
    × (length b ≡ max 6 (places 64 1234 10))
read_digits-int_str_example =
    read_digits-int_str 1234 10 6 (inr (inl refl)) (omega arith) (omega arith)

vprintf-decimal_example :
    (b : List ℕ) × (o : Out) × (vprintf ((65 ∷ []) ++ 37 ∷ 100 ∷ 66 ∷ []) (word 1234 ∷ []) ≡ some o)
    × (o.shown ≡ (65 ∷ []) ++ b ++ 66 ∷ [])
    × (read_digits 10 0 b ≡ some 1234)
    × (length b ≡ places 64 1234 10)
vprintf-decimal_example =
    vprintf-decimal (65 ∷ []) (66 ∷ []) 1234 (omega arith, tt) (omega arith, tt) (omega arith)

abbrev start : Symbol
start = record { addr = 0x200100; name = codes "start" }

abbrev kmain : Symbol
kmain = record { addr = 0x200200; name = codes "kmain" }

-- A frame at 0x8000 that was called from `kmain`, and one at 0x8100 from `start`.
abbrev kernel : Kernel
kernel = record {
  symtab = start ∷ kmain ∷ [];
  kernel_start = 0x200000;
  kernel_end = 0x300000;
  memory =
      update (update (update (update (λ i. 0) 0x8000 0x8100) 0x8008 0x200210) 0x8100 0) 0x8108
        0x200110;
}

abbrev registers : Registers
registers = record {
  cr2 = 0x1234;
  rbp = 0x8000;
  interrupt_number = 14;
  error_code = 2;
  rip = 0x200220;
}

in_kmain : (r : ℕ) → 0x200200 ≤ r → r < 0x300000 → IsNamed kernel r (codes "kmain")
in_kmain r from inside = record {
  before = start ∷ [];
  symbol = kmain;
  rest = [];
  link = r;
  listed = refl;
  named = refl;
  slid = refl;
  link_fits = omega arith;
  from = from;
  below = omega arith;
  inside = inside;
}

in_start : IsNamed kernel 0x200110 (codes "start")
in_start = record {
  before = [];
  symbol = start;
  rest = kmain ∷ [];
  link = 0x200110;
  listed = refl;
  named = refl;
  slid = refl;
  link_fits = omega arith;
  from = omega arith;
  below = omega arith;
  inside = omega arith;
}

exception_handler-ends_example :
    (head : List Call) × (exception_handler 3 kernel registers
      ≡ some (
          head
          ++ (codes "\n\t\t >>> Stacktrace\n", [])
            ∷ name_lines (codes "kmain" ∷ codes "kmain" ∷ codes "start" ∷ [])))
exception_handler-ends_example =
    exception_handler-ends 3 kernel registers (codes "kmain") (codes "kmain" ∷ codes "start" ∷ [])
      (omega arith, omega arith, (omega arith, omega arith, tt)) (omega arith)
      (in_kmain 0x200220 (omega arith) (omega arith))
      (omega arith, in_kmain 0x200210 (omega arith) (omega arith), (omega arith, in_start, refl))
      (omega arith)

exception_handler_low_half_example :
    (exception_handler 3 kernel (record registers { cr2 = 0x1234 }) >>= displayed)
    ≡ (exception_handler 3 kernel (record registers { cr2 = 0xffff800000001234 }) >>= displayed)
exception_handler_low_half_example =
    exception_handler_low_half 3 kernel registers 0x1234 0xffff800000001234 refl
