-- ===== src/Drivers/Ahci/Engine.antt =====
-- kernel/src/drivers/disk/ahci/ahci.cpp: command_stop, command_start and configure_port.
use micron.Base.{
  ℕ, zero, suc, ◌+◌, bit_and, Bool, ◌||◌, Option, none, some, ◌>>=◌, List, [], ◌∷◌, ltb,
  if◌then◌else◌, u32, u64, ◌<<<◌, ◌>>>◌,
}
use micron.Memory.Pmm.{Pmm, request_page}
use micron.Drivers.Ahci.{HbaPort, command_stop_masks, command_start_bits}

-- What the n-th read of the register `command_status` gives in the loop of `command_stop`, and in that
-- of `command_start`.
pub record Engine : Type 0 where
  pub stop_status : ℕ → ℕ
  pub start_status : ℕ → ℕ

-- `pxcmd_fr`
unfoldable pub is_receiving : ℕ → Bool
is_receiving command_status = ltb 0 (bit_and command_status 0x4000)

-- `pxcmd_cr`
unfoldable pub is_running : ℕ → Bool
is_running command_status = ltb 0 (bit_and command_status 0x8000)

-- The loop of `command_stop`, with `n` reads before it: each round reads the register once, or twice.
-- It answers the number of reads; it has no bound, and `none` is fuel that is used up.
unfoldable pub stop_wait : (fuel n : ℕ) → Engine → Option ℕ
stop_wait zero n e = none
stop_wait (suc fuel) n e =
    let receives = is_receiving (e.stop_status n) in
    let reads = if receives then suc n else suc (suc n) in
    let rest = stop_wait fuel reads e in
    if receives || is_running (e.stop_status (suc n)) then rest else some reads

unfoldable pub start_wait : (fuel n : ℕ) → Engine → Option ℕ
start_wait zero n e = none
start_wait (suc fuel) n e =
    let again = start_wait fuel (suc n) e in
    if is_running (e.start_status n) then again else some (suc n)

unfoldable pub command_stop : (fuel : ℕ) → Engine → HbaPort → Option HbaPort
command_stop fuel e port = stop_wait fuel 0 e >>= λ reads. some (command_stop_masks port)

unfoldable pub command_start : (fuel : ℕ) → Engine → HbaPort → Option HbaPort
command_start fuel e port = start_wait fuel 0 e >>= λ reads. some (command_start_bits port)

-- The tables of the command headers from `i` on, `n` of them: each has a page of its own, and stands
-- in it at `i` times 256. The cast drops the upper word of the address.
unfoldable pub configure_headers : (n i : ℕ) → Pmm → List (ℕ × ℕ) × Pmm
configure_headers zero i s = ([], s)
configure_headers (suc n) i s =
    let (page, s') = request_page s in
    let address = u64 (page + (i <<< 8)) in
    let (rest, s'') = configure_headers n (suc i) s' in
    ((u32 address, u32 (u64 (address <<< 32))) ∷ rest, s'')

-- The page of the command list, and that of the device's answers.
unfoldable pub set_bases : (list fis : ℕ) → HbaPort → HbaPort
set_bases list fis port = record port {
  command_list_base = u32 list;
  command_list_base_upper = u32 (list >>> 32);
  fis_base = u32 fis;
  fis_base_upper = u32 (fis >>> 32);
}

-- `configure_port`: the port, the addresses of the tables, and the allocator.
unfoldable pub configure_port :
    (fuel : ℕ) → Engine → HbaPort → Pmm → Option (HbaPort × List (ℕ × ℕ) × Pmm)
configure_port fuel e port s = command_stop fuel e port >>= λ stopped.
    let (list, s₁) = request_page s in
    let (fis, s₂) = request_page s₁ in
    let (tables, s₃) = configure_headers 32 0 s₂ in
    command_start fuel e (set_bases list fis stopped) >>= λ started. some (started, tables, s₃)
