-- ===== src/Util/Strings.antt =====
-- kernel/src/util/kutil.cpp and kernel/src/memory/operations.cpp: the loops that write texts and bytes
-- into memory. Memory is a function of the address; no address wraps.
pub mod Copies
use micron.Base.{
  ℕ, zero, suc, ◌+◌, Bool, Option, none, some, ◌>>=◌, ◌==◌, if◌then◌else◌, u8, update,
}

-- `memset`: `left` bytes are left from the `i`-th on.
unfoldable pub memset_loop : (left i buf value : ℕ) → (ℕ → ℕ) → ℕ → ℕ
memset_loop zero i buf value m = m
memset_loop (suc left) i buf value m =
    memset_loop left (suc i) buf value (update m (buf + i) (u8 value))

unfoldable pub memset : (buf value size : ℕ) → (ℕ → ℕ) → ℕ → ℕ
memset buf value size m = memset_loop size 0 buf value m

-- `strcpy`: a character is written before it is looked at. `none` is fuel that is used up.
unfoldable pub strcpy : (fuel dst src : ℕ) → (ℕ → ℕ) → Option (ℕ → ℕ)
strcpy zero dst src m = none
strcpy (suc fuel) dst src m =
    let copied = update m dst (m src) in
    let rest = strcpy fuel (suc dst) (suc src) copied in if m src == 0 then some copied else rest

-- The first loop of `strcat` answers the place of the NUL.
unfoldable pub find_end : (fuel end : ℕ) → (ℕ → ℕ) → Option ℕ
find_end zero end m = none
find_end (suc fuel) end m =
    let rest = find_end fuel (suc end) m in if m end == 0 then some end else rest

-- The second loop, which looks at a character before it is written, and the NUL.
unfoldable pub copy_to_end : (fuel end src : ℕ) → (ℕ → ℕ) → Option (ℕ → ℕ)
copy_to_end zero end src m = none
copy_to_end (suc fuel) end src m =
    let rest = copy_to_end fuel (suc end) (suc src) (update m end (m src)) in
    if m src == 0 then some (update m end 0) else rest

unfoldable pub strcat_at : (fuel dest src : ℕ) → (ℕ → ℕ) → Option (ℕ → ℕ)
strcat_at fuel dest src m = find_end fuel dest m >>= λ end. copy_to_end fuel end src m
