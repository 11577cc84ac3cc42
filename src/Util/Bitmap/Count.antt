-- ===== src/Util/Bitmap/Count.antt =====
-- How many of the first `n` indices are set.
use micron.Base.{ℕ, zero, suc, ◌+◌, ◌≤◌, ◌<◌, ◌≡◌, refl, arith, Bool, false, if◌then◌else◌}
use micron.Util.Bitmap.{Bitmap, get, set}
use micron.Util.Bitmap.Laws.{get-set}

unfoldable pub count_set : ℕ → Bitmap → ℕ
count_set zero b = 0
count_set (suc n) b = count_set n b + (if get b n then 1 else 0)

pub count_set-le : (n : ℕ) (b : Bitmap) → count_set n b ≤ n
unfolding count_set
count_set-le zero b = omega arith
count_set-le (suc n) b = ground (arith, count_set-le n b)

pub count_set-set_outside :
    (n : ℕ) (b : Bitmap) (i : ℕ) (v : Bool) → n ≤ i → count_set n (set b i v) ≡ count_set n b
unfolding count_set
count_set-set_outside zero b i v h = refl
count_set-set_outside (suc n) b i v h =
    ground (arith, count_set-set_outside n b i v, get-set b i n v)

-- A write below `n` trades the old value of its index for the new one.
pub count_set-set :
    (n : ℕ) (b : Bitmap) (i : ℕ) (v : Bool)
    → i < n
    → count_set n (set b i v) + (if get b i then 1 else 0) ≡ count_set n b + (if v then 1 else 0)
unfolding count_set
count_set-set zero b i v h = absurd (omega arith)
count_set-set (suc n) b i v h =
    ground (arith, count_set-set n b i v, count_set-set_outside n b i v, get-set b i n v)

-- Where every index is free nothing is counted.
pub count_set-of_free :
    (n : ℕ) (b : Bitmap) → ((i : ℕ) → i < n → get b i ≡ false) → count_set n b ≡ 0
unfolding count_set
count_set-of_free zero b h = refl
count_set-of_free (suc n) b h =
    ground (arith, h n, count_set-of_free n b (λ i k. h i (omega arith)))
