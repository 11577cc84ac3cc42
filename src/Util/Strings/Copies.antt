-- ===== src/Util/Strings/Copies.antt =====
-- What the loops leave in memory.
use mathlib.Core.Path.{subst}
use micron.Base.{
  ℕ, zero, suc, ◌+◌, ◌≤◌, ◌<◌, ◌≡◌, ◌≢◌, ◌⊎◌, inl, ◌∙◌, refl, arith, some, List, [], ◌∷◌, length,
  ltb, leb, ◌&&◌, if◌then◌else◌, u8, update,
}
use micron.Util.Text.{strcat}
use micron.Util.Strings.{memset_loop, memset, strcpy, find_end, copy_to_end, strcat_at}

-- The characters of the text stand at the address, none of them NUL, with a NUL behind them.
abbrev pub TextAt : (m : ℕ → ℕ) → ℕ → List ℕ → Type 0
TextAt m p [] = m p ≡ 0
TextAt m p (c ∷ cs) = (m p ≡ c) × (c ≢ 0) × TextAt m (suc p) cs

-- The address is not one of the `n` and the one behind them.
abbrev pub IsOutside : (a p n : ℕ) → Type 0
IsOutside a p n = (a < p) ⊎ (p + n < a)

-- Two ranges, of `n` addresses and of `k`, each with the one behind it.
abbrev pub AreApart : (p n q k : ℕ) → Type 0
AreApart p n q k = (p + n < q) ⊎ (q + k < p)

TextAt-update :
    (m : ℕ → ℕ) (p a v : ℕ) (cs : List ℕ)
    → IsOutside a p (length cs)
    → TextAt m p cs
    → TextAt (update m a v) p cs
TextAt-update m p a v [] out t = ground (arith, t)
TextAt-update m p a v (c ∷ cs) out t =
    (ground (arith, t.0), t.1, TextAt-update m (suc p) a v cs (omega arith) t.2)

-- What a loop leaves that has written the text at the address.
pub record Written (m m' : ℕ → ℕ) (p : ℕ) (cs : List ℕ) : Type 0 where
  pub text : TextAt m' p cs
  pub others : (a : ℕ) → IsOutside a p (length cs) → m' a ≡ m a

copy_to_end-Written :
    (fuel end src : ℕ) (m : ℕ → ℕ) (cs : List ℕ)
    → TextAt m src cs
    → length cs < fuel
    → AreApart end (length cs) src (length cs)
    → (m' : ℕ → ℕ) × (copy_to_end fuel end src m ≡ some m') × Written m m' end cs
unfolding copy_to_end
copy_to_end-Written zero end src m cs t enough apart = absurd (omega arith)
copy_to_end-Written (suc fuel) end src m [] t enough apart = (
  update m end 0,
  ground (arith, t),
  record { text = ground arith; others = λ a out. ground arith },
)
copy_to_end-Written (suc fuel) end src m (c ∷ cs) t enough apart =
    let r =
      copy_to_end-Written fuel (suc end) (suc src) (update m end (m src)) cs
        (TextAt-update m (suc src) end (m src) cs (omega arith) t.2) (omega arith) (omega arith) in
    (
      r.0,
      ground (arith, r.1, t.0, t.1),
      record {
        text = (r.2.others end (omega arith) ∙ ground (arith, t.0), t.1, r.2.text);
        others = λ a out. r.2.others a (omega arith) ∙ ground arith;
      },
    )

strcpy-copy_to_end :
    (fuel dst src : ℕ) (m : ℕ → ℕ) → strcpy fuel dst src m ≡ copy_to_end fuel dst src m
unfolding strcpy copy_to_end
strcpy-copy_to_end zero dst src m = refl
strcpy-copy_to_end (suc fuel) dst src m =
    ground (arith, strcpy-copy_to_end fuel (suc dst) (suc src) (update m dst (m src)))

find_end-length :
    (fuel p : ℕ) (m : ℕ → ℕ) (cs : List ℕ)
    → TextAt m p cs
    → length cs < fuel
    → find_end fuel p m ≡ some (p + length cs)
unfolding find_end
find_end-length zero p m cs t enough = absurd (omega arith)
find_end-length (suc fuel) p m [] t enough = ground (arith, t)
find_end-length (suc fuel) p m (c ∷ cs) t enough =
    ground (arith, t.0, t.1, find_end-length fuel (suc p) m cs t.2 (omega arith))

TextAt-strcat :
    (m m' : ℕ → ℕ) (p q : ℕ) (xs ys : List ℕ)
    → TextAt m p xs
    → ((a : ℕ) → p ≤ a → a < q → m' a ≡ m a)
    → q ≡ p + length xs
    → TextAt m' q ys
    → TextAt m' p (strcat xs ys)
unfolding strcat
TextAt-strcat m m' p q [] ys t same e u = subst (λ (r : ℕ). TextAt m' r ys) (omega arith) u
TextAt-strcat m m' p q (x ∷ xs) ys t same e u = (
  same p (omega arith) (omega arith) ∙ t.0,
  t.1,
  TextAt-strcat m m' (suc p) q xs ys t.2 (λ a low high. same a (omega arith) high) (omega arith) u,
)

length-strcat : (xs ys : List ℕ) → length (strcat xs ys) ≡ length xs + length ys
unfolding strcat
length-strcat [] ys = omega arith
length-strcat (x ∷ xs) ys = omega (arith, length-strcat xs ys)

-- Where two texts stand in memory, and the place of both together, with the NUL, is apart from that
-- of the second, `strcat` ends with fuel for each character of the longer one and one more: the two
-- texts stand one after the other at the first address, and nothing else has changed.
pub strcat_at-text :
    (fuel dest src : ℕ) (m : ℕ → ℕ) (xs ys : List ℕ)
    → TextAt m dest xs
    → TextAt m src ys
    → length xs < fuel
    → length ys < fuel
    → AreApart dest (length xs + length ys) src (length ys)
    → (m' : ℕ → ℕ) × (strcat_at fuel dest src m ≡ some m') × Written m m' dest (strcat xs ys)
unfolding strcat_at
strcat_at-text fuel dest src m xs ys t u enough enough' apart =
    let end = dest + length xs in
    let r = copy_to_end-Written fuel end src m ys u enough' (omega arith) in
    (
      r.0,
      rw (find_end-length fuel dest m xs t enough) r.1,
      record {
        text =
            TextAt-strcat m r.0 dest end xs ys t (λ a low high. r.2.others a (inl high)) refl
              r.2.text;
        others = λ a out. r.2.others a (omega (arith, length-strcat xs ys));
      },
    )

-- Where a text stands in memory apart from the place that it is copied to, `strcpy` ends with fuel
-- for each character and one more: the text stands at that place, and nothing else has changed.
pub strcpy-text :
    (fuel dst src : ℕ) (m : ℕ → ℕ) (cs : List ℕ)
    → TextAt m src cs
    → length cs < fuel
    → AreApart dst (length cs) src (length cs)
    → (m' : ℕ → ℕ) × (strcpy fuel dst src m ≡ some m') × Written m m' dst cs
strcpy-text fuel dst src m cs t enough apart =
    rw (strcpy-copy_to_end fuel dst src m) (copy_to_end-Written fuel dst src m cs t enough apart)

memset_loop-bytes :
    (left i buf value : ℕ) (m : ℕ → ℕ) (a : ℕ)
    → memset_loop left i buf value m a
      ≡ (if leb (buf + i) a && ltb a (buf + i + left) then u8 value else m a)
unfolding memset_loop
memset_loop-bytes zero i buf value m a = ground arith
memset_loop-bytes (suc left) i buf value m a =
    memset_loop-bytes left (suc i) buf value (update m (buf + i) (u8 value)) a ∙ ground arith

-- `memset` stores the byte at `size` addresses from the first on, and nothing else.
pub memset-bytes :
    (buf value size : ℕ) (m : ℕ → ℕ) (a : ℕ)
    → memset buf value size m a ≡ (if leb buf a && ltb a (buf + size) then u8 value else m a)
unfolding memset
memset-bytes buf value size m a = memset_loop-bytes size 0 buf value m a ∙ ground arith
