-- ===== src/Shared/Bytes.antt =====
-- Little-endian bytes of machine words (`to_le_bytes`, `from_le_bytes`), the order of byte
-- strings, and copies into a buffer.
use wolf_net.Shared.Tests.{ltb, if◌then◌else◌, ◌==◌, nat_eq}
use wolf_net.Shared.Lists.{
  length, take, drop, length-append, length-take, length-drop, take-append, drop-append,
  drop-append_add,
}
use Prim.Native.Nat.{ℕ, zero, suc, ◌+◌, ◌*◌, ◌/◌, ◌%◌, ◌^◌, ◌≤◌, ◌<◌}
use native.Mathlib.Nat.{pow-suc, zero-add}
use mathlib.Core.Path.{◌≡◌, refl, ap, sym, ◌∙◌}
use mathlib.Core.Bool.{Bool, true, false}
use mathlib.Core.List.{List, [], ◌∷◌, ◌++◌, append_assoc}
use native.Mathlib.Omega.{arith}
use Prim.Native.Char.{code}
use Prim.Native.String.{String}

-- The code points of a literal, which are its bytes where it is ASCII.
abbrev pub codes : String → List ℕ
codes String.[] = []
codes (String.◌∷◌ c s) = code c ∷ codes s

-- The lowest `w` bytes of a number, lowest first.
unfoldable pub to_le_bytes : ℕ → ℕ → List ℕ
to_le_bytes zero n = []
to_le_bytes (suc w) n = (n % 256) ∷ to_le_bytes w (n / 256)

unfoldable pub from_le_bytes : List ℕ → ℕ
from_le_bytes [] = 0
from_le_bytes (b ∷ bs) = b + 256 * from_le_bytes bs

-- `a < b` on byte arrays is the lexicographic order.
unfoldable pub lex_lt : List ℕ → List ℕ → Bool
unfolding nat_eq
lex_lt [] [] = false
lex_lt [] (y ∷ ys) = true
lex_lt (x ∷ xs) [] = false
lex_lt (x ∷ xs) (y ∷ ys) = if x == y then lex_lt xs ys else ltb x y

-- `buf[at..at + len].copy_from_slice(xs)`, where the slice is in range.
unfoldable pub write_at : List ℕ → ℕ → List ℕ → List ℕ
write_at buf at xs = take at buf ++ (xs ++ drop (at + length xs) buf)

pub length-to_le_bytes : (w n : ℕ) → length (to_le_bytes w n) ≡ w
unfolding to_le_bytes
length-to_le_bytes zero n = refl
length-to_le_bytes (suc w) n = ap suc (length-to_le_bytes w (n / 256))

-- Reading back gives the number, reduced to the width.
pub from_le_bytes-to_le_bytes : (w n : ℕ) → n < 256 ^ w → from_le_bytes (to_le_bytes w n) ≡ n
unfolding to_le_bytes from_le_bytes
from_le_bytes-to_le_bytes zero n h = omega arith
from_le_bytes-to_le_bytes (suc w) n h =
    omega
      (arith, pow-suc 256 w, from_le_bytes-to_le_bytes w (n / 256) (omega (arith, pow-suc 256 w)))

pub to_le_bytes-injective :
    (w a b : ℕ) → a < 256 ^ w → b < 256 ^ w → to_le_bytes w a ≡ to_le_bytes w b → a ≡ b
to_le_bytes-injective w a b ha hb e =
    sym (from_le_bytes-to_le_bytes w a ha) ∙ ap from_le_bytes e ∙ from_le_bytes-to_le_bytes w b hb

-- Of two different keys of one length exactly one is below the other.
pub lex_lt_total : (xs ys : List ℕ) → lex_lt xs ys ≡ false → lex_lt ys xs ≡ false → xs ≡ ys
unfolding lex_lt
lex_lt_total [] [] h k = refl
lex_lt_total [] (y ∷ ys) h k = cc
lex_lt_total (x ∷ xs) [] h k = cc
lex_lt_total (x ∷ xs) (y ∷ ys) h k = ground (arith, lex_lt_total xs ys)

pub lex_lt_asym : (xs ys : List ℕ) → lex_lt xs ys ≡ true → lex_lt ys xs ≡ false
unfolding lex_lt
lex_lt_asym [] [] h = cc
lex_lt_asym [] (y ∷ ys) h = refl
lex_lt_asym (x ∷ xs) [] h = cc
lex_lt_asym (x ∷ xs) (y ∷ ys) h = ground (arith, lex_lt_asym xs ys)

pub length-write_at :
    (buf : List ℕ) (at : ℕ) (xs : List ℕ)
    → at + length xs ≤ length buf
    → length (write_at buf at xs) ≡ length buf
unfolding write_at
length-write_at buf at xs h = omega (
  arith,
  length-append (take at buf) (xs ++ drop (at + length xs) buf),
  length-append xs (drop (at + length xs) buf),
  length-take at buf,
  length-drop (at + length xs) buf,
)

-- What stands before a copy, and the copy itself, read from the result.
pub take-write_at :
    (buf : List ℕ) (at : ℕ) (xs : List ℕ)
    → at ≤ length buf
    → take at (write_at buf at xs) ≡ take at buf
unfolding write_at
take-write_at buf at xs h =
    take-append at (take at buf) (xs ++ drop (at + length xs) buf)
      (omega (arith, length-take at buf))

pub drop-write_at :
    (buf : List ℕ) (at : ℕ) (xs : List ℕ)
    → at ≤ length buf
    → drop at (write_at buf at xs) ≡ xs ++ drop (at + length xs) buf
unfolding write_at
drop-write_at buf at xs h =
    drop-append at (take at buf) (xs ++ drop (at + length xs) buf)
      (omega (arith, length-take at buf))

pub write_at_front : (buf xs : List ℕ) → write_at buf 0 xs ≡ xs ++ drop (length xs) buf
unfolding write_at
write_at_front buf xs = rw zero-add

-- A copy behind a prefix leaves the prefix alone.
pub write_at_behind :
    (xs rest ys : List ℕ) (n : ℕ)
    → length xs ≡ n
    → write_at (xs ++ rest) n ys ≡ xs ++ (ys ++ drop (length ys) rest)
unfolding write_at
write_at_behind xs rest ys n h =
    rw (take-append n xs rest h, drop-append_add n (length ys) xs rest h)

-- Two copies side by side, at the front of a buffer.
pub take-write_at_two :
    (buf xs ys : List ℕ) (n k : ℕ)
    → length xs ≡ n
    → n + length ys ≡ k
    → take k (write_at (write_at buf 0 xs) n ys) ≡ xs ++ ys
take-write_at_two buf xs ys n k hx hk = rw write_at_front (write_behind (drop (length xs) buf))
  where
    write_behind : (rest : List ℕ) → take k (write_at (xs ++ rest) n ys) ≡ xs ++ ys
    write_behind rest =
        rw (write_at_behind xs rest ys n hx, ← append_assoc)
          (take-append k (xs ++ ys) (drop (length ys) rest) (omega (arith, length-append xs ys)))

pub take-write_at_front :
    (buf xs : List ℕ) (n : ℕ) → length xs ≡ n → take n (write_at buf 0 xs) ≡ xs
take-write_at_front buf xs n h = rw write_at_front (take-append n xs (drop (length xs) buf) h)
