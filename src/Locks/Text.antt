-- ===== src/Locks/Text.antt =====
-- The strings that the lock functions build and read, as lists of bytes without the final NUL: the
-- base name of a device, `%10d`, `%03d`, and the numbers that `atol` and `sscanf` read.
pub mod Numbers
pub mod Names
use Prim.Native.String.{String, [], ◌∷◌}
use Prim.Native.Char.{code}
use cameratrack.Base.{
  ℕ, ℤ, pos, negsuc, zero, suc, ◌+◌, ◌-◌, ◌*◌, ◌/◌, ◌%◌, ◌^◌, Bool, true, false, ◌&&◌, ◌||◌, leb,
  ltb, ◌==◌, if◌then◌else◌, Option, none, some,
}
use cameratrack.Base.{List, [], ◌∷◌, ◌++◌}

abbrev pub Bytes : Type 0
Bytes = List ℕ

abbrev pub slash : ℕ
slash = 47

-- The bytes of a literal.
abbrev pub bytes : String → Bytes
bytes [] = []
bytes (c ∷ s) = code c ∷ bytes s

abbrev pub same : Bytes → Bytes → Bool
same [] [] = true
same [] (b ∷ bs) = false
same (a ∷ xs) [] = false
same (a ∷ xs) (b ∷ ys) = (a == b) && same xs ys

-- `strncmp(a, b, strlen(a)) == 0`.
abbrev pub is_prefix : Bytes → Bytes → Bool
is_prefix [] bs = true
is_prefix (a ∷ xs) [] = false
is_prefix (a ∷ xs) (b ∷ ys) = (a == b) && is_prefix xs ys

-- The loop `while( *( p - 1 ) != '/' && j-- != 1 ) p--;` over the bytes before `p`, the last one
-- first, and those from `p` on. On an empty name it would read in front of the string.
unfoldable pub back_to_slash : Bytes → Bytes → Bytes
back_to_slash [] after = after
back_to_slash (c ∷ []) after = after
back_to_slash (c ∷ d ∷ before) after =
    let rest = back_to_slash (d ∷ before) (c ∷ after) in if c == slash then after else rest

abbrev pub reverse_onto : Bytes → Bytes → Bytes
reverse_onto [] acc = acc
reverse_onto (b ∷ bs) acc = reverse_onto bs (b ∷ acc)

unfoldable pub base_name : Bytes → Bytes
unfolding back_to_slash
base_name filename = back_to_slash (reverse_onto filename []) []

-- `%10d` of a number that is not negative and has at most ten digits, in front of `acc`.
abbrev pub pad : ℕ → ℕ → Bytes → Bytes
pad zero n acc = acc
pad (suc w) n acc = pad w (n / 10) ((if n == 0 then 32 else 48 + n % 10) ∷ acc)

unfoldable pub pid_line : ℕ → Bytes
pid_line n = pad 9 (n / 10) ((48 + n % 10) ∷ 10 ∷ [])

-- `%03d`.
abbrev pub decimal : ℕ → ℕ → Bytes → Bytes
decimal zero n acc = acc
decimal (suc fuel) n acc =
    let rest = decimal fuel (n / 10) ((48 + n % 10) ∷ acc) in if n == 0 then acc else rest

unfoldable pub three_digits : ℕ → Bytes
three_digits n =
    decimal (n / 1000) (n / 1000) ((48 + n / 100 % 10) ∷ (48 + n / 10 % 10) ∷ (48 + n % 10) ∷ [])

abbrev pub is_digit : ℕ → Bool
is_digit c = leb 48 c && leb c 57

-- Space, and the bytes from tab to carriage return.
abbrev pub is_space : ℕ → Bool
is_space c = (c == 32) || (leb 9 c && leb c 13)

abbrev pub skip_space : Bytes → Bytes
skip_space [] = []
skip_space (c ∷ cs) = let rest = skip_space cs in if is_space c then rest else c ∷ cs

abbrev pub read_digits : ℕ → Bytes → ℕ
read_digits acc [] = acc
read_digits acc (c ∷ cs) =
    let rest = read_digits (acc * 10 + (c - 48)) cs in if is_digit c then rest else acc

abbrev pub read_unsigned : Bytes → Option ℕ
read_unsigned [] = none
read_unsigned (c ∷ cs) = if is_digit c then some (read_digits 0 (c ∷ cs)) else none

abbrev pub negate : ℕ → ℤ
negate zero = pos 0
negate (suc n) = negsuc n

abbrev pub map_option {ℓ κ} : {A : Type ℓ} {B : Type κ} → (A → B) → Option A → Option B
map_option f none = none
map_option f (some a) = some (f a)

abbrev pub read_signed : Bytes → Option ℤ
read_signed [] = none
read_signed (c ∷ cs) =
    if c == 45
    then map_option negate (read_unsigned cs)
    else if c == 43
    then map_option pos (read_unsigned cs)
    else map_option pos (read_unsigned (c ∷ cs))

-- A number stored in an `int` of 32 bits.
abbrev pub as_int : ℕ → ℤ
as_int m = if ltb m (2 ^ 31) then pos m else negate (2 ^ 32 - m)

abbrev pub to_int : ℤ → ℤ
to_int (pos n) = as_int (n % 2 ^ 32)
to_int (negsuc n) = as_int (2 ^ 32 - 1 - n % 2 ^ 32)

-- The `int` that `%d` finds.
unfoldable pub scan_int : Bytes → Option ℤ
scan_int text = map_option to_int (read_signed (skip_space text))

-- Bytes that `read` puts over an array.
abbrev pub fill : Bytes → Bytes → Bytes
fill [] array = array
fill (c ∷ cs) [] = []
fill (c ∷ cs) (_ ∷ array) = c ∷ fill cs array
