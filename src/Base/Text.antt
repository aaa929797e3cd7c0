-- ===== src/Base/Text.antt =====
-- What `format!` prints for numbers: `{n}` in decimal and `{n:#x}` in hexadecimal.
use Prim.Native.Nat.{ℕ, zero, suc, ◌/◌, ◌%◌}
use Prim.Native.String.{String, ◌++◌ as ◌<>◌}
use mathlib.Core.List.{List, [], ◌∷◌}
use sher_graphics.Base.Tests.{ltb, if◌then◌else◌}

abbrev digits : List String
digits =
    "0" ∷ "1" ∷ "2" ∷ "3" ∷ "4" ∷ "5" ∷ "6" ∷ "7" ∷ "8" ∷ "9" ∷ "a" ∷ "b" ∷ "c" ∷ "d" ∷ "e" ∷ "f"
    ∷ []

digit : List String → ℕ → String
digit [] i = ""
digit (d ∷ ds) zero = d
digit (d ∷ ds) (suc i) = digit ds i

-- Twenty rounds print every number below 2 ^ 64 in decimal.
print_radix : ℕ → ℕ → ℕ → String
unfolding digit
print_radix zero radix n = ""
print_radix (suc rounds) radix n =
    let high = print_radix rounds radix (n / radix) in
    let last = digit digits (n % radix) in if ltb n radix then last else high <> last

unfoldable pub decimal : ℕ → String
unfolding print_radix
decimal n = print_radix 20 10 n

unfoldable pub hex : ℕ → String
unfolding print_radix
hex n = "0x" <> print_radix 16 16 n
