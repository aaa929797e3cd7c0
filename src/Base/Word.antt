-- ===== src/Base/Word.antt =====
-- Machine words: `usize` and `u64` are natural numbers below 2 ^ 64. Arithmetic wraps, as it does
-- in the release profile of the workspace, which leaves overflow checks off.
use Prim.Native.Nat.{ℕ, ◌+◌, ◌-◌, ◌*◌, ◌%◌, ◌^◌}

abbrev pub word : ℕ
word = 2 ^ 64

infixl 65 ◌+ʷ◌ ◌-ʷ◌
infixl 70 ◌*ʷ◌
abbrev pub ◌+ʷ◌ : ℕ → ℕ → ℕ
a +ʷ b = (a + b) % word

abbrev pub ◌-ʷ◌ : ℕ → ℕ → ℕ
a -ʷ b = (a + word - b) % word

abbrev pub ◌*ʷ◌ : ℕ → ℕ → ℕ
a *ʷ b = a * b % word
