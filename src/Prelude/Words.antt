-- ===== src/Prelude/Words.antt =====
-- `uint32_t` arithmetic: numbers below `word`, with the wrap-around written out. A counter is a
-- `uint64_t`.
use ruf.Prelude.{ℕ, ◌+◌, ◌-◌, ◌*◌, ◌%◌, ◌^◌}

abbrev pub word : ℕ
word = 2 ^ 32

abbrev pub add32 : ℕ → ℕ → ℕ
add32 a b = (a + b) % word

-- `uint64_t`
abbrev pub add64 : ℕ → ℕ → ℕ
add64 a b = (a + b) % 2 ^ 64

abbrev pub sub32 : ℕ → ℕ → ℕ
sub32 a b = (a + word - b) % word

abbrev pub mul32 : ℕ → ℕ → ℕ
mul32 a b = a * b % word
