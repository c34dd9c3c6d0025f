-- ===== src/Tests/Strings.antt =====
-- The theorems of kern/lib/string.c at concrete blocks.
use mcertikos.Base.{◌+◌, ◌≡◌, refl, arith, ltb, if◌then◌else◌, ok}
use mcertikos.Strings.{Bytes, memmove, strncmp, strcmp}
use mcertikos.Strings.Blocks.{IsBlock, memmove-IsBlock}
use mcertikos.Strings.Unbounded.{strcmp-strncmp}

-- The bytes 1, 2, ... 99 from address 0 on, and zeros behind them.
abbrev rising : Bytes
rising a = if ltb a 99 then a + 1 else 0

-- The blocks overlap.
memmove-IsBlock_example : IsBlock 18 8 (λ k. rising (16 + k)) rising (memmove 18 16 8 rising)
memmove-IsBlock_example = memmove-IsBlock 18 16 8 rising (omega arith)

strcmp-strncmp_example : strcmp rising 90 80 20 ≡ ok (strncmp rising 90 80 20)
strcmp-strncmp_example = strcmp-strncmp rising 90 80 20 9 refl (omega arith)
