-- ===== src/Prelude/Counting.antt =====
-- How often a number stands in a list or an option.
use Prim.Native.Nat.{ℕ}
use mathlib.Core.Option.{Option, none, some}
use rapsqlite.Prelude.Tests.{◌==◌, if◌then◌else◌}

-- One, if the option holds this number.
abbrev pub occurs : ℕ → Option ℕ → ℕ
occurs h none = 0
occurs h (some k) = if k == h then 1 else 0
