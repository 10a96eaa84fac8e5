-- ===== src/Hub/Memory.antt =====
-- The DWORD cells that messages point to with `u.pv.pVal`: a cell is a number for its address.
use com0com.Base.{ℕ, ◌==◌, if◌then◌else◌}

abbrev pub Memory : Type 0
Memory = ℕ → ℕ

abbrev pub write : Memory → ℕ → ℕ → Memory
write mem a v x = if x == a then v else mem x
