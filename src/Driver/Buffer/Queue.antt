-- ===== src/Driver/Buffer/Queue.antt =====
-- The queue of bytes that a read buffer of com0com/sys/bufutils.c stands for: the live bytes of
-- its ring, and then those of insertData.
use com0com.Base.{ℕ, ◌≤◌, true, List, ◌++◌, length, ◌≡◌}
use com0com.Driver.RawData.{IsRaw, kept}
use com0com.Driver.Ring.{Holds, linear, wrapped}
use com0com.Driver.Buffer.{Buffer}

-- The ring holds `q`, in a block of the right size, and the limit is within it.
pub record Stored (b : Buffer) (q : List ℕ) : Type 0 where
  pub ring : Holds b.mem b.p_busy b.p_free b.busy q
  pub end : b.p_end ≡ length b.mem
  pub base : b.has_base ≡ true
  pub raw : IsRaw b.insert_data
  pub limited : b.limit ≤ b.p_end

abbrev pub waiting : Buffer → List ℕ → List ℕ
waiting b q = q ++ kept b.insert_data

-- The buffer stands for the queue `xs`.
pub record Queued (b : Buffer) (xs : List ℕ) : Type 0 where
  pub live : List ℕ
  pub stored : Stored b live
  pub all : waiting b live ≡ xs

pub busy-Holds :
    {mem q : List ℕ} {p_busy p_free busy : ℕ} → Holds mem p_busy p_free busy q → busy ≡ length q
busy-Holds (linear pre post e eb ef hp hb) = hb
busy-Holds (wrapped lo gap hi e eq eb ef hp hb) = hb
