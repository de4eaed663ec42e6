-- ===== src/Sockd/WorkBounds.antt =====
-- The buffer of ndhc-sockd over any sequence of events.
use ndhc.Common.{◌≡◌, ℕ, ◌≤◌, length}
use ndhc.Common.Process.{Run, returned, ended, fault}
use ndhc.Sockd.Replies.{Replies}
use ndhc.Sockd.World.{Buffer, Sockd, S}

-- A computation does not fault, and where it returns `buflen` octets are in the buffer, which is not
-- longer than its array.
abbrev pub Holds : Buffer → Type 0
Holds b = (b.buflen ≤ length b.octets) × (length b.octets ≤ 1024)

abbrev pub InBuffer : {A : Type 0} → Run Sockd A → Type 0
InBuffer (returned a v) = Holds v.buf
InBuffer (ended e v) = Unit {0}
InBuffer fault = ⊥

Fitting : {A : Type 0} → S A → Type 0
Fitting m = (w : Sockd) → Holds w.buf → InBuffer (m w)

-- A command takes no more than the `n` octets that are there, and leaves the buffer alone.
abbrev Takes : ℕ → Buffer → Run Sockd ℕ → Type 0
Takes n b (returned taken v) = (taken ≤ n) × (v.buf ≡ b)
Takes n b (ended e v) = Unit {0}
Takes n b fault = ⊥
