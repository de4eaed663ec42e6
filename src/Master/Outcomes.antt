-- ===== src/Master/Outcomes.antt =====
-- How a computation of ndhc-master ends.
use ndhc.Master.World.{World, Outcome, returned, halted, fault}

-- It ends without a fault.
abbrev pub Ends : {A : Type 0} → Outcome A → Type 0
Ends (returned a w) = Unit {0}
Ends (halted h w) = Unit {0}
Ends fault = ⊥

-- It returns, and `Q` holds of the world that it leaves.
abbrev pub Leaves : {A : Type 0} → (World → Type 0) → Outcome A → Type 0
Leaves Q (returned a w) = Q w
Leaves Q (halted h w) = ⊥
Leaves Q fault = ⊥
