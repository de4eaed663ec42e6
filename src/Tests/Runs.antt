-- ===== src/Tests/Runs.antt =====
-- Runs of ndhc-master that return.
use ndhc.Common.{◌≡◌, ap}
use ndhc.Master.World.{World, Outcome, returned, halted, fault}

-- The computation returns `a`.
abbrev pub Answers : {A : Type 0} → A → Outcome A → Type 0
Answers a (returned b w) = b ≡ a
Answers a (halted h w) = ⊥
Answers a fault = ⊥

pub world_of_Answers :
    {A : Type 0} (a : A) (o : Outcome A) → Answers a o → (w : World) × (o ≡ returned a w)
world_of_Answers a (returned b w) e = (w, ap (λ x. returned x w) e)
world_of_Answers a (halted h w) e = absurd e
world_of_Answers a fault e = absurd e
