-- ===== src/TeamAuto/Scheduler/Delivery.antt =====
-- What a pass over the write-backs leaves behind: each entry was posted, or is left for the next pass.
use teamclaw.Prelude.{◌≡◌, ◌⊎◌, true, List}
use teamclaw.Team.{TeamState}
use teamclaw.TeamAuto.Store.{WriteBack, Store}
use teamclaw.TeamAuto.Scheduler.Reply.{Host, is_done}
use teamclaw.TeamAuto.Scheduler.Turns.{IsGiven, IsLeft}

-- The fate of an entry that takes part in the pass.
abbrev LiveFate : Host → TeamState → List WriteBack → WriteBack → Type 0
LiveFate host team rs e = (is_done e ≡ true) ⊎ (IsGiven host team e ⊎ IsLeft rs e)
