-- ===== src/Desktop/Reach.antt =====
-- The states that the desktop worker can come to, with what was done, the latest first.
use kanna_pa.Prelude.{◌≡◌, List, [], ◌∷◌}
use kanna_pa.Desktop.{Worker, initial, Action, Step}

pub data Reach : List Action → Worker → Type 0 where
  start : {w : Worker} → w ≡ initial → Reach [] w
  next :
      {done : List Action} {a : Action} {w w' : Worker}
      → Reach done w
      → Step w a w'
      → Reach (a ∷ done) w'
