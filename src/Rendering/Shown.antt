-- ===== src/Rendering/Shown.antt =====
-- What the text of an error shows (src/flnr/exceptions.py, src/flnr/_monitor_failure_rendering.py).
use flnr.Base.{ℕ, suc, ◌≡◌, List, [], ◌∷◌, ◌++◌}
use flnr.Base.Text.{Text}
use flnr.Monitors.{MonitorFailure}
use flnr.Rendering.{format_brief}

abbrev pub Contains : Text → Text → Type 0
Contains part whole = (before : Text) × (after : Text) × (whole ≡ before ++ (part ++ after))

-- Each failure from number `n` on has its line in the text.
abbrev pub AllShown : ℕ → List MonitorFailure → Text → Type 0
AllShown n [] whole = Unit
AllShown n (f ∷ fs) whole = Contains (format_brief f n) whole × AllShown (suc n) fs whole
