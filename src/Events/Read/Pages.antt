-- ===== src/Events/Read/Pages.antt =====
-- Reading a ring page by page.
use go_lab_tacacs_mcp.Common.{All, List, [], if◌then◌else◌, suc, zero, ℕ, ◌++◌, ◌<◌, ◌∷◌}
use go_lab_tacacs_mcp.Events.Event.{Event}
use go_lab_tacacs_mcp.Events.Read.{Query, read, shows}
use go_lab_tacacs_mcp.Events.Ring.{Ring}

-- The events that a read past `after` lets through, without a limit.
unfoldable pub wanted : Query → ℕ → List Event → List Event
wanted q after [] = []
wanted q after (ev ∷ evs) =
    let rest = wanted q after evs in if shows q after ev then ev ∷ rest else rest

-- Each id is above those before it.
abbrev pub Ascending : List Event → Type 0
Ascending [] = Unit {0}
Ascending (ev ∷ evs) = All (λ x. ev.id < x.id) evs × Ascending evs

-- A client that reads pages, each from the cursor of the one before, while there is more.
unfoldable pub read_pages : ℕ → Ring → Query → List Event
read_pages zero r q = []
read_pages (suc fuel) r q =
    let p = read r q in
    let rest = read_pages fuel r (record q { after_id = p.next_after_id }) in
    p.items ++ (if p.has_more then rest else [])
