-- ===== src/Events/Read.antt =====
-- Reading by cursor: `Query`, `Page`, `Read` and `Replay` of internal/events/ring.go.
pub mod Pages
use go_lab_tacacs_mcp.Common.{
  Bool, List, [], false, get_or, if◌then◌else◌, leb, length, ltb, not, true, ℕ, ◌%◌, ◌&&◌, ◌+◌, ◌-◌,
  ◌==◌, ◌||◌, ◌∷◌,
}
use go_lab_tacacs_mcp.Common.Text.{Str, str_eq, text}
use go_lab_tacacs_mcp.Events.Event.{Event, zero_event}
use go_lab_tacacs_mcp.Events.Ring.{Ring, snapshot}

abbrev pub default_limit : ℕ
default_limit = 50

abbrev pub max_limit : ℕ
max_limit = 200

pub record Query : Type 0 where
  pub after_id : ℕ
  pub limit : ℕ
  pub categories : List Str
  pub protocol : Str
  pub listener_role : Str
  pub packet_code : Str
  pub outcome : Str

pub record Page : Type 0 where
  pub items : List Event
  pub next_after_id : ℕ
  pub has_more : Bool
  pub reset : Bool
  pub overwritten : ℕ
  pub oldest_id : ℕ
  pub newest_id : ℕ

abbrev pub is_blank : Str → Bool
is_blank s = length s == 0

unfoldable pub any_text : List Str → Bool
any_text [] = false
any_text (c ∷ cats) = let rest = any_text cats in if is_blank c then rest else true

unfoldable pub has_text : List Str → Str → Bool
has_text [] s = false
has_text (c ∷ cats) s =
    let rest = has_text cats s in if not (is_blank c) && str_eq c s then true else rest

-- `categorySet` and `categoryOK`: no category that is not empty lets every event through.
unfoldable pub category_ok : List Str → Str → Bool
category_ok cats s = if any_text cats then has_text cats s else true

unfoldable pub query_match : Query → Event → Bool
query_match q ev =
    if not (category_ok q.categories ev.category)
    then false
    else if not (is_blank q.protocol)
        && not (str_eq (if is_blank ev.protocol then text "tacacs" else ev.protocol) q.protocol)
    then false
    else if not (is_blank q.listener_role) && not (str_eq ev.listener_role q.listener_role)
    then false
    else if not (is_blank q.packet_code) && not (str_eq ev.packet_code q.packet_code)
    then false
    else if not (is_blank q.outcome) && not (str_eq ev.outcome q.outcome)
    then false
    else true

-- An event that a read past `after` lets through.
unfoldable pub shows : Query → ℕ → Event → Bool
shows q after ev = if leb ev.id after || ev.suppress_export then false else query_match q ev

-- The first loop of `readLocked`, with `room` events to go up to the limit.
unfoldable pub collect : Query → ℕ → List Event → List Event
collect q room [] = []
collect q room (ev ∷ evs) =
    let rest = collect q (if shows q q.after_id ev then room - 1 else room) evs in
    if room == 0 then [] else if shows q q.after_id ev then ev ∷ rest else rest

-- Its second loop.
unfoldable pub any_shows : Query → ℕ → List Event → Bool
any_shows q after [] = false
any_shows q after (ev ∷ evs) =
    let rest = any_shows q after evs in if shows q after ev then true else rest

-- `out[len(out)-1].ID`, or the cursor of the query.
unfoldable pub last_id : List Event → ℕ → ℕ
last_id [] after = after
last_id (ev ∷ evs) after = last_id evs ev.id

unfoldable pub read_locked : Ring → Query → ℕ → Page
read_locked r q limit =
    if r.n == 0
    then record {
      items = [];
      next_after_id = 0;
      has_more = false;
      reset = false;
      overwritten = r.overwritten;
      oldest_id = 0;
      newest_id = 0;
    }
    else let oldest = (get_or r.buf r.start zero_event).id in
      let newest = (get_or r.buf ((r.start + r.n - 1) % r.capacity) zero_event).id in
      let out = collect q limit (snapshot r) in
      let last = last_id out q.after_id in
      record {
        items = out;
        next_after_id = last;
        has_more = any_shows q last (snapshot r);
        reset = ltb 0 q.after_id && (ltb 1 oldest && ltb q.after_id (oldest - 1));
        overwritten = r.overwritten;
        oldest_id = oldest;
        newest_id = newest;
      }

abbrev pub clamp_limit : ℕ → ℕ
clamp_limit limit =
    let l = if limit == 0 then default_limit else limit in if ltb max_limit l then max_limit else l

unfoldable pub read : Ring → Query → Page
read r q = read_locked r q (clamp_limit q.limit)

unfoldable pub replay : Ring → Query → Page
replay r q = read_locked r q r.capacity
