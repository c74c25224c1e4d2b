-- ===== src/Events/Ring.antt =====
-- The event ring: internal/events/ring.go. A method holds the lock from its start to its end, so it
-- is one step from a ring to a ring; the receiver is not nil, and the reading of the clock is an
-- argument. A channel is the list of what it holds, with its capacity; closing the channel `drop` of
-- a subscriber is its entry in `dropped`. Copies are the values; metrics are left out.
pub mod Window
pub mod Refine
use mathlib.Core.Option
use go_lab_tacacs_mcp.Common.{
  Bool, List, Option, [], false, get_or, if◌then◌else◌, leb, length, ltb, none, set, some, suc,
  true, zero, ℕ, ◌%◌, ◌++◌, ◌+◌, ◌-◌, ◌==◌, ◌>>=◌, ◌^◌, ◌||◌, ◌∷◌,
}
use go_lab_tacacs_mcp.Events.Event.{Event, zero_event}

pub record Channel : Type 0 where
  pub queue : List Event
  pub room : ℕ

pub record Subscriber : Type 0 where
  pub ch : ℕ
  pub events : Channel

pub record Ring : Type 0 where
  pub capacity : ℕ
  pub seq : ℕ
  pub buf : List Event
  pub start : ℕ
  pub n : ℕ
  pub overwritten : ℕ
  pub reject : Bool
  pub stdout : Option Channel
  pub stdout_dropped : ℕ
  pub subs : List Subscriber
  pub admitted : ℕ
  pub closed : Bool
  -- The subscribers whose `drop` is closed, and the number that the next channel gets.
  pub dropped : List ℕ
  pub next_ch : ℕ

abbrev pub default_capacity : ℕ
default_capacity = 10000

abbrev pub default_sub_buffer : ℕ
default_sub_buffer = 16

abbrev pub schema_version_now : ℕ
schema_version_now = 1

abbrev pub max_subscribers : ℕ
max_subscribers = 128

-- `make([]Event, capacity)`
unfoldable pub blank : ℕ → List Event
blank zero = []
blank (suc k) = zero_event ∷ blank k

-- `New`, without a stdout sink; with one, `stdout` is an empty channel of its buffer.
unfoldable pub new_ring : ℕ → Option ℕ → Ring
new_ring size stdout_buffer =
    let c = if size == 0 then default_capacity else size in
    record {
      capacity = c;
      seq = 0;
      buf = blank c;
      start = 0;
      n = 0;
      overwritten = 0;
      reject = false;
      stdout =
          Option.map (λ b. record { queue = []; room = if b == 0 then 256 else b }) stdout_buffer;
      stdout_dropped = 0;
      subs = [];
      admitted = 0;
      closed = false;
      dropped = [];
      next_ch = 0;
    }

-- `r.buf[(r.start+i)%r.cap]` for the `k` indices from `i` on.
unfoldable pub entries : List Event → ℕ → ℕ → ℕ → ℕ → List Event
entries buf size start i zero = []
entries buf size start i (suc k) =
    get_or buf ((start + i) % size) zero_event ∷ entries buf size start (i + 1) k

unfoldable pub snapshot : Ring → List Event
snapshot r = entries r.buf r.capacity r.start 0 r.n

unfoldable pub latest : Ring → Option Event
latest r =
    if r.n == 0 then none else some (get_or r.buf ((r.start + r.n - 1) % r.capacity) zero_event)

-- The event as `Accept` stores it.
unfoldable pub stamp : ℕ → ℕ → Event → Event
stamp seq now e = record e {
  id = seq;
  schema_version = if e.schema_version == 0 then schema_version_now else e.schema_version;
  time = if e.time == 0 then now else e.time;
}

-- A send that does not block: the channel with the event, if there is room.
unfoldable pub offer : Channel → Event → Option Channel
offer c e =
    if ltb (length c.queue) c.room then some (record c { queue = c.queue ++ (e ∷ []) }) else none

unfoldable pub emit_stdout : Ring → Event → Ring
unfolding offer
emit_stdout r e = elim r.stdout [
  | none ↦ r
  | some c ↦ if e.suppress_export then r else elim (offer c e) [
    | some c' ↦ record r { stdout = some c' }
    | none ↦ record r { stdout_dropped = (r.stdout_dropped + 1) % 2 ^ 64 }
  ]
]

-- The loop of `fanoutLocked`: the subscribers that are kept, and those that are dropped.
unfoldable pub fan : List Subscriber → Event → List Subscriber × List ℕ
unfolding offer
fan [] e = ([], [])
fan (s ∷ subs) e =
    let (kept, gone) = fan subs e in
    elim (offer s.events e) [
      | some c ↦ (record s { events = c } ∷ kept, gone)
      | none ↦ (kept, s.ch ∷ gone)
    ]

unfoldable pub fanout_locked : Ring → Event → Ring
fanout_locked r e =
    if e.suppress_export
    then r
    else let (kept, gone) = fan r.subs e in record r { subs = kept; dropped = r.dropped ++ gone }

-- The store of `Accept`: over the oldest event where the ring is full.
unfoldable pub store : Ring → Event → Ring
store r e =
    if r.n == r.capacity
    then record r {
      buf = set r.buf r.start e;
      start = (r.start + 1) % r.capacity;
      overwritten = (r.overwritten + 1) % 2 ^ 64;
    }
    else record r { buf = set r.buf ((r.start + r.n) % r.capacity) e; n = r.n + 1 }

unfoldable pub accept : Ring → ℕ → Event → Ring × Event
accept r now e =
    if r.reject
    then (r, zero_event)
    else if r.closed
    then (r, zero_event)
    else let seq = (r.seq + 1) % 2 ^ 64 in
      let e' = stamp seq now e in
      (fanout_locked (emit_stdout (store (record r { seq = seq }) e') e') e', e')

-- `TrySubscribe`: the number of the new channel, or none where admission fails.
unfoldable pub try_subscribe : Ring → ℕ → Ring × Option ℕ
try_subscribe r buf₀ =
    let b = if buf₀ == 0 then default_sub_buffer else buf₀ in
    let room = if ltb r.capacity b then r.capacity else b in
    if r.closed || leb max_subscribers r.admitted then (r, none) else (
      record r {
        subs =
            r.subs ++ (record { ch = r.next_ch; events = record { queue = []; room = room } } ∷ []);
        admitted = r.admitted + 1;
        next_ch = r.next_ch + 1;
      },
      some r.next_ch,
    )

-- `detach`: the first subscriber with the channel goes.
unfoldable pub detach : List Subscriber → ℕ → List Subscriber
detach [] ch = []
detach (s ∷ subs) ch = let rest = detach subs ch in if s.ch == ch then subs else s ∷ rest

-- The function that `TrySubscribe` returns, at its first call; later calls do nothing.
unfoldable pub cancel : Ring → ℕ → Ring
cancel r ch = record r { subs = detach r.subs ch; admitted = r.admitted - 1 }

unfoldable pub channels : List Subscriber → List ℕ
channels [] = []
channels (s ∷ subs) = s.ch ∷ channels subs

unfoldable pub close_ring : Ring → Ring
close_ring r =
    if r.closed
    then r
    else record r { closed = true; subs = []; dropped = r.dropped ++ channels r.subs }

unfoldable pub set_reject : Ring → Bool → Ring
set_reject r v = record r { reject = v }
