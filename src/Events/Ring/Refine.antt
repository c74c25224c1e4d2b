-- ===== src/Events/Ring/Refine.antt =====
-- The ring beside the list of the events it retains.
use go_lab_tacacs_mcp.Common.{
  ==_iff, Bool-cases, List, Option, [], ap, append-nil, append_assoc, arith, drop, false, get_or,
  if◌then◌else◌, inl, inr, length, length-append, length-drop, length-set, none, refl, some, suc,
  sym, true, zero, ℕ, ◌%◌, ◌++◌, ◌+◌, ◌-◌, ◌<◌, ◌==◌, ◌^◌, ◌∙◌, ◌∷◌, ◌≡◌, ◌≢◌, ◌≤◌,
}
use go_lab_tacacs_mcp.Events.Event.{Event, zero_event}
use go_lab_tacacs_mcp.Events.Ring.{
  Ring, accept, blank, default_capacity, emit_stdout, entries, fanout_locked, latest, new_ring,
  snapshot, stamp, store,
}
use go_lab_tacacs_mcp.Events.Ring.Window.{
  entries-snoc, length-entries, place-lt, store-full, store-room,
}
use mathlib.Core.Path.{ap₂, subst}
use native.Mathlib.Decide.{dec_lt}

pub record IsValid (r : Ring) : Type 0 where
  pub some_room : 0 < r.capacity
  pub whole : length r.buf ≡ r.capacity
  pub start_in : r.start < r.capacity
  pub n_in : r.n ≤ r.capacity

-- The list with the event behind it, without its first element where it was full.
unfoldable pub push_last : ℕ → List Event → Event → List Event
push_last size xs e = (if length xs == size then drop 1 xs else xs) ++ (e ∷ [])

store-IsValid : (r : Ring) (e : Event) → IsValid r → IsValid (store r e)
unfolding store
store-IsValid r e v = ground (
  arith,
  length-set r.buf r.start e,
  length-set r.buf ((r.start + r.n) % r.capacity) e,
  place-lt r.capacity (r.start + 1) (omega (arith, v.start_in, v.some_room)),
)

-- A store is a push of the bounded list.
store_refines :
    (r : Ring) (e : Event) → IsValid r → snapshot (store r e) ≡ push_last r.capacity (snapshot r) e
unfolding snapshot store push_last
store_refines r e v = elim (Bool-cases (r.n == r.capacity)) [
  | inl full ↦ ground (
    arith,
    full,
    length-entries r.buf r.capacity r.start 0 r.n,
    store-full r.buf r.capacity r.start e v.whole v.start_in,
  )
  | inr room ↦ ground (
    arith,
    room,
    length-entries r.buf r.capacity r.start 0 r.n,
    store-room r.buf r.capacity r.start r.n e v.whole v.start_in (ground (arith, v.n_in, room)),
  )
]

store-lost :
    (r : Ring) (e : Event)
    → (store r e).overwritten
      ≡ (if length (snapshot r) == r.capacity then (r.overwritten + 1) % 2 ^ 64 else r.overwritten)
unfolding store snapshot
store-lost r e = ground (arith, length-entries r.buf r.capacity r.start 0 r.n)

-- What comes after the store leaves the ring's events alone.
accept-store :
    (r : Ring) (now : ℕ) (e : Event)
    → r.reject ≡ false
    → r.closed ≡ false
    → let e' = stamp ((r.seq + 1) % 2 ^ 64) now e in
      (snapshot (accept r now e).0 ≡ snapshot (store r e'))
      × ((accept r now e).1 ≡ e')
      × (IsValid (store r e') → IsValid (accept r now e).0)
      × ((accept r now e).0.seq ≡ (r.seq + 1) % 2 ^ 64)
      × ((accept r now e).0.reject ≡ false)
      × ((accept r now e).0.closed ≡ false)
      × ((accept r now e).0.overwritten ≡ (store r e').overwritten)
      × ((accept r now e).0.capacity ≡ r.capacity)
unfolding accept emit_stdout fanout_locked store snapshot
accept-store r now e h k = ground (arith, h, k)

-- Events that are accepted one after the other, each at a reading of the clock.
unfoldable pub accepts : Ring → List (ℕ × Event) → Ring
accepts r [] = r
accepts r ((now, e) ∷ es) = accepts (accept r now e).0 es

unfoldable pub stamped : ℕ → List (ℕ × Event) → List Event
stamped seq [] = []
stamped seq ((now, e) ∷ es) = let next = (seq + 1) % 2 ^ 64 in stamp next now e ∷ stamped next es

-- The last `size` elements.
abbrev pub last_of : ℕ → List Event → List Event
last_of size xs = drop (length xs - size) xs

drop-drop_one : (k : ℕ) (xs : List Event) → drop 1 (drop k xs) ≡ drop (suc k) xs
drop-drop_one zero xs = refl
drop-drop_one (suc k) [] = refl
drop-drop_one (suc k) (x ∷ xs) = drop-drop_one k xs

drop-append_le : (k : ℕ) (xs ys : List Event) → k ≤ length xs → drop k (xs ++ ys) ≡ drop k xs ++ ys
drop-append_le zero xs ys h = refl
drop-append_le (suc k) [] ys h = absurd (omega arith)
drop-append_le (suc k) (x ∷ xs) ys h = drop-append_le k xs ys (omega arith)

push_last-last_of :
    (size : ℕ) (xs : List Event) (e : Event)
    → 0 < size
    → push_last size (last_of size xs) e ≡ last_of size (xs ++ (e ∷ []))
unfolding push_last
push_last-last_of size xs e h = elim (dec_lt (length xs) size) [
  | yes p ↦
      let z : length xs - size ≡ 0 = omega arith in
      let z' : length xs + 1 - size ≡ 0 = omega arith in
      let t : (length xs == size) ≡ false = ground arith in
      rw (length-append xs (e ∷ []), z', z, t) refl
  | no p ↦
      let k = length xs - size in
      let z' : length xs + 1 - size ≡ suc k = omega arith in
      let t : (length (drop k xs) == size) ≡ true =
        (==_iff (length (drop k xs)) size).1 (omega (arith, length-drop k xs)) in
      rw (length-append xs (e ∷ []), z', t, drop-drop_one k xs)
        (sym (drop-append_le (suc k) xs (e ∷ []) (omega arith)))
]

-- What holds of a ring that has accepted the events `h`.
record Holds (size : ℕ) (r : Ring) (h : List Event) : Type 0 where
  valid : IsValid r
  sized : r.capacity ≡ size
  open_ring : r.closed ≡ false
  taking : r.reject ≡ false
  retained : snapshot r ≡ last_of size h
  lost : r.overwritten ≡ (length h - size) % 2 ^ 64

accept-Holds :
    (size : ℕ) (r : Ring) (h : List Event) (now : ℕ) (e : Event)
    → Holds size r h
    → Holds size (accept r now e).0 (h ++ (stamp ((r.seq + 1) % 2 ^ 64) now e ∷ []))
accept-Holds size r h now e v =
    let e' = stamp ((r.seq + 1) % 2 ^ 64) now e in
    let (snap, out, valid, seq, taking, open_ring, lost, sized) =
      accept-store r now e v.taking v.open_ring in
    record {
      valid = valid (store-IsValid r e' v.valid);
      sized = sized ∙ v.sized;
      open_ring = open_ring;
      taking = taking;
      retained =
          snap
          ∙ (store_refines r e' v.valid
              ∙ (ap₂ (λ c xs. push_last c xs e') v.sized v.retained
                  ∙ push_last-last_of size h e' (omega (arith, v.valid.some_room, v.sized))));
      lost = ground (
        arith,
        lost,
        store-lost r e',
        v.lost,
        v.sized,
        length-append h (e' ∷ []),
        length-drop (length h - size) h,
        ap length v.retained,
      );
    }

accepts-Holds :
    (size : ℕ) (es : List (ℕ × Event)) (r : Ring) (h : List Event)
    → Holds size r h
    → Holds size (accepts r es) (h ++ stamped r.seq es)
unfolding accepts stamped
accepts-Holds size [] r h v = rw (append-nil h) v
accepts-Holds size ((now, e) ∷ es) r h v =
    let next = (r.seq + 1) % 2 ^ 64 in
    let (snap, out, valid, seq, taking, open_ring, lost, sized) =
      accept-store r now e v.taking v.open_ring in
    let ih =
      accepts-Holds size es (accept r now e).0 (h ++ (stamp next now e ∷ []))
        (accept-Holds size r h now e v) in
    let moved : (h ++ (stamp next now e ∷ [])) ++ stamped (accept r now e).0.seq es
        ≡ h ++ (stamp next now e ∷ stamped next es) =
      rw (seq, append_assoc h (stamp next now e ∷ []) (stamped next es)) refl in
    subst (Holds size (accepts (accept r now e).0 es)) moved ih

length-blank : (k : ℕ) → length (blank k) ≡ k
unfolding blank
length-blank zero = refl
length-blank (suc k) = ap suc (length-blank k)

new_ring-Holds :
    (size : ℕ) (stdout_buffer : Option ℕ)
    → Holds (if size == 0 then default_capacity else size) (new_ring size stdout_buffer) []
unfolding new_ring snapshot entries
new_ring-Holds size stdout_buffer =
    let c : ℕ = if size == 0 then default_capacity else size in
    record {
      valid = record {
        some_room = ground arith;
        whole = length-blank c;
        start_in = ground arith;
        n_in = ground arith;
      };
      sized = refl;
      open_ring = refl;
      taking = refl;
      retained = let z : 0 - c ≡ 0 = omega arith in rw z refl;
      lost = let z : 0 - c ≡ 0 = omega arith in rw z refl;
    }

unfoldable pub last? : List Event → Option Event
last? [] = none
last? (x ∷ []) = some x
last? (x ∷ y ∷ xs) = last? (y ∷ xs)

last?-snoc : (xs : List Event) (x : Event) → last? (xs ++ (x ∷ [])) ≡ some x
unfolding last?
last?-snoc [] x = refl
last?-snoc (y ∷ []) x = refl
last?-snoc (y ∷ z ∷ xs) x = last?-snoc (z ∷ xs) x

last-none : (buf : List Event) (size start : ℕ) → last? (entries buf size start 0 0) ≡ none
unfolding entries last?
last-none buf size start = refl

last-entries :
    (buf : List Event) (size start n : ℕ)
    → n ≢ 0
    → last? (entries buf size start 0 n) ≡ some (get_or buf ((start + n - 1) % size) zero_event)
last-entries buf size start zero h = absurd (h refl)
last-entries buf size start (suc n) h =
    let e : suc n ≡ n + 1 = omega arith in
    let place : start + (0 + n) ≡ start + suc n - 1 = omega arith in
    ap (λ t. last? (entries buf size start 0 t)) e
    ∙ (ap last? (entries-snoc buf size start 0 n)
        ∙ (last?-snoc (entries buf size start 0 n)
              (get_or buf ((start + (0 + n)) % size) zero_event)
            ∙ ap (λ t. some (get_or buf (t % size) zero_event)) place))

latest-snapshot : (r : Ring) → latest r ≡ last? (snapshot r)
unfolding latest snapshot
latest-snapshot r = elim (Bool-cases (r.n == 0)) [
  | inl empty ↦ ground (arith, empty, last-none r.buf r.capacity r.start)
  | inr held ↦
      ground (arith, held, last-entries r.buf r.capacity r.start r.n (ground (arith, held)))
]

-- A new ring that has accepted events, one after the other, holds the last of them, as many as its
-- capacity allows, in their order, with the ids of their acceptance; `Latest` is the last of all, and
-- `Overwritten` counts those that are gone. A capacity of 0 is 10000.
pub ring_refines :
    (size : ℕ) (stdout_buffer : Option ℕ) (es : List (ℕ × Event))
    → let c = if size == 0 then default_capacity else size in
      let r = accepts (new_ring size stdout_buffer) es in
      let h = stamped 0 es in
      (snapshot r ≡ last_of c h)
      × (latest r ≡ last? (last_of c h))
      × (r.overwritten ≡ (length h - c) % 2 ^ 64)
unfolding new_ring
ring_refines size stdout_buffer es =
    let c : ℕ = if size == 0 then default_capacity else size in
    let v =
      accepts-Holds c es (new_ring size stdout_buffer) [] (new_ring-Holds size stdout_buffer) in
    let r = accepts (new_ring size stdout_buffer) es in
    (v.retained, latest-snapshot r ∙ ap last? v.retained, v.lost)
