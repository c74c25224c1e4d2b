-- ===== src/Radius/Sessions/Counted.antt =====
-- The counts of the session index: entries and bytes.
use go_lab_tacacs_mcp.Common.{
  Bool-cases, List, Option, Option-cases, [], ap, arith, inl, inr, length, none, refl, some, sym,
  true, ℕ, ◌+◌, ◌-◌, ◌<◌, ◌∷◌, ◌≡◌, ◌≢◌, ◌≤◌,
}
use go_lab_tacacs_mcp.Common.Text.{Str}
use go_lab_tacacs_mcp.Radius.Sessions.{
  AcctEvent, AcctKind, DasQuery, LastCoA, SessionIndex, SessionKey, SessionRecord, apply,
  apply_kind, count_sessions, delete_handle, delete_key_locked, delete_session_key, drop_keys,
  event_interim, event_off, event_on, event_start, event_stop, expire_sessions, expired_keys, fill,
  find_das, find_handle, find_key, flush_locked, flushed_keys, insert_locked, insert_new, is_set,
  key_of, list_sessions, lookup_handle, lookup_key, merge_event, new_session_index, other_kind,
  record_size, reset_index, rewrite, set_handle, store_last_coa, update_locked,
}
use mathlib.Core.Path.{subst}

abbrev total : List (Str × SessionRecord) → ℕ
total [] = 0
total ((h, r) ∷ m) = record_size r + total m

pub record IsCounted (limit : ℕ) (idx : SessionIndex) : Type 0 where
  pub cap : idx.max_entries ≡ limit
  pub bytes_held : idx.used_bytes ≡ total idx.by_handle
  pub entries : length idx.by_handle ≤ limit

total-set_handle :
    (h : Str) (old new : SessionRecord) (m : List (Str × SessionRecord))
    → find_handle h m ≡ some old
    → (total (set_handle h new m) + record_size old ≡ total m + record_size new)
      × (length (set_handle h new m) ≡ length m)
      × (record_size old ≤ total m)
unfolding find_handle set_handle
total-set_handle h old new [] e = cc
total-set_handle h old new ((k, r) ∷ m) e = ground (arith, e, total-set_handle h old new m)

total-delete_handle :
    (h : Str) (old : SessionRecord) (m : List (Str × SessionRecord))
    → find_handle h m ≡ some old
    → (total (delete_handle h m) + record_size old ≡ total m)
      × (length (delete_handle h m) ≤ length m)
unfolding find_handle delete_handle
total-delete_handle h old [] e = cc
total-delete_handle h old ((k, r) ∷ m) e = ground (arith, e, total-delete_handle h old m)

none-delete_handle :
    (h : Str) (m : List (Str × SessionRecord)) → find_handle h m ≡ none → delete_handle h m ≡ m
unfolding find_handle delete_handle
none-delete_handle h [] e = refl
none-delete_handle h ((k, r) ∷ m) e = ground (arith, e, none-delete_handle h m)

rewrite-IsCounted :
    {limit : ℕ} (idx : SessionIndex) (h : Str) (old new : SessionRecord)
    → find_handle h idx.by_handle ≡ some old
    → IsCounted limit idx
    → IsCounted limit (rewrite idx h old new)
unfolding rewrite
rewrite-IsCounted idx h old new e v =
    let (t, l, le) = total-set_handle h old new idx.by_handle e in
    let c = v.bytes_held in
    let b : idx.used_bytes - record_size old + record_size new
        ≡ total (set_handle h new idx.by_handle) =
      omega (arith, t, c, le) in
    record { cap = v.cap; bytes_held = b; entries = omega (arith, l, v.entries) }

delete-IsCounted :
    {limit : ℕ} (idx : SessionIndex) (key : SessionKey)
    → IsCounted limit idx
    → IsCounted limit (delete_key_locked idx key)
unfolding delete_key_locked
delete-IsCounted idx key v = elim (Bool-cases (is_set key.acct_session_id)) [
  | inr f ↦ rw (f, delete_key_locked) v
  | inl t ↦ elim (Option-cases (find_key key idx.by_key)) [
    | inl n ↦ rw (t, n, delete_key_locked) v
    | inr (h, n) ↦ elim (Option-cases (find_handle h idx.by_handle)) [
      | inl e ↦
          rw (t, n, e, delete_key_locked, none-delete_handle h idx.by_handle e)
            (record { cap = v.cap; bytes_held = v.bytes_held; entries = v.entries })
      | inr (r, e) ↦
          let (s, l) = total-delete_handle h r idx.by_handle e in
          let c = v.bytes_held in
          let w = v.entries in
          rw (t, n, e, delete_key_locked)
            (record {
              cap = v.cap;
              bytes_held = omega (arith, s, c);
              entries = omega (arith, l, w);
            })
    ]
  ]
]

drop-IsCounted :
    {limit : ℕ} (idx : SessionIndex) (ks : List SessionKey)
    → IsCounted limit idx
    → IsCounted limit (drop_keys idx ks)
unfolding drop_keys
drop-IsCounted idx [] v = v
drop-IsCounted idx (k ∷ ks) v =
    drop-IsCounted (delete_key_locked idx k) ks (delete-IsCounted idx k v)

new-IsCounted :
    {limit : ℕ} (now : ℕ) (tries : List (Option Str)) (idx : SessionIndex) (ev : AcctEvent)
    → IsCounted limit idx
    → IsCounted limit (insert_new now tries idx ev).0
unfolding insert_new
new-IsCounted now tries idx ev v = ground (arith, v)

insert-IsCounted :
    {limit : ℕ} (now : ℕ) (tries : List (Option Str)) (idx : SessionIndex) (ev : AcctEvent)
    → IsCounted limit idx
    → IsCounted limit (insert_locked now tries idx ev).0
unfolding insert_locked
insert-IsCounted now tries idx ev v = elim (Bool-cases (is_set ev.session_id)) [
  | inr f ↦ rw (f, insert_locked) v
  | inl t ↦ elim (Option-cases (find_key (key_of ev) idx.by_key)) [
    | inl n ↦ rw (t, n, insert_locked) (new-IsCounted now tries idx ev v)
    | inr (h, n) ↦ elim (Option-cases (find_handle h idx.by_handle)) [
      | inl e ↦ rw (t, n, e, insert_locked) v
      | inr (r, e) ↦ rw (t, n, e, insert_locked) (rewrite-IsCounted idx h r (fill r ev now) e v)
    ]
  ]
]

update-IsCounted :
    {limit : ℕ} (now : ℕ) (idx : SessionIndex) (ev : AcctEvent)
    → IsCounted limit idx
    → IsCounted limit (update_locked now idx ev)
unfolding update_locked
update-IsCounted now idx ev v = elim (Bool-cases (is_set ev.session_id)) [
  | inr f ↦ rw (f, update_locked) v
  | inl t ↦ elim (Option-cases (find_key (key_of ev) idx.by_key)) [
    | inl n ↦ rw (t, n, update_locked) v
    | inr (h, n) ↦ elim (Option-cases (find_handle h idx.by_handle)) [
      | inl e ↦ rw (t, n, e, update_locked) v
      | inr (r, e) ↦
          rw (t, n, e, update_locked) (rewrite-IsCounted idx h r (merge_event r ev now) e v)
    ]
  ]
]

coa-IsCounted :
    {limit : ℕ} (now : ℕ) (idx : SessionIndex) (key : SessionKey) (attrs : LastCoA)
    → IsCounted limit idx
    → IsCounted limit (store_last_coa now idx key attrs).0
unfolding store_last_coa expire_sessions
coa-IsCounted now idx key attrs v =
    let live = drop_keys idx (expired_keys now idx.ttl idx.by_handle) in
    let w = drop-IsCounted idx (expired_keys now idx.ttl idx.by_handle) v in
    elim (Bool-cases (is_set key.acct_session_id)) [
      | inr f ↦ rw (f, store_last_coa) v
      | inl t ↦ elim (Option-cases (find_key key live.by_key)) [
        | inl n ↦ rw (t, n, store_last_coa) w
        | inr (h, n) ↦ elim (Option-cases (find_handle h live.by_handle)) [
          | inl e ↦ rw (t, n, e, store_last_coa) w
          | inr (r, e) ↦
              rw (t, n, e, store_last_coa)
                (rewrite-IsCounted live h r (record r { last_coa = attrs; last_update = now }) e w)
        ]
      ]
    ]

apply-IsCounted :
    {limit : ℕ} (now : ℕ) (tries : List (Option Str)) (idx : SessionIndex) (kind : AcctKind)
    (ev : AcctEvent)
    → IsCounted limit idx
    → IsCounted limit (apply_kind kind now tries idx ev).0
apply-IsCounted now tries idx event_start ev v = insert-IsCounted now tries idx ev v
apply-IsCounted now tries idx event_interim ev v = update-IsCounted now idx ev v
apply-IsCounted now tries idx event_stop ev v = delete-IsCounted idx (key_of ev) v
apply-IsCounted now tries idx event_on ev v =
    unfold flush_locked in drop-IsCounted idx (flushed_keys ev idx.by_handle idx.by_key) v
apply-IsCounted now tries idx event_off ev v =
    unfold flush_locked in drop-IsCounted idx (flushed_keys ev idx.by_handle idx.by_key) v
apply-IsCounted now tries idx other_kind ev v = v

expire-IsCounted :
    {limit : ℕ} (now : ℕ) (idx : SessionIndex)
    → IsCounted limit idx
    → IsCounted limit (expire_sessions now idx)
unfolding expire_sessions
expire-IsCounted now idx v = drop-IsCounted idx (expired_keys now idx.ttl idx.by_handle) v

-- A call on the index, at a reading of the clock.
pub data IndexCall : Type 0 where
  applies : ℕ → List (Option Str) → AcctEvent → IndexCall
  looks_up : ℕ → Str → IndexCall
  looks_up_key : ℕ → SessionKey → IndexCall
  finds : ℕ → DasQuery → IndexCall
  stores_coa : ℕ → SessionKey → LastCoA → IndexCall
  deletes : ℕ → SessionKey → IndexCall
  counts : ℕ → IndexCall
  lists : ℕ → Str → ℕ → IndexCall
  resets : IndexCall

unfoldable pub after_call : SessionIndex → IndexCall → SessionIndex
after_call idx (applies now tries ev) = (apply now tries idx ev).0
after_call idx (looks_up now h) = (lookup_handle now idx h).0
after_call idx (looks_up_key now key) = (lookup_key now idx key).0
after_call idx (finds now q) = (find_das now idx q).0
after_call idx (stores_coa now key attrs) = (store_last_coa now idx key attrs).0
after_call idx (deletes now key) = (delete_session_key now idx key).0
after_call idx (counts now) = (count_sessions now idx).0
after_call idx (lists now cursor limit) = (list_sessions now idx cursor limit).0
after_call idx resets = reset_index idx

unfoldable pub after_calls : SessionIndex → List IndexCall → SessionIndex
unfolding after_call
after_calls idx [] = idx
after_calls idx (c ∷ cs) = after_calls (after_call idx c) cs

call-IsCounted :
    {limit : ℕ} (idx : SessionIndex) (c : IndexCall)
    → IsCounted limit idx
    → IsCounted limit (after_call idx c)
unfolding after_call apply lookup_handle lookup_key find_das delete_session_key reset_index
    count_sessions list_sessions
call-IsCounted idx (applies now tries ev) v =
    apply-IsCounted now tries (expire_sessions now idx) ev.kind ev (expire-IsCounted now idx v)
call-IsCounted idx (looks_up now h) v = ground (arith, v, expire-IsCounted now idx v)
call-IsCounted idx (looks_up_key now key) v =
    let w = expire-IsCounted now idx v in ground (arith, v, w)
call-IsCounted idx (finds now q) v = expire-IsCounted now idx v
call-IsCounted idx (stores_coa now key attrs) v = coa-IsCounted now idx key attrs v
call-IsCounted idx (deletes now key) v =
    let w = expire-IsCounted now idx v in
    ground (arith, v, w, delete-IsCounted (expire_sessions now idx) key w)
call-IsCounted idx (counts now) v = expire-IsCounted now idx v
call-IsCounted idx (lists now cursor limit) v = expire-IsCounted now idx v
call-IsCounted idx resets v = record { cap = v.cap; bytes_held = refl; entries = omega arith }

calls-IsCounted :
    {limit : ℕ} (idx : SessionIndex) (cs : List IndexCall)
    → IsCounted limit idx
    → IsCounted limit (after_calls idx cs)
unfolding after_calls
calls-IsCounted idx [] v = v
calls-IsCounted idx (c ∷ cs) v = calls-IsCounted (after_call idx c) cs (call-IsCounted idx c v)

-- Under any calls from a new index, at any readings of the clock and whatever handles are made, the
-- count of bytes is the sum of the sizes of the records held, there are never more records than the
-- cap on entries, and the cap stays what it is.
pub index-IsCounted :
    (entries bytes ttl : ℕ) (idx : SessionIndex) (cs : List IndexCall)
    → new_session_index entries bytes ttl ≡ some idx
    → IsCounted entries (after_calls idx cs)
unfolding new_session_index
index-IsCounted entries bytes ttl idx cs h = calls-IsCounted idx cs (ground (arith, h))

is_set_of_ne : (s : Str) → s ≢ [] → is_set s ≡ true
is_set_of_ne [] h = absurd (h refl)
is_set_of_ne (x ∷ s) h = ground arith

size-merge_event :
    (r : SessionRecord) (ev : AcctEvent) (now : ℕ)
    → 0 < length ev.class_bytes
    → length ev.class_bytes ≤ record_size (merge_event r ev now)
unfolding record_size merge_event
size-merge_event r ev now h = ground (arith, h)

update-past :
    (idx : SessionIndex) (now : ℕ) (ev : AcctEvent) (h : Str) (r : SessionRecord)
    → ev.session_id ≢ []
    → find_key (key_of ev) idx.by_key ≡ some h
    → find_handle h idx.by_handle ≡ some r
    → idx.max_bytes < length ev.class_bytes
    → idx.max_bytes < (update_locked now idx ev).used_bytes
unfolding update_locked rewrite
update-past idx now ev h r s f g big =
    let m = size-merge_event r ev now (omega (arith, big)) in
    rw (is_set_of_ne ev.session_id s, f, g, update_locked, rewrite) (omega (arith, m, big))

-- The cap on bytes is tested for a new session only: an interim update of a session that is live
-- takes the count of bytes past the cap where the Class that it carries is longer than the cap.
pub update_past_cap :
    (now : ℕ) (tries : List (Option Str)) (idx : SessionIndex) (ev : AcctEvent) (h : Str)
    (r : SessionRecord)
    → ev.kind ≡ event_interim
    → ev.session_id ≢ []
    → find_key (key_of ev) (expire_sessions now idx).by_key ≡ some h
    → find_handle h (expire_sessions now idx).by_handle ≡ some r
    → (expire_sessions now idx).max_bytes < length ev.class_bytes
    → (expire_sessions now idx).max_bytes < (apply now tries idx ev).0.used_bytes
unfolding apply
update_past_cap now tries idx ev h r k s f g big =
    let live = expire_sessions now idx in
    subst (λ t. live.max_bytes < t.0.used_bytes)
      (sym (ap (λ kind. apply_kind kind now tries live ev) k))
      (update-past live now ev h r s f g big)
