-- ===== src/Radius/Sessions.antt =====
-- The index of live accounting sessions: internal/radius/runtime/session_index.go. Go's maps are
-- association lists. A method holds the lock from its start to its end, so it is one step from an
-- index to an index; one reading of the clock, where `Apply` and `StoreLastCoA` read
-- it twice under the lock, and what `newULID` gives (none is its error) are
-- arguments. Metrics are left out, and the receiver is not nil. A key whose handle has no record, at
-- which `insertLocked` and `updateLocked` would panic, leaves the index as it is.
pub mod Counted
use go_lab_tacacs_mcp.Common.{
  Bool, List, Option, [], false, if◌then◌else◌, leb, length, ltb, map, none, not, some, take, true,
  ℕ, ◌&&◌, ◌+◌, ◌-◌, ◌==◌, ◌>>=◌, ◌||◌, ◌∷◌,
}
use go_lab_tacacs_mcp.Common.Bytes.{Bytes}
use go_lab_tacacs_mcp.Common.Text.{Str, str_eq, str_ltb}

pub record SessionKey : Type 0 where
  pub endpoint_id : Str
  pub acct_session_id : Str

pub record LastCoA : Type 0 where
  pub session_timeout : Option ℕ
  pub idle_timeout : Option ℕ
  pub reply_message : List Str

-- A peer is its address and port; an address or peer that is not valid is `none`, and the zero time
-- is 0.
pub record SessionRecord : Type 0 where
  pub key : SessionKey
  pub handle : Str
  pub client_id : Str
  pub endpoint_id : Str
  pub user_id : Str
  pub nas_ip : Option Str
  pub nas_identifier : Str
  pub nas_port : ℕ
  pub peer : Option (Str × ℕ)
  pub class_bytes : Bytes
  pub started_at : ℕ
  pub last_update : ℕ
  pub revision : ℕ
  pub last_coa : LastCoA

pub data AcctKind : Type 0 where
  event_start event_stop event_interim event_on event_off other_kind : AcctKind

pub record AcctEvent : Type 0 where
  pub kind : AcctKind
  pub endpoint_id : Str
  pub client_id : Str
  pub user_id : Str
  pub session_id : Str
  pub nas_ip : Option Str
  pub nas_identifier : Str
  pub nas_port : ℕ
  pub peer : Option (Str × ℕ)
  pub class_bytes : Bytes
  pub started_at : ℕ
  pub revision : ℕ

pub record DasQuery : Type 0 where
  pub client_id : Str
  pub session_id : Str
  pub user_id : Str
  pub nas_ip : Option Str
  pub nas_identifier : Str

pub record SessionIndex : Type 0 where
  pub max_entries : ℕ
  pub max_bytes : ℕ
  pub ttl : ℕ
  pub by_key : List (SessionKey × Str)
  pub by_handle : List (Str × SessionRecord)
  pub used_bytes : ℕ

-- The caps are numbers, so the negative ones are not written; the entropy source is given.
unfoldable pub new_session_index : ℕ → ℕ → ℕ → Option SessionIndex
new_session_index entries bytes ttl =
    if entries == 0 || (bytes == 0 || ttl == 0)
    then none
    else some (record {
      max_entries = entries;
      max_bytes = bytes;
      ttl = ttl;
      by_key = [];
      by_handle = [];
      used_bytes = 0;
    })

abbrev pub is_set : Str → Bool
is_set s = not (length s == 0)

abbrev pub is_valid {ℓ} : {A : Type ℓ} → Option A → Bool
is_valid none = false
is_valid (some a) = true

unfoldable pub same_session : SessionKey → SessionKey → Bool
same_session a b = str_eq a.endpoint_id b.endpoint_id && str_eq a.acct_session_id b.acct_session_id

-- `idx.byKey[key]` and `delete(idx.byKey, key)`.
unfoldable pub find_key : SessionKey → List (SessionKey × Str) → Option Str
find_key key [] = none
find_key key ((k, h) ∷ m) = let rest = find_key key m in if same_session k key then some h else rest

unfoldable pub delete_key : SessionKey → List (SessionKey × Str) → List (SessionKey × Str)
delete_key key [] = []
delete_key key ((k, h) ∷ m) =
    let rest = delete_key key m in if same_session k key then m else (k, h) ∷ rest

-- `idx.byHandle[handle]`, what is written through its pointer, and its deletion.
unfoldable pub find_handle : Str → List (Str × SessionRecord) → Option SessionRecord
find_handle h [] = none
find_handle h ((k, r) ∷ m) = let rest = find_handle h m in if str_eq k h then some r else rest

unfoldable pub set_handle :
    Str → SessionRecord → List (Str × SessionRecord) → List (Str × SessionRecord)
set_handle h r [] = []
set_handle h r ((k, q) ∷ m) =
    let rest = set_handle h r m in if str_eq k h then (k, r) ∷ m else (k, q) ∷ rest

unfoldable pub delete_handle : Str → List (Str × SessionRecord) → List (Str × SessionRecord)
delete_handle h [] = []
delete_handle h ((k, r) ∷ m) =
    let rest = delete_handle h m in if str_eq k h then m else (k, r) ∷ rest

unfoldable pub text_sizes : List Str → ℕ
text_sizes [] = 0
text_sizes (s ∷ ss) = length s + text_sizes ss

unfoldable pub record_size : SessionRecord → ℕ
unfolding text_sizes
record_size r =
    192
    + length r.key.endpoint_id
    + length r.key.acct_session_id
    + length r.handle
    + length r.client_id
    + length r.user_id
    + length r.nas_identifier
    + length r.class_bytes
    + text_sizes r.last_coa.reply_message

abbrev pub key_of : AcctEvent → SessionKey
key_of ev = record { endpoint_id = ev.endpoint_id; acct_session_id = ev.session_id }

unfoldable pub fill : SessionRecord → AcctEvent → ℕ → SessionRecord
fill r ev now = record {
  key = key_of ev;
  handle = r.handle;
  client_id = ev.client_id;
  endpoint_id = ev.endpoint_id;
  user_id = ev.user_id;
  nas_ip = ev.nas_ip;
  nas_identifier = ev.nas_identifier;
  nas_port = ev.nas_port;
  peer = ev.peer;
  class_bytes = ev.class_bytes;
  started_at =
      if not (ev.started_at == 0)
      then ev.started_at
      else if r.started_at == 0
      then now
      else r.started_at;
  last_update = now;
  revision = ev.revision;
  last_coa = r.last_coa;
}

-- The assignments of `updateLocked`.
unfoldable pub merge_event : SessionRecord → AcctEvent → ℕ → SessionRecord
merge_event r ev now = record {
  key = r.key;
  handle = r.handle;
  client_id = r.client_id;
  endpoint_id = r.endpoint_id;
  user_id = if is_set ev.user_id then ev.user_id else r.user_id;
  nas_ip = if is_valid ev.nas_ip then ev.nas_ip else r.nas_ip;
  nas_identifier = if is_set ev.nas_identifier then ev.nas_identifier else r.nas_identifier;
  nas_port = if not (ev.nas_port == 0) then ev.nas_port else r.nas_port;
  peer = if is_valid ev.peer then ev.peer else r.peer;
  class_bytes = if is_set ev.class_bytes then ev.class_bytes else r.class_bytes;
  started_at = r.started_at;
  last_update = now;
  revision = if not (ev.revision == 0) then ev.revision else r.revision;
  last_coa = r.last_coa;
}

-- A record rewritten behind its handle, with the count of bytes before and after.
unfoldable pub rewrite : SessionIndex → Str → SessionRecord → SessionRecord → SessionIndex
rewrite idx handle old new = record idx {
  by_handle = set_handle handle new idx.by_handle;
  used_bytes = idx.used_bytes - record_size old + record_size new;
}

unfoldable pub delete_key_locked : SessionIndex → SessionKey → SessionIndex
delete_key_locked idx key =
    if not (is_set key.acct_session_id) then idx else elim (find_key key idx.by_key) [
      | none ↦ idx
      | some h ↦ record idx {
        by_key = delete_key key idx.by_key;
        by_handle = delete_handle h idx.by_handle;
        used_bytes = elim (find_handle h idx.by_handle) [
          | none ↦ idx.used_bytes
          | some r ↦ idx.used_bytes - record_size r
        ];
      }
    ]

-- The last loop of `expireLocked` and of `flushLocked`.
unfoldable pub drop_keys : SessionIndex → List SessionKey → SessionIndex
unfolding delete_key_locked
drop_keys idx [] = idx
drop_keys idx (k ∷ ks) = drop_keys (delete_key_locked idx k) ks

-- `now.Sub(rec.LastUpdate) >= idx.ttl`
unfoldable pub expired_keys : ℕ → ℕ → List (Str × SessionRecord) → List SessionKey
expired_keys now ttl [] = []
expired_keys now ttl ((h, r) ∷ m) =
    if leb (r.last_update + ttl) now then r.key ∷ expired_keys now ttl m else expired_keys now ttl m

unfoldable pub expire_sessions : ℕ → SessionIndex → SessionIndex
expire_sessions now idx = drop_keys idx (expired_keys now idx.ttl idx.by_handle)

-- The loop of `uniqueHandle` over what `newULID` gives, eight times at most.
unfoldable pub unique_handle : List (Option Str) → List (Str × SessionRecord) → Option Str
unfolding find_handle
unique_handle [] m = none
unique_handle (none ∷ tries) m = none
unique_handle (some h ∷ tries) m =
    let rest = unique_handle tries m in if is_valid (find_handle h m) then rest else some h

abbrev pub no_coa : LastCoA
no_coa = record { session_timeout = none; idle_timeout = none; reply_message = [] }

-- `&SessionRecord{Handle: "", Key: key}`
abbrev pub blank_record : SessionRecord
blank_record = record {
  key = record { endpoint_id = []; acct_session_id = [] };
  handle = [];
  client_id = [];
  endpoint_id = [];
  user_id = [];
  nas_ip = none;
  nas_identifier = [];
  nas_port = 0;
  peer = none;
  class_bytes = [];
  started_at = 0;
  last_update = 0;
  revision = 0;
  last_coa = no_coa;
}

-- `insertLocked` for a key that is not in the index.
unfoldable pub insert_new : ℕ → List (Option Str) → SessionIndex → AcctEvent → SessionIndex × Bool
insert_new now tries idx ev =
    let r = fill blank_record ev now in
    if leb idx.max_entries (length idx.by_handle)
      || ltb idx.max_bytes (idx.used_bytes + record_size r)
    then (idx, false)
    else elim (unique_handle (take 8 tries) idx.by_handle) [
      | none ↦ (idx, false)
      | some h ↦
          let kept = record r { handle = h } in
          (
            record idx {
              by_handle = (h, kept) ∷ idx.by_handle;
              by_key = (key_of ev, h) ∷ idx.by_key;
              used_bytes = idx.used_bytes + record_size kept;
            },
            true,
          )
    ]

unfoldable pub insert_locked :
    ℕ → List (Option Str) → SessionIndex → AcctEvent → SessionIndex × Bool
insert_locked now tries idx ev =
    if not (is_set ev.session_id) then (idx, true) else elim (find_key (key_of ev) idx.by_key) [
      | none ↦ insert_new now tries idx ev
      | some h ↦ elim (find_handle h idx.by_handle) [
        | none ↦ (idx, true)
        | some r ↦ (rewrite idx h r (fill r ev now), true)
      ]
    ]

unfoldable pub update_locked : ℕ → SessionIndex → AcctEvent → SessionIndex
update_locked now idx ev =
    if not (is_set ev.session_id) then idx else elim (find_key (key_of ev) idx.by_key) [
      | none ↦ idx
      | some h ↦ elim (find_handle h idx.by_handle) [
        | none ↦ idx
        | some r ↦ rewrite idx h r (merge_event r ev now)
      ]
    ]

-- Valid and equal addresses.
unfoldable pub same_addr : Option Str → Option Str → Bool
same_addr (some a) (some b) = str_eq a b
same_addr none b = false
same_addr (some a) none = false

abbrev pub addr_of : Option (Str × ℕ) → Option Str
addr_of none = none
addr_of (some p) = some (p.0)

unfoldable pub matches_flush : SessionRecord → Option Str → Option Str → Str → Bool
unfolding same_addr
matches_flush r peer_ip nas_ip nas_id =
    same_addr peer_ip (addr_of r.peer)
    || (same_addr nas_ip r.nas_ip || (is_set nas_id && str_eq r.nas_identifier nas_id))

-- The keys that `flushLocked` drops.
unfoldable pub flushed_keys :
    AcctEvent → List (Str × SessionRecord) → List (SessionKey × Str) → List SessionKey
unfolding matches_flush
flushed_keys ev m [] = []
flushed_keys ev m ((k, h) ∷ ks) =
    let rest = flushed_keys ev m ks in
    if not (str_eq k.endpoint_id ev.endpoint_id) then rest else elim (find_handle h m) [
      | none ↦ k ∷ rest
      | some r ↦
          if matches_flush r (addr_of ev.peer) ev.nas_ip ev.nas_identifier then k ∷ rest else rest
    ]

unfoldable pub flush_locked : SessionIndex → AcctEvent → SessionIndex
flush_locked idx ev = drop_keys idx (flushed_keys ev idx.by_handle idx.by_key)

-- The switch of `Apply`.
abbrev pub apply_kind :
    AcctKind → ℕ → List (Option Str) → SessionIndex → AcctEvent → SessionIndex × Bool
apply_kind event_start now tries idx ev = insert_locked now tries idx ev
apply_kind event_interim now tries idx ev = (update_locked now idx ev, true)
apply_kind event_stop now tries idx ev = (delete_key_locked idx (key_of ev), true)
apply_kind event_on now tries idx ev = (flush_locked idx ev, true)
apply_kind event_off now tries idx ev = (flush_locked idx ev, true)
apply_kind other_kind now tries idx ev = (idx, true)

unfoldable pub apply : ℕ → List (Option Str) → SessionIndex → AcctEvent → SessionIndex × Bool
apply now tries idx ev = apply_kind ev.kind now tries (expire_sessions now idx) ev

unfoldable pub lookup_handle : ℕ → SessionIndex → Str → SessionIndex × Option SessionRecord
lookup_handle now idx handle =
    if not (is_set handle)
    then (idx, none)
    else (expire_sessions now idx, find_handle handle (expire_sessions now idx).by_handle)

unfoldable pub lookup_key : ℕ → SessionIndex → SessionKey → SessionIndex × Option SessionRecord
lookup_key now idx key =
    if not (is_set key.acct_session_id)
    then (idx, none)
    else let live = expire_sessions now idx in
      elim (find_key key live.by_key) [
        | none ↦ (live, none)
        | some h ↦ (live, find_handle h live.by_handle)
      ]

unfoldable pub store_last_coa : ℕ → SessionIndex → SessionKey → LastCoA → SessionIndex × Bool
unfolding rewrite
store_last_coa now idx key attrs =
    if not (is_set key.acct_session_id)
    then (idx, false)
    else let live = expire_sessions now idx in
      elim (find_key key live.by_key) [
        | none ↦ (live, false)
        | some h ↦ elim (find_handle h live.by_handle) [
          | none ↦ (live, false)
          | some r ↦ (rewrite live h r (record r { last_coa = attrs; last_update = now }), true)
        ]
      ]

unfoldable pub delete_session_key : ℕ → SessionIndex → SessionKey → SessionIndex × Bool
delete_session_key now idx key =
    if not (is_set key.acct_session_id)
    then (idx, false)
    else let live = expire_sessions now idx in
      elim (find_key key live.by_key) [
        | none ↦ (live, false)
        | some h ↦ (delete_key_locked live key, true)
      ]

unfoldable pub reset_index : SessionIndex → SessionIndex
reset_index idx = record idx { by_key = []; by_handle = []; used_bytes = 0 }

-- The tests in the loop of `FindDAS`: a field that the query sets is that of the record.
unfoldable pub das_hit : DasQuery → SessionRecord → Bool
unfolding same_addr
das_hit q r =
    (not (is_set q.client_id) || str_eq r.client_id q.client_id)
    && ((not (is_set q.session_id) || str_eq r.key.acct_session_id q.session_id)
        && ((not (is_set q.user_id) || str_eq r.user_id q.user_id)
            && ((not (is_valid q.nas_ip) || same_addr r.nas_ip q.nas_ip)
                && (not (is_set q.nas_identifier) || str_eq r.nas_identifier q.nas_identifier))))

unfoldable pub das_hits : DasQuery → List (Str × SessionRecord) → List SessionRecord
unfolding das_hit
das_hits q [] = []
das_hits q ((h, r) ∷ m) = if das_hit q r then r ∷ das_hits q m else das_hits q m

abbrev pub sole_hit : List SessionRecord → Option SessionRecord
sole_hit [] = none
sole_hit (r ∷ []) = some r
sole_hit (r ∷ s ∷ rs) = none

-- The record is there where exactly one matches; the number says how many do.
unfoldable pub find_das : ℕ → SessionIndex → DasQuery → SessionIndex × Option SessionRecord × ℕ
unfolding das_hits
find_das now idx q =
    let live = expire_sessions now idx in
    let hits = das_hits q live.by_handle in (live, sole_hit hits, length hits)

-- `Len`
unfoldable pub count_sessions : ℕ → SessionIndex → SessionIndex × ℕ
count_sessions now idx = (expire_sessions now idx, length (expire_sessions now idx).by_handle)

-- `sort.Strings` on the handles, with the record behind each.
unfoldable pub insert_handle :
    Str × SessionRecord → List (Str × SessionRecord) → List (Str × SessionRecord)
insert_handle e [] = e ∷ []
insert_handle e (d ∷ ds) = if str_ltb d.0 e.0 then d ∷ insert_handle e ds else e ∷ d ∷ ds

-- The handles behind the cursor, sorted.
unfoldable pub handles_after : Str → List (Str × SessionRecord) → List (Str × SessionRecord)
unfolding insert_handle
handles_after cursor [] = []
handles_after cursor (e ∷ es) =
    let rest = handles_after cursor es in if str_ltb cursor e.0 then insert_handle e rest else rest

-- `List`; the limit is a number, so the negative ones that are treated like 0 are not written.
unfoldable pub list_sessions : ℕ → SessionIndex → Str → ℕ → SessionIndex × List SessionRecord
unfolding handles_after
list_sessions now idx cursor limit =
    let live = expire_sessions now idx in
    (
      live,
      map (λ e. e.1)
          (take (if limit == 0 then 100 else limit) (handles_after cursor live.by_handle)),
    )
