-- ===== src/Api/Idempotency.antt =====
-- Replay of operations by an idempotency key: internal/api/operations/idempotency.go. Go's map is an
-- association list. What `invokeReplay` does under one hold of the lock is one step: it begins a
-- call, and it ends the call that ran the handler, between which other calls may begin and end. The
-- digests of the key and of the request, the handler and its result are arguments. The zero time is
-- 0, and the loop that sweeps the store is run over the entries in any order.
pub mod Once
use Prim.Native.Char.{code}
use go_lab_tacacs_mcp.Common.{
  Bool, List, Option, Result, [], err, false, if◌then◌else◌, leb, length, none, not, ok, some, true,
  ℕ, ◌&&◌, ◌*◌, ◌+◌, ◌/◌, ◌==◌, ◌∷◌,
}
use go_lab_tacacs_mcp.Common.Bytes.{Bytes}
use go_lab_tacacs_mcp.Common.Text.{Str, str_eq}

-- A code that is not empty is `some`; `done` says that the channel is closed.
pub record ReplayEntry (C : Type 0) : Type 0 where
  pub fingerprint : Str
  pub done : Bool
  pub expires : ℕ
  pub revision : ℕ
  pub body : Bytes
  pub code : Option C

pub record ReplayStore (C : Type 0) : Type 0 where
  pub entries : List (Str × ReplayEntry C)
  pub ttl : ℕ
  pub capacity : ℕ

-- What a call finds when it begins: an entry of its key to wait for and replay, or it is to run the
-- handler.
pub data Begun (C : Type 0) : Type 0 where
  conflict full started : Begun C
  waits : ReplayEntry C → Begun C

-- What the handler gave: the revision, the encoded data where it can be encoded, and the error's code,
-- where `none` inside is an error that is none of the domain.
pub record Outcome (C : Type 0) : Type 0 where
  pub revision : ℕ
  pub encoded : Option Bytes
  pub failure : Option (Option C)

abbrev pub replay_reservation : ℕ
replay_reservation = 64 * 1024

unfoldable pub new_replay_store : {C : Type 0} → ReplayStore C
new_replay_store = record {
  entries = [];
  ttl = 10 * 60 * 1000000000;
  capacity = 8 * 1024 * 1024 / replay_reservation;
}

-- `s.entries[key]`, and what is written through its pointer.
unfoldable pub find_replay :
    {C : Type 0} → Str → List (Str × ReplayEntry C) → Option (ReplayEntry C)
find_replay key [] = none
find_replay key ((k, e) ∷ m) = let rest = find_replay key m in if str_eq k key then some e else rest

unfoldable pub put_replay :
    {C : Type 0} → Str → ReplayEntry C → List (Str × ReplayEntry C) → List (Str × ReplayEntry C)
put_replay key v [] = []
put_replay key v ((k, e) ∷ m) =
    let rest = put_replay key v m in if str_eq k key then (k, v) ∷ rest else (k, e) ∷ rest

unfoldable pub is_stale : {C : Type 0} → ℕ → ReplayEntry C → Bool
is_stale now e = not (e.expires == 0) && leb e.expires now

unfoldable pub sweep : {C : Type 0} → ℕ → List (Str × ReplayEntry C) → List (Str × ReplayEntry C)
sweep now [] = []
sweep now ((k, e) ∷ m) = let rest = sweep now m in if is_stale now e then rest else (k, e) ∷ rest

abbrev pub fresh_entry : {C : Type 0} → Str → ReplayEntry C
fresh_entry fingerprint = record {
  fingerprint = fingerprint;
  done = false;
  expires = 0;
  revision = 0;
  body = [];
  code = none;
}

-- `invokeReplay` from the lock to the wait or the handler.
unfoldable pub begin_replay : {C : Type 0} → ℕ → ReplayStore C → Str → Str → ReplayStore C × Begun C
begin_replay now s key fingerprint =
    let kept = sweep now s.entries in
    elim (find_replay key kept) [
      | some e ↦
          if not (str_eq e.fingerprint fingerprint)
          then (record s { entries = kept }, conflict)
          else (record s { entries = kept }, waits e)
      | none ↦
          if leb s.capacity (length kept)
          then (record s { entries = kept }, full)
          else (record s { entries = (key, fresh_entry fingerprint) ∷ kept }, started)
    ]

-- The code and body of the entry after the handler; `unavailable` is the code of that name.
abbrev pub stored_code : {C : Type 0} → C → Outcome C → Option C
stored_code unavailable out = elim out.failure [
  | some (some code) ↦ some code
  | some none ↦ some unavailable
  | none ↦ elim out.encoded [
    | none ↦ some unavailable
    | some body ↦ if leb (length body) replay_reservation then none else some unavailable
  ]
]

abbrev pub stored_body : {C : Type 0} → Outcome C → Bytes
stored_body out = elim out.failure [
  | some _ ↦ []
  | none ↦ elim out.encoded [
    | none ↦ []
    | some body ↦ if leb (length body) replay_reservation then body else []
  ]
]

-- `invokeReplay` from the handler's return on, through the entry's pointer.
unfoldable pub finish_replay :
    {C : Type 0} → C → ℕ → ReplayStore C → Str → Outcome C → ReplayStore C
finish_replay unavailable now s key out = elim (find_replay key s.entries) [
  | none ↦ s
  | some e ↦ record s {
    entries =
        put_replay key
          (record e {
            revision = out.revision;
            code = stored_code unavailable out;
            body = stored_body out;
            expires = now + s.ttl;
            done = true;
          })
          s.entries;
  }
]

-- The deferred function, for a handler that panics.
unfoldable pub abandon_replay : {C : Type 0} → C → ℕ → ReplayStore C → Str → ReplayStore C
abandon_replay unavailable now s key = elim (find_replay key s.entries) [
  | none ↦ s
  | some e ↦ record s {
    entries =
        put_replay key (record e { code = some unavailable; expires = now + s.ttl; done = true })
          s.entries;
  }
]

-- After the wait: an error with the code, or the revision and the body.
unfoldable pub replayed : {C : Type 0} → ReplayEntry C → Result C (ℕ × Bytes)
replayed e = elim e.code [ some code ↦ err code | none ↦ ok (e.revision, e.body) ]
