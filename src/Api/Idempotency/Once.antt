-- ===== src/Api/Idempotency/Once.antt =====
-- How often the handler runs for a key.
use go_lab_tacacs_mcp.Api.Idempotency.{
  Begun, Outcome, ReplayEntry, ReplayStore, abandon_replay, begin_replay, conflict, find_replay,
  finish_replay, fresh_entry, is_stale, put_replay, started, sweep, waits,
}
use go_lab_tacacs_mcp.Common.{
  All, Bool-cases, List, Option-cases, [], ap, arith, false, inl, inr, leb, length, none, refl,
  some, sym, ℕ, ◌+◌, ◌<◌, ◌∙◌, ◌∷◌, ◌≡◌, ◌≢◌, ◌≤◌, ◌⊎◌,
}
use go_lab_tacacs_mcp.Common.Text.{Str, str_eq, str_eq_iff, str_eq→eq}

-- A step of one of the calls, in the order in which they hold the lock.
pub data ReplayStep (C : Type 0) : Type 0 where
  begins : ℕ → Str → Str → ReplayStep C
  finishes : ℕ → Str → Outcome C → ReplayStep C
  abandons : ℕ → Str → ReplayStep C

-- The entry is not done, or lives until `until`.
record Lives {C : Type 0} (until : ℕ) (fingerprint : Str) (e : ReplayEntry C) : Type 0 where
  pub same : e.fingerprint ≡ fingerprint
  pub alive : (e.expires ≡ 0) ⊎ (until ≤ e.expires)

module _ {C : Type 0} where
  stale_of_Lives :
      (now until : ℕ) (fingerprint : Str) (e : ReplayEntry C)
      → Lives until fingerprint e
      → now < until
      → is_stale now e ≡ false
  unfolding is_stale
  stale_of_Lives now until fingerprint e v h = ground (arith, v.alive, h)

  find-sweep :
      (now : ℕ) (key : Str) (e : ReplayEntry C) (m : List (Str × ReplayEntry C))
      → find_replay key m ≡ some e
      → is_stale now e ≡ false
      → find_replay key (sweep now m) ≡ some e
  unfolding find_replay sweep
  find-sweep now key e [] h s = cc
  find-sweep now key e ((k, d) ∷ m) h s = ground (arith, h, s, find-sweep now key e m)

  find-put_replay_self :
      (key : Str) (e v : ReplayEntry C) (m : List (Str × ReplayEntry C))
      → find_replay key m ≡ some e
      → find_replay key (put_replay key v m) ≡ some v
  unfolding find_replay put_replay
  find-put_replay_self key e v [] h = cc
  find-put_replay_self key e v ((k, d) ∷ m) h = ground (arith, h, find-put_replay_self key e v m)

  find-put_replay_ne :
      (key other : Str) (v : ReplayEntry C) (m : List (Str × ReplayEntry C))
      → key ≢ other
      → find_replay key (put_replay other v m) ≡ find_replay key m
  unfolding find_replay put_replay
  find-put_replay_ne key other v [] h = refl
  find-put_replay_ne key other v ((k, d) ∷ m) h =
      ground (arith, str_eq_iff k key, str_eq_iff k other, h, find-put_replay_ne key other v m h)

  find-put_replay_at :
      (key other : Str) (e v : ReplayEntry C) (m : List (Str × ReplayEntry C))
      → other ≡ key
      → find_replay key m ≡ some e
      → find_replay key (put_replay other v m) ≡ some v
  find-put_replay_at key other e v m k f = rw k (find-put_replay_self key e v m f)

  begin-ttl :
      (now : ℕ) (s : ReplayStore C) (key request : Str)
      → (begin_replay now s key request).0.ttl ≡ s.ttl
  unfolding begin_replay
  begin-ttl now s key request = ground arith

  -- The key has an entry that lives.
  abbrev Held : ℕ → Str → Str → List (Str × ReplayEntry C) → Type 0
  Held until key fingerprint m =
      (e : ReplayEntry C) × (find_replay key m ≡ some e) × Lives until fingerprint e

  apart_of :
      (other key : Str) (m : List (Str × ReplayEntry C)) (e : ReplayEntry C)
      → find_replay other m ≡ none
      → find_replay key m ≡ some e
      → str_eq other key ≡ false
  apart_of other key m e n f = elim (Bool-cases (str_eq other key)) [
    | inr t ↦ t
    | inl t ↦ let same = ap (λ k. find_replay k m) (str_eq→eq other key t) in cc (sym n, same, f)
  ]

  find-cons :
      (other key : Str) (e : ReplayEntry C) (request : Str) (m : List (Str × ReplayEntry C))
      → str_eq other key ≡ false
      → find_replay key m ≡ some e
      → find_replay key ((other, fresh_entry request) ∷ m) ≡ some e
  unfolding find_replay
  find-cons other key e request m a f = rw a f

  begin-Held :
      (now until : ℕ) (s : ReplayStore C) (key fingerprint other request : Str)
      → now < until
      → Held until key fingerprint s.entries
      → Held until key fingerprint (begin_replay now s other request).0.entries
  unfolding begin_replay
  begin-Held now until s key fingerprint other request h (e, f, v) =
      let kept = find-sweep now key e s.entries f (stale_of_Lives now until fingerprint e v h) in
      elim (Option-cases (find_replay other (sweep now s.entries))) [
        | inr (d, c) ↦ (e, rw (c, begin_replay) (ground (arith, kept)), v)
        | inl c ↦
            let apart : str_eq other key ≡ false =
              apart_of other key (sweep now s.entries) e c kept in
            (
              e,
              rw (c, begin_replay)
                  (ground (arith, kept, find-cons other key e request _ apart kept)),
              v,
            )
      ]

  -- A rewritten entry of the same request that expires late enough.
  put-Held :
      (until : ℕ) (s : ReplayStore C) (key fingerprint other : Str) (d v : ReplayEntry C)
      → find_replay other s.entries ≡ some d
      → v.fingerprint ≡ d.fingerprint
      → (other ≡ key → until ≤ v.expires)
      → Held until key fingerprint s.entries
      → Held until key fingerprint (put_replay other v s.entries)
  put-Held until s key fingerprint other d v o same late (e, f, l) =
      elim (Bool-cases (str_eq other key)) [
        | inl t ↦
            let k : other ≡ key = str_eq→eq other key t in
            let both : some d ≡ some e = sym o ∙ (ap (λ x. find_replay x s.entries) k ∙ f) in
            let one : d ≡ e = cc in
            (
              v,
              find-put_replay_at key other e v s.entries k f,
              record { same = same ∙ (ap (λ x. x.fingerprint) one ∙ l.same); alive = inr (late k) },
            )
        | inr t ↦
            let ne : key ≢ other = λ k. cc (sym t, (str_eq_iff other key).1 (sym k)) in
            (e, find-put_replay_ne key other v s.entries ne ∙ f, l)
      ]

  -- Until then the handler is not to run for the key again: a beginning reads an earlier clock, and an
  -- end of the key's call sets an expiry that is not earlier.
  abbrev pub IsEarly : ℕ → ℕ → Str → ReplayStep C → Type 0
  IsEarly until ttl key (begins now k request) = now < until
  IsEarly until ttl key (finishes now k out) = k ≡ key → until ≤ now + ttl
  IsEarly until ttl key (abandons now k) = k ≡ key → until ≤ now + ttl

  started-Held :
      (now until : ℕ) (s : ReplayStore C) (key fingerprint : Str)
      → (begin_replay now s key fingerprint).1 ≡ started
      → Held until key fingerprint (begin_replay now s key fingerprint).0.entries
  unfolding begin_replay find_replay
  started-Held now until s key fingerprint h =
      let same = (str_eq_iff key key).1 refl in
      elim (Option-cases (find_replay key (sweep now s.entries))) [
        | inr (d, c) ↦ ground (arith, h, c)
        | inl c ↦ elim (Bool-cases (leb s.capacity (length (sweep now s.entries)))) [
          | inl t ↦ ground (arith, h, c, t)
          | inr t ↦ (
            fresh_entry fingerprint,
            rw (c, t, begin_replay, same) refl,
            record { same = refl; alive = inl refl },
          )
        ]
      ]

  -- What a later call of the key is told: it is the same request and waits, or it is a conflict.
  abbrev pub IsReplay : Str → Str → Begun C → Type 0
  IsReplay fingerprint request b =
      ((b ≡ conflict) × (request ≢ fingerprint))
      ⊎ ((e : ReplayEntry C) × (b ≡ waits e) × (request ≡ fingerprint))

  Held-IsReplay :
      (now until : ℕ) (s : ReplayStore C) (key fingerprint request : Str)
      → now < until
      → Held until key fingerprint s.entries
      → IsReplay fingerprint request (begin_replay now s key request).1
  unfolding begin_replay
  Held-IsReplay now until s key fingerprint request h (e, f, v) =
      let kept = find-sweep now key e s.entries f (stale_of_Lives now until fingerprint e v h) in
      elim (Bool-cases (str_eq e.fingerprint request)) [
        | inl t ↦
            inr
              (e, rw (begin_replay, kept, t) refl, sym (str_eq→eq e.fingerprint request t) ∙ v.same)
        | inr t ↦ inl (
          rw (begin_replay, kept, t) refl,
          λ k. cc (sym t, (str_eq_iff e.fingerprint request).1 (v.same ∙ sym k)),
        )
      ]

  module _ (unavailable : C) where
    unfoldable pub take_step : ReplayStore C → ReplayStep C → ReplayStore C
    take_step s (begins now k request) = (begin_replay now s k request).0
    take_step s (finishes now k out) = finish_replay unavailable now s k out
    take_step s (abandons now k) = abandon_replay unavailable now s k

    unfoldable pub take_steps : ReplayStore C → List (ReplayStep C) → ReplayStore C
    take_steps s [] = s
    take_steps s (t ∷ ts) = take_steps (take_step s t) ts

    step-Held :
        (until : ℕ) (s : ReplayStore C) (key fingerprint : Str) (t : ReplayStep C)
        → IsEarly until s.ttl key t
        → Held until key fingerprint s.entries
        → Held until key fingerprint (take_step s t).entries × ((take_step s t).ttl ≡ s.ttl)
    unfolding take_step finish_replay find_replay abandon_replay
    step-Held until s key fingerprint (begins now k request) early v =
        (begin-Held now until s key fingerprint k request early v, begin-ttl now s k request)
    step-Held until s key fingerprint (finishes now k out) early v =
        elim (Option-cases (find_replay k s.entries)) [
          | inl n ↦ rw (n, take_step, finish_replay) (v, refl)
          | inr (d, n) ↦
              rw (n, take_step, finish_replay)
                (put-Held until s key fingerprint k d _ n refl early v, refl)
        ]
    step-Held until s key fingerprint (abandons now k) early v =
        elim (Option-cases (find_replay k s.entries)) [
          | inl n ↦ rw (n, take_step, abandon_replay) (v, refl)
          | inr (d, n) ↦
              rw (n, take_step, abandon_replay)
                (put-Held until s key fingerprint k d _ n refl early v, refl)
        ]

    steps-Held :
        (until ttl : ℕ) (s : ReplayStore C) (key fingerprint : Str) (ts : List (ReplayStep C))
        → s.ttl ≡ ttl
        → All (IsEarly until ttl key) ts
        → Held until key fingerprint s.entries
        → Held until key fingerprint (take_steps s ts).entries
    unfolding take_steps
    steps-Held until ttl s key fingerprint [] e _ v = v
    steps-Held until ttl s key fingerprint (t ∷ ts) e (early, rest) v =
        let now_early : IsEarly until s.ttl key t = rw e early in
        let next = step-Held until s key fingerprint t now_early v in
        steps-Held until ttl (take_step s t) key fingerprint ts (next.1 ∙ e) rest next.0

    -- Where a call of the key runs the handler, no later call of the key runs it again until a time
    -- that no end of the key's call sets the expiry before: with another request it is a conflict, with
    -- the same one it waits for the entry. Between them other calls may begin, finish and panic in any
    -- order, where those that begin read a clock before that time.
    pub handler_once :
        (now until later : ℕ) (s : ReplayStore C) (key fingerprint request : Str)
        (ts : List (ReplayStep C))
        → (begin_replay now s key fingerprint).1 ≡ started
        → All (IsEarly until s.ttl key) ts
        → later < until
        → IsReplay fingerprint request
            (begin_replay later
              (take_steps (begin_replay now s key fingerprint).0 ts)
              key
              request).1
    handler_once now until later s key fingerprint request ts h early l =
        Held-IsReplay later until _ key fingerprint request l (
          steps-Held until s.ttl _ key fingerprint ts (begin-ttl now s key fingerprint) early
            (started-Held now until s key fingerprint h))
