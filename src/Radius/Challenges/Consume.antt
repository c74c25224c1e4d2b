-- ===== src/Radius/Challenges/Consume.antt =====
-- What becomes of a State that was consumed, and which endpoint may consume it.
use go_lab_tacacs_mcp.Common.{
  All, List, [], ap, append_assoc, arith, false, length, length-append, none, refl, some,
  suc-==-zero, sym, true, ℕ, ◌++◌, ◌-◌, ◌<◌, ◌==◌, ◌∙◌, ◌∷◌, ◌≡◌, ◌≢◌,
}
use go_lab_tacacs_mcp.Common.Text.{Str, str_eq, str_eq_refl}
use go_lab_tacacs_mcp.Radius.Challenges.{
  ChallengeBind, ChallengeEntry, ChallengeIssue, ChallengeStore, bind_match, challenge_key, consume,
  consume_ok, consume_unknown, count_live, delete_challenge, expire_challenges, expire_store,
  find_challenge, issue, remove_challenge, reset, reset_loop,
}

find-delete_self :
    (key : Str) (entries : List (Str × ChallengeEntry))
    → find_challenge key (delete_challenge key entries) ≡ none
unfolding find_challenge delete_challenge
find-delete_self key [] = refl
find-delete_self key ((k, e) ∷ entries) = ground (arith, find-delete_self key entries)

find-delete_none :
    (key other : Str) (entries : List (Str × ChallengeEntry))
    → find_challenge key entries ≡ none
    → find_challenge key (delete_challenge other entries) ≡ none
unfolding find_challenge delete_challenge
find-delete_none key other [] h = refl
find-delete_none key other ((k, e) ∷ entries) h = ground (arith, find-delete_none key other entries)

find-expire_none :
    (now : ℕ) (key : Str) (entries : List (Str × ChallengeEntry)) (used : ℕ)
    → find_challenge key entries ≡ none
    → find_challenge key (expire_challenges now entries used).0 ≡ none
unfolding find_challenge expire_challenges
find-expire_none now key [] used h = refl
find-expire_none now key ((k, e) ∷ entries) used h = ground (
  arith,
  find-expire_none now key entries used,
  find-expire_none now key entries (used - e.bytes),
)

find-remove_none :
    (s : ChallengeStore) (key other : Str)
    → find_challenge key s.challenges ≡ none
    → find_challenge key (remove_challenge s other).challenges ≡ none
unfolding remove_challenge
find-remove_none s key other h = ground (arith, find-delete_none key other s.challenges h)

find-reset_none :
    (entries : List (Str × ChallengeEntry)) (s : ChallengeStore) (key : Str)
    → find_challenge key s.challenges ≡ none
    → find_challenge key (reset_loop entries s).challenges ≡ none
unfolding reset_loop
find-reset_none [] s key h = h
find-reset_none ((k, e) ∷ entries) s key h =
    find-reset_none entries (remove_challenge s k) key (find-remove_none s key k h)

count-none :
    (now : ℕ) (s : ChallengeStore) (key : Str)
    → find_challenge key s.challenges ≡ none
    → find_challenge key (count_live now s).0.challenges ≡ none
unfolding count_live expire_store
count-none now s key h = find-expire_none now key s.challenges s.used_bytes h

reset-none :
    (s : ChallengeStore) (key : Str)
    → find_challenge key s.challenges ≡ none
    → find_challenge key (reset s).challenges ≡ none
unfolding reset
reset-none s key h = find-reset_none s.challenges s key h

nonempty-ne : (xs : Str) → xs ≢ [] → (length xs == 0) ≡ false
nonempty-ne [] h = absurd (h refl)
nonempty-ne (x ∷ xs) h = suc-==-zero (length xs)

append-ne : (xs ys : Str) → xs ≢ [] → xs ++ ys ≢ []
append-ne [] ys h = absurd (h refl)
append-ne (x ∷ xs) ys h = λ e. cc

longer : (xs ys : Str) → ys ≢ [] → xs ≢ xs ++ ys
longer xs [] h = absurd (h refl)
longer xs (y ∷ ys) h = λ e. omega (arith, ap length e, length-append xs (y ∷ ys))

-- A call of the handlers, in the order in which they take the lock.
pub data StoreCall : Type 0 where
  issues : ℕ → ChallengeIssue → StoreCall
  consumes : ℕ → Str → Str → Str → ChallengeBind → StoreCall
  counts : ℕ → StoreCall
  resets : StoreCall

module _ (sha256 : Str → Str) where
  consume-none :
      (now : ℕ) (s : ChallengeStore) (key endpoint_id state client_id : Str) (bind : ChallengeBind)
      → find_challenge key s.challenges ≡ none
      → find_challenge key (consume sha256 now s endpoint_id state client_id bind).0.challenges
        ≡ none
  unfolding consume
  consume-none now s key endpoint_id state client_id bind h =
      ground (arith, h, find-remove_none s key (challenge_key sha256 endpoint_id state) h)

  issue-none :
      (now : ℕ) (s : ChallengeStore) (key : Str) (i : ChallengeIssue)
      → str_eq key (challenge_key sha256 i.endpoint_id i.state) ≡ false
      → find_challenge key s.challenges ≡ none
      → find_challenge key (issue sha256 now s i).0.challenges ≡ none
  unfolding issue expire_store find_challenge
  issue-none now s key i apart h =
      ground (arith, h, apart, find-expire_none now key s.challenges s.used_bytes h)

  consumed-none :
      (now : ℕ) (s : ChallengeStore) (endpoint_id state client_id : Str) (bind : ChallengeBind)
      (e : ChallengeEntry)
      → (consume sha256 now s endpoint_id state client_id bind).1 ≡ consume_ok e
      → find_challenge
          (challenge_key sha256 endpoint_id state)
          (consume sha256 now s endpoint_id state client_id bind).0.challenges
        ≡ none
  unfolding consume remove_challenge
  consumed-none now s endpoint_id state client_id bind e h =
      ground (arith, h, find-delete_self (challenge_key sha256 endpoint_id state) s.challenges)

  unknown-consume :
      (now : ℕ) (s : ChallengeStore) (endpoint_id state client_id : Str) (bind : ChallengeBind)
      → find_challenge (challenge_key sha256 endpoint_id state) s.challenges ≡ none
      → (consume sha256 now s endpoint_id state client_id bind).1 ≡ consume_unknown
  unfolding consume
  unknown-consume now s endpoint_id state client_id bind h = ground (arith, h)

  unfoldable pub after_calls : ChallengeStore → List StoreCall → ChallengeStore
  after_calls s [] = s
  after_calls s (issues now i ∷ calls) = after_calls (issue sha256 now s i).0 calls
  after_calls s (consumes now ep st client bind ∷ calls) =
      after_calls (consume sha256 now s ep st client bind).0 calls
  after_calls s (counts now ∷ calls) = after_calls (count_live now s).0 calls
  after_calls s (resets ∷ calls) = after_calls (reset s) calls

  -- The call does not issue the key.
  unfoldable pub IsApart : Str → StoreCall → Type 0
  IsApart key (issues now i) = str_eq key (challenge_key sha256 i.endpoint_id i.state) ≡ false
  IsApart key (consumes now ep st client bind) = Unit {0}
  IsApart key (counts now) = Unit {0}
  IsApart key resets = Unit {0}

  after-none :
      (calls : List StoreCall) (s : ChallengeStore) (key : Str)
      → All (IsApart key) calls
      → find_challenge key s.challenges ≡ none
      → find_challenge key (after_calls s calls).challenges ≡ none
  unfolding after_calls IsApart
  after-none [] s key a h = h
  after-none (issues now i ∷ calls) s key (a, rest) h =
      after-none calls (issue sha256 now s i).0 key rest (issue-none now s key i a h)
  after-none (consumes now ep st client bind ∷ calls) s key (a, rest) h =
      after-none calls (consume sha256 now s ep st client bind).0 key rest
        (consume-none now s key ep st client bind h)
  after-none (counts now ∷ calls) s key (a, rest) h =
      after-none calls (count_live now s).0 key rest (count-none now s key h)
  after-none (resets ∷ calls) s key (a, rest) h =
      after-none calls (reset s) key rest (reset-none s key h)

  -- A State is consumed at most once: whatever calls follow a consume that gave its record, as long
  -- as none issues the same key, a later consume of that endpoint and State is unknown, for every
  -- client and binding and at every reading of the clock.
  pub consume_once :
      (now later : ℕ) (s : ChallengeStore) (endpoint_id state client_id client' : Str)
      (bind bind' : ChallengeBind) (e : ChallengeEntry) (calls : List StoreCall)
      → (consume sha256 now s endpoint_id state client_id bind).1 ≡ consume_ok e
      → All (IsApart (challenge_key sha256 endpoint_id state)) calls
      → let s' = after_calls (consume sha256 now s endpoint_id state client_id bind).0 calls in
        (consume sha256 later s' endpoint_id state client' bind').1 ≡ consume_unknown
  consume_once now later s endpoint_id state client_id client' bind bind' e calls h apart =
      let s₁ = (consume sha256 now s endpoint_id state client_id bind).0 in
      unknown-consume later (after_calls s₁ calls) endpoint_id state client' bind' (
        after-none calls s₁ (challenge_key sha256 endpoint_id state) apart
          (consumed-none now s endpoint_id state client_id bind e h))

  -- `Consume` does not compare endpoints, and the key hashes endpoint and State with nothing between
  -- them: a live record of one endpoint is consumed under another that a part of the State makes out
  -- of it, by its client with its binding.
  pub consume_other_endpoint :
      (now : ℕ) (s : ChallengeStore) (endpoint_id part state : Str) (bind : ChallengeBind)
      (e : ChallengeEntry)
      → find_challenge (challenge_key sha256 endpoint_id (part ++ state)) s.challenges ≡ some e
      → e.endpoint_id ≡ endpoint_id
      → endpoint_id ≢ []
      → state ≢ []
      → part ≢ []
      → now < e.expires
      → bind_match e.bind bind ≡ true
      → ((consume sha256 now s (endpoint_id ++ part) state e.client_id bind).1 ≡ consume_ok e)
        × (e.endpoint_id ≢ endpoint_id ++ part)
  unfolding consume challenge_key
  consume_other_endpoint now s endpoint_id part state bind e found same ep st pt live bound = (
    rw
        (
          append_assoc endpoint_id part state,
          nonempty-ne (endpoint_id ++ part) (append-ne endpoint_id part ep),
          nonempty-ne state st,
          found,
        )
        (ground (arith, bound, live, str_eq_refl e.client_id)),
    λ eq. longer endpoint_id part pt (sym same ∙ eq),
  )
