-- ===== src/Policy/Compile/Groups.antt =====
-- The order and the membership of effective groups.
use go_lab_tacacs_mcp.Common.{
  Bool-cases, List, Option-cases, [], arith, false, inl, inr, length, none, not, refl, some, true,
  ◌&&◌, ◌++◌, ◌==◌, ◌||◌, ◌↔◌, ◌∷◌, ◌≡◌, ◌≢◌, ◌⊎◌,
}
use go_lab_tacacs_mcp.Common.Text.{Str, str_eq, str_eq_iff, str_eq→eq}
use go_lab_tacacs_mcp.Policy.Compile.{
  CompiledClient, CompiledGroup, CompiledUser, Engine, client_defaults, collect_ids,
  effective_groups, enabled_groups, group_ids_of, group_less, seen_in, sort_stable,
}
use go_lab_tacacs_mcp.Policy.Compile.Sorted.{
  Ascending-InOrder, InOrder, group_less_asym, sort_stable-Ascending, sort_stable-perm,
}
use mathlib.Core.List.{Perm}

seen_in-append :
    (id : Str) (ids more : List Str)
    → seen_in id (ids ++ more) ≡ (seen_in id ids || seen_in id more)
unfolding seen_in
seen_in-append id [] more = refl
seen_in-append id (j ∷ ids) more = ground (arith, seen_in-append id ids more)

-- No id twice, and none empty.
abbrev pub IsDistinct : List Str → Type 0
IsDistinct [] = Unit
IsDistinct (id ∷ ids) = (seen_in id ids ≡ false) × (id ≢ []) × IsDistinct ids

IsDistinct-append :
    (ids : List Str) (id : Str)
    → IsDistinct ids
    → seen_in id ids ≡ false
    → id ≢ []
    → IsDistinct (ids ++ (id ∷ []))
unfolding seen_in
IsDistinct-append [] id h k n = (refl, n, tt)
IsDistinct-append (j ∷ ids) id (s, nj, d) k n = (
  ground (arith, seen_in-append j ids (id ∷ []), str_eq_iff j id, str_eq_iff id j),
  nj,
  IsDistinct-append ids id d (ground arith) n,
)

nonempty_of : (s : Str) → (length s == 0) ≡ false → s ≢ []
nonempty_of [] h = cc
nonempty_of (c ∷ s) h = λ e. cc

empty_of : (s : Str) → s ≢ [] → (length s == 0) ≡ false
empty_of [] h = absurd (h refl)
empty_of (c ∷ s) h = ground arith

collect_ids_lem :
    (ids more : List Str) (id : Str)
    → IsDistinct ids
    → IsDistinct (collect_ids ids more)
      × (seen_in id (collect_ids ids more)
          ≡ (seen_in id ids || (not (length id == 0) && seen_in id more)))
unfolding collect_ids
collect_ids_lem ids [] id h = (h, unfold seen_in in ground arith)
collect_ids_lem ids (j ∷ more) id h = elim (Bool-cases (length j == 0 || seen_in j ids)) [
  | inl skip ↦
      let (d, s) = collect_ids_lem ids more id h in
      rw skip (d, rw s (unfold seen_in in ground (arith, skip, str_eq_iff j id)))
  | inr new ↦
      let unseen : seen_in j ids ≡ false = ground (arith, new) in
      let (d, s) =
        collect_ids_lem (ids ++ (j ∷ [])) more id
          (IsDistinct-append ids j h unseen (nonempty_of j (ground (arith, new)))) in
      rw new (
        d,
        rw s (
            unfold seen_in in ground (arith, new, str_eq_iff j id, seen_in-append id ids (j ∷ []))),
      )
]

-- The collected ids are distinct and not empty, and are those of the user and the enabled client's
-- defaults.
pub group_ids_of_lem :
    {R : Type 0} (e : Engine R) (u : CompiledUser R) (client_id id : Str)
    → IsDistinct (group_ids_of e u client_id)
      × (seen_in id (group_ids_of e u client_id) ≡ (
          not (length id == 0)
          && (seen_in id u.group_ids || seen_in id (client_defaults e client_id))))
unfolding group_ids_of
group_ids_of_lem e u client_id id =
    let (d, s) = collect_ids_lem [] u.group_ids id tt in
    let (d', s') =
      collect_ids_lem (collect_ids [] u.group_ids) (client_defaults e client_id) id d in
    (d', unfold seen_in in ground (arith, s, s'))

-- The id is one of these.
abbrev pub Occurs : Str → List Str → Type 0
Occurs id [] = ⊥
Occurs id (j ∷ ids) = (j ≡ id) ⊎ Occurs id ids

-- No id twice, and none empty.
abbrev pub IsIdSet : List Str → Type 0
IsIdSet [] = Unit
IsIdSet (id ∷ ids) = (¬ Occurs id ids) × (id ≢ []) × IsIdSet ids

seen_in→Occurs : (id : Str) (ids : List Str) → seen_in id ids ≡ true → Occurs id ids
unfolding seen_in
seen_in→Occurs id [] h = absurd (cc h)
seen_in→Occurs id (j ∷ ids) h = elim (Bool-cases (str_eq j id)) [
  | inl t ↦ inl (str_eq→eq j id t)
  | inr t ↦ inr (seen_in→Occurs id ids (ground arith))
]

Occurs→seen_in : (id : Str) (ids : List Str) → Occurs id ids → seen_in id ids ≡ true
unfolding seen_in
Occurs→seen_in id [] h = absurd h
Occurs→seen_in id (j ∷ ids) (inl e) = ground (arith, (str_eq_iff j id).1 e)
Occurs→seen_in id (j ∷ ids) (inr h) = ground (arith, Occurs→seen_in id ids h)

IsDistinct→IsIdSet : (ids : List Str) → IsDistinct ids → IsIdSet ids
IsDistinct→IsIdSet [] h = tt
IsDistinct→IsIdSet (id ∷ ids) (s, n, d) =
    (λ o. cc (s, Occurs→seen_in id ids o), n, IsDistinct→IsIdSet ids d)

module _ {R : Type 0} (e : Engine R) where
  -- The id stands in the user's groups, or in the default groups of the client, which is enabled.
  abbrev pub IsAsked : CompiledUser R → Str → Str → Type 0
  IsAsked u client_id id =
      Occurs id u.group_ids
      ⊎ ((c : CompiledClient) × (e.clients client_id ≡ some c)
          × (c.enabled ≡ true)
          × Occurs id c.default_group_ids)

  -- The groups of ids: those that exist and are enabled, one for each id.
  pub data Selects : List Str → List (CompiledGroup R) → Type 0 where
    done : Selects [] []
    takes :
        {id : Str} {g : CompiledGroup R} {ids : List Str} {gs : List (CompiledGroup R)}
        → e.groups id ≡ some g
        → g.enabled ≡ true
        → Selects ids gs
        → Selects (id ∷ ids) (g ∷ gs)
    misses :
        {id : Str} {ids : List Str} {gs : List (CompiledGroup R)}
        → e.groups id ≡ none
        → Selects ids gs
        → Selects (id ∷ ids) gs
    skips :
        {id : Str} {g : CompiledGroup R} {ids : List Str} {gs : List (CompiledGroup R)}
        → e.groups id ≡ some g
        → g.enabled ≡ false
        → Selects ids gs
        → Selects (id ∷ ids) gs

  enabled_groups-Selects : (ids : List Str) → Selects ids (enabled_groups e ids)
  unfolding enabled_groups
  enabled_groups-Selects [] = done
  enabled_groups-Selects (id ∷ ids) =
      let rest = enabled_groups-Selects ids in
      elim (Option-cases (e.groups id)) [
        | inl n ↦ rw (n, enabled_groups) (misses n rest)
        | inr (g, k) ↦ elim (Bool-cases g.enabled) [
          | inl t ↦
              let same : enabled_groups e (id ∷ ids) ≡ (g ∷ enabled_groups e ids) =
                ground (arith, k, t) in
              rw same (takes k t rest)
          | inr t ↦ rw (k, t, enabled_groups) (skips k t rest)
        ]
      ]

  asked_of :
      (client_id id : Str)
      → seen_in id (client_defaults e client_id) ≡ true
      → (c : CompiledClient) × (e.clients client_id ≡ some c)
        × (c.enabled ≡ true)
        × Occurs id c.default_group_ids
  unfolding client_defaults seen_in
  asked_of client_id id h = elim (Option-cases (e.clients client_id)) [
    | inl n ↦ absurd (ground (arith, n, h))
    | inr (c, k) ↦ elim (Bool-cases c.enabled) [
      | inl t ↦ (c, k, t, seen_in→Occurs id c.default_group_ids (ground (arith, k, t, h)))
      | inr t ↦ absurd (ground (arith, k, t, h))
    ]
  ]

  group_ids-Asked :
      (u : CompiledUser R) (client_id id : Str)
      → Occurs id (group_ids_of e u client_id)
      → (id ≢ []) × IsAsked u client_id id
  group_ids-Asked u client_id id o =
      let same = (group_ids_of_lem e u client_id id).1 in
      let seen = Occurs→seen_in id (group_ids_of e u client_id) o in
      let filled : (length id == 0) ≡ false = ground arith in
      (
        nonempty_of id filled,
        elim (Bool-cases (seen_in id u.group_ids)) [
          | inl t ↦ inl (seen_in→Occurs id u.group_ids t)
          | inr t ↦ inr (asked_of client_id id (ground arith))
        ],
      )

  Asked-seen_in :
      (u : CompiledUser R) (client_id id : Str)
      → IsAsked u client_id id
      → (seen_in id u.group_ids || seen_in id (client_defaults e client_id)) ≡ true
  unfolding client_defaults
  Asked-seen_in u client_id id (inl o) = ground (arith, Occurs→seen_in id u.group_ids o)
  Asked-seen_in u client_id id (inr (c, k, t, o)) =
      rw (k, client_defaults, t) (ground (arith, Occurs→seen_in id c.default_group_ids o))

  Asked-group_ids :
      (u : CompiledUser R) (client_id id : Str)
      → id ≢ []
      → IsAsked u client_id id
      → Occurs id (group_ids_of e u client_id)
  Asked-group_ids u client_id id n a =
      let same = (group_ids_of_lem e u client_id id).1 in
      let filled : (length id == 0) ≡ false = empty_of id n in
      let either : (seen_in id u.group_ids || seen_in id (client_defaults e client_id)) ≡ true =
        Asked-seen_in u client_id id a in
      seen_in→Occurs id (group_ids_of e u client_id) (ground (arith, same, filled, either))

  -- The ids of a request are those that are not empty of the user's groups and of the enabled
  -- client's default groups, each once; the groups that are walked are, in the order of priority and
  -- then id, the ones of these ids that exist and are enabled, one for each.
  pub effective_groups_order :
      (u : CompiledUser R) (client_id : Str)
      → (ids : List Str) × (gs : List (CompiledGroup R)) × IsIdSet ids
        × ((id : Str) → Occurs id ids ↔ ((id ≢ []) × IsAsked u client_id id))
        × Selects ids gs
        × Perm (effective_groups e u client_id) gs
        × InOrder (effective_groups e u client_id)
  unfolding effective_groups
  effective_groups_order u client_id =
      let ids = group_ids_of e u client_id in
      let gs = enabled_groups e ids in
      (
        ids,
        gs,
        IsDistinct→IsIdSet ids (group_ids_of_lem e u client_id []).0,
        λ id. (group_ids-Asked u client_id id, λ a. Asked-group_ids u client_id id a.0 a.1),
        enabled_groups-Selects ids,
        sort_stable-perm group_less gs,
        Ascending-InOrder (sort_stable group_less gs)
            (sort_stable-Ascending group_less group_less_asym gs),
      )
