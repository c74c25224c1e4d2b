-- ===== src/Policy/Compile.antt =====
-- The compiled engine: internal/policy/compile.go. Regular expressions are a type `R` with a match
-- test, parameters of the model. A Go map is a function of its key. Instants are
-- numbers counted from Go's zero time, which is 0.
pub mod Groups
pub mod Sorted
use go_lab_tacacs_mcp.Common.{
  Bool, List, Option, [], false, if◌then◌else◌, length, none, some, ℕ, ◌++◌, ◌==◌, ◌||◌, ◌∷◌,
}
use go_lab_tacacs_mcp.Common.Int.{int_ltb, ℤ}
use go_lab_tacacs_mcp.Common.Text.{Str, str_eq, str_ltb}
use go_lab_tacacs_mcp.Domain.AvPair.{AvPair}
use go_lab_tacacs_mcp.Policy.Response.{Limits}
use go_lab_tacacs_mcp.Policy.Types.{Decision}

-- Go's `matcher`.
pub record Matcher (R : Type 0) : Type 0 where
  pub exact : Str
  pub pattern : Option R

-- `m.match(s)`
unfoldable pub match : {R : Type 0} → (R → Str → Bool) → Matcher R → Str → Bool
match matches m s = elim m.pattern [ some re ↦ matches re s | none ↦ str_eq m.exact s ]

pub record CompiledService : Type 0 where
  pub id : Str
  pub service : Str
  pub protocol : Option Str
  pub action : Decision
  pub reply : List AvPair

pub record CompiledCommand (R : Type 0) : Type 0 where
  pub id : Str
  pub priority : ℤ
  pub action : Decision
  pub command : Matcher R
  pub args : Matcher R
  pub reason : Str

pub record CompiledRuleSet (R : Type 0) : Type 0 where
  pub services : List CompiledService
  pub commands : List (CompiledCommand R)

pub record CompiledUser (R : Type 0) : Type 0 where
  pub id : Str
  pub enabled : Bool
  pub group_ids : List Str
  pub rules : CompiledRuleSet R
  pub client_ids : List Str
  pub valid_after : Option ℕ
  pub valid_before : Option ℕ

pub record CompiledGroup (R : Type 0) : Type 0 where
  pub id : Str
  pub enabled : Bool
  pub priority : ℤ
  pub rules : CompiledRuleSet R

pub record CompiledClient : Type 0 where
  pub id : Str
  pub enabled : Bool
  pub default_group_ids : List Str

-- Go's `Engine`; `now` is what its clock returns during one evaluation.
pub record Engine (R : Type 0) : Type 0 where
  pub users : Str → Option (CompiledUser R)
  pub groups : Str → Option (CompiledGroup R)
  pub clients : Str → Option CompiledClient
  pub fallback : CompiledRuleSet R
  pub limits : Limits
  pub now : ℕ

-- `sort.SliceStable`: an element goes before the first that is not less than it.
unfoldable pub insert_stable {ℓ} : {A : Type ℓ} → (A → A → Bool) → A → List A → List A
insert_stable less x [] = x ∷ []
insert_stable less x (y ∷ ys) =
    let rest = insert_stable less x ys in if less y x then y ∷ rest else x ∷ y ∷ ys

unfoldable pub sort_stable {ℓ} : {A : Type ℓ} → (A → A → Bool) → List A → List A
unfolding insert_stable
sort_stable less [] = []
sort_stable less (x ∷ xs) = insert_stable less x (sort_stable less xs)

unfoldable pub group_less : {R : Type 0} → CompiledGroup R → CompiledGroup R → Bool
group_less g h =
    if int_ltb g.priority h.priority || int_ltb h.priority g.priority
    then int_ltb g.priority h.priority
    else str_ltb g.id h.id

unfoldable pub command_less : {R : Type 0} → CompiledCommand R → CompiledCommand R → Bool
command_less a b =
    if int_ltb a.priority b.priority || int_ltb b.priority a.priority
    then int_ltb a.priority b.priority
    else str_ltb a.id b.id

-- `_, ok := seen[id]`: the set holds the ids that were collected.
unfoldable pub seen_in : Str → List Str → Bool
seen_in id [] = false
seen_in id (j ∷ ids) = str_eq j id || seen_in id ids

-- One of the two loops that collect group ids.
unfoldable pub collect_ids : List Str → List Str → List Str
unfolding seen_in
collect_ids ids [] = ids
collect_ids ids (id ∷ more) =
    collect_ids (if length id == 0 || seen_in id ids then ids else ids ++ (id ∷ [])) more

-- The groups that exist and are enabled, in the order of their ids.
unfoldable pub enabled_groups : {R : Type 0} → Engine R → List Str → List (CompiledGroup R)
enabled_groups e [] = []
enabled_groups e (id ∷ ids) =
    let rest = enabled_groups e ids in
    elim (e.groups id) [ none ↦ rest | some g ↦ if g.enabled then g ∷ rest else rest ]

unfoldable pub client_defaults : {R : Type 0} → Engine R → Str → List Str
client_defaults e client_id = elim (e.clients client_id) [
  | none ↦ []
  | some c ↦ if c.enabled then c.default_group_ids else []
]

-- `ids`, after both loops.
unfoldable pub group_ids_of : {R : Type 0} → Engine R → CompiledUser R → Str → List Str
unfolding collect_ids client_defaults
group_ids_of e u client_id = collect_ids (collect_ids [] u.group_ids) (client_defaults e client_id)

unfoldable pub effective_groups :
    {R : Type 0} → Engine R → CompiledUser R → Str → List (CompiledGroup R)
unfolding group_ids_of enabled_groups sort_stable group_less
effective_groups e u client_id =
    sort_stable group_less (enabled_groups e (group_ids_of e u client_id))
