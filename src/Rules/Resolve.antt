-- ===== src/Rules/Resolve.antt =====
-- On resolve_monitor and resolve_workspace of src/lwm/core/window_rules.cpp: bounds of the
-- indices.
use Prim.Native.String.{String}
use text.Mathlib.Text.{◌==◌ as str_eq}
use lwm.Base.{
  ℕ, suc, ◌+◌, ◌<◌, ◌≡◌, Bool, Bool-cases, Option-cases, sym, inl, inr, Option, none, some, List,
  [], ◌∷◌, length, length-map, arith,
}
use lwm.Base.Int.{ℤ, pos, negsuc}
use lwm.Types.{Monitor}
use lwm.Rules.Config.{CompiledWindowRule}
use lwm.Rules.Match.{
  WindowMatchInfo, index_of_name, resolve_workspace, resolve_monitor, with_overlay, matches_rule,
  result_of, match,
}

index_of_name-lt :
    (names : List String) (name : String) (i j : ℕ)
    → index_of_name names name i ≡ some j
    → j < i + length names
unfolding index_of_name
index_of_name-lt [] name i j h = cc
index_of_name-lt (n ∷ names) name i j h = elim (Bool-cases (str_eq n name)) [
  | inl e ↦ ground (arith, h, e)
  | inr e ↦ let r = index_of_name-lt names name (suc i) j (ground (arith, h, e)) in omega arith
]

-- An index that is there is below the bound.
abbrev pub IsBelow : ℕ → Option ℕ → Type 0
IsBelow n none = Unit
IsBelow n (some i) = i < n

resolve_workspace-IsBelow :
    (index : Option ℤ) (name : Option String) (names : List String)
    → IsBelow (length names) (resolve_workspace index name names)
unfolding resolve_workspace
resolve_workspace-IsBelow (some (pos i)) name names = ground arith
resolve_workspace-IsBelow (some (negsuc i)) name names = tt
resolve_workspace-IsBelow none none names = tt
resolve_workspace-IsBelow none (some name) names =
    elim (Option-cases (index_of_name names name 0)) [
      | inl e ↦ rw e tt
      | inr (j, e) ↦ rw e (let r = index_of_name-lt names name 0 j e in omega arith)
    ]

module _ {Regex : Type 0} (regex_match : String → Regex → Bool) where
  targets :
      (rule : CompiledWindowRule Regex) (monitors : List Monitor) (names : List String)
      → ((result_of regex_match rule monitors names).target_monitor
          ≡ resolve_monitor rule.monitor rule.monitor_name monitors)
        × ((result_of regex_match rule monitors names).target_workspace
            ≡ resolve_workspace rule.workspace rule.workspace_name names)
  unfolding result_of with_overlay
  targets rule monitors names = ground arith

  -- The monitor and the workspace that the rules choose for a window exist: their indices are below
  -- the number of monitors and the number of workspace names.
  pub match-IsBelow :
      (rules : List (CompiledWindowRule Regex)) (info : WindowMatchInfo) (monitors : List Monitor)
      (names : List String)
      → IsBelow (length monitors) (match regex_match rules info monitors names).target_monitor
        × IsBelow (length names) (match regex_match rules info monitors names).target_workspace
  unfolding match resolve_monitor
  match-IsBelow [] info monitors names = (tt, tt)
  match-IsBelow (r ∷ rules) info monitors names =
      let rest = match-IsBelow rules info monitors names in
      let (at_monitor, at_workspace) = targets r monitors names in
      let count = length-map (λ (m : Monitor). m.name) monitors in
      elim (Bool-cases (matches_rule regex_match r info)) [
        | inl e ↦
            rw (e, at_monitor, at_workspace)
              (
                rw (sym count) (resolve_workspace-IsBelow r.monitor r.monitor_name _),
                resolve_workspace-IsBelow r.workspace r.workspace_name names,
              )
        | inr e ↦ rw e rest
      ]
