-- ===== src/Api/Fits.antt =====
-- The rows that a validated payload gives, against the columns of the models.
use security_tool.Prelude.{
  ℕ, Bool, true, false, ◌&&◌, ◌≤◌, Option, none, some, Text, codes, ◌==◌, text_eq, nat_eq, text_beq,
  leb_iff, length, contains_mem, find, All, Memᴰ, All_at, ◌≡◌, refl, arith,
}
use security_tool.Targets.{Target, create_target}
use security_tool.Schema.{ColumnType, string, MappedColumn, Model}
use security_tool.Schema.CustomerModels.{target_model, scope_rule_model}
use security_tool.Api.{
  TargetCreate, ScopeRuleCreate, ScopeRuleRow, Tables, has_length, kinds, effects, rule_row,
  valid_target, valid_scope_rule,
}

abbrev FitsType : ColumnType → Text → Type 0
FitsType (string n) s = length s ≤ n
FitsType _ s = ⊥

abbrev FitsColumn : Option MappedColumn → Text → Type 0
FitsColumn none s = ⊥
FitsColumn (some c) s = FitsType c.column_type s

-- The text is no longer than the column of the model.
abbrev pub Fits : Model → Text → Text → Type 0
Fits m name s = FitsColumn (find (λ (c : MappedColumn). c.name == name) m.columns) s

abbrev pub IsTargetRow : Target → Type 0
IsTargetRow t =
    Fits target_model (codes "root_domain") t.root_domain
    × Fits target_model (codes "display_name") t.display_name

-- A rule of a known kind and effect that fits its columns, the label aside.
abbrev pub IsRuleRow : ScopeRuleRow → Type 0
IsRuleRow r =
    Memᴰ r.kind kinds
    × Memᴰ r.effect effects
    × Fits scope_rule_model (codes "kind") r.kind
    × Fits scope_rule_model (codes "effect") r.effect
    × Fits scope_rule_model (codes "pattern") r.pattern
    × (1 ≤ length r.pattern)

abbrev pub IsStored : Tables → Type 0
IsStored db = All IsTargetRow db.targets × All IsRuleRow db.scope_rules

and_true : {a b : Bool} → (a && b) ≡ true → (a ≡ true) × (b ≡ true)
and_true {a = true} {b = true} h = (refl, refl)
and_true {a = true} {b = false} h = cc
and_true {a = false} h = cc

has_length_bounds : (n : ℕ) (s : Text) → has_length n s ≡ true → (1 ≤ length s) × (length s ≤ n)
has_length_bounds n s h =
    let (a, b) = and_true h in ((leb_iff 1 (length s)).0 a, (leb_iff (length s) n).0 b)

pub valid_target-IsTargetRow :
    (id org : ℕ) (p : TargetCreate)
    → valid_target p ≡ true
    → IsTargetRow (create_target id org p.root_domain p.display_name p.is_production)
unfolding valid_target create_target target_model find text_beq
valid_target-IsTargetRow id org p h =
    let (a, b) = and_true h in
    ((has_length_bounds 255 p.root_domain a).1, (has_length_bounds 200 p.display_name b).1)

short_kind : (s : Text) → Memᴰ s kinds → Fits scope_rule_model (codes "kind") s
unfolding scope_rule_model find text_beq
short_kind s m =
    All_at (λ (x : Text). length x ≤ 20) kinds
      (omega arith, (omega arith, (omega arith, (omega arith, tt)))) m

short_effect : (s : Text) → Memᴰ s effects → Fits scope_rule_model (codes "effect") s
unfolding scope_rule_model find text_beq
short_effect s m = All_at (λ (x : Text). length x ≤ 10) effects (omega arith, (omega arith, tt)) m

short_pattern : (s : Text) → length s ≤ 500 → Fits scope_rule_model (codes "pattern") s
unfolding scope_rule_model find text_beq
short_pattern s h = h

pub valid_scope_rule-IsRuleRow :
    (id : ℕ) (p : ScopeRuleCreate) → valid_scope_rule p ≡ true → IsRuleRow (rule_row id p)
unfolding valid_scope_rule
valid_scope_rule-IsRuleRow id p h =
    let (a, rest) = and_true h in
    let (b, c) = and_true rest in
    let kind = contains_mem p.kind kinds a in
    let effect = contains_mem p.effect effects c in
    let (some_char, short) = has_length_bounds 500 p.pattern b in
    (
      kind,
      effect,
      short_kind p.kind kind,
      short_effect p.effect effect,
      short_pattern p.pattern short,
      some_char,
    )
