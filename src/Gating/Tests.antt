-- ===== src/Gating/Tests.antt =====
-- The theorems about ApplyEnableIf at a concrete input.
use voodoo.Prelude.{◌≡◌, refl, List, [], ◌∷◌, false}
use voodoo.Prelude.Text.{Bytes, codes}
use voodoo.Ast.{k_none, k_any, EnableIfClause, EnableIf, EnumValue, EnumDecl, Module}
use voodoo.Gating.{is_decl_enabled, apply_enable_if}
use voodoo.Gating.Gated.{ModuleGated, apply_enable_if-Gated}
use voodoo.Gating.Stable.{apply_enable_if_fix}

abbrev no_clause : EnableIfClause
no_clause = record { mode = k_none; flags = [] }

abbrev no_gate : EnableIf
no_gate = record { enable_if = no_clause; enable_if_not = no_clause }

-- `[EnableIf=win|mac]`
abbrev win_or_mac : EnableIf
win_or_mac = record {
  enable_if = record { mode = k_any; flags = codes "win" ∷ codes "mac" ∷ [] };
  enable_if_not = no_clause;
}

-- `[EnableIfNot=win]`
abbrev not_win : EnableIf
not_win = record {
  enable_if = no_clause;
  enable_if_not = record { mode = k_any; flags = codes "win" ∷ [] };
}

abbrev value_of : Bytes → EnableIf → EnumValue
value_of name gate = record {
  name = name;
  value = 0;
  min_version = 0;
  is_default = false;
  enable_if = gate;
}

abbrev enum_of : List EnumValue → EnumDecl
enum_of values = record {
  name = codes "E";
  values = values;
  is_extensible = false;
  is_native = false;
  enable_if = no_gate;
}

abbrev module_of : List EnumDecl → Module
module_of enums = record {
  name = codes "m";
  imports = [];
  enums = enums;
  structs = [];
  unions = [];
  interfaces = [];
  consts = [];
  features = [];
}

abbrev gated_module : Module
gated_module = module_of (
    enum_of (
      value_of (codes "A") win_or_mac
      ∷ value_of (codes "B") not_win
      ∷ value_of (codes "C") no_gate
      ∷ [])
    ∷ [])

-- With `win` alone, the value B goes.
apply_enable_if_win :
    apply_enable_if (codes "win" ∷ []) gated_module
    ≡ module_of (enum_of (value_of (codes "A") win_or_mac ∷ value_of (codes "C") no_gate ∷ []) ∷ [])
unfolding apply_enable_if is_decl_enabled
apply_enable_if_win = refl

apply_enable_if-Gated_example :
    ModuleGated (codes "win" ∷ []) (apply_enable_if (codes "win" ∷ []) gated_module)
apply_enable_if-Gated_example = apply_enable_if-Gated (codes "win" ∷ []) gated_module

-- With `win` alone and no value that it takes out.
abbrev kept_module : Module
kept_module =
    module_of (enum_of (value_of (codes "A") win_or_mac ∷ value_of (codes "C") no_gate ∷ []) ∷ [])

apply_enable_if_fix_example : apply_enable_if (codes "win" ∷ []) kept_module ≡ kept_module
apply_enable_if_fix_example =
    apply_enable_if_fix (codes "win" ∷ []) kept_module
      ((((tt, tt), ((refl, tt), ((tt, tt), tt))), tt), tt, tt, tt, tt, tt)
