-- ===== src/Macros/Attrs/CratePath.antt =====
-- `Lookup` and `choose_crate_path` of crates/macros/src/attrs.rs. A path is its text.
use Prim.Native.String.{◌++◌}
use queuey.Common.{String, Option, none, some}

pub data Lookup : Type 0 where
  itself absent no_manifest : Lookup
  named : String → Lookup

-- The last three rows of the table, for a facade that is not named.
abbrev unnamed : (facade core : Lookup) → Option String
unnamed no_manifest core = some "::queuey_core"
unnamed facade no_manifest = some "::queuey_core"
unnamed facade core = none

abbrev through_facade : (facade core : Lookup) → Option String
through_facade (named name) core = some ("::" ++ (name ++ "::__core"))
through_facade facade core = unnamed facade core

abbrev outside_facade : (facade core : Lookup) → Option String
outside_facade facade itself = some "crate"
outside_facade facade (named name) = some ("::" ++ name)
outside_facade facade core = through_facade facade core

unfoldable pub choose_crate_path : (facade core : Lookup) → Option String
choose_crate_path itself core = some "::queuey::__core"
choose_crate_path facade core = outside_facade facade core
