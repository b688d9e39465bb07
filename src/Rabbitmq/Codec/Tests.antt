-- ===== src/Rabbitmq/Codec/Tests.antt =====
-- Texts that are cut, and those that are not.
use Prim.Native.String.{len}
use text.Mathlib.TextBridge.{IsPrefix}
use queuey.Common.{◌≤◌, ◌≡◌, refl, String}
use queuey.Rabbitmq.Codec.{last_boundary, truncate_at_boundary}
use queuey.Rabbitmq.Codec.Truncate.{truncate_at_boundary_lem}

cut_inside : truncate_at_boundary "aλb" 2 ≡ "a"
unfolding truncate_at_boundary last_boundary
cut_inside = refl

cut_behind : truncate_at_boundary "aλb" 3 ≡ "aλ"
unfolding truncate_at_boundary last_boundary
cut_behind = refl

truncate_at_boundary_lem_example :
    IsPrefix (truncate_at_boundary "aλb" 2) "aλb"
    × (len (truncate_at_boundary "aλb" 2) ≤ 2)
    × ((p : String) → IsPrefix p "aλb" → len p ≤ 2 → len p ≤ len (truncate_at_boundary "aλb" 2))
truncate_at_boundary_lem_example = truncate_at_boundary_lem "aλb" 2
