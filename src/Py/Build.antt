-- ===== src/Py/Build.antt =====
-- Small JSON values, for the tests.
use afk_pipeline.Prelude.{String, List, [], ◌∷◌}
use afk_pipeline.Py.Value.{Value, Fields, dict, list, end, field, of_items}

abbrev pub obj : List (String × Value) → Fields
obj [] = end
obj ((k, v) ∷ rest) = field k v (obj rest)

abbrev pub object : List (String × Value) → Value
object fields = dict (obj fields)

abbrev pub array : List Value → Value
array vs = list (of_items vs)
