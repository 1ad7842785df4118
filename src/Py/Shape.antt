-- ===== src/Py/Shape.antt =====
-- The shape of a JSON value: the keys of a dict, and what a validator takes for a whole number or a text.
use Prim.Native.String.{[] as empty_text, ◌∷◌ as char_cons, len as byte_length}
use afk_pipeline.Prelude.{
  ℕ, suc, pos, String, Bool, true, false, ◌&&◌, Option, none, some, List, leb, length, ◌==◌, all,
  str_eq, if◌then◌else◌,
}
use afk_pipeline.Py.Value.{Value, Fields, null, int, str, entries, lookup, field, end}
use afk_pipeline.Py.Read.{has, or_default}
use afk_pipeline.Py.Result.{Result, ok, err, Exc}

-- v[k] = u, for a dict v
abbrev pub set_field : String → Value → Fields → Fields
set_field k v end = field k v end
set_field k v (field j u fs) = if str_eq j k then field k v fs else field j u (set_field k v fs)

-- set(v) == keys, for a dict v and distinct keys
abbrev pub has_keys : List String → Fields → Bool
has_keys keys fs = length (entries fs) == length keys && all (has fs) keys

-- v.get(k), for a dict v
abbrev pub at : Fields → String → Value
at fs k = or_default null (lookup k fs)

-- isinstance(v, int) and not isinstance(v, bool) and v >= 0, as a number
abbrev pub natural : Value → Option ℕ
natural (int (pos n)) = some n
natural _ = none

-- the same, and v >= 1
abbrev pub positive : Value → Option ℕ
positive (int (pos (suc n))) = some (suc n)
positive _ = none

abbrev pub is_some {ℓ} : {A : Type ℓ} → Option A → Bool
is_some none = false
is_some (some a) = true

-- a nonempty text
abbrev pub is_filled : Value → Bool
is_filled (str empty_text) = false
is_filled (str (char_cons c s)) = true
is_filled _ = false

-- isinstance(v, str) and len(v.encode()) <= n
abbrev pub is_within : ℕ → Value → Bool
is_within n (str s) = leb (byte_length s) n
is_within n _ = false

-- `if not test: raise error`
abbrev pub require : Exc → Bool → Result (Unit {0})
require e true = ok tt
require e false = err e
