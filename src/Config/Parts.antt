-- ===== src/Config/Parts.antt =====
-- The readers of single settings in src/src/types.ts.
use teamclaw.Prelude.{
  ℕ, String, Bool, false, ◌&&◌, Option, none, some, List, [], ◌∷◌, map, filter, Dict, put,
  str_truthy, str_trim, if◌then◌else◌,
}
use teamclaw.Value.{
  Value, Number, Fields, end, with, boolean, number, object, list_of, natural, at_least,
}
use teamclaw.Contracts.{plain_text}
use teamclaw.Contracts.Fields.{trimmed, string_list, is_role, compact}
use teamclaw.Contracts.Backfill.{unique}

-- typeof raw === "string" && raw.trim() ? raw.trim() : other
unfoldable pub trimmed_or_default : String → Value → String
unfolding trimmed
trimmed_or_default other raw = let s = trimmed raw in if str_truthy s then s else other

-- typeof raw === "number" && raw >= least ? raw : other
unfoldable pub number_from : ℕ → ℕ → Value → Number
number_from least other (number n) = if at_least least n then n else natural other
number_from least other _ = natural other

-- typeof raw === "number" && raw >= least ? Math.floor(raw) : other
unfoldable pub floor_from : ℕ → ℕ → Value → ℕ
floor_from least other (number n) = if at_least least n then n.whole else other
floor_from least other _ = other

-- typeof raw === "boolean" ? raw : other
abbrev pub flag_or : Bool → Value → Bool
flag_or other (boolean b) = b
flag_or other _ = other

-- raw === true
abbrev pub is_true : Value → Bool
is_true (boolean b) = b
is_true _ = false

-- a || b
abbrev pub first_text : String → String → String
first_text a b = if str_truthy a then a else b

-- `parseStringArray`
unfoldable pub string_array : Value → List String
unfolding string_list
string_array raw = unique (string_list raw)

-- `parseRoleList`; its entries are not trimmed.
unfoldable pub role_array : Value → List String
unfolding is_role
role_array raw = unique (filter is_role (compact (map plain_text (list_of raw))))

record_from : Dict String → Fields → Dict String
unfolding trimmed str_trim put
record_from d end = d
record_from d (with k v fs) =
    record_from
      (if str_truthy (str_trim k) && str_truthy (trimmed v)
        then put d (str_trim k) (trimmed v)
        else d)
      fs

-- `parseStringRecord`
unfoldable pub string_record : Value → Dict String
unfolding record_from
string_record (object fs) = record_from [] fs
string_record _ = []

models_from : Dict String → Fields → Dict String
unfolding trimmed is_role put
models_from d end = d
models_from d (with k v fs) =
    models_from (if is_role k && str_truthy (trimmed v) then put d k (trimmed v) else d) fs

abbrev unless_empty : Dict String → Option (Dict String)
unless_empty [] = none
unless_empty (e ∷ d) = some (e ∷ d)

-- `parseRoleModelOverrides`
unfoldable pub role_models : Value → Option (Dict String)
unfolding models_from
role_models (object fs) = unless_empty (models_from [] fs)
role_models _ = none
