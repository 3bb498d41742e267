-- ===== src/Prelude/Json.antt =====
-- The interface of nlohmann::json as far as the code relies on it: `parse` gives `none` where the
-- library throws, with the text of the exception from `parse_error`.
use Prim.Native.String.{String}
use mathlib.Core.Path.{◌≡◌, refl}
use mathlib.Core.Bool.{Bool, true, false, not}
use mathlib.Core.Option.{Option, none, some}
use celte_system.Prelude.Tests.{is_some}

pub record Json : Type 1 where
  pub Value : Type 0
  pub null : Value
  pub is_null : Value → Bool
  pub of_string : String → Value
  pub dump : Value → String
  pub parse : String → Option Value
  pub parse_error : String → String
  pub is_null-null : is_null null ≡ true
  pub is_null-of_string : (s : String) → is_null (of_string s) ≡ false
  pub parse-dump : (v : Value) → parse (dump v) ≡ some v

module _ ⦃j : Json⦄ where
  abbrev pub Value : Type 0
  Value = j.Value

  abbrev pub null : Value
  null = j.null

  abbrev pub is_null : Value → Bool
  is_null = j.is_null

  abbrev pub of_string : String → Value
  of_string = j.of_string

  abbrev pub dump : Value → String
  dump = j.dump

  abbrev pub parse : String → Option Value
  parse = j.parse

  abbrev pub parse_error : String → String
  parse_error = j.parse_error

  pub parse-dump : (v : Value) → parse (dump v) ≡ some v
  parse-dump = j.parse-dump

-- Documents that are null or a text meet the interface.
unfoldable pub dump_text : Option String → String
dump_text none = String.[]
dump_text (some s) = String.◌∷◌ "t" s

unfoldable pub parse_text : String → Option (Option String)
parse_text String.[] = some none
parse_text (String.◌∷◌ c s) = some (some s)

pub parse_text-dump_text : (v : Option String) → parse_text (dump_text v) ≡ some v
unfolding parse_text dump_text
parse_text-dump_text none = refl
parse_text-dump_text (some s) = refl

instance abbrev pub text_json : Json
text_json = record {
  Value = Option String;
  null = none;
  is_null = λ v. not (is_some v);
  of_string = some;
  dump = dump_text;
  parse = parse_text;
  parse_error = λ s. s;
  is_null-null = refl;
  is_null-of_string = λ s. refl;
  parse-dump = parse_text-dump_text;
}
