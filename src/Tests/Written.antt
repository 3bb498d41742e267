-- ===== src/Tests/Written.antt =====
-- A list of texts written as one text, for the documents of the tests (nlohmann::json in the source), and
-- the processes that the tests start with (system/include/CRPC.hpp).
use Prim.Native.Char.{code}
use celte_system.Prelude.{
  ℕ, zero, arith, contains, suc, ◌≡◌, refl, String, List, [], ◌∷◌, Bool, true, false, Option, none,
  some, eqb, if◌then◌else◌, ap, ◌∙◌,
}
use celte_system.Prelude.Assoc.{Assoc}
use celte_system.Prelude.HashMap.{assoc_map}
use celte_system.Prelude.Json.{Json}
use celte_system.Rpc.LruSet.Defs.{init}
use celte_system.Rpc.LruSet.Refine.{init-IsValid}
use celte_system.Rpc.Stub.Defs.{Process, Cell, Handler}
use celte_system.Rpc.Stub.Answers.{CanHandle}
use celte_system.Rpc.Typed.{JsonArrays, Codec, get_elem?}

abbrev pub quote : String → String → String
quote String.[] rest = String.◌∷◌ ";" rest
quote (String.◌∷◌ c s) rest = String.◌∷◌ "x" (String.◌∷◌ c (quote s rest))

abbrev pub texts : List String → String
texts [] = String.[]
texts (v ∷ vs) = quote v (texts vs)

-- The first text of an array, and what follows it.
abbrev pub first : String → String
first String.[] = String.[]
first (String.◌∷◌ t String.[]) = String.[]
first (String.◌∷◌ t (String.◌∷◌ c s)) =
    let rest = first s in if eqb (code t) b'x' then String.◌∷◌ c rest else String.[]

abbrev pub others : String → String
others String.[] = String.[]
others (String.◌∷◌ t String.[]) = String.[]
others (String.◌∷◌ t (String.◌∷◌ c s)) =
    let rest = others s in if eqb (code t) b'x' then rest else String.◌∷◌ c s

abbrev pub nth : String → ℕ → Option String
nth String.[] i = none
nth (String.◌∷◌ c s) zero = some (first (String.◌∷◌ c s))
nth (String.◌∷◌ c s) (suc i) = nth (others (String.◌∷◌ c s)) i

pub first-quote : (v rest : String) → first (quote v rest) ≡ v
first-quote String.[] String.[] = refl
first-quote String.[] (String.◌∷◌ c s) = refl
first-quote (String.◌∷◌ c v) rest = ap (String.◌∷◌ c) (first-quote v rest)

pub others-quote : (v rest : String) → others (quote v rest) ≡ rest
others-quote String.[] String.[] = refl
others-quote String.[] (String.◌∷◌ c s) = refl
others-quote (String.◌∷◌ c v) rest = others-quote v rest

pub nth-texts : (vs : List String) (i : ℕ) → nth (texts vs) i ≡ get_elem? vs i
nth-texts [] i = refl
nth-texts (String.[] ∷ vs) zero = ap some (first-quote String.[] (texts vs))
nth-texts (String.◌∷◌ c v ∷ vs) zero = ap some (first-quote (String.◌∷◌ c v) (texts vs))
nth-texts (String.[] ∷ vs) (suc i) =
    ap (λ s. nth s i) (others-quote String.[] (texts vs)) ∙ nth-texts vs i
nth-texts (String.◌∷◌ c v ∷ vs) (suc i) =
    ap (λ s. nth s i) (others-quote (String.◌∷◌ c v) (texts vs)) ∙ nth-texts vs i

abbrev pub is_empty : String → Bool
is_empty String.[] = true
is_empty (String.◌∷◌ c s) = false

abbrev pub rest_of : String → Option String
rest_of String.[] = none
rest_of (String.◌∷◌ c s) = some s

abbrev pub at_rest : String → ℕ → Option String
at_rest String.[] i = none
at_rest (String.◌∷◌ c s) i = nth s i

instance abbrev pub written_json : Json
written_json = record {
  Value = String;
  null = "";
  is_null = is_empty;
  of_string = String.◌∷◌ "t";
  dump = λ v. v;
  parse = some;
  parse_error = λ s. s;
  is_null-null = refl;
  is_null-of_string = λ s. refl;
  parse-dump = λ v. refl;
}

instance abbrev pub written_arrays : JsonArrays
written_arrays = record {
  array = λ vs. String.◌∷◌ "a" (texts vs);
  at = at_rest;
  tuple_error = λ ps v. "invalid tuple";
  at-array = nth-texts;
  at-null = λ i. refl;
}

abbrev pub text_codec : Codec String
text_codec = record { to_json = String.◌∷◌ "t"; get_to = rest_of; get_to-to_json = λ s. refl }

abbrev pub flag : String → Option Bool
flag String.[] = none
flag (String.◌∷◌ c String.[]) = some true
flag (String.◌∷◌ c (String.◌∷◌ d s)) = some false

abbrev pub flag_text : Bool → String
flag_text true = "b"
flag_text false = "bb"

pub flag-flag_text : (b : Bool) → flag (flag_text b) ≡ some b
flag-flag_text true = refl
flag-flag_text false = refl

abbrev pub bool_codec : Codec Bool
bool_codec = record { to_json = flag_text; get_to = flag; get_to-to_json = flag-flag_text }

-- A process that serves one topic and has handled nothing yet.
abbrev pub serving : {S : Type 0} → String → Assoc (Handler S) → S → Process S
serving topic methods user = record {
  methods = (topic, methods) ∷ [];
  running_tasks = init 100;
  promises = [];
  cells = λ n. Cell.pending;
  next_cell = 0;
  user = user;
  outbox = [];
}

pub serving-CanHandle :
    {S : Type 0} (topic : String) (methods : Assoc (Handler S)) (user : S)
    → CanHandle (serving topic methods user) "id1"
unfolding init contains
serving-CanHandle topic methods user = record {
  valid = init-IsValid 100;
  room = omega arith;
  fresh = refl;
}
