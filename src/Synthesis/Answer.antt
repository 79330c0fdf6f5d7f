-- ===== src/Synthesis/Answer.antt =====
-- `GeminiSynthesizer._parse`: the language model's answer as decisions. What is not of the program is a
-- parameter: `json.loads`, `str.strip`, `float` and `str`.
use Prim.Native.Nat.{◌+◌}
use agora_perp_agent.Prelude.{
  ℕ, zero, suc, String, Bool, true, false, not, Option, none, some, List, [], ◌∷◌, if◌then◌else◌,
  ◌==◌,
}
use agora_perp_agent.Prelude.Errors.{
  Error, Result, ok, err, ◌>>=◌, key_error, attribute_error, type_error, value_error, empty_answer,
  bad_json, missing_decisions,
}
use agora_perp_agent.Prelude.Dict.{Dict, insert}
use agora_perp_agent.Float.Ops.{Float, is_zero}
use agora_perp_agent.Contracts.{
  Decision, Decisions, Intent, enter, hold, cut, flip, skip, other_action, Side, long, short,
}
use agora_perp_agent.Contracts.Json.{
  Scalar, null, boolean, integer, number, words, moment, side, Json, leaf, array, object, Items,
  nil, item, Fields, end, field, get,
}
use agora_perp_agent.Synthesis.Formats.{Formats}
use agora_perp_agent.Synthesis.Rule.{id_of}

-- What the parser uses of Python.
pub record Reader (F : Type 0) : Type 0 where
  -- none where `json.loads` raises
  pub loads : String → Option (Json F)
  pub strip : String → String
  pub float_of : Scalar F → Result F
  pub text_of : Json F → String

abbrev pub intent_of : String → Intent
intent_of t =
    if t == "enter"
    then enter
    else if t == "hold"
    then hold
    else if t == "cut"
    then cut
    else if t == "flip"
    then flip
    else if t == "skip"
    then skip
    else other_action

module _ {F : Type 0} where
  abbrev pub items_of : Items F → List (Json F)
  items_of nil = []
  items_of (item j rest) = j ∷ items_of rest

  abbrev pub keys_of : Fields F → List (Json F)
  keys_of end = []
  keys_of (field k v rest) = leaf (words k) ∷ keys_of rest

  abbrev pub characters : String → List (Json F)
  characters String.[] = []
  characters (String.◌∷◌ c s) = leaf (words (String.◌∷◌ c String.[])) ∷ characters s

  -- `for x in v`: over a list, the keys of a dict or the characters of a text.
  unfoldable pub iterate : Json F → Result (List (Json F))
  iterate (array items) = ok (items_of items)
  iterate (object fields) = ok (keys_of fields)
  iterate (leaf (words t)) = ok (characters t)
  iterate (leaf _) = err type_error

  -- `v.get`, which a dict alone has
  abbrev pub as_object : Json F → Result (Fields F)
  as_object (object fields) = ok fields
  as_object (array items) = err attribute_error
  as_object (leaf s) = err attribute_error

  -- `v in ("long", "short")`
  abbrev pub side_of_text : Option (Json F) → Option Side
  side_of_text (some (leaf (words t))) =
      if t == "long" then some long else if t == "short" then some short else none
  side_of_text (some (leaf _)) = none
  side_of_text (some (array items)) = none
  side_of_text (some (object fields)) = none
  side_of_text none = none

  -- `d[k]`
  abbrev pub required : String → Fields F → Result (Json F)
  required k fields = elim (get k fields) [ none ↦ err key_error | some v ↦ ok v ]

  -- The decisions of a list from the first and those of the rest; an exception ends the loop.
  abbrev pub consed :
      Result (Decision F) × ℕ → Result (List (Decision F)) × ℕ → Result (List (Decision F)) × ℕ
  consed (err e, k) rest = (err e, k)
  consed (ok d, k) (ok ds, m) = (ok (d ∷ ds), m)
  consed (ok d, k) (err e, m) = (err e, m)

module _ {F : Type 0} ⦃f : Float F⦄ where
  -- Python's truth of a value.
  abbrev pub truthy : Json F → Bool
  truthy (leaf null) = false
  truthy (leaf (boolean b)) = b
  truthy (leaf (integer zero)) = false
  truthy (leaf (integer (suc n))) = true
  truthy (leaf (number a)) = not (is_zero a)
  truthy (leaf (words t)) = not (t == "")
  truthy (leaf (moment t)) = true
  truthy (leaf (side s)) = true
  truthy (array nil) = false
  truthy (array (item j rest)) = true
  truthy (object end) = false
  truthy (object (field k v rest)) = true

  -- `v or {}` and `v or ()` of what `get` returned
  abbrev pub or_else : Option (Json F) → Json F → Json F
  or_else none other = other
  or_else (some v) other = if truthy v then v else other

module _ {F : Type 0} ⦃f : Float F⦄ (reader : Reader F) where
  abbrev pub float_json : Json F → Result F
  float_json (leaf s) = reader.float_of s
  float_json (array items) = err type_error
  float_json (object fields) = err type_error

  -- Whether the `except` clause of `_to_float_dict` takes an exception.
  abbrev pub is_skipped : Error → Bool
  is_skipped type_error = true
  is_skipped value_error = true
  is_skipped _ = false

  unfoldable pub float_fields : Fields F → Dict F → Result (Dict F)
  float_fields end out = ok out
  float_fields (field k v rest) out = elim (float_json v) [
    | ok a ↦ float_fields rest (insert k a out)
    | err e ↦ if is_skipped e then float_fields rest out else err e
  ]

  -- `_to_float_dict`
  unfoldable pub to_float_dict : Option (Json F) → Result (Dict F)
  to_float_dict (some (object fields)) = float_fields fields []
  to_float_dict (some (array items)) = ok []
  to_float_dict (some (leaf s)) = ok []
  to_float_dict none = ok []

  abbrev pub texts : List (Json F) → List String
  texts [] = []
  texts (j ∷ js) = reader.text_of j ∷ texts js

  -- `str(d.get(k, "")).strip()`
  abbrev pub stripped_field : String → Fields F → String
  stripped_field k fields =
      reader.strip (elim (get k fields) [ none ↦ "" | some v ↦ reader.text_of v ])

  -- A decision of its object, its rationale and its identifier.
  unfoldable pub build_decision : Fields F → Fields F → String → Result (Decision F)
  build_decision d r id = do
    indicators ← to_float_dict (get "indicators" r)
    numbers ← to_float_dict (get "numbers" r)
    pros ← iterate (or_else (get "pros" r) (array nil))
    cons ← iterate (or_else (get "cons" r) (array nil))
    asset ← required "asset" d
    action ← required "action" d
    ok (record {
      asset = reader.text_of asset;
      action = intent_of (reader.text_of action);
      side = side_of_text (get "side" d);
      rationale = record {
        decision_id = id;
        indicators = indicators;
        numbers = numbers;
        reasoning = stripped_field "reasoning" r;
        pros = texts pros;
        cons = texts cons;
      };
      vetoed_reason = none;
    })

  -- `r.get("decision_id") or self._next_id()`
  abbrev pub identify : Formats F → Fields F → ℕ → String × ℕ
  identify fmt r n = elim (get "decision_id" r) [
    | none ↦ (id_of fmt (n + 1), n + 1)
    | some v ↦ if truthy v then (reader.text_of v, n) else (id_of fmt (n + 1), n + 1)
  ]

  unfoldable pub parse_decision : Formats F → Json F → ℕ → Result (Decision F) × ℕ
  parse_decision fmt j n = elim (as_object j) [
    | err e ↦ (err e, n)
    | ok d ↦ elim (as_object (or_else (get "rationale" d) (object end))) [
      | err e ↦ (err e, n)
      | ok r ↦ let (id, m) = identify fmt r n in (build_decision d r id, m)
    ]
  ]

  unfoldable pub parse_decisions : Formats F → List (Json F) → ℕ → Result (List (Decision F)) × ℕ
  unfolding parse_decision
  parse_decisions fmt [] n = (ok [], n)
  parse_decisions fmt (j ∷ js) n =
      let first = parse_decision fmt j n in
      let rest = parse_decisions fmt js first.1 in consed first rest

  -- The part after the checks on the object.
  abbrev pub read_decisions : Formats F → Fields F → Json F → ℕ → Result (Decisions F) × ℕ
  read_decisions fmt answer list n = elim (iterate list) [
    | err e ↦ (err e, n)
    | ok js ↦
        let (r, m) = parse_decisions fmt js n in
        (r >>= λ ds. ok (record { decisions = ds; summary = stripped_field "summary" answer }), m)
  ]

  -- `_parse`, from the counter and to the counter.
  unfoldable pub parse_answer : Formats F → String → ℕ → Result (Decisions F) × ℕ
  parse_answer fmt raw n =
      let text = reader.strip raw in
      if text == "" then (err empty_answer, n) else elim (reader.loads text) [
        | none ↦ (err bad_json, n)
        | some (object answer) ↦ elim (get "decisions" answer) [
          | none ↦ (err missing_decisions, n)
          | some list ↦ read_decisions fmt answer list n
        ]
        | some (array items) ↦ (err missing_decisions, n)
        | some (leaf s) ↦ (err missing_decisions, n)
      ]
