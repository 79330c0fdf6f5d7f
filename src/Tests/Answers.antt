-- ===== src/Tests/Answers.antt =====
-- The synthesizers and the views on small states.
use Prim.Native.Nat.{◌+◌}
use agora_perp_agent.Prelude.{
  ◌≡◌, refl, none, some, List, [], ◌∷◌, ◌++◌, length, String, map, All, ◌==◌, if◌then◌else◌,
}
use mathlib.Core.List.{Perm}
use mathlib.Core.List.Perm
use agora_perp_agent.Prelude.Errors.{ok}
use agora_perp_agent.Float.Ops.{lit}
use agora_perp_agent.Float.Fixed.{ℤ, fixed}
use agora_perp_agent.Contracts.{AgentState, Decision, Decisions}
use agora_perp_agent.Contracts.Json.{Json, leaf, array, object, item, nil, field, end, words}
use agora_perp_agent.Executor.{sized_position}
use agora_perp_agent.Synthesis.Answer.{
  Reader, iterate, float_fields, to_float_dict, build_decision, parse_decision, parse_decisions,
  parse_answer,
}
use agora_perp_agent.Synthesis.Parsed.{Answered, parse_answer_faithful}
use agora_perp_agent.Synthesis.Rule.{rule_decide, rule_summary}
use agora_perp_agent.Synthesis.Shape.{
  rule_decide_shape, not_held, Entries, IsHold, IsNumbered, keys,
}
use agora_perp_agent.Tests.Data.{market, forecast, cost, candidate, sized, value}
use agora_perp_agent.Tests.Steps.{formats}

abbrev state : AgentState ℤ
state = record {
  timestamp = 0;
  board = ("ETH", (forecast, cost)) ∷ [];
  candidates = candidate ∷ record candidate { asset = "ETH" } ∷ [];
  portfolio = record {
    starting_balance_usd = lit 100000 0;
    balance_usd = lit 99000 0;
    positions = ("BTC", sized_position sized market (lit 50100 0)) ∷ [];
  };
  recent_fills = [];
}

rule_decide_shape_example :
    (entering : List (Decision ℤ)) × (holding : List (Decision ℤ)) × (rule_decide formats
        (λ ks. ks)
        state
        7
      ≡ (
        ok (record {
          decisions = entering ++ holding;
          summary = rule_summary formats (entering ++ holding);
        }),
        7 + length (entering ++ holding),
      ))
    × Entries entering (not_held state.portfolio.positions state.candidates)
    × All IsHold holding
    × Perm (map (λ d. d.asset) holding) (keys state.portfolio.positions)
    × IsNumbered formats 7 (entering ++ holding)
rule_decide_shape_example = rule_decide_shape formats (λ ks. ks) state 7 (λ ks. Perm.refl ks)

text_of : Json ℤ → String
text_of (leaf (words t)) = t
text_of _ = "None"

-- A reader of one text.
abbrev reader : Reader ℤ
reader = record {
  loads = λ t.
      if t == "A"
      then some (
          object (
            field "decisions"
              (array (
                item
                  (object (
                    field "asset" (leaf (words "BTC")) (
                      field "action" (leaf (words "enter"))
                        (field "side" (leaf (words "long")) end))))
                  nil))
              end))
      else none;
  strip = λ t. t;
  float_of = λ s. ok (lit 1 0);
  text_of = text_of;
}

abbrev no_answer : Decisions ℤ
no_answer = record { decisions = []; summary = "" }

parse_answer_faithful_example :
    Answered reader "A" (value no_answer (parse_answer reader formats "A" 0).0)
unfolding parse_answer parse_decisions parse_decision build_decision to_float_dict float_fields
    iterate
parse_answer_faithful_example =
    parse_answer_faithful reader formats "A" 0 (parse_answer reader formats "A" 0).1
      (value no_answer (parse_answer reader formats "A" 0).0) refl
