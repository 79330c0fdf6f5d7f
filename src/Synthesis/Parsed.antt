-- ===== src/Synthesis/Parsed.antt =====
-- What the parser returns: a decision per item of the answer, in order.
use agora_perp_agent.Prelude.{
  ℕ, String, false, ◌≡◌, ◌≢◌, refl, ap, Option, none, some, List, [], ◌∷◌, Option-cases, Bool-cases,
  inl, inr, Each, arith, ◌==◌, subst,
}
use text.Mathlib.TextEquality.{eq_iff}
use agora_perp_agent.Prelude.Errors.{Result, ok, err, Returns, bind-Returns, Result-cases}
use agora_perp_agent.Float.Ops.{Float}
use agora_perp_agent.Contracts.{
  Decision, Decisions, Side, long, short, Intent, enter, hold, cut, flip, skip, other_action,
}
use agora_perp_agent.Contracts.Json.{Json, leaf, array, object, Fields, end, get, words}
use agora_perp_agent.Synthesis.Formats.{Formats}
use agora_perp_agent.Synthesis.Answer.{
  Reader, intent_of, iterate, as_object, side_of_text, required, or_else, to_float_dict, identify,
  build_decision, parse_decision, consed, parse_decisions, read_decisions, parse_answer,
}

-- The intent that a text names; `other_action` is for a text that names none.
abbrev pub Names : String → Intent → Type 0
Names t enter = t ≡ "enter"
Names t hold = t ≡ "hold"
Names t cut = t ≡ "cut"
Names t flip = t ≡ "flip"
Names t skip = t ≡ "skip"
Names t other_action = (t ≢ "enter") × (t ≢ "hold") × (t ≢ "cut") × (t ≢ "flip") × (t ≢ "skip")

intent_of-Names : (t : String) → Names t (intent_of t)
intent_of-Names t = elim (Bool-cases (t == "enter")) [
  | inl e ↦ rw e ((eq_iff t "enter").0 e)
  | inr a ↦ elim (Bool-cases (t == "hold")) [
    | inl e ↦ rw (a, e) ((eq_iff t "hold").0 e)
    | inr b ↦ elim (Bool-cases (t == "cut")) [
      | inl e ↦ rw (a, b, e) ((eq_iff t "cut").0 e)
      | inr c ↦ elim (Bool-cases (t == "flip")) [
        | inl e ↦ rw (a, b, c, e) ((eq_iff t "flip").0 e)
        | inr d ↦ elim (Bool-cases (t == "skip")) [
          | inl e ↦ rw (a, b, c, d, e) ((eq_iff t "skip").0 e)
          | inr g ↦
              rw (a, b, c, d, g)
                (differs t _ a, differs t _ b, differs t _ c, differs t _ d, differs t _ g)
        ]
      ]
    ]
  ]
]
  where
    differs : (t u : String) → (t == u) ≡ false → t ≢ u
    differs t u h = ground (arith, eq_iff t u)

module _ {F : Type 0} where
  -- The side that the value of `side` names: exactly the text "long" or "short", or else none.
  abbrev pub NamesSide : Option (Json F) → Option Side → Type 0
  NamesSide v (some long) = v ≡ some (leaf (words "long"))
  NamesSide v (some short) = v ≡ some (leaf (words "short"))
  NamesSide v (some Side.other) = v ≢ v
  NamesSide v none = (v ≢ some (leaf (words "long"))) × (v ≢ some (leaf (words "short")))

  side_of_text-NamesSide : (v : Option (Json F)) → NamesSide v (side_of_text v)
  side_of_text-NamesSide (some (leaf (words t))) = elim (Bool-cases (t == "long")) [
    | inl e ↦ rw e (ap (λ u. some (leaf (words u))) ((eq_iff t "long").0 e))
    | inr a ↦ elim (Bool-cases (t == "short")) [
      | inl e ↦ rw (a, e) (ap (λ u. some (leaf (words u))) ((eq_iff t "short").0 e))
      | inr b ↦ rw (a, b) (ground (arith, eq_iff t "long"), ground (arith, eq_iff t "short"))
    ]
  ]
  side_of_text-NamesSide (some (leaf s)) = (ground arith, ground arith)
  side_of_text-NamesSide (some (array items)) = (ground arith, ground arith)
  side_of_text-NamesSide (some (object fields)) = (ground arith, ground arith)
  side_of_text-NamesSide none = (ground arith, ground arith)

  required_lem :
      (k : String) (fields : Fields F) (v : Json F)
      → required k fields ≡ ok v
      → get k fields ≡ some v
  required_lem k fields v e = elim (Option-cases (get k fields)) [
    | inl missing ↦ absurd (ground (arith, rw (required, missing) at e))
    | inr (w, found) ↦ ground (arith, rw (required, found) at e)
  ]

module _ {F : Type 0} ⦃f : Float F⦄ (reader : Reader F) where
  -- The decision that an object of the answer stands for.
  abbrev pub ReadFields : Fields F → Decision F → Type 0
  ReadFields fields d =
      (asset : Json F) × (action : Json F) × (get "asset" fields ≡ some asset)
      × (get "action" fields ≡ some action)
      × (d.asset ≡ reader.text_of asset)
      × Names (reader.text_of action) d.action
      × NamesSide (get "side" fields) d.side
      × (d.vetoed_reason ≡ none)

  abbrev pub ReadFrom : Json F → Decision F → Type 0
  ReadFrom j d = (fields : Fields F) × (j ≡ object fields) × ReadFields fields d

  build_decision_lem :
      (fields r : Fields F) (id : String)
      → Returns (ReadFields fields) (build_decision reader fields r id)
  unfolding build_decision
  build_decision_lem fields r id =
      bind-Returns _ (to_float_dict reader (get "indicators" r)) _ (λ indicators _.
        bind-Returns _ (to_float_dict reader (get "numbers" r)) _ (λ numbers _.
          bind-Returns _ (iterate _) _ (λ pros _. bind-Returns _ (iterate _) _ (λ cons _.
            bind-Returns _ (required "asset" fields) _ (λ asset has_asset.
              bind-Returns _ (required "action" fields) _ (λ action has_action. (
                asset,
                action,
                required_lem "asset" fields asset has_asset,
                required_lem "action" fields action has_action,
                refl,
                intent_of-Names (reader.text_of action),
                side_of_text-NamesSide (get "side" fields),
                refl,
              )))))))

  parse_decision_lem :
      (fmt : Formats F) (j : Json F) (n : ℕ)
      → Returns (ReadFrom j) (parse_decision reader fmt j n).0
  unfolding parse_decision
  parse_decision_lem fmt (object fields) n =
      elim (Result-cases (as_object (or_else (get "rationale" fields) (object end)))) [
        | inl (r, given) ↦
            rw (parse_decision, Returns, given)
              (named (build_decision reader fields r (identify reader fmt r n).0)
                (build_decision_lem fields r (identify reader fmt r n).0))
        | inr (e, other_shape) ↦ rw (parse_decision, Returns, other_shape) tt
      ]
    where
      named :
          (built : Result (Decision F))
          → Returns (ReadFields fields) built
          → Returns (ReadFrom (object fields)) built
      named (ok d) h = (fields, refl, h)
      named (err e) h = tt
  parse_decision_lem fmt (array items) n = tt
  parse_decision_lem fmt (leaf s) n = tt

  parse_decisions_lem :
      (fmt : Formats F) (js : List (Json F)) (n : ℕ)
      → Returns (Each ReadFrom js) (parse_decisions reader fmt js n).0
  unfolding parse_decisions
  parse_decisions_lem fmt [] n = tt
  parse_decisions_lem fmt (j ∷ js) n =
      go (parse_decision reader fmt j n) (parse_decision_lem fmt j n)
        (parse_decisions reader fmt js (parse_decision reader fmt j n).1)
        (parse_decisions_lem fmt js (parse_decision reader fmt j n).1)
    where
      go :
          (first : Result (Decision F) × ℕ)
          → Returns (ReadFrom j) first.0
          → (rest : Result (List (Decision F)) × ℕ) → Returns (Each ReadFrom js) rest.0
          → Returns (Each ReadFrom (j ∷ js)) (consed first rest).0
      go (err e, k) read rest reads = tt
      go (ok d, k) read (ok ds, m) reads = (read, reads)
      go (ok d, k) read (err e, m) reads = tt

  -- What an answer's text was read as.
  abbrev pub Answered : String → Decisions F → Type 0
  Answered raw answer =
      (fields : Fields F) × (list : Json F) × (js : List (Json F)) × (reader.loads
          (reader.strip raw)
        ≡ some (object fields))
      × (get "decisions" fields ≡ some list)
      × (iterate list ≡ ok js)
      × Each ReadFrom js answer.decisions

  parse_answer_lem :
      (fmt : Formats F) (raw : String) (n : ℕ)
      → Returns (Answered raw) (parse_answer reader fmt raw n).0
  unfolding parse_answer
  parse_answer_lem fmt raw n = elim (Bool-cases (reader.strip raw == "")) [
    | inl blank ↦ rw blank tt
    | inr present ↦ elim (Option-cases (reader.loads (reader.strip raw))) [
      | inl broken ↦ rw (present, broken) tt
      | inr (leaf s, loaded) ↦ rw (present, loaded) tt
      | inr (array items, loaded) ↦ rw (present, loaded) tt
      | inr (object fields, loaded) ↦ elim (Option-cases (get "decisions" fields)) [
        | inl missing ↦ rw (present, loaded, missing) tt
        | inr (list, found) ↦ elim (Result-cases (iterate list)) [
          | inr (e, other_shape) ↦ rw (present, loaded, found, read_decisions, other_shape) tt
          | inl (js, listed) ↦
              rw (present, loaded, found, read_decisions, listed)
                (bind-Returns (Answered raw) (parse_decisions reader fmt js n).0 _ (λ ds parsed. (
                  fields,
                  list,
                  js,
                  loaded,
                  found,
                  listed,
                  subst (Returns (Each ReadFrom js)) parsed (parse_decisions_lem fmt js n),
                )))
        ]
      ]
    ]
  ]

  -- If the parser returns decisions, then the stripped text was a JSON object with `decisions`, and
  -- there is exactly one decision for each item of that list, in order: the item is an object with
  -- `asset` and `action`, the decision's asset is the text of the first, its action is the one of the
  -- five that the text of the second names or else `other_action`, its side is long or short if the
  -- item's `side` is exactly that text and none otherwise, and it is not vetoed.
  pub parse_answer_faithful :
      (fmt : Formats F) (raw : String) (n m : ℕ) (answer : Decisions F)
      → parse_answer reader fmt raw n ≡ (ok answer, m)
      → Answered raw answer
  parse_answer_faithful fmt raw n m answer e =
      subst (Returns (Answered raw)) (ap (λ r. r.0) e) (parse_answer_lem fmt raw n)
