-- ===== src/Wallet.antt =====
-- agent/on_chain.py: `CircleAnchor`. The service's answers are parameters, as are the ciphertext, the fresh
-- keys and the expiry; a poll of a transaction is an entry of the list of the answers that come before
-- the deadline.
pub mod Description
pub mod Settled
use agora_perp_agent.Prelude.{
  ℕ, String, Bool, true, false, ◌==◌, ◌&&◌, not, Option, none, some, List, [], ◌∷◌, if◌then◌else◌,
  leb,
}
use Prim.Native.String.{◌++◌ as ◌+++◌}
use agora_perp_agent.Prelude.Errors.{
  Result, ok, err, ◌>>=◌, type_error, attribute_error, no_credentials, terminal_state,
  request_refused,
}
use agora_perp_agent.Float.Ops.{Float}
use agora_perp_agent.Contracts.Json.{
  Json, leaf, array, object, Items, nil, item, Fields, end, field, get, null, words,
}
use agora_perp_agent.Synthesis.Answer.{truthy, as_object}
use agora_perp_agent.MarketSource.{subscript, Response}

-- What `__init__` resolves of the credentials.
pub record Credentials : Type 0 where
  pub api_key : String
  pub entity_secret : String
  pub wallet_id : String
  pub wallet_address : String

pub record AnchorResult (F : Type 0) : Type 0 where
  pub circle_tx_id : Json F
  pub arc_tx_hash : Json F
  pub arc_job_id : Option ℕ
  pub description : String
  pub anchor_hash_hex : String
  pub state : Json F
  pub arcscan_url : Option String

-- `given or os.environ.get(name, "")`, of what was given and what the environment has.
abbrev pub credential : Option String → Option String → String
credential none none = ""
credential none (some t) = t
credential (some given) none = given
credential (some given) (some t) = if given == "" then t else given

-- The loop over the four credentials: the first that is empty ends it.
abbrev pub required_all : List String → Result (Unit {0})
required_all [] = ok tt
required_all (value ∷ values) = if value == "" then err no_credentials else required_all values

-- `__init__` up to the request of the public key.
unfoldable pub resolve_credentials :
    Option String × Option String
    → Option String × Option String
    → Option String × Option String
    → Option String × Option String
    → Result Credentials
resolve_credentials (a, a_env) (b, b_env) (c, c_env) (d, d_env) = do
  checked ←
      required_all
        (credential a a_env ∷ credential b b_env ∷ credential c c_env ∷ credential d d_env ∷ [])
  ok (record {
    api_key = credential a a_env;
    entity_secret = credential b b_env;
    wallet_id = credential c c_env;
    wallet_address = credential d d_env;
  })

-- `text in set`
abbrev pub is_in_set : String → List String → Bool
is_in_set t [] = false
is_in_set t (x ∷ xs) = if t == x then true else is_in_set t xs

-- `_TERMINAL_OK` and `_TERMINAL_BAD`
abbrev pub terminal_ok : List String
terminal_ok = "CONFIRMED" ∷ "COMPLETE" ∷ []

abbrev pub terminal_bad : List String
terminal_bad = "FAILED" ∷ "DENIED" ∷ "CANCELLED" ∷ []

module _ {F : Type 0} where
  abbrev pub parameter_items : List String → Items F
  parameter_items [] = nil
  parameter_items (t ∷ ts) = item (leaf (words t)) (parameter_items ts)

  -- The body of a request of `_post_contract_execution`.
  unfoldable pub execution_body :
      String → Credentials → String → String → String → List String → Json F
  execution_body key credentials contract ciphertext abi_signature abi_parameters = object (
      field "idempotencyKey" (leaf (words key)) (
        field "walletId" (leaf (words credentials.wallet_id)) (
          field "contractAddress" (leaf (words contract)) (
            field "abiFunctionSignature" (leaf (words abi_signature)) (
              field "abiParameters" (array (parameter_items abi_parameters)) (
                field "feeLevel" (leaf (words "MEDIUM"))
                  (field "entitySecretCiphertext" (leaf (words ciphertext)) end)))))))

  -- What `_post_contract_execution` makes of the answer.
  unfoldable pub post_contract_execution : Result (Response F) → Result (Json F)
  post_contract_execution answer = answer >>= λ r.
      if leb 400 r.status
      then err request_refused
      else r.content >>= subscript "data" >>= subscript "id"

module _ {F : Type 0} ⦃f : Float F⦄ where
  -- `state in set`: a list or a dict cannot be an element.
  abbrev pub is_state_of : List String → Json F → Result Bool
  is_state_of states (leaf (words t)) = ok (is_in_set t states)
  is_state_of states (leaf s) = ok false
  is_state_of states (array items) = err type_error
  is_state_of states (object fields) = err type_error

  abbrev pub is_sent : Json F → Bool
  is_sent (leaf (words t)) = t == "SENT"
  is_sent j = false

  -- `data.get("state", "UNKNOWN")` and `data.get("txHash") or last_hash`
  abbrev pub state_in : Fields F → Json F
  state_in tx = elim (get "state" tx) [ none ↦ leaf (words "UNKNOWN") | some state ↦ state ]

  abbrev pub hash_in : Fields F → Json F → Json F
  hash_in tx last_hash = elim (get "txHash" tx) [
    | none ↦ last_hash
    | some v ↦ if truthy v then v else last_hash
  ]

  -- What a poll decides: to return, or to go on.
  abbrev pub decide_poll :
      (Json F → Json F → Result (Json F × Json F))
      → Json F
      → Json F
      → Bool
      → Bool
      → Result (Json F × Json F)
  decide_poll rest state tx_hash fine bad =
      let later = rest state tx_hash in
      if fine
      then ok (state, tx_hash)
      else if bad
      then err terminal_state
      else if is_sent state && truthy tx_hash
      then ok (state, tx_hash)
      else later

  -- The loop of `_poll_until_terminal`, from the last state and hash.
  unfoldable pub poll_from : List (Result (Json F)) → Json F → Json F → Result (Json F × Json F)
  poll_from [] last_state last_hash = ok (last_state, last_hash)
  poll_from (answer ∷ answers) last_state last_hash = do
    json ← answer
    data_part ← subscript "data" json
    transaction ← subscript "transaction" data_part
    tx ← as_object transaction
    fine ← is_state_of terminal_ok (state_in tx)
    bad ← is_state_of terminal_bad (state_in tx)
    decide_poll (poll_from answers) (state_in tx) (hash_in tx last_hash) fine bad

  unfoldable pub poll_until_terminal : List (Result (Json F)) → Result (Json F × Json F)
  unfolding poll_from
  poll_until_terminal answers = poll_from answers (leaf (words "UNKNOWN")) (leaf null)

  -- `arcscan_tx(arc_tx_hash) if arc_tx_hash else None`, with the text of a hash in an f-string.
  abbrev pub url_of : (Json F → String) → Json F → Option String
  url_of str tx_hash =
      if truthy tx_hash then some ("https://testnet.arcscan.app/tx/" +++ str tx_hash) else none

  -- `anchor_record` from the request on, with the description and the hash of the record.
  unfoldable pub anchor_described :
      (Json F → String)
      → Result (Response F)
      → (Json F → List (Result (Json F)))
      → String
      → String
      → Result (AnchorResult F)
  unfolding post_contract_execution poll_until_terminal
  anchor_described str posted polls description hash_hex = do
    circle_tx_id ← post_contract_execution posted
    (state, arc_tx_hash) ← poll_until_terminal (polls circle_tx_id)
    ok (record {
      circle_tx_id = circle_tx_id;
      arc_tx_hash = arc_tx_hash;
      arc_job_id = none;
      description = description;
      anchor_hash_hex = hash_hex;
      state = state;
      arcscan_url = url_of str arc_tx_hash;
    })

  -- `submit_record_hash`, likewise, on an existing job whose number reads as the text.
  unfoldable pub submit_record_hash :
      (Json F → String)
      → (ℕ → String)
      → Result (Response F)
      → (Json F → List (Result (Json F)))
      → ℕ
      → String
      → Result (AnchorResult F)
  unfolding post_contract_execution poll_until_terminal
  submit_record_hash str decimal posted polls job_id hash_hex = do
    circle_tx_id ← post_contract_execution posted
    (state, arc_tx_hash) ← poll_until_terminal (polls circle_tx_id)
    ok (record {
      circle_tx_id = circle_tx_id;
      arc_tx_hash = arc_tx_hash;
      arc_job_id = some job_id;
      description = "submit:job=" +++ decimal job_id +++ ":" +++ hash_hex;
      anchor_hash_hex = hash_hex;
      state = state;
      arcscan_url = url_of str arc_tx_hash;
    })
