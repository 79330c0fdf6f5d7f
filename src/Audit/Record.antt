-- ===== src/Audit/Record.antt =====
-- agent/audit.py: `AuditRecord`, its canonical JSON and its hash. What is not of the program is a
-- parameter: `json` and the hash function, over a type `T` of texts. `write` is `json.dumps` with
-- sorted keys, no white space and UTF-8, where it returns: an exception of the encoding is one of those
-- that an append of the model ends with. `keccak` hashes a text followed by the bytes of a nonce that
-- is given in hexadecimal.
use agora_perp_agent.Prelude.{ℕ, String, Option, none, some}
use agora_perp_agent.Prelude.Errors.{Result, ok, err, ◌>>=◌, bad_json, type_error}
use agora_perp_agent.Contracts.Json.{
  null, integer, words, Json, leaf, array, object, Fields, end, field, get,
}

pub record Codec (F T : Type 0) : Type 0 where
  pub write : Json F → T
  pub loads : T → Option (Json F)
  pub keccak : T → String → String

pub data Verdict : Type 0 where
  execute defer challenge reject : Verdict

pub data Outcome : Type 0 where
  pending filled partial cancelled expired errored paid : Outcome

abbrev pub verdict_value : Verdict → String
verdict_value execute = "EXECUTE"
verdict_value defer = "DEFER"
verdict_value challenge = "CHALLENGE"
verdict_value reject = "REJECT"

abbrev pub outcome_value : Outcome → String
outcome_value pending = "PENDING"
outcome_value filled = "FILLED"
outcome_value partial = "PARTIAL"
outcome_value cancelled = "CANCELLED"
outcome_value expired = "EXPIRED"
outcome_value errored = "ERRORED"
outcome_value paid = "PAID"

-- The dicts are JSON values, `None` among them.
pub record AuditRecord (F : Type 0) : Type 0 where
  pub schema_version : String
  pub audit_id : String
  pub decision_id : String
  pub agent_address : String
  pub chain_id : ℕ
  pub venue : String
  pub decided_at_iso : String
  pub input_hashes : Json F
  pub asset : String
  pub side : Option String
  pub verdict : String
  pub sized : Json F
  pub reasoning : String
  pub outcome : String
  pub fill : Json F
  pub venue_order_id : Option String
  pub arc_tx_hash : Option String
  pub arc_job_id : Option ℕ
  pub nonce_hex : String

-- The arguments of `new_record`.
pub record Decided (F : Type 0) : Type 0 where
  pub decision_id : String
  pub agent_address : String
  pub chain_id : ℕ
  pub venue : String
  pub asset : String
  pub side : Option String
  pub verdict : Verdict
  pub input_hashes : Json F
  pub sized : Json F
  pub reasoning : String

-- What `new_record` takes from outside: the time as text, the identifier, the nonce; and
-- `text[:2048]`.
pub record Fresh : Type 0 where
  pub when_iso : String
  pub uuid : String
  pub nonce_hex : String
  pub first_2048 : String → String

module _ {F : Type 0} where
  unfoldable pub new_record : Decided F → Fresh → AuditRecord F
  new_record decided fresh = record {
    schema_version = "v1";
    audit_id = fresh.uuid;
    decision_id = decided.decision_id;
    agent_address = decided.agent_address;
    chain_id = decided.chain_id;
    venue = decided.venue;
    decided_at_iso = fresh.when_iso;
    input_hashes = decided.input_hashes;
    asset = decided.asset;
    side = decided.side;
    verdict = verdict_value decided.verdict;
    sized = decided.sized;
    reasoning = fresh.first_2048 decided.reasoning;
    outcome = outcome_value pending;
    fill = leaf null;
    venue_order_id = none;
    arc_tx_hash = none;
    arc_job_id = none;
    nonce_hex = fresh.nonce_hex;
  }

  abbrev pub optional_text : Option String → Json F
  optional_text none = leaf null
  optional_text (some t) = leaf (words t)

  abbrev pub optional_integer : Option ℕ → Json F
  optional_integer none = leaf null
  optional_integer (some n) = leaf (integer n)

  -- `asdict`
  unfoldable pub asdict : AuditRecord F → Fields F
  asdict r = field "schema_version" (leaf (words r.schema_version)) (
      field "audit_id" (leaf (words r.audit_id)) (
        field "decision_id" (leaf (words r.decision_id)) (
          field "agent_address" (leaf (words r.agent_address)) (
            field "chain_id" (leaf (integer r.chain_id)) (
              field "venue" (leaf (words r.venue)) (
                field "decided_at_iso" (leaf (words r.decided_at_iso)) (
                  field "input_hashes" r.input_hashes (
                    field "asset" (leaf (words r.asset)) (
                      field "side" (optional_text r.side) (
                        field "verdict" (leaf (words r.verdict)) (
                          field "sized" r.sized (
                            field "reasoning" (leaf (words r.reasoning)) (
                              field "outcome" (leaf (words r.outcome)) (
                                field "fill" r.fill (
                                  field "venue_order_id" (optional_text r.venue_order_id) (
                                    field "arc_tx_hash" (optional_text r.arc_tx_hash) (
                                      field "arc_job_id" (optional_integer r.arc_job_id) (
                                        field "nonce_hex" (leaf (words r.nonce_hex))
                                          end))))))))))))))))))

  -- A keyword argument of `AuditRecord(**data)`. A missing one raises `TypeError`; so does, in the
  -- model alone, one of another type than the record declares, which `canonical_json` never writes.
  abbrev pub any_value : String → Fields F → Result (Json F)
  any_value k fields = elim (get k fields) [ none ↦ err type_error | some v ↦ ok v ]

  abbrev pub as_text : Json F → Result String
  as_text (leaf (words t)) = ok t
  as_text (leaf s) = err type_error
  as_text (array items) = err type_error
  as_text (object fields) = err type_error

  abbrev pub as_integer : Json F → Result ℕ
  as_integer (leaf (integer n)) = ok n
  as_integer (leaf s) = err type_error
  as_integer (array items) = err type_error
  as_integer (object fields) = err type_error

  abbrev pub as_optional_text : Json F → Result (Option String)
  as_optional_text (leaf null) = ok none
  as_optional_text (leaf (words t)) = ok (some t)
  as_optional_text (leaf s) = err type_error
  as_optional_text (array items) = err type_error
  as_optional_text (object fields) = err type_error

  abbrev pub as_optional_integer : Json F → Result (Option ℕ)
  as_optional_integer (leaf null) = ok none
  as_optional_integer (leaf (integer n)) = ok (some n)
  as_optional_integer (leaf s) = err type_error
  as_optional_integer (array items) = err type_error
  as_optional_integer (object fields) = err type_error

  unfoldable pub text_of : String → Fields F → Result String
  text_of k fields = any_value k fields >>= as_text

  unfoldable pub integer_of : String → Fields F → Result ℕ
  integer_of k fields = any_value k fields >>= as_integer

  unfoldable pub optional_text_of : String → Fields F → Result (Option String)
  optional_text_of k fields = any_value k fields >>= as_optional_text

  unfoldable pub optional_integer_of : String → Fields F → Result (Option ℕ)
  optional_integer_of k fields = any_value k fields >>= as_optional_integer

  -- `AuditRecord(**data)`
  unfoldable pub from_fields : Fields F → Result (AuditRecord F)
  from_fields d = do
    schema_version ← text_of "schema_version" d
    audit_id ← text_of "audit_id" d
    decision_id ← text_of "decision_id" d
    agent_address ← text_of "agent_address" d
    chain_id ← integer_of "chain_id" d
    venue ← text_of "venue" d
    decided_at_iso ← text_of "decided_at_iso" d
    input_hashes ← any_value "input_hashes" d
    asset ← text_of "asset" d
    side ← optional_text_of "side" d
    verdict ← text_of "verdict" d
    sized ← any_value "sized" d
    reasoning ← text_of "reasoning" d
    outcome ← text_of "outcome" d
    fill ← any_value "fill" d
    venue_order_id ← optional_text_of "venue_order_id" d
    arc_tx_hash ← optional_text_of "arc_tx_hash" d
    arc_job_id ← optional_integer_of "arc_job_id" d
    nonce_hex ← text_of "nonce_hex" d
    ok (record {
      schema_version = schema_version;
      audit_id = audit_id;
      decision_id = decision_id;
      agent_address = agent_address;
      chain_id = chain_id;
      venue = venue;
      decided_at_iso = decided_at_iso;
      input_hashes = input_hashes;
      asset = asset;
      side = side;
      verdict = verdict;
      sized = sized;
      reasoning = reasoning;
      outcome = outcome;
      fill = fill;
      venue_order_id = venue_order_id;
      arc_tx_hash = arc_tx_hash;
      arc_job_id = arc_job_id;
      nonce_hex = nonce_hex;
    })

module _ {F T : Type 0} (codec : Codec F T) where
  unfoldable pub canonical_json : AuditRecord F → T
  canonical_json r = codec.write (object (asdict r))

  unfoldable pub anchor_hash : AuditRecord F → String
  anchor_hash r = codec.keccak (canonical_json r) r.nonce_hex

  -- `_record_from_json`
  unfoldable pub record_from_json : T → Result (AuditRecord F)
  record_from_json blob = elim (codec.loads blob) [
    | none ↦ err bad_json
    | some (object fields) ↦ from_fields fields
    | some (array items) ↦ err type_error
    | some (leaf s) ↦ err type_error
  ]
