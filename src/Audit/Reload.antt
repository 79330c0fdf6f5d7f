-- ===== src/Audit/Reload.antt =====
-- A record read back from its canonical JSON.
use agora_perp_agent.Prelude.{ℕ, String, ◌≡◌, refl, Option, none, some, ◌∙◌, ap}
use agora_perp_agent.Prelude.Errors.{ok}
use agora_perp_agent.Contracts.Json.{
  Scalar, null, boolean, integer, number, words, side, moment, Json, leaf, array, object, Fields,
  get,
}
use agora_perp_agent.Audit.Record.{
  Codec, AuditRecord, asdict, text_of, integer_of, optional_text_of, optional_integer_of, any_value,
  from_fields, canonical_json, record_from_json, optional_text, optional_integer,
}

abbrev pub mapped {ℓ κ} : {A : Type ℓ} {B : Type κ} → (A → B) → Option A → Option B
mapped g none = none
mapped g (some a) = some (g a)

-- What `json` promises: reading what was written of a dict gives a dict with the same keys and with
-- the values as they are read back, and so for a dict in it; texts, numbers and `None` are read back
-- as they were. The keys of a dict may come back in another order.
pub record IsJson {F T : Type 0} (codec : Codec F T) : Type 0 where
  pub reload : Json F → Json F
  pub reload_null : reload (leaf null) ≡ leaf null
  pub reload_integer : (n : ℕ) → reload (leaf (integer n)) ≡ leaf (integer n)
  pub reload_words : (t : String) → reload (leaf (words t)) ≡ leaf (words t)
  pub reload_number : (x : F) → reload (leaf (number x)) ≡ leaf (number x)
  pub reload_nested :
      (fields : Fields F)
      → (back : Fields F) × (reload (object fields) ≡ object back)
        × ((k : String) → get k back ≡ mapped reload (get k fields))
  pub reload_object :
      (fields : Fields F)
      → (back : Fields F) × (codec.loads (codec.write (object fields)) ≡ some (object back))
        × ((k : String) → get k back ≡ mapped reload (get k fields))

module _ {F : Type 0} where
  abbrev pub IsPlain : Scalar F → Type 0
  IsPlain null = Unit
  IsPlain (integer n) = Unit
  IsPlain (number x) = Unit
  IsPlain (words t) = Unit
  IsPlain (boolean b) = ⊥
  IsPlain (side s) = ⊥
  IsPlain (moment n) = ⊥

  -- A dict is given back with the same keys and the same plain values, and a plain value as it is.
  abbrev pub GivesBack : Json F → Json F → Type 0
  GivesBack (leaf x) j = IsPlain x → j ≡ leaf x
  GivesBack (array items) j = Unit
  GivesBack (object fields) j =
      (back : Fields F) × (j ≡ object back)
      × ((k : String) → get k fields ≡ none → get k back ≡ none)
      × ((k : String) (x : Scalar F)
          → IsPlain x
          → get k fields ≡ some (leaf x)
          → get k back ≡ some (leaf x))

module _ {F T : Type 0} {codec : Codec F T} (json : IsJson codec) where
  -- The record with its dicts as they are read back.
  abbrev pub reloaded : AuditRecord F → AuditRecord F
  reloaded r = record r {
    input_hashes = json.reload r.input_hashes;
    sized = json.reload r.sized;
    fill = json.reload r.fill;
  }

  any_back :
      (k : String) (fields back : Fields F) (v : Json F)
      → ((k : String) → get k back ≡ mapped json.reload (get k fields))
      → get k fields ≡ some v
      → get k back ≡ some (json.reload v)
  any_back k fields back v same e = same k ∙ ap (mapped json.reload) e

  any_value_back :
      (k : String) (fields back : Fields F) (v : Json F)
      → ((k : String) → get k back ≡ mapped json.reload (get k fields))
      → get k fields ≡ some v
      → any_value k back ≡ ok (json.reload v)
  any_value_back k fields back v same e = rw (any_value, any_back k fields back v same e) refl

  text_back :
      (k t : String) (fields back : Fields F)
      → ((k : String) → get k back ≡ mapped json.reload (get k fields))
      → get k fields ≡ some (leaf (words t))
      → text_of k back ≡ ok t
  unfolding text_of
  text_back k t fields back same e =
      rw (text_of, any_value_back k fields back (leaf (words t)) same e, json.reload_words t) refl

  integer_back :
      (k : String) (n : ℕ) (fields back : Fields F)
      → ((k : String) → get k back ≡ mapped json.reload (get k fields))
      → get k fields ≡ some (leaf (integer n))
      → integer_of k back ≡ ok n
  unfolding integer_of
  integer_back k n fields back same e =
      rw (integer_of, any_value_back k fields back (leaf (integer n)) same e, json.reload_integer n)
        refl

  optional_text_back :
      (k : String) (o : Option String) (fields back : Fields F)
      → ((k : String) → get k back ≡ mapped json.reload (get k fields))
      → get k fields ≡ some (optional_text o)
      → optional_text_of k back ≡ ok o
  unfolding optional_text_of
  optional_text_back k none fields back same e =
      rw (optional_text_of, any_value_back k fields back (leaf null) same e, json.reload_null) refl
  optional_text_back k (some t) fields back same e =
      rw
        (
          optional_text_of,
          any_value_back k fields back (leaf (words t)) same e,
          json.reload_words t,
        )
        refl

  optional_integer_back :
      (k : String) (o : Option ℕ) (fields back : Fields F)
      → ((k : String) → get k back ≡ mapped json.reload (get k fields))
      → get k fields ≡ some (optional_integer o)
      → optional_integer_of k back ≡ ok o
  unfolding optional_integer_of
  optional_integer_back k none fields back same e =
      rw (optional_integer_of, any_value_back k fields back (leaf null) same e, json.reload_null)
        refl
  optional_integer_back k (some n) fields back same e =
      rw
        (
          optional_integer_of,
          any_value_back k fields back (leaf (integer n)) same e,
          json.reload_integer n,
        )
        refl

  from_fields_back :
      (r : AuditRecord F) (back : Fields F)
      → ((k : String) → get k back ≡ mapped json.reload (get k (asdict r)))
      → from_fields back ≡ ok (reloaded r)
  unfolding asdict from_fields
  from_fields_back r back same =
      let d = asdict r in
      rw
        (
          text_back "schema_version" r.schema_version d back same refl,
          text_back "audit_id" r.audit_id d back same refl,
          text_back "decision_id" r.decision_id d back same refl,
          text_back "agent_address" r.agent_address d back same refl,
          integer_back "chain_id" r.chain_id d back same refl,
          text_back "venue" r.venue d back same refl,
          text_back "decided_at_iso" r.decided_at_iso d back same refl,
          any_value_back "input_hashes" d back r.input_hashes same refl,
          text_back "asset" r.asset d back same refl,
          optional_text_back "side" r.side d back same refl,
          text_back "verdict" r.verdict d back same refl,
          any_value_back "sized" d back r.sized same refl,
          text_back "reasoning" r.reasoning d back same refl,
          text_back "outcome" r.outcome d back same refl,
          any_value_back "fill" d back r.fill same refl,
          optional_text_back "venue_order_id" r.venue_order_id d back same refl,
          optional_text_back "arc_tx_hash" r.arc_tx_hash d back same refl,
          optional_integer_back "arc_job_id" r.arc_job_id d back same refl,
          text_back "nonce_hex" r.nonce_hex d back same refl,
        )
        refl

  pub canonical_json_lem :
      (r : AuditRecord F) → record_from_json codec (canonical_json codec r) ≡ ok (reloaded r)
  unfolding record_from_json canonical_json
  canonical_json_lem r =
      let (back, loaded, same) = json.reload_object (asdict r) in
      rw (record_from_json, canonical_json, loaded) (from_fields_back r back same)
