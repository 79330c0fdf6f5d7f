-- ===== src/Tests/Audits.antt =====
-- The audit store and the anchoring worker, with JSON values as their own texts.
use agora_perp_agent.Prelude.{
  ◌≡◌, refl, Option, none, some, List, [], ◌∷◌, ◌++◌, inr, arith, if◌then◌else◌, ◌==◌, false,
}
use agora_perp_agent.Prelude.Errors.{ok, err, http_error}
use agora_perp_agent.Float.Ops.{lit}
use agora_perp_agent.Float.Fixed.{ℤ, fixed}
use agora_perp_agent.Contracts.Json.{Json, leaf, null, words, object, field, end, get}
use agora_perp_agent.Audit.Record.{Codec, AuditRecord, execute, new_record}
use agora_perp_agent.Audit.Store.{append, latest, list_pending}
use agora_perp_agent.Audit.Reload.{IsJson, mapped, reloaded}
use agora_perp_agent.Audit.Latest.{latest-append, final_still_pending}
use agora_perp_agent.Audit.Anchor.{Worker, Event, submitted, closing, turn, react_all}
use agora_perp_agent.Audit.Queue.{IsBounded, all_put, all_taken, react_all_fifo}

abbrev pub codec : Codec ℤ (Json ℤ)
codec = record { write = λ j. j; loads = λ j. some j; keccak = λ j nonce. nonce }

mapped_id : {A : Type 0} (o : Option A) → o ≡ mapped (λ a. a) o
mapped_id none = refl
mapped_id (some a) = refl

abbrev codec-IsJson : IsJson codec
codec-IsJson = record {
  reload = λ j. j;
  reload_null = refl;
  reload_integer = λ n. refl;
  reload_words = λ t. refl;
  reload_number = λ x. refl;
  reload_nested = λ fields. (fields, refl, λ k. mapped_id (get k fields));
  reload_object = λ fields. (fields, refl, λ k. mapped_id (get k fields));
}

abbrev pub waiting_record : AuditRecord ℤ
unfolding new_record
waiting_record =
    new_record
      (record {
        decision_id = "d-0001";
        agent_address = "0x0";
        chain_id = 5042002;
        venue = "hyperliquid-paper";
        asset = "BTC";
        side = some "long";
        verdict = execute;
        input_hashes = object (field "market" (leaf (words "ab")) end);
        sized = leaf null;
        reasoning = "edge";
      })
      (record { when_iso = "now"; uuid = "u-1"; nonce_hex = "00"; first_2048 = λ t. t })

abbrev filled_record : AuditRecord ℤ
filled_record = record waiting_record { outcome = "FILLED" }

latest-append_example : latest codec "u-1" (append codec waiting_record []).1 ≡ (
    if waiting_record.audit_id == "u-1"
    then ok (some (reloaded codec-IsJson waiting_record))
    else latest codec "u-1" [])
latest-append_example = latest-append codec-IsJson waiting_record [] "u-1"

final_still_pending_example :
    let after = (append codec filled_record (append codec waiting_record []).1).1 in
    (latest codec "u-1" after ≡ ok (some (reloaded codec-IsJson filled_record)))
    × (list_pending codec (λ t. ok (lit 0 0)) none after
        ≡ ok (reloaded codec-IsJson waiting_record ∷ []))
unfolding list_pending waiting_record
final_still_pending_example =
    final_still_pending codec-IsJson (λ t. ok (lit 0 0)) waiting_record filled_record [] [] refl
      refl refl refl

-- A queue of one place.
abbrev worker : Worker ℤ (Json ℤ)
worker = record { max_queue = 1; queue = []; stopped = false; table = []; completions = [] }

abbrev events : List (Event ℤ)
events =
    submitted waiting_record (some "BTC")
    ∷ submitted filled_record (some "BTC")
    ∷ turn (record { anchored = err http_error; write_error = none })
    ∷ closing
    ∷ []

react_all_fifo_example :
    ([] ++ all_put codec events worker
      ≡ all_taken codec events worker ++ (react_all codec events worker).queue)
    × IsBounded codec (react_all codec events worker)
react_all_fifo_example = react_all_fifo codec events worker (inr (omega arith))
