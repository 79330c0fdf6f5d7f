-- ===== src/Recorders/Callback.antt =====
-- cli/run.py, `_on_anchor_complete` of `main`, and agent/arc_constants.py, `arcscan_tx`: a turn of the
-- anchoring worker with the callbacks that it makes.
use agora_perp_agent.Prelude.{
  String, ◌==◌, Option, none, some, List, [], ◌∷◌, drop, length, if◌then◌else◌,
}
use Prim.Native.String.{◌++◌ as ◌+++◌}
use agora_perp_agent.Audit.Record.{Codec}
use agora_perp_agent.Audit.Anchor.{AnchorResult, Completion, Answers, run_turn}
use agora_perp_agent.Snapshot.{SnapshotState, update_anchor}
use agora_perp_agent.Recorders.Books.{Trail, stored, anchored, Books, show}

-- `arcscan_tx`
abbrev pub arcscan_tx : String → String
arcscan_tx tx_hash = "https://testnet.arcscan.app/tx/" +++ tx_hash

-- The hash of a result that has one which is not empty.
abbrev pub hash_of : Option AnchorResult → Option String
hash_of none = none
hash_of (some result) = elim result.arc_tx_hash [
  | none ↦ none
  | some tx_hash ↦ if tx_hash == "" then none else some tx_hash
]

module _ {F : Type 0} where
  -- `_on_anchor_complete`
  unfoldable pub on_anchor_complete : Completion → SnapshotState F → SnapshotState F
  unfolding update_anchor
  on_anchor_complete c state = elim (hash_of c.result) [
    | some tx_hash ↦
        update_anchor c.asset c.audit_id (some tx_hash) (some (arcscan_tx tx_hash)) "complete" state
    | none ↦ elim c.error [
      | none ↦ state
      | some e ↦ update_anchor c.asset c.audit_id none none "error" state
    ]
  ]

  abbrev pub call_back : List Completion → SnapshotState F → SnapshotState F
  call_back [] state = state
  call_back (c ∷ cs) state = call_back cs (on_anchor_complete c state)

module _ {F T : Type 0} where
  -- One turn of the worker, with the callbacks that it makes.
  unfoldable pub turn_and_record : Codec F T → Answers → Trail F T → Books F T → Books F T
  unfolding on_anchor_complete run_turn
  turn_and_record codec answers (stored table) books = books
  turn_and_record codec answers (anchored w) books =
      let turned = run_turn codec answers w in
      show (call_back (drop (length w.completions) turned.completions))
        (record books { trail = anchored turned })

  abbrev pub take_turns : Codec F T → List Answers → Books F T → Books F T
  take_turns codec [] books = books
  take_turns codec (answers ∷ more) books =
      take_turns codec more (turn_and_record codec answers books.trail books)

  -- The books at the loop's next access, after the turns that come before it.
  unfoldable pub overtaken : Codec F T → Books F T → Books F T
  unfolding turn_and_record
  overtaken codec books = elim books.turns [
    | [] ↦ books
    | now ∷ later ↦ take_turns codec now (record books { turns = later })
  ]
