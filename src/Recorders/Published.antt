-- ===== src/Recorders/Published.antt =====
-- What the published document says of the open positions.
use agora_perp_agent.Prelude.{
  ℕ, some, none, ap, length, ◌∙◌, ◌⊎◌, String, ◌≡◌, refl, true, eq_refl, List, [], ◌∷◌, map, All,
  arith, inl, inr, Option-cases, subst,
}
use agora_perp_agent.Prelude.Dict.{Dict, lookup, contains, Entries, lookup-Entries, keys}
use agora_perp_agent.Prelude.Errors.{Error}
use agora_perp_agent.Float.Ops.{Float}
use agora_perp_agent.Contracts.{Position}
use agora_perp_agent.Contracts.Json.{words, Row}
use agora_perp_agent.Audit.Store.{Table}
use agora_perp_agent.Snapshot.{SnapshotState, got}
use agora_perp_agent.Snapshot.Document.{link_at, serialise_positions}
use agora_perp_agent.Recorders.Links.{Audited, IsLinked}
use agora_perp_agent.Loop.Step.{Setup, Session}
use agora_perp_agent.Recorders.Books.{Tools, Books, table_of}
use agora_perp_agent.Recorders.Step.{Moment, run_and_record}
use agora_perp_agent.Recorders.Linked.{Unrecorded}
use agora_perp_agent.Recorders.LinkedRun.{TitledMoment, run_and_record-IsLinkedTo}
use agora_perp_agent.Recorders.Told.{IsLinkedTo, Shows}

module _ {V : Type 0} where
  contained :
      (k : String) (v : V) (d rest : Dict V)
      → Entries (λ j w. contains j d ≡ true) rest
      → Entries (λ j w. contains j ((k, v) ∷ d) ≡ true) rest
  contained k v d [] h = tt
  contained k v d ((j, w) ∷ rest) (here, later) = (ground arith, contained k v d rest later)

  all_contained : (d : Dict V) → Entries (λ k v. contains k d ≡ true) d
  all_contained [] = tt
  all_contained ((k, v) ∷ d) = (ground (arith, eq_refl k), contained k v d d (all_contained d))

module _ {F : Type 0} where
  got_audit_id :
      (asset : String) (links : Dict (Row F)) (link : Row F) (id : String)
      → lookup asset links ≡ some link
      → lookup "audit_id" link ≡ some (words id)
      → got "audit_id" (link_at asset links) ≡ words id
  got_audit_id asset links link id found named = ground arith

module _ {F : Type 0} ⦃f : Float F⦄ where
  serialise_positions_assets :
      (positions : Dict (Position F)) (links : Dict (Row F))
      → map (lookup "asset") (serialise_positions positions links)
        ≡ map (λ asset. some (words asset)) (keys positions)
  unfolding serialise_positions
  serialise_positions_assets [] links = refl
  serialise_positions_assets ((asset, pos) ∷ positions) links =
      ap (◌∷◌ (some (words asset))) (serialise_positions_assets positions links)

module _ {F T : Type 0} ⦃f : Float F⦄ where
  Audited-rows :
      (positions : Dict (Position F)) (table : Table T) (links : Dict (Row F))
      → Entries (λ asset link. Audited table link) links
      → Entries (λ asset pos. contains asset links ≡ true) positions
      → All (Audited table) (serialise_positions positions links)
  unfolding serialise_positions
  Audited-rows [] table links h k = tt
  Audited-rows ((asset, pos) ∷ positions) table links h (known, rest) =
      elim (Option-cases (lookup asset links)) [
        | inl missing ↦ absurd (ground arith)
        | inr (link, found) ↦
            let (id, named, stored) =
              lookup-Entries (λ asset link. Audited table link) asset link links h found in
            (
              (id, ap some (got_audit_id asset links link id found named), stored),
              Audited-rows positions table links h rest,
            )
      ]

  linked_positions :
      (held rest : Dict (Position F)) (table : Table T) (state : SnapshotState F)
      → IsLinked held table state
      → Entries (λ asset pos. contains asset held ≡ true) rest
      → Entries (λ asset pos. contains asset state.audit_links ≡ true) rest
  linked_positions held [] table state h k = tt
  linked_positions held ((asset, pos) ∷ rest) table state h (known, later) =
      (h.linked asset ∙ known, linked_positions held rest table state h later)

  serialise_positions-Audited :
      (held : Dict (Position F)) (table : Table T) (state : SnapshotState F)
      → IsLinked held table state
      → All (Audited table) (serialise_positions held state.audit_links)
  serialise_positions-Audited held table state h =
      Audited-rows held table state.audit_links h.audited
        (linked_positions held held table state h (all_contained held))

module _ {F T : Type 0} ⦃f : Float F⦄ (tools : Tools F T) (setup : Setup F) where
  -- After any run of the loop with the recorders, where the store accepted each append of the loop, the
  -- published document has a row for each open position, in the order of the portfolio and with its
  -- asset, and each of these rows names a row of the audit store. It holds if the books are in order
  -- at the start and each fetched snapshot is of the asset that it is filed under.
  pub published-Audited :
      (moments : List (Moment F)) (session session' : Session F) (books books' : Books F T)
      (state : SnapshotState F)
      → ((n : ℕ) → tools.refuses n ≡ none)
      → All TitledMoment moments
      → IsLinkedTo books session.desk.portfolio.positions
      → run_and_record setup tools moments session books ≡ (session', books')
      → books'.dashboard ≡ some state
      → let held = session'.desk.portfolio.positions in
        let rows = serialise_positions held state.audit_links in
        (map (lookup "asset") rows ≡ map (λ asset. some (words asset)) (keys held))
        × All (Audited (table_of books'.trail)) rows
  published-Audited moments session session' books books' state accepts titled linked e shown =
      let held = session'.desk.portfolio.positions in
      (
        serialise_positions_assets held state.audit_links,
        serialise_positions-Audited held (table_of books'.trail) state (
            subst (Shows held (table_of books'.trail)) shown
              (go (
                subst
                  (λ x.
                    IsLinkedTo x.1 x.0.desk.portfolio.positions
                    ⊎ ((x' : Error) × Unrecorded tools x' x.1 x.0.desk.portfolio.positions))
                  e
                  (run_and_record-IsLinkedTo tools setup moments session books titled linked))).1),
      )
    where
      go :
          IsLinkedTo books' session'.desk.portfolio.positions
            ⊎ ((x : Error) × Unrecorded tools x books' session'.desk.portfolio.positions)
          → IsLinkedTo books' session'.desk.portfolio.positions
      go (inl k) = k
      go (inr (x, (asset, pos, before, _, _, _, declined))) =
          absurd (ground (arith, declined, accepts (length (table_of books'.trail))))
