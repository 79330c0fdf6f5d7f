-- ===== src/Recorders/Links.antt =====
-- The dashboard's links of the open positions, and the rows of the audit store that they name.
use agora_perp_agent.Prelude.{
  String, ◌≡◌, ◌⊎◌, refl, sym, ap, ◌∙◌, true, false, ◌==◌, eq_iff, if◌then◌else◌, Option, none,
  some, [], ◌∷◌, ◌++◌, arith, inl, inr, Option-cases,
}
use agora_perp_agent.Prelude.Errors.{Result}
use agora_perp_agent.Prelude.Dict.{
  Dict, lookup, contains, insert, erase, IsKeyed, lookup-insert, lookup-erase_ne, lookup-erase_self,
  insert-IsKeyed, erase-IsKeyed, Entries, insert-Entries, erase-Entries, lookup-Entries,
}
use agora_perp_agent.Float.Ops.{Float}
use agora_perp_agent.Contracts.{Position}
use agora_perp_agent.Contracts.Json.{Row, words}
use agora_perp_agent.Audit.Store.{Table, StoredRow}
use agora_perp_agent.Snapshot.{
  SnapshotState, Opening, Closing, record_open, record_close, record_decision, update_anchor,
  patched, patched_link,
}
use agora_perp_agent.Snapshot.History.{lookup-patched}

-- Some row has the identifier.
abbrev pub IsIn : {T : Type 0} → String → Table T → Type 0
IsIn id [] = ⊥
IsIn id (row ∷ rows) = (row.audit_id ≡ id) ⊎ IsIn id rows

pub IsIn-append :
    {T : Type 0} (id : String) (table more : Table T) → IsIn id table → IsIn id (table ++ more)
IsIn-append id [] more h = absurd h
IsIn-append id (row ∷ rows) more (inl same) = inl same
IsIn-append id (row ∷ rows) more (inr later) = inr (IsIn-append id rows more later)

pub append-IsIn :
    {T : Type 0} (table : Table T) (row : StoredRow T) → IsIn row.audit_id (table ++ row ∷ [])
append-IsIn [] row = inl refl
append-IsIn (first ∷ rows) row = inr (append-IsIn rows row)

module _ {V : Type 0} where
  pub contains-insert :
      (k j : String) (v : V) (d : Dict V)
      → contains j (insert k v d) ≡ (if k == j then true else contains j d)
  contains-insert k j v d = ground (arith, lookup-insert k j v d)

  pub contains-erase :
      (k j : String) (d : Dict V)
      → IsKeyed d
      → contains j (erase k d) ≡ (if k == j then false else contains j d)
  contains-erase k j d h =
      ground (arith, eq_iff k j, lookup-erase_self k d h, lookup-erase_ne k j d)

module _ {F T : Type 0} where
  -- The link names a row of the table.
  abbrev pub Audited : Table T → Row F → Type 0
  Audited table link = (id : String) × (lookup "audit_id" link ≡ some (words id)) × IsIn id table

  -- The links stand for the open positions, one for each, and each names a row of the table.
  pub record IsLinked (held : Dict (Position F)) (table : Table T) (state : SnapshotState F)
      : Type 0 where
    pub keyed_positions : IsKeyed held
    pub keyed_links : IsKeyed state.audit_links
    pub linked : (asset : String) → contains asset state.audit_links ≡ contains asset held
    pub audited : Entries (λ asset link. Audited table link) state.audit_links

  Audited-append :
      (table more : Table T) (links : Dict (Row F))
      → Entries (λ asset link. Audited table link) links
      → Entries (λ asset link. Audited (table ++ more) link) links
  Audited-append table more [] h = tt
  Audited-append table more ((asset, link) ∷ links) ((id, named, known), rest) =
      ((id, named, IsIn-append id table more known), Audited-append table more links rest)

  -- A row more in the table.
  pub append-IsLinked :
      (held : Dict (Position F)) (table more : Table T) (state : SnapshotState F)
      → IsLinked held table state
      → IsLinked held (table ++ more) state
  append-IsLinked held table more state h = record {
    keyed_positions = h.keyed_positions;
    keyed_links = h.keyed_links;
    linked = h.linked;
    audited = Audited-append table more state.audit_links h.audited;
  }

  -- A position that is written again.
  pub insert-IsLinked :
      (asset : String) (pos : Position F) (held : Dict (Position F)) (table : Table T)
      (state : SnapshotState F)
      → contains asset held ≡ true
      → IsLinked held table state
      → IsLinked (insert asset pos held) table state
  insert-IsLinked asset pos held table state known h = record {
    keyed_positions = insert-IsKeyed asset pos held h.keyed_positions;
    keyed_links = h.keyed_links;
    linked = λ j. ground (arith, h.linked j, eq_iff asset j, contains-insert asset j pos held);
    audited = h.audited;
  }

  -- A position is opened: its link names a row of the table.
  pub record_open-IsLinked :
      (o : Opening F) (row : Row F) (pos : Position F) (held : Dict (Position F)) (table : Table T)
      (state : SnapshotState F)
      → IsIn o.audit_id table
      → IsLinked held table state
      → IsLinked (insert o.asset pos held) table (record_decision row (record_open o state))
  unfolding record_open record_decision
  record_open-IsLinked o row pos held table state known h = record {
    keyed_positions = insert-IsKeyed o.asset pos held h.keyed_positions;
    keyed_links = insert-IsKeyed o.asset _ state.audit_links h.keyed_links;
    linked = λ j.
        contains-insert o.asset j _ state.audit_links
        ∙ ap (λ b. if o.asset == j then true else b) (h.linked j)
        ∙ sym (contains-insert o.asset j pos held);
    audited =
        insert-Entries (λ asset link. Audited table link) o.asset _ state.audit_links
          (o.audit_id, refl, known) h.audited;
  }

  -- The writes of a finished anchoring.
  pub update_anchor-IsLinked :
      (asset : Option String) (id : String) (hash url : Option String) (anchor_state : String)
      (held : Dict (Position F)) (table : Table T) (state : SnapshotState F)
      → IsLinked held table state
      → IsLinked held table (update_anchor asset id hash url anchor_state state)
  unfolding update_anchor
  update_anchor-IsLinked none id hash url anchor_state held table state h = record {
    keyed_positions = h.keyed_positions;
    keyed_links = h.keyed_links;
    linked = h.linked;
    audited = h.audited;
  }
  update_anchor-IsLinked (some asset) id hash url anchor_state held table state h =
      elim (Option-cases (lookup asset state.audit_links)) [
        | inl missing ↦
            simp (patched_link, missing)
              (record {
                keyed_positions = h.keyed_positions;
                keyed_links = h.keyed_links;
                linked = h.linked;
                audited = h.audited;
              })
        | inr (link, found) ↦
            let patch = patched id hash url anchor_state in
            simp (patched_link, found)
              (record {
                keyed_positions = h.keyed_positions;
                keyed_links = insert-IsKeyed asset (patch link) state.audit_links h.keyed_links;
                linked = λ j. ground (
                  arith,
                  h.linked j,
                  eq_iff asset j,
                  contains-insert asset j (patch link) state.audit_links,
                );
                audited =
                    let (audit_id, named, known) =
                      lookup-Entries (λ asset link. Audited table link) asset link state.audit_links
                        h.audited found in
                    insert-Entries (λ asset link. Audited table link) asset (patch link)
                      state.audit_links
                      (audit_id, lookup-patched id hash url anchor_state link ∙ named, known)
                      h.audited;
              })
      ]

module _ {F T : Type 0} ⦃f : Float F⦄ where
  -- A position is closed.
  pub record_close-IsLinked :
      (seconds : String → String → Result F) (c : Closing F) (held : Dict (Position F))
      (table : Table T) (state : SnapshotState F)
      → IsLinked held table state
      → IsLinked (erase c.asset held) table (record_close seconds c state)
  unfolding record_close record_decision
  record_close-IsLinked seconds c held table state h = record {
    keyed_positions = erase-IsKeyed c.asset held h.keyed_positions;
    keyed_links = erase-IsKeyed c.asset state.audit_links h.keyed_links;
    linked = λ j.
        contains-erase c.asset j state.audit_links h.keyed_links
        ∙ ap (λ b. if c.asset == j then false else b) (h.linked j)
        ∙ sym (contains-erase c.asset j held h.keyed_positions);
    audited = erase-Entries (λ asset link. Audited table link) c.asset state.audit_links h.audited;
  }
