-- ===== src/Audit/Latest.antt =====
-- What the store answers after an append.
use agora_perp_agent.Prelude.{
  String, ◌≡◌, refl, none, some, Bool, true, false, List, [], ◌∷◌, ◌++◌, ◌==◌, if◌then◌else◌,
  Bool-cases, inl, inr, eq_refl, ap, ◌∙◌, subst,
}
use mathlib.Core.List.{append-nil}
use agora_perp_agent.Prelude.Errors.{Result, ok, err, ◌>>=◌}
use agora_perp_agent.Float.Ops.{Float}
use agora_perp_agent.Audit.Record.{Codec, AuditRecord, record_from_json, canonical_json}
use agora_perp_agent.Audit.Store.{
  Table, last_where, row_of, append, has_id, read_row, latest, awaits, prepended, read_pending,
  list_pending,
}
use agora_perp_agent.Audit.Reload.{IsJson, reloaded, canonical_json_lem}

last_where-append :
    {A : Type 0} (test : A → Bool) (xs : List A) (x : A)
    → last_where test (xs ++ x ∷ []) ≡ (if test x then some x else last_where test xs)
last_where-append test [] x = refl
last_where-append test (y ∷ ys) x = elim (Bool-cases (test x)) [
  | inl holds ↦ rw (last_where, last_where-append test ys x, holds) refl
  | inr fails ↦ rw (last_where, last_where-append test ys x, fails) refl
]

module _ {F T : Type 0} {codec : Codec F T} (json : IsJson codec) where
  -- The latest state under an identifier, after an append: the appended record, as read back, if it has
  -- that identifier; what it was before, otherwise.
  pub latest-append :
      (r : AuditRecord F) (table : Table T) (id : String)
      → latest codec id (append codec r table).1
        ≡ (if r.audit_id == id then ok (some (reloaded json r)) else latest codec id table)
  unfolding latest append
  latest-append r table id =
      ap (read_row codec) (last_where-append (has_id codec id) table (row_of codec r)) ∙ settled
    where
      settled :
          read_row codec
            (if r.audit_id == id then some (row_of codec r) else last_where (has_id codec id) table)
          ≡ (if r.audit_id == id then ok (some (reloaded json r)) else latest codec id table)
      settled = elim (Bool-cases (r.audit_id == id)) [
        | inl same ↦ rw (same, canonical_json_lem json r) refl
        | inr other ↦ rw other refl
      ]

  -- Reading the appended row adds its record, if it waits.
  abbrev pub waiting : AuditRecord F → List (AuditRecord F)
  waiting r = if awaits codec (row_of codec r) then reloaded json r ∷ [] else []

  read_pending_row :
      (r : AuditRecord F)
      → (if awaits codec (row_of codec r)
          then prepended codec (record_from_json codec (canonical_json codec r)) (ok [])
          else ok [])
        ≡ ok (waiting r)
  read_pending_row r = elim (Bool-cases (awaits codec (row_of codec r))) [
    | inl waits ↦ rw (waits, canonical_json_lem json r) refl
    | inr final ↦ rw final refl
  ]

  prepended_bind :
      (first : Result (AuditRecord F)) (rest : Result (List (AuditRecord F)))
      (more : List (AuditRecord F))
      → prepended codec first (rest >>= λ rs. ok (rs ++ more))
        ≡ (prepended codec first rest >>= λ rs. ok (rs ++ more))
  prepended_bind (err e) rest more = refl
  prepended_bind (ok r) (err e) more = refl
  prepended_bind (ok r) (ok rs) more = refl

  pub read_pending-append :
      (r : AuditRecord F) (table : Table T)
      → read_pending codec (append codec r table).1
        ≡ (read_pending codec table >>= λ rs. ok (rs ++ waiting r))
  unfolding read_pending append
  read_pending-append r [] = read_pending_row r
  read_pending-append r (row ∷ rows) = elim (Bool-cases (awaits codec row)) [
    | inl waits ↦
        rw (read_pending, waits)
          (ap (prepended codec (record_from_json codec row.record_json))
              (read_pending-append r rows)
            ∙ prepended_bind (record_from_json codec row.record_json) (read_pending codec rows)
                (waiting r))
    | inr final ↦ rw (read_pending, final) (read_pending-append r rows)
  ]

module _ {F T : Type 0} ⦃f : Float F⦄ {codec : Codec F T} (json : IsJson codec) where
  -- After a record that waits and then a final record with its identifier are appended, the latest
  -- state is the final one, but the list of pending records still has the first record, after those
  -- that it had before.
  pub final_still_pending :
      (age : String → Result F) (r final : AuditRecord F) (table : Table T)
      (rs : List (AuditRecord F))
      → final.audit_id ≡ r.audit_id
      → awaits codec (row_of codec r) ≡ true
      → awaits codec (row_of codec final) ≡ false
      → list_pending codec age none table ≡ ok rs
      → let after = (append codec final (append codec r table).1).1 in
        (latest codec r.audit_id after ≡ ok (some (reloaded json final)))
        × (list_pending codec age none after ≡ ok (rs ++ reloaded json r ∷ []))
  unfolding list_pending
  final_still_pending age r final table rs same waits finished e = (
    subst
        (λ id.
          latest codec id (append codec final (append codec r table).1).1
          ≡ ok (some (reloaded json final)))
        same
        (latest-append json final (append codec r table).1 final.audit_id
          ∙ rw (eq_refl final.audit_id) refl),
    read_pending-append json final (append codec r table).1
        ∙ rw (read_pending-append json r table, e, waits, finished)
            (ap ok (append-nil (rs ++ reloaded json r ∷ []))),
  )
