-- ===== src/Audit/Queue.antt =====
-- The queue of the anchoring worker under any sequence of calls and turns.
use mathlib.Core.List.{append-nil, append_assoc}
use agora_perp_agent.Prelude.{
  suc, String, ◌≡◌, ◌≤◌, ◌⊎◌, refl, sym, ap, subst, ◌∙◌, false, Option, List, [], ◌∷◌, ◌++◌,
  if◌then◌else◌, length, take, length-append, Bool-cases, Option-cases, inl, inr, arith,
}
use agora_perp_agent.Prelude.Errors.{Result-cases}
use agora_perp_agent.Audit.Record.{Codec, AuditRecord}
use agora_perp_agent.Audit.Anchor.{
  Job, anchoring, pill, Worker, Answers, Event, submitted, closing, turn, is_full, put, submit,
  close, anchor_one, handle, take_job, run_turn, react, react_all,
}

module _ {F T : Type 0} (codec : Codec F T) where
  -- A bounded queue holds no more than its bound.
  abbrev pub IsBounded : Worker F T → Type 0
  IsBounded w = (w.max_queue ≡ 0) ⊎ (length w.queue ≤ w.max_queue)

  put-IsBounded :
      (job : Job F) (w : Worker F T) → is_full w ≡ false → IsBounded w → IsBounded (put job w)
  put-IsBounded job w room (inl free) = inl free
  put-IsBounded job w room (inr bound) = ground (arith, length-append w.queue (job ∷ []))

  anchor_one_queue :
      (answers : Answers) (r : AuditRecord F) (asset : Option String) (w : Worker F T)
      → ((anchor_one codec answers r asset w).queue ≡ w.queue)
        × ((anchor_one codec answers r asset w).max_queue ≡ w.max_queue)
  unfolding anchor_one
  anchor_one_queue answers r asset w = elim (Result-cases answers.anchored) [
    | inr (e, failed) ↦ rw (anchor_one, failed) (refl, refl)
    | inl (result, anchored) ↦ elim (Option-cases answers.write_error) [
      | inl written ↦ rw (anchor_one, anchored, written) (refl, refl)
      | inr (e, failed) ↦ rw (anchor_one, anchored, failed) (refl, refl)
    ]
  ]

  handle_queue :
      (answers : Answers) (job : Job F) (w : Worker F T)
      → ((handle codec answers job w).queue ≡ w.queue)
        × ((handle codec answers job w).max_queue ≡ w.max_queue)
  handle_queue answers pill w = (refl, refl)
  handle_queue answers (anchoring r asset) w = anchor_one_queue answers r asset w

  -- The item that an event puts on the queue, and the one that it takes.
  abbrev pub put_by : Event F → Worker F T → List (Job F)
  put_by (submitted r asset) w = if is_full w then [] else anchoring r asset ∷ []
  put_by closing w = if is_full w then [] else pill ∷ []
  put_by (turn answers) w = []

  abbrev pub taken_by : Event F → Worker F T → List (Job F)
  taken_by (submitted r asset) w = []
  taken_by closing w = []
  taken_by (turn answers) w = if w.stopped then [] else take 1 w.queue

  abbrev pub all_put : List (Event F) → Worker F T → List (Job F)
  all_put [] w = []
  all_put (e ∷ es) w = put_by e w ++ all_put es (react codec e w)

  abbrev pub all_taken : List (Event F) → Worker F T → List (Job F)
  all_taken [] w = []
  all_taken (e ∷ es) w = taken_by e w ++ all_taken es (react codec e w)

  react_order :
      (e : Event F) (w : Worker F T)
      → w.queue ++ put_by e w ≡ taken_by e w ++ (react codec e w).queue
  unfolding react submit close
  react_order (submitted r asset) w = elim (Bool-cases (is_full w)) [
    | inl full ↦ rw (submit, full) (append-nil w.queue)
    | inr room ↦ rw (submit, room) refl
  ]
  react_order closing w = elim (Bool-cases (is_full w)) [
    | inl full ↦ rw (close, full) (append-nil w.queue)
    | inr room ↦ rw (close, room) refl
  ]
  react_order (turn answers) w = elim (Bool-cases w.stopped) [
    | inl over ↦ simp (run_turn, over) (append-nil w.queue)
    | inr going ↦ simp (run_turn, going) (append-nil w.queue ∙ took w.queue refl)
  ]
    where
      took :
          (queue : List (Job F))
          → w.queue ≡ queue
          → queue ≡ take 1 queue ++ (take_job codec answers queue w).queue
      took [] e = sym e
      took (job ∷ jobs) e =
          ap (λ js. job ∷ js) (sym (handle_queue answers job (record w { queue = jobs })).0)

  react-IsBounded : (e : Event F) (w : Worker F T) → IsBounded w → IsBounded (react codec e w)
  unfolding react submit close
  react-IsBounded (submitted r asset) w h = elim (Bool-cases (is_full w)) [
    | inl full ↦ rw (submit, full) h
    | inr room ↦ rw (submit, room) (put-IsBounded (anchoring r asset) w room h)
  ]
  react-IsBounded closing w h = elim (Bool-cases (is_full w)) [
    | inl full ↦ rw (close, full) h
    | inr room ↦ rw (close, room) (put-IsBounded pill w room h)
  ]
  react-IsBounded (turn answers) w h = elim (Bool-cases w.stopped) [
    | inl over ↦ simp (run_turn, over) h
    | inr going ↦ simp (run_turn, going) (took w.queue refl)
  ]
    where
      handled :
          (job : Job F) (w : Worker F T) → IsBounded w → IsBounded (handle codec answers job w)
      handled job w k = elim k [
        | inl free ↦ inl ((handle_queue answers job w).1 ∙ free)
        | inr bound ↦
            inr (rw ((handle_queue answers job w).0, (handle_queue answers job w).1) bound)
      ]

      shorter :
          (jobs : List (Job F))
          → (w.max_queue ≡ 0) ⊎ (suc (length jobs) ≤ w.max_queue)
          → (w.max_queue ≡ 0) ⊎ (length jobs ≤ w.max_queue)
      shorter jobs (inl free) = inl free
      shorter jobs (inr bound) = inr (omega arith)

      took : (queue : List (Job F)) → w.queue ≡ queue → IsBounded (take_job codec answers queue w)
      took [] e = h
      took (job ∷ jobs) e =
          handled job (record w { queue = jobs })
            (shorter jobs (subst (λ q. (w.max_queue ≡ 0) ⊎ (length q ≤ w.max_queue)) e h))

  -- Under any sequence of submissions, closing and turns of the worker thread, whatever the service and
  -- the database answer: the items are taken in the order in which they were put on the queue, none
  -- twice and none lost but those that a full queue refused, and a bounded queue stays in its bound.
  pub react_all_fifo :
      (es : List (Event F)) (w : Worker F T)
      → IsBounded w
      → (w.queue ++ all_put es w ≡ all_taken es w ++ (react_all codec es w).queue)
        × IsBounded (react_all codec es w)
  unfolding react_all
  react_all_fifo [] w h = (append-nil w.queue, h)
  react_all_fifo (e ∷ es) w h =
      let (order, bound) = react_all_fifo es (react codec e w) (react-IsBounded e w h) in
      (
        sym (append_assoc w.queue (put_by e w) (all_put es (react codec e w)))
            ∙ ap (λ js. js ++ all_put es (react codec e w)) (react_order e w)
            ∙ append_assoc (taken_by e w) (react codec e w).queue (all_put es (react codec e w))
            ∙ ap (λ js. taken_by e w ++ js) order
            ∙ sym (
                append_assoc (taken_by e w) (all_taken es (react codec e w))
                  (react_all codec es (react codec e w)).queue),
        bound,
      )
