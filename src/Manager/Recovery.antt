-- ===== src/Manager/Recovery.antt =====
-- The recovery at the start of the process: no run is left active.
use mathlib.Core.List.{Memᴰ}
use mathlib.Core.List.Memᴰ.{not-nil, cases_cons}
use mathlib.Core.Path.{sym, ap, subst, ◌∙◌}
use smart_class_agent.Common.{
  ℕ, suc, ◌<◌, String, ◌≡◌, ◌≢◌, ◌⊎◌, refl, true, false, Option, none, some, List, [], ◌∷◌, Text,
  arith, str_eq, eq_iff, Result, ok, err, Option-cases, Result-cases, Bool-cases, inl, inr, ltb,
}
use smart_class_agent.Common.Rows.{mem-first, first-some}
use smart_class_agent.Run.{
  AgentRun, Database, RunStatus, Ending, is_finished, is_active, get_chat_run, list_stale_chat_runs,
  finalize_chat_run,
}
use smart_class_agent.Run.Lifecycle.{ended, finalize_chat_run_effect, finalize_chat_run_again}
use smart_class_agent.Run.Exclusive.{finalized}
use smart_class_agent.Run.Stale.{active_run-stale}
use smart_class_agent.Run.Rows.{RowsAreValid, found-RowIsValid, Step-RowsAreValid}
use smart_class_agent.Events.Store.{Redis, Payload}
use smart_class_agent.Events.Transport.{
  Options, append_done, get_snapshot, execute, terminal_reply, operation_failed,
}
use smart_class_agent.Events.Scripts.{Terminal, inconsistent, already_there, written}
use smart_class_agent.Manager.{
  Circumstances, ManagerError, swallow, World, announce, commit_ending, close_stream, reconcile,
  reconcile_all, start,
}

abbrev pub IsIdle : Database → String → Type 0
IsIdle db run_id =
    (run : AgentRun) → get_chat_run db run_id ≡ some run → is_active run.status ≡ false

found-IsIdle :
    (db : Database) (run_id : String) (run : AgentRun)
    → get_chat_run db run_id ≡ some run
    → is_finished run.status ≡ true
    → IsIdle db run_id
found-IsIdle db run_id run found over r f = ground (arith, found, f, over)

str_eq-eq : (a b : String) → str_eq a b ≡ true → a ≡ b
str_eq-eq a b h = ground (arith, eq_iff a b)

str_eq-ne : (a b : String) → str_eq a b ≡ false → a ≢ b
str_eq-ne a b h = ground (arith, eq_iff a b)

-- The start finds every run that is not idle.
found_or_listed :
    (db : Database) (id : String)
    → IsIdle db id ⊎ ((run : AgentRun) × Memᴰ run (list_stale_chat_runs db) × (run.run_id ≡ id))
unfolding get_chat_run
found_or_listed db id = elim (Option-cases (get_chat_run db id)) [
  | inl missing ↦ inl (λ run f. ground (arith, missing, f))
  | inr (run, found) ↦ elim (Bool-cases (is_active run.status)) [
    | inr calm ↦ inl (λ r f. ground (arith, found, f, calm))
    | inl live ↦ inr (
      run,
      active_run-stale db run live (mem-first _ db.runs found),
      str_eq-eq run.run_id id (first-some _ db.runs run found).1,
    )
  ]
]

module _ (R : Redis) (options : Options) (done_payload : String → RunStatus → Payload) where
  -- No reply of the terminal script makes the announcement raise.
  swallow-terminal :
      (reply : Option Terminal)
      → swallow
          (terminal_reply R options (elim reply [ some a ↦ ok a | none ↦ err operation_failed ]))
        ≡ ok tt
  unfolding terminal_reply
  swallow-terminal none = refl
  swallow-terminal (some inconsistent) = refl
  swallow-terminal (some already_there) = refl
  swallow-terminal (some written) = refl

  announce-ok :
      (c : Circumstances) (run_id : String) (run : AgentRun) (w : World R)
      → 0 < run.last_event_sequence
      → (announce R options done_payload c run_id run w).1 ≡ ok tt
  unfolding announce append_done execute
  announce-ok c run_id run w positive =
      let numbered : ltb run.last_event_sequence 1 ≡ false = ground arith in
      rw numbered (swallow-terminal _)

  module _ (c : Circumstances) (e : Ending) (w : World R) (valid : is_finished e.status ≡ true)
      (h : RowsAreValid w.db) where
    record Recovered (r : World R × Result ManagerError (Option AgentRun)) : Type 0 where
      answered : (o : Option AgentRun) × (r.1 ≡ ok o)
      rows : RowsAreValid r.0.db
      idle : IsIdle r.0.db e.run_id
      others : (id : String) → IsIdle w.db id → IsIdle r.0.db id

    commit_ending-Recovered : Recovered (commit_ending R options done_payload c e w)
    unfolding commit_ending announce
    commit_ending-Recovered = elim (Option-cases (get_chat_run w.db e.run_id)) [
      | inl missing ↦
          let same : finalize_chat_run w.db e ≡ ok (w.db, none) =
            unfold finalize_chat_run in rw (valid, missing) refl in
          rw (commit_ending, same)
            (record {
              answered = (none, refl);
              rows = h;
              idle = λ run f. ground (arith, missing, f);
              others = λ id i. i;
            })
      | inr (run, found) ↦ elim (Bool-cases (is_finished run.status)) [
        | inl over ↦
            let same = finalize_chat_run_again w.db e valid run found over in
            let row = found-RowIsValid w.db e.run_id run h found in
            let said = announce-ok c e.run_id run w (row.numbered over) in
            rw (commit_ending, same, said)
              (record {
                answered = (some run, refl);
                rows = h;
                idle = found-IsIdle w.db e.run_id run found over;
                others = λ id i. i;
              })
        | inr open' ↦
            let (db', made, stored, others, _, _) =
              finalize_chat_run_effect w.db e valid run found open' in
            let said =
              announce-ok c e.run_id (ended w.db e valid run) (record w { db = db' })
                (omega arith) in
            let idle = found-IsIdle db' e.run_id (ended w.db e valid run) stored valid in
            rw (commit_ending, made, said)
              (record {
                answered = (some (ended w.db e valid run), refl);
                rows =
                    Step-RowsAreValid w.db db' (finalized e (some (ended w.db e valid run)) made) h;
                idle = idle;
                others = λ id i. elim (Bool-cases (str_eq id e.run_id)) [
                  | inl same ↦ subst (IsIdle db') (sym (str_eq-eq id e.run_id same)) idle
                  | inr apart ↦ λ r f. i r (sym (others id (str_eq-ne id e.run_id apart)) ∙ f)
                ];
              })
      ]
    ]

  module _ (message : String → Text → Payload) (stale : Text) where
    close_stream-db :
        (c : Circumstances) (run : AgentRun) (w : World R)
        → (close_stream R options done_payload message stale c run w).0.db ≡ w.db
    unfolding close_stream
    close_stream-db c run w =
        elim (Result-cases (get_snapshot R options c.snapshot_network (w.keys run.run_id))) [
          | inl (snapshot, e) ↦ rw (close_stream, e) refl
          | inr (lost, e) ↦ rw (close_stream, e) refl
        ]

    -- A round succeeds, ends its run and keeps the idle ones idle.
    reconcile-IsIdle :
        (c : Circumstances) (run : AgentRun) (w : World R)
        → RowsAreValid w.db
        → let r = reconcile R options done_payload message stale c run w in
          ((o : Option AgentRun) × (r.1 ≡ ok o))
          × RowsAreValid r.0.db
          × IsIdle r.0.db run.run_id
          × ((id : String) → IsIdle w.db id → IsIdle r.0.db id)
    unfolding reconcile
    reconcile-IsIdle c run w h =
        let same = close_stream-db c run w in
        let step =
          commit_ending-Recovered c _ (close_stream R options done_payload message stale c run w).0
            refl (rw same h) in
        (step.answered, step.rows, step.idle, λ id idle. step.others id (rw same idle))

    -- What the rounds leave: every run that was idle, or that had its round, is idle.
    reconcile_all-IsIdle :
        (cs : ℕ → Circumstances) (i : ℕ) (runs : List AgentRun) (w : World R)
        → RowsAreValid w.db
        → let r = reconcile_all R options done_payload message stale cs i runs w in
          (r.1 ≡ ok tt)
          × ((id : String)
              → IsIdle w.db id ⊎ ((run : AgentRun) × Memᴰ run runs × (run.run_id ≡ id))
              → IsIdle r.0.db id)
    unfolding reconcile_all
    reconcile_all-IsIdle cs i [] w h =
        (refl, λ id o. elim o [ inl idle ↦ idle | inr (run, m, e) ↦ absurd (not-nil m) ])
    reconcile_all-IsIdle cs i (run ∷ runs) w h =
        let ((o, answered), rows, idle, others) = reconcile-IsIdle (cs i) run w h in
        let w' = (reconcile R options done_payload message stale (cs i) run w).0 in
        let (done', rest) = reconcile_all-IsIdle cs (suc i) runs w' rows in
        rw (reconcile_all, answered)
          (
            done',
            λ id o'. elim o' [
              | inl was ↦ rest id (inl (others id was))
              | inr (r, m, e) ↦ elim (cases_cons m) [
                | inl here ↦
                    rest id (inl (subst (IsIdle w'.db) (ap AgentRun.run_id (sym here) ∙ e) idle))
                | inr there ↦ rest id (inr (r, there, e))
              ]
            ],
          )

    -- From rows that agree with their statuses, whatever calls of the event store fail: the start
    -- raises nothing, and no run that is found by its identifier afterwards is active.
    pub start-IsIdle :
        (cs : ℕ → Circumstances) (w : World R)
        → RowsAreValid w.db
        → let r = start R options done_payload message stale cs w in
          (r.1 ≡ ok tt) × ((id : String) → IsIdle r.0.db id)
    unfolding start
    start-IsIdle cs w h =
        let (done', rest) = reconcile_all-IsIdle cs 0 (list_stale_chat_runs w.db) w h in
        (done', λ id. rest id (found_or_listed w.db id))
