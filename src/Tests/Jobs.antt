-- ===== src/Tests/Jobs.antt =====
-- Two workers at a table of two jobs: one waits, one is leased to the other worker.
use lidradar.Prelude.{
  ◌+◌, ◌≤◌, ◌≡◌, refl, String, Bool, true, false, str_eq, none, some, ok, List, [], ◌∷◌, arith,
  eq_iff,
}
use lidradar.Time.{pos}
use lidradar.Jobs.Job.{Status, Job, validate}
use lidradar.Jobs.Store.{claim, succeed, leased_row, succeeded_row, claimable, held, enqueue}
use lidradar.Jobs.Store.Rows.{Turn, Rows, Turns, Distinct}
use lidradar.Jobs.Store.History.{
  Life, Operation, History, Kept, live_lease, claims_bounded, Operation-Turns, history_keeps,
  claim_spares_live,
}
use lidradar.Text.{trim_space}
use lidradar.Jobs.Store.Enqueue.{enqueue_again}
use lidradar.Jobs.Worker.{Handled, Handler, Worker, run_one, run_handler}
use lidradar.Jobs.Worker.Laws.{Settles, run_one-Settles}

abbrev is_object : String → Bool
is_object s = str_eq s "{}"

abbrev waiting : Job
waiting = record {
  id = "a";
  tenant_id = "org";
  job_type = "risk.check";
  dedup_key = "k1";
  payload = "{}";
  status = Status.pending;
  priority = pos 0;
  available_at = 5;
  attempt_count = 0;
  max_attempts = 5;
  leased_by = none;
  lease_until = none;
  last_error_code = none;
  completed_at = none;
  created_at = 5;
  updated_at = 5;
}

abbrev busy : Job
busy = record waiting {
  id = "b";
  dedup_key = "k2";
  status = Status.processing;
  attempt_count = 1;
  leased_by = some "second";
  lease_until = some 50;
}

abbrev taken : Job
taken = record waiting {
  status = Status.processing;
  attempt_count = 1;
  leased_by = some "first";
  lease_until = some 40;
  updated_at = 10;
}

abbrev ended : Job
ended = record taken {
  status = Status.succeeded;
  leased_by = none;
  lease_until = none;
  completed_at = some 20;
  updated_at = 20;
}

abbrev table : List Job
table = waiting ∷ busy ∷ []

claimed :
    claim is_object str_eq (λ _. false) "first" 10 40 1 table ≡ ok (taken ∷ busy ∷ [], taken ∷ [])
unfolding claim validate trim_space
claimed = refl

done : succeed "a" "first" 20 (taken ∷ busy ∷ []) ≡ ok (ended ∷ busy ∷ [])
unfolding succeed
done = refl

table-Distinct : Distinct table
table-Distinct = (refl, (refl, tt))

claim_op : Operation is_object str_eq table (taken ∷ busy ∷ [])
claim_op = Operation.claims (λ _. false) "first" 10 40 1 claimed

day : History is_object str_eq table (ended ∷ busy ∷ [])
day =
    History.then_runs (History.then_runs History.starts claim_op)
      (Operation.succeeds "a" "first" 20 done)

Operation-Turns_example : Turns table (taken ∷ busy ∷ []) × Distinct (taken ∷ busy ∷ [])
Operation-Turns_example = Operation-Turns is_object str_eq table-Distinct claim_op

history_keeps_example : Rows Kept table (ended ∷ busy ∷ []) × Distinct (ended ∷ busy ∷ [])
history_keeps_example = history_keeps is_object str_eq table-Distinct day

claim_spares_live_example : Rows (λ j k. live_lease 10 j ≡ true → k ≡ j) table (taken ∷ busy ∷ [])
claim_spares_live_example =
    claim_spares_live is_object str_eq (λ _. false) "first" 10 40 1 table table-Distinct claimed

lease_turn : Turn waiting taken
unfolding claimable leased_row
lease_turn = Turn.is_leased "first" 10 40 refl (omega arith) refl

end_turn : Turn taken ended
unfolding held succeeded_row
end_turn = Turn.succeeds "first" 20 refl refl

life : Life waiting 1 ended
unfolding lease_turn end_turn
life = Life.goes_on (Life.goes_on Life.begins lease_turn) end_turn

claims_bounded_example : (1 ≡ 0 + 1) × (0 + 1 ≤ 5)
claims_bounded_example = claims_bounded {j = waiting} {k = ended} (omega arith) life

enqueued : enqueue is_object str_eq waiting [] ≡ ok (waiting, true, waiting ∷ [])
unfolding enqueue validate trim_space
enqueued = refl

same_text : (s : String) → str_eq s s ≡ true
same_text s = ground (arith, eq_iff s s)

enqueue_again_example :
    enqueue is_object str_eq waiting (waiting ∷ []) ≡ ok (waiting, false, waiting ∷ [])
enqueue_again_example = enqueue_again is_object str_eq waiting [] same_text enqueued

abbrev quiet : Handler
quiet j js = (js, Handled.done)

abbrev worker : Worker
worker = record { owner = "first"; handlers = λ t. some quiet; lease = pos 30 }

run_one-Settles_example :
    Settles 20 taken Handled.done
      (taken ∷ busy ∷ [])
      (run_one is_object str_eq worker (λ _. false) false 10 20 table)
    × ((run_one is_object str_eq worker (λ _. false) true 10 20 table).table ≡ taken ∷ busy ∷ [])
unfolding run_handler lidradar.Tables.find
run_one-Settles_example =
    run_one-Settles is_object str_eq worker (λ _. false) 10 20 table (taken ∷ busy ∷ []) []
      (taken ∷ busy ∷ []) taken Handled.done claimed refl refl (omega arith) (omega arith) tt
