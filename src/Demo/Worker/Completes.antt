-- ===== src/Demo/Worker/Completes.antt =====
-- The tasks that the demo's worker completes.
use Prim.Native.Nat.{◌%◌}
use text.Mathlib.TextLemmas.{cons-append, cons≢nil}
use el_pulpo_ai.Prelude.{
  ℕ, zero, suc, ◌+◌, ℤ, pos, ltb_ℤ, String, str_eq, Bool, true, false, ◌≡◌, refl, sym, ap, ◌∙◌,
  filled, some, arith,
}
use el_pulpo_ai.Store.Row.{Task, completed, is_held}
use el_pulpo_ai.Store.Query.{find_task}
use el_pulpo_ai.Store.Query.Laws.{Unique}
use el_pulpo_ai.Grpc.Status.{Mastermind, UuidCodec}
use el_pulpo_ai.Worker.Client.{
  Answer, got, error, answered, Trip, ClientTask, start_heartbeat, client_claim,
}
use el_pulpo_ai.Worker.State.Idle.{claim_Held, claimed_handle}
use el_pulpo_ai.Demo.Worker.{
  Beat, WorkDraw, ◌<>◌, step_note, beat_line, beat, run_beats, finish_task, finish_if_alive,
  run_one_task, demo_claimed, demo_turn,
}
use el_pulpo_ai.Worker.Runner.Busy.{Runs, Busy, Keeps, progress-Busy, log-Busy, Done, completed_lem}

step_text : (x y : String) → str_eq (("step " <> x) <> y) "" ≡ false
step_text x y = filled _ (λ e.
    cons≢nil {x = "s"} {xs = ("tep " <> x) <> y} (
      sym (cons-append "s" ("tep " <> x) y)
      ∙ ap (λ z. z <> y) (sym (cons-append "s" "tep " x))
      ∙ e))

module _ (u : UuidCodec) (numeral : ℕ → String) (w : String) (i : ℕ) (t : ClientTask)
    (named : str_eq w "" ≡ false) (by : t.worker_id ≡ w) (parses : u.parse t.id ≡ some i) where
  beat-Busy :
      (k steps : ℕ) (b : Beat) (s : Mastermind)
      → Runs b.note_trip
      → Runs b.log_trip
      → Keeps w b.after_note
      → Keeps w b.after_log
      → Busy w i s
      → Busy w i (beat u numeral t k steps b s)
  unfolding beat step_note beat_line
  beat-Busy k steps b s up up' calm calm' h =
      let note = step_note u numeral k steps b.phase in
      calm' i _ (
        log-Busy u w i t named by parses b.log_trip (beat_line u numeral note b.detail) _
          (step_text _ _) up'
          (calm i _ (progress-Busy u w i t named by parses b.note_trip note s up h)))

  -- The rounds that are left end with the context alive.
  record Through (r : Mastermind × Bool) : Type 0 where
    alive : r.1 ≡ true
    busy : Busy w i r.0

  module _ (beats : ℕ → Beat) (steps : ℕ) (alive : (k : ℕ) → (beats k).alive ≡ true)
      (up : (k : ℕ) → Runs (beats k).note_trip) (up' : (k : ℕ) → Runs (beats k).log_trip)
      (calm : (k : ℕ) → Keeps w (beats k).after_note)
      (calm' : (k : ℕ) → Keeps w (beats k).after_log) where
    beats_lem :
        (n k : ℕ) (s : Mastermind) → Busy w i s → Through (run_beats u numeral t steps k n beats s)
    unfolding run_beats
    beats_lem zero k s h = record { alive = refl; busy = h }
    beats_lem (suc n) k s h = rw (alive k) (
        beats_lem n (suc k) (beat u numeral t k steps (beats k) s)
          (beat-Busy k steps (beats k) s (up k) (up' k) (calm k) (calm' k) h))

  finished_lem :
      (fail_pct : ℤ) (d : WorkDraw) (r : Mastermind × Bool)
      → t.finalized ≡ false
      → ltb_ℤ (pos (d.fails % 100)) fail_pct ≡ false
      → Runs d.log_trip
      → Keeps w d.after_log
      → d.end_trip.fate ≡ answered
      → Runs d.end_trip
      → Through r
      → Done w i (finish_if_alive u numeral fail_pct d t r)
  unfolding finish_if_alive finish_task
  finished_lem fail_pct d (s, alive) fresh luck up calm arrives up' h =
      rw (h.alive, luck)
        (completed_lem u w i t named by parses d.end_trip _ fresh arrives up'
          (calm i _ (log-Busy u w i t named by parses d.log_trip "done" s refl up h.busy)))

module _ (u : UuidCodec) (numeral : ℕ → String) (w : String) (fail_pct : ℤ) (x : Trip)
    (d : WorkDraw) (s : Mastermind) (t : ClientTask) where
  claimed_turn :
      (o : Mastermind × Answer ClientTask)
      → o.1 ≡ got t
      → demo_claimed u numeral fail_pct d o ≡ run_one_task u numeral fail_pct d t o.0
  unfolding demo_claimed
  claimed_turn (s', got a) e =
      let same : a ≡ t = ground arith in ap (λ b. run_one_task u numeral fail_pct d b s') same
  claimed_turn (s', error r) e = cc

  -- On a table with a primary key, a turn of the demo's worker that has claimed a task ends with the
  -- task completed by this worker, whichever of its notes and lines are lost: if it has a name, its
  -- context stays alive, nothing that others do between its calls takes the task from it (so that the
  -- lease does not run out), rand does not make it fail, the report of success is answered, the database
  -- answers the statements of its further calls, and a UUID is read as it is printed.
  pub demo_completes :
      Unique s.db.tasks
      → str_eq w "" ≡ false
      → ((i : ℕ) → u.parse (u.print i) ≡ some i)
      → ((k : ℕ) → (d.beats k).alive ≡ true)
      → ((k : ℕ) → Runs (d.beats k).note_trip)
      → ((k : ℕ) → Runs (d.beats k).log_trip)
      → Keeps w d.at_start
      → ((k : ℕ) → Keeps w (d.beats k).after_note)
      → ((k : ℕ) → Keeps w (d.beats k).after_log)
      → ltb_ℤ (pos (d.fails % 100)) fail_pct ≡ false
      → Runs d.log_trip
      → Keeps w d.after_log
      → d.end_trip.fate ≡ answered
      → Runs d.end_trip
      → (client_claim u x w s).1 ≡ got t
      → (i : ℕ) × (t.id ≡ u.print i)
        × ((row : Task) × (find_task i (demo_turn u numeral fail_pct w x d s).db.tasks ≡ some row)
            × (row.status ≡ completed)
            × (row.claimed_by ≡ some w))
  unfolding demo_turn run_one_task
  demo_completes k named reads alive notes logs first later later' luck up calm arrives up' e =
      let b = start_heartbeat t in
      let h = claim_Held u w x x s b t refl k e in
      let (by, fresh) = claimed_handle u w x x s t e in
      let parses : u.parse b.id ≡ some h.row.id = ap u.parse h.same_id ∙ reads h.row.id in
      let start : Busy w h.row.id (client_claim u x w s).0 = record {
        row = h.row;
        there = h.stored;
        held = (h.owner, ap is_held h.is_claimed);
      } in
      let steps = 3 + d.steps % 4 in
      let done =
        finished_lem u numeral w h.row.id b named by parses fail_pct d _ fresh luck up calm arrives
          up'
          (beats_lem u numeral w h.row.id b named by parses d.beats steps alive notes logs later
            later' steps 1 _ (first h.row.id _ start)) in
      (
        h.row.id,
        h.same_id,
        (
          done.row,
          ap (λ (q : Mastermind). find_task h.row.id q.db.tasks)
                (claimed_turn (client_claim u x w s) e)
              ∙ done.there,
          done.is_completed,
          done.owner,
        ),
      )
