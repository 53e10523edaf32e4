-- ===== src/Worker/Runner/Busy.antt =====
-- A worker that holds its task, through its own calls, whatever the network does to them.
use el_pulpo_ai.Prelude.{ℕ, String, str_eq, true, false, ◌≡◌, refl, none, some}
use el_pulpo_ai.Store.Row.{Task, in_progress, completed}
use el_pulpo_ai.Store.Query.{find_task}
use el_pulpo_ai.Store.Lifecycle.{non_empty}
use el_pulpo_ai.Store.Lifecycle.Owner.{Holds}
use el_pulpo_ai.Store.Lifecycle.Replies.{progress_accepted, success_accepted}
use el_pulpo_ai.Store.Logs.Append.{Answers, append_accepted}
use el_pulpo_ai.Grpc.Status.{Mastermind, UuidCodec, Reply}
use el_pulpo_ai.Grpc.Server.{serve_update_progress, serve_report_result, serve_append_log}
use el_pulpo_ai.Worker.Client.{
  Fate, answered, request_lost, reply_lost, Trip, ClientTask, rpc, mark_finalized, client_progress,
  client_append_log, client_end, end_marked, end_rpc, completing,
}

-- The database answers every statement of a call, which may be lost all the same.
abbrev pub Runs : Trip → Type 0
Runs x = (n : ℕ) → x.env.answers n ≡ true

all_answer : (x : Trip) → Runs x → Answers x.env
all_answer x up = record {
  begun = up 0;
  selected = up 1;
  inserted = up 2;
  updated = up 3;
  committed = up 4;
}

-- The task i is held by w.
pub record Busy (w : String) (i : ℕ) (s : Mastermind) : Type 0 where
  pub row : Task
  pub there : find_task i s.db.tasks ≡ some row
  pub held : Holds w row

-- The task i is completed by w.
pub record Done (w : String) (i : ℕ) (s : Mastermind) : Type 0 where
  pub row : Task
  pub there : find_task i s.db.tasks ≡ some row
  pub is_completed : row.status ≡ completed
  pub owner : row.claimed_by ≡ some w

-- Whatever others do there, the task that w holds stays held.
abbrev pub Keeps : String → (Mastermind → Mastermind) → Type 0
Keeps w f = (i : ℕ) (s : Mastermind) → Busy w i s → Busy w i (f s)

module _ (u : UuidCodec) (w : String) (i : ℕ) (t : ClientTask) (named : str_eq w "" ≡ false)
    (by : t.worker_id ≡ w) (parses : u.parse t.id ≡ some i) where
  through :
      {A : Type 0} (f : Fate) (call : Mastermind → Mastermind × Reply A) (s : Mastermind)
      → Busy w i s
      → Busy w i (call s).0
      → Busy w i (rpc f call s).0
  unfolding rpc
  through answered call s b c = record { row = c.row; there = c.there; held = c.held }
  through request_lost call s b c = b
  through reply_lost call s b c = c

  pub progress-Busy :
      (x : Trip) (note : String) (s : Mastermind)
      → Runs x
      → Busy w i s
      → Busy w i (client_progress u x t note s).0
  unfolding client_progress serve_update_progress
  progress-Busy x note s up b = through x.fate _ s b (
      rw (by, named, parses)
        (record {
          row = record b.row {
            progress_note = non_empty note;
            last_heartbeat_at = some x.env.now;
            status = in_progress;
            updated_at = x.env.now;
          };
          there = (progress_accepted x.env w i s.db (up 0) b.row b.there b.held note).1;
          held = (b.held.0, refl);
        }))

  pub log-Busy :
      (x : Trip) (message : String) (s : Mastermind)
      → str_eq message "" ≡ false
      → Runs x
      → Busy w i s
      → Busy w i (client_append_log u x t message s).0
  unfolding client_append_log serve_append_log
  log-Busy x message s full up b = through x.fate _ s b (
      rw (by, named, full, parses)
        (record {
          row = record b.row {
            last_heartbeat_at = some x.env.now;
            status = in_progress;
            updated_at = x.env.now;
          };
          there = (append_accepted x.env w i message s.db b.row (all_answer x up) b.there b.held).3;
          held = (b.held.0, refl);
        }))

  pub completed_lem :
      (z : Trip) (s : Mastermind)
      → t.finalized ≡ false
      → z.fate ≡ answered
      → Runs z
      → Busy w i s
      → Done w i (client_end u z completing t s).0
  unfolding client_end end_marked end_rpc mark_finalized rpc serve_report_result
  completed_lem z s fresh arrives up h =
      rw (fresh, arrives, by, parses)
        (record {
          row = record h.row {
            status = completed;
            completed_at = some z.env.now;
            last_error = none;
            updated_at = z.env.now;
          };
          there = (success_accepted z.env w i s.db (up 0) h.row h.there h.held "").1;
          is_completed = refl;
          owner = h.held.0;
        })
