-- ===== src/Demo/Seeder.antt =====
-- The seeder, runSeeder of cmd/demo/main.go: a first batch of tasks, and one after each tick of its timer.
-- What rand gives is an argument of each task; a tick is given what its calls meet.
pub mod Refused
use Prim.Native.Nat.{◌%◌}
use el_pulpo_ai.Prelude.{
  ℕ, zero, suc, ◌+◌, ◌-◌, ◌*◌, ℤ, pos, pos_part, String, str_eq, Bool, ltb, leb, Option, none, some,
  List, [], ◌∷◌, length, if◌then◌else◌,
}
use el_pulpo_ai.Grpc.Status.{Code, Reply, response, failure, Mastermind}
use el_pulpo_ai.Grpc.Admin.{CreateTaskRequest}
use el_pulpo_ai.Gateway.{Libraries, TokenConfig, RpcAnswer, page, rpc_create_task, rpc_list_tasks}
use el_pulpo_ai.Worker.Client.{Trip}
use el_pulpo_ai.Gateway.Remote.{admin_call}
use el_pulpo_ai.Cli.Numbers.{to_int32}

abbrev larger : ℕ → ℕ → ℕ
larger a b = if leb a b then b else a

abbrev smaller : ℕ → ℕ → ℕ
smaller a b = if leb a b then a else b

abbrev task_names : List String
task_names =
    "classify-support-tickets" ∷ "summarize-call-transcripts" ∷ "extract-invoice-line-items"
    ∷ "embed-product-catalog-delta" ∷ "translate-fr-en-doc-set" ∷ "image-moderation-sweep"
    ∷ "generate-weekly-report-draft" ∷ "sentiment-scoring-run" ∷ "ocr-receipts-batch"
    ∷ "rerank-search-results" ∷ "deduplicate-customer-records" ∷ "render-pdf-statements" ∷ []

-- No index of a task is out of range.
unfoldable pub name_at : ℕ → List String → String
name_at i [] = ""
name_at zero (s ∷ names) = s
name_at (suc i) (s ∷ names) = name_at i names

-- What rand gives for a task, any number for IntN(n), which leaves its remainder by n; and what the call meets.
pub record SeedDraw : Type 0 where
  pub name : ℕ
  pub skew : ℕ
  pub level : ℕ
  pub size : ℕ
  pub seed : ℕ
  pub trip : Trip

unfoldable pub random_priority : ℕ → ℕ → ℕ
random_priority r level =
    if ltb r 50 then level % 3 else (if ltb r 85 then 3 + level % 4 else 7 + level % 4)

unfoldable pub random_task : SeedDraw → String × ℕ
unfolding name_at random_priority
random_task d = (name_at (d.name % 12) task_names, random_priority (d.skew % 100) d.level)

pub data JsonValue : Type 0 where
  json_text : String → JsonValue
  json_number : ℕ → JsonValue

unfoldable pub seed_payload : SeedDraw → String → List (String × JsonValue)
seed_payload d name =
    ("kind", json_text name)
    ∷ ("size", json_number (suc (d.size % 500)))
    ∷ ("seed", json_number d.seed)
    ∷ ("source", json_text "demo-seeder")
    ∷ []

-- `encode` is json.Marshal of a map.
unfoldable pub seed_request : (List (String × JsonValue) → String) → SeedDraw → CreateTaskRequest
unfolding random_task to_int32 seed_payload
seed_request encode d =
    let (name, prio) = random_task d in
    record {
      name = name;
      payload = encode (seed_payload d name);
      priority = to_int32 (pos prio);
      max_attempts = pos 3;
      scheduled_for = none;
      jira_url = "";
      github_pr_url = "";
    }

-- The first error ends a batch.
abbrev pub continue :
    (Mastermind → Mastermind × Option Code)
    → Mastermind × Reply RpcAnswer
    → Mastermind × Option Code
continue next (s, response a) = next s
continue next (s, failure c) = (s, some c)

abbrev item_count : RpcAnswer → ℕ
item_count (page p) = length p.items
item_count _ = 0

abbrev pub counted : Mastermind × Reply RpcAnswer → Mastermind × Reply ℕ
counted (s, response a) = (s, response (item_count a))
counted (s, failure c) = (s, failure c)

-- min(max(target-pending, burst), 6). `for range` makes no round for a negative number, so that the
-- positive parts decide.
unfoldable pub needed : ℤ → ℤ → ℕ → ℕ
needed burst target pending = smaller (larger (pos_part target - pending) (pos_part burst)) 6

-- ADMIN_TOKEN, SEEDER_BURST and SEEDER_TARGET_BACKLOG.
pub record SeederConfig : Type 0 where
  pub admin_token : String
  pub burst : ℤ
  pub target : ℤ

-- A tick: what the listing meets, and the tasks.
pub record SeederTick : Type 0 where
  pub listing : Trip
  pub draws : ℕ → SeedDraw

module _ (encode : List (String × JsonValue) → String) (lib : Libraries) (tokens : TokenConfig)
    (cfg : SeederConfig) where
  unfoldable pub seed_batch : ℕ → (ℕ → SeedDraw) → Mastermind → Mastermind × Option Code
  unfolding seed_request admin_call
  seed_batch zero draws s = (s, none)
  seed_batch (suc n) draws s = continue (seed_batch n (λ k. draws (suc k))) (
      admin_call lib tokens cfg.admin_token (draws 0).trip
        (rpc_create_task (seed_request encode (draws 0))) s)

  unfoldable pub count_pending : Trip → Mastermind → Mastermind × Reply ℕ
  unfolding admin_call
  count_pending x s =
      counted
        (admin_call lib tokens cfg.admin_token x (rpc_list_tasks (pos 200) (pos 0) "pending") s)

  -- A tick whose listing fails does nothing.
  unfoldable pub refill : (ℕ → SeedDraw) → Mastermind × Reply ℕ → Mastermind
  unfolding seed_batch needed
  refill draws (s, failure c) = s
  refill draws (s, response pending) = (seed_batch (needed cfg.burst cfg.target pending) draws s).0

  unfoldable pub seeder_tick : SeederTick → Mastermind → Mastermind
  unfolding refill count_pending
  seeder_tick t s = refill t.draws (count_pending t.listing s)

  unfoldable pub seeder_ticks : List SeederTick → Mastermind → Mastermind
  unfolding seeder_tick
  seeder_ticks [] s = s
  seeder_ticks (t ∷ rest) s = seeder_ticks rest (seeder_tick t s)

  -- The first batch, whose error is only logged, and then the ticks.
  unfoldable pub run_seeder : (ℕ → SeedDraw) → List SeederTick → Mastermind → Mastermind
  unfolding seed_batch seeder_ticks
  run_seeder draws ticks s = seeder_ticks ticks (seed_batch (pos_part cfg.burst * 2) draws s).0
