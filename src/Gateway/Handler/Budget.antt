-- ===== src/Gateway/Handler/Budget.antt =====
-- internal/gateway/counter.go: `budget`, the seam that every counter sits behind, and
-- `memoryBudget`. The shared counter of internal/gateway/counter_redis.go stands behind it too.
use axigate_finops.Prelude.{ℕ, Bool, false, List, [], ◌++◌, Bytes, str, Float, if◌then◌else◌}
use axigate_finops.Gateway.Control.State.{StopEvent, Controller}
use axigate_finops.Gateway.Control.Admit.{admit_keyed}
use axigate_finops.Gateway.Control.Settle.{record_keyed, release_keyed}
use axigate_finops.Gateway.Control.Operator.{
  note_run, note_key, set_run_cap, resume_run, resume_key, set_killed,
}
use axigate_finops.Gateway.Control.Status.{Status, status}
use axigate_finops.Gateway.Shared.State.{Client, Live, with_counter, still_owing}
use axigate_finops.Gateway.Shared.Calls.{
  Placed, admit_where, record_call, release_call, note_run_tags, note_key_tags,
}
use axigate_finops.Gateway.Shared.Asked.{ask_resume_run, ask_resume_key, ask_run_cap, ask_killed}
use axigate_finops.Gateway.Shared.Status.{SharedStatus, shared_status}

-- `budget`, less `setOnPause`, over what a counter keeps and what its status is. The first
-- argument of an operation is what the clock gives.
pub record Budget (D S T : Type 0) : Type 0 where
  pub noting_run : ℕ → S → Bytes → Bytes → Bytes → Bytes → S
  pub noting_key : ℕ → S → Bytes → Bytes → Bytes → Bytes → S
  pub admitting : ℕ → S → Bytes → Bytes → Bool → Placed × S
  pub recording : ℕ → S → Bytes → Bytes → D → Bool → Bytes → S
  pub releasing : ℕ → S → Bytes → Bytes → Bytes → S
  pub capping : ℕ → S → Bytes → D → S
  pub resuming_run : ℕ → S → Bytes → Bool × S
  pub resuming_key : ℕ → S → Bytes → Bool × S
  pub killing : ℕ → S → Bool → S
  pub reporting : ℕ → S → T × S
  pub pending : S → Bool
  pub mode : S → Bytes

-- The controller, and the stops that its hook was called with.
abbrev pub Memory : Type 0 → Type 0
Memory D = Controller D × List (StopEvent D)

abbrev pub handed_out : {D : Type 0} → Memory D → List (StopEvent D) → Controller D → Memory D
handed_out s async c = (c, s.1 ++ async)

module _ {D : Type 0} ⦃f : Float D⦄ where
  unfoldable pub memory_admit : ℕ → Memory D → Bytes → Bytes → Bool → Placed × Memory D
  memory_admit now s run key bypass =
      let (answer, sync, async, c) = admit_keyed s.0 now run key bypass in
      ((answer.0, answer.1, []), handed_out s async c)

  unfoldable pub memory_record : ℕ → Memory D → Bytes → Bytes → D → Bool → Bytes → Memory D
  memory_record now s run key cost loop where' =
      let (sync, async, c) = record_keyed s.0 now run key cost loop in handed_out s async c

  -- `memoryBudget`
  unfoldable pub memory_budget : Budget D (Memory D) (Status D)
  memory_budget = record {
    noting_run = λ now s run agent team model. (note_run s.0 run agent team model, s.1);
    noting_key = λ now s key agent team model. (note_key s.0 now key agent team model, s.1);
    admitting = memory_admit;
    recording = memory_record;
    releasing = λ now s run key where'. (release_keyed s.0 run key, s.1);
    capping = λ now s run cap. (set_run_cap s.0 now run cap, s.1);
    resuming_run = λ now s run. let (ok, c) = resume_run s.0 run in (ok, (c, s.1));
    resuming_key = λ now s key. let (ok, c) = resume_key s.0 key in (ok, (c, s.1));
    killing = λ now s on. (set_killed s.0 on, s.1);
    reporting = λ now s. (status s.0 now, s);
    pending = λ s. false;
    mode = λ s. [];
  }

module _ {D W : Type 0} ⦃f : Float D⦄ (client : Client W) where
  -- The shared counter behind the seam.
  unfoldable pub shared_budget : Budget D (Live D W) (SharedStatus D)
  shared_budget = record {
    noting_run =
        λ now l run agent team model. with_counter l (note_run_tags l.counter run agent team model);
    noting_key = λ now l key agent team model.
        with_counter l (note_key_tags l.counter now key agent team model);
    admitting = admit_where client;
    recording = λ now l run key cost loop where'. record_call client now l run key cost loop where';
    releasing = λ now l run key where'. release_call client now l run key where';
    capping = λ now l run cap. ask_run_cap client now l run cap;
    resuming_run = λ now l run. ask_resume_run client now l run;
    resuming_key = λ now l key. ask_resume_key client now l key;
    killing = λ now l on. ask_killed client now l on;
    reporting = λ now l. shared_status client now l;
    pending = λ l. still_owing l.counter;
    mode = λ l. if l.counter.degraded then str "local" else str "shared";
  }
