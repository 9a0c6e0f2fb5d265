-- ===== src/Bulk/Examples.antt =====
-- The theorems on bulk jobs at one job of two recipients, which is cut short after the first.
use text.Mathlib.TextLemmas.{cons-ne-nil}
use wa_gateway.Base.{
  Assoc, String, lookup, ◌++◌, ◌≡◌, ◌≤ℤ◌, refl, arith, true, false, List, [], ◌∷◌, pos, ok, err,
  eqb, if◌then◌else◌, lookup,
}
use wa_gateway.Bulk.{BulkDb, BulkMessage, BulkRequest, JobRow, sent, failed, interrupted}
use wa_gateway.Bulk.Store.{save_job, rows_of_job}
use wa_gateway.Bulk.Load.{load_head}
use wa_gateway.Bulk.Runner.{RunWorld, run, processed, jitter}
use wa_gateway.Bulk.Delay.{jitter_bounds}
use wa_gateway.Bulk.Counts.{Progress, run-Progress}
use wa_gateway.Bulk.Completion.{IsCompleted, outcomes, run_uninterrupted}
use wa_gateway.Bulk.Submit.{
  BulkConfig, Runner, Submitted, start_job, submit, resolve_texts, items_of,
}
use wa_gateway.Bulk.Submitted.{IsReady, submit-IsReady}
use wa_gateway.Bulk.Recover.{RecoveryWorld, resume_interrupted}
use wa_gateway.Bulk.Restarts.{Restart, sent_in_restarts, db_after_restarts, sent_once}
use wa_gateway.Bulk.Started.{AllStartable, resume_interrupted-AllStartable}
use wa_gateway.Bulk.Template.{render_template, replace_all, match_placeholder, span}
use wa_gateway.Bulk.Rendered.{Piece, plain, hole, template_of, filled, render_template_lem}
use wa_gateway.Bulk.Resume.{initial}

jitter_bounds_example :
    (pos 1000 ≤ℤ jitter (3, 7) (pos 1000) (pos 1500))
    × (jitter (3, 7) (pos 1000) (pos 1500) ≤ℤ pos 1500)
jitter_bounds_example = jitter_bounds (3, 7) (pos 1000) (pos 1500) (omega arith)

abbrev delays : BulkConfig
delays = record { min_delay_ms = pos 1000; max_delay_ms = pos 2000 }

abbrev request : BulkRequest
request = record {
  session = "";
  to = "62811111" ∷ "62822222" ∷ [];
  text = "hai";
  template = "";
  messages = [];
  min_delay_ms = pos 0;
  max_delay_ms = pos 0;
}

abbrev idle : Runner
idle = record { jobs = []; db = record { jobs = []; messages = [] } }

abbrev resolved : List BulkMessage
resolved =
    record { to = "62811111"; text = "hai"; vars = [] }
    ∷ record { to = "62822222"; text = "hai"; vars = [] }
    ∷ []

abbrev accepted : Submitted
accepted = start_job delays request "default" "j1" 1000 true idle resolved

submit-accepted : submit delays (λ _. true) "j1" 1000 true request idle ≡ ok accepted
unfolding submit resolve_texts
submit-accepted = refl

submit-IsReady_example : IsReady accepted
submit-IsReady_example =
    submit-IsReady delays (λ _. true) "j1" 1000 true request idle accepted submit-accepted

-- the first send succeeds, the pause after it is cut short
abbrev cut_short : RunWorld
cut_short = record {
  quits = λ n. false;
  sends = λ n it. if eqb n 0 then ok "A1" else err "session is not connected";
  random = λ n. (0, 0);
  wakes = λ n. false;
  writes = λ n. true;
  writes_job = true;
  now = 1010;
}

abbrev undisturbed : RunWorld
undisturbed = record cut_short { wakes = λ n. true }

-- the row of the job, as a restart finds it
abbrev stored : JobRow
stored = record {
  id = "j1";
  session = "default";
  status = interrupted;
  total = 2;
  sent = 1;
  failed = 0;
  started_at = 1000;
  finished_at = 1010;
  min_delay_ms = pos 1000;
  max_delay_ms = pos 2000;
}

accepted-IsReady : IsReady accepted
accepted-IsReady =
    submit-IsReady delays (λ _. true) "j1" 1000 true request idle accepted submit-accepted

run-Progress_example :
    Progress accepted.job
      (run cut_short (pos 1000) (pos 2000) 0 accepted.items (initial accepted)).job
      1
unfolding processed items_of jitter
run-Progress_example =
    run-Progress cut_short (pos 1000) (pos 2000) 0 accepted.items (initial accepted)
      accepted-IsReady.counted accepted-IsReady.ready

sent_then_failed :
    outcomes undisturbed 0 accepted.items
    ≡ record { to = "62811111"; status = sent; message_id = "A1"; error = "" }
      ∷ record {
        to = "62822222";
        status = failed;
        message_id = "";
        error = "session is not connected";
      }
      ∷ []
unfolding outcomes items_of
sent_then_failed = refl

run_uninterrupted_example : IsCompleted undisturbed accepted
run_uninterrupted_example =
    run_uninterrupted delays (λ _. true) "j1" 1000 true request idle accepted submit-accepted
      undisturbed (λ m. refl) (λ m. refl)

abbrev after_first : BulkDb
after_first = (run cut_short (pos 1000) (pos 2000) 0 accepted.items (initial accepted)).db

abbrev again : Restart
again = record { world = undisturbed; writes = true }

sent_once_example :
    record { idx = 0; to = "62811111"; text = "hai" }
      ∷ (sent_in_restarts (again ∷ []) stored after_first
          ++ (load_head (db_after_restarts (again ∷ []) stored after_first) stored).pending)
    ≡ accepted.items
unfolding processed save_job rows_of_job items_of jitter
sent_once_example =
    sent_once delays (λ _. true) "j1" 1000 true request idle accepted submit-accepted refl refl
      cut_short (again ∷ []) stored (λ m. refl) (λ m. refl, tt) refl

abbrev recovery : RecoveryWorld
recovery = record {
  auto_resume = true;
  loads = true;
  quits = λ id. false;
  polls = λ session.
      record { ready = false; late = false; quit = false }
      ∷ record { ready = true; late = false; quit = false }
      ∷ [];
  writes = λ id. true;
  marks = true;
  now = 1100;
}

resume_interrupted-AllStartable_example :
    AllStartable recovery (resume_interrupted recovery (record { jobs = []; db = after_first }))
resume_interrupted-AllStartable_example =
    resume_interrupted-AllStartable recovery (record { jobs = []; db = after_first })

abbrev greeting_pieces : List Piece
greeting_pieces = plain "Hai " ∷ hole " " "nama" "" ∷ plain "!" ∷ hole "" "kode" "" ∷ []

render_template_lem_example :
    render_template (template_of greeting_pieces) (("nama", "Ani") ∷ []) ≡ "Hai Ani!{{kode}}"
unfolding filled lookup
render_template_lem_example = render_template_lem greeting_pieces (("nama", "Ani") ∷ []) (
  (refl, (refl, (refl, (refl, tt)))),
  (
    ((refl, tt), (refl, (refl, (refl, (refl, tt)))), cons-ne-nil "n" "ama", tt),
    ((refl, tt), ((tt, (refl, (refl, (refl, (refl, tt)))), cons-ne-nil "k" "ode", tt), tt)),
  ),
)

abbrev sample_vars : Assoc String
sample_vars = ("nama", "Ani") ∷ ("kode", "7") ∷ []

greeting :
    render_template "Hai {{ nama }}, {{{kode}} {{x y}} {{tak_ada}}!" sample_vars
    ≡ "Hai Ani, {7 {{x y}} {{tak_ada}}!"
unfolding render_template replace_all match_placeholder span lookup
greeting = refl
