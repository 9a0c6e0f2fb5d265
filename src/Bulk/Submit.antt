-- ===== src/Bulk/Submit.antt =====
-- submit of internal/gateway/bulk.go, with cleanupLocked: from a request to a registered job. The
-- known sessions, the new job's number, the time and the database's answer are arguments.
use wa_gateway.Base.{
  ℕ, suc, ◌-◌, String, Bool, not, ◌&&◌, ◌==◌, List, [], ◌∷◌, Option, none, some, ℤ, pos, ltb, ltb_ℤ,
  eqb_ℤ, true, false, if◌then◌else◌, Result, ok, err, ◌>>=◌, Assoc, insert, length,
}
use wa_gateway.Bulk.{
  BulkMessage, BulkRequest, BulkResult, BulkJob, BulkItem, BulkDb, pending, running, is_running,
}
use wa_gateway.Bulk.Store.{save_job}
use wa_gateway.Bulk.Template.{render_template}

pub data SubmitError : Type 0 where
  session_not_found no_recipients : SubmitError
  -- the number of the recipient, counted from 1
  empty_to no_message : ℕ → SubmitError

pub record BulkConfig : Type 0 where
  pub min_delay_ms : ℤ
  pub max_delay_ms : ℤ

pub record Runner : Type 0 where
  pub jobs : Assoc BulkJob
  pub db : BulkDb

-- What submit hands to the goroutine that runs the job.
pub record Submitted : Type 0 where
  pub job : BulkJob
  pub items : List BulkItem
  pub messages : List BulkMessage
  pub min_d : ℤ
  pub max_d : ℤ
  pub saved : Bool
  pub runner : Runner

abbrev pub addressed : List String → List BulkMessage
addressed [] = []
addressed (to ∷ rest) = record { to = to; text = ""; vars = [] } ∷ addressed rest

abbrev pub recipients : BulkRequest → List BulkMessage → List BulkMessage
recipients req [] = addressed req.to
recipients req (m ∷ msgs) = m ∷ msgs

-- message.text, else the template with the message's vars, else request.text
abbrev pub resolve_text : BulkRequest → BulkMessage → String
resolve_text req m =
    let rendered =
      if m.text == "" && not (req.template == "")
      then render_template req.template m.vars
      else m.text in
    if rendered == "" then req.text else rendered

unfoldable pub resolve_texts :
    BulkRequest → ℕ → List BulkMessage → Result SubmitError (List BulkMessage)
resolve_texts req i [] = ok []
resolve_texts req i (m ∷ msgs) =
    let rest = resolve_texts req (suc i) msgs in
    if m.to == ""
    then err (empty_to (suc i))
    else if resolve_text req m == ""
    then err (no_message (suc i))
    else (rest >>= λ out. ok (record m { text = resolve_text req m } ∷ out))

abbrev pub min_delay : BulkConfig → BulkRequest → ℤ
min_delay cfg req =
    if eqb_ℤ req.min_delay_ms (pos 0)
    then cfg.min_delay_ms
    else if ltb_ℤ req.min_delay_ms (pos 0)
    then pos 0
    else req.min_delay_ms

abbrev pub max_delay : BulkConfig → BulkRequest → ℤ
max_delay cfg req =
    let max_d = if eqb_ℤ req.max_delay_ms (pos 0) then cfg.max_delay_ms else req.max_delay_ms in
    if ltb_ℤ max_d (min_delay cfg req) then min_delay cfg req else max_d

abbrev pub pending_results_of : List BulkMessage → List BulkResult
pending_results_of [] = []
pending_results_of (m ∷ msgs) =
    record { to = m.to; status = pending; message_id = ""; error = "" } ∷ pending_results_of msgs

unfoldable pub items_of : ℕ → List BulkMessage → List BulkItem
items_of i [] = []
items_of i (m ∷ msgs) = record { idx = i; to = m.to; text = m.text } ∷ items_of (suc i) msgs

abbrev pub new_job : String → String → ℕ → List BulkMessage → BulkJob
new_job id session now msgs = record {
  id = id;
  session = session;
  status = running;
  total = length msgs;
  sent = 0;
  failed = 0;
  started_at = now;
  finished_at = 0;
  results = pending_results_of msgs;
}

-- cleanupLocked: finished jobs older than an hour leave the memory
unfoldable pub cleanup : ℕ → Assoc BulkJob → Assoc BulkJob
cleanup now [] = []
cleanup now ((id, j) ∷ jobs) =
    let rest = cleanup now jobs in
    if not (is_running j.status) && ltb 0 j.finished_at && ltb j.finished_at (now - 3600)
    then rest
    else (id, j) ∷ rest

abbrev pub is_saved : Option BulkDb → Bool
is_saved none = false
is_saved (some db) = true

-- a transaction that fails leaves the database, and the job goes on in memory
abbrev pub db_after : Option BulkDb → BulkDb → BulkDb
db_after none old = old
db_after (some db) old = db

-- what is done once the texts are resolved
abbrev pub start_job :
    BulkConfig → BulkRequest → String → String → ℕ → Bool → Runner → List BulkMessage → Submitted
start_job cfg req session id now commits b msgs =
    let job = new_job id session now msgs in
    let min_d = min_delay cfg req in
    let max_d = max_delay cfg req in
    let saved = save_job commits job msgs min_d max_d b.db in
    record {
      job = job;
      items = items_of 0 msgs;
      messages = msgs;
      min_d = min_d;
      max_d = max_d;
      saved = is_saved saved;
      runner = record { jobs = insert id job (cleanup now b.jobs); db = db_after saved b.db };
    }

abbrev pub no_messages : List BulkMessage → Bool
no_messages [] = true
no_messages (m ∷ msgs) = false

abbrev pub session_of : BulkRequest → String
session_of req = if req.session == "" then "default" else req.session

unfoldable pub submit :
    BulkConfig
    → (String → Bool)
    → String
    → ℕ
    → Bool
    → BulkRequest
    → Runner
    → Result SubmitError Submitted
submit cfg known id now commits req b =
    let session = session_of req in
    let msgs = recipients req req.messages in
    if not (known session)
    then err session_not_found
    else if no_messages msgs
    then err no_recipients
    else (resolve_texts req 0 msgs >>= λ out. ok (start_job cfg req session id now commits b out))
