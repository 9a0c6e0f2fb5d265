-- ===== src/Api/Sends.antt =====
-- The handlers of one session (internal/api/server.go): handleQR, handlePair, handleSendText,
-- handleSendMedia with resolveMedia, handleNormalize, handleCheckPhones, handleResolveLID, and those of
-- the bulk jobs. A body is `none` where it is no JSON; of an error's reply the status is kept.
use wa_gateway.Base.{
  ℕ, String, Bool, not, ◌||◌, ◌==◌, List, Option, none, some, ltb, if◌then◌else◌, Result, ok, err,
  Assoc, length, is_empty, map,
}
use wa_gateway.Phone.{PhoneError, normalize_phone}
use wa_gateway.Bulk.{BulkRequest, BulkJob}
use wa_gateway.Bulk.Submit.{BulkConfig, Runner, Submitted, SubmitError, session_not_found, submit}
use wa_gateway.Bulk.Recover.{job, list}
use wa_gateway.Sessions.Shared.{Shared}
use wa_gateway.Sessions.Send.{QuoteRef, MediaInput, SendError}
use wa_gateway.Sessions.Phones.{PhoneCallError, PhoneCheckResult}
use wa_gateway.Api.Sessions.{Reply, replied, refused}
use wa_gateway.Api.Params.{session_name}

-- replyRef and its quote
abbrev pub quote : Option QuoteRef → Option QuoteRef
quote none = none
quote (some q) = if q.id == "" then none else some q

abbrev pub with_session {ℓ κ} : {S : Type ℓ} {A : Type κ} → Option S → (S → Reply A) → Reply A
with_session none f = refused 404
with_session (some s) f = f s

-- handleQR: the code that a session shows, and whether it is logged in; `renders` says of which codes
-- the library qrcode makes a picture
unfoldable pub handle_qr : (String → Bool) → Option (String × Bool) → Reply String
handle_qr renders none = refused 404
handle_qr renders (some (code, is_logged_in)) =
    if code == ""
    then if is_logged_in then refused 409 else refused 404
    else if renders code
    then replied 200 code
    else refused 500

abbrev pair_reply : Result PhoneCallError String → Reply String
pair_reply (ok code) = replied 200 code
pair_reply (err e) = refused 500

-- handlePair; `pair` is PairPhone of the session with a name, if there is one
unfoldable pub handle_pair :
    (String → Option (String → Result PhoneCallError String))
    → Option (String × String)
    → Reply String
handle_pair pair none = refused 400
handle_pair pair (some (session, phone)) =
    if phone == ""
    then refused 400
    else with_session (pair (session_name session)) (λ f. pair_reply (f phone))

-- the reply to a send, with what is shared after it
abbrev sent_reply : Result SendError String × Shared → Reply String × Shared
sent_reply (ok id, sh) = (replied 200 id, sh)
sent_reply (err e, sh) = (refused 502, sh)

abbrev Send : Type 0 → Type 0
Send A = String → A → Shared → Result SendError String × Shared

abbrev sent_by {ℓ} :
    {A : Type ℓ}
    → Option (String → A → Shared → Result SendError String × Shared)
    → String
    → A
    → Shared
    → Reply String × Shared
sent_by none to a sh = (refused 404, sh)
sent_by (some send) to a sh = sent_reply (send to a sh)

pub record SendTextRequest : Type 0 where
  pub session : String
  pub to : String
  pub body : String
  pub reply_to : Option QuoteRef

-- handleSendText; `send` is SendTextQuoted of the session with a name, if there is one
unfoldable pub handle_send_text :
    (String → Option (Send (String × Option QuoteRef)))
    → Option SendTextRequest
    → Shared
    → Reply String × Shared
handle_send_text send none sh = (refused 400, sh)
handle_send_text send (some req) sh =
    if req.to == "" || req.body == ""
    then (refused 400, sh)
    else sent_by (send (session_name req.session)) req.to (req.body, quote req.reply_to) sh

pub record SendMediaRequest : Type 0 where
  pub session : String
  pub to : String
  pub caption : String
  pub mimetype : String
  pub filename : String
  pub seconds : ℕ
  pub file_url : String
  pub file_base64 : String
  pub reply_to : Option QuoteRef

-- resolveMedia: `decode` and `fetch` give the number of bytes, if they succeed
unfoldable pub resolve_media :
    (String → Option ℕ) → (String → Option ℕ) → SendMediaRequest → Option MediaInput
resolve_media decode fetch req =
    elim (if not (req.file_base64 == "")
      then decode req.file_base64
      else if not (req.file_url == "")
      then fetch req.file_url
      else none) [
        | none ↦ none
        | some size ↦ some (record {
          size = size;
          mimetype = req.mimetype;
          filename = req.filename;
          caption = req.caption;
          seconds = req.seconds;
          quote = quote req.reply_to;
        })
      ]

abbrev media_sent :
    Option (Send MediaInput) → String → Option MediaInput → Shared → Reply String × Shared
media_sent none to input sh = (refused 404, sh)
media_sent (some send) to none sh = (refused 400, sh)
media_sent (some send) to (some input) sh = sent_reply (send to input sh)

-- handleSendMedia, which handleSendImage, handleSendFile and handleSendVoice call with their send
unfoldable pub handle_send_media :
    (String → Option ℕ)
    → (String → Option ℕ)
    → (String → Option (Send MediaInput))
    → Option SendMediaRequest
    → Shared
    → Reply String × Shared
handle_send_media decode fetch send none sh = (refused 400, sh)
handle_send_media decode fetch send (some req) sh =
    if req.to == ""
    then (refused 400, sh)
    else media_sent (send (session_name req.session)) req.to (resolve_media decode fetch req) sh

-- handleNormalize: the phones, the country code, and the configured one
unfoldable pub handle_normalize :
    String → Option (List String × String) → Reply (List (String × Result PhoneError String))
handle_normalize default_cc none = refused 400
handle_normalize default_cc (some (phones, country)) =
    if is_empty phones
    then refused 400
    else replied 200
        (map (λ p. (p, normalize_phone p (if country == "" then default_cc else country))) phones)

abbrev checked_reply : Result PhoneCallError (List PhoneCheckResult) → Reply (List PhoneCheckResult)
checked_reply (ok results) = replied 200 results
checked_reply (err e) = refused 502

-- handleCheckPhones
unfoldable pub handle_check_phones :
    (String → Option (List String → Result PhoneCallError (List PhoneCheckResult)))
    → Option (String × List String)
    → Reply (List PhoneCheckResult)
handle_check_phones check none = refused 400
handle_check_phones check (some (session, phones)) =
    if is_empty phones || ltb 250 (length phones)
    then refused 400
    else with_session (check (session_name session)) (λ f. checked_reply (f phones))

-- handleResolveLID
unfoldable pub handle_resolve_lid :
    (String → Option (List String → Assoc String))
    → Option (String × List String)
    → Reply (Assoc String)
handle_resolve_lid resolve none = refused 400
handle_resolve_lid resolve (some (session, lids)) =
    if is_empty lids || ltb 500 (length lids)
    then refused 400
    else with_session (resolve (session_name session)) (λ f. replied 200 (f lids))

abbrev submit_reply : Result SubmitError Submitted → Reply Submitted
submit_reply (ok started) = replied 202 started
submit_reply (err session_not_found) = refused 404
submit_reply (err _) = refused 400

-- handleSendBulk
unfoldable pub handle_send_bulk :
    BulkConfig → (String → Bool) → String → ℕ → Bool → Option BulkRequest → Runner → Reply Submitted
handle_send_bulk cfg known id now commits none b = refused 400
handle_send_bulk cfg known id now commits (some req) b =
    submit_reply (submit cfg known id now commits req b)

abbrev job_reply : Option BulkJob → Reply BulkJob
job_reply none = refused 404
job_reply (some j) = replied 200 j

-- handleBulkStatus and handleListBulk
abbrev pub handle_bulk_status : Bool → String → Runner → Reply BulkJob
handle_bulk_status reads id b = job_reply (job reads id b)

abbrev pub handle_list_bulk : Bool → Runner → Reply (List BulkJob)
handle_list_bulk reads b = replied 200 (list reads b)
