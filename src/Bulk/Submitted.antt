-- ===== src/Bulk/Submitted.antt =====
-- What a job is like when submit hands it to its run.
use wa_gateway.Base.{
  ℕ, suc, ◌<◌, ◌≡◌, ◌≢◌, refl, subst, String, ◌==◌, eq_iff, Bool, true, false, not, List, [], ◌∷◌,
  ◌++◌, some, arith, All, length, length-append, get_elem?, if◌then◌else◌, Bool-cases, inl, inr,
  Result, ok, err, ◌>>=◌, ◌≤ℤ◌,
}
use mathlib.Core.List.{append_assoc}
use wa_gateway.Bulk.{BulkMessage, BulkRequest, BulkResult, BulkItem, running, pending, is_pending}
use wa_gateway.Bulk.Submit.{
  SubmitError, BulkConfig, Runner, Submitted, recipients, resolve_text, resolve_texts, min_delay,
  max_delay, no_recipients, session_not_found, session_of, pending_results_of, items_of, new_job,
  start_job, submit, no_messages,
}
use wa_gateway.Bulk.Counts.{IsCounted, AreReady, count_status}

get_elem?-append :
    (front : List BulkResult) (r : BulkResult) (back : List BulkResult)
    → get_elem? (front ++ r ∷ back) (length front) ≡ some r
get_elem?-append [] r back = refl
get_elem?-append (x ∷ front) r back = get_elem?-append front r back

items_of-ne : (i j : ℕ) (msgs : List BulkMessage) → i < j → All (λ x. i ≢ x.idx) (items_of j msgs)
unfolding items_of
items_of-ne i j [] h = tt
items_of-ne i j (m ∷ msgs) h = (omega arith, items_of-ne i (suc j) msgs (omega arith))

AreReady-items_of :
    (front : List BulkResult) (msgs : List BulkMessage)
    → AreReady (items_of (length front) msgs) (front ++ pending_results_of msgs)
unfolding items_of
AreReady-items_of front [] = tt
AreReady-items_of front (m ∷ msgs) =
    let r : BulkResult = record { to = m.to; status = pending; message_id = ""; error = "" } in
    let one_more : length (front ++ r ∷ []) ≡ suc (length front) =
      omega (arith, length-append front (r ∷ [])) in
    let more =
      subst (λ (n : ℕ). AreReady (items_of n msgs) ((front ++ r ∷ []) ++ pending_results_of msgs))
        one_more (AreReady-items_of (front ++ r ∷ []) msgs) in
    (
      record {
        result = r;
        at = get_elem?-append front r (pending_results_of msgs);
        pending = refl;
      },
      items_of-ne (length front) (suc (length front)) msgs (omega arith),
      rw (append_assoc front (r ∷ []) (pending_results_of msgs)) at more,
    )

new_job-IsCounted :
    (id session : String) (now : ℕ) (msgs : List BulkMessage)
    → IsCounted (new_job id session now msgs)
new_job-IsCounted id session now [] = record { sized = refl; sent = refl; failed = refl }
new_job-IsCounted id session now (m ∷ msgs) =
    let rest = new_job-IsCounted id session now msgs in
    record {
      sized = omega (arith, rest.sized);
      sent = omega (arith, rest.sent);
      failed = omega (arith, rest.failed);
    }

count_pending-new :
    (i : ℕ) (msgs : List BulkMessage)
    → count_status is_pending (pending_results_of msgs) ≡ length (items_of i msgs)
unfolding items_of
count_pending-new i [] = refl
count_pending-new i (m ∷ msgs) = omega (arith, count_pending-new (suc i) msgs)

-- A recipient with an address and a text.
abbrev pub IsAddressed : BulkItem → Type 0
IsAddressed it = (it.to ≢ "") × (it.text ≢ "")

pub record IsReady (sub : Submitted) : Type 0 where
  pub counted : IsCounted sub.job
  pub ready : AreReady sub.items sub.job.results
  pub waiting : count_status is_pending sub.job.results ≡ length sub.items
  pub active : sub.job.status ≡ running
  pub delays : sub.min_d ≤ℤ sub.max_d
  pub addressed : All IsAddressed sub.items

abbrev AreAddressed : ℕ → Result SubmitError (List BulkMessage) → Type 0
AreAddressed i (err e) = Unit
AreAddressed i (ok out) = All IsAddressed (items_of i out)

ne_of_==_false : (s t : String) → (s == t) ≡ false → s ≢ t
ne_of_==_false s t e h = ground (arith, eq_iff s t)

AreAddressed-cons :
    (i : ℕ) (m : BulkMessage) (r : Result SubmitError (List BulkMessage))
    → (m.to ≢ "") × (m.text ≢ "")
    → AreAddressed (suc i) r
    → AreAddressed i (r >>= λ out. ok (m ∷ out))
unfolding items_of
AreAddressed-cons i m (err e) h k = tt
AreAddressed-cons i m (ok out) h k = (h, k)

resolve_texts-AreAddressed :
    (req : BulkRequest) (i : ℕ) (msgs : List BulkMessage)
    → AreAddressed i (resolve_texts req i msgs)
unfolding resolve_texts items_of
resolve_texts-AreAddressed req i [] = tt
resolve_texts-AreAddressed req i (m ∷ msgs) = elim (Bool-cases (m.to == "")) [
  | inl e ↦ rw e tt
  | inr to ↦ elim (Bool-cases (resolve_text req m == "")) [
    | inl e ↦ rw (to, e) tt
    | inr text ↦
        rw (to, text)
          (AreAddressed-cons i (record m { text = resolve_text req m })
            (resolve_texts req (suc i) msgs)
            (ne_of_==_false m.to "" to, ne_of_==_false (resolve_text req m) "" text)
            (resolve_texts-AreAddressed req (suc i) msgs))
  ]
]

delays_ordered : (cfg : BulkConfig) (req : BulkRequest) → min_delay cfg req ≤ℤ max_delay cfg req
delays_ordered cfg req = ground arith

-- the last step of submit, taken back
started :
    (r : Result SubmitError (List BulkMessage)) (f : List BulkMessage → Submitted) {sub : Submitted}
    → (r >>= λ out. ok (f out)) ≡ ok sub
    → (out : List BulkMessage) × (r ≡ ok out) × (f out ≡ sub)
started (err e) f h = cc
started (ok out) f h = (out, refl, cc)

not_err :
    (b : Bool) (e : SubmitError) (r : Result SubmitError Submitted) {sub : Submitted}
    → (if b then err e else r) ≡ ok sub
    → r ≡ ok sub
not_err true e r h = cc
not_err false e r h = h

module _ (cfg : BulkConfig) (known : String → Bool) (id : String) (now : ℕ) (commits : Bool)
    (req : BulkRequest) (b : Runner) (sub : Submitted)
    (accepted : submit cfg known id now commits req b ≡ ok sub) where
  pub submit_lem :
      (out : List BulkMessage) × (resolve_texts req 0 (recipients req req.messages) ≡ ok out)
      × (start_job cfg req (session_of req) id now commits b out ≡ sub)
  unfolding submit
  submit_lem = started _ (start_job cfg req (session_of req) id now commits b) (
      not_err (no_messages (recipients req req.messages)) no_recipients _
        (not_err (not (known (session_of req))) session_not_found _ accepted))

  -- A job that submit accepts starts with counters that agree with its results, all pending, with
  -- one item for each, numbered apart, with an address and a text, and with its two delays in
  -- order.
  pub submit-IsReady : IsReady sub
  submit-IsReady =
      let (out, resolved, same) = submit_lem in
      subst IsReady same (record {
        counted = new_job-IsCounted id (session_of req) now out;
        ready = AreReady-items_of [] out;
        waiting = count_pending-new 0 out;
        active = refl;
        delays = delays_ordered cfg req;
        addressed =
            subst (AreAddressed 0) resolved
              (resolve_texts-AreAddressed req 0 (recipients req req.messages));
      })
