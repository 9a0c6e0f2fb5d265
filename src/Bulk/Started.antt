-- ===== src/Bulk/Started.antt =====
-- Which jobs resumeInterrupted starts again.
use wa_gateway.Base.{
  ◌≡◌, refl, sym, subst, true, false, Bool-cases, inl, inr, List, [], ◌∷◌, ◌++◌, All, is_empty,
}
use wa_gateway.Bulk.{running}
use wa_gateway.Bulk.Load.{ResumableJob, load_resumable}
use wa_gateway.Bulk.Submit.{Runner}
use wa_gateway.Bulk.Recover.{
  RecoveryWorld, Recovery, wait_ready, resume_one, resume_all, resume_interrupted,
}

pub record Startable (w : RecoveryWorld) (rj : ResumableJob) : Type 0 where
  pub enabled : w.auto_resume ≡ true
  pub left : is_empty rj.pending ≡ false
  pub ready : wait_ready (w.polls rj.job.session) ≡ true
  pub active : rj.job.status ≡ running

abbrev pub AllStartable : RecoveryWorld → Recovery → Type 0
AllStartable w st = All (Startable w) st.started

All-append :
    (w : RecoveryWorld) (jobs : List ResumableJob) (rj : ResumableJob)
    → All (Startable w) jobs
    → Startable w rj
    → All (Startable w) (jobs ++ rj ∷ [])
All-append w [] rj h s = (s, tt)
All-append w (j ∷ jobs) rj (s, h) one = (s, All-append w jobs rj h one)

module _ (w : RecoveryWorld) (on : w.auto_resume ≡ true) where
  resume_one-AllStartable :
      (rj : ResumableJob) (st : Recovery) → AllStartable w st → AllStartable w (resume_one w rj st)
  unfolding resume_one
  resume_one-AllStartable rj st h = elim (Bool-cases (is_empty rj.pending)) [
    | inl e ↦ rw e h
    | inr left ↦ elim (Bool-cases (wait_ready (w.polls rj.job.session))) [
      | inr late ↦ rw (left, late) h
      | inl ready ↦
          rw (left, ready)
            (All-append w st.started _ h
              (record { enabled = on; left = left; ready = ready; active = refl }))
    ]
  ]

  resume_all-AllStartable :
      (jobs : List ResumableJob) (st : Recovery)
      → AllStartable w st
      → AllStartable w (resume_all w jobs st)
  unfolding resume_all
  resume_all-AllStartable [] st h = h
  resume_all-AllStartable (rj ∷ jobs) st h =
      let onward =
        resume_all-AllStartable jobs (resume_one w rj st) (resume_one-AllStartable rj st h) in
      elim (Bool-cases (w.quits rj.job.id)) [ inl q ↦ rw q h | inr q ↦ rw q onward ]

-- the three branches of resumeInterrupted
resume_interrupted_off :
    (w : RecoveryWorld) (b : Runner) → w.auto_resume ≡ false → (resume_interrupted w b).started ≡ []
unfolding resume_interrupted
resume_interrupted_off w b off = rw off refl

resume_interrupted_lost :
    (w : RecoveryWorld) (b : Runner)
    → w.auto_resume ≡ true
    → w.loads ≡ false
    → (resume_interrupted w b).started ≡ []
unfolding resume_interrupted
resume_interrupted_lost w b on lost = rw (on, lost) refl

resume_interrupted_on :
    (w : RecoveryWorld) (b : Runner)
    → w.auto_resume ≡ true
    → w.loads ≡ true
    → (resume_interrupted w b).started
      ≡ (resume_all w (load_resumable b.db) (record { runner = b; started = [] })).started
unfolding resume_interrupted
resume_interrupted_on w b on found = rw (on, found) refl

-- Every job that a recovery starts has a recipient left to send to and a session that is ready,
-- and is running; with automatic resumption off none is started.
pub resume_interrupted-AllStartable :
    (w : RecoveryWorld) (b : Runner) → AllStartable w (resume_interrupted w b)
resume_interrupted-AllStartable w b =
    let P = λ (jobs : List ResumableJob). All (Startable w) jobs in
    elim (Bool-cases w.auto_resume) [
      | inr off ↦ subst P (sym (resume_interrupted_off w b off)) tt
      | inl on ↦ elim (Bool-cases w.loads) [
        | inr lost ↦ subst P (sym (resume_interrupted_lost w b on lost)) tt
        | inl found ↦ subst P (sym (resume_interrupted_on w b on found)) (
            resume_all-AllStartable w on (load_resumable b.db) (record { runner = b; started = [] })
              tt)
      ]
    ]
