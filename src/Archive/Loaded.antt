-- ===== src/Archive/Loaded.antt =====
-- The set of chatArchive (internal/gateway/archive.go) and the table that a restart would load.
use mathlib.Core.List.{List}
use wa_gateway.Base.{
  ℕ, String, Bool, true, false, ◌==◌, ◌≡◌, refl, ap, ◌∙◌, arith, All, eq_refl, lookup,
  lookup-insert, lookup-delete, lookup-nil, Bool-cases, inl, inr, trim, ok,
}
use wa_gateway.Archive.{
  ArchiveRow, ChatArchive, chat_key, load_set, load, enabled, upsert, remove, apply_enabled,
  set_enabled, is_row, or_default_session,
}
use wa_gateway.Archive.Rows.{NoBar, lookup-load_set, has_key-upsert, has_key-remove}

-- The set in memory is the one that a restart would load, and the table's session names have no bar.
pub record IsSound (a : ChatArchive) : Type 0 where
  pub loaded : (k : String) → lookup k a.set ≡ lookup k (load_set a.rows List.[])
  pub named : All (λ r. NoBar r.session) a.rows

named-upsert :
    (session chat : String) (now : ℕ) (rows : List ArchiveRow)
    → NoBar session
    → All (λ r. NoBar r.session) rows
    → All (λ r. NoBar r.session) (upsert session chat now rows)
unfolding upsert
named-upsert session chat now List.[] n ns = (n, tt)
named-upsert session chat now (List.◌∷◌ r rows) n (m, ns) =
    elim (Bool-cases (is_row session chat r)) [
      | inl e ↦ rw e (m, ns)
      | inr e ↦ rw e (m, named-upsert session chat now rows n ns)
    ]

named-remove :
    (session chat : String) (rows : List ArchiveRow)
    → All (λ r. NoBar r.session) rows
    → All (λ r. NoBar r.session) (remove session chat rows)
unfolding remove
named-remove session chat List.[] ns = tt
named-remove session chat (List.◌∷◌ r rows) (m, ns) = elim (Bool-cases (is_row session chat r)) [
  | inl e ↦ rw e (named-remove session chat rows ns)
  | inr e ↦ rw e (m, named-remove session chat rows ns)
]

apply_enabled-IsSound :
    (session chat : String) (on : Bool) (now : ℕ) (a : ChatArchive)
    → NoBar session
    → IsSound a
    → IsSound (apply_enabled session chat on now a)
unfolding apply_enabled
apply_enabled-IsSound session chat true now a n h = record {
  loaded = λ k.
      rw
        (
          lookup-insert,
          lookup-load_set k (upsert session chat now a.rows) List.[],
          has_key-upsert k session chat now a.rows,
          h.loaded k,
          lookup-load_set k a.rows List.[],
        )
        (ground (arith, lookup-nil {V = Bool} k));
  named = named-upsert session chat now a.rows n h.named;
}
apply_enabled-IsSound session chat false now a n h = record {
  loaded = λ k.
      rw
        (
          lookup-delete,
          lookup-load_set k (remove session chat a.rows) List.[],
          has_key-remove k session chat a.rows n h.named,
          h.loaded k,
          lookup-load_set k a.rows List.[],
        )
        (ground (arith, lookup-nil {V = Bool} k));
  named = named-remove session chat a.rows h.named;
}

or_default_session-NoBar : (session : String) → NoBar session → NoBar (or_default_session session)
or_default_session-NoBar session n = elim (Bool-cases (session == "")) [
  | inl e ↦ rw e (refl, (refl, (refl, (refl, (refl, (refl, (refl, tt)))))))
  | inr e ↦ rw e n
]

-- setEnabled, whatever it reports, if no other call of it overlaps, keeps the set in memory the
-- one that a restart would load from the table, if session names have no bar.
pub set_enabled-IsSound :
    (writes : Bool) (session chat : String) (on : Bool) (now : ℕ) (a : ChatArchive)
    → NoBar session
    → IsSound a
    → IsSound (set_enabled writes session chat on now a).0
unfolding set_enabled
set_enabled-IsSound writes session chat on now a n h = elim (Bool-cases (trim chat == "")) [
  | inl e ↦ rw e h
  | inr e ↦ elim (Bool-cases writes) [
    | inr f ↦ rw (e, f) h
    | inl w ↦
        rw (e, w)
          (apply_enabled-IsSound (or_default_session session) (trim chat) on now a
            (or_default_session-NoBar session n) h)
  ]
]

enabled-apply_enabled :
    (session chat : String) (on : Bool) (now : ℕ) (a : ChatArchive)
    → enabled session chat (apply_enabled (or_default_session session) chat on now a) ≡ on
unfolding apply_enabled enabled
enabled-apply_enabled session chat true now a =
    rw (lookup-insert, eq_refl (chat_key (or_default_session session) chat)) refl
enabled-apply_enabled session chat false now a =
    rw (lookup-delete, eq_refl (chat_key (or_default_session session) chat)) refl

enabled-load :
    (session chat : String) (a : ChatArchive)
    → IsSound a
    → enabled session chat (load true a) ≡ enabled session chat a
unfolding load enabled
enabled-load session chat a h = rw (h.loaded (chat_key (or_default_session session) chat)) refl

set_enabled_done :
    (writes : Bool) (session chat : String) (on : Bool) (now : ℕ) (a : ChatArchive)
    → (set_enabled writes session chat on now a).1 ≡ ok tt
    → (set_enabled writes session chat on now a).0
      ≡ apply_enabled (or_default_session session) (trim chat) on now a
unfolding set_enabled
set_enabled_done writes session chat on now a done = ground (arith, done)

-- From an archive whose set is the one that its table gives, with session names that have no bar:
-- after a setEnabled that reports no error and that no other overlaps, the chat is enabled exactly
-- as asked, in memory and after a restart loads the table.
pub enabled-set_enabled :
    (writes : Bool) (session chat : String) (on : Bool) (now : ℕ) (a : ChatArchive)
    → NoBar session
    → IsSound a
    → (set_enabled writes session chat on now a).1 ≡ ok tt
    → (enabled session (trim chat) (set_enabled writes session chat on now a).0 ≡ on)
      × (enabled session (trim chat) (load true (set_enabled writes session chat on now a).0) ≡ on)
enabled-set_enabled writes session chat on now a n h done =
    let same = set_enabled_done writes session chat on now a done in
    let here =
      ap (enabled session (trim chat)) same ∙ enabled-apply_enabled session (trim chat) on now a in
    (
      here,
      enabled-load session (trim chat) _ (set_enabled-IsSound writes session chat on now a n h)
          ∙ here,
    )
