-- ===== src/Api/Archived.antt =====
-- The handlers of a group's archive (internal/api/group.go): handleGetGroupArchive and
-- handleSetGroupArchive. `known` says which sessions there are.
use wa_gateway.Base.{
  ℕ, String, Bool, not, Option, none, some, Result, ok, err, if◌then◌else◌, has_suffix,
}
use wa_gateway.Archive.{ChatArchive, ArchiveError, enabled, set_enabled}
use wa_gateway.Api.Sessions.{Reply, replied, refused}
use wa_gateway.Api.Params.{session_name}

-- handleGetGroupArchive
unfoldable pub handle_get_group_archive :
    (String → Bool) → String → String → ChatArchive → Reply Bool
handle_get_group_archive known jid session a =
    if known (session_name session)
    then replied 200 (enabled (session_name session) jid a)
    else refused 404

abbrev archive_reply : Bool → Result ArchiveError (Unit {0}) → Reply Bool
archive_reply on (ok t) = replied 200 on
archive_reply on (err e) = refused 500

-- handleSetGroupArchive; `writes` says whether the statement goes through
unfoldable pub handle_set_group_archive :
    (String → Bool)
    → Bool
    → ℕ
    → String
    → Option (String × Option Bool)
    → ChatArchive
    → Reply Bool × ChatArchive
handle_set_group_archive known writes now jid none a = (refused 400, a)
handle_set_group_archive known writes now jid (some (session, none)) a = (refused 400, a)
handle_set_group_archive known writes now jid (some (session, some on)) a =
    if not (known (session_name session))
    then (refused 404, a)
    else if not (has_suffix jid "@g.us")
    then (refused 400, a)
    else let (next, result) = set_enabled writes (session_name session) jid on now a in
      (archive_reply on result, next)
