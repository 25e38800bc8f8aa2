-- ===== src/Channels/Routes.antt =====
-- The requests of backend/src/handlers/channel_handler.cpp: the CSRF test of the route, the session,
-- and the handler.
use enclave_station.Base.{none, some, if◌then◌else◌, Text, codes}
use enclave_station.Chat.Store.{Generator, Db}
use enclave_station.Channels.Requests.{Body, InviteBody, UpdateBody, CreateBody, Outcome, refuse}
use enclave_station.Channels.Handlers.{join, invite, kick, set_role}
use enclave_station.Channels.Lifecycle.{
  update, leave, archive, unarchive, handle_create_channel, handle_create_dm,
}
use enclave_station.Web.Cookies.{HttpRequest, extract_session_token, csrf_required_and_failed}
use enclave_station.Web.Guards.{Site, validate_session}

pub data ChannelCall : Type 0 where
  join_channel : (channel : Text) → ChannelCall
  invite_member : (channel : Text) → Body InviteBody → ChannelCall
  kick_member : (channel target : Text) → ChannelCall
  set_member_role : (channel target : Text) → Body Text → ChannelCall
  update_settings : (channel : Text) → Body UpdateBody → ChannelCall
  leave_channel : (channel : Text) → ChannelCall
  set_archived : (channel : Text) → ChannelCall
  set_unarchived : (channel : Text) → ChannelCall
  create_regular : Body CreateBody → ChannelCall
  create_direct : Body Text → ChannelCall

module _ (gen : Generator) where
  unfoldable pub run : Db → Text → ChannelCall → Outcome
  run db user (join_channel c) = join db user c
  run db user (invite_member c body) = invite db user c body
  run db user (kick_member c target) = kick gen db user c target
  run db user (set_member_role c target body) = set_role db user c target body
  run db user (update_settings c body) = update db user c body
  run db user (leave_channel c) = leave db user c
  run db user (set_archived c) = archive db user c
  run db user (set_unarchived c) = unarchive db user c
  run db user (create_regular body) = handle_create_channel gen db user body
  run db user (create_direct body) = handle_create_dm gen db user body

  unfoldable pub serve : Site → HttpRequest → ChannelCall → Outcome
  unfolding run
  serve site req call =
      if csrf_required_and_failed req
      then refuse site.db 403 (codes "CSRF token missing or mismatched")
      else elim (validate_session site (extract_session_token req)) [
        | none ↦ refuse site.db 401 (codes "Unauthorized")
        | some user ↦ run site.db user call
      ]
