-- ===== src/Session/Upgrade.antt =====
-- session.go, `upgrading`: a probe on the new connection, a pause of the old one, and the switch.
pub mod Outcomes
use go_socket_io.Prelude.{
  ℕ, Bool, true, false, List, [], ◌∷◌, ◌++◌, Bytes, if◌then◌else◌, ◌==◌, not, ◌&&◌,
}
use go_socket_io.Packet.{FrameType, PacketType, ping, pong, upgrade}
use go_socket_io.Session.{
  Effect, set_read_deadline, set_write_deadline, reader_opened, reader_closed, writer_opened,
  writer_closed, echoed, conn_closed,
}

-- What is called on the new connection, and on the old one; `switched` is the assignment of the session's
-- connection and transport.
pub data Event : Type 0 where
  on_new : Effect → Event
  pause_old resume_old close_old switched : Event

pub record Session (C : Type 0) : Type 0 where
  pub conn : C
  pub transport : Bytes

-- Which of the calls succeed, and the packets that the new connection gives; `pausable` tells whether the
-- old connection is a `Pauser`.
pub record Answers : Type 0 where
  pub read_deadline_set : Bool
  pub probe_read : Bool
  pub probe_frame : FrameType
  pub probe_type : PacketType
  pub write_deadline_set : Bool
  pub writer_got : Bool
  pub copied : Bool
  pub reader_closes : Bool
  pub writer_closes : Bool
  pub pausable : Bool
  pub confirm_read : Bool
  pub confirm_type : PacketType
  pub confirm_closes : Bool

abbrev pub Run : Type 0 → Type 0
Run C = Session C × List Event

module _ {C : Type 0} where
  -- Calls on the new connection, then the rest.
  calls : List Effect → Run C → Run C
  calls [] r = r
  calls (e ∷ es) (s, events) = let (s', more) = calls es (s, events) in (s', on_new e ∷ more)

  -- The packet behind the pause.
  confirm : Answers → Bytes → C → Session C → Run C
  unfolding calls
  confirm a t conn s =
      if not a.confirm_read
      then calls (conn_closed ∷ []) (s, resume_old ∷ [])
      else if not (a.confirm_type == upgrade)
      then calls (reader_opened ∷ reader_closed ∷ conn_closed ∷ []) (s, resume_old ∷ [])
      else if not a.confirm_closes
      then calls (reader_opened ∷ reader_closed ∷ conn_closed ∷ []) (s, resume_old ∷ [])
      else calls (reader_opened ∷ reader_closed ∷ [])
          (record { conn = conn; transport = t }, switched ∷ close_old ∷ [])

  unfoldable pub upgrading : Answers → Bytes → C → Session C → Run C
  unfolding calls confirm
  upgrading a t conn s = calls (set_read_deadline ∷ []) (
      if not a.read_deadline_set
      then calls (conn_closed ∷ []) (s, [])
      else if not a.probe_read
      then calls (conn_closed ∷ []) (s, [])
      else calls (reader_opened ∷ []) (
          if not (a.probe_type == ping)
          then calls (reader_closed ∷ conn_closed ∷ []) (s, [])
          else calls (set_write_deadline ∷ []) (
              if not a.write_deadline_set
              then calls (reader_closed ∷ conn_closed ∷ []) (s, [])
              else if not a.writer_got
              then calls (reader_closed ∷ conn_closed ∷ []) (s, [])
              else calls (writer_opened a.probe_frame pong ∷ echoed ∷ []) (
                  if not a.copied
                  then calls (writer_closed ∷ reader_closed ∷ conn_closed ∷ []) (s, [])
                  else if not a.reader_closes
                  then calls (reader_closed ∷ writer_closed ∷ conn_closed ∷ []) (s, [])
                  else calls (reader_closed ∷ writer_closed ∷ []) (
                      if not a.writer_closes
                      then calls (conn_closed ∷ []) (s, [])
                      else if not a.pausable
                      then calls (conn_closed ∷ []) (s, [])
                      else let (s', events) = confirm a t conn s in (s', pause_old ∷ events))))))
