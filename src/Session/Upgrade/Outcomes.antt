-- ===== src/Session/Upgrade/Outcomes.antt =====
-- What an upgrade leaves behind, on each of its paths.
use go_socket_io.Prelude.{
  ◌+◌, ◌≡◌, Bool, true, false, Bytes, if◌then◌else◌, ◌==◌, ◌&&◌, arith, tally,
}
use go_socket_io.Packet.{ping, upgrade}
use go_socket_io.Session.{reader_opened, reader_closed, writer_opened, writer_closed, conn_closed}
use go_socket_io.Session.Upgrade.{
  Event, on_new, pause_old, resume_old, close_old, Session, Answers, upgrading,
}

-- The upgrade goes through: every call succeeds, the probe is a ping, the old connection can be paused, and
-- the confirmation is an upgrade packet.
abbrev pub is_accepted : Answers → Bool
is_accepted a =
    a.read_deadline_set
    && a.probe_read
    && a.probe_type == ping
    && a.write_deadline_set
    && a.writer_got
    && a.copied
    && a.reader_closes
    && a.writer_closes
    && a.pausable
    && a.confirm_read
    && a.confirm_type == upgrade
    && a.confirm_closes

abbrev pub is_new_closed : Event → Bool
is_new_closed (on_new conn_closed) = true
is_new_closed _ = false

abbrev pub is_old_closed : Event → Bool
is_old_closed close_old = true
is_old_closed _ = false

abbrev pub is_pause : Event → Bool
is_pause pause_old = true
is_pause _ = false

abbrev pub is_resume : Event → Bool
is_resume resume_old = true
is_resume _ = false

abbrev pub opens_reader : Event → Bool
opens_reader (on_new reader_opened) = true
opens_reader _ = false

abbrev pub closes_reader : Event → Bool
closes_reader (on_new reader_closed) = true
closes_reader _ = false

abbrev pub opens_writer : Event → Bool
opens_writer (on_new (writer_opened ft pt)) = true
opens_writer _ = false

abbrev pub closes_writer : Event → Bool
closes_writer (on_new writer_closed) = true
closes_writer _ = false

module _ {C : Type 0} (a : Answers) (t : Bytes) (conn : C) (s : Session C) where
  -- The session has the new connection and the new transport's name exactly if the upgrade is accepted;
  -- otherwise it is as it was.
  pub upgrading_session :
      (upgrading a t conn s).0
      ≡ (if is_accepted a then record { conn = conn; transport = t } else s)
  unfolding upgrading
  upgrading_session = ground arith

  -- Exactly one of the two connections is closed, once: the old one if the upgrade is accepted, and the new
  -- one otherwise.
  pub upgrading_closes_one :
      (tally is_new_closed (upgrading a t conn s).1 ≡ (if is_accepted a then 0 else 1))
      × (tally is_old_closed (upgrading a t conn s).1 ≡ (if is_accepted a then 1 else 0))
  unfolding upgrading
  upgrading_closes_one = ground arith

  -- If the upgrade is not accepted, the old connection is resumed as often as it was paused; if it is, it was
  -- paused once and stays paused.
  pub upgrading_resumes :
      tally is_pause (upgrading a t conn s).1
      ≡ tally is_resume (upgrading a t conn s).1 + (if is_accepted a then 1 else 0)
  unfolding upgrading
  upgrading_resumes = ground arith

  -- Each reader and each writer that the new connection gave is closed, once, whichever call fails.
  upgrading_closes_all :
      (tally opens_reader (upgrading a t conn s).1 ≡ tally closes_reader (upgrading a t conn s).1)
      × (tally opens_writer (upgrading a t conn s).1 ≡ tally closes_writer (upgrading a t conn s).1)
  unfolding upgrading
  upgrading_closes_all = ground arith
