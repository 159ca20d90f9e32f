-- ===== src/Engine/Requests.antt =====
-- What a request may change, and which requests are refused.
use go_socket_io.Prelude.{
  ℕ, ◌≡◌, Bool, true, false, not, ◌&&◌, ◌∷◌, Bytes, arith, bytes-Eq, if◌then◌else◌,
}
use go_socket_io.Prelude.Dict
use go_socket_io.Prelude.Dict.{has_value}
use go_socket_io.Engine.{
  Entry, Server, Request, Response, upgrade_started, served, new_id, new_session, serve_http,
}

abbrev pub is_served : Response → Bool
is_served (served sid) = true
is_served (upgrade_started sid) = true
is_served _ = false

module _ (format : ℕ → Bytes) where
  -- A request never touches the table of sessions or the accepted ones. It starts a session exactly if
  -- it is served without a session of its id in the table, which is then one of the next id and of its transport.
  pub serve_http_lem :
      (r : Request) (s : Server)
      → let (response, s') = serve_http format r s in
        (s'.sessions ≡ s.sessions)
        × (s'.accepted ≡ s.accepted)
        × (if is_served response && not (has_value (Dict.lookup r.sid s.sessions))
            then (response ≡ served (new_id format s).0)
              × ((entry : Entry) × (s'.starting ≡ ((new_id format s).0, entry) ∷ s.starting)
                  × (entry.transport ≡ r.transport))
            else s'.starting ≡ s.starting)
  unfolding serve_http new_session
  serve_http_lem r s = ground arith
