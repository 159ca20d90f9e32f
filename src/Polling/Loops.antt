-- ===== src/Polling/Loops.antt =====
-- engineio/transport/polling/connect.go: the client opens with a request, then asks and posts in two loops.
use go_socket_io.Prelude.{
  ◌+◌, ◌≡◌, refl, Bool, true, false, not, ◌&&◌, Option, none, some, List, [], ◌∷◌, ◌++◌,
  if◌then◌else◌, arith, tally, ◌==◌, ℕ-Eq,
}
use go_socket_io.Prelude.Dict.{has_value}
use go_socket_io.Packet.{PacketType, open_packet}
use go_socket_io.Reader.{Err}

pub data Effect : Type 0 where
  flushed requested : Effect
  error_stored conn_closed : Effect
  body_discarded : Effect
  header_stored : Effect
  fed : Bool → Effect

-- What `httpClient.Do` answers: an error, or whether the status is 200 and what `mimeIsSupportBinary` says.
pub data Answer : Type 0 where
  no_answer : Answer
  answered : Bool → Option Bool → Answer

-- An error is stored, and the connection closed.
abbrev failing : List Effect
failing = error_stored ∷ conn_closed ∷ []

post_answer : Answer → Bool × List Effect → Bool × List Effect
post_answer no_answer more = (true, failing)
post_answer (answered false mime) more = (true, body_discarded ∷ failing)
post_answer (answered true mime) (b, es) = (b, body_discarded ∷ header_stored ∷ es)

after : List Effect → Bool × List Effect → Bool × List Effect
after es (b, more) = (b, es ++ more)

-- `servePost`, and whether it has ended: each turn with what `FlushOut` and the request answer.
unfoldable pub serve_post : List (Option Err × Answer) → Bool × List Effect
unfolding post_answer after
serve_post [] = (false, [])
serve_post ((some e, a) ∷ turns) = (true, flushed ∷ [])
serve_post ((none, a) ∷ turns) = after (flushed ∷ requested ∷ []) (post_answer a (serve_post turns))

get_answer : Answer → Option Err → Bool × List Effect → Bool × List Effect
get_answer no_answer e more = (true, failing)
get_answer (answered false mime) e more = (true, body_discarded ∷ failing)
get_answer (answered true none) e more = (true, body_discarded ∷ failing)
get_answer (answered true (some binary)) (some e) more = (true, fed binary ∷ body_discarded ∷ [])
get_answer (answered true (some binary)) none (b, es) = (b, fed binary ∷ header_stored ∷ es)

-- `serveGet`: each turn with what the request and `FeedIn` answer.
unfoldable pub serve_get : List (Answer × Option Err) → Bool × List Effect
unfolding get_answer after
serve_get [] = (false, [])
serve_get ((a, e) ∷ turns) = after (requested ∷ []) (get_answer a e (serve_get turns))

-- `getOpen`
unfoldable pub get_open : Answer → Option Err → List Effect
get_open no_answer e = requested ∷ failing
get_open (answered false mime) e = requested ∷ error_stored ∷ conn_closed ∷ body_discarded ∷ []
get_open (answered true none) e = requested ∷ error_stored ∷ conn_closed ∷ body_discarded ∷ []
get_open (answered true (some binary)) e =
    requested ∷ header_stored ∷ fed binary ∷ body_discarded ∷ []

-- How `Open` goes on once `getOpen` has been started: an error of `NextReader`, or a packet with the errors
-- of `ReadConnParameters` and of the reader's `Close`.
pub data Opening : Type 0 where
  unread : Opening
  opened : PacketType → Option Err → Option Err → Opening

-- Whether `Open` starts the two loops; otherwise it returns an error.
unfoldable pub open_conn : Opening → Bool
open_conn unread = false
open_conn (opened pt params closed) =
    if not (pt == open_packet) then false else not (has_value params) && not (has_value closed)

abbrev pub is_requested : Effect → Bool
is_requested requested = true
is_requested _ = false

abbrev pub is_closed : Effect → Bool
is_closed conn_closed = true
is_closed _ = false

abbrev pub is_stored : Effect → Bool
is_stored error_stored = true
is_stored _ = false

abbrev pub is_fed : Effect → Bool
is_fed (fed binary) = true
is_fed _ = false

abbrev pub is_kept : Effect → Bool
is_kept header_stored = true
is_kept _ = false

-- `serveGet` closes the connection as often as it stores an error. Each of its requests has either fed the payload
-- or had the connection closed, and each but the one that ended the loop has kept the header of its answer.
pub serve_get_feeds :
    (turns : List (Answer × Option Err))
    → let (ended, es) = serve_get turns in
      (tally is_closed es ≡ tally is_stored es)
      × (tally is_requested es ≡ tally is_fed es + tally is_closed es)
      × (tally is_requested es ≡ tally is_kept es + (if ended then 1 else 0))
unfolding serve_get
serve_get_feeds [] = (refl, refl, refl)
serve_get_feeds ((no_answer, e) ∷ turns) = (refl, refl, refl)
serve_get_feeds ((answered false mime, e) ∷ turns) = (refl, refl, refl)
serve_get_feeds ((answered true none, e) ∷ turns) = (refl, refl, refl)
serve_get_feeds ((answered true (some binary), some e) ∷ turns) = (refl, refl, refl)
serve_get_feeds ((answered true (some binary), none) ∷ turns) =
    let (a, b, c) = serve_get_feeds turns in ground (arith, a, b, c)
