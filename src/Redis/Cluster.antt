-- ===== src/Redis/Cluster.antt =====
-- The servers of one namespace together: `Send`, `SendAll` and `Clear` of one of them, over Redis.
use go_socket_io.Prelude.{
  not, Option, none, some, List, [], ◌∷◌, ◌++◌, Bytes, map, ◌≡◌, ◌≢◌, refl, ap, ◌∙◌, Lacks, All,
  if◌then◌else◌, arith, bytes_eq_iff,
}
use go_socket_io.Broadcast
use go_socket_io.Broadcast.{is_empty}
use go_socket_io.Redis.{
  hash, channel_key, ask_clear, Node, emit_to, send_local, send_all_local, clear_local, Body, body,
  Heard, goes_on, heard_body, message_from, on_message, on_request,
}
use go_socket_io.Redis.Channels.{last_two-channel_key}

module _ {E : Type 0} where
  -- What is read of a text, where one is published.
  abbrev pub all_read : (Bytes → Body E) → Option Bytes → Option (Body E)
  all_read body_of none = none
  all_read body_of (some text) = some (body_of text)

  -- What is read where something is published for a room.
  abbrev pub bodies : Bytes → Option E → Option (Body E)
  bodies room none = none
  bodies room (some e) = some (body room e)

module _ {C E : Type 0} where
  -- What Redis hands to every server, where something is published.
  abbrev pub deliver : Bytes → Option (Body E) → List (Node C E) → List (Heard C E)
  deliver channel none ns = map goes_on ns
  deliver channel (some b) ns = map (on_message channel b) ns

  -- `Send` and `SendAll` of the server between `front` and `back`: it calls `Emit` itself, and publishes. Of a room
  -- and an event `publish` is what `publishMessage` publishes, `none` where `json.Marshal` or Redis fails, and
  -- `body_of` is what `json.Unmarshal` makes of a text.
  unfoldable pub send :
      (Bytes → E → Option Bytes)
      → (Bytes → Body E)
      → Bytes
      → E
      → List (Node C E)
      → Node C E
      → List (Node C E)
      → List (Heard C E)
  send publish body_of room e front n back =
      deliver (channel_key n.prefix n.nsp n.uid) (all_read body_of (publish room e))
        (front ++ (send_local room e n ∷ back))

  unfoldable pub send_all :
      (Bytes → E → Option Bytes)
      → (Bytes → Body E)
      → E
      → List (Node C E)
      → Node C E
      → List (Node C E)
      → List (Heard C E)
  send_all publish body_of e front n back =
      deliver (channel_key n.prefix n.nsp n.uid) (all_read body_of (publish [] e))
        (front ++ (send_all_local e n ∷ back))

  -- `Clear`: the room goes, and the request to clear it is published.
  unfoldable pub clear :
      Bytes → Bytes → List (Node C E) → Node C E → List (Node C E) → List (Node C E)
  clear request room front n back =
      map (λ m. (on_request (ask_clear request room n.uid) m).0)
        (front ++ (clear_local room n ∷ back))

  -- The other servers of a server: of its namespace, each with an id of its own.
  abbrev pub IsOther : Node C E → Node C E → Type 0
  IsOther n m = (m.nsp ≡ n.nsp) × (m.uid ≢ n.uid)

  -- What one server does with a message from another.
  abbrev heard : Bytes → E → Node C E → Heard C E
  heard room e m = goes_on (if not (is_empty room) then send_local room e m else send_all_local e m)

  hears :
      (room : Bytes) (e : E) (n m : Node C E)
      → Lacks hash n.nsp
      → Lacks hash n.uid
      → IsOther n m
      → on_message (channel_key n.prefix n.nsp n.uid) (body room e) m ≡ heard room e m
  unfolding on_message
  hears room e n m h k other =
      ap (λ o. message_from o (body room e) m) (last_two-channel_key n.prefix n.nsp n.uid h k)
      ∙ unfold message_from heard_body in
        ground (arith, bytes_eq_iff m.nsp n.nsp, bytes_eq_iff m.uid n.uid)

  hears_itself :
      (b : Body E) (n m : Node C E)
      → Lacks hash n.nsp
      → Lacks hash n.uid
      → m.nsp ≡ n.nsp
      → m.uid ≡ n.uid
      → on_message (channel_key n.prefix n.nsp n.uid) b m ≡ goes_on m
  unfolding on_message
  hears_itself b n m h k same_nsp same_uid =
      ap (λ o. message_from o b m) (last_two-channel_key n.prefix n.nsp n.uid h k)
      ∙ unfold message_from in ground (arith, bytes_eq_iff m.nsp n.nsp, bytes_eq_iff m.uid n.uid)

  others_hear :
      (room : Bytes) (e : E) (n : Node C E) (ms : List (Node C E))
      → Lacks hash n.nsp
      → Lacks hash n.uid
      → All (IsOther n) ms
      → map (on_message (channel_key n.prefix n.nsp n.uid) (body room e)) ms ≡ map (heard room e) ms
  others_hear room e n [] h k others = refl
  others_hear room e n (m ∷ ms) h k others =
      λ i. hears room e n m h k others.0 i ∷ others_hear room e n ms h k others.1 i

  everyone_hears :
      (room : Bytes) (e : E) (n n' : Node C E) (front back : List (Node C E))
      → Lacks hash n.nsp
      → Lacks hash n.uid
      → n'.nsp ≡ n.nsp
      → n'.uid ≡ n.uid
      → All (IsOther n) front
      → All (IsOther n) back
      → map (on_message (channel_key n.prefix n.nsp n.uid) (body room e)) (front ++ (n' ∷ back))
        ≡ map (heard room e) front ++ (goes_on n' ∷ map (heard room e) back)
  everyone_hears room e n n' [] back h k s t fs bs =
      λ i. hears_itself (body room e) n n' h k s t i ∷ others_hear room e n back h k bs i
  everyone_hears room e n n' (m ∷ front) back h k s t fs bs =
      λ i. hears room e n m h k fs.0 i ∷ everyone_hears room e n n' front back h k s t fs.1 bs i

  map-around :
      (front back : List (Node C E)) (n : Node C E)
      → map goes_on (front ++ (n ∷ back)) ≡ map goes_on front ++ (goes_on n ∷ map goes_on back)
  map-around [] back n = refl
  map-around (m ∷ front) back n = λ i. goes_on m ∷ map-around front back n i

  -- What becomes of a server where an event arrives for a room, or for all rooms, or nothing does.
  abbrev pub arrived : (Node C E → List C) → Option E → Node C E → Heard C E
  arrived members none m = goes_on m
  arrived members (some e) m = goes_on (emit_to (members m) e m)

  -- `SendAll` on one server emits the event once for each entry of a connection in a room, and what JSON makes of the
  -- event on the others; under the conditions of `send_lem`.
  send_all_lem :
      (publish : Bytes → E → Option Bytes) (body_of : Bytes → Body E) (e : E) (e' : Option E)
      (front back : List (Node C E)) (n : Node C E)
      → all_read body_of (publish [] e) ≡ bodies [] e'
      → Lacks hash n.nsp
      → Lacks hash n.uid
      → All (IsOther n) front
      → All (IsOther n) back
      → send_all publish body_of e front n back
        ≡ map (arrived (λ m. Broadcast.send_all m.rooms) e') front
          ++ (goes_on (emit_to (Broadcast.send_all n.rooms) e n)
              ∷ map (arrived (λ m. Broadcast.send_all m.rooms) e') back)
  unfolding send_all send_all_local
  send_all_lem publish body_of e none front back n p h k fs bs =
      (λ i. deliver (channel_key n.prefix n.nsp n.uid) (p i) (front ++ (send_all_local e n ∷ back)))
      ∙ map-around front back (send_all_local e n)
  send_all_lem publish body_of e (some x) front back n p h k fs bs =
      (λ i. deliver (channel_key n.prefix n.nsp n.uid) (p i) (front ++ (send_all_local e n ∷ back)))
      ∙ everyone_hears [] x n (send_all_local e n) front back h k refl refl fs bs

  clear_one :
      (request room uid : Bytes) (m : Node C E)
      → m.uid ≢ uid
      → (on_request (ask_clear request room uid) m).0 ≡ clear_local room m
  unfolding on_request
  clear_one request room uid m h = ground (arith, bytes_eq_iff m.uid uid)

  clear_itself :
      (request room : Bytes) (n : Node C E)
      → (on_request (ask_clear request room n.uid) (clear_local room n)).0 ≡ clear_local room n
  unfolding on_request clear_local
  clear_itself request room n = ground (arith, bytes_eq_iff n.uid n.uid)

  clear_others :
      (request room uid : Bytes) (ms : List (Node C E))
      → All (λ m. m.uid ≢ uid) ms
      → map (λ m. (on_request (ask_clear request room uid) m).0) ms ≡ map (clear_local room) ms
  clear_others request room uid [] h = refl
  clear_others request room uid (m ∷ ms) h =
      λ i. clear_one request room uid m h.0 i ∷ clear_others request room uid ms h.1 i

  -- A room that is cleared on one server is cleared on all, where the others have ids other than its own.
  clear_lem :
      (request room : Bytes) (front back : List (Node C E)) (n : Node C E)
      → All (λ m. m.uid ≢ n.uid) front
      → All (λ m. m.uid ≢ n.uid) back
      → clear request room front n back ≡ map (clear_local room) (front ++ (n ∷ back))
  unfolding clear
  clear_lem request room [] back n fs bs =
      λ i. clear_itself request room n i ∷ clear_others request room n.uid back bs i
  clear_lem request room (m ∷ front) back n fs bs =
      λ i. clear_one request room n.uid m fs.0 i ∷ clear_lem request room front back n fs.1 bs i
