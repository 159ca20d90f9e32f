-- ===== src/Redis/Dispatch.antt =====
-- `newRedisBroadcast` and `dispatch` of redis_broadcast.go: the connections and channels of a server's broadcast,
-- and what it does with each thing that it receives. What JSON makes of a message is a parameter, and so is
-- what Redis answers.
use go_socket_io.Prelude.{
  ℕ, zero, suc, Bool, false, not, Option, none, some, List, [], ◌∷◌, ◌++◌, Bytes, ◌≡◌, ◌≢◌, refl,
  if◌then◌else◌, arith, bytes_eq, bytes_eq_iff, bytes_eq_refl, bytes-Eq, ℕ-Eq, Lacks,
}
use go_socket_io.Broadcast
use go_socket_io.Broadcast.{RoomMap, is_empty}
use go_socket_io.Redis.Channels.{last_two-channel_key}
use go_socket_io.Redis.{
  hash, channel_key, Message, Node, Body, body, Heard, crashed, ended, goes_on, heard_body,
  message_from, send_local, send_all_local, on_message, on_request, on_response,
}

-- "-request" and "-response".
abbrev pub request_infix : Bytes
request_infix = 45 ∷ 114 ∷ 101 ∷ 113 ∷ 117 ∷ 101 ∷ 115 ∷ 116 ∷ []

abbrev pub response_infix : Bytes
response_infix = 45 ∷ 114 ∷ 101 ∷ 115 ∷ 112 ∷ 111 ∷ 110 ∷ 115 ∷ 101 ∷ []

unfoldable pub req_channel : (prefix nsp : Bytes) → Bytes
req_channel prefix nsp = prefix ++ (request_infix ++ (hash ∷ nsp))

unfoldable pub res_channel : (prefix nsp : Bytes) → Bytes
res_channel prefix nsp = prefix ++ (response_infix ++ (hash ∷ nsp))

-- The pattern of the messages of a namespace: a star stands for every text.
unfoldable pub message_pattern : (prefix nsp : Bytes) → Bytes
message_pattern prefix nsp = prefix ++ (hash ∷ (nsp ++ (hash ∷ b'*' ∷ [])))

-- Whether the two dials, `PSubscribe` and `Subscribe` succeed.
pub record Answers : Type 0 where
  pub pub_dialed : Bool
  pub sub_dialed : Bool
  pub psubscribed : Bool
  pub subscribed : Bool

-- What a subscription gives: a message, the count of a subscription, or an error.
pub data Received : Type 0 where
  message : (channel text : Bytes) → Received
  subscription : ℕ → Received
  receive_error : Received

-- A turn of `dispatch`: a panic, its end, or the next turn with what was published.
module _ (C E : Type 0) where
  pub data Turn : Type 0 where
    panicked : Turn
    stopped : Node C E → Turn
    going : Node C E → List Message → Turn

cancel : (prefix a b : Bytes) → bytes_eq (prefix ++ a) (prefix ++ b) ≡ bytes_eq a b
cancel [] a b = refl
cancel (p ∷ ps) a b = ground (arith, cancel ps a b)

-- The channel of a server is not one of the other two, nor are these the same.
not_request :
    (prefix nsp uid : Bytes)
    → bytes_eq (channel_key prefix nsp uid) (req_channel prefix nsp) ≡ false
unfolding channel_key req_channel
not_request prefix nsp uid = cancel prefix _ _

not_response :
    (prefix nsp uid : Bytes)
    → bytes_eq (channel_key prefix nsp uid) (res_channel prefix nsp) ≡ false
unfolding channel_key res_channel
not_response prefix nsp uid = cancel prefix _ _

apart : (prefix nsp : Bytes) → bytes_eq (res_channel prefix nsp) (req_channel prefix nsp) ≡ false
unfolding req_channel res_channel
apart prefix nsp = cancel prefix _ _

module _ {C E : Type 0} where
  -- The broadcast, and how many connections to Redis stay open.
  unfoldable pub new_redis_broadcast : (prefix nsp uid : Bytes) → Answers → Option (Node C E) × ℕ
  new_redis_broadcast prefix nsp uid a =
      if not a.pub_dialed
      then (none, 0)
      else if not a.sub_dialed
      then (none, 1)
      else if not a.psubscribed
      then (none, 2)
      else if not a.subscribed
      then (none, 2)
      else (
        some (record {
          nsp = nsp;
          uid = uid;
          prefix = prefix;
          rooms = [];
          requests = [];
          emitted = [];
        }),
        2,
      )

  abbrev pub going_or_panic : Option (Node C E) → Turn C E
  going_or_panic none = panicked
  going_or_panic (some n) = going n []

  abbrev pub published : Node C E × List Message → Turn C E
  published (n, ms) = going n ms

  request_turn : Option Message → Node C E → Turn C E
  request_turn none n = going n []
  request_turn (some m) n = published (on_request m n)

  response_turn : Option Message → Node C E → Turn C E
  response_turn none n = going n []
  response_turn (some m) n = going_or_panic (on_response m n)

  -- An error of `onMessage` ends `dispatch`.
  message_turn : Node C E → Heard C E → Turn C E
  message_turn n crashed = panicked
  message_turn n ended = stopped n
  message_turn n (goes_on n') = going n' []

  -- One turn of `dispatch`. Of a request, a response and a message, the parameters say what JSON makes.
  unfoldable pub dispatch_turn :
      (Bytes → Option Message)
      → (Bytes → Option Message)
      → (Bytes → Body E)
      → Received
      → Node C E
      → Turn C E
  unfolding request_turn response_turn message_turn
  dispatch_turn request response body_of (message channel text) n =
      if bytes_eq channel (req_channel n.prefix n.nsp)
      then request_turn (request text) n
      else if bytes_eq channel (res_channel n.prefix n.nsp)
      then response_turn (response text) n
      else message_turn n (on_message channel (body_of text) n)
  dispatch_turn request response body_of (subscription zero) n = stopped n
  dispatch_turn request response body_of (subscription (suc k)) n = going n []
  dispatch_turn request response body_of receive_error n = stopped n

  -- `ForEach`, which calls a function on these.
  unfoldable pub for_each : Bytes → Node C E → List C
  for_each room n = Broadcast.for_each room n.rooms

  -- The three channels are told apart: what another server of the namespace has published on its own channel is
  -- given to `onMessage`, which emits it to its room or, without a name, to all rooms; a request to `onRequest` and a response to `onResponse`, whatever the prefix is; if
  -- the JSON is complete and neither the namespace nor the other server's id has a `#` in it.
  pub dispatch_turn_routes :
      (request response : Bytes → Option Message) (body_of : Bytes → Body E) (n : Node C E)
      (uid text : Bytes) (room : Bytes) (e : E) (asked answered : Message)
      → Lacks hash n.nsp
      → Lacks hash uid
      → n.uid ≢ uid
      → body_of text ≡ body room e
      → request text ≡ some asked
      → response text ≡ some answered
      → (dispatch_turn request response body_of (message (channel_key n.prefix n.nsp uid) text) n
          ≡ going (if is_empty room then send_all_local e n else send_local room e n) [])
        × (dispatch_turn request response body_of (message (req_channel n.prefix n.nsp) text) n
            ≡ published (on_request asked n))
        × (dispatch_turn request response body_of (message (res_channel n.prefix n.nsp) text) n
            ≡ going_or_panic (on_response answered n))
  unfolding dispatch_turn request_turn response_turn message_turn on_message message_from heard_body
  dispatch_turn_routes request response body_of n uid text room e asked answered hn hu other eb eq
        er =
      (
        rw
            (
              not_request n.prefix n.nsp uid,
              not_response n.prefix n.nsp uid,
              last_two-channel_key n.prefix n.nsp uid hn hu,
              eb,
            )
            (rw (bytes_eq_refl n.nsp, differ) (routed room)),
        rw (bytes_eq_refl (req_channel n.prefix n.nsp), eq) refl,
        rw (apart n.prefix n.nsp, bytes_eq_refl (res_channel n.prefix n.nsp), er) refl,
      )
    where
      routed :
          (r : Bytes)
          → message_turn n (
              if not (is_empty r) then goes_on (send_local r e n) else goes_on (send_all_local e n))
            ≡ going (if is_empty r then send_all_local e n else send_local r e n) []
      routed [] = refl
      routed (b ∷ bs) = refl

      differ : bytes_eq n.uid uid ≡ false
      differ = ground (arith, bytes_eq_iff n.uid uid)
