-- ===== src/Server/Ready.antt =====
-- A connection from `newConn` to `Close`, and the rooms of its session.
use mathlib.Core.Path.{subst}
use go_socket_io.Prelude.{
  Bool, true, false, Option, none, some, List, [], ◌∷◌, Bytes, ◌≡◌, refl, sym, ◌∙◌, ap, arith,
  if◌then◌else◌, bytes-Eq, ℕ-Eq,
}
use go_socket_io.Prelude.Dict
use go_socket_io.Prelude.Dict.{has_value, lookup-insert, lookup-remove}
use go_socket_io.Reader.{Err}
use go_socket_io.Broadcast.View.{occupant}
use go_socket_io.Broadcast.Tidy.{IsTidy}
use go_socket_io.Namespace.{
  Handler, NamespaceConn, Conn, root_namespace, alias_root_namespace, join, leave_all,
  set_namespace, new_namespace_conn, close_namespaces, tell_disconnected, close_conn, connect_root,
  dispatch_connect, dispatch_disconnect, call,
}
use go_socket_io.Server.{Input, conn_with, AreReached, read_loop}
use go_socket_io.Server.Kept.{Kept, loop-Kept}
use go_socket_io.Server.Serving.{House, house, moved, loop-Housed}
use go_socket_io.Server.Rooms.{
  RoomTable, at_name, IsHoused, Housed, open-Housed, leave_all-IsHoused,
}

-- No room of any namespace has the session.
abbrev pub IsGone : Bytes → RoomTable → Type 0
IsGone id rooms = (name room : Bytes) → occupant room id (at_name name rooms) ≡ none

module _ {V : Type 0} where
  tell_house :
      (nc : NamespaceConn V) (o : Option (Handler V)) (c : Conn V)
      → house (tell_disconnected nc o c) ≡ house c
  unfolding tell_disconnected dispatch_disconnect call
  tell_house nc o c = ground arith

  close_leaves :
      (ncs : List (Bytes × NamespaceConn V)) (c : Conn V) (id : Bytes)
      → c.session_id ≡ id
      → IsHoused c.session_id c.rooms ncs
      → (name room : Bytes) → occupant room id (at_name name (close_namespaces ncs c).rooms) ≡ none
  unfolding close_namespaces
  close_leaves [] c id e k name room =
      ap (λ (i : Bytes). occupant room i (at_name name c.rooms)) (sym e)
      ∙ k.outside name room (unfold Dict.lookup in refl)
  close_leaves ((n, nc) ∷ ncs) c id e k name room =
      let told = tell_disconnected nc (Dict.lookup n c.handlers) c in
      let same = tell_house nc (Dict.lookup n c.handlers) c in
      let k' : IsHoused told.session_id told.rooms ((n, nc) ∷ ncs) =
        subst (λ (t : House V). IsHoused t.0 t.1 ((n, nc) ∷ ncs)) (sym same) k in
      close_leaves ncs (leave_all nc told) id (unfold leave_all in (λ i. (same i).0) ∙ e)
        (unfold leave_all in
          leave_all-IsHoused n nc told ((n, nc) ∷ ncs) ncs k.own.0 k.own.1
            (λ j t g. unfold Dict.lookup in rw t g) k')
        name room

  pub close_conn-IsGone :
      (c : Conn V) (id : Bytes)
      → c.session_id ≡ id
      → c.closed ≡ false
      → Housed c
      → IsGone id (close_conn c).rooms
  unfolding close_conn
  close_conn-IsGone c id e o k name room =
      (λ i. occupant room id (
        at_name name
          (if o i then c else record (close_namespaces c.namespaces c) { closed = true }).rooms))
      ∙ close_leaves c.namespaces c id e k name room

  -- Where the session stands when its connection has been made.
  unfoldable pub Ready : Bytes → Conn V → Type 0
  Ready id c = (c.session_id ≡ id) × (c.closed ≡ false) × Housed c

  pub connect_root-Ready :
      (encoded : Option Err) (o : Option (Handler V)) (id : Bytes) (c : Conn V)
      → Ready id c
      → Ready id (connect_root encoded o c).1
  unfolding Ready connect_root
  connect_root-Ready encoded none id c k = k
  connect_root-Ready (some e) (some handler) id c k = (
    unfold join set_namespace in k.0,
    unfold join set_namespace in k.1,
    open-Housed c.session_id root_namespace (new_namespace_conn alias_root_namespace root_namespace)
        c refl k.2,
  )
  connect_root-Ready none (some handler) id c k =
      let root = new_namespace_conn alias_root_namespace root_namespace in
      let joined = join c.session_id root (set_namespace root_namespace root c) in
      let result = (connect_root none (some handler) c).1 in
      let same : (house result ≡ house joined) × (result.closed ≡ joined.closed) =
        unfold connect_root dispatch_connect call in ground arith in
      (
        (λ i. (same.0 i).0) ∙ unfold join set_namespace in k.0,
        same.1 ∙ unfold join set_namespace in k.1,
        moved joined result same.0 (open-Housed c.session_id root_namespace root c refl k.2),
      )

  pub conn_with-Ready :
      (id : Bytes) (handlers : List (Bytes × Handler V)) (rooms : RoomTable)
      → ((name : Bytes) → IsTidy (at_name name rooms))
      → IsGone id rooms
      → Ready id (conn_with id handlers rooms)
  unfolding Ready conn_with
  conn_with-Ready id handlers rooms tidy gone =
      (refl, refl, record { tidy = tidy; own = tt; outside = λ name room e. gone name room })

  pub loop-Ready :
      (server : Bool) (id : Bytes) (is : List (Input V)) (c : Conn V)
      → AreReached server is c
      → Ready id c
      → Ready id (read_loop server is c).1
  unfolding Ready Kept
  loop-Ready server id is c h k =
      let kept = loop-Kept server is c in
      (kept.0 ∙ k.0, kept.1 ∙ k.1, loop-Housed server is c h k.2)

  pub loop_open :
      (server : Bool) (id : Bytes) (is : List (Input V)) (c : Conn V)
      → Ready id c
      → ((read_loop server is c).1.session_id ≡ id) × ((read_loop server is c).1.closed ≡ false)
  unfolding Ready Kept
  loop_open server id is c k = let kept = loop-Kept server is c in (kept.0 ∙ k.0, kept.1 ∙ k.1)
