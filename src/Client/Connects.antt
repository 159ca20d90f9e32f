-- ===== src/Client/Connects.antt =====
-- When a client of `NewClient` connects.
use go_socket_io.Prelude.{
  Bool, true, false, Option, none, some, List, [], ◌∷◌, Bytes, ◌≡◌, refl, sym, ◌∙◌, ap,
  if◌then◌else◌, ◌||◌, ◌&&◌, bytes_eq, bytes-Eq, arith, Option-cases, inl, inr,
}
use go_socket_io.Prelude.Dict
use go_socket_io.Prelude.Dict.{has_value, lookup-insert}
use go_socket_io.Reader.{Err}
use go_socket_io.Namespace.{unavailable_root_handler, Answer, Handler, root_namespace}
use go_socket_io.Server.{new_handler, conn_with}
use go_socket_io.Client.{
  Client, Made, empty_addr, bad_addr, made, Parsed, unparsed, parsed, new_client, client_at, dialed,
  with_handler, changed, get_namespace, create_namespace, set_handlers, set_rooms, on_connect,
  on_disconnect, on_error, on_event, connect, connect_client, connect_end,
}

again : (b x y : Bool) → x ≡ (b || y) → (b || x) ≡ (b || y)
again b x y e = ground arith

module _ (V : Type 0) where
  -- A call of one of the methods that set a function.
  pub data Registration : Type 0 where
    connect_function : Option Err → Registration
    disconnect_function error_function : Registration
    event_function : Bytes → (List V → Answer V) → Registration

module _ {V : Type 0} where
  unfoldable pub register : Registration V → Client V → Client V
  register (connect_function e) = on_connect e
  register disconnect_function = on_disconnect
  register error_function = on_error
  register (event_function e f) = on_event e f

  unfoldable pub register_all : List (Registration V) → Client V → Client V
  register_all [] c = c
  register_all (r ∷ rs) c = register_all rs (register r c)

  abbrev pub not_empty : List (Registration V) → Bool
  not_empty [] = false
  not_empty (r ∷ rs) = true

  has_if :
      (b : Bool) (h : Handler V) (o : Option (Handler V))
      → has_value (if b then some h else o) ≡ (b || has_value o)
  has_if true h o = refl
  has_if false h o = refl

  has-insert :
      (k n : Bytes) (h : Handler V) (hs : List (Bytes × Handler V))
      → has_value (Dict.lookup n (Dict.insert k h hs))
        ≡ (bytes_eq k n || has_value (Dict.lookup n hs))
  has-insert k n h hs =
      ap has_value (lookup-insert k n h hs) ∙ has_if (bytes_eq k n) h (Dict.lookup n hs)

  with_handler_namespace :
      (f : Handler V → Handler V) (c : Client V) → (with_handler f c).namespace ≡ c.namespace
  unfolding with_handler changed create_namespace get_namespace set_handlers set_rooms
  with_handler_namespace f c = ground arith

  with_handler_root :
      (f : Handler V → Handler V) (c : Client V)
      → has_value (Dict.lookup root_namespace (with_handler f c).handlers)
        ≡ (bytes_eq c.namespace root_namespace || has_value (Dict.lookup root_namespace c.handlers))
  unfolding with_handler changed create_namespace get_namespace set_handlers set_rooms
  with_handler_root f c = elim (Option-cases (get_namespace c.namespace c)) [
    | inl e ↦
        rw (e, with_handler)
          (has-insert c.namespace root_namespace _ (Dict.insert c.namespace new_handler c.handlers)
            ∙ again (bytes_eq c.namespace root_namespace) _ _
                (has-insert c.namespace root_namespace new_handler c.handlers))
    | inr (h, e) ↦ rw (e, with_handler) (has-insert c.namespace root_namespace (f h) c.handlers)
  ]

  register_namespace : (r : Registration V) (c : Client V) → (register r c).namespace ≡ c.namespace
  unfolding register on_connect on_disconnect on_error on_event
  register_namespace (connect_function e) c = with_handler_namespace _ c
  register_namespace disconnect_function c = with_handler_namespace _ c
  register_namespace error_function c = with_handler_namespace _ c
  register_namespace (event_function e f) c = with_handler_namespace _ c

  register_root :
      (r : Registration V) (c : Client V)
      → has_value (Dict.lookup root_namespace (register r c).handlers)
        ≡ (bytes_eq c.namespace root_namespace || has_value (Dict.lookup root_namespace c.handlers))
  unfolding register on_connect on_disconnect on_error on_event
  register_root (connect_function e) c = with_handler_root _ c
  register_root disconnect_function c = with_handler_root _ c
  register_root error_function c = with_handler_root _ c
  register_root (event_function e f) c = with_handler_root _ c

  register_all_root :
      (rs : List (Registration V)) (c : Client V)
      → has_value (Dict.lookup root_namespace (register_all rs c).handlers) ≡ (
          has_value (Dict.lookup root_namespace c.handlers)
          || bytes_eq c.namespace root_namespace && not_empty rs)
  unfolding register_all
  register_all_root [] c = ground arith
  register_all_root (r ∷ rs) c =
      ground (arith, register_all_root rs (register r c), register_namespace r c, register_root r c)

  made_handlers : Made V → List (Bytes × Handler V)
  made_handlers empty_addr = []
  made_handlers (bad_addr e) = []
  made_handlers (made c) = c.handlers

  either_handlers :
      (b : Bool) (m : Made V)
      → made_handlers m ≡ []
      → made_handlers (if b then empty_addr else m) ≡ []
  unfolding made_handlers
  either_handlers true m e = refl
  either_handlers false m e = e

  connect_answer :
      (id : Bytes) (c : Client V)
      → (connect (dialed id) none c).0 ≡ (
          if has_value (Dict.lookup root_namespace c.handlers)
          then none
          else some unavailable_root_handler)
  unfolding connect connect_client connect_end conn_with
  connect_answer id c = ground arith

  module _ {U : Type 0} (parse : Bytes → Parsed U) (path : U → Bytes) (with_path : Bytes → U → U)
      (escaped_path text : U → Bytes) (join_path : Bytes → Bytes → Bytes) where
    client_at_handlers :
        (p : Parsed U)
        → made_handlers (client_at parse path with_path escaped_path text join_path p) ≡ []
    unfolding made_handlers client_at
    client_at_handlers (unparsed e) = refl
    client_at_handlers (parsed u) = refl

    new_client_handlers :
        (addr : Bytes) (c : Client V)
        → new_client parse path with_path escaped_path text join_path addr ≡ made c
        → c.handlers ≡ []
    unfolding new_client made_handlers
    new_client_handlers addr c e =
        sym (ap made_handlers e)
        ∙ either_handlers (bytes_eq addr [])
            (client_at parse path with_path escaped_path text join_path (parse addr))
            (client_at_handlers (parse addr))

    -- A client of `NewClient`, whose dialer gives a connection and whose connect packet is encoded, connects
    -- exactly if its namespace is the root's and one of its handler methods was called before; else
    -- `Connect` fails, for it has no handler of the root. So no client of another namespace ever connects,
    -- whatever handlers it was given.
    pub connect-new_client :
        (addr : Bytes) (c : Client V) (rs : List (Registration V)) (id : Bytes)
        → new_client parse path with_path escaped_path text join_path addr ≡ made c
        → (connect (dialed id) none (register_all rs c)).0 ≡ (
            if bytes_eq c.namespace root_namespace && not_empty rs
            then none
            else some unavailable_root_handler)
    connect-new_client addr c rs id e =
        let made_new = new_client_handlers addr c e in
        let rooted : has_value (Dict.lookup root_namespace (register_all rs c).handlers)
            ≡ (bytes_eq c.namespace root_namespace && not_empty rs) =
          register_all_root rs c
          ∙ unfold Dict.lookup in
            (λ i.
              has_value (Dict.lookup root_namespace (made_new i))
              || bytes_eq c.namespace root_namespace && not_empty rs) in
        connect_answer id (register_all rs c)
        ∙ (λ i. if rooted i then none else some unavailable_root_handler)
