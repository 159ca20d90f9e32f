-- ===== src/Namespace/Functions.antt =====
-- handler.go, and `OnEvent` and `getEventTypes` of namespace_handler.go: a user's function as reflection sees it, and
-- its call with the values that `DecodeArgs` has made. `reflect` panics where a function that is not variadic
-- gets too few or too many values; a `reflect.Value` of a wrong type is left out.
use go_socket_io.Prelude.{
  ℕ, suc, ◌+◌, ◌≡◌, refl, ap, ◌∙◌, Bool, not, Option, none, some, List, [], ◌∷◌, Bytes, length,
  arith, if◌then◌else◌, ◌==◌, bytes_eq, bytes_eq_iff, bytes-Eq, ℕ-Eq, Option-cases, inl, inr,
}
use go_socket_io.Prelude.Dict
use go_socket_io.Prelude.Dict.{lookup-insert}
use go_socket_io.Reader.{Err}
use go_socket_io.Namespace.{Answer}

-- How a function's body ends: with values, or with a panic of an error or of something else.
pub data Ending (V : Type 0) : Type 0 where
  returns : List V → Ending V
  panics_with : Err → Ending V
  panics : Ending V

-- A value that is given as a function: whether it is one, the names of its parameters' types, and its body.
pub record GoFunction (V : Type 0) : Type 0 where
  pub is_func : Bool
  pub ins : List Bytes
  pub body : List V → Ending V

pub record FuncHandler (V : Type 0) : Type 0 where
  pub arg_types : List Bytes
  pub f : GoFunction V

-- "Conn"
abbrev pub conn_interface : Bytes
conn_interface = 67 ∷ 111 ∷ 110 ∷ 110 ∷ []

level : (a n m : ℕ) → n ≡ m + 1 → (suc a == n) ≡ (a == m)
level a n m h = ground arith

module _ {V : Type 0} where
  event_ins : GoFunction V → List Bytes → Option (FuncHandler V)
  event_ins f [] = none
  event_ins f (t ∷ ts) =
      if bytes_eq t conn_interface then some (record { arg_types = ts; f = f }) else none

  -- `newEventFunc` and `newAckFunc`, `none` for a panic.
  unfoldable pub new_event_func : GoFunction V → Option (FuncHandler V)
  unfolding event_ins
  new_event_func f = if not f.is_func then none else event_ins f f.ins

  unfoldable pub new_ack_func : GoFunction V → Option (FuncHandler V)
  new_ack_func f = if not f.is_func then none else some (record { arg_types = f.ins; f = f })

  -- What `recover` makes of the end; `call_error` is the error of a panic without one.
  abbrev pub recovered : Err → Ending V → Answer V
  recovered call_error (returns vs) = (vs, none)
  recovered call_error (panics_with e) = ([], some e)
  recovered call_error panics = ([], some call_error)

  -- `Call`
  unfoldable pub call : Err → FuncHandler V → List V → Answer V
  call call_error h args =
      recovered call_error (if length args == length h.f.ins then h.f.body args else panics)

  -- The functions of a handler's events.
  unfoldable pub on_event :
      Bytes → GoFunction V → List (Bytes × FuncHandler V) → Option (List (Bytes × FuncHandler V))
  on_event event f events = elim (new_event_func f) [
    | none ↦ none
    | some h ↦ some (Dict.insert event h events)
  ]

  unfoldable pub get_event_types : Bytes → List (Bytes × FuncHandler V) → List Bytes
  get_event_types event events = elim (Dict.lookup event events) [
    | none ↦ []
    | some h ↦ h.arg_types
  ]

  -- `dispatchEvent`, which puts the connection in front of the arguments.
  unfoldable pub dispatch_event : Err → V → Bytes → List (Bytes × FuncHandler V) → List V → Answer V
  dispatch_event call_error conn event events args = elim (Dict.lookup event events) [
    | none ↦ ([], none)
    | some h ↦ call call_error h (conn ∷ args)
  ]

  -- What `newEventFunc` has checked.
  made_event_func :
      (f : GoFunction V) (h : FuncHandler V)
      → new_event_func f ≡ some h
      → (h.f ≡ f) × (length f.ins ≡ length h.arg_types + 1)
  unfolding new_event_func event_ins
  made_event_func f h e = ground (arith, e)

  pub registered :
      (event : Bytes) (f : GoFunction V) (events events' : List (Bytes × FuncHandler V))
      → on_event event f events ≡ some events'
      → (h : FuncHandler V) × (new_event_func f ≡ some h) × (Dict.lookup event events' ≡ some h)
  unfolding on_event
  registered event f events events' e = elim (Option-cases (new_event_func f)) [
    | inl n ↦ absurd (ground (arith, n, e))
    | inr (h, n) ↦
        (h, n, ground (arith, n, e, lookup-insert event event h events, bytes_eq_iff event event))
  ]

  pub types_of :
      (event : Bytes) (h : FuncHandler V) (events : List (Bytes × FuncHandler V))
      → Dict.lookup event events ≡ some h
      → get_event_types event events ≡ h.arg_types
  unfolding get_event_types
  types_of event h events found = rw (found, get_event_types) refl

  -- A call of a registered event's function.
  pub called :
      (call_error : Err) (conn : V) (event : Bytes) (f : GoFunction V) (h : FuncHandler V)
      (events : List (Bytes × FuncHandler V)) (args : List V)
      → new_event_func f ≡ some h
      → Dict.lookup event events ≡ some h
      → dispatch_event call_error conn event events args
        ≡ recovered call_error
            (if length args == length h.arg_types then f.body (conn ∷ args) else panics)
  unfolding dispatch_event call
  called call_error conn event f h events args made found =
      let checked = made_event_func f h made in
      rw (found, dispatch_event)
        ((λ i.
          recovered call_error
            (if same checked.0 checked.1 i then (checked.0 i).body (conn ∷ args) else panics)))
    where
      same :
          h.f ≡ f
          → length f.ins ≡ length h.arg_types + 1
          → (suc (length args) == length h.f.ins) ≡ (length args == length h.arg_types)
      same e k =
          level (length args) (length h.f.ins) (length h.arg_types)
            (ap (λ (x : GoFunction V). length x.ins) e ∙ k)
