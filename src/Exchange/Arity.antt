-- ===== src/Exchange/Arity.antt =====
-- A user's function is called with as many values as it has parameters.
use go_socket_io.Prelude.{List, [], ◌∷◌, bytes-Eq, ℕ-Eq}
use go_socket_io.Parser.Values.{Value, Values, nil, cons}
use go_socket_io.Parser.Frames.{Json, json_eof, json_error, values}

-- `make([]reflect.Value, len(types))` of `DecodeArgs`, with a zero value for each type: JSON fills it from the left,
-- what is missing stays zero, and what is too much is left out.
unfoldable pub sized : List Value → Values → Values
sized [] vs = nil
sized (z ∷ zs) nil = cons z (sized zs nil)
sized (z ∷ zs) (cons v vs) = cons v (sized zs vs)

unfoldable pub for_types : List Value → Json → Json
for_types zeros json_eof = json_eof
for_types zeros (json_error e) = json_error e
for_types zeros (values vs) = values (sized zeros vs)
