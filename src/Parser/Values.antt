-- ===== src/Parser/Values.antt =====
-- The arguments of an event as reflection sees them, and the buffers among them: `attachBuffer` of
-- parser/encoder.go, `detachBuffer` of parser/decoder.go, and parser/buffer.go. A value is a tree: the
-- fields of a struct are exported, no pointer stands in two places, and no struct type but that of parser/buffer.go is named
-- `Buffer`: the code knows it by this name alone, and would panic in its assertion of the type for another.
pub mod Numbering
pub mod Restore
use go_socket_io.Prelude.{
  ℕ, suc, ◌+◌, Bool, true, false, Option, none, some, List, [], ◌∷◌, ◌++◌, Bytes, codes,
  if◌then◌else◌, get_elem?,
}
use go_socket_io.Parser.Header.{write_uint64}

-- `parser.Buffer`, with `content` for `Data`.
pub record Buffer : Type 0 where
  pub num : ℕ
  pub is_binary : Bool
  pub content : Bytes

-- A value by its `Kind`; the keys of a map stand in the order of `MapKeys`, and `other` is a value of any
-- further kind, by the text of its JSON.
mutual
  pub data Value : Type 0 where
    other : Bytes → Value
    pointer : Value → Value
    interface : Value → Value
    buffer : Buffer → Value
    struct : Values → Value
    array : Values → Value
    slice : Values → Value
    dict : List Bytes → Values → Value

  pub data Values : Type 0 where
    nil : Values
    cons : Value → Values → Values

-- What a walk over a value answers: the value with its buffers numbered, their data, and the next number;
-- `none` is `errFailedBufferAddress`.
abbrev pub Walk : Type 0 → Type 0
Walk A = Option (A × List Bytes × ℕ)

abbrev pub rebuilt : {A B : Type 0} → (A → B) → Walk A → Walk B
rebuilt f none = none
rebuilt f (some (a, data_of, next)) = some (f a, data_of, next)

abbrev pub joined : Value → List Bytes → Walk Values → Walk Values
joined v before none = none
joined v before (some (vs, behind, next)) = some (cons v vs, before ++ behind, next)

-- One element, then the elements behind it.
abbrev pub then_walk : Walk Value → (ℕ → Walk Values) → Walk Values
then_walk none rest = none
then_walk (some (v, before, next)) rest = joined v before (rest next)

-- `attachBuffer`; `addressable` is `CanAddr`. What a pointer shows and the elements of a slice are
-- addressable, fields and elements of an array are so where the whole is, and the rest is not.
unfoldable mutual
  pub attach : Bool → Value → ℕ → Walk Value
  attach addressable (other text) i = some (other text, [], i)
  attach addressable (pointer v) i = rebuilt pointer (attach true v i)
  attach addressable (interface v) i = rebuilt interface (attach false v i)
  attach addressable (buffer b) i =
      if addressable
      then some (buffer (record b { num = i; is_binary = true }), b.content ∷ [], i + 1)
      else none
  attach addressable (struct vs) i = rebuilt struct (attach_all addressable vs i)
  attach addressable (array vs) i = rebuilt array (attach_all addressable vs i)
  attach addressable (slice vs) i = rebuilt slice (attach_all true vs i)
  attach addressable (dict keys vs) i = rebuilt (dict keys) (attach_all false vs i)

  pub attach_all : Bool → Values → ℕ → Walk Values
  attach_all addressable nil i = some (nil, [], i)
  attach_all addressable (cons v vs) i =
      then_walk (attach addressable v i) (attach_all addressable vs)

-- What `detachBuffer` answers: a panic, `errFailedBufferAddress`, or the value with its buffers.
pub data Detached (A : Type 0) : Type 0 where
  panic failed : Detached A
  restored : A → Detached A

abbrev pub map_detached : {A B : Type 0} → (A → B) → Detached A → Detached B
map_detached f panic = panic
map_detached f failed = failed
map_detached f (restored a) = restored (f a)

abbrev pub then_detached : Detached Value → Detached Values → Detached Values
then_detached panic rest = panic
then_detached failed rest = failed
then_detached (restored v) rest = map_detached (cons v) rest

-- `*buffer = buffers[buffer.num]`, where each of `buffers` has only its data.
abbrev pub fetched : Option Bytes → Detached Value
fetched none = panic
fetched (some bs) = restored (buffer (record { num = 0; is_binary = false; content = bs }))

unfoldable mutual
  pub detach : Bool → Value → List Bytes → Detached Value
  detach addressable (other text) buffers = restored (other text)
  detach addressable (pointer v) buffers = map_detached pointer (detach true v buffers)
  detach addressable (interface v) buffers = map_detached interface (detach false v buffers)
  detach addressable (buffer b) buffers =
      if addressable
      then (if b.is_binary then fetched (get_elem? buffers b.num) else restored (buffer b))
      else failed
  detach addressable (struct vs) buffers = map_detached struct (detach_all addressable vs buffers)
  detach addressable (array vs) buffers = map_detached array (detach_all addressable vs buffers)
  detach addressable (slice vs) buffers = map_detached slice (detach_all true vs buffers)
  detach addressable (dict keys vs) buffers = map_detached (dict keys) (detach_all false vs buffers)

  pub detach_all : Bool → Values → List Bytes → Detached Values
  detach_all addressable nil buffers = restored nil
  detach_all addressable (cons v vs) buffers =
      then_detached (detach addressable v buffers) (detach_all addressable vs buffers)

-- `encodeText`
numbers : Bytes → Bytes
numbers [] = []
numbers (b ∷ bs) = codes "," ++ (write_uint64 b ++ numbers bs)

text_of : Bytes → Bytes
text_of [] = []
text_of (b ∷ bs) = write_uint64 b ++ numbers bs

-- `MarshalJSON`
unfoldable pub marshal_json : Buffer → Bytes
unfolding text_of numbers
marshal_json b =
    if b.is_binary
    then codes "{\"_placeholder\":true,\"num\":" ++ (write_uint64 b.num ++ codes "}")
    else codes "{\"type\":\"Buffer\",\"data\":[" ++ (text_of b.content ++ codes "]}")
