-- ===== src/Payload/Feeder.antt =====
-- engineio/payload/payload.go: a payload hands the sources and sinks of `FeedIn` and `FlushOut` over to the
-- decoder and the encoder. A call is a function of what it finds on its way: what each turn of its loops
-- comes to, whether the payload is closed, and the error that is held when it looks. What it does to
-- the parts that goroutines share is recorded in order.
pub mod Outcomes
use go_socket_io.Prelude.{
  Bool, true, false, not, Option, none, some, List, [], ◌∷◌, ◌++◌, if◌then◌else◌,
}
use go_socket_io.Reader.{Err}

pub data Op : Type 0 where
  read write payload : Op

-- The errors of errors.go, `io.EOF`, and those of readers and writers.
pub data Cause : Type 0 where
  overlap paused timeout end_of_file : Cause
  other : Err → Cause

-- `io.EOF` or an `OpError`
pub data PayloadError : Type 0 where
  eof_error : PayloadError
  op_error : Op → Cause → PayloadError

-- `Store`, with the error that was held and the one held now. No error and `io.EOF` are not held.
keep : Op → Option Cause → Option PayloadError × Option PayloadError
keep op none = (none, none)
keep op (some end_of_file) = (some eof_error, none)
keep op (some c) = (some (op_error op c), some (op_error op c))

unfoldable pub store :
    Op → Option Cause → Option PayloadError → Option PayloadError × Option PayloadError
unfolding keep
store op e none = keep op e
store op e (some old) = (some old, some old)

unfoldable pub load : Option PayloadError → PayloadError
load none = eof_error
load (some e) = e

-- A turn of a loop: the deadline has passed, the timer has fired, or a channel of the `select` is ready.
pub data Turn (A : Type 0) : Type 0 where
  expired woken : Turn A
  chosen : A → Turn A

-- The turn that ends the loop.
unfoldable pub settle : {A : Type 0} → List (Turn A) → Option (Option A)
settle [] = none
settle (woken ∷ turns) = settle turns
settle (expired ∷ turns) = some none
settle (chosen a ∷ turns) = some (some a)

pub data Effect : Type 0 where
  -- `feeding` or `flushing` set and reset
  enter leave : Effect
  -- `Working` with its permission, and `Done`
  worker_in worker_out : Effect
  -- a source or a sink through its channel, and an error through the other
  handed answered : Effect
  noop_written : Effect

pub data Ending (A : Type 0) : Type 0 where
  waits : Ending A
  returns : A → Ending A

pub record Outcome (A : Type 0) : Type 0 where
  pub ending : Ending A
  pub held : Option PayloadError
  pub effects : List Effect

abbrev pub outcome : {A : Type 0} → A → Option PayloadError → Outcome A
outcome a held = record { ending = returns a; held = held; effects = [] }

-- Effects, then the rest.
abbrev pub doing : {A : Type 0} → List Effect → Outcome A → Outcome A
doing es r = record r { effects = es ++ r.effects }

-- What `defer` runs at the return.
unfoldable pub on_return : {A : Type 0} → Ending A → List Effect → List Effect
on_return waits es = []
on_return (returns a) es = es

abbrev pub deferring : {A : Type 0} → List Effect → Outcome A → Outcome A
deferring es r = record r { effects = r.effects ++ on_return r.ending es }

abbrev waiting : {A : Type 0} → Option PayloadError → Outcome A
waiting held = record { ending = waits; held = held; effects = [] }

abbrev stored : Option PayloadError × Option PayloadError → Outcome (Option PayloadError)
stored (e, held) = outcome e held

-- What a call of `FeedIn` finds. `handing` ends with the close or with the source taken, and `answers` with
-- the decoder's error.
pub data FeedChoice : Type 0 where
  feed_closed feed_taken : FeedChoice

pub record FeedAnswers : Type 0 where
  pub closed : Bool
  pub alone : Bool
  pub let_in : Bool
  pub handing : List (Turn FeedChoice)
  pub answers : List (Turn (Option Cause))
  pub held : Option PayloadError

-- The second loop.
await_answer :
    Op → Option PayloadError → Option (Option (Option Cause)) → Outcome (Option PayloadError)
await_answer op held none = waiting held
await_answer op held (some none) = stored (store op (some timeout) held)
await_answer op held (some (some e)) = stored (store op e held)

feed_chosen :
    FeedAnswers
    → Option (Option (Option Cause))
    → Option (Option FeedChoice)
    → Outcome (Option PayloadError)
feed_chosen a answer none = waiting a.held
feed_chosen a answer (some none) = stored (store read (some timeout) a.held)
feed_chosen a answer (some (some feed_closed)) = outcome (some (load a.held)) a.held
feed_chosen a answer (some (some feed_taken)) =
    doing (handed ∷ []) (await_answer read a.held answer)

unfoldable pub feed_in : FeedAnswers → Outcome (Option PayloadError)
unfolding feed_chosen await_answer on_return store load keep
feed_in a =
    if a.closed
    then outcome (some (load a.held)) a.held
    else if not a.alone
    then outcome (some (op_error read overlap)) a.held
    else doing (enter ∷ []) (
        deferring (leave ∷ []) (
          if not a.let_in
          then outcome (some (op_error payload paused)) a.held
          else doing (worker_in ∷ [])
              (deferring (worker_out ∷ []) (feed_chosen a (settle a.answers) (settle a.handing)))))

pub data FlushChoice : Type 0 where
  flush_closed flush_pausing flush_taken : FlushChoice

pub record FlushAnswers : Type 0 where
  pub closed : Bool
  pub alone : Bool
  pub let_in : Bool
  pub handing : List (Turn FlushChoice)
  pub answers : List (Turn (Option Cause))
  -- What the writing of a NOOP comes to.
  pub noop : Option PayloadError
  pub held : Option PayloadError

flush_chosen :
    FlushAnswers
    → Option (Option (Option Cause))
    → Option (Option FlushChoice)
    → Outcome (Option PayloadError)
flush_chosen a answer none = waiting a.held
flush_chosen a answer (some none) = stored (store write (some timeout) a.held)
flush_chosen a answer (some (some flush_closed)) = outcome (some (load a.held)) a.held
flush_chosen a answer (some (some flush_pausing)) =
    doing (noop_written ∷ []) (outcome a.noop a.held)
flush_chosen a answer (some (some flush_taken)) =
    doing (handed ∷ []) (await_answer write a.held answer)

unfoldable pub flush_out : FlushAnswers → Outcome (Option PayloadError)
unfolding flush_chosen await_answer on_return store load keep
flush_out a =
    if a.closed
    then outcome (some (load a.held)) a.held
    else if not a.alone
    then outcome (some (op_error write overlap)) a.held
    else doing (enter ∷ []) (
        deferring (leave ∷ []) (
          if not a.let_in
          then doing (noop_written ∷ []) (outcome a.noop a.held)
          else doing (worker_in ∷ [])
              (deferring (worker_out ∷ []) (flush_chosen a (settle a.answers) (settle a.handing)))))

-- `getReader` and `getWriter` are one function of the operation's name; `S` is what comes through the channel.
pub data GetChoice (S : Type 0) : Type 0 where
  get_closed get_paused : GetChoice S
  get_given : S → GetChoice S

pub data Got (S : Type 0) : Type 0 where
  error : PayloadError → Got S
  given : S → Got S

module _ {S : Type 0} where
  stored_error : Option PayloadError × Option PayloadError → Outcome (Got S)
  stored_error (e, held) = outcome (error (load e)) held

  get_chosen : Op → Option PayloadError → Option (Option (GetChoice S)) → Outcome (Got S)
  get_chosen op held none = waiting held
  get_chosen op held (some none) = stored_error (store op (some timeout) held)
  get_chosen op held (some (some get_closed)) = outcome (error (load held)) held
  get_chosen op held (some (some get_paused)) = outcome (error (op_error payload paused)) held
  get_chosen op held (some (some (get_given x))) = doing (handed ∷ []) (outcome (given x) held)

  unfoldable pub get :
      Op → Bool → Bool → List (Turn (GetChoice S)) → Option PayloadError → Outcome (Got S)
  unfolding get_chosen stored_error store load keep
  get op closed let_in turns held =
      if closed
      then outcome (error (load held)) held
      else if not let_in
      then outcome (error (op_error payload paused)) held
      else doing (worker_in ∷ worker_out ∷ []) (get_chosen op held (settle turns))

abbrev pub get_reader :
    {S : Type 0} → Bool → Bool → List (Turn (GetChoice S)) → Option PayloadError → Outcome (Got S)
get_reader = get read

abbrev pub get_writer :
    {S : Type 0} → Bool → Bool → List (Turn (GetChoice S)) → Option PayloadError → Outcome (Got S)
get_writer = get write

pub data PutChoice : Type 0 where
  put_closed put_taken : PutChoice

put_chosen : Option PayloadError → Option (Option PutChoice) → Outcome (Option PayloadError)
put_chosen held none = waiting held
put_chosen held (some none) = stored (store read (some timeout) held)
put_chosen held (some (some put_closed)) = outcome (some (load held)) held
put_chosen held (some (some put_taken)) = doing (answered ∷ []) (outcome none held)

unfoldable pub put_reader :
    Bool → List (Turn PutChoice) → Option PayloadError → Outcome (Option PayloadError)
unfolding put_chosen store load keep
put_reader closed turns held =
    if closed then outcome (some (load held)) held else put_chosen held (settle turns)

-- `putWriter` stores the error before it offers it.
unfoldable pub put_writer :
    Bool
    → Option Cause
    → List (Turn PutChoice)
    → Option PayloadError
    → Outcome (Option PayloadError)
put_writer closed e [] held =
    if closed then outcome (some (load held)) held else waiting (store write e held).1
put_writer closed e (turn ∷ turns) held =
    let again = put_writer false e turns (store write e held).1 in
    if closed then outcome (some (load held)) held else elim turn [
      | expired ↦ stored (store write (some timeout) held)
      | woken ↦ again
      | chosen choice ↦
          let (kept, now) = store write e held in
          elim choice [
            | put_closed ↦ outcome (some (load now)) now
            | put_taken ↦ doing (answered ∷ []) (outcome kept now)
          ]
    ]
