-- ===== src/Engine/Ids.antt =====
-- The ids that the default generator gives to sessions, over any events.
use mathlib.Core.Option.{some-injective}
use mathlib.Core.Path.{subst}
use go_socket_io.Prelude.{
  ℕ, ◌+◌, ◌%◌, ◌^◌, ◌≤◌, ◌<◌, ◌≡◌, refl, sym, ◌⊎◌, inl, inr, Bool, true, false, Option, none, some,
  List, [], ◌∷◌, ◌++◌, Bytes, arith, length, Bool-cases, Option-cases, bytes-Eq, ◌∙◌,
}
use go_socket_io.Prelude.Dict
use go_socket_io.Prelude.Dict.{
  has_value, AllKeys, insert-AllKeys, remove-AllKeys, lookup-AllKeys, map-AllKeys,
}
use go_socket_io.Engine.{
  Entry, Server, Request, Event, requested, initialised, upgraded, removed, accepting, closing,
  new_server, new_id, new_session, serve_http, init_end, upgrade_end, add, remove, accept, close,
  step, run,
}

module _ (format : ℕ → Bytes) where
  -- An id that has been given out.
  abbrev Issued : ℕ → Bytes → Type 0
  Issued n sid = (k : ℕ) × (k ≤ n) × (sid ≡ format k)

  record IsIssued (s : Server) : Type 0 where
    in_sessions : AllKeys (Issued s.last_id) s.sessions
    in_starting : AllKeys (Issued s.last_id) s.starting

  later : (n m : ℕ) → n ≤ m → (sid : Bytes) → Issued n sid → Issued m sid
  later n m h sid (k, le, e) = (k, omega arith, e)

  id_step : (s : Server) → s.last_id + 1 < 2 ^ 64 → (new_id format s).1.last_id ≡ s.last_id + 1
  unfolding new_id
  id_step s h = omega arith

  serve_http_cases :
      (r : Request) (s : Server)
      → ((serve_http format r s).1 ≡ s) ⊎ ((serve_http format r s).1 ≡ (new_session format r s).1)
  unfolding serve_http
  serve_http_cases r s = ground arith

  new_session-IsIssued :
      (r : Request) (s : Server)
      → s.last_id + 1 < 2 ^ 64
      → IsIssued s
      → IsIssued (new_session format r s).1 × ((new_session format r s).1.last_id ≤ s.last_id + 1)
  unfolding new_session new_id
  new_session-IsIssued r s fits h =
      let n = (s.last_id + 1) % 2 ^ 64 in
      let old = λ (sid : Bytes) (i : Issued s.last_id sid). later s.last_id n (omega arith) sid i in
      elim (Bool-cases (has_value r.session_made)) [
        | inl t ↦ rw t (
          record {
            in_sessions = map-AllKeys (Issued s.last_id) (Issued n) s.sessions old h.in_sessions;
            in_starting = map-AllKeys (Issued s.last_id) (Issued n) s.starting old h.in_starting;
          },
          omega arith,
        )
        | inr t ↦ rw t (
          record {
            in_sessions = map-AllKeys (Issued s.last_id) (Issued n) s.sessions old h.in_sessions;
            in_starting = (
              (n, omega arith, refl),
              map-AllKeys (Issued s.last_id) (Issued n) s.starting old h.in_starting,
            );
          },
          omega arith,
        )
      ]

  abbrev Kept : Server → Server → Type 0
  Kept s s' = IsIssued s' × (s'.last_id ≤ s.last_id + 1)

  same : (s : Server) → IsIssued s → Kept s s
  same s h = (h, omega arith)

  init_end-Kept :
      (sid : Bytes) (ok : Bool) (o : Option Entry) (s : Server) {s' : Server}
      → Dict.lookup sid s.starting ≡ o
      → IsIssued s
      → init_end sid ok o s ≡ some s'
      → Kept s s'
  unfolding init_end add
  init_end-Kept sid ok none s g h e = subst (Kept s) (some-injective _ _ e) (same s h)
  init_end-Kept sid false (some entry) s g h e = subst (Kept s) (some-injective _ _ e) (
    record {
      in_sessions = h.in_sessions;
      in_starting = remove-AllKeys (Issued s.last_id) sid s.starting h.in_starting;
    },
    omega arith,
  )
  init_end-Kept sid true (some entry) s g h e = elim (Bool-cases s.closed) [
    | inl t ↦ absurd (ground arith)
    | inr t ↦ subst (Kept s) (some-injective _ _ (sym (opened t) ∙ e)) (
      record {
        in_sessions =
            insert-AllKeys (Issued s.last_id) sid entry s.sessions
              (lookup-AllKeys (Issued s.last_id) sid s.starting entry h.in_starting g)
              h.in_sessions;
        in_starting = remove-AllKeys (Issued s.last_id) sid s.starting h.in_starting;
      },
      omega arith,
    )
  ]
    where
      opened :
          s.closed ≡ false
          → init_end sid true (some entry) s
            ≡ some (record (add sid entry (record s { starting = Dict.remove sid s.starting })) {
              accepted = s.accepted ++ (sid ∷ []);
            })
      opened t = rw t refl

  upgrade_end-Kept :
      (sid name : Bytes) (o : Option Entry) (s : Server)
      → Dict.lookup sid s.sessions ≡ o
      → IsIssued s
      → Kept s (upgrade_end sid name o s)
  unfolding upgrade_end
  upgrade_end-Kept sid name none s g h = same s h
  upgrade_end-Kept sid name (some entry) s g h =
      unfold add in
      (
        record {
          in_sessions =
              insert-AllKeys (Issued s.last_id) sid (record entry { transport = name }) s.sessions
                (lookup-AllKeys (Issued s.last_id) sid s.sessions entry h.in_sessions g)
                h.in_sessions;
          in_starting = h.in_starting;
        },
        omega arith,
      )

  remove-Kept : (sid : Bytes) (s : Server) → IsIssued s → Kept s (remove sid s)
  unfolding remove
  remove-Kept sid s h = elim (Bool-cases (has_value (Dict.lookup sid s.sessions))) [
    | inl t ↦ rw t (
      record {
        in_sessions = remove-AllKeys (Issued s.last_id) sid s.sessions h.in_sessions;
        in_starting = h.in_starting;
      },
      omega arith,
    )
    | inr t ↦ rw t (same s h)
  ]

  accept-Kept : (s : Server) → IsIssued s → Kept s (accept s).1
  unfolding accept
  accept-Kept s h = go s.accepted
    where
      go :
          (l : List Bytes)
          → Kept s
              (elim l as (λ x. Option Bytes × Server) [
                | [] ↦ (none, s)
                | sid ∷ sids ↦ (some sid, record s { accepted = sids })
              ]).1
      go [] = same s h
      go (sid ∷ sids) =
          (record { in_sessions = h.in_sessions; in_starting = h.in_starting }, omega arith)

  step-Kept :
      (e : Event) (s : Server) {s' : Server}
      → s.last_id + 1 < 2 ^ 64
      → IsIssued s
      → step format e s ≡ some s'
      → Kept s s'
  unfolding step
  step-Kept (requested r) s fits h g =
      subst (Kept s) (some-injective _ _ g) (elim (serve_http_cases r s) [
        | inl t ↦ subst (Kept s) (sym t) (same s h)
        | inr t ↦ subst (Kept s) (sym t) (new_session-IsIssued r s fits h)
      ])
  step-Kept (initialised sid ok) s fits h g =
      init_end-Kept sid ok (Dict.lookup sid s.starting) s refl h g
  step-Kept (upgraded sid name) s fits h g =
      subst (Kept s) (some-injective _ _ g)
        (upgrade_end-Kept sid name (Dict.lookup sid s.sessions) s refl h)
  step-Kept (removed sid) s fits h g = subst (Kept s) (some-injective _ _ g) (remove-Kept sid s h)
  step-Kept accepting s fits h g = subst (Kept s) (some-injective _ _ g) (accept-Kept s h)
  step-Kept closing s fits h g = subst (Kept s) (some-injective _ _ g) (
      unfold close in
      (record { in_sessions = h.in_sessions; in_starting = h.in_starting }, omega arith))

  run-IsIssued :
      (es : List Event) (s : Server) {s' : Server}
      → s.last_id + length es < 2 ^ 64
      → IsIssued s
      → run format es s ≡ some s'
      → IsIssued s' × (s'.last_id ≤ s.last_id + length es)
  unfolding run
  run-IsIssued [] s fits h g =
      subst (λ (t : Server). IsIssued t × (t.last_id ≤ s.last_id + 0)) (some-injective _ _ g)
        (h, omega arith)
  run-IsIssued (e ∷ es) s {s'} fits h g = elim (Option-cases (step format e s)) [
    | inl t ↦ absurd (ground arith)
    | inr (m, t) ↦
        let kept = step-Kept e s (omega arith) h t in
        let rest = run-IsIssued es m {s' = s'} (omega (arith, kept.1)) kept.0 (
          sym (λ i. elim (t i) as (λ x. Option Server) [ none ↦ none | some n ↦ run format es n ])
          ∙ g) in
        (rest.0, omega (arith, kept.1, rest.1))
  ]

  start-IsIssued : (transports : List Bytes) → IsIssued (new_server transports)
  unfolding new_server
  start-IsIssued transports = record { in_sessions = tt; in_starting = tt }

  not-Issued :
      (n : ℕ) (m : List (Bytes × Entry))
      → ((a b : ℕ) → a < 2 ^ 64 → b < 2 ^ 64 → format a ≡ format b → a ≡ b)
      → n + 1 < 2 ^ 64
      → AllKeys (Issued n) m
      → Dict.lookup (format (n + 1)) m ≡ none
  not-Issued n m injective fits h = elim (Option-cases (Dict.lookup (format (n + 1)) m)) [
    | inl t ↦ t
    | inr (entry, t) ↦
        let (k, le, e) = lookup-AllKeys (Issued n) (format (n + 1)) m entry h t in
        absurd (omega (arith, injective (n + 1) k fits (omega arith) e))
  ]

  -- Whatever requests, ends of `InitSession` and of upgrades, removals and closings there were, fewer than 2^64 - 1
  -- of them, the id that the generator gives next is not the id of any session, in the table or starting; if
  -- different numbers below 2^64 are written differently.
  pub new_id-IsFresh :
      ((a b : ℕ) → a < 2 ^ 64 → b < 2 ^ 64 → format a ≡ format b → a ≡ b)
      → (transports : List Bytes) (es : List Event) (s : Server) → length es + 1 < 2 ^ 64
      → run format es (new_server transports) ≡ some s
      → (Dict.lookup (new_id format s).0 s.sessions ≡ none)
        × (Dict.lookup (new_id format s).0 s.starting ≡ none)
  unfolding new_id
  new_id-IsFresh injective transports es s fits g =
      let (h, le) =
        run-IsIssued es (new_server transports) {s' = s} (unfold new_server in omega arith)
          (start-IsIssued transports) g in
      let bound : s.last_id + 1 < 2 ^ 64 = unfold new_server in omega (arith, le) in
      let next : (s.last_id + 1) % 2 ^ 64 ≡ s.last_id + 1 = omega arith in
      rw next (
        not-Issued s.last_id s.sessions injective bound h.in_sessions,
        not-Issued s.last_id s.starting injective bound h.in_starting,
      )
