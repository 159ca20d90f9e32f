-- ===== src/Websocket/Whole.antt =====
-- The packets that goroutines write on one connection, in any order of their calls.
use mathlib.Core.Option.{some-injective}
use go_socket_io.Prelude.{
  ◌≡◌, sym, ap, ◌∙◌, inl, inr, Option, none, some, List, [], ◌∷◌, ◌++◌, if◌then◌else◌, ℕ-Eq, map,
  arith, append_assoc, append-nil, Option-cases,
}
use go_socket_io.Payload.Stream.{Packet}
use go_socket_io.Websocket
use go_socket_io.Websocket.{
  Socket, new_socket, is_frame, Event, opened, wrote, closed, deadline_set, decode_frame,
}
use go_socket_io.Websocket.Owned.{
  Owned, unowned, owned_step, owned_run, all_concrete, concrete, run-concrete,
}
use go_socket_io.Websocket.Steps.{
  Drafts, put, no_drafts, sent, AreTyped, Matches, opened_step, wrote_step, closed_step,
  deadline_step,
}

-- A run that succeeds has a first state to run on from.
run_on :
    (e : Event) (es : List Event) (s : Owned) {s' : Owned}
    → owned_run (e ∷ es) s ≡ some s'
    → (m : Owned) × (owned_step e s ≡ some m) × (owned_run es m ≡ some s')
unfolding owned_run
run_on e es s {s'} g = elim (Option-cases (owned_step e s)) [
  | inl t ↦ absurd (ground arith)
  | inr (m, t) ↦ (
    m,
    t,
    sym (λ i. elim (t i) as (λ x. Option Owned) [ none ↦ none | some n ↦ owned_run es n ]) ∙ g,
  )
]

run_done : (s : Owned) {s' : Owned} → owned_run [] s ≡ some s' → s ≡ s'
unfolding owned_run
run_done s g = some-injective _ _ g

abbrev Carries : Owned → Owned → List Packet → Type 0
Carries s s' ps = map decode_frame s'.wire ≡ map decode_frame s.wire ++ map some ps

from : (s m s' : Owned) (ps : List Packet) → m.wire ≡ s.wire → Carries m s' ps → Carries s s' ps
from s m s' ps e c = c ∙ ap (λ w. map decode_frame w ++ map some ps) e

run-Carries :
    (es : List Event) (s : Owned) (d : Drafts) {s' : Owned}
    → AreTyped es
    → Matches s d
    → owned_run es s ≡ some s'
    → Carries s s' (sent es d)
run-Carries [] s d {s'} h k g =
    ap (λ (x : Owned). map decode_frame x.wire) (sym (run_done s {s' = s'} g))
    ∙ sym (append-nil (map decode_frame s.wire))
run-Carries (opened o ft pt ∷ es) s d {s'} h k g =
    let (m, t, r) = run_on (opened o ft pt) es s {s' = s'} g in
    let d' = if is_frame ft then put o (record { ft = ft; pt = pt; content = [] }) d else d in
    let after = opened_step o ft pt s m d h.0 k (unfold owned_step in t) in
    from s m s' (sent es d') after.1 (run-Carries es m d' {s' = s'} h.1 after.0 r)
run-Carries (wrote o bs ∷ es) s d {s'} h k g =
    let (m, t, r) = run_on (wrote o bs) es s {s' = s'} g in
    let d' = put o (record (d o) { content = (d o).content ++ bs }) d in
    let after = wrote_step o bs s m d k (unfold owned_step in t) in
    from s m s' (sent es d') after.1 (run-Carries es m d' {s' = s'} h after.0 r)
run-Carries (closed o ∷ es) s d {s'} h k g =
    let (m, t, r) = run_on (closed o) es s {s' = s'} g in
    let after = closed_step o s m d k (unfold owned_step in t) in
    run-Carries es m d {s' = s'} h after.0 r
    ∙ ap (λ w. w ++ map some (sent es d)) after.1
    ∙ append_assoc (map decode_frame s.wire) (some (d o) ∷ []) (map some (sent es d))
run-Carries (deadline_set ∷ es) s d {s'} h k g =
    let (m, t, r) = run_on deadline_set es s {s' = s'} g in
    let after = deadline_step s m d k (unfold owned_step in t) in
    from s m s' (sent es d) after.1 (run-Carries es m d {s' = s'} h after.0 r)

owned-sent :
    (es : List Event) {s : Owned}
    → AreTyped es
    → owned_run es unowned ≡ some s
    → map decode_frame s.wire ≡ map some (sent es no_drafts)
owned-sent es {s} h g =
    run-Carries es unowned no_drafts {s' = s} h (unfold Matches in λ o e. absurd (cc)) g

-- In whatever order goroutines open, write and close packets on a connection, if no call has to wait and each
-- goroutine writes and closes only a writer that it has opened, each frame on the wire decodes to the whole packet of
-- one goroutine, in the order of their closing, and there are no other frames; where all packet types are below 256.
pub run-sent :
    (es : List Event) {s : Socket}
    → AreTyped es
    → Websocket.run es new_socket ≡ some s
    → map decode_frame s.wire ≡ map some (sent es no_drafts)
run-sent es {s} h g = elim (Option-cases (owned_run es unowned)) [
  | inl e ↦ absurd (ground (arith, sym g ∙ run-concrete es unowned ∙ ap all_concrete e))
  | inr (t, e) ↦
      let same : concrete t ≡ s =
        some-injective _ _ (sym (run-concrete es unowned ∙ ap all_concrete e) ∙ g) in
      (λ i. map decode_frame (sym same i).wire) ∙ owned-sent es {s = t} h e
]
