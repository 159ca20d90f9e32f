-- ===== src/Websocket/Steps.antt =====
-- What one call does to the packet that each goroutine is writing.
use mathlib.Core.Option.{some-injective}
use mathlib.Core.Path.{subst}
use go_socket_io.Prelude.{
  ℕ, ◌<◌, ◌≡◌, refl, sym, ap, ◌∙◌, inl, inr, true, false, Option, none, some, List, [], ◌∷◌, ◌++◌,
  Bytes, if◌then◌else◌, ◌==◌, ℕ-Eq, map, arith, Bool-cases,
}
use go_socket_io.Packet.{FrameType, PacketType, string_byte, binary_byte, byte_to_packet_type}
use go_socket_io.Payload.Stream.{Packet}
use go_socket_io.Websocket.{
  Frame, is_owned, owned_by, type_byte, is_frame, Event, opened, wrote, closed, deadline_set,
  decode_frame,
}
use go_socket_io.Websocket.Owned.{Owned, open_writer, put_bytes, release, extend}

-- What each goroutine has written since it opened its writer.
abbrev pub Drafts : Type 0
Drafts = ℕ → Packet

abbrev pub put : ℕ → Packet → Drafts → Drafts
put o p d k = if o == k then p else d k

abbrev pub no_drafts : Drafts
no_drafts k = record { ft = 0; pt = 0; content = [] }

-- Each goroutine's packet, at its `Close`.
abbrev pub sent : List Event → Drafts → List Packet
sent [] d = []
sent (opened o ft pt ∷ es) d =
    sent es (if is_frame ft then put o (record { ft = ft; pt = pt; content = [] }) d else d)
sent (wrote o bs ∷ es) d = sent es (put o (record (d o) { content = (d o).content ++ bs }) d)
sent (closed o ∷ es) d = d o ∷ sent es d
sent (deadline_set ∷ es) d = sent es d

-- Every packet type is a byte.
abbrev pub AreTyped : List Event → Type 0
AreTyped [] = Unit
AreTyped (opened o ft pt ∷ es) = (pt < 256) × AreTyped es
AreTyped (e ∷ es) = AreTyped es

abbrev pub IsCurrent : Owned → Packet → Type 0
IsCurrent s p = decode_frame s.current ≡ some p

-- The goroutine with the lock is writing its own packet.
unfoldable pub Matches : Owned → Drafts → Type 0
Matches s d = (o : ℕ) → s.owner ≡ some o → IsCurrent s (d o)

first_byte :
    (ft : FrameType) (pt : PacketType)
    → pt < 256
    → is_frame ft ≡ true
    → decode_frame (ft, type_byte ft pt ∷ []) ≡ some (record { ft = ft; pt = pt; content = [] })
unfolding decode_frame type_byte byte_to_packet_type string_byte binary_byte
first_byte ft pt h k = ground arith

more_bytes :
    (f : Frame) (bs : Bytes) (p : Packet)
    → decode_frame f ≡ some p
    → decode_frame (f.0, f.1 ++ bs) ≡ some (record p { content = p.content ++ bs })
unfolding decode_frame
more_bytes (ft, []) bs p h = absurd (cc)
more_bytes (ft, b ∷ cs) bs p h =
    ap (λ (q : Packet). some (record q { content = q.content ++ bs })) (some-injective _ _ h)

own : (p : Packet) (o : ℕ) (d : Drafts) → put o p d o ≡ p
own p o d = ground arith

pub opened_step :
    (o : ℕ) (ft : FrameType) (pt : PacketType) (s m : Owned) (d : Drafts)
    → pt < 256
    → Matches s d
    → open_writer o ft pt s ≡ some m
    → Matches m (if is_frame ft then put o (record { ft = ft; pt = pt; content = [] }) d else d)
      × (m.wire ≡ s.wire)
unfolding open_writer Matches
opened_step o ft pt s m d h k e = elim (Bool-cases (is_frame ft)) [
  | inr t ↦
      let same : s ≡ m = some-injective _ _ (refused t ∙ e) in
      (
        rw t (subst (λ (x : Owned). (p : ℕ) → x.owner ≡ some p → IsCurrent x (d p)) same k),
        λ i. (sym same i).wire,
      )
  | inl t ↦ elim (Bool-cases (is_owned s.owner)) [
    | inl u ↦ absurd (ground arith)
    | inr u ↦ given t u (some-injective _ _ (taken t u ∙ e))
  ]
]
  where
    given :
        is_frame ft ≡ true
        → is_owned s.owner ≡ false
        → record s { owner = some o; current = (ft, type_byte ft pt ∷ []) } ≡ m
        → ((p : ℕ)
            → m.owner ≡ some p
            → IsCurrent m (
                (if is_frame ft then put o (record { ft = ft; pt = pt; content = [] }) d else d) p))
          × (m.wire ≡ s.wire)
    given t u same = rw t (
        subst
          (λ (x : Owned).
            ((p : ℕ)
              → x.owner ≡ some p
              → IsCurrent x (put o (record { ft = ft; pt = pt; content = [] }) d p))
            × (x.wire ≡ s.wire))
          same
          (
            λ p q.
                first_byte ft pt h t
                ∙ ap some (
                    sym (own (record { ft = ft; pt = pt; content = [] }) o d)
                    ∙ ap (put o (record { ft = ft; pt = pt; content = [] }) d)
                        (some-injective _ _ q)),
            refl,
          ))

    refused : is_frame ft ≡ false → some s ≡ open_writer o ft pt s
    refused t = rw t refl

    taken :
        is_frame ft ≡ true
        → is_owned s.owner ≡ false
        → some (record s { owner = some o; current = (ft, type_byte ft pt ∷ []) })
          ≡ open_writer o ft pt s
    taken t u = rw (t, u) refl

owner_of : (o : ℕ) (p : Option ℕ) → owned_by o p ≡ true → p ≡ some o
owner_of o none h = absurd (cc)
owner_of o (some p) h = ground arith

pub wrote_step :
    (o : ℕ) (bs : Bytes) (s m : Owned) (d : Drafts)
    → Matches s d
    → put_bytes o bs s ≡ some m
    → Matches m (put o (record (d o) { content = (d o).content ++ bs }) d) × (m.wire ≡ s.wire)
unfolding put_bytes Matches
wrote_step o bs s m d k e = elim (Bool-cases (owned_by o s.owner)) [
  | inr t ↦ absurd (ground arith)
  | inl t ↦
      let p : Packet = record (d o) { content = (d o).content ++ bs } in
      subst
        (λ (x : Owned).
          ((q : ℕ) → x.owner ≡ some q → IsCurrent x (put o p d q)) × (x.wire ≡ s.wire))
        (some-injective _ _ (written t ∙ e))
        (
          λ q u.
              more_bytes s.current bs (d o) (k o (owner_of o s.owner t))
              ∙ ap some (
                  sym (own p o d)
                  ∙ ap (put o p d) (some-injective _ _ (sym (owner_of o s.owner t) ∙ u))),
          refl,
        )
]
  where
    written :
        owned_by o s.owner ≡ true
        → some (record s { current = (s.current.0, s.current.1 ++ bs) }) ≡ put_bytes o bs s
    written t = rw t refl

pub closed_step :
    (o : ℕ) (s m : Owned) (d : Drafts)
    → Matches s d
    → release o s ≡ some m
    → Matches m d × (map decode_frame m.wire ≡ map decode_frame s.wire ++ (some (d o) ∷ []))
unfolding release Matches
closed_step o s m d k e = elim (Bool-cases (owned_by o s.owner)) [
  | inr t ↦ absurd (ground arith)
  | inl t ↦
      subst
        (λ (x : Owned).
          ((q : ℕ) → x.owner ≡ some q → IsCurrent x (d q))
          × (map decode_frame x.wire ≡ map decode_frame s.wire ++ (some (d o) ∷ [])))
        (some-injective _ _ (finished t ∙ e))
        (
          λ q u. absurd (cc),
          map-append s.wire (s.current ∷ [])
              ∙ ap (λ x. map decode_frame s.wire ++ (x ∷ [])) (k o (owner_of o s.owner t)),
        )
]
  where
    finished :
        owned_by o s.owner ≡ true
        → some (record s { owner = none; wire = s.wire ++ (s.current ∷ []) }) ≡ release o s
    finished t = rw t refl

    map-append :
        (xs ys : List Frame)
        → map decode_frame (xs ++ ys) ≡ map decode_frame xs ++ map decode_frame ys
    map-append [] ys = refl
    map-append (x ∷ xs) ys = ap (λ l. decode_frame x ∷ l) (map-append xs ys)

pub deadline_step :
    (s m : Owned) (d : Drafts) → Matches s d → extend s ≡ some m → Matches m d × (m.wire ≡ s.wire)
unfolding extend Matches
deadline_step s m d k e = elim (Bool-cases (is_owned s.owner)) [
  | inl t ↦ absurd (ground arith)
  | inr t ↦
      let same : s ≡ m = some-injective _ _ (free t ∙ e) in
      (
        subst (λ (x : Owned). (p : ℕ) → x.owner ≡ some p → IsCurrent x (d p)) same k,
        λ i. (sym same i).wire,
      )
]
  where
    free : is_owned s.owner ≡ false → some s ≡ extend s
    free t = rw t refl
