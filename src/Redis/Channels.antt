-- ===== src/Redis/Channels.antt =====
-- The channel of a server's messages, and its parts as `onMessage` takes them.
use go_socket_io.Prelude.{
  ℕ, false, some, List, [], ◌∷◌, ◌++◌, Bytes, ◌≡◌, ◌≢◌, refl, ap, ◌∙◌, Lacks, ◌==◌, arith,
  Bool-cases, inl, inr,
}
use go_socket_io.Redis.{hash, onto_first, split, last_two, channel_key}

is_no_hash : (b : ℕ) → b ≢ hash → (b == hash) ≡ false
is_no_hash b h = ground arith

split_lem : (b : Bytes) → Lacks hash b → split b ≡ b ∷ []
unfolding split
split_lem [] h = refl
split_lem (b ∷ bs) h = rw (is_no_hash b h.0, split_lem bs h.1) refl

-- There is a first part.
first_part : (a : Bytes) → (part : Bytes) × (parts : List Bytes) × (split a ≡ part ∷ parts)
unfolding split
first_part [] = ([], [], refl)
first_part (b ∷ bs) = elim (Bool-cases (b == hash)) [
  | inl t ↦ ([], split bs, rw t refl)
  | inr t ↦ let (part, parts, e) = first_part bs in (b ∷ part, parts, rw t (ap (onto_first b) e))
]

onto_first-append :
    (b : ℕ) (part : Bytes) (parts more : List Bytes)
    → onto_first b ((part ∷ parts) ++ more) ≡ onto_first b (part ∷ parts) ++ more
onto_first-append b part parts more = refl

split_at_hash : (a b : Bytes) → split (a ++ (hash ∷ b)) ≡ split a ++ split b
unfolding split
split_at_hash [] b = refl
split_at_hash (x ∷ a) b = elim (Bool-cases (x == hash)) [
  | inl t ↦ rw t (ap (◌∷◌ []) (split_at_hash a b))
  | inr t ↦
      let (part, parts, e) = first_part a in
      rw t (ap (onto_first x) (split_at_hash a b) ∙ rw e refl)
]

last_two_lem : (xs : List Bytes) (a b : Bytes) → last_two (xs ++ (a ∷ b ∷ [])) ≡ some (a, b)
unfolding last_two
last_two_lem [] a b = refl
last_two_lem (x ∷ []) a b = refl
last_two_lem (x ∷ y ∷ []) a b = refl
last_two_lem (x ∷ y ∷ z ∷ xs) a b = last_two_lem (y ∷ z ∷ xs) a b

-- From the channel of a server, whose namespace and id have no `#`, the two are found.
pub last_two-channel_key :
    (prefix nsp uid : Bytes)
    → Lacks hash nsp
    → Lacks hash uid
    → last_two (split (channel_key prefix nsp uid)) ≡ some (nsp, uid)
unfolding channel_key
last_two-channel_key prefix nsp uid h k =
    ap last_two (split_at_hash prefix (nsp ++ (hash ∷ uid)))
    ∙ (ap (λ parts. last_two (split prefix ++ parts)) (split_at_hash nsp uid)
        ∙ (rw (split_lem nsp h, split_lem uid k) (last_two_lem (split prefix) nsp uid)))
