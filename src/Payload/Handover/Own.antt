-- ===== src/Payload/Handover/Own.antt =====
-- Which answer a `FeedIn` gets, in every interleaving.
use go_socket_io.Prelude.{
  ℕ, ◌≡◌, ◌⊎◌, refl, sym, ◌∙◌, ap, inl, inr, Bool, true, false, Option, some, All, if◌then◌else◌,
  ◌==◌, ℕ-Eq, arith, Bool-cases,
}
use mathlib.Core.Path.{subst}
use go_socket_io.Payload.Feeder.{Cause}
use go_socket_io.Payload.Handover.{
  Feeding, idle, offering, awaiting, Reading, free, asking, holding, answering, Payload, new, place,
  Behind, released, kept, Step, feed, feed_overlapped, feed_paused, feed_closed, ask, handed,
  finished, answered, offer_expired, await_expired, ask_expired, answer_expired, ask_paused,
  closing, offer_closed, ask_closed, answer_closed, Reach, here, next, IsOwn,
}

-- A `FeedIn` that awaits an answer and a decoder that is about one are about the same source.
Agree : Feeding → Reading → Type 0
Agree (awaiting t) (holding s) = s ≡ t
Agree (awaiting t) (answering s e) = s ≡ t
Agree _ _ = Unit

abbrev is_busy : Feeding → Bool
is_busy idle = false
is_busy _ = true

-- At most one goroutine is inside, and then the flag is set.
record IsMatched (p : Payload) : Type 0 where
  who : ℕ
  slot : Feeding
  shown : (j : ℕ) → p.feeders j ≡ place who slot (λ i. idle) j
  flag : p.feeding ≡ is_busy slot
  agree : Agree slot p.reading
  own : All IsOwn p.returned

with_free : (f : Feeding) → Agree f free
unfolding Agree
with_free idle = tt
with_free (offering s) = tt
with_free (awaiting s) = tt

with_asking : (f : Feeding) → Agree f asking
unfolding Agree
with_asking idle = tt
with_asking (offering s) = tt
with_asking (awaiting s) = tt

with_idle : (r : Reading) → Agree idle r
unfolding Agree
with_idle free = tt
with_idle asking = tt
with_idle (holding s) = tt
with_idle (answering s e) = tt

with_offer : (s : ℕ) (r : Reading) → Agree (offering s) r
unfolding Agree
with_offer s free = tt
with_offer s asking = tt
with_offer s (holding t) = tt
with_offer s (answering t e) = tt

holding-Agree :
    (f : Feeding) (s : ℕ) (e : Option Cause) → Agree f (holding s) → Agree f (answering s e)
unfolding Agree
holding-Agree idle s e k = tt
holding-Agree (offering t) s e k = tt
holding-Agree (awaiting t) s e k = k

answered-Agree :
    (f : Feeding) (s : ℕ) (e : Option Cause) {r : Reading}
    → Behind s e r
    → Agree f (answering s e)
    → Agree f r
unfolding Agree
answered-Agree f s e released k = unfold Agree in with_free f
answered-Agree idle s (some c) kept k = tt
answered-Agree (offering t) s (some c) kept k = tt
answered-Agree (awaiting t) s (some c) kept k = k

not_busy : (f : Feeding) → is_busy f ≡ false → f ≡ idle
not_busy idle e = refl
not_busy (offering s) e = absurd (cc)
not_busy (awaiting s) e = absurd (cc)

-- The goroutine that is inside is the only one.
sole :
    (k who : ℕ) (f slot : Feeding)
    → is_busy f ≡ true
    → place who slot (λ i. idle) k ≡ f
    → (who ≡ k) × (slot ≡ f)
sole k who f slot b e = elim (Bool-cases (who == k)) [
  | inl t ↦ (ground (arith, t), (λ i. if sym t i then slot else idle) ∙ e)
  | inr t ↦
      let out : idle ≡ f = (λ i. if sym t i then slot else idle) ∙ e in
      absurd (ground (arith, ap is_busy out, b))
]

-- Only the goroutine `k` may be inside before it moves on, so only it is behind.
placed :
    (k who : ℕ) (f slot : Feeding) (feeders : ℕ → Feeding)
    → ((j : ℕ) → feeders j ≡ place who slot (λ i. idle) j)
    → (slot ≡ idle) ⊎ (who ≡ k)
    → (j : ℕ) → place k f feeders j ≡ place k f (λ i. idle) j
placed k who f slot feeders shown (inl e) j =
    λ i. if k == j then f else (shown j ∙ (λ l. if who == j then e l else idle) ∙ same (who == j)) i
  where
    same : (b : Bool) → (if b then idle else idle) ≡ idle
    same true = refl
    same false = refl
placed k who f slot feeders shown (inr e) j = elim (Bool-cases (k == j)) [
  | inl t ↦ rw t refl
  | inr t ↦
      rw t (shown j ∙ (λ i. if e i == j then slot else idle) ∙ (λ i. if t i then slot else idle))
]

-- A step of the decoder, or one that only adds a `FeedIn` that has returned.
stays :
    (p q : Payload) (m : IsMatched p)
    → q.feeders ≡ p.feeders
    → q.feeding ≡ p.feeding
    → Agree m.slot q.reading
    → All IsOwn q.returned
    → IsMatched q
stays p q m places flag agree own = record {
  who = m.who;
  slot = m.slot;
  shown = λ j. (λ i. places i j) ∙ m.shown j;
  flag = flag ∙ m.flag;
  agree = agree;
  own = own;
}

-- A goroutine that is inside returns from `FeedIn`.
leaves :
    (p q : Payload) (k : ℕ) (f : Feeding) (m : IsMatched p)
    → is_busy f ≡ true
    → p.feeders k ≡ f
    → q.feeders ≡ place k idle p.feeders
    → q.feeding ≡ false
    → All IsOwn q.returned
    → IsMatched q
leaves p q k f m busy inside places flag own =
    let only = sole k m.who f m.slot busy (sym (m.shown k) ∙ inside) in
    record {
      who = k;
      slot = idle;
      shown = λ j. (λ i. places i j) ∙ placed k m.who idle m.slot p.feeders m.shown (inr only.0) j;
      flag = flag;
      agree = with_idle q.reading;
      own = own;
    }

Step-IsMatched : {p q : Payload} → Step p q → IsMatched p → IsMatched q
Step-IsMatched (feed p k s o g i) m = record {
  who = k;
  slot = offering s;
  shown =
      placed k m.who (offering s) m.slot p.feeders m.shown (inl (not_busy m.slot (sym m.flag ∙ g)));
  flag = refl;
  agree = with_offer s p.reading;
  own = m.own;
}
Step-IsMatched (feed_overlapped p k s o g i) m = stays p _ m refl refl m.agree (tt, m.own)
Step-IsMatched (feed_paused p k s o g i) m = stays p _ m refl refl m.agree (tt, m.own)
Step-IsMatched (feed_closed p k s o i) m = stays p _ m refl refl m.agree (tt, m.own)
Step-IsMatched (ask p o r) m = stays p _ m refl refl (with_asking m.slot) m.own
Step-IsMatched (handed p k s f r) m =
    let only = sole k m.who (offering s) m.slot refl (sym (m.shown k) ∙ f) in
    record {
      who = k;
      slot = awaiting s;
      shown = placed k m.who (awaiting s) m.slot p.feeders m.shown (inr only.0);
      flag = m.flag ∙ ap is_busy only.1;
      agree = unfold Agree in refl;
      own = m.own;
    }
Step-IsMatched (finished p s e r) m =
    stays p _ m refl refl (holding-Agree m.slot s e (subst (λ x. Agree m.slot x) r m.agree)) m.own
Step-IsMatched (answered p k t s e r f a b) m =
    let only = sole k m.who (awaiting t) m.slot refl (sym (m.shown k) ∙ f) in
    let same : Agree (awaiting t) (answering s e) =
      subst (λ x. Agree x (answering s e)) only.1 (subst (λ x. Agree m.slot x) a m.agree) in
    leaves p _ k (awaiting t) m refl f refl refl (unfold Agree in same, m.own)
Step-IsMatched (offer_expired p k s f) m = leaves p _ k (offering s) m refl f refl refl (tt, m.own)
Step-IsMatched (await_expired p k s f) m = leaves p _ k (awaiting s) m refl f refl refl (tt, m.own)
Step-IsMatched (ask_expired p r) m = stays p _ m refl refl (with_free m.slot) m.own
Step-IsMatched (answer_expired p s e r a b) m =
    stays p _ m refl refl (answered-Agree m.slot s e b (subst (λ x. Agree m.slot x) a m.agree))
      m.own
Step-IsMatched (ask_paused p r) m = stays p _ m refl refl (with_free m.slot) m.own
Step-IsMatched (closing p) m = stays p _ m refl refl m.agree m.own
Step-IsMatched (offer_closed p k s o f) m = leaves p _ k (offering s) m refl f refl refl (tt, m.own)
Step-IsMatched (ask_closed p o r) m = stays p _ m refl refl (with_free m.slot) m.own
Step-IsMatched (answer_closed p s e r o a b) m =
    stays p _ m refl refl (answered-Agree m.slot s e b (subst (λ x. Agree m.slot x) a m.agree))
      m.own

nobody : (b : Bool) → idle ≡ (if b then idle else idle)
nobody true = refl
nobody false = refl

new-IsMatched : IsMatched new
new-IsMatched = record {
  who = 0;
  slot = idle;
  shown = λ j. nobody (0 == j);
  flag = refl;
  agree = with_idle free;
  own = tt;
}

Reach-IsMatched : {p q : Payload} → Reach p q → IsMatched p → IsMatched q
Reach-IsMatched here m = m
Reach-IsMatched (next r st) m = Step-IsMatched st (Reach-IsMatched r m)

-- However goroutines that call `FeedIn`, the decoder, their deadlines, pauses and `Close` interleave from a new payload
-- on, and whether or not the decoder keeps a source behind an error, every `FeedIn` that has returned with an answer of
-- the decoder has got the one about its own source, and never that of a source of another `FeedIn`.
pub Reach-IsOwn : (p : Payload) → Reach new p → All IsOwn p.returned
Reach-IsOwn p r = (Reach-IsMatched r new-IsMatched).own
