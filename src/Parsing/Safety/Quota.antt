-- ===== src/Parsing/Safety/Quota.antt =====
-- How many calls a `TokenBucketLimiter` lets through.
use domain_watcher.Dict
use domain_watcher.Dict.{Dict, get-insert, get-insert_self}
use domain_watcher.Parsing.Safety.{Bucket, TokenBucketLimiter, refilled, take_token, acquire, min}
use domain_watcher.Prelude.{
  ℕ, ◌+◌, ◌-◌, ◌*◌, ◌≤◌, ◌≡◌, refl, Bool, true, false, Option, none, some, List, [], ◌∷◌, ◌==◌,
  list_eq, nat_eq, if◌then◌else◌, arith, leb, ltb, eq_iff, eq_refl, sym, Bool-cases, ltb→lt, leb→le,
  All, ◌&&◌, inl, inr,
}
use domain_watcher.Shared.Text.{Text}
use domain_watcher.Shared.Time.{Instant}

-- the calls of `acquire`, each with its key and what the clock reads
abbrev pub Calls : Type 0
Calls = List (Text × Instant)

unfoldable pub after : Calls → TokenBucketLimiter → TokenBucketLimiter
after [] l = l
after ((k, now) ∷ calls) l = after calls (acquire k now l).1

-- how many calls for a key are let through
unfoldable pub granted : Text → Calls → TokenBucketLimiter → ℕ
granted key [] l = 0
granted key ((k, now) ∷ calls) l =
    (if k == key && (acquire k now l).0 then 1 else 0) + granted key calls (acquire k now l).1

-- what a bucket can still let through until `until`, in units
unfoldable pub credit : ℕ → ℕ → Instant → Instant → Option Bucket → ℕ
credit capacity window from until none = capacity * window + capacity * (until - from)
credit capacity window from until (some b) = b.tokens + capacity * (until - b.last_refill)

abbrev pub Timely : Instant → Option Bucket → Type 0
Timely until none = Unit
Timely until (some b) = b.last_refill ≤ until

span : (c p q r : ℕ) → p ≤ q → q ≤ r → (q - p) * c + c * (r - q) ≡ c * (r - p)
span c p q r pq qr = sum c (q - p) (r - q) (r - p) (omega arith)
  where
    sum : (c x y z : ℕ) → x + y ≡ z → x * c + c * y ≡ c * z
    sum c x y z h = rw (sym h) (omega arith)

full : (m n x y : ℕ) → n + x ≤ y → min m n + x ≤ y
full m n x y h = ground arith

refilled-credit :
    (c w from until now : ℕ) (o : Option Bucket)
    → from ≤ now
    → now ≤ until
    → Timely until o
    → credit c w from until (some (refilled c w now o)) ≤ credit c w from until o
unfolding refilled credit
refilled-credit c w from until now none a b h = omega (arith, span c from now until a b)
refilled-credit c w from until now (some o) a b h = elim (Bool-cases (ltb o.last_refill now)) [
  | inl e ↦
      let before : o.last_refill ≤ now = omega (arith, ltb→lt o.last_refill now e) in
      rw e (
        full (c * w) (o.tokens + (now - o.last_refill) * c) (c * (until - now))
          (o.tokens + c * (until - o.last_refill))
          (omega (arith, span c o.last_refill now until before b)))
  | inr e ↦ rw e (omega arith)
]

refilled-Timely :
    (c w until now : ℕ) (o : Option Bucket)
    → now ≤ until
    → Timely until o
    → (refilled c w now o).last_refill ≤ until
unfolding refilled
refilled-Timely c w until now none b h = b
refilled-Timely c w until now (some o) b h = elim (Bool-cases (ltb o.last_refill now)) [
  | inl e ↦ rw e b
  | inr e ↦ rw e h
]

take-credit :
    (c w from until : ℕ) (b : Bucket)
    → (if (take_token w b).0 then w else 0) + credit c w from until (some (take_token w b).1)
      ≡ credit c w from until (some b)
unfolding take_token credit
take-credit c w from until b = elim (Bool-cases (leb w b.tokens)) [
  | inl e ↦ rw e (omega (arith, leb→le w b.tokens e))
  | inr e ↦ rw e (omega arith)
]

take-Timely :
    (w until : ℕ) (b : Bucket) → b.last_refill ≤ until → (take_token w b).1.last_refill ≤ until
unfolding take_token
take-Timely w until b h = elim (Bool-cases (leb w b.tokens)) [ inl e ↦ rw e h | inr e ↦ rw e h ]

-- every clock reading lies between two instants
abbrev pub Between : Instant → Instant → Calls → Type 0
Between from until = All (λ c. (from ≤ c.1) × (c.1 ≤ until))

acquire-credit :
    (from until : ℕ) (k : Text) (now : Instant) (l : TokenBucketLimiter)
    → from ≤ now
    → now ≤ until
    → Timely until (Dict.get l.buckets k)
    → (if (acquire k now l).0 then l.window else 0)
        + credit l.capacity l.window from until (Dict.get (acquire k now l).1.buckets k)
      ≤ credit l.capacity l.window from until (Dict.get l.buckets k)
unfolding acquire
acquire-credit from until k now l a b h =
    let o = Dict.get l.buckets k in
    let r = refilled l.capacity l.window now o in
    rw (get-insert_self l.buckets k (take_token l.window r).1) (
      omega (
        arith,
        take-credit l.capacity l.window from until r,
        refilled-credit l.capacity l.window from until now o a b h,
      ))

acquire-other :
    (k j : Text) (now : Instant) (l : TokenBucketLimiter)
    → (j == k) ≡ false
    → Dict.get (acquire j now l).1.buckets k ≡ Dict.get l.buckets k
unfolding acquire
acquire-other k j now l h = rw (get-insert l.buckets j k _, h) refl

acquire-Timely :
    (until : ℕ) (k : Text) (now : Instant) (l : TokenBucketLimiter)
    → now ≤ until
    → Timely until (Dict.get l.buckets k)
    → Timely until (Dict.get (acquire k now l).1.buckets k)
unfolding acquire
acquire-Timely until k now l b h =
    let o = Dict.get l.buckets k in
    let r = refilled l.capacity l.window now o in
    rw (get-insert_self l.buckets k (take_token l.window r).1)
      (take-Timely l.window until r (refilled-Timely l.capacity l.window until now o b h))

module _ (from until : ℕ) (k j : Text) (now : Instant) (l : TokenBucketLimiter) (a : from ≤ now)
    (b : now ≤ until) (t : Timely until (Dict.get l.buckets k)) where
  step-credit :
      (if j == k && (acquire j now l).0 then l.window else 0)
        + credit l.capacity l.window from until (Dict.get (acquire j now l).1.buckets k)
      ≤ credit l.capacity l.window from until (Dict.get l.buckets k)
  step-credit = elim (Bool-cases (j == k)) [
    | inl e ↦ rw ((eq_iff j k).0 e, eq_refl k) (acquire-credit from until k now l a b t)
    | inr e ↦ rw (e, acquire-other k j now l e) (omega arith)
  ]

  step-Timely : Timely until (Dict.get (acquire j now l).1.buckets k)
  step-Timely = elim (Bool-cases (j == k)) [
    | inl e ↦ rw ((eq_iff j k).0 e) (acquire-Timely until k now l b t)
    | inr e ↦ rw (acquire-other k j now l e) t
  ]

no-credit :
    (from until w : ℕ) (granted_now : Bool) (x c c' : ℕ)
    → (if granted_now then w else 0) + c' ≤ c
    → w * x ≤ c'
    → w * ((if granted_now then 1 else 0) + x) ≤ c
no-credit from until w true x c c' a b = omega arith
no-credit from until w false x c c' a b = omega arith

granted-credit :
    (from until : ℕ) (k : Text) (calls : Calls) (l : TokenBucketLimiter)
    → Between from until calls
    → Timely until (Dict.get l.buckets k)
    → l.window * granted k calls l ≤ credit l.capacity l.window from until (Dict.get l.buckets k)
unfolding granted acquire
granted-credit from until k [] l h t = omega arith
granted-credit from until k ((j, now) ∷ calls) l ((a, b), h) t =
    no-credit from until l.window (j == k && (acquire j now l).0) _ _ _
      (step-credit from until k j now l a b t)
      (granted-credit from until k calls (acquire j now l).1 h
        (step-Timely from until k j now l a b t))

-- While the clock stays between two instants, the calls of `acquire` for a key without a bucket let
-- through at most `capacity` calls and `capacity` more for each window that lies between them.
pub granted_at_most :
    (from until : ℕ) (key : Text) (calls : Calls) (l : TokenBucketLimiter)
    → Dict.get l.buckets key ≡ none
    → Between from until calls
    → l.window * granted key calls l ≤ l.capacity * l.window + l.capacity * (until - from)
unfolding credit
granted_at_most from until key calls l new h =
    let bound = granted-credit from until key calls l h (rw new tt) in rw new at bound
