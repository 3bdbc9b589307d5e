-- ===== src/Locks/System/Laws.antt =====
-- Which files a call of the system changes.
use cameratrack.Base.{
  ◌≡◌, ◌≢◌, inl, inr, refl, ◌∙◌, Bool-cases, true, false, Option, Option-cases, none, some, [], ◌∷◌,
  arith,
}
use cameratrack.Locks.Text.{Bytes, same}
use cameratrack.Locks.System.{File, Os, set_entry, create_new, write_new, open_empty, unlink}

pub same_iff : (a b : Bytes) → same a b ≡ true → a ≡ b
same_iff [] [] e = refl
same_iff [] (b ∷ ys) e = absurd (ground arith)
same_iff (a ∷ xs) [] e = absurd (ground arith)
same_iff (a ∷ xs) (b ∷ ys) e =
    let head : a ≡ b = ground arith in
    let tail : same xs ys ≡ true = ground arith in rw (head, same_iff xs ys tail)

pub same_refl : (a : Bytes) → same a a ≡ true
same_refl [] = refl
same_refl (a ∷ xs) = ground (arith, same_refl xs)

pub same_ne : (a b : Bytes) → a ≢ b → same a b ≡ false
same_ne a b ne = elim (Bool-cases (same a b)) [ inl e ↦ absurd (ne (same_iff a b e)) | inr e ↦ e ]

-- Both of the states have the same file at a path, and the system is otherwise as it was.
abbrev pub SameSystem : Os → Os → Type 0
SameSystem os os' =
    (os'.can_open ≡ os.can_open)
    × (os'.can_read ≡ os.can_read)
    × (os'.can_unlink ≡ os.can_unlink)
    × (os'.alive ≡ os.alive)
    × (os'.pid ≡ os.pid)
    × (os'.ppid ≡ os.ppid)
    × (os'.temp ≡ os.temp)

-- Only the files at two paths may differ.
abbrev pub Within : Bytes → Bytes → Os → Os → Type 0
Within a b os os' = SameSystem os os' × ((q : Bytes) → q ≢ a → q ≢ b → os'.entry q ≡ os.entry q)

pub Within-refl : (a b : Bytes) (os : Os) → Within a b os os
Within-refl a b os = ((refl, refl, refl, refl, refl, refl, refl), λ q n m. refl)

pub Within-trans : (a b : Bytes) (x y z : Os) → Within a b x y → Within a b y z → Within a b x z
Within-trans a b x y z (s, e) (s', e') = (
  (s'.0 ∙ s.0, s'.1 ∙ s.1, s'.2 ∙ s.2, s'.3 ∙ s.3, s'.4 ∙ s.4, s'.5 ∙ s.5, s'.6 ∙ s.6),
  λ q n m. e' q n m ∙ e q n m,
)

pub Within-at :
    (a b c : Bytes) (os : Os) (f : Option File) → c ≡ b → Within a b os (set_entry c f os)
Within-at a b c os f p =
    ((refl, refl, refl, refl, refl, refl, refl), λ q n m. rw (same_ne q c (λ e. m (e ∙ p))))

pub Within-left : (a b : Bytes) (os : Os) (f : Option File) → Within a b os (set_entry a f os)
Within-left a b os f = ((refl, refl, refl, refl, refl, refl, refl), λ q n m. rw (same_ne q a n))

-- Each call that succeeds sets one entry.
pub create_new-set :
    (p : Bytes) (os os' : Os)
    → create_new p os ≡ some os'
    → (os.entry p ≡ none) × (os' ≡ set_entry p (some (record (os.created p) { content = [] })) os)
create_new-set p os os' done = elim (Option-cases (os.entry p)) [
  | inr (f, e) ↦ absurd (ground (arith, e, done))
  | inl e ↦ elim (Bool-cases (os.can_create p)) [
    | inr c ↦ absurd (ground (arith, e, c, done))
    | inl c ↦ (e, ground (arith, e, c, done))
  ]
]

pub open_empty-set :
    (p : Bytes) (os os' : Os)
    → open_empty p os ≡ some os'
    → (f : File) × (os' ≡ set_entry p (some f) os)
open_empty-set p os os' done = elim (Option-cases (os.entry p)) [
  | inl e ↦
      let new : create_new p os ≡ some os' = ground (arith, e, done) in
      (record (os.created p) { content = [] }, (create_new-set p os os' new).1)
  | inr (f, e) ↦ elim (Bool-cases (os.can_write p)) [
    | inr c ↦ absurd (ground (arith, e, c, done))
    | inl c ↦ (record f { content = [] }, ground (arith, e, c, done))
  ]
]

pub unlink-set : (p : Bytes) (os os' : Os) → unlink p os ≡ some os' → os' ≡ set_entry p none os
unlink-set p os os' done = elim (Option-cases (os.entry p)) [
  | inl e ↦ absurd (ground (arith, e, done))
  | inr (f, e) ↦ elim (Bool-cases (os.can_unlink p)) [
    | inr c ↦ absurd (ground (arith, e, c, done))
    | inl c ↦ ground (arith, e, c, done)
  ]
]

pub write_new-set :
    (p text : Bytes) (os os' : Os)
    → write_new p text os ≡ some os'
    → os' ≡ set_entry p (some (record (os.created p) { content = text })) os
write_new-set p text os os' done = elim (Bool-cases (os.can_write p)) [
  | inr c ↦ absurd (ground (arith, c, done))
  | inl c ↦ ground (arith, c, done)
]
