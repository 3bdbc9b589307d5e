-- ===== src/Termios/Ports/Order.antt =====
-- Lists of ports in ascending order of their descriptors, and what a search finds in them.
use cameratrack.Base.{
  ℕ, ◌+◌, ◌<◌, ◌≤◌, ◌≡◌, ◌≢◌, refl, Bool, Bool-cases, inl, inr, true, false, ◌||◌, ◌==◌, none, some,
  if◌then◌else◌, List, [], ◌∷◌, arith,
}
use cameratrack.Termios.Ports.{Entry, find_from, free_after, get_free_fd}

-- Every descriptor is above `low`, and above those before it.
abbrev pub Ascending : ℕ → List Entry → Type 0
Ascending low [] = Unit
Ascending low (e ∷ es) = (low < e.fd) × Ascending e.fd es

abbrev pub is_used : ℕ → List Entry → Bool
is_used fd [] = false
is_used fd (e ∷ es) = (e.fd == fd) || is_used fd es

pub Ascending-weaken : (a b : ℕ) (es : List Entry) → a ≤ b → Ascending b es → Ascending a es
Ascending-weaken a b [] le up = tt
Ascending-weaken a b (e ∷ es) le (lt, up) = (omega arith, up)

pub is_used-below :
    (low fd : ℕ) (es : List Entry) → Ascending low es → fd ≤ low → is_used fd es ≡ false
is_used-below low fd [] up le = refl
is_used-below low fd (e ∷ es) (lt, up) le =
    let other : (e.fd == fd) ≡ false = ground arith in
    rw (other, is_used-below e.fd fd es up (omega arith))

pub find_from-below :
    (low fd : ℕ) (es : List Entry) → Ascending low es → fd ≤ low → find_from fd es ≡ none
unfolding find_from
find_from-below low fd [] up le = refl
find_from-below low fd (e ∷ es) (lt, up) le =
    let other : (e.fd == fd) ≡ false = ground arith in
    let some_fd : (e.fd == 0) ≡ false = ground arith in
    rw (some_fd, other, find_from-below e.fd fd es up (omega arith))

-- One step of the search, where every node has a descriptor.
pub find_from-cons :
    (low fd : ℕ) (e : Entry) (es : List Entry)
    → low < e.fd
    → find_from fd (e ∷ es) ≡ (if fd == e.fd then some e else find_from fd es)
unfolding find_from
find_from-cons low fd e es lt = ground arith

-- The descriptor that `free_after` gives is the least above `last` that is not used.
abbrev IsLeast : ℕ → ℕ → List Entry → Type 0
IsLeast last fd es =
    (last < fd) × (is_used fd es ≡ false) × ((k : ℕ) → last < k → k < fd → is_used k es ≡ true)

IsLeast-eq : (last a b : ℕ) (es : List Entry) → a ≡ b → IsLeast last b es → IsLeast last a es
IsLeast-eq last a b es e least = rw e least

IsLeast-next :
    (last r : ℕ) (e : Entry) (es : List Entry)
    → e.fd ≡ last + 1
    → IsLeast e.fd r es
    → IsLeast last r (e ∷ es)
IsLeast-next last r e es next (above, unused, rest) =
    let other : (e.fd == r) ≡ false = ground arith in
    (
      omega arith,
      rw (other, unused),
      λ k p q. elim (Bool-cases (e.fd == k)) [
        | inl h ↦ rw h
        | inr h ↦ rw (h, rest k (ground arith) q)
      ],
    )

IsLeast-gap :
    (last : ℕ) (e : Entry) (es : List Entry)
    → last < e.fd
    → e.fd ≢ last + 1
    → Ascending e.fd es
    → IsLeast last (last + 1) (e ∷ es)
IsLeast-gap last e es lt ne up =
    let other : (e.fd == last + 1) ≡ false = ground arith in
    (
      omega arith,
      rw (other, is_used-below e.fd (last + 1) es up (omega arith)),
      λ k p q. absurd (omega arith),
    )

free_after-IsLeast :
    (last : ℕ) (es : List Entry) → Ascending last es → IsLeast last (free_after last es) es
unfolding free_after
free_after-IsLeast last [] up = (omega arith, refl, λ k p q. absurd (omega arith))
free_after-IsLeast last (e ∷ es) (lt, up) = elim (Bool-cases (e.fd == last + 1)) [
  | inl s ↦
      let step : free_after last (e ∷ es) ≡ free_after e.fd es = ground (arith, s) in
      IsLeast-eq last (free_after last (e ∷ es)) (free_after e.fd es) (e ∷ es) step (
        IsLeast-next last (free_after e.fd es) e es (ground (arith, s))
          (free_after-IsLeast e.fd es up))
  | inr s ↦
      let step : free_after last (e ∷ es) ≡ last + 1 = ground (arith, s) in
      IsLeast-eq last (free_after last (e ∷ es)) (last + 1) (e ∷ es) step
        (IsLeast-gap last e es lt (ground (arith, s)) up)
]

-- On an ascending list get_free_fd gives the least positive descriptor that no open port uses.
pub get_free_fd-IsLeast :
    (es : List Entry)
    → Ascending 0 es
    → (0 < get_free_fd es)
      × (is_used (get_free_fd es) es ≡ false)
      × ((k : ℕ) → 0 < k → k < get_free_fd es → is_used k es ≡ true)
unfolding get_free_fd
get_free_fd-IsLeast [] up = (omega arith, refl, λ k p q. absurd (omega arith))
get_free_fd-IsLeast (e ∷ es) (lt, up) = elim (Bool-cases (e.fd == 1)) [
  | inl s ↦
      let one : e.fd ≡ 0 + 1 = ground (arith, s) in
      let step : get_free_fd (e ∷ es) ≡ free_after e.fd es = ground (arith, s) in
      IsLeast-eq 0 (get_free_fd (e ∷ es)) (free_after e.fd es) (e ∷ es) step
        (IsLeast-next 0 (free_after e.fd es) e es one (free_after-IsLeast e.fd es up))
  | inr s ↦
      let step : get_free_fd (e ∷ es) ≡ 1 = ground (arith, s) in
      IsLeast-eq 0 (get_free_fd (e ∷ es)) 1 (e ∷ es) step
        (IsLeast-gap 0 e es lt (ground (arith, s)) up)
]
