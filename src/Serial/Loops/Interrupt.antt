-- ===== src/Serial/Loops/Interrupt.antt =====
-- An event loop that is interrupted ends, whatever the other loops do.
use cameratrack.Base.{
  ℕ, ◌+◌, ◌≤◌, ◌≡◌, refl, ap, ◌∙◌, inl, inr, Bool, Bool-cases, Option-cases, true, false, ◌||◌,
  ◌==◌, Option, none, some, is_some, List, [], ◌∷◌, ◌++◌, length, length-append, arith, if_true,
  if_false,
}
use cameratrack.Chain.Seg.{Cells, has_address, AreDistinct, AllFail}
use cameratrack.Chain.Change.{AreDistinct-drop}
use cameratrack.Chain.Unlink.{outside_parts}
use cameratrack.Chain.Find.{update_first, update_at, remove_at}
use cameratrack.Serial.Events.{Calls}
use cameratrack.Serial.Loops.{
  Loop, Loops, is_loop_of, with_flag, interrupted, Command, start, turn, set_flag, interrupt, run,
}
use cameratrack.Serial.Loops.Spec.{get_at, list_exec, list_run, started, turn_of, IsLinked}
use cameratrack.Serial.Loops.Run.{run-list_run}

abbrev IsClosing : ℕ → Cells Loop → Type 0
IsClosing p xs = (x : Loop) × (get_at p xs ≡ some x) × (x.closing ≡ true)

abbrev is_turn_of : ℕ → Command → Bool
is_turn_of p (start q loop fd method) = false
is_turn_of p (turn q) = p == q
is_turn_of p (set_flag fd event flag) = false
is_turn_of p (interrupt fd) = false

-- The loop at an address takes no turn.
abbrev pub AreOthers : ℕ → List Command → Type 0
AreOthers p [] = Unit
AreOthers p (c ∷ cs) = (is_turn_of p c ≡ false) × AreOthers p cs

none_of {ℓ} : {A : Type ℓ} (o : Option A) → is_some o ≡ false → o ≡ none
none_of none e = refl
none_of (some a) e = absurd (ground (arith, e))

get_at-append :
    (p : ℕ) (xs ys : Cells Loop) (x : Loop) → get_at p xs ≡ some x → get_at p (xs ++ ys) ≡ some x
unfolding get_at
get_at-append p [] ys x e = absurd (ground (arith, e))
get_at-append p ((a, y) ∷ xs) ys x e = ground (arith, e, get_at-append p xs ys x)

get_at-update_at :
    (p q : ℕ) (f : Loop → Loop) (xs : Cells Loop)
    → (p == q) ≡ false
    → get_at p (update_at q f xs) ≡ get_at p xs
unfolding get_at update_at
get_at-update_at p q f [] ne = refl
get_at-update_at p q f ((a, y) ∷ xs) ne = ground (arith, ne, get_at-update_at p q f xs ne)

get_at-remove_at :
    (p q : ℕ) (xs : Cells Loop) → (p == q) ≡ false → get_at p (remove_at q xs) ≡ get_at p xs
unfolding get_at remove_at
get_at-remove_at p q [] ne = refl
get_at-remove_at p q ((a, y) ∷ xs) ne = ground (arith, ne, get_at-remove_at p q xs ne)

has_address-remove_at :
    (p : ℕ) (xs : Cells Loop) → AreDistinct xs → has_address p (remove_at p xs) ≡ false
unfolding remove_at
has_address-remove_at p [] out = refl
has_address-remove_at p ((a, x) ∷ xs) out = elim (Bool-cases (p == a)) [
  | inl e ↦ let at : p ≡ a = ground (arith, e) in rw (e, at) (out.1)
  | inr e ↦ rw (e, e) (has_address-remove_at p xs out.2)
]

update_first-IsClosing :
    (p : ℕ) (stop : Loop → Bool) (f : Loop → Loop) (xs : Cells Loop)
    → ((l : Loop) → l.closing ≡ true → (f l).closing ≡ true)
    → IsClosing p xs
    → IsClosing p (update_first stop f xs)
unfolding get_at update_first
update_first-IsClosing p stop f [] keeps (x, e, closing) = absurd (ground (arith, e))
update_first-IsClosing p stop f ((a, y) ∷ xs) keeps (x, e, closing) = elim (Bool-cases (p == a)) [
  | inl at ↦
      let same : y ≡ x = ground (arith, rw at at e) in
      elim (Bool-cases (stop y)) [
        | inl s ↦ rw (s, at) (f y, refl, keeps y (rw same closing))
        | inr s ↦ rw (s, at) (y, refl, rw same closing)
      ]
  | inr at ↦
      let later : get_at p xs ≡ some x = rw at at e in
      elim (Bool-cases (stop y)) [
        | inl s ↦ rw (s, at) (x, later, closing)
        | inr s ↦ rw (s, at) (update_first-IsClosing p stop f xs keeps (x, later, closing))
      ]
]

interrupted-IsClosing :
    (p fd : ℕ) (ys : Cells Loop) (x : Loop) (zs : Cells Loop)
    → AllFail (is_loop_of fd) ys
    → has_address p ys ≡ false
    → x.fd ≡ fd
    → IsClosing p (update_first (is_loop_of fd) interrupted (ys ++ (p, x) ∷ zs))
unfolding get_at update_first
interrupted-IsClosing p fd [] x zs fail out at =
    let found : (x.fd == fd) ≡ true = ground (arith, at) in
    let here : (p == p) ≡ true = ground arith in rw (found, here) (interrupted x, refl, refl)
interrupted-IsClosing p fd ((b, y) ∷ ys) x zs fail out at =
    let other : (p == b) ≡ false = ground (arith, out) in
    rw (fail.0, other) (interrupted-IsClosing p fd ys x zs fail.1 (ground (arith, out)) at)

module _ {W : Type 0} (calls : Calls W) (select : W → Bool × W) where
  list_exec-IsClosing :
      (p : ℕ) (c : Command) (xs : Cells Loop) (w : W)
      → is_turn_of p c ≡ false
      → IsClosing p xs
      → IsClosing p (list_exec calls select c xs w).0
  unfolding list_exec
  list_exec-IsClosing p (start q loop fd true) xs w other (x, e, closing) =
      let new = (started calls select loop fd true w).0 in
      elim (Bool-cases (q == 0 || has_address q xs)) [
        | inl b ↦ rw b (x, e, closing)
        | inr b ↦ rw b (x, get_at-append p xs ((q, new) ∷ []) x e, closing)
      ]
  list_exec-IsClosing p (start q loop fd false) xs w other (x, e, closing) =
      elim (Bool-cases (q == 0 || has_address q xs)) [
        | inl b ↦ rw b (x, e, closing)
        | inr b ↦ rw b (x, e, closing)
      ]
  list_exec-IsClosing p (turn q) xs w other (x, e, closing) = elim (Option-cases (get_at q xs)) [
    | inl g ↦ rw g (x, e, closing)
    | inr (y, g) ↦
        let new = (turn_of calls select y w).0 in
        elim (Bool-cases y.closing) [
          | inl b ↦ rw g (rw (if_true _ _ b) (x, get_at-remove_at p q xs other ∙ e, closing))
          | inr b ↦
              rw g (rw (if_false _ _ b) (x, get_at-update_at p q (λ _. new) xs other ∙ e, closing))
        ]
  ]
  list_exec-IsClosing p (set_flag fd event flag) xs w other closing =
      update_first-IsClosing p (is_loop_of fd) (with_flag event flag) xs (λ l e. e) closing
  list_exec-IsClosing p (interrupt fd) xs w other closing =
      update_first-IsClosing p (is_loop_of fd) interrupted xs (λ l e. refl) closing

  list_run-IsClosing :
      (p : ℕ) (cs : List Command) (xs : Cells Loop) (w : W)
      → AreOthers p cs
      → IsClosing p xs
      → IsClosing p (list_run calls select cs xs w).0
  unfolding list_run
  list_run-IsClosing p [] xs w others closing = closing
  list_run-IsClosing p (c ∷ cs) xs w others closing =
      let (xs', w') = list_exec calls select c xs w in
      list_run-IsClosing p cs xs' w' others.1 (list_exec-IsClosing p c xs w others.0 closing)

  list_run-turn :
      (p : ℕ) (cs : List Command) (xs : Cells Loop) (w : W)
      → IsClosing p (list_run calls select cs xs w).0
      → (list_run calls select (cs ++ turn p ∷ []) xs w).0
        ≡ remove_at p (list_run calls select cs xs w).0
  unfolding list_run list_exec
  list_run-turn p [] xs w (x, e, closing) =
      rw e (ap (λ (r : Cells Loop × W). r.0) (if_true _ _ closing))
  list_run-turn p (c ∷ cs) xs w closing =
      let (xs', w') = list_exec calls select c xs w in list_run-turn p cs xs' w' closing

  interrupted_run :
      (p fd : ℕ) (others : List Command) (w : W) (ys : Cells Loop) (x : Loop) (zs : Cells Loop)
      → AllFail (is_loop_of fd) ys
      → has_address p ys ≡ false
      → x.fd ≡ fd
      → AreOthers p others
      → IsClosing p (list_run calls select (interrupt fd ∷ others) (ys ++ (p, x) ∷ zs) w).0
  unfolding list_run list_exec
  interrupted_run p fd others w ys x zs fail out at apart =
      let xs = update_first (is_loop_of fd) interrupted (ys ++ (p, x) ∷ zs) in
      list_run-IsClosing p others xs w apart (interrupted-IsClosing p fd ys x zs fail out at)

  -- Once the first loop on a descriptor is interrupted, and whatever loops start, take turns, get
  -- flags or are interrupted before its next turn, that turn ends it: its structure is out of use.
  pub interrupt-turn :
      (fuel p fd : ℕ) (others : List Command) (s : Loops) (w : W) (ys : Cells Loop) (x : Loop)
      (zs : Cells Loop)
      → IsLinked s (ys ++ (p, x) ∷ zs)
      → AllFail (is_loop_of fd) ys
      → x.fd ≡ fd
      → AreOthers p others
      → length (ys ++ (p, x) ∷ zs) + length others + 2 ≤ fuel
      → let ended = run calls select fuel (interrupt fd ∷ others ++ turn p ∷ []) s w in
        (s' : Loops) × (w' : W) × (ended ≡ some (s', w')) × (s'.heap p ≡ none)
  interrupt-turn fuel p fd others s w ys x zs l fail at apart enough =
      let xs = ys ++ (p, x) ∷ zs in
      let cs = interrupt fd ∷ others in
      let (s1, begun, l1) = run-list_run calls select fuel cs s w xs l (omega arith) in
      let (s2, done, l2) =
        run-list_run calls select fuel (cs ++ turn p ∷ []) s w xs l
          (omega (arith, length-append {0} others (turn p ∷ []))) in
      let drop = AreDistinct-drop ys zs p x l.chain.distinct in
      let out : has_address p ys ≡ false = (outside_parts ys zs p drop.1).0 in
      let closing = interrupted_run p fd others w ys x zs fail out at apart in
      let left = list_run-turn p cs xs w closing in
      let gone = has_address-remove_at p (list_run calls select cs xs w).0 l1.chain.distinct in
      (
        s2,
        (list_run calls select (cs ++ turn p ∷ []) xs w).1,
        done,
        none_of (s2.heap p) (l2.live p ∙ ap (has_address p) left ∙ gone),
      )
