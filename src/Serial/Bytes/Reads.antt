-- ===== src/Serial/Bytes/Reads.antt =====
-- The reads of one byte each that readTerminatedArray makes, and when they end.
use mathlib.Core.Path.{subst}
use cameratrack.Base.{
  ℕ, ℤ, pos, negsuc, ◌+◌, ◌≤◌, ◌≡◌, ◌⊎◌, ◌∙◌, Bool, true, false, not, ap, ◌&&◌, ltb, if◌then◌else◌,
  List, [], ◌∷◌,
}
use cameratrack.Serial.Read.{Io, Session, read_byte_array}
use cameratrack.Serial.Bytes.{Body, put_bytes, Answer, failure, answer, is_negative, is_terminated}

-- The bytes come from reads of one byte each, one after the other, which lead from `s` to `s1`.
abbrev pub AreRead : {W : Type 0} → Io W → ℤ → List ℕ → Session W → Session W → Type 0
AreRead io timeout [] s s1 = s ≡ s1
AreRead io timeout (b ∷ bytes) s s1 =
    let (result, got, s') = read_byte_array io 1 timeout s in
    (result ≡ pos 1) × (got ≡ b ∷ []) × AreRead io timeout bytes s' s1

-- After none of the bytes is the terminator in place or the length reached.
abbrev pub runs_on : ℕ → ℕ → ℕ × ℕ → ℕ → List ℕ → Body → Bool
runs_on offset size terminator total [] body = true
runs_on offset size terminator total (b ∷ bytes) body =
    let body' = put_bytes (offset + total) (b ∷ []) body in
    (not (is_terminated terminator (total + 1) body') && ltb (total + 1) size)
    && runs_on offset size terminator (total + 1) bytes body'

-- What Java is given for the result of the last read.
abbrev pub answer_of : ℤ → Answer
answer_of result = if is_negative result then failure else answer result

-- The read that is the last, with `total` bytes in the array: it fails, or gives nothing, or gives a
-- byte with which the terminator is in place or the length is reached.
abbrev pub IsLast : ℕ → ℕ × ℕ → ℤ → ℕ → Body → Type 0
IsLast size terminator result total body =
    ((total ≤ size) ⊎ (total ≡ 1))
    × ((result ≡ negsuc 0)
        ⊎ ((result ≡ pos 0)
            ⊎ ((result ≡ pos 1) × ((is_terminated terminator total body ≡ true) ⊎ (size ≤ total)))))

pub put_bytes-cons :
    (p q b : ℕ) (bytes : List ℕ) (body body' : Body)
    → q ≡ p + 1
    → body' ≡ put_bytes p (b ∷ []) body
    → put_bytes q bytes body' ≡ put_bytes p (b ∷ bytes) body
put_bytes-cons p q b bytes body body' next same =
    ap (λ (a : ℕ). put_bytes a bytes body') next ∙ ap (put_bytes (p + 1) bytes) same

pub runs_on-cons :
    (offset size : ℕ) (terminator : ℕ × ℕ) (total b : ℕ) (bytes : List ℕ) (body body' : Body)
    → body' ≡ put_bytes (offset + total) (b ∷ []) body
    → is_terminated terminator (total + 1) body' ≡ false
    → ltb (total + 1) size ≡ true
    → runs_on offset size terminator (total + 1) bytes body' ≡ true
    → runs_on offset size terminator total (b ∷ bytes) body ≡ true
runs_on-cons offset size terminator total b bytes body body' same t l on =
    let next = put_bytes (offset + total) (b ∷ []) body in
    let t' : is_terminated terminator (total + 1) next ≡ false =
      subst (λ (there : Body). is_terminated terminator (total + 1) there ≡ false) same t in
    let on' : runs_on offset size terminator (total + 1) bytes next ≡ true =
      subst (λ (there : Body). runs_on offset size terminator (total + 1) bytes there ≡ true) same
        on in
    both t' l on'
  where
    both : {x y z : Bool} → x ≡ false → y ≡ true → z ≡ true → ((not x && y) && z) ≡ true
    both t l on = rw (t, l) on

pub IsLast-same :
    (size : ℕ) (terminator : ℕ × ℕ) (result : ℤ) (m n : ℕ) (body body' : Body)
    → m ≡ n
    → body ≡ body'
    → IsLast size terminator result m body
    → IsLast size terminator result n body'
IsLast-same size terminator result m n body body' e same last =
    subst (λ (k : ℕ). IsLast size terminator result k body') e
      (subst (λ (there : Body). IsLast size terminator result m there) same last)
