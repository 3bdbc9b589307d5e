-- ===== src/Serial/Bytes/Laws.antt =====
-- What readTerminatedArray returns, and which bytes it writes.
use cameratrack.Base.{
  ℕ, zero, suc, ℤ, pos, negsuc, ◌+◌, ◌≤◌, ◌<◌, ◌≡◌, ◌⊎◌, inl, inr, refl, ◌∙◌, Bool-cases, true,
  false, ap, ◌++◌, ltb, ◌==◌, ==_ne, Option, some, if◌then◌else◌, if_same, if_true, if_false, List,
  [], ◌∷◌, length, arith,
}
use cameratrack.Serial.Read.{Io, Session, read_byte_array}
use cameratrack.Serial.Read.Laws.{IsBounded, read_byte_array-within}
use cameratrack.Serial.Bytes.{
  Body, put_bytes, Answer, is_terminated, terminated_loop, read_terminated_array,
}
use cameratrack.Serial.Bytes.Reads.{
  AreRead, runs_on, answer_of, IsLast, put_bytes-cons, runs_on-cons, IsLast-same,
}

-- No other byte than those from `first` up to `last`, which is left out, has changed.
abbrev pub SameBut : ℕ → ℕ → Body → Body → Type 0
SameBut first last body body' = (a : ℕ) → (a < first) ⊎ (last ≤ a) → body' a ≡ body a

put_bytes-SameBut :
    (got : List ℕ) (p : ℕ) (body : Body) → SameBut p (p + length got) body (put_bytes p got body)
put_bytes-SameBut [] p body a outside = refl
put_bytes-SameBut (b ∷ bs) p body a outside =
    put_bytes-SameBut bs (p + 1) (λ (a : ℕ). if a == p then b else body a) a
      (omega (arith, outside))
    ∙ rw (==_ne {a = a} {b = p} (omega (arith, outside))) refl

-- One read of a byte.
read_one :
    {W : Type 0} (io : Io W) (timeout : ℤ) (s : Session W)
    → IsBounded io
    → let (bytes, got, s') = read_byte_array io 1 timeout s in
      ((bytes ≡ negsuc 0)
        ⊎ (((bytes ≡ pos 0) × (got ≡ [])) ⊎ ((b : ℕ) × (bytes ≡ pos 1) × (got ≡ b ∷ []))))
      × (length got ≤ 1)
      × (s'.data_available ≡ s.data_available)
read_one io timeout s bounded =
    let (small, result, kept) = read_byte_array-within io 1 timeout s bounded in
    (
      one_result (read_byte_array io 1 timeout s).0 (read_byte_array io 1 timeout s).1 small result,
      small,
      kept,
    )
  where
    one_result :
        (bytes : ℤ) (got : List ℕ)
        → length got ≤ 1
        → (bytes ≡ negsuc 0) ⊎ (bytes ≡ pos (length got))
        → (bytes ≡ negsuc 0)
          ⊎ (((bytes ≡ pos 0) × (got ≡ [])) ⊎ ((b : ℕ) × (bytes ≡ pos 1) × (got ≡ b ∷ [])))
    one_result bytes got small (inl e) = inl e
    one_result bytes [] small (inr e) = inr (inl (e, refl))
    one_result bytes (b ∷ []) small (inr e) = inr (inr (b, e, refl))
    one_result bytes (b ∷ c ∷ got) small (inr e) = absurd (omega (arith, small))

-- After one read, `total` bytes at most are in the array.
in_array :
    (size total n : ℕ) → (total < size) ⊎ (total ≡ 0) → n ≤ 1 → (total + n ≤ size) ⊎ (total + n ≡ 1)
in_array size total zero more small = inl (omega (arith, more))
in_array size total (suc zero) (inl less) small = inl (omega (arith, less))
in_array size total (suc zero) (inr none_yet) small = inr (omega (arith, none_yet))
in_array size total (suc (suc n)) more small = absurd (omega (arith, small))

module _ {W : Type 0} (io : Io W) (timeout : ℤ) (offset size : ℕ) (terminator : ℕ × ℕ) where
  -- `r` is what the loop gives, from `total` bytes on, for reads of a byte that lead on and a last one.
  abbrev EndsBy : ℕ → Body → Session W → Option (Answer × Body × Session W) → Type 0
  EndsBy total body s r =
      (bytes : List ℕ) × (s1 : Session W) × AreRead io timeout bytes s s1
      × (runs_on offset size terminator total bytes body ≡ true)
      × (let (result, got, s') = read_byte_array io 1 timeout s1 in
          let body' = put_bytes (offset + total) (bytes ++ got) body in
          (r ≡ some (answer_of result, body', s'))
          × IsLast size terminator result (total + length (bytes ++ got)) body'
          × (s'.data_available ≡ s.data_available))

  EndsBy-last :
      (total : ℕ) (body : Body) (s : Session W) (r : Option (Answer × Body × Session W))
      → let (result, got, s') = read_byte_array io 1 timeout s in
        let body' = put_bytes (offset + total) got body in
        r ≡ some (answer_of result, body', s')
        → IsLast size terminator result (total + length got) body'
        → s'.data_available ≡ s.data_available
        → EndsBy total body s r
  EndsBy-last total body s r returns last kept = ([], s, refl, refl, (returns, last, kept))

  EndsBy-cons :
      (total b : ℕ) (body : Body) (s : Session W) (r : Option (Answer × Body × Session W))
      → let (result, got, s') = read_byte_array io 1 timeout s in
        let body' = put_bytes (offset + total) got body in
        result ≡ pos 1
        → got ≡ b ∷ []
        → s'.data_available ≡ s.data_available
        → is_terminated terminator (total + 1) body' ≡ false
        → ltb (total + 1) size ≡ true
        → EndsBy (total + 1) body' s' r
        → EndsBy total body s r
  EndsBy-cons total b body s r e one kept t l (bytes, s1, reads, on, (returns, last, kept2)) =
      let body' = put_bytes (offset + total) (read_byte_array io 1 timeout s).1 body in
      let same : body' ≡ put_bytes (offset + total) (b ∷ []) body =
        ap (λ (bs : List ℕ). put_bytes (offset + total) bs body) one in
      let (result, got, s2) = read_byte_array io 1 timeout s1 in
      let moved =
        put_bytes-cons (offset + total) (offset + (total + 1)) b (bytes ++ got) body body'
          (omega arith) same in
      (
        b ∷ bytes,
        s1,
        (e, one, reads),
        runs_on-cons offset size terminator total b bytes body body' same t l on,
        (
          returns ∙ ap (λ (there : Body). some (answer_of result, there, s2)) moved,
          IsLast-same size terminator result (total + 1 + length (bytes ++ got))
              (total + suc (length (bytes ++ got))) _ _ (omega arith) moved last,
          kept2 ∙ kept,
        ),
      )

  terminated_loop-AreRead :
      (fuel total : ℕ) (body : Body) (s : Session W)
      → IsBounded io
      → (total < size) ⊎ (total ≡ 0)
      → size < fuel + total
      → EndsBy total body s (terminated_loop io timeout offset size terminator fuel total body s)
  unfolding terminated_loop
  terminated_loop-AreRead zero total body s bounded more enough = absurd (omega (arith, more))
  terminated_loop-AreRead (suc fuel) total body s bounded more enough =
      let (result, got, s') = read_byte_array io 1 timeout s in
      let (cases, small, kept) = read_one io timeout s bounded in
      let body' = put_bytes (offset + total) got body in
      let bound = in_array size total (length got) more small in
      elim cases [
        | inl e ↦ EndsBy-last total body s _ (rw (terminated_loop, e) refl) (bound, inl e) kept
        | inr (inl (e, nothing)) ↦
            EndsBy-last total body s _ (rw (terminated_loop, e) (if_same _ _)) (bound, inr (inl e))
              kept
        | inr (inr (b, e, one)) ↦
            let single : length got ≡ 1 = ap length one in
            elim (Bool-cases (is_terminated terminator (total + 1) body')) [
              | inl t ↦
                  EndsBy-last total body s _ (rw (terminated_loop, e) (if_true _ _ t))
                    (bound, inr (inr (e, inl (rw single t)))) kept
              | inr t ↦ elim (Bool-cases (ltb (total + 1) size)) [
                | inl l ↦
                    rw (terminated_loop, e, t, l)
                      (EndsBy-cons total b body s _ e one kept t l (
                        terminated_loop-AreRead fuel (total + 1) body' s' bounded
                          (inl (ground (arith, l))) (omega arith)))
                | inr l ↦
                    EndsBy-last total body s _
                      (rw (terminated_loop, e) (if_false _ _ t ∙ if_false _ _ l))
                      (bound, inr (inr (e, inr (rw single (ground (arith, l)))))) kept
              ]
            ]
      ]

-- If read keeps to the count that it is asked for, readTerminatedArray with a length that is not
-- negative is this: reads of one byte each, one after the other, after none of which the terminator
-- is in place or the length reached; then one more read, which is the last: it fails, or gives
-- nothing, or gives a byte with which the two bytes of the terminator are in place or the length is
-- reached. It throws if that read failed, and else returns what that read did; exactly the bytes of
-- these reads are in the array, in their order from the offset on, no more than the length or one,
-- and all other bytes are as before, as is the flag of the event loop.
pub read_terminated_array-AreRead :
    {W : Type 0} (io : Io W) (timeout : ℤ) (body : Body) (offset size : ℕ) (terminator : ℕ × ℕ)
    (s : Session W)
    → IsBounded io
    → (bytes : List ℕ) × (s1 : Session W) × AreRead io timeout bytes s s1
      × (runs_on offset size terminator 0 bytes body ≡ true)
      × (let (result, got, s') = read_byte_array io 1 timeout s1 in
          let body' = put_bytes offset (bytes ++ got) body in
          let total = length (bytes ++ got) in
          (read_terminated_array io timeout body offset (pos size) terminator s
            ≡ some (answer_of result, body', s'))
          × IsLast size terminator result total body'
          × SameBut offset (offset + total) body body'
          × (s'.data_available ≡ s.data_available))
unfolding read_terminated_array
read_terminated_array-AreRead io timeout body offset size terminator s bounded =
    let (bytes, s1, reads, on, (returns, last, kept)) =
      terminated_loop-AreRead io timeout offset size terminator (suc size) 0 body s bounded
        (inr refl) (omega arith) in
    let (result, got, s') = read_byte_array io 1 timeout s1 in
    let start : put_bytes (offset + 0) (bytes ++ got) body ≡ put_bytes offset (bytes ++ got) body =
      ap (λ (p : ℕ). put_bytes p (bytes ++ got) body) (omega arith) in
    (
      bytes,
      s1,
      reads,
      on,
      (
        returns ∙ ap (λ (there : Body). some (answer_of result, there, s')) start,
        IsLast-same size terminator result (0 + length (bytes ++ got)) (length (bytes ++ got)) _ _
            (omega arith) start last,
        put_bytes-SameBut (bytes ++ got) offset body,
        kept,
      ),
    )
