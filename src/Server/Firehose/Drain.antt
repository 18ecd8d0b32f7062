-- ===== src/Server/Firehose/Drain.antt =====
-- The drain of the buffer stops where no frame is left, and does not depend on how the bytes came.
use tak_rs.Common.{
  ℕ, zero, suc, ◌≤◌, Bool, true, false, Option, List, [], ◌∷◌, ◌++◌, length, take, drop, ◌≡◌, refl,
  arith, ◌⊎◌, inl, inr, take-append, drop-append, length-append, length-drop,
}
use tak_rs.Cot.{Result, ok, err, panic}
use tak_rs.Cot.Framing.{decode_stream}
use tak_rs.Cot.Framing.Stream.{decode_stream_bounds, decode_stream-append}
use tak_rs.Server.Firehose.{Session, drain, handle_frame}

abbrev pub is_ok {ℓ} : {A : Type ℓ} → Result A → Bool
is_ok (ok a) = true
is_ok (err e) = false
is_ok panic = false

pub is_ok-cases {ℓ} : {A : Type ℓ} (r : Result A) → (is_ok r ≡ false) ⊎ ((a : A) × (r ≡ ok a))
is_ok-cases (ok a) = inr (a, refl)
is_ok-cases (err e) = inl refl
is_ok-cases panic = inl refl

pub no_frame_in_nothing : is_ok (decode_stream []) ≡ false
unfolding decode_stream
no_frame_in_nothing = refl

module _ {Msg S : Type 0} (decode_message : List ℕ → Option Msg)
    (deliver : Msg → List ℕ → S → S) where
  drained : ℕ → List ℕ → Session S → List ℕ × Session S
  drained = drain decode_message deliver

  pub drain_frame :
      (n : ℕ) (buf : List ℕ) (s : Session S) (total : ℕ) (payload : List ℕ)
      → decode_stream buf ≡ ok (total, payload)
      → drain decode_message deliver (suc n) buf s
        ≡ drain decode_message deliver n
            (drop total buf)
            (handle_frame decode_message deliver (take total buf) s)
  unfolding drain
  drain_frame n buf s total payload e = rw (drain, e) refl

  pub drain_stuck :
      (n : ℕ) (buf : List ℕ) (s : Session S)
      → is_ok (decode_stream buf) ≡ false
      → drain decode_message deliver n buf s ≡ (buf, s)
  unfolding drain
  drain_stuck zero buf s h = refl
  drain_stuck (suc n) buf s h = go (decode_stream buf) h
    where
      go :
          (r : Result (ℕ × List ℕ))
          → is_ok r ≡ false
          → (elim r [
            | ok (total, payload) ↦
                drain decode_message deliver n
                  (drop total buf)
                  (handle_frame decode_message deliver (take total buf) s)
            | err e ↦ (buf, s)
            | panic ↦ (buf, s)
          ])
            ≡ (buf, s)
      go (ok a) h = cc
      go (err e) h = refl
      go panic h = refl

  -- With at least the length of the buffer as fuel, the drain ends with bytes from which no frame
  -- can be decoded, and that are no more than the buffer had.
  pub drain_done :
      (n : ℕ) (buf : List ℕ) (s : Session S)
      → length buf ≤ n
      → (is_ok (decode_stream (drain decode_message deliver n buf s).0) ≡ false)
        × (length (drain decode_message deliver n buf s).0 ≤ length buf)
  drain_done zero [] s h =
      rw (drain_stuck 0 [] s no_frame_in_nothing) (no_frame_in_nothing, omega arith)
  drain_done zero (b ∷ buf) s h = absurd (omega arith)
  drain_done (suc n) buf s h = elim (is_ok-cases (decode_stream buf)) [
    | inl none_left ↦ rw (drain_stuck (suc n) buf s none_left) (none_left, omega arith)
    | inr ((total, payload), e) ↦ rw (drain_frame n buf s total payload e) (
        ground (
          arith,
          decode_stream_bounds buf total payload e,
          length-drop total buf,
          drain_done n (drop total buf) (handle_frame decode_message deliver (take total buf) s),
        ))
  ]

  pub drain_fuel :
      (n m : ℕ) (buf : List ℕ) (s : Session S)
      → length buf ≤ n
      → length buf ≤ m
      → drain decode_message deliver n buf s ≡ drain decode_message deliver m buf s
  drain_fuel zero m [] s h h' =
      rw (drain_stuck 0 [] s no_frame_in_nothing, drain_stuck m [] s no_frame_in_nothing) refl
  drain_fuel zero m (b ∷ buf) s h h' = absurd (omega arith)
  drain_fuel (suc n) zero [] s h h' =
      rw (drain_stuck 0 [] s no_frame_in_nothing, drain_stuck (suc n) [] s no_frame_in_nothing) refl
  drain_fuel (suc n) zero (b ∷ buf) s h h' = absurd (omega arith)
  drain_fuel (suc n) (suc m) buf s h h' = elim (is_ok-cases (decode_stream buf)) [
    | inl none_left ↦
        rw (drain_stuck (suc n) buf s none_left, drain_stuck (suc m) buf s none_left) refl
    | inr ((total, payload), e) ↦
        rw (drain_frame n buf s total payload e, drain_frame m buf s total payload e)
          (drain_fuel n m (drop total buf) (handle_frame decode_message deliver (take total buf) s)
            (ground (arith, h, decode_stream_bounds buf total payload e, length-drop total buf))
            (ground (arith, h', decode_stream_bounds buf total payload e, length-drop total buf)))
  ]

  -- Draining what is there and then what comes behind it is draining both at once.
  pub drain-append :
      (n : ℕ) (buf more : List ℕ) (s : Session S)
      → length (buf ++ more) ≤ n
      → drain decode_message deliver n (buf ++ more) s ≡ (
          let (rest, after) = drain decode_message deliver n buf s in
          drain decode_message deliver n (rest ++ more) after)
  drain-append zero buf more s h =
      rw (empty buf (ground (arith, h, length-append buf more)))
        (rw (drain_stuck 0 [] s no_frame_in_nothing) refl)
    where
      empty : (l : List ℕ) → length l ≤ 0 → l ≡ []
      empty [] h = refl
      empty (x ∷ l) h = absurd (omega arith)
  drain-append (suc n) buf more s h = elim (is_ok-cases (decode_stream buf)) [
    | inl none_left ↦ rw (drain_stuck (suc n) buf s none_left) refl
    | inr ((total, payload), e) ↦
        rw
          (
            drain_frame n buf s total payload e,
            drain_frame n (buf ++ more) s total payload
                (decode_stream-append buf more total payload e),
            take-append total buf more (small total payload e),
            drop-append total buf more (small total payload e),
            drain-append n (drop total buf) more (next total) (fits total payload e),
          )
          (drain_fuel n (suc n) ((after total).0 ++ more) (after total).1 (enough total payload e)
            (omega (arith, enough total payload e)))
  ]
    where
      next : ℕ → Session S
      next total = handle_frame decode_message deliver (take total buf) s

      after : ℕ → List ℕ × Session S
      after total = drain decode_message deliver n (drop total buf) (next total)

      small :
          (total : ℕ) (payload : List ℕ)
          → decode_stream buf ≡ ok (total, payload)
          → total ≤ length buf
      small total payload e = ground (arith, decode_stream_bounds buf total payload e)

      fits :
          (total : ℕ) (payload : List ℕ)
          → decode_stream buf ≡ ok (total, payload)
          → length (drop total buf ++ more) ≤ n
      fits total payload e = ground (
        arith,
        h,
        decode_stream_bounds buf total payload e,
        length-drop total buf,
        length-append buf more,
        length-append (drop total buf) more,
      )

      enough :
          (total : ℕ) (payload : List ℕ)
          → decode_stream buf ≡ ok (total, payload)
          → length ((after total).0 ++ more) ≤ n
      enough total payload e = ground (
        arith,
        fits total payload e,
        drain_done n (drop total buf) (next total),
        length-append (drop total buf) more,
        length-append (after total).0 more,
      )
