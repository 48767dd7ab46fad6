-- ===== src/Utils/Transfer.antt =====
-- The loops of `write_n` and `read_n` in src/common/utils.c: what reaches the other side.
use mathlib.Core.Path.{subst}
use mathlib.Core.Option.{some-injective}
use sample_sds_storage.Base.{
  sizes, ℕ, zero, suc, ◌+◌, ◌-◌, ◌^◌, ◌≤◌, ◌<◌, min, ◌≡◌, refl, sym, ◌∙◌, ap, inl, inr, true, false,
  Option, none, some, List, [], ◌∷◌, ◌++◌, arith, ltb, le→ltb, ◌==◌, Bool-cases, if◌then◌else◌, ℤ,
  pos, int32, int32_small, to_size, length, take, drop, ok, ok-injective,
}
use sample_sds_storage.Utils.{interrupted, Write, took, refused, below, write_loop, write_n}

pub to_size_small : (n : ℕ) → n < 2 ^ 31 → to_size (pos n) ≡ n
to_size_small n h = omega arith

pub take-nil : (n : ℕ) → take {A = ℕ} n [] ≡ []
take-nil zero = refl
take-nil (suc n) = refl

take-drop_append : (a b : ℕ) (v : List ℕ) → take a v ++ take b (drop a v) ≡ take (a + b) v
take-drop_append zero b v = ap (λ n. take n v) (omega arith)
take-drop_append (suc a) b [] = take-nil b ∙ sym (take-nil (suc a + b))
take-drop_append (suc a) b (c ∷ v) =
    ap (λ w. c ∷ w) (take-drop_append a b v)
    ∙ ap (λ n. take n (c ∷ v)) (let e : suc (a + b) ≡ suc a + b = omega arith in e)

-- The first `count` bytes of the buffer have been sent, and `count` was returned.
pub record IsSent (buffer : List ℕ) (len : ℕ) (r : ℤ × List ℕ × List Write) : Type 0 where
  pub count : ℕ
  pub within : count ≤ len
  pub returned : r.0 ≡ pos count
  pub sent : r.1 ≡ take count buffer

-- Every call takes something or is interrupted.
abbrev pub IsWilling : List Write → Type 0
IsWilling [] = Unit
IsWilling (took w ∷ calls) = (0 < w) × IsWilling calls
IsWilling (refused errno ∷ calls) = (errno ≡ interrupted) × IsWilling calls

abbrev pub offered : List Write → ℕ
offered [] = 0
offered (took w ∷ calls) = w + offered calls
offered (refused errno ∷ calls) = offered calls

module _ (buffer : List ℕ) (len : ℕ) (fits : len ≤ length buffer) (small : len < 2 ^ 31) where
  below-pos : (n : ℕ) → n ≤ len → below (pos n) len ≡ ltb n len
  below-pos n h = rw (to_size_small n (omega arith)) refl

  -- One call of `write` with `n` bytes sent: the bytes that follow in the buffer are sent.
  chunk_sent :
      (n w : ℕ)
      → n ≤ len
      → let chunk = take (min w (len - to_size (pos n))) (drop (to_size (pos n)) buffer) in
        (length chunk ≡ min w (len - n))
        × (take n buffer ++ chunk ≡ take (n + min w (len - n)) buffer)
        × (int32 (to_size (pos n) + length chunk) ≡ pos (n + min w (len - n)))
  chunk_sent n w h =
      let e : to_size (pos n) ≡ n = to_size_small n (omega arith) in
      let k = min w (len - n) in
      let size : length (take k (drop n buffer)) ≡ k = grind sizes in
      rw e (size, take-drop_append n k buffer, rw size (int32_small (n + k) (omega arith)))

  write_loop-took :
      (w : ℕ) (calls : List Write) (n : ℕ)
      → n ≤ len
      → let k = min w (len - n) in
        write_loop (took w ∷ calls) buffer len (pos n) (take n buffer) ≡ (
          if ltb n len
          then (if k == 0
              then some (pos n, take n buffer, calls)
              else write_loop calls buffer len (pos (n + k)) (take (n + k) buffer))
          else some (pos n, take n buffer, took w ∷ calls))
  unfolding write_loop
  write_loop-took w calls n h =
      let (size, sent, count) = chunk_sent n w h in rw (sent, count, size, below-pos n h) refl

  write_loop-refused :
      (errno : ℕ) (calls : List Write) (n : ℕ)
      → n ≤ len
      → write_loop (refused errno ∷ calls) buffer len (pos n) (take n buffer) ≡ (
          if ltb n len
          then (if errno == interrupted
              then write_loop calls buffer len (pos n) (take n buffer)
              else some (pos n, take n buffer, calls))
          else some (pos n, take n buffer, refused errno ∷ calls))
  unfolding write_loop
  write_loop-refused errno calls n h = rw (below-pos n h) refl

  write_loop-nil :
      (n : ℕ)
      → n ≤ len
      → write_loop [] buffer len (pos n) (take n buffer)
        ≡ (if ltb n len then none else some (pos n, take n buffer, []))
  unfolding write_loop
  write_loop-nil n h = rw (below-pos n h) refl

  ended :
      {n : ℕ} {rest : List Write} {r : ℤ × List ℕ × List Write}
      → n ≤ len
      → ◌≡◌ {A = Option (ℤ × List ℕ × List Write)} (some (pos n, take n buffer, rest)) (some r)
      → IsSent buffer len r
  ended {n} h e =
      subst (IsSent buffer len) (some-injective _ _ e)
        (record { count = n; within = h; returned = refl; sent = refl })

  write_loop-IsSent :
      (calls : List Write) (n : ℕ) {r : ℤ × List ℕ × List Write}
      → n ≤ len
      → write_loop calls buffer len (pos n) (take n buffer) ≡ some r
      → IsSent buffer len r
  write_loop-IsSent [] n h e = elim (Bool-cases (ltb n len)) [
    | inl more ↦ cc (rw (write_loop-nil n h, more) at e)
    | inr all ↦ ended h (rw (write_loop-nil n h, all) at e)
  ]
  write_loop-IsSent (took w ∷ calls) n h e = elim (Bool-cases (ltb n len)) [
    | inl more ↦ elim (Bool-cases (min w (len - n) == 0)) [
      | inl stop ↦ ended h (rw (write_loop-took w calls n h, more, stop) at e)
      | inr go ↦
          write_loop-IsSent calls (n + min w (len - n)) (omega arith)
            (rw (write_loop-took w calls n h, more, go) at e)
    ]
    | inr all ↦ ended h (rw (write_loop-took w calls n h, all) at e)
  ]
  write_loop-IsSent (refused errno ∷ calls) n h e = elim (Bool-cases (ltb n len)) [
    | inl more ↦ elim (Bool-cases (errno == interrupted)) [
      | inl again ↦
          write_loop-IsSent calls n h (rw (write_loop-refused errno calls n h, more, again) at e)
      | inr stop ↦ ended h (rw (write_loop-refused errno calls n h, more, stop) at e)
    ]
    | inr all ↦ ended h (rw (write_loop-refused errno calls n h, all) at e)
  ]

  write_loop_all :
      (calls : List Write) (n : ℕ)
      → n ≤ len
      → IsWilling calls
      → len ≤ n + offered calls
      → (rest : List Write) × (write_loop calls buffer len (pos n) (take n buffer)
          ≡ some (pos len, take len buffer, rest))
  write_loop_all [] n h willing enough =
      let e : n ≡ len = omega arith in
      ([], unfold write_loop in rw (below-pos n h, e, le→ltb len len (omega arith)) refl)
  write_loop_all (took w ∷ calls) n h (able, willing) enough = elim (Bool-cases (ltb n len)) [
    | inl more ↦
        let go : (min w (len - n) == 0) ≡ false = ground arith in
        let (rest, run) =
          write_loop_all calls (n + min w (len - n)) (omega arith) willing (ground arith) in
        (rest, write_loop-took w calls n h ∙ rw (more, go) run)
    | inr all ↦
        let e : n ≡ len = ground arith in
        (
          took w ∷ calls,
          write_loop-took w calls n h
              ∙ rw all (ap (λ k. some (pos k, take k buffer, took w ∷ calls)) e),
        )
  ]
  write_loop_all (refused errno ∷ calls) n h (again, willing) enough =
      elim (Bool-cases (ltb n len)) [
        | inl more ↦
            let yes_again : (errno == interrupted) ≡ true = ground arith in
            let (rest, run) = write_loop_all calls n h willing enough in
            (rest, write_loop-refused errno calls n h ∙ rw (more, yes_again) run)
        | inr all ↦
            let e : n ≡ len = ground arith in
            (
              refused errno ∷ calls,
              write_loop-refused errno calls n h
                  ∙ rw all (ap (λ k. some (pos k, take k buffer, refused errno ∷ calls)) e),
            )
      ]

  -- Where `len` is below 2 ^ 31 and the buffer has as many bytes: whatever the calls of `write` do,
  -- if `write_n` returns, it has sent the first bytes of the buffer, at most `len`, and returns how
  -- many.
  pub write_n-IsSent :
      (calls : List Write) {r : ℤ × List ℕ × List Write}
      → write_n calls buffer len ≡ ok (some r)
      → IsSent buffer len r
  unfolding write_n
  write_n-IsSent calls {r} e =
      write_loop-IsSent calls 0 (omega arith)
        (ok-injective (rw (le→ltb (length buffer) len fits) at e))

  -- Where `len` is below 2 ^ 31 and the buffer has as many bytes, each call takes something or is
  -- interrupted, and together they take `len` bytes or more, `write_n` sends the first `len` bytes
  -- and returns `len`.
  pub write_n_all :
      (calls : List Write)
      → IsWilling calls
      → len ≤ offered calls
      → (rest : List Write) × (write_n calls buffer len
          ≡ ok (some (pos len, take len buffer, rest)))
  unfolding write_n
  write_n_all calls willing enough =
      let (rest, run) = write_loop_all calls 0 (omega arith) willing (omega arith) in
      (rest, rw (le→ltb (length buffer) len fits, run) refl)
